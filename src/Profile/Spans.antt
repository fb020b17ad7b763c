-- ===== src/Profile/Spans.antt =====
-- assign_span_ids of app/profile/parse.py.
use Prim.Native.Char.{code}
use Prim.Native.String.{◌++◌ as append_text}
use job_match_pipeline.Prelude.{
  ℕ, suc, Bool, true, false, ◌&&◌, ◌||◌, not, String, List, [], ◌∷◌, Option, none, some, is_none,
  ltb, or_else, if◌then◌else◌,
}
use job_match_pipeline.Prelude.Text.{truthy, strip}
use job_match_pipeline.Payload.{Builtins, pos, number}
use job_match_pipeline.Db.Rows.{WorkBullet}
use job_match_pipeline.Extract.Synthesize.{stripped_items}
use job_match_pipeline.Profile.Schema.{WorkHistoryEntry, ParsedResume, Role, LlmParsePayload}
use job_match_pipeline.Profile.Fields.{
  ResumeLibrary, is_present, normalize_date, normalize_seniority, normalize_arrangements,
  normalize_bullet,
}

-- `a <= b` on texts, which compares code points.
unfoldable pub text_leb : String → String → Bool
text_leb String.[] t = true
text_leb (String.◌∷◌ c s) String.[] = false
text_leb (String.◌∷◌ c s) (String.◌∷◌ d t) =
    let rest = text_leb s t in
    if ltb (code c) (code d) then true else if ltb (code d) (code c) then false else rest

-- The first component of two tuples decides unless it is the same.
abbrev pub leb_then : String → String → Bool → Bool
leb_then a b rest = text_leb a b && (not (text_leb b a) || rest)

module _ (py : Builtins) (lib : ResumeLibrary) where
  -- `_role_sort_key`
  abbrev pub role_sort_key : Role → String × String × String
  role_sort_key r = (
    or_else (normalize_date lib r.start_date) "",
    lib.lower (strip r.employer),
    lib.lower (strip r.title),
  )

  -- `_role_sort_key(r) <= _role_sort_key(s)`
  unfoldable pub role_leb : Role → Role → Bool
  unfolding text_leb
  role_leb r s =
      let (a, b, c) = role_sort_key r in
      let (d, e, f) = role_sort_key s in leb_then a d (leb_then b e (text_leb c f))

  -- `sorted`, which keeps the order of equal keys
  unfoldable pub insert_role : Role → List Role → List Role
  insert_role r [] = r ∷ []
  insert_role r (s ∷ ss) =
      let rest = insert_role r ss in if role_leb r s then r ∷ s ∷ ss else s ∷ rest

  unfoldable pub sort_roles : List Role → List Role
  unfolding insert_role
  sort_roles [] = []
  sort_roles (r ∷ rs) = insert_role r (sort_roles rs)

  -- `f"wh:{index}:b:{j}"`
  abbrev digits : ℕ → String
  digits n = py.str_of_value (number (pos n))

  unfoldable pub span_id_of : ℕ → ℕ → String
  span_id_of index j = append_text "wh:" (append_text (digits index) (append_text ":b:" (digits j)))

  -- The bullets from number `j` on; a blank one has a number and is left out.
  unfoldable pub number_bullets : ℕ → ℕ → List String → List WorkBullet
  unfolding span_id_of normalize_bullet
  number_bullets index j [] = []
  number_bullets index j (text ∷ texts) =
      let rest = number_bullets index (suc j) texts in
      if truthy text && truthy (strip text)
      then record { span_id = span_id_of index j; text = normalize_bullet lib text } ∷ rest
      else rest

  -- `bool(value)` of an optional text
  abbrev has_text : Option String → Bool
  has_text none = false
  has_text (some s) = truthy s

  abbrev is_open_end : Option String → Bool
  is_open_end none = false
  is_open_end (some s) = truthy s && is_present lib s

  abbrev strip_some : Option String → Option String
  strip_some none = none
  strip_some (some s) = if truthy s then some (strip s) else none

  unfoldable pub entry_of : ℕ → Role → WorkHistoryEntry
  unfolding number_bullets is_present normalize_date
  entry_of index role =
      let end = normalize_date lib role.end_date in
      let open_end = is_open_end role.end_date in
      record {
        employer = strip role.employer;
        title = strip role.title;
        start_date = normalize_date lib role.start_date;
        end_date = if open_end then none else end;
        is_current = if open_end then true else is_none end && has_text role.start_date;
        location = strip_some role.location;
        source = "parsed";
        bullets = number_bullets index 0 role.bullets;
      }

  unfoldable pub entries_from : ℕ → List Role → List WorkHistoryEntry
  unfolding entry_of
  entries_from index [] = []
  entries_from index (role ∷ roles) = entry_of index role ∷ entries_from (suc index) roles

  unfoldable pub assign_span_ids : LlmParsePayload → ParsedResume
  unfolding sort_roles entries_from normalize_seniority normalize_arrangements stripped_items
  assign_span_ids p = record {
    work_history = entries_from 0 (sort_roles p.work_history);
    skill_spans = stripped_items p.skill_spans;
    locations = stripped_items p.locations;
    seniority = normalize_seniority lib p.seniority;
    title_families = stripped_items p.title_families;
    work_arrangement = normalize_arrangements lib p.work_arrangement;
    comp_floor = p.comp_floor;
    summary = strip_some p.summary;
  }
