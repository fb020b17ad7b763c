-- ===== src/Profile/Offline.antt =====
-- FallbackResumeParser of app/profile/parse.py: the loop over the lines of a resume.
use job_match_pipeline.Prelude.{
  Bool, false, not, String, List, [], ◌∷◌, ◌++◌, Option, none, some, elem, map, last, is_none,
  is_some, is_empty, string_eq, if◌then◌else◌, ◌==◌,
}
use Prim.Native.String.{◌++◌ as append_text}
use job_match_pipeline.Prelude.Text.{truthy, strip, occurs, join}
use job_match_pipeline.Payload.{Builtins}
use job_match_pipeline.Extract.Synthesize.{stripped_items}
use job_match_pipeline.Skills.Aliases.{Dict}
use job_match_pipeline.Profile.Schema.{ParsedResume, Role, LlmParsePayload}
use job_match_pipeline.Profile.Fields.{ResumeLibrary, DateRange, strip_chars}
use job_match_pipeline.Profile.Spans.{assign_span_ids}

-- The rules of `_title_family`.
abbrev pub family_rules : List (String × String)
family_rules =
    ("machine learning", "Machine Learning")
    ∷ ("data scien", "Data Science")
    ∷ ("data engineer", "Data Engineering")
    ∷ ("backend", "Backend Engineering")
    ∷ ("frontend", "Frontend Engineering")
    ∷ ("front-end", "Frontend Engineering")
    ∷ ("full stack", "Full Stack")
    ∷ ("fullstack", "Full Stack")
    ∷ ("full-stack", "Full Stack")
    ∷ ("ios", "Mobile")
    ∷ ("android", "Mobile")
    ∷ ("mobile", "Mobile")
    ∷ ("devops", "Platform/SRE")
    ∷ ("sre", "Platform/SRE")
    ∷ ("platform", "Platform/SRE")
    ∷ ("security", "Security")
    ∷ ("product manager", "Product Management")
    ∷ ("manager", "Engineering Management")
    ∷ ("director", "Engineering Management")
    ∷ ("engineer", "Software Engineering")
    ∷ ("developer", "Software Engineering")
    ∷ []

-- The bands of `_infer_seniority_from_titles`.
abbrev pub band_rules : List (String × String)
band_rules =
    ("principal", "principal")
    ∷ ("staff", "staff")
    ∷ ("senior", "senior")
    ∷ ("lead", "lead")
    ∷ ("junior", "junior")
    ∷ ("intern", "intern")
    ∷ []

-- The first rule whose needle is in the text.
unfoldable pub first_rule : List (String × String) → String → Option String
unfolding occurs
first_rule [] text = none
first_rule ((needle, value) ∷ rules) text =
    let later = first_rule rules text in if occurs needle text then some value else later

-- `if value and value not in out: out.append(value)`
abbrev pub add_new : Option String → List String → List String
add_new none out = out
add_new (some v) out = if elem v out then out else out ++ v ∷ []

-- The variables of the loop; `current` is the last of `roles`.
pub record Draft : Type 0 where
  pub section : String
  pub roles : List Role
  pub skill_spans : List String
  pub locations : List String
  pub arrangements : List String
  pub summary : Option String

-- A change of the last role.
unfoldable pub change_last : (Role → Role) → List Role → List Role
change_last f [] = []
change_last f (r ∷ []) = f r ∷ []
change_last f (r ∷ s ∷ rs) = r ∷ change_last f (s ∷ rs)

abbrev pub add_bullet : String → Role → Role
add_bullet item r = record r { bullets = r.bullets ++ item ∷ [] }

abbrev or_location : Option String → Option String → Option String
or_location none old = old
or_location (some loc) old = some loc

abbrev pub set_dates : DateRange → Option String → Role → Role
set_dates d loc r = record r {
  start_date = some d.start;
  end_date = some d.end;
  location = or_location loc r.location;
}

abbrev pub new_role : String × String → Role
new_role (title, employer) = record {
  employer = strip_chars " *" employer;
  title = strip_chars " *" title;
  start_date = none;
  end_date = none;
  location = none;
  bullets = [];
}

module _ (lib : ResumeLibrary) where
  unfoldable pub infer_title_families : List String → List String → List String
  unfolding first_rule
  infer_title_families families [] = families
  infer_title_families families (title ∷ titles) =
      infer_title_families (add_new (first_rule family_rules (lib.lower title)) families) titles

  unfoldable pub infer_seniority : List String → Option String
  unfolding first_rule join
  infer_seniority titles = elim (first_rule band_rules (lib.lower (join " " titles))) [
    | some band ↦ some band
    | none ↦ if is_empty titles then none else some "mid"
  ]

  abbrev strip_heading : String → String
  strip_heading line = strip (lib.drop_hashes line)

  abbrev pub header_of_line : String → Option (String × String)
  header_of_line line = lib.role_header (strip_heading line)

  -- `_collect_meta`
  abbrev if_found : String → String → String → Option String
  if_found token label text = if occurs token text then some label else none

  abbrev strip_place : Option String → Option String
  strip_place none = none
  strip_place (some s) = some (strip s)

  unfoldable pub collect_meta : String → Draft → Draft
  collect_meta text d =
      let low = lib.lower text in
      record d {
        arrangements = add_new (if_found "onsite" "onsite" low) (
            add_new (if_found "on-site" "onsite" low) (
              add_new (if_found "hybrid" "hybrid" low)
                (add_new (if_found "remote" "remote" low) d.arrangements)));
        locations = add_new (strip_place (lib.place text)) d.locations;
      }

  unfoldable pub location_from_date_line : String → String → Option String
  location_from_date_line line whole =
      let rest = strip_chars " |,-" (lib.collapse_bars (lib.without line whole)) in
      if truthy rest then some rest else none

  -- A line of the experience that is no header of a role.
  abbrev pub bullet_line : Option String → Draft → Draft
  bullet_line none d = d
  bullet_line (some item) d = record d { roles = change_last (add_bullet (strip item)) d.roles }

  abbrev pub lacks_start : Option Role → Bool
  lacks_start none = false
  lacks_start (some r) = is_none r.start_date

  abbrev pub date_or_bullet : String → Option DateRange → Draft → Draft
  date_or_bullet line none d = bullet_line (lib.bullet_item line) d
  date_or_bullet line (some m) d =
      let loc = location_from_date_line line m.whole in
      if lacks_start (last d.roles)
      then record d {
        roles = change_last (set_dates m loc) d.roles;
        locations = add_new loc d.locations;
      }
      else bullet_line (lib.bullet_item line) d

  unfoldable pub experience_line : String → Draft → Draft
  unfolding change_last location_from_date_line
  experience_line line d = elim (header_of_line line) [
    | some h ↦ record d { roles = d.roles ++ new_role h ∷ []; section = "experience" }
    | none ↦ if is_empty d.roles then d else date_or_bullet line (lib.date_range line) d
  ]

  abbrev add_summary : String → Option String → Option String
  add_summary line none = some line
  add_summary line (some s) = some (append_text s (append_text " " line))

  -- A line after the header.
  unfoldable pub body_line : String → Draft → Draft
  unfolding experience_line stripped_items
  body_line line d =
      if d.section == "summary"
      then record d { summary = add_summary line d.summary }
      else if d.section == "skills"
      then record d { skill_spans = d.skill_spans ++ stripped_items (lib.split_list line) }
      else if d.section == "education"
      then d
      else experience_line line d

  abbrev section_of : String → String
  section_of name =
      if name == "work history"
      then "experience"
      else if name == "employment"
      then "experience"
      else name

  unfoldable pub take_line : String → Draft → Draft
  unfolding body_line collect_meta
  take_line raw d =
      let line = strip raw in
      let body = body_line line d in
      let opened = body_line line (record d { section = "experience" }) in
      if not (truthy line) then d else elim (lib.section line) [
        | some name ↦ record d { section = section_of (lib.lower name) }
        | none ↦
            if d.section == "header"
            then if is_some (header_of_line line) then opened else collect_meta line d
            else body
      ]

  unfoldable pub take_lines : List String → Draft → Draft
  take_lines [] d = d
  take_lines (l ∷ ls) d = take_lines ls (take_line l d)

  abbrev pub empty_draft : Draft
  empty_draft = record {
    section = "header";
    roles = [];
    skill_spans = [];
    locations = [];
    arrangements = [];
    summary = none;
  }

  -- `linker.scan_text`, whose hits are ids with the matched texts.
  module _ (scan : String → Dict) where
    unfoldable pub extract_structured : String → LlmParsePayload
    unfolding take_lines infer_seniority infer_title_families
    extract_structured text =
        let d = take_lines (lib.splitlines text) empty_draft in
        let titles = map (λ r. r.title) d.roles in
        record {
          work_history = d.roles;
          skill_spans =
              if is_empty d.skill_spans then map (λ hit. hit.1) (scan text) else d.skill_spans;
          locations = d.locations;
          seniority = infer_seniority titles;
          title_families = infer_title_families [] titles;
          work_arrangement = d.arrangements;
          comp_floor = none;
          summary = d.summary;
        }

    unfoldable pub parse_offline : Builtins → String → ParsedResume
    unfolding extract_structured
    parse_offline py text = assign_span_ids py lib (extract_structured text)
