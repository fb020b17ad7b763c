-- ===== src/Profile/Edit.antt =====
-- edit_profile of app/profile/service.py.
use job_match_pipeline.Prelude.{
  ℕ, suc, ◌+◌, Bool, true, ◌||◌, String, List, [], ◌∷◌, Option, none, some, map, or_else, nat_eq,
  string_eq, if◌then◌else◌, ◌==◌,
}
use job_match_pipeline.Payload.{Uuid, ℤ, Builtins}
use job_match_pipeline.Db.Rows.{Score, UserProfile, UserFilter, WorkBullet, Stage, Action}
use job_match_pipeline.Db.Session.{World, get_profile, record_pipeline_event, update}
use job_match_pipeline.Profile.Schema.{WorkHistoryEntry, ParsedResume, to_stored}
use job_match_pipeline.Profile.Fields.{ResumeLibrary}
use job_match_pipeline.Profile.Spans.{span_id_of}
use job_match_pipeline.Profile.Document.{synthesize_profile_doc}
use job_match_pipeline.Profile.Service.{
  Try, done, raises, no_profile, invalid_work_history, ProfileLinker, ProfileBundle,
  profile_doc_max_tokens, ensure_filter, bundle,
}

-- A bullet of the edited JSON: a text, or a dict that may lack its keys.
pub data RawBullet : Type 0 where
  plain : String → RawBullet
  item : Option String → Option String → RawBullet

-- An entry of the edited JSON, with the keys that WorkHistoryEntry has; none is a missing key.
pub record RawEntry : Type 0 where
  pub employer : Option String
  pub title : Option String
  pub start_date : Option String
  pub end_date : Option String
  pub is_current : Bool
  pub location : Option String
  pub source : Option String
  pub bullets : List RawBullet

module _ (py : Builtins) (lib : ResumeLibrary) where
  -- `item.setdefault("span_id", ...)`
  unfoldable pub prepare_bullet : ℕ → ℕ → RawBullet → RawBullet
  unfolding span_id_of
  prepare_bullet index j (plain text) = item (some (span_id_of py lib index j)) (some text)
  prepare_bullet index j (item span text) =
      item (some (or_else span (span_id_of py lib index j))) text

  unfoldable pub prepare_bullets : ℕ → ℕ → List RawBullet → List RawBullet
  unfolding prepare_bullet
  prepare_bullets index j [] = []
  prepare_bullets index j (b ∷ bs) = prepare_bullet index j b ∷ prepare_bullets index (suc j) bs

  -- `_prepare_edited_history`, from the entry with this index on
  unfoldable pub prepare_edited_history : ℕ → List RawEntry → List RawEntry
  unfolding prepare_bullets
  prepare_edited_history index [] = []
  prepare_edited_history index (e ∷ es) =
      record e {
        source = some (or_else e.source "user_asserted");
        bullets = prepare_bullets index 0 e.bullets;
      }
      ∷ prepare_edited_history (suc index) es

-- `WorkHistoryEntry.model_validate`: none is a ValueError.
unfoldable pub valid_bullets : List RawBullet → Option (List WorkBullet)
valid_bullets [] = some []
valid_bullets (plain text ∷ bs) = none
valid_bullets (item (some span) (some text) ∷ bs) = elim (valid_bullets bs) [
  | some rest ↦ some (record { span_id = span; text = text } ∷ rest)
  | none ↦ none
]
valid_bullets (item _ _ ∷ bs) = none

abbrev valid_source : Option String → Option String
valid_source none = some "parsed"
valid_source (some s) = if s == "parsed" || s == "user_asserted" then some s else none

abbrev entry_with :
    RawEntry
    → Option String
    → Option String
    → Option String
    → Option (List WorkBullet)
    → Option WorkHistoryEntry
entry_with e (some employer) (some title) (some source) (some bullets) = some (record {
  employer = employer;
  title = title;
  start_date = e.start_date;
  end_date = e.end_date;
  is_current = e.is_current;
  location = e.location;
  source = source;
  bullets = bullets;
})
entry_with e _ _ _ _ = none

unfoldable pub valid_entry : RawEntry → Option WorkHistoryEntry
unfolding valid_bullets
valid_entry e = entry_with e e.employer e.title (valid_source e.source) (valid_bullets e.bullets)

abbrev cons_valid :
    Option WorkHistoryEntry → Option (List WorkHistoryEntry) → Option (List WorkHistoryEntry)
cons_valid (some entry) (some entries) = some (entry ∷ entries)
cons_valid _ _ = none

unfoldable pub valid_history : List RawEntry → Option (List WorkHistoryEntry)
unfolding valid_entry
valid_history [] = some []
valid_history (e ∷ es) = cons_valid (valid_entry e) (valid_history es)

-- The keyword arguments.
pub record Edits : Type 0 where
  pub work_history : Option (List RawEntry)
  pub skill_ids : Option (List String)
  pub synthesized_doc : Option String
  pub title_families : Option (List String)
  pub locations : Option (List String)
  pub work_arrangement : Option (List String)
  pub seniority_band : Option String
  pub comp_floor : Option ℤ
  pub clear_comp_floor : Bool
  pub embedder : Option (String → Try (List Score))
  pub linker : Option ProfileLinker

-- `_parsed_from_stored`
abbrev parsed_from : List WorkHistoryEntry → List String → ParsedResume
parsed_from history spans = record {
  work_history = history;
  skill_spans = spans;
  locations = [];
  seniority = none;
  title_families = [];
  work_arrangement = [];
  comp_floor = none;
  summary = none;
}

-- The document of an edited history: the one that is given, or else one that is made.
abbrev made_doc : List WorkHistoryEntry → List String → Option ProfileLinker → Option String
made_doc history ids none = none
made_doc history ids (some linker) = some (
    synthesize_profile_doc (parsed_from history ids) (linker.labels_for ids) profile_doc_max_tokens)

unfoldable pub edited_doc : Edits → List WorkHistoryEntry → UserProfile → Option String
unfolding synthesize_profile_doc
edited_doc e history p = elim e.synthesized_doc [
  | some doc ↦ some doc
  | none ↦ made_doc history (or_else e.skill_ids p.skill_ids) e.linker
]

unfoldable pub edited_embedding :
    Option (String → Try (List Score)) → Option String → UserProfile → Try UserProfile
edited_embedding (some embed) (some doc) p = elim (embed doc) [
  | done vector ↦ done (record p { embedding = some vector })
  | raises e ↦ raises e
]
edited_embedding _ _ p = done p

-- `skill_ids`, `synthesized_doc`, the version and the flag.
unfoldable pub finish_edit : Edits → Option String → UserProfile → UserProfile
finish_edit e doc p = record p {
  skill_ids = or_else e.skill_ids p.skill_ids;
  synthesized_doc = elim doc [ some d ↦ some d | none ↦ p.synthesized_doc ];
  profile_version = p.profile_version + 1;
  rematch_needed = true;
}

-- The code stores the prepared dicts themselves, with any further keys that they have; the model has
-- the keys of the schema, with its defaults.
unfoldable pub edit_row : Builtins → ResumeLibrary → Edits → UserProfile → Try UserProfile
unfolding prepare_edited_history valid_history edited_doc edited_embedding finish_edit
edit_row py lib e p = elim e.work_history [
  | none ↦ done (finish_edit e e.synthesized_doc p)
  | some raw ↦ elim (valid_history (prepare_edited_history py lib 0 raw)) [
    | none ↦ raises invalid_work_history
    | some history ↦
        let doc = edited_doc e history p in
        elim (edited_embedding e.embedder doc (record p { work_history = map to_stored history })) [
          | raises error ↦ raises error
          | done q ↦ done (finish_edit e doc q)
        ]
  ]
]

abbrev keep_old : {A : Type 0} → Option A → Option A → Option A
keep_old (some x) old = some x
keep_old none old = old

unfoldable pub edit_filter : Edits → UserFilter → UserFilter
edit_filter e f = record f {
  title_families = keep_old e.title_families f.title_families;
  locations = keep_old e.locations f.locations;
  work_arrangement = keep_old e.work_arrangement f.work_arrangement;
  seniority_band = keep_old e.seniority_band f.seniority_band;
  comp_floor = if e.clear_comp_floor then none else keep_old e.comp_floor f.comp_floor;
}

unfoldable pub store_edit : Uuid → Edits → UserProfile → World → ProfileBundle × World
unfolding ensure_filter edit_filter record_pipeline_event bundle
store_edit id e row w =
    let w1 = ensure_filter id w in
    let w2 : World = record w1 {
      profiles = update (λ p. p.user_id == id) (λ _. row) w1.profiles;
      filters = update (λ f. f.user_id == id) (edit_filter e) w1.filters;
    } in
    let w3 = record_pipeline_event Stage.profile Action.edit none (some id) none none w2 in
    (bundle id w3, w3)

unfoldable pub edit_profile :
    Builtins → ResumeLibrary → Uuid → Edits → World → Try (ProfileBundle × World)
unfolding get_profile edit_row store_edit
edit_profile py lib id e w = elim (get_profile id w) [
  | none ↦ raises no_profile
  | some p ↦ elim (edit_row py lib e p) [
    | raises error ↦ raises error
    | done row ↦ done (store_edit id e row w)
  ]
]
