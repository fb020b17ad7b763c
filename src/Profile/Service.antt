-- ===== src/Profile/Service.antt =====
-- app/profile/service.py: a profile is made from a resume, corrected and shown. An exception leaves no
-- result: the caller's session is rolled back.
use job_match_pipeline.Prelude.{
  ℕ, suc, ◌+◌, Bool, true, false, String, List, [], ◌∷◌, ◌++◌, Option, none, some, map, find,
  is_empty, nat_beq, nat_eq, string_eq, if◌then◌else◌, ◌==◌,
}
use job_match_pipeline.Payload.{Uuid}
use job_match_pipeline.Db.Rows.{
  Score, Time, User, UserProfile, UserFilter, WorkEntry, Stage, Action,
}
use job_match_pipeline.Db.Session.{World, get_user, get_profile, record_pipeline_event, update}
use job_match_pipeline.Skills.Aliases.{Dict}
use job_match_pipeline.Profile.Schema.{ParsedResume, to_stored}
use job_match_pipeline.Profile.Fields.{ResumeLibrary}
use job_match_pipeline.Profile.Filters.{DefaultFilters, derive_default_filters}
use job_match_pipeline.Profile.Document.{synthesize_profile_doc}

-- PrivacySafeError by its message, and what a parser or an embedder raises.
pub data ProfileError : Type 0 where
  user_not_found no_profile no_users multiple_users invalid_work_history : ProfileError
  parse_failed embed_failed : ProfileError

pub data Try {ℓ} (A : Type ℓ) : Type ℓ where
  done : A → Try A
  raises : ProfileError → Try A

-- The linker, as the profile uses it; a hit of `scan_text` is the id with the matched text.
pub record ProfileLinker : Type 0 where
  pub link_spans : List String → List String
  pub scan_text : String → Dict
  pub labels_for : List String → List String

-- The arguments of `ingest_profile`, its settings, and the calendar: year and month of a time, and
-- `datetime(year, month, 1, tzinfo=UTC)`.
pub record ProfileServices : Type 0 where
  pub parser : String → Try ParsedResume
  pub embedder : String → Try (List Score)
  pub linker : ProfileLinker
  pub resume : ResumeLibrary
  pub default_user_tier : String
  pub default_quota_remaining : ℕ
  pub year_month : Time → ℕ × ℕ
  pub month_start : ℕ → ℕ → Time

-- PROFILE_DOC_MAX_TOKENS
abbrev pub profile_doc_max_tokens : ℕ
profile_doc_max_tokens = 2048

-- session.get(UserFilter, id)
unfoldable pub get_filter : Uuid → World → Option UserFilter
get_filter id w = find (λ r. r.user_id == id) w.filters

-- `_next_month_start`
unfoldable pub next_month_start : ProfileServices → Time → Time
next_month_start s now =
    let (year, month) = s.year_month now in
    if nat_beq (suc month) 13 then s.month_start (suc year) 1 else s.month_start year (suc month)

abbrev new_user : ProfileServices → World → User
new_user s w = record {
  id = w.next_id;
  tier = s.default_user_tier;
  quota_remaining = some s.default_quota_remaining;
  quota_reset_at = some (next_month_start s w.clock);
}

-- `_get_or_create_user`: the user's id and whether the user is new.
unfoldable pub get_or_create_user :
    ProfileServices → Option Uuid → World → Try (Uuid × Bool × World)
unfolding get_user next_month_start
get_or_create_user s none w =
    done
      (w.next_id, true, record w { users = w.users ++ new_user s w ∷ []; next_id = suc w.next_id })
get_or_create_user s (some id) w = elim (get_user id w) [
  | none ↦ raises user_not_found
  | some u ↦ done (id, false, w)
]

-- What an ingest writes into a profile.
pub record ProfileValues : Type 0 where
  pub work_history : List WorkEntry
  pub skill_ids : List String
  pub synthesized_doc : Option String
  pub embedding : Option (List Score)

-- The new values, the next version, and the flag.
unfoldable pub bump : ProfileValues → UserProfile → UserProfile
bump v p = record p {
  work_history = v.work_history;
  skill_ids = v.skill_ids;
  synthesized_doc = v.synthesized_doc;
  embedding = v.embedding;
  profile_version = p.profile_version + 1;
  rematch_needed = true;
}

abbrev pub new_profile : Uuid → ProfileValues → UserProfile
new_profile id v = record {
  user_id = id;
  work_history = v.work_history;
  skill_ids = v.skill_ids;
  synthesized_doc = v.synthesized_doc;
  embedding = v.embedding;
  profile_version = 1;
  rematch_needed = true;
}

abbrev pub is_of : Uuid → UserProfile → Bool
is_of id p = p.user_id == id

unfoldable pub write_profile : Uuid → ProfileValues → World → World
unfolding get_profile bump
write_profile id v w = elim (get_profile id w) [
  | none ↦ record w { profiles = w.profiles ++ new_profile id v ∷ [] }
  | some p ↦ record w { profiles = update (is_of id) (bump v) w.profiles }
]

abbrev pub empty_filter : Uuid → UserFilter
empty_filter id = record {
  user_id = id;
  title_families = none;
  locations = none;
  comp_floor = none;
  seniority_band = none;
  work_arrangement = none;
}

-- The row of a user is added where there is none.
unfoldable pub ensure_filter : Uuid → World → World
unfolding get_filter
ensure_filter id w = elim (get_filter id w) [
  | none ↦ record w { filters = w.filters ++ empty_filter id ∷ [] }
  | some f ↦ w
]

abbrev pub set_filter : DefaultFilters → UserFilter → UserFilter
set_filter v f = record f {
  title_families = v.title_families;
  locations = v.locations;
  comp_floor = v.comp_floor;
  seniority_band = v.seniority_band;
  work_arrangement = v.work_arrangement;
}

-- A change of the row of a user.
abbrev change_filter : Uuid → (UserFilter → UserFilter) → World → World
change_filter id f w = record w { filters = update (λ r. r.user_id == id) f w.filters }

unfoldable pub upsert_filters : Uuid → DefaultFilters → World → World
unfolding ensure_filter
upsert_filters id v w = change_filter id (set_filter v) (ensure_filter id w)

-- `_record_event`
abbrev event : Uuid → Action → World → World
event id action w = record_pipeline_event Stage.profile action none (some id) none none w

-- `_bundle`: the two rows. The dict of a bundle has their columns.
pub record ProfileBundle : Type 0 where
  pub user_id : Uuid
  pub profile : Option UserProfile
  pub filters : Option UserFilter

unfoldable pub bundle : Uuid → World → ProfileBundle
unfolding get_profile get_filter
bundle id w = record { user_id = id; profile = get_profile id w; filters = get_filter id w }

pub record IngestResult : Type 0 where
  pub result : ProfileBundle
  pub created_user : Bool

-- The ids that the spans link to or, if there are none, those that the text mentions.
unfoldable pub skills_of : ProfileLinker → ParsedResume → String → List String
skills_of linker parsed text =
    let linked = linker.link_spans parsed.skill_spans in
    if is_empty linked then map (λ hit. hit.0) (linker.scan_text text) else linked

abbrev pub values_of : ParsedResume → List String → String → List Score → ProfileValues
values_of parsed ids doc vector = record {
  work_history = map to_stored parsed.work_history;
  skill_ids = ids;
  synthesized_doc = some doc;
  embedding = some vector;
}

unfoldable pub store_ingest :
    Uuid → Bool → ProfileValues → DefaultFilters → World → IngestResult × World
unfolding write_profile upsert_filters record_pipeline_event bundle
store_ingest id created v filters w =
    let w1 = event id Action.ingest (upsert_filters id filters (write_profile id v w)) in
    (record { result = bundle id w1; created_user = created }, w1)

unfoldable pub ingest_profile :
    ProfileServices → String → Option Uuid → World → Try (IngestResult × World)
unfolding skills_of get_or_create_user store_ingest derive_default_filters synthesize_profile_doc
ingest_profile s text user w = elim (s.parser text) [
  | raises e ↦ raises e
  | done parsed ↦
      let ids = skills_of s.linker parsed text in
      let doc = synthesize_profile_doc parsed (s.linker.labels_for ids) profile_doc_max_tokens in
      elim (s.embedder doc) [
        | raises e ↦ raises e
        | done vector ↦ elim (get_or_create_user s user w) [
          | raises e ↦ raises e
          | done (id, created, w1) ↦ done (
              store_ingest id created (values_of parsed ids doc vector)
                (derive_default_filters s.resume parsed) w1)
        ]
      ]
]

-- `_resolve_user`
unfoldable pub resolve_user : Option Uuid → World → Try Uuid
unfolding get_user
resolve_user (some id) w = elim (get_user id w) [ none ↦ raises user_not_found | some u ↦ done id ]
resolve_user none w = elim w.users [
  | [] ↦ raises no_users
  | u ∷ us ↦ if is_empty us then done u.id else raises multiple_users
]

unfoldable pub show_profile : Option Uuid → World → Try ProfileBundle
unfolding resolve_user get_profile bundle
show_profile user w = elim (resolve_user user w) [
  | raises e ↦ raises e
  | done id ↦ elim (get_profile id w) [ none ↦ raises no_profile | some p ↦ done (bundle id w) ]
]
