-- ===== src/Db/Rows.antt =====
-- The rows of app/db/models.py, with the columns that the handlers read or write.
use job_match_pipeline.Prelude.{ℕ, String, Bool, List, Option}
use job_match_pipeline.Payload.{Uuid, ℤ, Payload}
use job_match_pipeline.Generate.Schema.{ClaimSourceMap}

-- A double (a rerank score) by its place in the order of doubles: scores are stored and compared.
abbrev pub Score : Type 0
Score = ℕ

-- A point in time, in microseconds.
abbrev pub Time : Type 0
Time = ℕ

-- The labels of app/screen/labels.py, lowest first.
pub data QualificationLabel : Type 0 where
  unqualified minimally_qualified overqualified potentially_qualified clearly_qualified :
      QualificationLabel

pub data VerifyStatus : Type 0 where
  passed failed needs_review : VerifyStatus

pub record Job : Type 0 where
  pub id : Uuid
  pub url_hash : String
  pub url : Option String
  pub source : Option String
  pub ats_provider : Option String
  pub company_id : Option Uuid
  pub ingested_at : Option Time
  pub posted_at : Option Time
  pub expires_at : Option Time
  pub title : Option String
  pub location : Option String
  pub work_arrangement : Option String
  pub department : Option String
  pub employment_type : Option String
  pub comp_min : Option ℤ
  pub comp_max : Option ℤ
  pub raw_jd : Option String
  pub raw_jd_html : Option String
  pub extracted_at : Option Time
  pub seniority : Option String
  pub hard_requirements : List String
  pub nice_to_haves : List String
  pub skill_ids : List String
  pub synthesized_doc : Option String
  pub embedding : Option (List Score)

pub record User : Type 0 where
  pub id : Uuid
  pub tier : String
  pub quota_remaining : Option ℕ
  pub quota_reset_at : Option Time

-- A bullet of a role, with the id that claims cite.
pub record WorkBullet : Type 0 where
  pub span_id : String
  pub text : String

-- An entry of `user_profiles.work_history`.
pub record WorkEntry : Type 0 where
  pub employer : Option String
  pub title : Option String
  pub start_date : Option String
  pub end_date : Option String
  pub location : Option String
  pub is_current : Bool
  -- "parsed" or "user_asserted"
  pub source : String
  pub bullets : List WorkBullet

pub record UserProfile : Type 0 where
  pub user_id : Uuid
  pub work_history : List WorkEntry
  pub skill_ids : List String
  pub synthesized_doc : Option String
  pub embedding : Option (List Score)
  pub profile_version : ℕ
  pub rematch_needed : Bool

pub record UserFilter : Type 0 where
  pub user_id : Uuid
  pub title_families : Option (List String)
  pub locations : Option (List String)
  pub comp_floor : Option ℤ
  pub seniority_band : Option String
  pub work_arrangement : Option (List String)

pub record Company : Type 0 where
  pub id : Uuid
  pub name : String
  pub ats_provider : Option String
  pub board_token : Option String
  pub discovered_via : Option String

pub record Match : Type 0 where
  pub id : Uuid
  pub user_id : Uuid
  pub job_id : Uuid
  pub cycle_at : Time
  pub rerank_score : Option Score
  pub qualification_label : Option QualificationLabel
  pub screen_reason : Option String
  pub matched_skills : List String
  pub adjacent_skills : List String
  pub missing_skills : List String

pub record Generation : Type 0 where
  pub id : Uuid
  pub match_id : Uuid
  pub resume_doc : Option String
  pub claim_source_map : Option ClaimSourceMap
  pub verify_status : Option VerifyStatus
  pub verify_failures : List String

pub record MatchAnalysis : Type 0 where
  pub id : Uuid
  pub user_id : Uuid
  pub job_id : Uuid
  pub match_id : Uuid
  pub model : String

-- The `stage` of an event is the handler's name.
pub data Stage : Type 0 where
  fetch_link_list ingest_job extract_job match_batch screen_job analyze_batch analyze_match : Stage
  generate_resume verify_resume ui profile : Stage

-- What a handler did: the `action` of its event and of its result.
pub data Action : Type 0 where
  missing_match_id invalid_match_id missing_generation_id invalid_generation_id : Action
  not_found missing_docs llm_permanent_failure retryable_error : Action
  skipped_screened screened rank_label_disagreement : Action
  started completed invalid_mode capped matched below_screen_floor enqueued_screen : Action
  deferred_unextracted enqueued_extract cleared_rematch : Action
  enqueued_analyze skipped_analyzed analyzed : Action
  skipped_existing generated skipped_verified : Action
  stage1_pass stage1_fail stage2_pass stage2_fail stage3_pass stage3_fail : Action
  passed regenerate_enqueued needs_review : Action
  unparseable expired dead_link non_job_page ingested : Action
  permanent_failure enqueued noop : Action
  missing_job_id invalid_job_id skipped_cached skills_taxonomy_missing extracted : Action
  viewed skipped generate_requested marked_applied outcome quota_exhausted : Action
  ingest edit : Action

-- `pipeline_events.details`, a JSON object. A cost in it is a number of 10^-8 USD.
abbrev pub Details : Type 0
Details = Payload

pub record PipelineEvent : Type 0 where
  pub stage : Stage
  pub action : Action
  pub job_id : Option Uuid
  pub user_id : Option Uuid
  pub score : Option Score
  pub details : Option Details
  pub ts : Time
