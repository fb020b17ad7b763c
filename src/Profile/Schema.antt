-- ===== src/Profile/Schema.antt =====
-- app/profile/schema.py.
use job_match_pipeline.Prelude.{Bool, String, List, Option, some}
use job_match_pipeline.Payload.{ℤ}
use job_match_pipeline.Db.Rows.{WorkBullet, WorkEntry}

-- `source` is "parsed" or "user_asserted"; the one value of `kind` is left out.
pub record WorkHistoryEntry : Type 0 where
  pub employer : String
  pub title : String
  pub start_date : Option String
  pub end_date : Option String
  pub is_current : Bool
  pub location : Option String
  pub source : String
  pub bullets : List WorkBullet

-- `model_dump()`
abbrev pub to_stored : WorkHistoryEntry → WorkEntry
to_stored e = record {
  employer = some e.employer;
  title = some e.title;
  start_date = e.start_date;
  end_date = e.end_date;
  location = e.location;
  is_current = e.is_current;
  source = e.source;
  bullets = e.bullets;
}

pub record ParsedResume : Type 0 where
  pub work_history : List WorkHistoryEntry
  pub skill_spans : List String
  pub locations : List String
  pub seniority : Option String
  pub title_families : List String
  pub work_arrangement : List String
  pub comp_floor : Option ℤ
  pub summary : Option String

-- LlmParsePayload.Role
pub record Role : Type 0 where
  pub employer : String
  pub title : String
  pub start_date : Option String
  pub end_date : Option String
  pub location : Option String
  pub bullets : List String

pub record LlmParsePayload : Type 0 where
  pub work_history : List Role
  pub skill_spans : List String
  pub locations : List String
  pub seniority : Option String
  pub title_families : List String
  pub work_arrangement : List String
  pub comp_floor : Option ℤ
  pub summary : Option String
