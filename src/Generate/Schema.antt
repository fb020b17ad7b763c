-- ===== src/Generate/Schema.antt =====
-- app/generate/schema.py: what the generator returns and what is stored beside a resume.
use job_match_pipeline.Prelude.{ℕ, String, List, Option}

-- `ClaimKind`
pub data ClaimKind : Type 0 where
  employer title date_range skill number accomplishment : ClaimKind

pub record Claim : Type 0 where
  pub text : String
  pub span_ids : List String
  pub kind : ClaimKind
  pub canonical_skill_id : Option String

pub record ClaimSourceMap : Type 0 where
  pub attempt : ℕ
  pub claims : List Claim
  pub claimed_skill_ids : List String
  pub employers : List String
  pub titles : List String
  pub date_ranges : List String

pub record GeneratedResume : Type 0 where
  pub resume_doc : String
  pub claims : List Claim
  pub claimed_skill_ids : List String
  pub employers : List String
  pub titles : List String
  pub date_ranges : List String

unfoldable pub to_claim_map : GeneratedResume → ℕ → ClaimSourceMap
to_claim_map r n = record {
  attempt = n;
  claims = r.claims;
  claimed_skill_ids = r.claimed_skill_ids;
  employers = r.employers;
  titles = r.titles;
  date_ranges = r.date_ranges;
}
