-- ===== src/Verify/Grounded.antt =====
-- app/verify/deterministic.py: when stage 1 passes.
use job_match_pipeline.Prelude.{◌≡◌, true, String, List, elem, All, string_eq}
use job_match_pipeline.Db.Rows.{WorkEntry}
use job_match_pipeline.Generate.Schema.{ClaimSourceMap}
use job_match_pipeline.Verify.Patterns.{Patterns, Linker}
use job_match_pipeline.Verify.Supported.{IsEmployerOf, IsTitleOf, IsDateOf}
use job_match_pipeline.Verify.Deterministic.{
  claimed_employers, claimed_titles, date_claims, extract_numbers, flatten_work_history_text,
  output_skills,
}

-- The resume's claims and what supports each: an employer or a title of an entry, a date by one of
-- the three rules of dates, a number of the history's text, a skill of the user's. The employers
-- are the names of the claim map or, if it has none, the names after "at" in the resume that
-- are no employer's.
pub record IsGrounded (re : Patterns) (resume_doc : String) (work_history : List WorkEntry)
    (mapping : ClaimSourceMap) (user_skill_ids : List String) (linker : Linker) : Type 0 where
  pub employers :
      All (IsEmployerOf re work_history) (claimed_employers re mapping resume_doc work_history)
  pub titles : All (IsTitleOf re work_history) (claimed_titles mapping)
  pub date_ranges : All (IsDateOf re work_history) mapping.date_ranges
  pub date_texts : All (IsDateOf re work_history) (date_claims mapping.claims)
  pub numbers :
      (n : String)
      → elem n (extract_numbers re resume_doc) ≡ true
      → elem n (extract_numbers re (flatten_work_history_text work_history)) ≡ true
  pub skills :
      (x : String)
      → elem x (output_skills linker mapping resume_doc) ≡ true
      → elem x user_skill_ids ≡ true
