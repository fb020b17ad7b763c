-- ===== src/Handlers/Resumes.antt =====
-- app/handlers.py: generate-resume and verify-resume.
use job_match_pipeline.Prelude.{◌&&◌, ◌||◌, not, Option, none, some, is_none, if◌then◌else◌}
use job_match_pipeline.Payload.{Payload, Builtins, lookup, is_blank, parse_uuid}
use job_match_pipeline.Db.Rows.{Stage, Action}
use job_match_pipeline.Db.Session.{alone}
use job_match_pipeline.Generate.Service.{GenerateLlm, GenerateResult, generate_resume}
use job_match_pipeline.Generate.Service
use job_match_pipeline.Verify.Patterns.{Patterns, Linker}
use job_match_pipeline.Verify.State.{VerifyLlm, VerifyResult}
use job_match_pipeline.Verify.State
use job_match_pipeline.Verify.Service.{verify_resume}
use job_match_pipeline.Handlers.Server.{
  Server, Answer, ok, new_session, settle, record_permanent_failure,
}

unfoldable pub generate_resume_handler :
    Builtins → GenerateLlm → Payload → Server → Answer GenerateResult × Server
unfolding settle
generate_resume_handler py llm payload s =
    let raw = lookup "match_id" payload in
    let action = if is_blank raw then Action.missing_match_id else Action.invalid_match_id in
    if is_blank raw || is_none (parse_uuid py raw)
    then (
      ok (Service.bare_result action none),
      record_permanent_failure Stage.generate_resume action s,
    )
    else settle (generate_resume py llm alone payload (new_session s.db)) s

-- The action of a payload that names no row, if it does not.
unfoldable pub malformed : Builtins → Payload → Option Action
malformed py payload =
    let generation = lookup "generation_id" payload in
    let match = lookup "match_id" payload in
    if is_blank generation && is_blank match
    then some Action.missing_generation_id
    else if not (is_blank generation) && is_none (parse_uuid py generation)
    then some Action.invalid_generation_id
    else if is_blank generation && not (is_blank match) && is_none (parse_uuid py match)
    then some Action.invalid_match_id
    else none

unfoldable pub verify_resume_handler :
    Builtins → Patterns → Linker → VerifyLlm → Payload → Server → Answer VerifyResult × Server
verify_resume_handler py re linker llm payload s = elim (malformed py payload) [
  | some action ↦
      (ok (State.bare_result action none), record_permanent_failure Stage.verify_resume action s)
  | none ↦ settle (verify_resume py re linker llm payload (new_session s.db)) s
]
