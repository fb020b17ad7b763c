-- ===== src/Tests/Verifying.antt =====
-- Runs of generation and verification.
use job_match_pipeline.Prelude.{◌≤◌, ◌≡◌, refl, arith, [], ◌∷◌, some}
use job_match_pipeline.Payload.{Payload, number, pos, read_attempt, parse_uuid, lookup}
use job_match_pipeline.Llm.{answered, retryable}
use job_match_pipeline.Db.Rows.{VerifyStatus}
use job_match_pipeline.Db.Session.{World, alone, get_match, get_job, get_profile, get_user}
use job_match_pipeline.Generate.Service.{GenerateLlm, generate_resume, existing_count}
use job_match_pipeline.Generate.Service
use job_match_pipeline.Generate.Attempts.{existing_count-generate_resume}
use job_match_pipeline.Verify.State.{Inputs, VerifyLlm, VerifyDecision, pass, fail}
use job_match_pipeline.Verify.Graph.{run_verify_graph, stage1_failures}
use job_match_pipeline.Verify.Verdicts.{report, decision, run_verify_graph-decision}
use job_match_pipeline.Verify.Effects.{HasEffects, run_verify_graph-HasEffects}
use job_match_pipeline.Verify.Service.{verify_resume, inputs}
use job_match_pipeline.Verify.Once.{status_at, verify_resume-keeps_status}
use job_match_pipeline.Tests.Data.{
  py, re, linker, world, job, profile, open_match, new_generation, bill, names, marks, count_marks,
}

-- The model finds nothing wrong with the sources, and a gap in the coverage.
abbrev pub no_violation : VerifyDecision
no_violation = record { verdict = pass; violations = []; reason = "" }

abbrev pub gap : VerifyDecision
gap = record { verdict = fail; violations = "rust is required" ∷ []; reason = "gap" }

abbrev kind : VerifyLlm
kind = record {
  ground = λ doc history. answered no_violation bill;
  coverage = λ doc m j history. answered no_violation bill;
}

abbrev pub strict : VerifyLlm
strict = record {
  ground = λ doc history. answered no_violation bill;
  coverage = λ doc m j history. answered gap bill;
}

-- A model that is overloaded.
abbrev pub silent : VerifyLlm
silent = record { ground = λ doc history. retryable; coverage = λ doc m j history. retryable }

abbrev run_with : VerifyLlm → Inputs
run_with llm = inputs py re linker llm new_generation open_match job profile 1

run_verify_graph-HasEffects_example : HasEffects (run_with strict) world
run_verify_graph-HasEffects_example = run_verify_graph-HasEffects (run_with strict) world

run_verify_graph-decision_example :
    report (run_verify_graph (run_with strict) world).0
    ≡ decision
        (stage1_failures (run_with strict))
        (answered no_violation bill)
        (answered gap bill)
        1
run_verify_graph-decision_example = run_verify_graph-decision (run_with strict) world

parse-31 : parse_uuid py (lookup "generation_id" (names "generation_id" 31)) ≡ some 31
unfolding marks count_marks parse_uuid lookup
parse-31 = refl

-- Verifying generation 31 leaves the status of generation 30.
verify_resume-keeps_status_example :
    status_at 30 (verify_resume py re linker kind (names "generation_id" 31) world).1
    ≡ some VerifyStatus.failed
verify_resume-keeps_status_example =
    verify_resume-keeps_status py re linker kind (names "generation_id" 31) 30 VerifyStatus.failed
      world 31 parse-31 refl

abbrev pub writer : GenerateLlm
writer m j p violations =
    answered
      (record {
        resume_doc = "Python";
        claims = [];
        claimed_skill_ids = [];
        employers = [];
        titles = [];
        date_ranges = [];
      })
      bill

-- Two second attempts that overlap both write a generation, the match's third: the count is read
-- before the model's call.
abbrev once_written : World
once_written = record world { generations = new_generation ∷ [] }

abbrev second : Payload
second = ("attempt", number (pos 2)) ∷ names "match_id" 20

overlapping_deliveries :
    existing_count 20
      (generate_resume py writer
        (λ w. (generate_resume py writer alone second w).1)
        second
        once_written).1
    ≡ 3
unfolding generate_resume Service.generate_match Service.generate_new Service.after_llm
    Service.save_generation marks count_marks parse_uuid lookup get_match get_job get_profile
    get_user read_attempt
overlapping_deliveries = refl

existing_count-generate_resume_example :
    existing_count 20 (generate_resume py writer alone (names "match_id" 20) world).1
    ≤ Service.max_attempt
existing_count-generate_resume_example =
    existing_count-generate_resume py writer alone (names "match_id" 20) 20 world (omega arith)
      (omega arith)
