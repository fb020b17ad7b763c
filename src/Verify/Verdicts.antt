-- ===== src/Verify/Verdicts.antt =====
-- app/verify/graph.py: the decision of a run as a table.
use job_match_pipeline.Prelude.{
  ℕ, ◌≡◌, refl, false, String, List, [], ◌∷◌, ◌++◌, Option, some, map, arith, is_empty, ltb,
  if◌then◌else◌,
}
use job_match_pipeline.Llm.{
  Reply, answered, permanent, retryable, Outcome, returned, raised_retryable, raised,
}
use job_match_pipeline.Db.Rows.{VerifyStatus, Action}
use job_match_pipeline.Db.Session.{World}
use job_match_pipeline.Verify.Deterministic.{FailureCode, named}
use job_match_pipeline.Verify.State.{pass, fail, VerifyDecision, VerifyResult, Inputs}
use job_match_pipeline.Verify.Graph.{prefix, stage1_failures, run_verify_graph, max_attempt}

pub prefix-ne-nil :
    (stage : String) (vs : List String) (reason : String)
    → is_empty (prefix stage vs reason) ≡ false
unfolding prefix
prefix-ne-nil stage [] reason = ground arith
prefix-ne-nil stage (v ∷ vs) reason = refl

-- The failures that an answered call adds.
abbrev pub added : String → VerifyDecision → List String
added stage d = elim d.verdict [ pass ↦ [] | fail ↦ prefix stage d.violations d.reason ]

abbrev pub Report : Type 0
Report = Outcome (Action × Option VerifyStatus × List String)

abbrev pub report : Outcome VerifyResult → Report
report (returned r) = returned (r.action, r.verify_status, r.verify_failures)
report raised_retryable = raised_retryable
report raised = raised

-- What the three stages' failures and the attempt decide.
abbrev pub judge : List String → ℕ → Report
judge failures attempt =
    if is_empty failures
    then returned (Action.passed, some VerifyStatus.passed, [])
    else if ltb attempt max_attempt
    then returned (Action.regenerate_enqueued, some VerifyStatus.failed, failures)
    else returned (Action.needs_review, some VerifyStatus.needs_review, failures)

-- The decision table of the workflow: from the failures of stage 1, the replies of the two calls and
-- the attempt. The second call is read only if the first answered.
abbrev pub decision : List FailureCode → Reply VerifyDecision → Reply VerifyDecision → ℕ → Report
decision stage1 retryable c attempt = raised_retryable
decision stage1 permanent c attempt = returned (
  Action.llm_permanent_failure,
  some VerifyStatus.needs_review,
  map named stage1 ++ "verify: llm permanent failure" ∷ [],
)
decision stage1 (answered g u) retryable attempt = raised_retryable
decision stage1 (answered g u) permanent attempt = returned (
  Action.llm_permanent_failure,
  some VerifyStatus.needs_review,
  map named stage1 ++ "verify: llm permanent failure" ∷ [],
)
decision stage1 (answered g u) (answered c v) attempt =
    judge (map named stage1 ++ (([] ++ added "grounding" g) ++ added "coverage" c)) attempt

module _ (i : Inputs) (w : World) where
  abbrev pub ground_reply : Reply VerifyDecision
  ground_reply = i.llm.ground i.resume_doc i.work_history

  abbrev pub coverage_reply : Reply VerifyDecision
  coverage_reply = i.llm.coverage i.resume_doc i.match i.job i.work_history

  run-decision_at :
      (g c : Reply VerifyDecision)
      → ground_reply ≡ g
      → coverage_reply ≡ c
      → report (run_verify_graph i w).0 ≡ decision (stage1_failures i) g c i.attempt
  unfolding run_verify_graph
  run-decision_at retryable c p q = ground arith
  run-decision_at permanent c p q = ground arith
  run-decision_at (answered g u) retryable p q = ground arith
  run-decision_at (answered g u) permanent p q = ground arith
  run-decision_at (answered g u) (answered c v) p q = ground arith

  -- The run of the graph ends within its four nodes, and it decides by the table.
  pub run_verify_graph-decision :
      report (run_verify_graph i w).0
      ≡ decision (stage1_failures i) ground_reply coverage_reply i.attempt
  run_verify_graph-decision = run-decision_at ground_reply coverage_reply refl refl
