-- ===== src/Handlers/Steps.antt =====
-- app/handlers.py: the chain of attempts, from message to message.
use job_match_pipeline.Prelude.{
  ℕ, ◌-◌, ◌*◌, ◌≤◌, ◌≡◌, refl, String, true, List, [], ◌++◌, Option, none, some, arith, all, ap,
  ◌∙◌,
}
use job_match_pipeline.Payload.{
  Payload, Builtins, Value, null, flag, number, text, texts, lookup, read_attempt, read_attempt_pos,
}
use job_match_pipeline.Llm.{Reply, answered, permanent, retryable}
use job_match_pipeline.Db.Rows.{Generation, Match, Job, UserProfile}
use job_match_pipeline.Db.Session.{World, record_pipeline_event}
use job_match_pipeline.Generate.Schema.{ClaimSourceMap}
use job_match_pipeline.Verify.Patterns.{Patterns, Linker}
use job_match_pipeline.Verify.Deterministic.{FailureCode}
use job_match_pipeline.Verify.State.{Inputs, VerifyLlm, VerifyDecision}
use job_match_pipeline.Verify.Graph.{run_verify_graph, stage1_failures}
use job_match_pipeline.Verify.Verdicts.{
  report, judge, decision, ground_reply, coverage_reply, run_verify_graph-decision,
}
use job_match_pipeline.Verify.Effects.{sent, run_verify_graph-HasEffects}
use job_match_pipeline.Verify.Service.{
  inputs, attempt_of_map, verify_attempt, verify_rows, verify_unverified, verify_generation,
  generation_missing, verify_resume,
}
use job_match_pipeline.Handlers.Retries.{read_attempt-regenerate_payload}
use job_match_pipeline.Handlers.Chain.{attempt_in, is_below}

module _ (i : Inputs) (w : World) (r : ℕ) (pos : 1 ≤ i.attempt)
    (room : 2 * (3 - i.attempt) - 1 ≤ r) where
  below-judge : (fs : List String) → all (is_below i.py r) (sent i w (judge fs i.attempt)) ≡ true
  below-judge fs = ground (arith, read_attempt-regenerate_payload i w fs)

  below-decision :
      (st : List FailureCode) (g c : Reply VerifyDecision)
      → all (is_below i.py r) (sent i w (decision st g c i.attempt)) ≡ true
  below-decision st retryable c = refl
  below-decision st permanent c = refl
  below-decision st (answered g u) retryable = refl
  below-decision st (answered g u) permanent = refl
  below-decision st (answered g u) (answered c v) = below-judge _

  below-run_verify_graph :
      w.pending ≡ [] → all (is_below i.py r) (run_verify_graph i w).1.pending ≡ true
  below-run_verify_graph empty =
      let all_sent =
        (run_verify_graph-HasEffects i w).1
        ∙ (ap (λ ts. ts ++ sent i w (report (run_verify_graph i w).0)) empty
            ∙ ap (sent i w) (run_verify_graph-decision i w)) in
      rw all_sent (below-decision (stage1_failures i) (ground_reply i w) (coverage_reply i w))

attempt_of_map_pos : (m : Option ClaimSourceMap) → 1 ≤ attempt_of_map m
attempt_of_map_pos none = omega arith
attempt_of_map_pos (some m) = omega arith

-- The attempt that verify-resume reads is at least the message's.
verify_attempt_le :
    (py : Builtins) (v : Value) (g : Generation) → read_attempt py v ≤ verify_attempt py v g
unfolding verify_attempt read_attempt
verify_attempt_le py null g = attempt_of_map_pos g.claim_source_map
verify_attempt_le py (flag b) g = omega arith
verify_attempt_le py (number n) g = omega arith
verify_attempt_le py (text s) g = omega arith
verify_attempt_le py (texts l) g = omega arith

module _ (py : Builtins) (re : Patterns) (linker : Linker) (llm : VerifyLlm) (payload : Payload)
    (w : World) (empty : w.pending ≡ []) where
  below-run :
      (g : Generation) (m : Match) (job : Job) (p : UserProfile)
      → all
          (is_below py (2 * (3 - attempt_in py payload) - 1))
          (run_verify_graph
            (inputs py re linker llm g m job p (verify_attempt py (lookup "attempt" payload) g))
            w).1.pending
        ≡ true
  below-run g m job p =
      let v = lookup "attempt" payload in
      let le = verify_attempt_le py v g in
      let pos = read_attempt_pos py v in
      below-run_verify_graph (inputs py re linker llm g m job p (verify_attempt py v g)) w _
        (omega (arith, le, pos)) (omega (arith, le, pos)) empty

  nothing_below : (r : ℕ) → all (is_below py r) w.pending ≡ true
  nothing_below r = rw empty refl

  below-verify_unverified :
      (g : Generation)
      → all
          (is_below py (2 * (3 - attempt_in py payload) - 1))
          (verify_unverified py re linker llm payload g w).1.pending
        ≡ true
  unfolding verify_unverified verify_rows record_pipeline_event
  below-verify_unverified g = grind (arith, below-run, nothing_below)

  pub below-verify_resume :
      all
        (is_below py (2 * (3 - attempt_in py payload) - 1))
        (verify_resume py re linker llm payload w).1.pending
      ≡ true
  unfolding verify_resume verify_generation generation_missing record_pipeline_event
  below-verify_resume = grind (arith, below-verify_unverified, nothing_below)
