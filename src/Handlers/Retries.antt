-- ===== src/Handlers/Retries.antt =====
-- app/handlers.py: what a call of verify-resume sends, and what an error leaves.
use job_match_pipeline.Prelude.{
  ℕ, ◌+◌, ◌≤◌, ◌≡◌, refl, Bool, true, false, ◌&&◌, List, [], ◌++◌, arith, all, length, leb,
  Option-cases, inl, inr, ap, ◌∙◌,
}
use job_match_pipeline.Payload.{Payload, Builtins, lookup, read_attempt}
use job_match_pipeline.Llm.{
  Reply, answered, permanent, retryable, Outcome, returned, raised_retryable, raised,
}
use job_match_pipeline.Db.Rows.{Generation, Match, Job, UserProfile}
use job_match_pipeline.Db.Session.{World, Task, QueueName, record_pipeline_event}
use job_match_pipeline.Verify.Patterns.{Patterns, Linker}
use job_match_pipeline.Verify.Deterministic.{FailureCode}
use job_match_pipeline.Verify.State.{Inputs, VerifyLlm, VerifyResult, VerifyDecision}
use job_match_pipeline.Verify.Graph.{
  run_verify_graph, regenerate_payload, stage1_failures, max_attempt,
}
use job_match_pipeline.Verify.Verdicts.{
  report, judge, decision, ground_reply, coverage_reply, run_verify_graph-decision,
}
use job_match_pipeline.Verify.Effects.{sent, written, run_verify_graph-HasEffects}
use job_match_pipeline.Verify.Service.{
  inputs, verify_rows, verify_unverified, verify_generation, generation_missing, verify_resume,
}
use job_match_pipeline.Handlers.Server.{Server, new_session, settle, record_permanent_failure}
use job_match_pipeline.Handlers.Resumes.{malformed, verify_resume_handler}
use job_match_pipeline.Handlers.Sent.{
  fresh, drop-append, drop-length, is_raised, IsRetryable, settle-IsRetryable,
}

abbrev is_generate : QueueName → Bool
is_generate QueueName.generate_resume = true
is_generate _ = false

-- A message to generate-resume for an attempt that generate-resume takes.
abbrev pub is_allowed : Builtins → Task → Bool
is_allowed py t =
    is_generate t.queue_name && leb (read_attempt py (lookup "attempt" t.payload)) max_attempt

abbrev IsBounded : Builtins → List Task → Type 0
IsBounded py ts = (all (is_allowed py) ts ≡ true) × (length ts ≤ 1)

module _ (i : Inputs) (w : World) where
  pub read_attempt-regenerate_payload :
      (fs : List _) → read_attempt i.py (lookup "attempt" (regenerate_payload i fs)) ≡ i.attempt + 1
  unfolding read_attempt regenerate_payload lookup
  read_attempt-regenerate_payload fs = omega arith

  sent-judge : (fs : List _) → IsBounded i.py (sent i w (judge fs i.attempt))
  sent-judge fs = ground (arith, read_attempt-regenerate_payload fs)

  sent-decision :
      (st : List FailureCode) (g c : Reply VerifyDecision)
      → IsBounded i.py (sent i w (decision st g c i.attempt))
  sent-decision st retryable c = (refl, omega arith)
  sent-decision st permanent c = (refl, omega arith)
  sent-decision st (answered g u) retryable = (refl, omega arith)
  sent-decision st (answered g u) permanent = (refl, omega arith)
  sent-decision st (answered g u) (answered c v) = sent-judge _

  pending-run_verify_graph : w.pending ≡ [] → IsBounded i.py (run_verify_graph i w).1.pending
  pending-run_verify_graph empty =
      let all_sent =
        (run_verify_graph-HasEffects i w).1
        ∙ (ap (λ ts. ts ++ sent i w (report (run_verify_graph i w).0)) empty
            ∙ ap (sent i w) (run_verify_graph-decision i w)) in
      rw all_sent (sent-decision (stage1_failures i) (ground_reply i w) (coverage_reply i w))

  written-raised :
      (o : Outcome VerifyResult) (rows : List Generation)
      → is_raised o ≡ true
      → written i w (report o) rows ≡ rows
  written-raised (returned r) rows h = absurd (ground arith)
  written-raised raised_retryable rows h = refl
  written-raised raised rows h = refl

  generations-run_verify_graph :
      is_raised (run_verify_graph i w).0 ≡ true
      → (run_verify_graph i w).1.generations ≡ w.generations
  generations-run_verify_graph h =
      (run_verify_graph-HasEffects i w).0 ∙ written-raised (run_verify_graph i w).0 w.generations h

module _ (py : Builtins) (re : Patterns) (linker : Linker) (llm : VerifyLlm) (payload : Payload)
    (w : World) where
  module _ (empty : w.pending ≡ []) where
    pending-run :
        (g : Generation) (m : Match) (job : Job) (p : UserProfile) (n : ℕ)
        → IsBounded py (run_verify_graph (inputs py re linker llm g m job p n) w).1.pending
    pending-run g m job p n = pending-run_verify_graph (inputs py re linker llm g m job p n) w empty

    pending-verify_unverified :
        (g : Generation) → IsBounded py (verify_unverified py re linker llm payload g w).1.pending
    unfolding verify_unverified verify_rows record_pipeline_event
    pending-verify_unverified g = grind (arith, pending-run)

    pending-verify_generation :
        (g : Generation) → IsBounded py (verify_generation py re linker llm payload g w).1.pending
    unfolding verify_generation record_pipeline_event
    pending-verify_generation g = grind (arith, pending-verify_unverified)

    pending-verify_resume : IsBounded py (verify_resume py re linker llm payload w).1.pending
    unfolding verify_resume generation_missing record_pipeline_event
    pending-verify_resume = grind (arith, pending-verify_generation)

  generations-run :
      (g : Generation) (m : Match) (job : Job) (p : UserProfile) (n : ℕ)
      → is_raised (run_verify_graph (inputs py re linker llm g m job p n) w).0 ≡ true
      → (run_verify_graph (inputs py re linker llm g m job p n) w).1.generations ≡ w.generations
  generations-run g m job p n = generations-run_verify_graph (inputs py re linker llm g m job p n) w

  generations-verify_unverified :
      (g : Generation)
      → is_raised (verify_unverified py re linker llm payload g w).0 ≡ true
      → (verify_unverified py re linker llm payload g w).1.generations ≡ w.generations
  unfolding verify_unverified verify_rows record_pipeline_event
  generations-verify_unverified g h = grind (arith, generations-run)

  generations-verify_resume :
      is_raised (verify_resume py re linker llm payload w).0 ≡ true
      → (verify_resume py re linker llm payload w).1.generations ≡ w.generations
  unfolding verify_resume verify_generation generation_missing record_pipeline_event
  generations-verify_resume h = grind (arith, generations-verify_unverified)

-- What is sent is one message at most, to generate-resume, for an attempt that it takes.
abbrev pub IsWithinAttempts : Builtins → Server → Server → Type 0
IsWithinAttempts py s s1 = (all (is_allowed py) (fresh s s1) ≡ true) × (length (fresh s s1) ≤ 1)

settle-IsWithinAttempts :
    {A : Type 0} (py : Builtins) (o : Outcome A) (w : World) (s : Server)
    → IsBounded py w.pending
    → IsWithinAttempts py s (settle (o, w) s).1
unfolding settle
settle-IsWithinAttempts py (returned r) w s h = rw (drop-append s.sent w.pending) h
settle-IsWithinAttempts py raised_retryable w s h = rw (drop-length s.sent) (refl, omega arith)
settle-IsWithinAttempts py raised w s h = rw (drop-length s.sent) (refl, omega arith)

module _ (py : Builtins) (re : Patterns) (linker : Linker) (llm : VerifyLlm) (payload : Payload)
    (s : Server) where
  -- A call of verify-resume sends at most one message, and only to generate-resume, for an attempt
  -- that is at most the second.
  pub verify_resume_handler-IsWithinAttempts :
      IsWithinAttempts py s (verify_resume_handler py re linker llm payload s).1
  unfolding verify_resume_handler record_permanent_failure record_pipeline_event
  verify_resume_handler-IsWithinAttempts = elim (Option-cases (malformed py payload)) [
    | inl well ↦
        rw (well, verify_resume_handler)
          (settle-IsWithinAttempts py _ _ s
            (pending-verify_resume py re linker llm payload (new_session s.db) refl))
    | inr (action, bad) ↦
        rw (bad, verify_resume_handler) (rw (drop-length s.sent) (refl, omega arith))
  ]

  -- A call of verify-resume that answers with an HTTP error sends nothing and leaves the generations
  -- and their statuses as they were.
  pub verify_resume_handler-IsRetryable :
      IsRetryable
        (verify_resume_handler py re linker llm payload s).0
        s
        (verify_resume_handler py re linker llm payload s).1
  unfolding verify_resume_handler
  verify_resume_handler-IsRetryable = elim (Option-cases (malformed py payload)) [
    | inl well ↦
        rw (well, verify_resume_handler)
          (settle-IsRetryable _ _ s
            (generations-verify_resume py re linker llm payload (new_session s.db)))
    | inr (action, bad) ↦ rw (bad, verify_resume_handler) tt
  ]
