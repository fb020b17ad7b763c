-- ===== src/Handlers/Drain.antt =====
-- app/handlers.py and app/queue.py: the messages that follow one message, each delivered once.
use job_match_pipeline.Prelude.{
  ℕ, zero, suc, ◌-◌, ◌*◌, ◌≤◌, ◌≡◌, ◌||◌, is_none, refl, true, List, [], ◌∷◌, ◌++◌, arith, all,
  length, Bool-cases, Option-cases, inl, inr,
}
use job_match_pipeline.Payload.{Payload, Builtins, lookup, is_blank, parse_uuid, read_attempt_pos}
use job_match_pipeline.Llm.{Outcome, returned, raised_retryable, raised}
use job_match_pipeline.Db.Session.{World, Task, QueueName, record_pipeline_event}
use job_match_pipeline.Generate.Service.{GenerateLlm}
use job_match_pipeline.Verify.Patterns.{Patterns, Linker}
use job_match_pipeline.Verify.State.{VerifyLlm}
use job_match_pipeline.Handlers.Server.{Server, new_session, settle, record_permanent_failure}
use job_match_pipeline.Handlers.Resumes.{malformed, generate_resume_handler, verify_resume_handler}
use job_match_pipeline.Handlers.Sent.{
  fresh, drop-append, drop-length, generate_resume_handler-IsSound,
}
use job_match_pipeline.Handlers.Retries.{verify_resume_handler-IsWithinAttempts}
use job_match_pipeline.Handlers.Chain.{attempt_in, rank, is_below, generate_resume-below}
use job_match_pipeline.Handlers.Steps.{below-verify_resume}

settle-below :
    {A : Type 0} (py : Builtins) (r : ℕ) (o : Outcome A) (w : World) (s : Server)
    → all (is_below py r) w.pending ≡ true
    → all (is_below py r) (fresh s (settle (o, w) s).1) ≡ true
unfolding settle
settle-below py r (returned a) w s h = rw (drop-append s.sent w.pending) h
settle-below py r raised_retryable w s h = rw (drop-length s.sent) refl
settle-below py r raised w s h = rw (drop-length s.sent) refl

module _ (py : Builtins) (re : Patterns) (linker : Linker) (generate_llm : GenerateLlm)
    (verify_llm : VerifyLlm) where
  -- POST to the handler of a message; the handlers of other queues are left out.
  unfoldable pub deliver : Task → Server → Server
  deliver t s = elim t.queue_name [
    | QueueName.generate_resume ↦ (generate_resume_handler py generate_llm t.payload s).1
    | QueueName.verify_resume ↦ (verify_resume_handler py re linker verify_llm t.payload s).1
    | _ ↦ s
  ]

  generate-below :
      (payload : Payload) (s : Server)
      → all
          (is_below py (2 * (3 - attempt_in py payload)))
          (fresh s (generate_resume_handler py generate_llm payload s).1)
        ≡ true
  unfolding generate_resume_handler record_permanent_failure record_pipeline_event
  generate-below payload s =
      let raw = lookup "match_id" payload in
      elim (Bool-cases (is_blank raw || is_none (parse_uuid py raw))) [
        | inl bad ↦ rw bad (rw (drop-length s.sent) refl)
        | inr good ↦ rw good (
            settle-below py _ _ _ s
              (generate_resume-below py generate_llm payload (new_session s.db) refl))
      ]

  verify-below :
      (payload : Payload) (s : Server)
      → all
          (is_below py (2 * (3 - attempt_in py payload) - 1))
          (fresh s (verify_resume_handler py re linker verify_llm payload s).1)
        ≡ true
  unfolding verify_resume_handler record_permanent_failure record_pipeline_event
  verify-below payload s = elim (Option-cases (malformed py payload)) [
    | inl well ↦
        rw (well, verify_resume_handler)
          (settle-below py _ _ _ s
            (below-verify_resume py re linker verify_llm payload (new_session s.db) refl))
    | inr (action, bad) ↦ rw (bad, verify_resume_handler) (rw (drop-length s.sent) refl)
  ]

  -- What a delivery sends is at most one message, of a lower rank.
  IsLower : Task → Server → Type 0
  IsLower t s =
      (all (is_below py (rank py t)) (fresh s (deliver t s)) ≡ true)
      × (length (fresh s (deliver t s)) ≤ 1)

  deliver-IsLower :
      (q : QueueName) (payload : Payload) (s : Server)
      → IsLower (record { queue_name = q; payload = payload }) s
  unfolding deliver IsLower
  deliver-IsLower QueueName.generate_resume payload s =
      (generate-below payload s, (generate_resume_handler-IsSound py generate_llm payload s).1)
  deliver-IsLower QueueName.verify_resume payload s = (
    verify-below payload s,
    (verify_resume_handler-IsWithinAttempts py re linker verify_llm payload s).1,
  )
  deliver-IsLower QueueName.ingest_job payload s = rw (drop-length s.sent) (refl, omega arith)
  deliver-IsLower QueueName.extract_job payload s = rw (drop-length s.sent) (refl, omega arith)
  deliver-IsLower QueueName.screen_job payload s = rw (drop-length s.sent) (refl, omega arith)
  deliver-IsLower QueueName.analyze_match payload s = rw (drop-length s.sent) (refl, omega arith)

  -- Deliveries in order, of the messages that wait and of those that they send; the messages that
  -- are left.
  unfoldable pub drain : ℕ → List Task → Server → List Task
  drain zero ts s = ts
  drain (suc n) [] s = []
  drain (suc n) (t ∷ ts) s = drain n (ts ++ fresh s (deliver t s)) (deliver t s)

  below_mono :
      (q r : ℕ) (ts : List Task)
      → q ≤ r
      → all (is_below py q) ts ≡ true
      → all (is_below py r) ts ≡ true
  below_mono q r [] le h = refl
  below_mono q r (t ∷ ts) le h = ground (arith, below_mono q r ts le)

  drain-single :
      (n : ℕ) (ts : List Task) (s : Server)
      → all (is_below py n) ts ≡ true
      → length ts ≤ 1
      → drain n ts s ≡ []
  unfolding drain IsLower
  drain-single zero [] s h one = refl
  drain-single zero (t ∷ ts) s h one = absurd (ground arith)
  drain-single (suc n) [] s h one = refl
  drain-single (suc n) (t ∷ []) s h one =
      let step = deliver-IsLower t.queue_name t.payload s in
      drain-single n (fresh s (deliver t s)) (deliver t s)
        (below_mono (rank py t) n (fresh s (deliver t s)) (ground (arith, h)) step.0) step.1
  drain-single (suc n) (t ∷ u ∷ ts) s h one = absurd (omega (arith, one))

  -- One message to generate-resume or verify-resume, whatever it says and however the models
  -- answer, leads to at most four further deliveries, if each message is delivered once.
  pub drain-ends : (t : Task) (s : Server) → drain 5 (t ∷ []) s ≡ []
  drain-ends t s = drain-single 5 (t ∷ []) s (rank_below_five t.queue_name t.payload) (omega arith)
    where
      rank_below_five :
          (q : QueueName) (payload : Payload)
          → all (is_below py 5) (record { queue_name = q; payload = payload } ∷ []) ≡ true
      rank_below_five QueueName.generate_resume payload =
          ground (arith, read_attempt_pos py (lookup "attempt" payload))
      rank_below_five QueueName.verify_resume payload =
          ground (arith, read_attempt_pos py (lookup "attempt" payload))
      rank_below_five QueueName.ingest_job payload = refl
      rank_below_five QueueName.extract_job payload = refl
      rank_below_five QueueName.screen_job payload = refl
      rank_below_five QueueName.analyze_match payload = refl
