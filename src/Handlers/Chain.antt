-- ===== src/Handlers/Chain.antt =====
-- app/handlers.py: the messages of a call are later in the chain of attempts than its own.
use job_match_pipeline.Prelude.{ℕ, ◌-◌, ◌*◌, ◌≤◌, ◌≡◌, refl, Bool, true, [], arith, all, ltb}
use job_match_pipeline.Payload.{Payload, Builtins, lookup, read_attempt, read_attempt_pos}
use job_match_pipeline.Llm.{Reply, answered, permanent, retryable}
use job_match_pipeline.Db.Rows.{Match}
use job_match_pipeline.Db.Session.{alone, World, Task, QueueName, record_pipeline_event, enqueue}
use job_match_pipeline.Generate.Schema.{GeneratedResume}
use job_match_pipeline.Generate.Service.{
  GenerateLlm, save_generation, verify_payload, after_llm, generate_new, generate_match,
  generate_resume,
}

-- The attempt of a message, which `_attempt` reads.
abbrev pub attempt_in : Builtins → Payload → ℕ
attempt_in py payload = read_attempt py (lookup "attempt" payload)

-- How many messages can follow: generate and verify alternate, for two attempts.
abbrev pub rank : Builtins → Task → ℕ
rank py t = elim t.queue_name [
  | QueueName.generate_resume ↦ 2 * (3 - attempt_in py t.payload)
  | QueueName.verify_resume ↦ 2 * (3 - attempt_in py t.payload) - 1
  | _ ↦ 0
]

abbrev pub is_below : Builtins → ℕ → Task → Bool
is_below py r t = ltb (rank py t) r

module _ (py : Builtins) where
  attempt-verify_payload :
      (m : Match) (id n : ℕ) → 1 ≤ n → attempt_in py (verify_payload py m id n) ≡ n
  unfolding verify_payload lookup read_attempt
  attempt-verify_payload m id n pos = omega arith

  after_llm-below :
      (m : Match) (n : ℕ) (reply : Reply GeneratedResume) (w : World)
      → w.pending ≡ []
      → 1 ≤ n
      → n ≤ 2
      → all (is_below py (2 * (3 - n))) (after_llm py m n reply w).1.pending ≡ true
  unfolding after_llm save_generation record_pipeline_event enqueue
  after_llm-below m n (answered r u) w empty pos few =
      rw empty (ground (arith, attempt-verify_payload m w.next_id n pos))
  after_llm-below m n permanent w empty pos few = rw empty refl
  after_llm-below m n retryable w empty pos few = rw empty refl

module _ (py : Builtins) (llm : GenerateLlm) (payload : Payload) (w : World)
    (empty : w.pending ≡ []) where
  generate_new-below :
      (m : Match) (n : ℕ)
      → 1 ≤ n
      → n ≤ 2
      → all (is_below py (2 * (3 - n))) (generate_new py llm alone payload m n w).1.pending ≡ true
  unfolding generate_new record_pipeline_event
  generate_new-below m n pos few = grind (arith, after_llm-below)

  generate_match-below :
      (m : Match)
      → all
          (is_below py (2 * (3 - attempt_in py payload)))
          (generate_match py llm alone payload m w).1.pending
        ≡ true
  unfolding generate_match record_pipeline_event
  generate_match-below m = ground (
    arith,
    read_attempt_pos py (lookup "attempt" payload),
    generate_new-below m (attempt_in py payload),
    nothing (2 * (3 - attempt_in py payload)),
  )
    where
      nothing : (r : ℕ) → all (is_below py r) w.pending ≡ true
      nothing r = rw empty refl

  pub generate_resume-below :
      all
        (is_below py (2 * (3 - attempt_in py payload)))
        (generate_resume py llm alone payload w).1.pending
      ≡ true
  unfolding generate_resume record_pipeline_event
  generate_resume-below = grind (arith, generate_match-below)
