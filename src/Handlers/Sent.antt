-- ===== src/Handlers/Sent.antt =====
-- app/handlers.py: what a call of generate-resume sends, and what an error leaves.
use job_match_pipeline.Prelude.{
  ℕ, ◌≤◌, ◌≡◌, ◌||◌, is_none, refl, Bool, true, false, List, [], ◌∷◌, ◌++◌, Option, none, some,
  arith, all, any, drop, length, Bool-cases, inl, inr, ◌==◌, nat_eq, beq_refl,
}
use job_match_pipeline.Payload.{
  Uuid, Payload, Builtins, lookup, is_blank, parse_uuid, parse_uuid-str,
}
use job_match_pipeline.Llm.{
  LlmUsage, Reply, answered, permanent, retryable, Outcome, returned, raised_retryable, raised,
}
use job_match_pipeline.Db.Rows.{Match, Generation}
use job_match_pipeline.Db.Session.{alone, World, Task, QueueName, record_pipeline_event, enqueue}
use job_match_pipeline.Generate.Schema.{GeneratedResume}
use job_match_pipeline.Generate.Service.{
  GenerateLlm, save_generation, verify_payload, after_llm, generate_new, generate_match,
  generate_resume,
}
use job_match_pipeline.Handlers.Server.{
  Server, Answer, ok, http_exception, new_session, settle, record_permanent_failure,
}
use job_match_pipeline.Handlers.Resumes.{generate_resume_handler}

-- The messages that a handler gave to the queue.
abbrev pub fresh : Server → Server → List Task
fresh before after = drop (length before.sent) after.sent

abbrev has_generation : Option Uuid → List Generation → Bool
has_generation none gs = false
has_generation (some id) gs = any (λ g. g.id == id) gs

-- The message's generation is in the table.
abbrev pub names_generation : Builtins → World → Task → Bool
names_generation py w t =
    has_generation (parse_uuid py (lookup "generation_id" t.payload)) w.generations

pub drop-append : {A : Type 0} (xs ys : List A) → drop (length xs) (xs ++ ys) ≡ ys
drop-append [] ys = refl
drop-append (x ∷ xs) ys = drop-append xs ys

pub drop-length : {A : Type 0} (xs : List A) → drop (length xs) xs ≡ []
drop-length [] = refl
drop-length (x ∷ xs) = drop-length xs

any-snoc :
    {A : Type 0} (p : A → Bool) (xs : List A) (x : A) → p x ≡ true → any p (xs ++ x ∷ []) ≡ true
any-snoc p [] x h = ground arith
any-snoc p (y ∷ ys) x h = ground (arith, any-snoc p ys x h)

module _ (py : Builtins) where
  -- What waits for the commit: at most one message, about a generation of the table.
  abbrev IsReady : World → Type 0
  IsReady w = (all (names_generation py w) w.pending ≡ true) × (length w.pending ≤ 1)

  -- The message that generate-resume builds names its generation.
  names_generation-verify_payload :
      (m : Match) (id : Uuid) (n : ℕ) (w : World)
      → any (λ g. g.id == id) w.generations ≡ true
      → names_generation py w
          (record { queue_name = QueueName.verify_resume; payload = verify_payload py m id n })
        ≡ true
  unfolding verify_payload lookup
  names_generation-verify_payload m id n w stored = rw (parse_uuid-str py id) stored

  save_generation-IsReady :
      (m : Match) (n : ℕ) (r : GeneratedResume) (u : LlmUsage) (w : World)
      → w.pending ≡ []
      → IsReady (save_generation py m n r u w).1
  unfolding save_generation record_pipeline_event enqueue
  save_generation-IsReady m n r u w empty = rw empty (
      rw
        (names_generation-verify_payload m w.next_id n (save_generation py m n r u w).1
          (any-snoc (λ (g : Generation). g.id == w.next_id) w.generations _ (beq_refl w.next_id)))
        (refl, omega arith))

  after_llm-IsReady :
      (m : Match) (n : ℕ) (reply : Reply GeneratedResume) (w : World)
      → w.pending ≡ []
      → IsReady (after_llm py m n reply w).1
  unfolding after_llm record_pipeline_event
  after_llm-IsReady m n (answered r u) w empty = save_generation-IsReady m n r u w empty
  after_llm-IsReady m n permanent w empty = rw empty (refl, omega arith)
  after_llm-IsReady m n retryable w empty = rw empty (refl, omega arith)

module _ (py : Builtins) (llm : GenerateLlm) (payload : Payload) (w : World)
    (empty : w.pending ≡ []) where
  generate_new-IsReady :
      (m : Match) (n : ℕ) → IsReady py (generate_new py llm alone payload m n w).1
  unfolding generate_new record_pipeline_event
  generate_new-IsReady m n = grind (arith, after_llm-IsReady)

  generate_match-IsReady : (m : Match) → IsReady py (generate_match py llm alone payload m w).1
  unfolding generate_match record_pipeline_event
  generate_match-IsReady m = grind (arith, generate_new-IsReady)

  generate_resume-IsReady : IsReady py (generate_resume py llm alone payload w).1
  unfolding generate_resume record_pipeline_event
  generate_resume-IsReady = grind (arith, generate_match-IsReady)

-- A handler's end that is no result.
abbrev pub is_raised {ℓ} : {A : Type ℓ} → Outcome A → Bool
is_raised (returned r) = false
is_raised _ = true

generations-after_llm :
    (py : Builtins) (m : Match) (n : ℕ) (reply : Reply GeneratedResume) (w : World)
    → is_raised (after_llm py m n reply w).0 ≡ true
    → (after_llm py m n reply w).1.generations ≡ w.generations
unfolding after_llm save_generation record_pipeline_event
generations-after_llm py m n (answered r u) w h = absurd (ground arith)
generations-after_llm py m n permanent w h = refl
generations-after_llm py m n retryable w h = refl

module _ (py : Builtins) (llm : GenerateLlm) (payload : Payload) (w : World) where
  generations-generate_new :
      (m : Match) (n : ℕ)
      → is_raised (generate_new py llm alone payload m n w).0 ≡ true
      → (generate_new py llm alone payload m n w).1.generations ≡ w.generations
  unfolding generate_new record_pipeline_event
  generations-generate_new m n h = grind (arith, generations-after_llm)

  generations-generate_match :
      (m : Match)
      → is_raised (generate_match py llm alone payload m w).0 ≡ true
      → (generate_match py llm alone payload m w).1.generations ≡ w.generations
  unfolding generate_match record_pipeline_event
  generations-generate_match m h = grind (arith, generations-generate_new)

  generations-generate_resume :
      is_raised (generate_resume py llm alone payload w).0 ≡ true
      → (generate_resume py llm alone payload w).1.generations ≡ w.generations
  unfolding generate_resume record_pipeline_event
  generations-generate_resume h = grind (arith, generations-generate_match)

-- What is sent names committed rows, and is one message at most.
abbrev pub IsSound : Builtins → Server → Server → Type 0
IsSound py s s1 = (all (names_generation py s1.db) (fresh s s1) ≡ true) × (length (fresh s s1) ≤ 1)

settle-IsSound :
    {A : Type 0} (py : Builtins) (o : Outcome A) (w : World) (s : Server)
    → IsReady py w
    → IsSound py s (settle (o, w) s).1
unfolding settle
settle-IsSound py (returned r) w s h = rw (drop-append s.sent w.pending) h
settle-IsSound py raised_retryable w s h = rw (drop-length s.sent) (refl, omega arith)
settle-IsSound py raised w s h = rw (drop-length s.sent) (refl, omega arith)

-- A call that fails before anything is written.
abbrev pub IsRetryable : {A : Type 0} → Answer A → Server → Server → Type 0
IsRetryable (ok r) s s1 = Unit
IsRetryable (http_exception n) s s1 = (s1.sent ≡ s.sent) × (s1.db.generations ≡ s.db.generations)

pub settle-IsRetryable :
    {A : Type 0} (o : Outcome A) (w : World) (s : Server)
    → (is_raised o ≡ true → w.generations ≡ s.db.generations)
    → IsRetryable (settle (o, w) s).0 s (settle (o, w) s).1
unfolding settle
settle-IsRetryable (returned r) w s h = tt
settle-IsRetryable raised_retryable w s h = (refl, h refl)
settle-IsRetryable raised w s h = (refl, refl)

module _ (py : Builtins) (llm : GenerateLlm) (payload : Payload) (s : Server) where
  -- Every message that a call of generate-resume sends names a generation that is committed by then,
  -- and it sends at most one.
  pub generate_resume_handler-IsSound : IsSound py s (generate_resume_handler py llm payload s).1
  unfolding generate_resume_handler record_permanent_failure record_pipeline_event
  generate_resume_handler-IsSound =
      let raw = lookup "match_id" payload in
      elim (Bool-cases (is_blank raw || is_none (parse_uuid py raw))) [
        | inl bad ↦ rw bad (rw (drop-length s.sent) (refl, omega arith))
        | inr good ↦ rw good (
            settle-IsSound py _ _ s
              (generate_resume-IsReady py llm payload (new_session s.db) refl))
      ]

  -- A call of generate-resume that answers with an HTTP error sends nothing and leaves the generations
  -- as they were, so that its retry starts afresh.
  pub generate_resume_handler-IsRetryable :
      IsRetryable
        (generate_resume_handler py llm payload s).0
        s
        (generate_resume_handler py llm payload s).1
  unfolding generate_resume_handler
  generate_resume_handler-IsRetryable =
      let raw = lookup "match_id" payload in
      elim (Bool-cases (is_blank raw || is_none (parse_uuid py raw))) [
        | inl bad ↦ rw bad tt
        | inr good ↦ rw good (
            settle-IsRetryable _ _ s
              (generations-generate_resume py llm payload (new_session s.db)))
      ]
