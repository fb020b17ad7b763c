-- ===== src/Generate/Attempts.antt =====
-- app/generate/service.py: the number of resumes of a match, over deliveries one after another.
use job_match_pipeline.Prelude.{
  ℕ, ◌+◌, ◌≤◌, arith, length-keep-snoc, Bool-cases, inl, inr, ap, if◌then◌else◌, ◌==◌, nat_eq,
}
use job_match_pipeline.Payload.{Uuid, Payload, Builtins, lookup, read_attempt}
use job_match_pipeline.Llm.{Reply, answered, permanent, retryable}
use job_match_pipeline.Generate.Schema.{GeneratedResume}
use job_match_pipeline.Db.Rows.{Match}
use job_match_pipeline.Db.Session.{World}
use job_match_pipeline.Generate.Service.{
  GenerateLlm, max_attempt, of_match, existing_count, save_generation, after_llm, generate_new,
  generate_match, generate_resume,
}

existing_count-after_llm :
    (x : Uuid) (py : Builtins) (m : Match) (attempt : ℕ) (reply : Reply GeneratedResume) (w : World)
    → existing_count x (after_llm py m attempt reply w).1
      ≤ existing_count x w + (if m.id == x then 1 else 0)
unfolding after_llm save_generation
existing_count-after_llm x py m attempt (answered r u) w =
    omega (arith, length-keep-snoc (of_match x) w.generations)
existing_count-after_llm x py m attempt permanent w = omega arith
existing_count-after_llm x py m attempt retryable w = omega arith

-- What other sessions commit during the model's call adds no generation of the match.
module _ (py : Builtins) (llm : GenerateLlm) (others : World → World) (payload : Payload) (x : Uuid)
    (w : World) (kept : existing_count x (others w) ≤ existing_count x w) where
  existing_count-generate_new :
      (m : Match) (attempt : ℕ)
      → existing_count x (generate_new py llm others payload m attempt w).1
        ≤ existing_count x w + (if m.id == x then 1 else 0)
  unfolding generate_new
  existing_count-generate_new m attempt = grind (arith, existing_count-after_llm)

  existing_count-generate_match :
      (m : Match)
      → existing_count x w ≤ max_attempt
      → existing_count x (generate_match py llm others payload m w).1 ≤ max_attempt
  unfolding generate_match
  existing_count-generate_match m few =
      let attempt = read_attempt py (lookup "attempt" payload) in
      elim (Bool-cases (m.id == x)) [
        | inl same ↦ ground (
          arith,
          existing_count-generate_new m attempt,
          ap (λ k. existing_count k w) ((nat_eq.beq_iff m.id x).0 same),
        )
        | inr other ↦ ground (arith, existing_count-generate_new m attempt)
      ]

  -- A match that has at most two generations has at most two after any delivery of generate-resume, if
  -- no other session commits a generation of that match during the model's call.
  pub existing_count-generate_resume :
      existing_count x w ≤ max_attempt
      → existing_count x (generate_resume py llm others payload w).1 ≤ max_attempt
  unfolding generate_resume
  existing_count-generate_resume few = grind (arith, existing_count-generate_match)
