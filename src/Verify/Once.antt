-- ===== src/Verify/Once.antt =====
-- app/verify/service.py: the status of a generation, under redelivery.
use job_match_pipeline.Prelude.{
  ℕ, ◌≡◌, ◌≢◌, refl, ap, ◌∙◌, List, Option, none, some, arith, find, ◌==◌, nat_eq, Option-cases,
  inl, inr,
}
use job_match_pipeline.Payload.{Uuid, Payload, Builtins, lookup, parse_uuid}
use job_match_pipeline.Llm.{returned, raised_retryable, raised}
use job_match_pipeline.Db.Rows.{Generation, Match, Job, UserProfile, VerifyStatus}
use job_match_pipeline.Db.Session.{World, get_generation}
use job_match_pipeline.Db.Laws.{find-update_ne, find-true}
use job_match_pipeline.Verify.Patterns.{Patterns, Linker}
use job_match_pipeline.Verify.State.{VerifyLlm, Inputs}
use job_match_pipeline.Verify.Graph.{run_verify_graph}
use job_match_pipeline.Verify.Verdicts.{Report, report}
use job_match_pipeline.Verify.Effects.{written, run_verify_graph-HasEffects}
use job_match_pipeline.Verify.Service.{
  inputs, load_generation, generation_missing, verify_rows, verify_unverified, verify_generation,
  verify_resume,
}

abbrev status_of_row : Option Generation → Option VerifyStatus
status_of_row none = none
status_of_row (some g) = g.verify_status

abbrev in_table : Uuid → List Generation → Option VerifyStatus
in_table x rows = status_of_row (find (λ r. r.id == x) rows)

-- The status of a generation in the database.
abbrev pub status_at : Uuid → World → Option VerifyStatus
status_at x w = in_table x w.generations

-- A report writes no row but the generation's own.
in_table-written :
    (i : Inputs) (w : World) (x : Uuid) (rep : Report) (rows : List Generation)
    → i.generation.id ≢ x
    → in_table x (written i w rep rows) ≡ in_table x rows
in_table-written i w x (returned (a, none, fs)) rows h = refl
in_table-written i w x raised_retryable rows h = refl
in_table-written i w x raised rows h = refl
in_table-written i w x (returned (a, some st, fs)) rows h = ap status_of_row (
    find-update_ne (λ (r : Generation). r.id == x) (λ (r : Generation). r.id == i.generation.id) _
      rows (λ r. refl) (λ r e. ground arith))

-- A generation with no status is not the one that has a status.
unset_other :
    (x : Uuid) (st : VerifyStatus) (w : World) (id : Uuid) (g : Generation)
    → get_generation id w ≡ some g
    → g.verify_status ≡ none
    → status_at x w ≡ some st
    → g.id ≢ x
unfolding get_generation
unset_other x st w id g found unset before same = ground (
  arith,
  find-true (λ (r : Generation). r.id == id) w.generations g found,
  ap (λ k. in_table k w.generations) same,
)

module _ (py : Builtins) (re : Patterns) (linker : Linker) (llm : VerifyLlm) (payload : Payload)
    (x : Uuid) (st : VerifyStatus) (w : World) where
  module _ (g : Generation) (other : g.id ≢ x) (before : status_at x w ≡ some st) where
    status_at-run :
        (m : Match) (job : Job) (p : UserProfile) (n : ℕ)
        → status_at x (run_verify_graph (inputs py re linker llm g m job p n) w).1 ≡ some st
    status_at-run m job p n =
        let i = inputs py re linker llm g m job p n in
        let rep = report (run_verify_graph i w).0 in
        ap (in_table x) (run_verify_graph-HasEffects i w).0
        ∙ (in_table-written i w x rep w.generations other ∙ before)

    status_at-verify_unverified :
        status_at x (verify_unverified py re linker llm payload g w).1 ≡ some st
    unfolding verify_unverified verify_rows
    status_at-verify_unverified = grind (arith, status_at-run)

  -- A status that a generation has is never changed by verify-resume, whichever generation the
  -- payload names by its id, and whatever the models answer, as far as no other session commits
  -- during the models' calls.
  pub verify_resume-keeps_status :
      (id : Uuid)
      → parse_uuid py (lookup "generation_id" payload) ≡ some id
      → status_at x w ≡ some st
      → status_at x (verify_resume py re linker llm payload w).1 ≡ some st
  unfolding verify_resume verify_generation load_generation generation_missing
  verify_resume-keeps_status id parsed before = elim (Option-cases (get_generation id w)) [
    | inl gone ↦ ground arith
    | inr (g, found) ↦ elim (Option-cases g.verify_status) [
      | inl unset ↦
          ground (
            arith,
            status_at-verify_unverified g (unset_other x st w id g found unset before) before,
          )
      | inr (k, set) ↦ ground arith
    ]
  ]
