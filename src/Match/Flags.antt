-- ===== src/Match/Flags.antt =====
-- match_batch of app/match/service.py: whose profiles are to be matched again after it.
use job_match_pipeline.Prelude.{
  ℕ, ◌≡◌, refl, ap, ◌∙◌, Bool, true, false, ◌&&◌, not, String, List, [], ◌∷◌, Option, elem, arith,
  is_empty, nat_eq, string_eq, ◌==◌, Bool-cases, inl, inr,
}
use job_match_pipeline.Payload.{Uuid, Payload, Builtins}
use job_match_pipeline.Db.Rows.{Time}
use job_match_pipeline.Db.Session.{World, record_pipeline_event}
use job_match_pipeline.Match.Batch.{MatchSettings}
use job_match_pipeline.Match.Dirty.{is_dirty, clear_rematch, clear_rematch-is_dirty, is_dirty_in}
use job_match_pipeline.Match.Untouched.{match_candidates-IsUntouched, clear_events-IsUntouched}
use job_match_pipeline.Match.Modes.{MatchServices, mode_of, is_valid_mode}
use job_match_pipeline.Match.Service.{
  finish_dirty, run_cycle, selected_users, run_mode, match_batch,
}

finish_dirty-is_dirty :
    (is_dirty_mode : Bool) (ids : List Uuid) (x : Uuid) (w : World)
    → is_dirty x (finish_dirty is_dirty_mode ids w).1
      ≡ (is_dirty x w && not (is_dirty_mode && elem x ids))
unfolding finish_dirty
finish_dirty-is_dirty false ids x w = ground arith
finish_dirty-is_dirty true ids x w =
    ap (is_dirty_in x) (clear_events-IsUntouched ids (clear_rematch ids w)).0
    ∙ clear_rematch-is_dirty ids x w

elem-empty : (x : Uuid) (xs : List Uuid) → is_empty xs ≡ true → elem x xs ≡ false
elem-empty x [] h = refl
elem-empty x (y ∷ ys) h = ground (arith, h)

module _ (py : Builtins) (m : MatchServices) where
  run_cycle-is_dirty :
      (mode : String) (cycle_at : Time) (since : Option Time) (top_n : ℕ) (ids : List Uuid)
      (w : World) (x : Uuid)
      → is_dirty x (run_cycle py m mode cycle_at since top_n ids w).1
        ≡ (is_dirty x w && not (mode == "dirty" && elem x ids))
  unfolding run_cycle record_pipeline_event
  run_cycle-is_dirty mode cycle_at since top_n ids w x =
      let s : MatchSettings = record m.settings { match_top_n = top_n } in
      let cs = m.candidate_query ids since w in
      finish_dirty-is_dirty (mode == "dirty") ids x _
      ∙ ap (λ ps. is_dirty_in x ps && not (mode == "dirty" && elem x ids))
          (match_candidates-IsUntouched py s cycle_at m.reranker cs w).0

  run_mode-is_dirty :
      (mode : String) (payload : Payload) (w : World) (x : Uuid)
      → is_dirty x (run_mode py m mode payload w).1
        ≡ (is_dirty x w && not (mode == "dirty" && elem x (selected_users py m payload w)))
  unfolding run_mode record_pipeline_event
  run_mode-is_dirty mode payload w x =
      let ids = selected_users py m payload w in
      elim (Bool-cases (is_empty ids)) [
        | inl e ↦ rw e (ground (arith, elem-empty x ids e))
        | inr e ↦ rw e (run_cycle-is_dirty mode _ _ _ ids _ x)
      ]

  -- After a batch a user is still to be matched again just if the user was before it, and was not
  -- selected for a cycle in mode dirty; no other mode and no payload that is not valid takes a flag
  -- away, and none sets one.
  pub match_batch-is_dirty :
      (payload : Payload) (w : World) (x : Uuid)
      → is_dirty x (match_batch py m payload w).1 ≡ (
          is_dirty x w
          && not (mode_of py m payload == "dirty" && elem x (selected_users py m payload w)))
  unfolding match_batch record_pipeline_event
  match_batch-is_dirty payload w x = elim (Bool-cases (is_valid_mode (mode_of py m payload))) [
    | inl e ↦ rw e (run_mode-is_dirty (mode_of py m payload) payload w x)
    | inr e ↦ rw e (ground (arith, e))
  ]

finish_dirty-jobs :
    (is_dirty_mode : Bool) (ids : List Uuid) (w : World)
    → (finish_dirty is_dirty_mode ids w).1.jobs ≡ w.jobs
unfolding finish_dirty clear_rematch
finish_dirty-jobs false ids w = refl
finish_dirty-jobs true ids w = (clear_events-IsUntouched ids _).1

run_cycle-jobs :
    (py : Builtins) (m : MatchServices) (mode : String) (cycle_at : Time) (since : Option Time)
    (top_n : ℕ) (ids : List Uuid) (w : World)
    → (run_cycle py m mode cycle_at since top_n ids w).1.jobs ≡ w.jobs
unfolding run_cycle record_pipeline_event
run_cycle-jobs py m mode cycle_at since top_n ids w =
    let s : MatchSettings = record m.settings { match_top_n = top_n } in
    let cs = m.candidate_query ids since w in
    finish_dirty-jobs (mode == "dirty") ids _
    ∙ (match_candidates-IsUntouched py s cycle_at m.reranker cs w).1

-- A batch leaves the jobs alone.
pub match_batch-jobs :
    (py : Builtins) (m : MatchServices) (payload : Payload) (w : World)
    → (match_batch py m payload w).1.jobs ≡ w.jobs
unfolding match_batch run_mode record_pipeline_event
match_batch-jobs py m payload w = grind (arith, run_cycle-jobs)
