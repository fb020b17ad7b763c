-- ===== src/Match/Untouched.antt =====
-- app/match/service.py: what a cycle leaves as it is.
use job_match_pipeline.Prelude.{
  ℕ, ◌≡◌, refl, ◌∙◌, List, [], ◌∷◌, elem, keep, arith, is_none, nat_eq, string_eq, ◌==◌, Bool-cases,
  inl, inr, Option-cases,
}
use job_match_pipeline.Payload.{Uuid, Builtins}
use job_match_pipeline.Db.Rows.{Time, Score}
use job_match_pipeline.Db.Session.{World, record_pipeline_event, enqueue}
use job_match_pipeline.Match.Rerank.{Reranker, RerankResult}
use job_match_pipeline.Match.Batch.{
  Candidate, MatchSettings, Cycle, extract_loop, enqueue_extracts, add_match, enqueue_screen,
  write_match, found_in, take_result, take_results, match_user, match_users, match_candidates,
}
use job_match_pipeline.Match.Service.{clear_events}

-- The table of profiles and the table of jobs are the same.
abbrev pub IsUntouched : World → World → Type 0
IsUntouched w w' = (w'.profiles ≡ w.profiles) × (w'.jobs ≡ w.jobs)

extract_loop-IsUntouched :
    (py : Builtins) (seen : List Uuid) (cs : List Candidate) (w : World)
    → IsUntouched w (extract_loop py seen cs w).1
unfolding extract_loop record_pipeline_event enqueue
extract_loop-IsUntouched py seen [] w = (refl, refl)
extract_loop-IsUntouched py seen (c ∷ cs) w = elim (Bool-cases (elem c.job_id seen)) [
  | inl known ↦ rw known (extract_loop-IsUntouched py seen cs _)
  | inr new ↦ rw new (extract_loop-IsUntouched py (c.job_id ∷ seen) cs _)
]

module _ (py : Builtins) (s : MatchSettings) (cycle_at : Time) where
  write_match-IsUntouched :
      (c : Candidate) (score : Score) (k : Cycle)
      → IsUntouched k.world (write_match py s cycle_at c score k).world
  unfolding write_match add_match enqueue_screen record_pipeline_event enqueue
  write_match-IsUntouched c score k = ground arith

  take_result-IsUntouched :
      (pool : List Candidate) (r : RerankResult) (k : Cycle)
      → IsUntouched k.world (take_result py s cycle_at pool r k).world
  unfolding take_result
  take_result-IsUntouched pool r k = elim (Option-cases (found_in py s cycle_at pool r)) [
    | inl e ↦ ground (arith, e)
    | inr (c, e) ↦ ground (arith, e, write_match-IsUntouched c r.score k)
  ]

  take_results-IsUntouched :
      (pool : List Candidate) (rs : List RerankResult) (k : Cycle)
      → IsUntouched k.world (take_results py s cycle_at pool rs k).world
  unfolding take_results
  take_results-IsUntouched pool [] k = (refl, refl)
  take_results-IsUntouched pool (r ∷ rs) k =
      let now = take_result-IsUntouched pool r k in
      let rest = take_results-IsUntouched pool rs (take_result py s cycle_at pool r k) in
      (rest.0 ∙ now.0, rest.1 ∙ now.1)

  match_user-IsUntouched :
      (reranker : Reranker) (top_n already : ℕ) (u : Uuid) (cands : List Candidate) (k : Cycle)
      → IsUntouched k.world (match_user py s cycle_at reranker top_n already u cands k).world
  unfolding match_user record_pipeline_event
  match_user-IsUntouched reranker top_n already u cands k = grind (arith, take_results-IsUntouched)

  match_users-IsUntouched :
      (reranker : Reranker) (top_n : ℕ) (already : Uuid → ℕ) (cs : List Candidate) (us : List Uuid)
      (k : Cycle)
      → IsUntouched k.world (match_users py s cycle_at reranker top_n already cs us k).world
  unfolding match_users
  match_users-IsUntouched reranker top_n already cs [] k = (refl, refl)
  match_users-IsUntouched reranker top_n already cs (u ∷ us) k =
      let mine = keep (λ c. c.user_id == u) cs in
      let now = match_user-IsUntouched reranker top_n (already u) u mine k in
      let next = match_user py s cycle_at reranker top_n (already u) u mine k in
      let rest = match_users-IsUntouched reranker top_n already cs us next in
      (rest.0 ∙ now.0, rest.1 ∙ now.1)

  pub match_candidates-IsUntouched :
      (reranker : Reranker) (cs : List Candidate) (w : World)
      → IsUntouched w (match_candidates py s cycle_at reranker cs w).1.world
  unfolding match_candidates enqueue_extracts
  match_candidates-IsUntouched reranker cs w =
      let now = extract_loop-IsUntouched py [] (keep (λ c. is_none c.extracted_at) cs) w in
      let rest = match_users-IsUntouched reranker s.match_top_n _ _ _ _ in
      (rest.0 ∙ now.0, rest.1 ∙ now.1)

pub clear_events-IsUntouched : (ids : List Uuid) (w : World) → IsUntouched w (clear_events ids w)
unfolding clear_events record_pipeline_event
clear_events-IsUntouched [] w = (refl, refl)
clear_events-IsUntouched (id ∷ ids) w = clear_events-IsUntouched ids _
