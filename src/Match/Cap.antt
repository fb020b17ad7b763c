-- ===== src/Match/Cap.antt =====
-- app/match/service.py: the daily cap on a user's matches.
use job_match_pipeline.Prelude.{
  ℕ, suc, ◌+◌, ◌-◌, ◌≤◌, Bool, true, false, List, [], ◌∷◌, arith, min, take, length, length-take,
  length-keep-snoc, if◌then◌else◌, nat_eq, Bool-cases, inl, inr, Option-cases,
}
use job_match_pipeline.Payload.{Uuid, Builtins}
use job_match_pipeline.Db.Rows.{Time}
use job_match_pipeline.Db.Session.{record_pipeline_event}
use job_match_pipeline.Match.Rerank.{RerankResult, Reranker}
use job_match_pipeline.Match.Batch.{
  Candidate, MatchSettings, Cycle, pair_in, new_match, found_in, take_result, take_results,
  match_user, is_today, matches_today,
}
use job_match_pipeline.Match.Recorded.{matches-write_match}

module _ (py : Builtins) (s : MatchSettings) (cycle_at : Time) where
  -- One result adds at most one match, whoever is counted.
  take_result-grows :
      (pool : List Candidate) (r : RerankResult) (k : Cycle) (u : Uuid)
      → matches_today cycle_at (take_result py s cycle_at pool r k).world u
        ≤ suc (matches_today cycle_at k.world u)
  unfolding take_result
  take_result-grows pool r k u = elim (Option-cases (found_in py s cycle_at pool r)) [
    | inl gone ↦ rw (gone, take_result) (omega arith)
    | inr (c, found) ↦ elim (Bool-cases (pair_in c.user_id c.job_id k.already_this_cycle)) [
      | inl old ↦ rw (found, take_result) (rw old (omega arith))
      | inr new ↦
          rw (found, take_result)
            (rw (new, matches-write_match py s cycle_at c r.score k)
              (ground (
                arith,
                length-keep-snoc (is_today cycle_at u) k.world.matches
                    (new_match py s cycle_at c r.score k.world.next_id),
              )))
    ]
  ]

  take_results-grows :
      (pool : List Candidate) (rs : List RerankResult) (k : Cycle) (u : Uuid)
      → matches_today cycle_at (take_results py s cycle_at pool rs k).world u
        ≤ matches_today cycle_at k.world u + length rs
  unfolding take_results
  take_results-grows pool [] k u = omega arith
  take_results-grows pool (r ∷ rs) k u = omega (
    arith,
    take_result-grows pool r k u,
    take_results-grows pool rs (take_result py s cycle_at pool r k) u,
  )

  take_some-grows :
      (pool : List Candidate) (rs : List RerankResult) (k : Cycle) (u : Uuid) (n : ℕ)
      → matches_today cycle_at (take_results py s cycle_at pool (take n rs) k).world u
        ≤ matches_today cycle_at k.world u + n
  take_some-grows pool rs k u n =
      omega (arith, take_results-grows pool (take n rs) k u, length-take n rs)

  grows-if :
      (b : Bool) (k x : Cycle) (u : Uuid) (n : ℕ)
      → matches_today cycle_at x.world u ≤ matches_today cycle_at k.world u + n
      → matches_today cycle_at (if b then k else x).world u ≤ matches_today cycle_at k.world u + n
  grows-if true k x u n h = omega arith
  grows-if false k x u n h = h

  module _ (reranker : Reranker) (top_n : ℕ) (user : Uuid) (cands : List Candidate)
      (k : Cycle) where
    pub match_user-grows :
        (already : ℕ) (u : Uuid)
        → matches_today cycle_at
            (match_user py s cycle_at reranker top_n already user cands k).world
            u
          ≤ matches_today cycle_at k.world u + min top_n (s.daily_candidate_cap - already)
    unfolding match_user record_pipeline_event
    match_user-grows already u =
        elim (Bool-cases (nat_eq.beq (s.daily_candidate_cap - already) 0)) [
          | inl full ↦ rw full (omega arith)
          | inr room ↦ rw room (grows-if _ k _ u _ (take_some-grows _ _ k u _))
        ]

    -- A user whose matches of the day are within the daily cap is within it after the user's
    -- turn of a cycle, whatever the reranker returns, and the turn adds at most `top_n`.
    pub match_user-within_cap :
        matches_today cycle_at k.world user ≤ s.daily_candidate_cap
        → matches_today cycle_at
            (match_user py s cycle_at reranker top_n
              (matches_today cycle_at k.world user)
              user
              cands
              k).world
            user
          ≤ min s.daily_candidate_cap (matches_today cycle_at k.world user + top_n)
    match_user-within_cap within =
        omega (arith, match_user-grows (matches_today cycle_at k.world user) user)
