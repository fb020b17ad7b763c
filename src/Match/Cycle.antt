-- ===== src/Match/Cycle.antt =====
-- app/match/service.py: the matches of a cycle, from the candidate rows to the end of the loop.
use job_match_pipeline.Prelude.{
  ◌≤◌, ◌≡◌, refl, false, List, [], ◌∷◌, arith, keep, elem, length, ◌∙◌, ◌+◌, is_none, if◌then◌else◌,
  nat_eq, Bool-cases, inl, inr,
}
use job_match_pipeline.Payload.{Uuid, Builtins}
use job_match_pipeline.Db.Rows.{Time, Match}
use job_match_pipeline.Db.Session.{World, QueueName, record_pipeline_event, enqueue}
use job_match_pipeline.Match.Rerank.{Reranker}
use job_match_pipeline.Match.Batch.{
  Candidate, MatchSettings, Cycle, pair_in, pairs_for_cycle, match_candidates, enqueue_extracts,
  extract_loop,
}
use job_match_pipeline.Match.Recorded.{
  screens_in, screens_in-enqueue, is_pair, pair_count, IsRecorded, match_users-IsRecorded,
}

extract_loop-matches :
    (py : Builtins) (seen : List Uuid) (cs : List Candidate) (w : World)
    → (extract_loop py seen cs w).1.matches ≡ w.matches
unfolding extract_loop record_pipeline_event enqueue
extract_loop-matches py seen [] w = refl
extract_loop-matches py seen (c ∷ cs) w = elim (Bool-cases (elem c.job_id seen)) [
  | inl known ↦ rw known (extract_loop-matches py seen cs _)
  | inr new ↦ rw new (extract_loop-matches py (c.job_id ∷ seen) cs _)
]

extract_loop-screens_in :
    (py : Builtins) (seen : List Uuid) (cs : List Candidate) (w : World)
    → screens_in (extract_loop py seen cs w).1 ≡ screens_in w
unfolding extract_loop record_pipeline_event enqueue
extract_loop-screens_in py seen [] w = refl
extract_loop-screens_in py seen (c ∷ cs) w = elim (Bool-cases (elem c.job_id seen)) [
  | inl known ↦ rw known (extract_loop-screens_in py seen cs _)
  | inr new ↦ rw new (
      extract_loop-screens_in py (c.job_id ∷ seen) cs _
      ∙ (screens_in-enqueue QueueName.extract_job _ w ∙ omega arith))
]

module _ (py : Builtins) (s : MatchSettings) (cycle_at : Time) where
  -- A pair that the set of the cycle's pairs lacks has no match in the cycle.
  pairs_for_cycle_complete :
      (u j : Uuid) (ms : List Match)
      → pair_in u j (pairs_for_cycle cycle_at ms) ≡ false
      → length (keep (is_pair py s cycle_at u j) ms) ≡ 0
  pairs_for_cycle_complete u j [] absent = refl
  pairs_for_cycle_complete u j (m ∷ ms) absent = ground (arith, pairs_for_cycle_complete u j ms)

  pairs_for_cycle-IsRecorded :
      (u j : Uuid) (w : World)
      → pair_count py s cycle_at u j w ≤ 1
      → pair_count py s cycle_at u j w
        ≤ (if pair_in u j (pairs_for_cycle cycle_at w.matches) then 1 else 0)
  pairs_for_cycle-IsRecorded u j w one =
      elim (Bool-cases (pair_in u j (pairs_for_cycle cycle_at w.matches))) [
        | inl known ↦ rw known one
        | inr absent ↦ rw absent (ground (arith, pairs_for_cycle_complete u j w.matches absent))
      ]

  -- The loop starts from the pairs that the cycle has.
  start-IsRecorded :
      (cs : List Candidate) (w : World)
      → ((u j : Uuid) → pair_count py s cycle_at u j w ≤ 1)
      → IsRecorded py s cycle_at w (record {
        world = (enqueue_extracts py cs w).1;
        already_this_cycle = pairs_for_cycle cycle_at (enqueue_extracts py cs w).1.matches;
        matches_written = 0;
        screens_enqueued = 0;
      })
  unfolding enqueue_extracts
  start-IsRecorded cs w one = record {
    at = λ u j.
        pairs_for_cycle-IsRecorded u j (enqueue_extracts py cs w).1
          (rw (extract_loop-matches py [] cs w) (one u j));
    screens = omega arith;
    rows = rw (extract_loop-matches py [] cs w) (omega arith);
    sent = omega (arith, extract_loop-screens_in py [] cs w);
  }

  -- After the candidates of a world are matched: no pair has two matches of the cycle; the counters
  -- are the numbers of rows and of messages to screen-job that were added, and there are no more of
  -- these messages than rows.
  pub record IsMatched (w : World) (k : Cycle) : Type 0 where
    pub one : (u j : Uuid) → pair_count py s cycle_at u j k.world ≤ 1
    pub rows : length k.world.matches ≡ length w.matches + k.matches_written
    pub sent : screens_in k.world ≡ screens_in w + k.screens_enqueued
    pub no_more : k.screens_enqueued ≤ k.matches_written

  IsRecorded-IsMatched : (w : World) (k : Cycle) → IsRecorded py s cycle_at w k → IsMatched w k
  IsRecorded-IsMatched w k h = record {
    one = λ u j. ground (arith, h.at u j);
    rows = h.rows;
    sent = h.sent;
    no_more = h.screens;
  }

  -- If no pair of a user and a job has two matches of the cycle before, none has after the
  -- candidates are matched; the two counters are the numbers of matches and of messages to
  -- screen-job that are added, and there are no more of these messages than of these matches.
  pub match_candidates-once :
      (reranker : Reranker) (cands : List Candidate) (w : World)
      → ((u j : Uuid) → pair_count py s cycle_at u j w ≤ 1)
      → IsMatched w (match_candidates py s cycle_at reranker cands w).1
  unfolding match_candidates
  match_candidates-once reranker cands w one = IsRecorded-IsMatched w _ (
      match_users-IsRecorded py s cycle_at reranker s.match_top_n _ _ _ _
        (start-IsRecorded (keep (λ c. is_none c.extracted_at) cands) w one))
