-- ===== src/Match/Recorded.antt =====
-- app/match/service.py: the matches of a cycle and the set of its pairs.
use job_match_pipeline.Prelude.{
  ℕ, ◌+◌, ◌-◌, ◌≤◌, ◌≡◌, Bool, true, false, ◌&&◌, List, [], ◌∷◌, ◌++◌, arith, keep, length,
  length-keep-snoc, length-append, if◌then◌else◌, ◌==◌, nat_eq, &&_true, sym, ◌∙◌, Bool-cases, inl,
  inr, Option-cases,
}
use mathlib.Core.Path.{ap₂}
use job_match_pipeline.Payload.{Uuid, Payload, Builtins}
use job_match_pipeline.Db.Rows.{Score, Time, Match}
use job_match_pipeline.Db.Session.{World, QueueName, screen_job, enqueue, record_pipeline_event}
use job_match_pipeline.Match.Rerank.{RerankResult, Reranker}
use job_match_pipeline.Match.Batch.{
  Candidate, MatchSettings, Cycle, pair_in, new_match, found_in, write_match, add_match,
  below_floor, enqueue_screen, take_result, take_results, match_user, match_users,
}

-- The messages to screen-job that wait for the commit.
abbrev pub is_screen : QueueName → Bool
is_screen screen_job = true
is_screen _ = false

abbrev pub screens_in : World → ℕ
screens_in w = length (keep (λ t. is_screen t.queue_name) w.pending)

pub screens_in-enqueue :
    (name : QueueName) (p : Payload) (w : World)
    → screens_in (enqueue name p w) ≡ screens_in w + (if is_screen name then 1 else 0)
unfolding enqueue
screens_in-enqueue name p w =
    length-keep-snoc (λ t. is_screen t.queue_name) w.pending
      (record { queue_name = name; payload = p })

module _ (py : Builtins) (s : MatchSettings) (cycle_at : Time) where
  -- The matches of a pair in this cycle.
  abbrev pub is_pair : Uuid → Uuid → Match → Bool
  is_pair u j m = m.cycle_at == cycle_at && (m.user_id == u && m.job_id == j)

  abbrev pub pair_count : Uuid → Uuid → World → ℕ
  pair_count u j w = length (keep (is_pair u j) w.matches)

  -- Since the start, a pair has a match in this cycle only if the loop knows it, and never two; the
  -- counters are the rows and messages that were added.
  pub record IsRecorded (start : World) (k : Cycle) : Type 0 where
    pub at :
        (u j : Uuid) → pair_count u j k.world ≤ (if pair_in u j k.already_this_cycle then 1 else 0)
    pub screens : k.screens_enqueued ≤ k.matches_written
    pub rows : length k.world.matches ≡ length start.matches + k.matches_written
    pub sent : screens_in k.world ≡ screens_in start + k.screens_enqueued

  pub matches-write_match :
      (c : Candidate) (score : Score) (k : Cycle)
      → (write_match py s cycle_at c score k).world.matches
        ≡ k.world.matches ++ new_match py s cycle_at c score k.world.next_id ∷ []
  unfolding write_match add_match enqueue_screen
  matches-write_match c score k = ground arith

  -- A test that is known to fail for the pair that is written.
  pair_in_new :
      (u j : Uuid) (c : Candidate) (pairs : List (Uuid × Uuid))
      → pair_in c.user_id c.job_id pairs ≡ false
      → (c.user_id == u && c.job_id == j) ≡ true
      → pair_in u j pairs ≡ false
  pair_in_new u j c pairs new same =
      let (user, job) = &&_true _ _ same in
      ap₂ (λ a b. pair_in a b pairs) (sym ((nat_eq.beq_iff c.user_id u).0 user))
        (sym ((nat_eq.beq_iff c.job_id j).0 job))
      ∙ new

  screens_in-write_match :
      (c : Candidate) (score : Score) (k : Cycle)
      → screens_in (write_match py s cycle_at c score k).world + k.screens_enqueued
        ≡ screens_in k.world + (write_match py s cycle_at c score k).screens_enqueued
  unfolding write_match add_match enqueue_screen record_pipeline_event enqueue
  screens_in-write_match c score k =
      elim (Bool-cases (below_floor py s cycle_at s.screen_score_floor score)) [
        | inl low ↦ rw low (omega arith)
        | inr high ↦ rw high (omega (arith, screens_in-enqueue QueueName.screen_job _ k.world))
      ]

  write_match-IsRecorded :
      {start : World} (c : Candidate) (score : Score) (k : Cycle)
      → pair_in c.user_id c.job_id k.already_this_cycle ≡ false
      → IsRecorded start k
      → IsRecorded start (write_match py s cycle_at c score k)
  write_match-IsRecorded c score k new h = record {
    at = λ u j. rw matches-write_match (
        unfold write_match in
        ground (
          arith,
          h.at u j,
          pair_in_new u j c k.already_this_cycle new,
          length-keep-snoc (is_pair u j) k.world.matches
              (new_match py s cycle_at c score k.world.next_id),
        ));
    screens = unfold write_match in ground (arith, h.screens);
    rows = rw matches-write_match (
        unfold write_match in
        ground (
          arith,
          h.rows,
          length-append k.world.matches (new_match py s cycle_at c score k.world.next_id ∷ []),
        ));
    sent = omega (arith, h.sent, screens_in-write_match c score k);
  }

  take_result-IsRecorded :
      {start : World} (pool : List Candidate) (r : RerankResult) (k : Cycle)
      → IsRecorded start k
      → IsRecorded start (take_result py s cycle_at pool r k)
  unfolding take_result
  take_result-IsRecorded pool r k h = elim (Option-cases (found_in py s cycle_at pool r)) [
    | inl gone ↦ rw (gone, take_result) h
    | inr (c, found) ↦ elim (Bool-cases (pair_in c.user_id c.job_id k.already_this_cycle)) [
      | inl old ↦ rw (found, take_result) (rw old h)
      | inr new ↦ rw (found, take_result) (rw new (write_match-IsRecorded c r.score k new h))
    ]
  ]

  take_results-IsRecorded :
      {start : World} (pool : List Candidate) (rs : List RerankResult) (k : Cycle)
      → IsRecorded start k
      → IsRecorded start (take_results py s cycle_at pool rs k)
  unfolding take_results
  take_results-IsRecorded pool [] k h = h
  take_results-IsRecorded pool (r ∷ rs) k h =
      take_results-IsRecorded pool rs (take_result py s cycle_at pool r k)
        (take_result-IsRecorded pool r k h)

  IsRecorded-if :
      {start : World} (b : Bool) (x y : Cycle)
      → IsRecorded start x
      → IsRecorded start y
      → IsRecorded start (if b then x else y)
  IsRecorded-if true x y h g = h
  IsRecorded-if false x y h g = g

  module _ (reranker : Reranker) (top_n : ℕ) where
    match_user-IsRecorded :
        {start : World} (already : ℕ) (user : Uuid) (cands : List Candidate) (k : Cycle)
        → IsRecorded start k
        → IsRecorded start (match_user py s cycle_at reranker top_n already user cands k)
    unfolding match_user
    match_user-IsRecorded already user cands k h =
        elim (Bool-cases (nat_eq.beq (s.daily_candidate_cap - already) 0)) [
          | inl full ↦
              rw full (record { at = h.at; screens = h.screens; rows = h.rows; sent = h.sent })
          | inr room ↦ rw room (IsRecorded-if _ _ _ h (take_results-IsRecorded _ _ k h))
        ]

    pub match_users-IsRecorded :
        {start : World} (already : Uuid → ℕ) (extracted : List Candidate) (us : List Uuid)
        (k : Cycle)
        → IsRecorded start k
        → IsRecorded start (match_users py s cycle_at reranker top_n already extracted us k)
    unfolding match_users
    match_users-IsRecorded already extracted [] k h = h
    match_users-IsRecorded already extracted (u ∷ us) k h =
        match_users-IsRecorded already extracted us _
          (match_user-IsRecorded (already u) u (keep (λ c. c.user_id == u) extracted) k h)
