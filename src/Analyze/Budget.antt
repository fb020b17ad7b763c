-- ===== src/Analyze/Budget.antt =====
-- app/analyze/batch.py: the budget of a day.
use job_match_pipeline.Prelude.{
  ℕ, zero, suc, ◌+◌, ◌-◌, ◌*◌, ◌≤◌, ◌≡◌, List, [], ◌∷◌, ◌++◌, Option, none, some, arith, length,
  length-append, length-keep-snoc, keep, Bool, true, false, ltb, length-take, Bool-cases, inl, inr,
}
use mathlib.Core.Path.{subst}
use native.Mathlib.Nat.{le_trans}
use job_match_pipeline.Payload.{Payload, Uuid, Builtins, ℤ, pos, lookup}
use job_match_pipeline.Db.Rows.{Time, Match, PipelineEvent, Stage, Action}
use job_match_pipeline.Db.Session.{World, QueueName, enqueue, record_pipeline_event}
use job_match_pipeline.Analyze.Ranking.{is_candidate, order, select_candidates}
use job_match_pipeline.Analyze.Batch.{
  BatchSettings, at_least_zero, spent_in, spent_today, task_limit, remaining_of, selected,
  parse_user_ids, enqueue_all, analyze_payload, analyze_batch,
}

task_limit_bound : (r e : ℕ) → task_limit r (pos e) * e ≤ r
unfolding task_limit
task_limit_bound r zero = omega arith
task_limit_bound r (suc e) = grind arith

length-select_candidates :
    (n : ℕ) (ids : Option (List Uuid)) (w : World) → length (select_candidates n ids w) ≤ n
unfolding select_candidates
length-select_candidates n ids w =
    omega (arith, length-take n (order (keep (is_candidate ids w) w.matches)))

spent_in-snoc :
    (t : Time) (e : PipelineEvent) (es : List PipelineEvent)
    → spent_in t (es ++ e ∷ []) ≡ spent_in t es + spent_in t (e ∷ [])
spent_in-snoc t e [] = ground arith
spent_in-snoc t e (x ∷ xs) = ground (arith, spent_in-snoc t e xs)

mul_mono : {a b : ℕ} (c : ℕ) → a ≤ b → a * c ≤ b * c
mul_mono c h = grind arith

limit_cost : {n : ℕ} (est r : ℕ) (rate : ℤ) → rate ≡ pos est → n ≤ task_limit r rate → n * est ≤ r
limit_cost {n} est r rate e h =
    le_trans (mul_mono est (subst (λ t. n ≤ task_limit r t) e h)) (task_limit_bound r est)

module _ (py : Builtins) (s : BatchSettings) (day_start : Time) (payload : Payload)
    (w : World) where
  selected-cost :
      (est : ℕ)
      → s.analysis_est_cost_usd ≡ pos est
      → length (selected py s day_start payload w) * est ≤ remaining_of s day_start w
  selected-cost est e =
      let limit = task_limit (remaining_of s day_start w) s.analysis_est_cost_usd in
      elim (Bool-cases (ltb 0 limit)) [
        | inl some_left ↦ rw some_left (
            limit_cost est (remaining_of s day_start w) s.analysis_est_cost_usd e
              (length-select_candidates limit (parse_user_ids py (lookup "user_ids" payload)) w))
        | inr none_left ↦ rw none_left (omega arith)
      ]

-- The messages to analyze-match that wait for the commit.
abbrev is_analyze : QueueName → Bool
is_analyze QueueName.analyze_match = true
is_analyze _ = false

abbrev pub analyses_in : World → ℕ
analyses_in w = length (keep (λ t. is_analyze t.queue_name) w.pending)

length-enqueue :
    (name : QueueName) (p : Payload) (w : World)
    → length (enqueue name p w).pending ≡ length w.pending + 1
unfolding enqueue
length-enqueue name p w =
    omega (arith, length-append w.pending (record { queue_name = name; payload = p } ∷ []))

analyses_in-enqueue :
    (p : Payload) (w : World)
    → analyses_in (enqueue QueueName.analyze_match p w) ≡ analyses_in w + 1
unfolding enqueue
analyses_in-enqueue p w =
    length-keep-snoc (λ t. is_analyze t.queue_name) w.pending
      (record { queue_name = QueueName.analyze_match; payload = p })

abbrev sent_one : Builtins → Match → World → World
sent_one py m w =
    record_pipeline_event Stage.analyze_batch Action.enqueued_analyze (some m.job_id)
      (some m.user_id) m.rerank_score none
      (enqueue QueueName.analyze_match (analyze_payload py m) w)

enqueue_all-analyses_in :
    (py : Builtins) (ms : List Match) (n : ℕ) (w : World)
    → (analyses_in (enqueue_all py ms n w).1 ≡ analyses_in w + length ms)
      × (length (enqueue_all py ms n w).1.pending ≡ length w.pending + length ms)
      × ((enqueue_all py ms n w).0 ≡ n + length ms)
unfolding enqueue_all record_pipeline_event enqueue
enqueue_all-analyses_in py [] n w = (omega arith, omega arith, omega arith)
enqueue_all-analyses_in py (m ∷ ms) n w =
    let (sent, all, count) = enqueue_all-analyses_in py ms (n + 1) (sent_one py m w) in
    (
      omega (arith, sent, analyses_in-enqueue (analyze_payload py m) w),
      omega (arith, all, length-enqueue QueueName.analyze_match (analyze_payload py m) w),
      omega (arith, count),
    )

abbrev begun : World → World
begun w = record_pipeline_event Stage.analyze_batch Action.started none none none none w

spent_today-begun : (t : Time) (w : World) → spent_today t (begun w) ≡ spent_today t w
unfolding spent_today record_pipeline_event
spent_today-begun t w = omega (arith, spent_in-snoc t _ w.events)

module _ (py : Builtins) (s : BatchSettings) (day_start : Time) (payload : Payload)
    (w : World) where
  -- The batch adds to the queue's buffer as many messages as it reports, all to analyze-match, and they
  -- cost together, at an estimate that is not negative, no more than what today's analyses have
  -- left of the daily budget.
  pub analyze_batch-budget :
      (est : ℕ)
      → s.analysis_est_cost_usd ≡ pos est
      → let (result, w') = analyze_batch py s day_start payload w in
        (analyses_in w' ≡ analyses_in w + result.enqueued)
        × (length w'.pending ≡ length w.pending + result.enqueued)
        × (result.enqueued * est
            ≤ at_least_zero s.analysis_daily_budget_usd - spent_today day_start w)
  unfolding analyze_batch record_pipeline_event
  analyze_batch-budget est e =
      let chosen = selected py s day_start payload (begun w) in
      let (sent, all, count) = enqueue_all-analyses_in py chosen 0 (begun w) in
      let cost = selected-cost py s day_start payload (begun w) est e in
      (
        omega (arith, sent, count),
        omega (arith, all, count),
        rw (← spent_today-begun day_start w)
            (subst (λ n. n * est ≤ remaining_of s day_start (begun w)) (omega (arith, count)) cost),
      )
