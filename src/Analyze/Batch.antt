-- ===== src/Analyze/Batch.antt =====
-- app/analyze/batch.py: today's spending, and the messages that the rest of the budget allows.
use job_match_pipeline.Prelude.{
  ℕ, zero, suc, ◌+◌, ◌-◌, ◌/◌, Bool, true, false, ◌&&◌, String, List, [], ◌∷◌, Option, none, some,
  leb, ltb, if◌then◌else◌, is_empty,
}
use job_match_pipeline.Payload.{
  Uuid, Payload, Value, null, text, texts, number, pos, negsuc, ℤ, Builtins, lookup, parse_uuid,
}
use job_match_pipeline.Db.Rows.{Time, Match, PipelineEvent, Details, Stage, Action}
use job_match_pipeline.Db.Session.{World, QueueName, record_pipeline_event, enqueue}
use job_match_pipeline.Analyze.Ranking.{select_candidates}

-- Amounts of 10^-8 USD.
pub record BatchSettings : Type 0 where
  pub analysis_daily_budget_usd : ℤ
  pub analysis_est_cost_usd : ℤ

pub record AnalyzeBatchResult : Type 0 where
  pub spent_usd : ℕ
  pub remaining_usd : ℕ
  pub task_count : ℕ
  pub enqueued : ℕ

-- `max(0.0, x)`
abbrev pub at_least_zero : ℤ → ℕ
at_least_zero (pos n) = n
at_least_zero (negsuc n) = 0

-- `(details->>'cost_usd')::float`, which sums as nothing where it is NULL.
abbrev cost_value : Value → ℕ
cost_value (number (pos n)) = n
cost_value _ = 0

abbrev pub cost_of : Option Details → ℕ
cost_of none = 0
cost_of (some d) = cost_value (lookup "cost_usd" d)

abbrev is_analyze_stage : Stage → Bool
is_analyze_stage Stage.analyze_match = true
is_analyze_stage _ = false

abbrev pub spent_in : Time → List PipelineEvent → ℕ
spent_in day_start [] = 0
spent_in day_start (e ∷ es) =
    let rest = spent_in day_start es in
    if is_analyze_stage e.stage && leb day_start e.ts then cost_of e.details + rest else rest

unfoldable pub spent_today : Time → World → ℕ
spent_today day_start w = spent_in day_start w.events

-- `math.floor(remaining / est)`, or nothing without a positive estimate.
unfoldable pub task_limit : ℕ → ℤ → ℕ
task_limit remaining (negsuc e) = 0
task_limit remaining (pos zero) = 0
task_limit remaining (pos (suc e)) = remaining / suc e

-- `_parse_user_ids`: a single value is a list of one; no valid id at all means every user.
abbrev some_ids : Builtins → List String → List Uuid
some_ids py [] = []
some_ids py (s ∷ rest) =
    let ids = some_ids py rest in elim (parse_uuid py (text s)) [ none ↦ ids | some id ↦ id ∷ ids ]

abbrev one_id : Option Uuid → List Uuid
one_id none = []
one_id (some id) = id ∷ []

abbrev nonempty_ids : List Uuid → Option (List Uuid)
nonempty_ids ids = if is_empty ids then none else some ids

unfoldable pub parse_user_ids : Builtins → Value → Option (List Uuid)
parse_user_ids py null = none
parse_user_ids py (texts l) = nonempty_ids (some_ids py l)
parse_user_ids py v = nonempty_ids (one_id (parse_uuid py v))

-- The loop over the selected matches.
unfoldable pub analyze_payload : Builtins → Match → Payload
analyze_payload py m =
    ("user_id", text (py.str_of_uuid m.user_id))
    ∷ ("job_id", text (py.str_of_uuid m.job_id))
    ∷ ("match_id", text (py.str_of_uuid m.id))
    ∷ []

unfoldable pub enqueue_all : Builtins → List Match → ℕ → World → ℕ × World
unfolding record_pipeline_event enqueue
enqueue_all py [] enqueued w = (enqueued, w)
enqueue_all py (m ∷ ms) enqueued w = enqueue_all py ms (enqueued + 1) (
    record_pipeline_event Stage.analyze_batch Action.enqueued_analyze (some m.job_id)
      (some m.user_id) m.rerank_score none
      (enqueue QueueName.analyze_match (analyze_payload py m) w))

-- The amounts and counters of the event.
abbrev batch_details : BatchSettings → AnalyzeBatchResult → Details
batch_details s r =
    ("spent_usd", number (pos r.spent_usd))
    ∷ ("remaining_usd", number (pos r.remaining_usd))
    ∷ ("budget_usd", number (pos (at_least_zero s.analysis_daily_budget_usd)))
    ∷ ("est_cost_usd", number s.analysis_est_cost_usd)
    ∷ ("task_count", number (pos r.task_count))
    ∷ ("enqueued", number (pos r.enqueued))
    ∷ []

abbrev plain_event : Action → Option Details → World → World
plain_event action details w =
    record_pipeline_event Stage.analyze_batch action none none none details w

-- What is left of the budget.
abbrev pub remaining_of : BatchSettings → Time → World → ℕ
remaining_of s day_start w = at_least_zero s.analysis_daily_budget_usd - spent_today day_start w

abbrev pub selected : Builtins → BatchSettings → Time → Payload → World → List Match
selected py s day_start payload w =
    let limit = task_limit (remaining_of s day_start w) s.analysis_est_cost_usd in
    if ltb 0 limit
    then select_candidates limit (parse_user_ids py (lookup "user_ids" payload)) w
    else []

-- `analyze_batch`; `day_start` is midnight UTC of the current day.
unfoldable pub analyze_batch :
    Builtins → BatchSettings → Time → Payload → World → AnalyzeBatchResult × World
unfolding record_pipeline_event
analyze_batch py s day_start payload w0 =
    let w = plain_event Action.started none w0 in
    let (enqueued, w1) = enqueue_all py (selected py s day_start payload w) 0 w in
    let result : AnalyzeBatchResult = record {
      spent_usd = spent_today day_start w;
      remaining_usd = remaining_of s day_start w;
      task_count = task_limit (remaining_of s day_start w) s.analysis_est_cost_usd;
      enqueued = enqueued;
    } in
    (result, plain_event Action.completed (some (batch_details s result)) w1)
