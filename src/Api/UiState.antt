-- ===== src/Api/UiState.antt =====
-- app/api/service.py: the state of a user's jobs in the interface, out of the events. Events of one
-- time stand in the order of the table.
use job_match_pipeline.Prelude.{
  Bool, true, false, ◌&&◌, List, [], ◌∷◌, Option, none, some, keep, map, elem, leb, if◌then◌else◌,
  ◌==◌, nat_eq,
}
use job_match_pipeline.Payload.{Uuid, Value, null, Payload, lookup}
use job_match_pipeline.Db.Rows.{PipelineEvent, Details, Action}
use job_match_pipeline.Db.Session.{World}
use job_match_pipeline.Api.Events.{is_ui, is_id}

-- A skip: `details.get("reason_code")` and `details.get("reason_text")`
pub record SkipState : Type 0 where
  pub reason_code : Value
  pub reason_text : Value

pub record UiState : Type 0 where
  pub viewed : Bool
  pub skipped : Option SkipState
  pub generate_requested : Bool
  pub applied_at : Value
  pub outcome : Value

-- `_empty_ui_state()`
abbrev pub empty_ui_state : UiState
empty_ui_state = record {
  viewed = false;
  skipped = none;
  generate_requested = false;
  applied_at = null;
  outcome = null;
}

-- `event.details or {}`
abbrev pub details_of : Option Details → Payload
details_of none = []
details_of (some d) = d

abbrev keep_value : Value → Value → Value
keep_value null v = v
keep_value u v = u

abbrev keep_skip : Option SkipState → SkipState → Option SkipState
keep_skip none s = some s
keep_skip (some t) s = some t

-- One turn of the loop: the first event of its kind that has a value stays.
unfoldable pub apply_event : Action → Payload → UiState → UiState
apply_event Action.viewed d s = record s { viewed = true }
apply_event Action.skipped d s = record s {
  skipped =
      keep_skip s.skipped
        (record { reason_code = lookup "reason_code" d; reason_text = lookup "reason_text" d });
}
apply_event Action.generate_requested d s = record s { generate_requested = true }
apply_event Action.marked_applied d s = record s {
  applied_at = keep_value s.applied_at (lookup "applied_at" d);
}
apply_event Action.outcome d s = record s { outcome = keep_value s.outcome (lookup "outcome" d) }
apply_event _ d s = s

-- The dict by job.
abbrev pub States : Type 0
States = List (Uuid × UiState)

unfoldable pub apply_to : PipelineEvent → States → States
apply_to e [] = []
apply_to e ((job, s) ∷ rest) =
    (job, if is_id job e.job_id then apply_event e.action (details_of e.details) s else s)
    ∷ apply_to e rest

unfoldable pub apply_events : List PipelineEvent → States → States
apply_events [] states = states
apply_events (e ∷ es) states = apply_events es (apply_to e states)

-- `ORDER BY ts DESC`
unfoldable pub insert_event : PipelineEvent → List PipelineEvent → List PipelineEvent
insert_event e [] = e ∷ []
insert_event e (f ∷ fs) =
    let rest = insert_event e fs in if leb f.ts e.ts then e ∷ f ∷ fs else f ∷ rest

unfoldable pub newest_first : List PipelineEvent → List PipelineEvent
newest_first [] = []
newest_first (e ∷ es) = insert_event e (newest_first es)

abbrev pub is_among : List Uuid → Option Uuid → Bool
is_among jobs none = false
is_among jobs (some job) = elem job jobs

-- The WHERE clauses of the SELECT.
abbrev pub is_selected : Uuid → List Uuid → PipelineEvent → Bool
is_selected user jobs e = is_ui e.stage && is_id user e.user_id && is_among jobs e.job_id

-- `_ui_state_by_job`
unfoldable pub ui_state_by_job : Uuid → List Uuid → World → States
ui_state_by_job user jobs w =
    let events = newest_first (keep (is_selected user jobs) w.events) in
    apply_events events (map (λ job. (job, empty_ui_state)) jobs)

-- `states.get(job, _empty_ui_state())`
unfoldable pub state_of : Uuid → States → UiState
state_of job [] = empty_ui_state
state_of job ((k, s) ∷ rest) = let found = state_of job rest in if k == job then s else found
