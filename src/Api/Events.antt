-- ===== src/Api/Events.antt =====
-- app/api/service.py: record_match_event. The id of the event is left out.
use job_match_pipeline.Prelude.{
  Bool, true, false, ◌&&◌, ◌||◌, not, String, [], ◌∷◌, Option, none, some, any, elem, is_none,
  is_some, is_empty, or_else, if◌then◌else◌, ◌==◌, nat_eq, string_eq,
}
use job_match_pipeline.Prelude.Text.{truthy, strip}
use job_match_pipeline.Payload.{Uuid, Value, Payload, text}
use job_match_pipeline.Llm.{Outcome, returned, raised}
use job_match_pipeline.Db.Rows.{Time, Match, PipelineEvent, Details, Stage, Action}
use job_match_pipeline.Db.Session.{World, get_match, record_pipeline_event}

-- `value.isoformat().replace("+00:00", "Z")`
abbrev pub Iso : Type 0
Iso = Time → String

-- The body of a request.
pub record EventRequest : Type 0 where
  pub user_id : Uuid
  pub action : String
  pub reason_code : Option String
  pub reason_text : Option String
  pub applied_at : Option Time
  pub outcome : Option String

pub record EventResult : Type 0 where
  pub action : Action
  pub is_deduped : Bool
  pub match_id : Option Uuid

-- UI_ACTIONS
unfoldable pub ui_action : String → Option Action
ui_action s =
    if s == "viewed"
    then some Action.viewed
    else if s == "skipped"
    then some Action.skipped
    else if s == "generate_requested"
    then some Action.generate_requested
    else if s == "marked_applied"
    then some Action.marked_applied
    else if s == "outcome"
    then some Action.outcome
    else none

-- SKIP_REASON_CODES
abbrev is_skip_reason : String → Bool
is_skip_reason s = elem s (
    "not_interested" ∷ "wrong_location" ∷ "wrong_comp" ∷ "wrong_seniority" ∷ "disagree_with_gate"
    ∷ "other" ∷ [])

-- OUTCOME_VALUES
abbrev is_outcome : String → Bool
is_outcome s = elem s ("interview" ∷ "rejected" ∷ [])

abbrev reason_entry : Option String → Payload
reason_entry none = []
reason_entry (some s) = if truthy s then ("reason_text", text (strip s)) ∷ [] else []

abbrev skip_details : Option String → Option String → Option Payload
skip_details none reason = none
skip_details (some code) reason =
    if is_skip_reason code then some (("reason_code", text code) ∷ reason_entry reason) else none

abbrev outcome_details : Option String → Option Payload
outcome_details none = none
outcome_details (some s) = if is_outcome s then some (("outcome", text s) ∷ []) else none

-- `_validate_event_details`, with none for PrivacySafeError.
unfoldable pub validate_event_details : Iso → Time → Action → EventRequest → Option Payload
validate_event_details iso now Action.skipped r = skip_details r.reason_code r.reason_text
validate_event_details iso now Action.marked_applied r =
    some (("applied_at", text (iso (or_else r.applied_at now))) ∷ [])
validate_event_details iso now Action.outcome r = outcome_details r.outcome
validate_event_details iso now _ r =
    if is_some r.reason_code || is_some r.reason_text || is_some r.applied_at || is_some r.outcome
    then none
    else some []

-- `details[key] = value`
unfoldable pub set_item : String → Value → Payload → Payload
set_item key v [] = (key, v) ∷ []
set_item key v ((k, u) ∷ rest) =
    let others = set_item key v rest in if k == key then (k, v) ∷ rest else (k, u) ∷ others

abbrev pub is_viewed : Action → Bool
is_viewed Action.viewed = true
is_viewed _ = false

abbrev is_marked_applied : Action → Bool
is_marked_applied Action.marked_applied = true
is_marked_applied _ = false

abbrev pub is_ui : Stage → Bool
is_ui Stage.ui = true
is_ui _ = false

abbrev pub is_id : Uuid → Option Uuid → Bool
is_id x none = false
is_id x (some y) = y == x

-- An event of the user about the job, from the user interface.
abbrev pub is_ui_event : Uuid → Uuid → PipelineEvent → Bool
is_ui_event user job e = is_ui e.stage && is_id user e.user_id && is_id job e.job_id

-- The events that make another `viewed` superfluous.
abbrev pub is_view_of : Uuid → Uuid → PipelineEvent → Bool
is_view_of user job e = is_ui_event user job e && is_viewed e.action

abbrev pub details_or_none : Payload → Option Details
details_or_none d = if is_empty d then none else some d

-- The time of an application that the request does not give.
abbrev pub with_applied_at : Iso → Time → Action → EventRequest → Payload → Payload
with_applied_at iso now action r d =
    if is_none r.applied_at && is_marked_applied action
    then set_item "applied_at" (text (iso now)) d
    else d

unfoldable pub record_event :
    Iso → Match → Action → EventRequest → Payload → World → Outcome EventResult × World
unfolding record_pipeline_event
record_event iso m action r details w =
    if is_viewed action && any (is_view_of r.user_id m.job_id) w.events
    then (returned (record { action = action; is_deduped = true; match_id = none }), w)
    else (
      returned (record { action = action; is_deduped = false; match_id = some m.id }),
      record_pipeline_event Stage.ui action (some m.job_id) (some r.user_id) none
          (details_or_none (with_applied_at iso w.clock action r details)) w,
    )

unfoldable pub record_for_match :
    Iso → Match → Action → EventRequest → World → Outcome EventResult × World
unfolding record_event
record_for_match iso m action r w =
    if not (m.user_id == r.user_id)
    then (raised, w)
    else elim (validate_event_details iso w.clock action r) [
      | none ↦ (raised, w)
      | some details ↦ record_event iso m action r details w
    ]

-- PrivacySafeError is raised for an action that is none, and for a match that is not the user's.
unfoldable pub record_match_event : Iso → Uuid → EventRequest → World → Outcome EventResult × World
unfolding record_for_match
record_match_event iso match_id r w = elim (ui_action r.action) [
  | none ↦ (raised, w)
  | some action ↦ elim (get_match match_id w) [
    | none ↦ (raised, w)
    | some m ↦ record_for_match iso m action r w
  ]
]
