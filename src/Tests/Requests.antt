-- ===== src/Tests/Requests.antt =====
-- Runs of a user's requests.
use job_match_pipeline.Prelude.{◌≡◌, refl, [], ◌∷◌, none, some, true, false, nat_eq}
use job_match_pipeline.Llm.{returned}
use job_match_pipeline.Db.Rows.{Action}
use job_match_pipeline.Db.Session.{get_match}
use job_match_pipeline.Api.Trigger.{trigger_all}
use job_match_pipeline.Api.Conserved.{IsConserved, trigger_all-IsConserved}
use job_match_pipeline.Api.Events.{
  Iso, EventRequest, EventResult, record_match_event, record_for_match, record_event, ui_action,
  validate_event_details,
}
use job_match_pipeline.Api.UiState.{state_of, ui_state_by_job}
use job_match_pipeline.Api.Shown.{record_match_event-shown}
use job_match_pipeline.Tests.Data.{py, world, open_match}

-- Match 20 has resumes, match 21 has none, and there is no match 99.
trigger_all-IsConserved_example :
    IsConserved world (trigger_all py (20 ∷ 21 ∷ 99 ∷ 21 ∷ 21 ∷ []) world)
trigger_all-IsConserved_example =
    trigger_all-IsConserved py (20 ∷ 21 ∷ 99 ∷ 21 ∷ 21 ∷ []) world (refl, tt)

abbrev iso : Iso
iso t = "2026-01-01T00:00:00Z"

abbrev view : EventRequest
view = record {
  user_id = 1;
  action = "viewed";
  reason_code = none;
  reason_text = none;
  applied_at = none;
  outcome = none;
}

abbrev viewed_answer : EventResult
viewed_answer = record { action = Action.viewed; is_deduped = false; match_id = some 20 }

answered-view : (record_match_event iso 20 view world).0 ≡ returned viewed_answer
unfolding record_match_event record_for_match record_event ui_action validate_event_details
    get_match
answered-view = refl

there-20 : get_match 20 world ≡ some open_match
unfolding get_match
there-20 = refl

record_match_event-shown_example :
    (state_of 10 (ui_state_by_job 1 (10 ∷ []) (record_match_event iso 20 view world).1)).viewed
    ≡ true
record_match_event-shown_example =
    record_match_event-shown iso 20 view world open_match viewed_answer (10 ∷ []) there-20
      answered-view refl refl
