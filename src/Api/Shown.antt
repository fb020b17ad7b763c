-- ===== src/Api/Shown.antt =====
-- app/api/service.py: what the interface shows of the events that were recorded.
use job_match_pipeline.Prelude.{
  ◌≡◌, ◌∙◌, refl, sym, Bool, true, false, ◌&&◌, ◌||◌, List, [], ◌∷◌, ◌++◌, Option, none, some, keep,
  any, map, elem, arith, ◌==◌, nat_eq, beq_refl,
}
use job_match_pipeline.Payload.{Uuid, Payload}
use job_match_pipeline.Llm.{returned}
use job_match_pipeline.Db.Rows.{PipelineEvent, Stage, Action, Match}
use job_match_pipeline.Db.Session.{World, get_match, record_pipeline_event}
use job_match_pipeline.Api.Events.{
  Iso, EventRequest, EventResult, is_id, is_viewed, is_view_of, details_or_none, with_applied_at,
  record_event, record_for_match, record_match_event,
}
use job_match_pipeline.Api.UiState.{
  UiState, States, details_of, empty_ui_state, apply_event, apply_to, apply_events, insert_event,
  newest_first, is_selected, is_among, ui_state_by_job, state_of,
}

abbrev has_key : Uuid → States → Bool
has_key job [] = false
has_key job ((k, s) ∷ rest) = k == job || has_key job rest

has_key-apply_to :
    (job : Uuid) (e : PipelineEvent) (states : States)
    → has_key job (apply_to e states) ≡ has_key job states
unfolding apply_to
has_key-apply_to job e [] = refl
has_key-apply_to job e ((k, s) ∷ rest) = ground (arith, has_key-apply_to job e rest)

viewed-apply_event :
    (a : Action) (d : Payload) (s : UiState)
    → (apply_event a d s).viewed ≡ (s.viewed || is_viewed a)
unfolding apply_event
viewed-apply_event a d s = ground arith

-- The test of a view, for an event that was selected.
abbrev views : Uuid → PipelineEvent → Bool
views job e = is_id job e.job_id && is_viewed e.action

viewed-apply_to :
    (job : Uuid) (e : PipelineEvent) (states : States)
    → has_key job states ≡ true
    → (state_of job (apply_to e states)).viewed ≡ ((state_of job states).viewed || views job e)
unfolding apply_to state_of
viewed-apply_to job e [] h = ground arith
viewed-apply_to job e ((k, s) ∷ rest) h =
    ground (arith, viewed-apply_to job e rest, viewed-apply_event e.action (details_of e.details) s)

viewed-apply_events :
    (job : Uuid) (es : List PipelineEvent) (states : States)
    → has_key job states ≡ true
    → (state_of job (apply_events es states)).viewed
      ≡ ((state_of job states).viewed || any (views job) es)
unfolding apply_events
viewed-apply_events job [] states h = ground arith
viewed-apply_events job (e ∷ es) states h = ground (
  arith,
  viewed-apply_events job es (apply_to e states),
  viewed-apply_to job e states,
  has_key-apply_to job e states,
)

module _ (p : PipelineEvent → Bool) where
  any-insert_event :
      (e : PipelineEvent) (es : List PipelineEvent) → any p (insert_event e es) ≡ (p e || any p es)
  unfolding insert_event
  any-insert_event e [] = ground arith
  any-insert_event e (f ∷ fs) = ground (arith, any-insert_event e fs)

  any-newest_first : (es : List PipelineEvent) → any p (newest_first es) ≡ any p es
  unfolding newest_first
  any-newest_first [] = refl
  any-newest_first (e ∷ es) =
      ground (arith, any-newest_first es, any-insert_event e (newest_first es))

  any-keep :
      (q r : PipelineEvent → Bool) (es : List PipelineEvent)
      → ((e : PipelineEvent) → (p e && q e) ≡ r e)
      → any p (keep q es) ≡ any r es
  any-keep q r [] h = refl
  any-keep q r (e ∷ es) h = ground (arith, any-keep q r es h, h e)

has_key-start :
    (job : Uuid) (jobs : List Uuid)
    → elem job jobs ≡ true
    → has_key job (map (λ (k : Uuid). (k, empty_ui_state)) jobs) ≡ true
has_key-start job [] h = ground arith
has_key-start job (k ∷ jobs) h =
    ground (arith, has_key-start job jobs, nat_eq.beq_iff k job, nat_eq.beq_iff job k)

state_of-start :
    (job : Uuid) (jobs : List Uuid)
    → state_of job (map (λ (k : Uuid). (k, empty_ui_state)) jobs) ≡ empty_ui_state
unfolding state_of
state_of-start job [] = refl
state_of-start job (k ∷ jobs) = ground (arith, state_of-start job jobs)

is_among-of_id :
    (job : Uuid) (jobs : List Uuid) (o : Option Uuid)
    → elem job jobs ≡ true
    → is_id job o ≡ true
    → is_among jobs o ≡ true
is_among-of_id job jobs none h g = ground arith
is_among-of_id job jobs (some k) h g = rw ((nat_eq.beq_iff k job).0 g) h

-- Of the selected events, those about the job are the user's.
selected-views :
    (user job : Uuid) (jobs : List Uuid) (e : PipelineEvent)
    → elem job jobs ≡ true
    → (views job e && is_selected user jobs e) ≡ is_view_of user job e
selected-views user job jobs e h = ground (arith, is_among-of_id job jobs e.job_id h)

-- The interface shows a job as viewed exactly if some event, anywhere in the table, is a `viewed` of this
-- user for this job, for each of the jobs that the state is asked for.
pub ui_state_by_job-viewed :
    (user job : Uuid) (jobs : List Uuid) (w : World)
    → elem job jobs ≡ true
    → (state_of job (ui_state_by_job user jobs w)).viewed ≡ any (is_view_of user job) w.events
unfolding ui_state_by_job
ui_state_by_job-viewed user job jobs w h =
    let chosen = keep (is_selected user jobs) w.events in
    let start : States = map (λ (k : Uuid). (k, empty_ui_state)) jobs in
    ground (
      arith,
      viewed-apply_events job (newest_first chosen) start (has_key-start job jobs h),
      state_of-start job jobs,
      any-newest_first (views job) chosen,
      any-keep (views job) (is_selected user jobs) (is_view_of user job) w.events
          (λ e. selected-views user job jobs e h),
    )

any-snoc :
    (p : PipelineEvent → Bool) (es : List PipelineEvent) (e : PipelineEvent)
    → p e ≡ true
    → any p (es ++ e ∷ []) ≡ true
any-snoc p [] e h = ground arith
any-snoc p (f ∷ es) e h = ground (arith, any-snoc p es e h)

module _ (iso : Iso) (m : Match) (r : EventRequest) (w : World) (answer : EventResult) where
  -- The event that is recorded now.
  abbrev new_event : Action → Payload → PipelineEvent
  new_event a d = record {
    stage = Stage.ui;
    action = a;
    job_id = some m.job_id;
    user_id = some r.user_id;
    score = none;
    details = details_or_none (with_applied_at iso w.clock a r d);
    ts = w.clock;
  }

  record_event-action :
      (a : Action) (d : Payload)
      → (record_event iso m a r d w).0 ≡ returned answer
      → answer.action ≡ a
  unfolding record_event
  record_event-action a d h = ground arith

  record_event-view :
      (a : Action) (d : Payload)
      → (record_event iso m a r d w).0 ≡ returned answer
      → answer.action ≡ Action.viewed
      → any (is_view_of r.user_id m.job_id) (record_event iso m a r d w).1.events ≡ true
  unfolding record_event record_pipeline_event
  record_event-view a d h v =
      let same : a ≡ Action.viewed = sym (record_event-action a d h) ∙ v in
      let is_view : is_view_of r.user_id m.job_id (new_event a d) ≡ true =
        ground (arith, same, beq_refl r.user_id, beq_refl m.job_id) in
      ground (arith, any-snoc (is_view_of r.user_id m.job_id) w.events (new_event a d) is_view)

  record_for_match-view :
      (a : Action)
      → (record_for_match iso m a r w).0 ≡ returned answer
      → answer.action ≡ Action.viewed
      → any (is_view_of r.user_id m.job_id) (record_for_match iso m a r w).1.events ≡ true
  unfolding record_for_match
  record_for_match-view a h v = grind (arith, record_event-view)

  record_match_event-view :
      (id : Uuid)
      → get_match id w ≡ some m
      → (record_match_event iso id r w).0 ≡ returned answer
      → answer.action ≡ Action.viewed
      → any (is_view_of r.user_id m.job_id) (record_match_event iso id r w).1.events ≡ true
  unfolding record_match_event
  record_match_event-view id found h v = grind (arith, record_for_match-view)

-- Where a request is answered as `viewed`, recorded or not, the interface then shows the match's job as
-- viewed by the user, in the state of any jobs among which it is.
pub record_match_event-shown :
    (iso : Iso) (id : Uuid) (r : EventRequest) (w : World) (m : Match) (answer : EventResult)
    (jobs : List Uuid)
    → get_match id w ≡ some m
    → (record_match_event iso id r w).0 ≡ returned answer
    → answer.action ≡ Action.viewed
    → elem m.job_id jobs ≡ true
    → (state_of m.job_id (ui_state_by_job r.user_id jobs (record_match_event iso id r w).1)).viewed
      ≡ true
record_match_event-shown iso id r w m answer jobs found h v among =
    ui_state_by_job-viewed r.user_id m.job_id jobs (record_match_event iso id r w).1 among
    ∙ record_match_event-view iso m r w answer id found h v
