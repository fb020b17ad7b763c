-- ===== src/Match/Service.antt =====
-- match_batch of app/match/service.py.
use job_match_pipeline.Prelude.{
  ℕ, Bool, true, false, ◌&&◌, String, List, [], ◌∷◌, Option, none, some, keep, elem, length,
  is_none, is_empty, or_else, nat_eq, string_eq, if◌then◌else◌, ◌==◌,
}
use job_match_pipeline.Payload.{Uuid, pos, number, text, Payload, Builtins, lookup}
use job_match_pipeline.Db.Rows.{Time, Stage, Action, Details}
use job_match_pipeline.Db.Session.{World, record_pipeline_event}
use job_match_pipeline.Match.Batch.{MatchSettings, match_candidates}
use job_match_pipeline.Match.Dirty.{clear_rematch}
use job_match_pipeline.Match.Modes.{
  MatchBatchResult, MatchServices, mode_of, is_valid_mode, parse_datetime, positive_int,
  requested_ids, select_user_ids, since_of,
}

abbrev event : Action → Option Uuid → Option Details → World → World
event action user details w =
    record_pipeline_event Stage.match_batch action none user none details w

abbrev bare_result : Action → String → Option Time → MatchBatchResult
bare_result action mode cycle_at = record {
  action = action;
  mode = mode;
  cycle_at = cycle_at;
  users_considered = 0;
  prefilter_pairs = 0;
  extracts_enqueued = 0;
  matches_written = 0;
  screens_enqueued = 0;
  dirty_cleared = 0;
  deferred_unextracted = 0;
}

-- The rows that the UPDATE of a dirty cycle changes.
abbrev pub cleared_count : List Uuid → World → ℕ
cleared_count ids w = length (keep (λ p. elem p.user_id ids && p.rematch_needed) w.profiles)

unfoldable pub clear_events : List Uuid → World → World
unfolding record_pipeline_event
clear_events [] w = w
clear_events (id ∷ ids) w = clear_events ids (event Action.cleared_rematch (some id) none w)

-- The end of a cycle in mode dirty, and in the other mode.
unfoldable pub finish_dirty : Bool → List Uuid → World → ℕ × World
unfolding clear_rematch clear_events
finish_dirty false ids w = (0, w)
finish_dirty true ids w = (cleared_count ids w, clear_events ids (clear_rematch ids w))

abbrev details_of : MatchBatchResult → Details
details_of r =
    ("mode", text r.mode)
    ∷ ("users_considered", number (pos r.users_considered))
    ∷ ("prefilter_pairs", number (pos r.prefilter_pairs))
    ∷ ("extracts_enqueued", number (pos r.extracts_enqueued))
    ∷ ("matches_written", number (pos r.matches_written))
    ∷ ("screens_enqueued", number (pos r.screens_enqueued))
    ∷ ("dirty_cleared", number (pos r.dirty_cleared))
    ∷ ("deferred_unextracted", number (pos r.deferred_unextracted))
    ∷ []

module _ (py : Builtins) (m : MatchServices) where
  -- A cycle for the selected users, who are not none.
  unfoldable pub run_cycle :
      String → Time → Option Time → ℕ → List Uuid → World → MatchBatchResult × World
  unfolding match_candidates finish_dirty record_pipeline_event
  run_cycle mode cycle_at since top_n ids w =
      let candidates = m.candidate_query ids since w in
      let s : MatchSettings = record m.settings { match_top_n = top_n } in
      let (extracts, k) = match_candidates py s cycle_at m.reranker candidates w in
      let (cleared, w1) = finish_dirty (mode == "dirty") ids k.world in
      let r : MatchBatchResult = record {
        action = Action.completed;
        mode = mode;
        cycle_at = some cycle_at;
        users_considered = length ids;
        prefilter_pairs = length candidates;
        extracts_enqueued = extracts;
        matches_written = k.matches_written;
        screens_enqueued = k.screens_enqueued;
        dirty_cleared = cleared;
        deferred_unextracted = length (keep (λ c. is_none c.extracted_at) candidates);
      } in
      (r, event Action.completed none (some (details_of r)) w1)

  -- The users of a request in this mode.
  unfoldable pub selected_users : Payload → World → List Uuid
  unfolding select_user_ids requested_ids positive_int mode_of
  selected_users payload w =
      select_user_ids (mode_of py m payload == "dirty")
        (positive_int py (lookup "dirty_profile_cap" payload) m.dirty_profile_cap)
        (requested_ids py (lookup "user_ids" payload)) w

  unfoldable pub run_mode : String → Payload → World → MatchBatchResult × World
  unfolding run_cycle selected_users since_of parse_datetime record_pipeline_event
  run_mode mode payload w =
      let cycle_at = or_else (parse_datetime py m (lookup "cycle_at" payload)) w.clock in
      let since = since_of (mode == "dirty") (parse_datetime py m (lookup "since" payload)) w in
      let top_n = positive_int py (lookup "top_n" payload) m.settings.match_top_n in
      let ids = selected_users payload w in
      let started = event Action.started none none w in
      if is_empty ids
      then (
        bare_result Action.completed mode (some cycle_at),
        event Action.completed none none started,
      )
      else run_cycle mode cycle_at since top_n ids started

  unfoldable pub match_batch : Payload → World → MatchBatchResult × World
  unfolding run_mode mode_of record_pipeline_event
  match_batch payload w =
      let mode = mode_of py m payload in
      let run = run_mode mode payload w in
      if is_valid_mode mode
      then run
      else (bare_result Action.invalid_mode mode none, event Action.invalid_mode none none w)
