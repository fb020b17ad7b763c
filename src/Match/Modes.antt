-- ===== src/Match/Modes.antt =====
-- match_batch of app/match/service.py: its payload, its modes, and the parts of a cycle in order. The
-- rows of the candidate query and `datetime.fromisoformat` are arguments.
use job_match_pipeline.Prelude.{
  ℕ, max, Bool, true, false, ◌&&◌, String, List, [], ◌∷◌, Option, none, some, map, keep, any, elem,
  ltb, nat_eq, string_eq, if◌then◌else◌, ◌==◌,
}
use job_match_pipeline.Prelude.Text.{strip}
use job_match_pipeline.Payload.{
  Uuid, ℤ, pos, negsuc, Value, null, flag, number, text, texts, Payload, Builtins, lookup,
  is_truthy, is_blank, parse_uuid,
}
use job_match_pipeline.Db.Rows.{Time, Stage, Action, PipelineEvent}
use job_match_pipeline.Db.Session.{World}
use job_match_pipeline.Match.Rerank.{Reranker}
use job_match_pipeline.Match.Batch.{Candidate, MatchSettings}
use job_match_pipeline.Match.Dirty.{sort_ids, select_dirty}

pub record MatchBatchResult : Type 0 where
  pub action : Action
  pub mode : String
  pub cycle_at : Option Time
  pub users_considered : ℕ
  pub prefilter_pairs : ℕ
  pub extracts_enqueued : ℕ
  pub matches_written : ℕ
  pub screens_enqueued : ℕ
  pub dirty_cleared : ℕ
  pub deferred_unextracted : ℕ

-- The arguments of `match_batch` and its settings. `time_of` is `_parse_datetime` of a text.
pub record MatchServices : Type 0 where
  pub settings : MatchSettings
  pub dirty_profile_cap : ℕ
  pub reranker : Reranker
  pub candidate_query : List Uuid → Option Time → World → List Candidate
  pub time_of : String → Option Time
  pub lower : String → String

-- `str(value)`
abbrev text_of : Builtins → Value → String
text_of py (text s) = s
text_of py v = py.str_of_value v

-- `str(payload.get("mode") or "incremental").strip().lower()`
unfoldable pub mode_of : Builtins → MatchServices → Payload → String
unfolding lookup strip
mode_of py m payload =
    let given = text_of py (lookup "mode" payload) in
    m.lower (strip (if is_truthy (lookup "mode" payload) then given else "incremental"))

-- VALID_MODES
abbrev pub is_valid_mode : String → Bool
is_valid_mode mode = elem mode ("incremental" ∷ "dirty" ∷ [])

-- `_parse_datetime`
unfoldable pub parse_datetime : Builtins → MatchServices → Value → Option Time
parse_datetime py m v = if is_blank v then none else m.time_of (text_of py v)

-- `int(value)`: none is TypeError or ValueError.
abbrev int_of : Builtins → Value → Option ℤ
int_of py null = none
int_of py (flag true) = some (pos 1)
int_of py (flag false) = some (pos 0)
int_of py (number n) = some n
int_of py (text s) = py.int_of_text s
int_of py (texts l) = none

abbrev positive_or : ℕ → Option ℤ → ℕ
positive_or default none = default
positive_or default (some (pos n)) = if ltb 0 n then n else default
positive_or default (some (negsuc n)) = default

-- `_positive_int`
unfoldable pub positive_int : Builtins → Value → ℕ → ℕ
positive_int py v default = if is_blank v then default else positive_or default (int_of py v)

-- `_parse_user_ids`: values that are no id are left out.
abbrev with_id : Option Uuid → List Uuid → List Uuid
with_id none ids = ids
with_id (some id) ids = id ∷ ids

unfoldable pub ids_of_texts : Builtins → List String → List Uuid
unfolding parse_uuid
ids_of_texts py [] = []
ids_of_texts py (s ∷ rest) = with_id (parse_uuid py (text s)) (ids_of_texts py rest)

abbrev ids_of_value : Builtins → Value → List Uuid
ids_of_value py (texts l) = ids_of_texts py l
ids_of_value py v = with_id (parse_uuid py v) []

unfoldable pub requested_ids : Builtins → Value → Option (List Uuid)
unfolding ids_of_texts parse_uuid
requested_ids py v = if is_blank v then none else some (ids_of_value py v)

-- `_last_cycle_at`
abbrev is_completed : PipelineEvent → Bool
is_completed e = is_match_batch e.stage && is_completion e.action
  where
    is_match_batch : Stage → Bool
    is_match_batch Stage.match_batch = true
    is_match_batch _ = false

    is_completion : Action → Bool
    is_completion Action.completed = true
    is_completion _ = false

abbrev later_of : Time → Option Time → Option Time
later_of t none = some t
later_of t (some u) = some (max t u)

unfoldable pub latest_time : List PipelineEvent → Option Time
latest_time [] = none
latest_time (e ∷ es) =
    let rest = latest_time es in if is_completed e then later_of e.ts rest else rest

unfoldable pub last_cycle_at : World → Option Time
unfolding latest_time
last_cycle_at w = latest_time w.events

-- `_select_user_ids` in mode incremental: the profiles with a row of filters.
abbrev is_wanted : Option (List Uuid) → Uuid → Bool
is_wanted none user = true
is_wanted (some ids) user = elem user ids

unfoldable pub select_incremental : Option (List Uuid) → World → List Uuid
unfolding sort_ids
select_incremental requested w = sort_ids (
    map (λ p. p.user_id)
      (keep (λ p. any (λ f. f.user_id == p.user_id) w.filters && is_wanted requested p.user_id)
        w.profiles))

unfoldable pub select_user_ids : Bool → ℕ → Option (List Uuid) → World → List Uuid
unfolding select_dirty select_incremental
select_user_ids is_dirty_mode cap requested w =
    if is_dirty_mode then select_dirty cap requested w else select_incremental requested w

-- `mode == "incremental" and since is None`, and no `since` in mode dirty
unfoldable pub since_of : Bool → Option Time → World → Option Time
unfolding last_cycle_at
since_of true given w = none
since_of false none w = last_cycle_at w
since_of false (some t) w = some t
