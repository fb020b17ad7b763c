-- ===== src/Screen/Service.antt =====
-- app/screen/service.py: screen-job. Between the read of the match and the UPDATE stands the call of
-- the model, during which other sessions may commit: `others` is what they do.
use job_match_pipeline.Prelude.{
  ℕ, Bool, ◌&&◌, ◌||◌, not, String, List, [], ◌∷◌, Option, none, some, is_none, is_some, any,
  if◌then◌else◌, ◌==◌, nat_eq,
}
use job_match_pipeline.Prelude.Text.{truthy, strip, clip}
use job_match_pipeline.Payload.{
  Uuid, Payload, Builtins, lookup, is_truthy, parse_uuid, number, pos, text,
}
use job_match_pipeline.Llm.{
  LlmUsage, Reply, answered, permanent, retryable, Outcome, returned, raised_retryable, raised,
  usage_details, no_usage,
}
use job_match_pipeline.Db.Rows.{Score, Job, UserProfile, Match, QualificationLabel, Stage, Action}
use job_match_pipeline.Db.Session.{
  World, get_job, get_user, get_profile, get_match, record_pipeline_event, update,
}
use job_match_pipeline.Screen.Labels.{label_text}
use job_match_pipeline.Screen.Gate.{
  hard_requirement_overlap, missing_count, is_rank_label_disagreement,
}

pub record GateDecision : Type 0 where
  pub label : QualificationLabel
  pub reason : String

-- `GateLLM.screen`, from the job's document and the profile's.
abbrev pub GateLlm : Type 0
GateLlm = String → String → Reply GateDecision

pub record ScreenSettings : Type 0 where
  pub rerank_high_score_threshold : Score
  pub rerank_low_score_threshold : Score

pub record ScreenResult : Type 0 where
  pub action : Action
  pub match_id : Option Uuid
  pub qualification_label : Option QualificationLabel
  pub hard_req_missing_count : ℕ
  pub usage : LlmUsage

abbrev pub bare_result : Action → Option Uuid → ScreenResult
bare_result action id = record {
  action = action;
  match_id = id;
  qualification_label = none;
  hard_req_missing_count = 0;
  usage = no_usage;
}

-- `clipped or None`
abbrev pub text_or_none : String → Option String
text_or_none s = if truthy s then some s else none

-- The WHERE clause of `_write_label`.
abbrev pub is_unscreened : Uuid → Match → Bool
is_unscreened id m = m.id == id && is_none m.qualification_label

-- The row that the UPDATE writes.
abbrev pub set_label : QualificationLabel → String → Match → Match
set_label label reason m = record m {
  qualification_label = some label;
  screen_reason = text_or_none (clip 2000 (strip reason));
}

-- `_write_label`: whether the UPDATE reached a row, and the table after it.
unfoldable pub write_label : Uuid → QualificationLabel → String → World → Bool × World
write_label id label reason w = (
  any (is_unscreened id) w.matches,
  record w { matches = update (is_unscreened id) (set_label label reason) w.matches },
)

-- An event of this handler about a match.
abbrev pub match_event : Action → Match → Option Payload → World → World
match_event action m details w =
    record_pipeline_event Stage.screen_job action (some m.job_id) (some m.user_id) m.rerank_score
      details w

-- The event of a disagreement, where there is one.
unfoldable pub note_disagreement : ScreenSettings → Match → QualificationLabel → World → World
unfolding is_rank_label_disagreement record_pipeline_event
note_disagreement s m label w =
    if is_rank_label_disagreement m.rerank_score label s.rerank_high_score_threshold
      s.rerank_low_score_threshold
    then match_event Action.rank_label_disagreement m
        (some (("qualification_label", text (label_text label)) ∷ [])) w
    else w

-- `session.refresh(match)` and the result of a label that another delivery wrote; `refresh` raises
-- where the row is gone.
unfoldable pub skip_raced :
    Match → ℕ → LlmUsage → Option Match → World → Outcome ScreenResult × World
skip_raced m missing usage none w = (raised, w)
skip_raced m missing usage (some fresh) w = (
  returned (record {
    action = Action.skipped_screened;
    match_id = some m.id;
    qualification_label = fresh.qualification_label;
    hard_req_missing_count = missing;
    usage = usage;
  }),
  w,
)

-- After the answer of the model.
unfoldable pub save_decision :
    ScreenSettings → Match → ℕ → GateDecision → LlmUsage → World → Outcome ScreenResult × World
unfolding write_label note_disagreement skip_raced record_pipeline_event
save_decision s m missing d usage w =
    let (written, w1) = write_label m.id d.label d.reason w in
    let skipped = match_event Action.skipped_screened m none w1 in
    let screened =
      match_event Action.screened m
        (some (
          usage_details usage (
            ("hard_req_missing_count", number (pos missing))
            ∷ ("qualification_label", text (label_text d.label))
            ∷ [])))
        w1 in
    if written
    then (
      returned (record {
        action = Action.screened;
        match_id = some m.id;
        qualification_label = some d.label;
        hard_req_missing_count = missing;
        usage = usage;
      }),
      note_disagreement s m d.label screened,
    )
    else skip_raced m missing usage (get_match m.id skipped) skipped

-- The call of the model and its errors.
unfoldable pub after_llm :
    ScreenSettings → Match → ℕ → Reply GateDecision → World → Outcome ScreenResult × World
unfolding record_pipeline_event
after_llm s m missing (answered d usage) w = save_decision s m missing d usage w
after_llm s m missing permanent w = (
  returned (record (bare_result Action.llm_permanent_failure (some m.id)) {
    hard_req_missing_count = missing;
  }),
  match_event Action.llm_permanent_failure m none w,
)
after_llm s m missing retryable w = (raised_retryable, match_event Action.retryable_error m none w)

-- `(doc or "").strip()`
abbrev pub stripped : Option String → String
stripped none = ""
stripped (some s) = strip s

abbrev pub profile_skills : Option UserProfile → List String
profile_skills none = []
profile_skills (some p) = p.skill_ids

abbrev pub profile_doc : Option UserProfile → String
profile_doc none = ""
profile_doc (some p) = stripped p.synthesized_doc

module _ (llm : GateLlm) (others : World → World) (s : ScreenSettings) where
  -- From the match, its job and its profile to the model.
  unfoldable pub screen_rows :
      Match → Job → Option UserProfile → World → Outcome ScreenResult × World
  unfolding record_pipeline_event
  screen_rows m job profile w =
      let missing =
        missing_count (hard_requirement_overlap job.skill_ids (profile_skills profile)) in
      let job_doc = stripped job.synthesized_doc in
      let doc = profile_doc profile in
      let asked = after_llm s m missing (llm job_doc doc) (others w) in
      if not (truthy job_doc) || not (truthy doc)
      then (
        returned (record (bare_result Action.missing_docs (some m.id)) {
          hard_req_missing_count = missing;
        }),
        match_event Action.missing_docs m
            (some (("hard_req_missing_count", number (pos missing)) ∷ [])) w,
      )
      else asked

  -- A match whose label is NULL. A missing job is not named in the event.
  unfoldable pub screen_unscreened : Match → World → Outcome ScreenResult × World
  unfolding record_pipeline_event
  screen_unscreened m w = elim (get_job m.job_id w) [
    | none ↦ (
      returned (bare_result Action.not_found (some m.id)),
      record_pipeline_event Stage.screen_job Action.not_found none (some m.user_id) none none w,
    )
    | some job ↦
        if is_none (get_user m.user_id w)
        then (
          returned (bare_result Action.not_found (some m.id)),
          record_pipeline_event Stage.screen_job Action.not_found (some m.job_id) (some m.user_id)
              none none w,
        )
        else screen_rows m job (get_profile m.user_id w) w
  ]

  unfoldable pub screen_match : Match → World → Outcome ScreenResult × World
  unfolding screen_unscreened record_pipeline_event
  screen_match m w =
      if is_some m.qualification_label
      then (
        returned (record (bare_result Action.skipped_screened (some m.id)) {
          qualification_label = m.qualification_label;
        }),
        match_event Action.skipped_screened m none w,
      )
      else screen_unscreened m w

  unfoldable pub screen_job : Builtins → Payload → World → Outcome ScreenResult × World
  unfolding screen_match
  screen_job py payload w =
      let raw = lookup "match_id" payload in
      elim (parse_uuid py raw) [
        | none ↦ (
          returned (
              bare_result
                (if is_truthy raw then Action.invalid_match_id else Action.missing_match_id) none),
          w,
        )
        | some id ↦ elim (get_match id w) [
          | none ↦ (
            returned (bare_result Action.not_found (some id)),
            record_pipeline_event Stage.screen_job Action.not_found none none none none w,
          )
          | some m ↦ screen_match m w
        ]
      ]
