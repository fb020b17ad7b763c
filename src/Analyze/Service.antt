-- ===== src/Analyze/Service.antt =====
-- app/analyze/service.py: analyze-match. `others` is what other sessions commit during the call of the
-- model; the unique constraint on match_id decides which of two inserts stays.
use job_match_pipeline.Prelude.{
  suc, Bool, ◌&&◌, ◌||◌, not, String, [], ◌∷◌, ◌++◌, Option, none, some, is_none, is_empty, any,
  find, if◌then◌else◌, ◌==◌, nat_eq,
}
use job_match_pipeline.Prelude.Text.{truthy, strip}
use job_match_pipeline.Payload.{Uuid, Payload, text, Builtins, lookup, is_truthy, parse_uuid}
use job_match_pipeline.Llm.{
  LlmUsage, Reply, answered, permanent, retryable, Outcome, returned, raised_retryable,
  usage_details, no_usage,
}
use job_match_pipeline.Db.Rows.{Job, UserProfile, Match, MatchAnalysis, Stage, Action}
use job_match_pipeline.Db.Session.{
  World, get_job, get_user, get_profile, get_match, record_pipeline_event,
}

-- `AnalysisLLM.analyze`, from the rows that its prompt is rendered from; it names its model, if it does.
abbrev pub AnalysisLlm : Type 0
AnalysisLlm = Match → Job → UserProfile → Reply String

pub record AnalyzeResult : Type 0 where
  pub action : Action
  pub match_id : Option Uuid
  pub analysis_id : Option Uuid
  pub usage : LlmUsage

abbrev pub bare_result : Action → Option Uuid → AnalyzeResult
bare_result action id = record {
  action = action;
  match_id = id;
  analysis_id = none;
  usage = no_usage;
}

-- `_analysis_for_match`
abbrev pub has_match : Uuid → MatchAnalysis → Bool
has_match id a = a.match_id == id

unfoldable pub analysis_for_match : Uuid → World → Option MatchAnalysis
analysis_for_match id w = find (has_match id) w.analyses

abbrev analysis_id_of : Option MatchAnalysis → Option Uuid
analysis_id_of none = none
analysis_id_of (some a) = some a.id

abbrev match_event : Action → Match → Option Payload → World → World
match_event action m details w =
    record_pipeline_event Stage.analyze_match action (some m.job_id) (some m.user_id) m.rerank_score
      details w

-- `a or b` of two optional texts.
abbrev pub doc_or : Option String → Option String → String
doc_or none none = ""
doc_or none (some s) = s
doc_or (some s) other = if truthy s then s else elim other [ none ↦ "" | some t ↦ t ]

-- `usage.model or settings.analysis_model`
abbrev model_or : String → String → String
model_or name fallback = if truthy name then name else fallback

-- The row, unless the constraint refuses it.
unfoldable pub insert_analysis : Match → String → World → World
insert_analysis m model w = record w {
  analyses =
      w.analyses
      ++ record {
        id = w.next_id;
        user_id = m.user_id;
        job_id = m.job_id;
        match_id = m.id;
        model = model;
      }
        ∷ [];
  next_id = suc w.next_id;
}

-- After the answer: the INSERT inside its savepoint, or the loss of the race.
unfoldable pub save_analysis :
    Builtins → String → Match → String → LlmUsage → World → Outcome AnalyzeResult × World
unfolding record_pipeline_event insert_analysis
save_analysis py default_model m name usage w =
    let raced = analysis_for_match m.id w in
    if any (has_match m.id) w.analyses
    then (
      returned (record {
        action = Action.skipped_analyzed;
        match_id = some m.id;
        analysis_id = analysis_id_of raced;
        usage = usage;
      }),
      match_event Action.skipped_analyzed m (some (usage_details usage [])) w,
    )
    else (
      returned (record {
        action = Action.analyzed;
        match_id = some m.id;
        analysis_id = some w.next_id;
        usage = usage;
      }),
      match_event Action.analyzed m
          (some (
            usage_details usage
              (("analysis_id", text (py.str_of_uuid w.next_id)) ∷ ("model", text name) ∷ [])))
          (insert_analysis m (model_or name default_model) w),
    )

unfoldable pub after_llm :
    Builtins → String → Match → Reply String → World → Outcome AnalyzeResult × World
unfolding record_pipeline_event
after_llm py default_model m (answered name usage) w = save_analysis py default_model m name usage w
after_llm py default_model m permanent w = (
  returned (bare_result Action.llm_permanent_failure (some m.id)),
  match_event Action.llm_permanent_failure m none w,
)
after_llm py default_model m retryable w =
    (raised_retryable, match_event Action.retryable_error m none w)

module _ (py : Builtins) (default_model : String) (llm : AnalysisLlm) (others : World → World) where
  abbrev rows_gone : Match → Option Uuid → World → Outcome AnalyzeResult × World
  rows_gone m job w = (
    returned (bare_result Action.not_found (some m.id)),
    record_pipeline_event Stage.analyze_match Action.not_found job (some m.user_id) none none w,
  )

  unfoldable pub analyze_rows : Match → Job → UserProfile → World → Outcome AnalyzeResult × World
  unfolding record_pipeline_event
  analyze_rows m job p w =
      let job_doc = strip (doc_or job.raw_jd job.synthesized_doc) in
      let profile_doc = strip (doc_or p.synthesized_doc none) in
      let asked = after_llm py default_model m (llm m job p) (others w) in
      if not (truthy job_doc) || (not (truthy profile_doc) && is_empty p.work_history)
      then (
        returned (bare_result Action.missing_docs (some m.id)),
        match_event Action.missing_docs m none w,
      )
      else asked

  unfoldable pub analyze_new : Match → World → Outcome AnalyzeResult × World
  unfolding record_pipeline_event
  analyze_new m w = elim (get_job m.job_id w) [
    | none ↦ rows_gone m none w
    | some job ↦ elim (get_profile m.user_id w) [
      | none ↦ rows_gone m (some m.job_id) w
      | some p ↦
          if is_none (get_user m.user_id w)
          then rows_gone m (some m.job_id) w
          else analyze_rows m job p w
    ]
  ]

  unfoldable pub analyze_found : Match → World → Outcome AnalyzeResult × World
  unfolding record_pipeline_event
  analyze_found m w = elim (analysis_for_match m.id w) [
    | none ↦ analyze_new m w
    | some existing ↦ (
      returned (record (bare_result Action.skipped_analyzed (some m.id)) {
        analysis_id = some existing.id;
      }),
      match_event Action.skipped_analyzed m none w,
    )
  ]

  unfoldable pub analyze_match : Payload → World → Outcome AnalyzeResult × World
  unfolding record_pipeline_event
  analyze_match payload w =
      let raw = lookup "match_id" payload in
      elim (parse_uuid py raw) [
        | none ↦ (
          returned (
              bare_result
                (if is_truthy raw then Action.invalid_match_id else Action.missing_match_id) none),
          w,
        )
        | some id ↦ elim (get_match id w) [
          | none ↦ (
            returned (bare_result Action.not_found (some id)),
            record_pipeline_event Stage.analyze_match Action.not_found none none none none w,
          )
          | some m ↦ analyze_found m w
        ]
      ]
