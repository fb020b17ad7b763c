-- ===== src/Handlers/Matches.antt =====
-- app/handlers.py: match-batch, screen-job, analyze-batch and analyze-match.
use job_match_pipeline.Prelude.{Bool, ◌||◌, String, none, is_none, if◌then◌else◌}
use job_match_pipeline.Payload.{Payload, Builtins, lookup, is_blank, parse_uuid}
use job_match_pipeline.Llm.{returned}
use job_match_pipeline.Db.Rows.{Time, Stage, Action}
use job_match_pipeline.Db.Session.{World}
use job_match_pipeline.Match.Modes.{MatchServices, MatchBatchResult}
use job_match_pipeline.Match.Service.{match_batch}
use job_match_pipeline.Screen.Service.{GateLlm, ScreenSettings, ScreenResult, screen_job}
use job_match_pipeline.Screen.Service
use job_match_pipeline.Analyze.Batch.{BatchSettings, AnalyzeBatchResult, analyze_batch}
use job_match_pipeline.Analyze.Service.{AnalysisLlm, AnalyzeResult, analyze_match}
use job_match_pipeline.Analyze.Service as Analysis
use job_match_pipeline.Handlers.Server.{
  Server, Answer, ok, new_session, settle, record_permanent_failure,
}

-- The action of a payload whose match is missing or is no id.
abbrev bad_match_id : Payload → Action
bad_match_id payload =
    if is_blank (lookup "match_id" payload)
    then Action.missing_match_id
    else Action.invalid_match_id

abbrev pub has_bad_match_id : Builtins → Payload → Bool
has_bad_match_id py payload =
    is_blank (lookup "match_id" payload) || is_none (parse_uuid py (lookup "match_id" payload))

unfoldable pub screen_job_handler :
    Builtins
    → GateLlm
    → (World → World)
    → ScreenSettings
    → Payload
    → Server
    → Answer ScreenResult × Server
unfolding settle
screen_job_handler py llm others settings payload s =
    let action = bad_match_id payload in
    if has_bad_match_id py payload
    then (ok (Service.bare_result action none), record_permanent_failure Stage.screen_job action s)
    else settle (screen_job llm others settings py payload (new_session s.db)) s

-- The reranker and the query are taken to answer, so that the service returns.
unfoldable pub match_batch_handler :
    Builtins → MatchServices → Payload → Server → Answer MatchBatchResult × Server
unfolding settle
match_batch_handler py m payload s =
    let (r, w) = match_batch py m payload (new_session s.db) in settle (returned r, w) s

unfoldable pub analyze_batch_handler :
    Builtins → BatchSettings → Time → Payload → Server → Answer AnalyzeBatchResult × Server
unfolding settle
analyze_batch_handler py settings day_start payload s =
    let (r, w) = analyze_batch py settings day_start payload (new_session s.db) in
    settle (returned r, w) s

unfoldable pub analyze_match_handler :
    Builtins
    → String
    → AnalysisLlm
    → (World → World)
    → Payload
    → Server
    → Answer AnalyzeResult × Server
unfolding settle
analyze_match_handler py default_model llm others payload s =
    let action = bad_match_id payload in
    if has_bad_match_id py payload
    then (
      ok (Analysis.bare_result action none),
      record_permanent_failure Stage.analyze_match action s,
    )
    else settle (analyze_match py default_model llm others payload (new_session s.db)) s
