-- ===== src/Pipeline/Deliveries.antt =====
-- app/handlers.py and app/api/router.py: deliveries in any order, repeated or not.
use job_match_pipeline.Prelude.{String, List, [], ◌∷◌}
use job_match_pipeline.Payload.{Uuid, Payload, Builtins}
use job_match_pipeline.Db.Rows.{Time}
use job_match_pipeline.Db.Session.{World}
use job_match_pipeline.Ingest.Posting.{IngestLibrary}
use job_match_pipeline.Extract.Model.{ExtractServices}
use job_match_pipeline.Match.Modes.{MatchServices}
use job_match_pipeline.Screen.Service.{GateLlm, ScreenSettings}
use job_match_pipeline.Analyze.Batch.{BatchSettings}
use job_match_pipeline.Analyze.Service.{AnalysisLlm}
use job_match_pipeline.Generate.Service.{GenerateLlm}
use job_match_pipeline.Verify.Patterns.{Patterns, Linker}
use job_match_pipeline.Verify.State.{VerifyLlm}
use job_match_pipeline.Handlers.Server.{Server}
use job_match_pipeline.Handlers.Postings.{
  fetch_link_list_handler, ingest_job_handler, extract_job_handler,
}
use job_match_pipeline.Handlers.Matches.{
  match_batch_handler, screen_job_handler, analyze_batch_handler, analyze_match_handler,
}
use job_match_pipeline.Handlers.Requests.{api_trigger_generate}
use job_match_pipeline.Handlers.Resumes.{generate_resume_handler, verify_resume_handler}

-- What `create_handlers_router` is given, and what is outside of the repository.
pub record Deployment : Type 0 where
  pub py : Builtins
  pub ingest : IngestLibrary
  pub extract : ExtractServices
  pub match : MatchServices
  pub gate : GateLlm
  pub during_screen : World → World
  pub screen_settings : ScreenSettings
  pub batch_settings : BatchSettings
  pub default_model : String
  pub analysis : AnalysisLlm
  pub during_analysis : World → World
  pub generate : GenerateLlm
  pub patterns : Patterns
  pub linker : Linker
  pub verify : VerifyLlm

-- A POST: to a handler with its body, or of a user for a match. `day_start` is the day of the delivery.
pub data Delivery : Type 0 where
  to_fetch_link_list to_ingest_job to_extract_job to_match_batch to_screen_job : Payload → Delivery
  to_analyze_batch : Time → Payload → Delivery
  to_analyze_match to_generate_resume to_verify_resume : Payload → Delivery
  of_user : Uuid → Delivery

unfoldable pub deliver : Deployment → Delivery → Server → Server
deliver d (to_fetch_link_list p) s = (fetch_link_list_handler d.py d.ingest p s).1
deliver d (to_ingest_job p) s = (ingest_job_handler d.py d.ingest p s).1
deliver d (to_extract_job p) s = (extract_job_handler d.py d.extract p s).1
deliver d (to_match_batch p) s = (match_batch_handler d.py d.match p s).1
deliver d (to_screen_job p) s =
    (screen_job_handler d.py d.gate d.during_screen d.screen_settings p s).1
deliver d (to_analyze_batch day_start p) s =
    (analyze_batch_handler d.py d.batch_settings day_start p s).1
deliver d (to_analyze_match p) s =
    (analyze_match_handler d.py d.default_model d.analysis d.during_analysis p s).1
deliver d (to_generate_resume p) s = (generate_resume_handler d.py d.generate p s).1
deliver d (to_verify_resume p) s = (verify_resume_handler d.py d.patterns d.linker d.verify p s).1
deliver d (of_user match_id) s = (api_trigger_generate d.py match_id s).1

unfoldable pub deliver_all : Deployment → List Delivery → Server → Server
deliver_all d [] s = s
deliver_all d (m ∷ ms) s = deliver_all d ms (deliver d m s)
