-- ===== src/Handlers/Postings.antt =====
-- app/handlers.py: fetch-link-list, ingest-job and extract-job.
use job_match_pipeline.Prelude.{Bool, ◌||◌, String, Option, none, some, is_none, if◌then◌else◌}
use job_match_pipeline.Payload.{Uuid, Value, text, Payload, Builtins, lookup, is_blank, parse_uuid}
use job_match_pipeline.Llm.{returned, no_usage}
use job_match_pipeline.Db.Rows.{Stage, Action}
use job_match_pipeline.Db.Session.{World}
use job_match_pipeline.Ingest.Posting.{IngestLibrary}
use job_match_pipeline.Ingest.Store.{IngestResult, ingest_posting}
use job_match_pipeline.Ingest.Links.{
  FetchLinkListResult, Fetched, fetched, value_error, other_failure, FetchRequest, fetch_link_list,
}
use job_match_pipeline.Extract.Model.{ExtractServices, ExtractResult}
use job_match_pipeline.Extract.Service.{extract_job}
use job_match_pipeline.Handlers.Server.{
  Server, Answer, ok, http_exception, new_session, settle, record_permanent_failure,
}

-- `body.get(key)` where the caller expects a text or nothing.
abbrev text_or_none : Value → Option String
text_or_none (text s) = some s
text_or_none _ = none

abbrev pub request_of : Option Uuid → Payload → FetchRequest
request_of company_id payload = record {
  company_id = company_id;
  ats_provider = text_or_none (lookup "ats_provider" payload);
  board_token = text_or_none (lookup "board_token" payload);
  company_name = text_or_none (lookup "company_name" payload);
  is_enqueuing = Bool.true;
}

-- The answer is without counts where the board is not named.
unfoldable pub settle_fetch :
    Fetched × World → Server → Answer (Option FetchLinkListResult) × Server
settle_fetch (fetched r, w) s = settle (returned (some r), w) s
settle_fetch (value_error, w) s =
    (ok none, record_permanent_failure Stage.fetch_link_list Action.permanent_failure s)
settle_fetch (other_failure, w) s = (http_exception 500, s)

-- An id that is none raises ValueError outside of the handler's `try`.
unfoldable pub fetch_link_list_handler :
    Builtins → IngestLibrary → Payload → Server → Answer (Option FetchLinkListResult) × Server
unfolding settle_fetch
fetch_link_list_handler py lib payload s =
    let raw = lookup "company_id" payload in
    let company_id = parse_uuid py raw in
    let asked =
      settle_fetch (fetch_link_list py lib (request_of company_id payload) (new_session s.db)) s in
    if is_blank raw then asked else if is_none company_id then (http_exception 500, s) else asked

unfoldable pub ingest_job_handler :
    Builtins → IngestLibrary → Payload → Server → Answer IngestResult × Server
unfolding settle
ingest_job_handler py lib payload s = settle (ingest_posting py lib payload (new_session s.db)) s

unfoldable pub extract_job_handler :
    Builtins → ExtractServices → Payload → Server → Answer ExtractResult × Server
unfolding settle
extract_job_handler py sv payload s =
    let raw = lookup "job_id" payload in
    let action = if is_blank raw then Action.missing_job_id else Action.invalid_job_id in
    if is_blank raw || is_none (parse_uuid py raw)
    then (
      ok (record { action = action; job_id = none; usage = no_usage }),
      record_permanent_failure Stage.extract_job action s,
    )
    else settle (extract_job py sv payload (new_session s.db)) s
