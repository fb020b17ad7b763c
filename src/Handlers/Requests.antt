-- ===== src/Handlers/Requests.antt =====
-- app/api/router.py: the request of a resume. The route's queue is no buffer: the message is sent
-- before the session commits, which the model lets succeed.
use job_match_pipeline.Prelude.{◌++◌}
use job_match_pipeline.Payload.{Uuid, Builtins}
use job_match_pipeline.Llm.{Outcome, returned, raised_retryable, raised}
use job_match_pipeline.Db.Session.{World}
use job_match_pipeline.Api.Trigger.{TriggerResult, trigger_generate}
use job_match_pipeline.Handlers.Server.{Server, Answer, ok, http_exception, new_session}

-- `_client_error` of the only message that trigger_generate raises, `match not found`.
unfoldable pub settle_request :
    Outcome TriggerResult × World → Server → Answer TriggerResult × Server
settle_request (returned r, w) s = (ok r, record { db = new_session w; sent = s.sent ++ w.pending })
settle_request (raised_retryable, w) s = (http_exception 404, s)
settle_request (raised, w) s = (http_exception 404, s)

unfoldable pub api_trigger_generate : Builtins → Uuid → Server → Answer TriggerResult × Server
unfolding settle_request
api_trigger_generate py match_id s =
    settle_request (trigger_generate py match_id (new_session s.db)) s
