-- ===== src/Handlers/Server.antt =====
-- app/handlers.py and the BufferedTaskQueue of app/queue.py: what a handler commits and sends.
use job_match_pipeline.Prelude.{ℕ, List, [], ◌++◌, none}
use job_match_pipeline.Llm.{Outcome, returned, raised_retryable, raised}
use job_match_pipeline.Db.Rows.{Stage, Action}
use job_match_pipeline.Db.Session.{World, Task, record_pipeline_event}

-- The committed database, and the messages that the real queue was given.
pub record Server : Type 0 where
  pub db : World
  pub sent : List Task

-- A 200 with the fields of a result, or HTTPException.
pub data Answer {ℓ} (A : Type ℓ) : Type ℓ where
  ok : A → Answer A
  http_exception : ℕ → Answer A

-- A new session, with `BufferedTaskQueue(queue)`.
abbrev pub new_session : World → World
new_session w = record w { pending = [] }

-- The commit, the exceptions that are caught, and `buffer.flush()`.
unfoldable pub settle {ℓ} : {A : Type ℓ} → Outcome A × World → Server → Answer A × Server
settle (returned r, w) s = (ok r, record { db = new_session w; sent = s.sent ++ w.pending })
settle (raised_retryable, w) s = (http_exception 503, record { db = new_session w; sent = s.sent })
settle (raised, w) s = (http_exception 500, s)

-- `_record_permanent_failure`
unfoldable pub record_permanent_failure : Stage → Action → Server → Server
unfolding record_pipeline_event
record_permanent_failure stage action s = record s {
  db = record_pipeline_event stage action none none none none s.db;
}
