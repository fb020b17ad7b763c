-- ===== src/Lib.antt =====
-- A model of the job-match pipeline's services, and what they keep.
--
-- The pipeline is a set of handlers that a task queue calls with small JSON bodies. Each reads its
-- rows from Postgres, may call a language model, writes its rows and one or more events, and enqueues
-- the next handlers: fetch-link-list lists a company's board, ingest-job stores a posting, extract-job
-- makes its requirements, skills and document, match-batch finds pairs of a user and a job, screen-job
-- labels a match, analyze-batch and analyze-match write reports within a daily budget, generate-resume writes a
-- resume for a match, and verify-resume checks it and may send it back once. Deliveries may repeat
-- and may overlap.
--
-- Files and code:
--   Prelude           tests, equality, lists, sets; Prelude/Text: Python's `strip`, slices, truth
--   Payload           message bodies; `_parse_uuid` and `_attempt` of the services
--   Llm               app/llm/usage.py and classify_llm_status of app/llm/errors.py; the `details` of
--                     events (usage_details of app/ingest/events.py)
--   Db                app/db/models.py (Rows), the session and BufferedTaskQueue.enqueue of
--                     app/queue.py (Session), laws of tables (Laws)
--   Quota             app/quota.py
--   Screen            app/screen: labels.py (Labels), gate.py (Gate), service.py (Service); on the
--                     overlap (Overlap), labels (Once, Redelivery), the rest of the database (Frame)
--   Verify            app/verify: deterministic.py (Deterministic, Patterns), graph.py (State, Graph),
--                     service.py (Service); on stage 1 (Grounded), the decision (Verdicts), the
--                     writes (Effects), redelivery (Once), what supports a name (Supported)
--                     or a date (Dates)
--   Generate          app/generate: schema.py (Schema), service.py (Service, Attempts)
--   Analyze           app/analyze: batch.py (Ranking, Batch, Order, Budget), service.py (Service, Unique)
--   Match             app/match: skills.py (Skills, Buckets), rerank.py (Rerank), the loop of
--                     match_batch in service.py (Batch, Recorded, Cycle, Cap), the
--                     users of a dirty cycle (Dirty), the payload and the modes (Modes,
--                     Service), and whose flags it clears (Untouched, Flags)
--   Ingest            app/ats: normalize.py (Html), base.py and registry.py (Posting); app/ingest:
--                     url_hash.py (Url), store.py (Posting, Store), fetch.py (Links); on the rows of
--                     jobs (Unique) and the messages of a board (New)
--   Extract           app/extract: synthesize.py (Synthesize, Bounds, Trimmed), llm.py, embed.py and
--                     service.py (Model, Service); on the table of jobs (Preserve, Once, Short) and redelivery
--   Skills            app/skills: normalize.py and enrich.py (Labels), enrich.py and the exact index of
--                     linker.py (Aliases), which derived aliases there are (Contested); linker.py:
--                     link_span_report (Report, Memo), InMemorySkillLinker (Linker), on its links
--                     (Linked, Owners) and hits (Words, Scanned)
--   Profile           app/profile: schema.py (Schema), parse.py (Fields, Spans, Offline), filters.py
--                     (Filters), synthesize.py (Document), service.py (Service, Edit); on the parse
--                     (Stable, Quoted, Sourced), the document (Tail, Trimmed, Limits) and the rows
--                     (Versions, Ingested, Edited, Selected)
--   Api               app/api/service.py: trigger_generate (Trigger, Conserved), record_match_event
--                     (Events), _ui_state_by_job (UiState, Shown)
--   Handlers          app/handlers.py: commit, rollback, the HTTP status and the flush of the buffered
--                     messages (Server), the handlers (Postings, Matches, Resumes), the route of a
--                     request in app/api/router.py (Requests); on the resumes (Sent, Retries), and
--                     the messages that follow a message (Chain, Steps, Drain)
--   Pipeline          the handlers and the request together as deliveries to one server (Deliveries);
--                     the services that leave the jobs alone (Untouched), a property of the jobs
--                     under deliveries (Keeps), the life of a job (Lifecycle), soundness (Invariants)
--   Tests             runs on a small database
--
-- How the code is rendered. A handler is a function from its payload and a World, which holds the
-- tables, the events and the messages that wait for the commit, to an Outcome and a World. Tables are
-- lists in insertion order, an UPDATE with a WHERE is `update` with a test, gen_random_uuid() is a
-- counter and now() the clock. Ids are numbers in the order of the UUIDs. What other sessions commit
-- while a model is called is a function `others` on the World for extract-job, screen-job, analyze-match
-- and generate-resume's service (the handler of generate-resume and what is built on it take it without
-- such commits). A
-- model's call is a function from the data that its prompt is made of to an answer with a bill, a
-- permanent error or a retryable one. Scores stand for doubles by their place in the order; costs are
-- whole numbers of 10^-8 USD, the precision that events keep. Regular expressions, Unicode
-- normalization, the HTML and URL libraries, the boards' APIs, the products of vectors, the skill
-- linker of a handler, the calendar, the reranker and the
-- weighting of a score are parameters. The text conversions of Python's standard library are a record with two laws: a UUID is read back from its
-- text, and the empty text is no UUID.
--
-- The verification graph is walked on fuel: four, since each of its four nodes goes forward. Deliveries
-- of messages one after another (Handlers/Drain) are on fuel as well: five; and so are the loops that
-- shorten a document's lists (Extract/Synthesize), with the length of the list, which each turn takes
-- one item off, and the two loops that trim a profile's document (Profile/Document), with the number of
-- its roles and bullets, of which each turn takes one off. All other recursion is on lists. Where the code orders rows that rank the same, the model keeps the
-- table's order, which Postgres does not promise.
--
-- A Server is the committed database and the messages that were given to the queue: a handler runs its
-- service on the database with an empty buffer, then commits and flushes, commits alone, or rolls back.
--
-- Not modelled: what other sessions commit during the models' calls of verify-resume, whose final write
-- has no guard, and during generate-resume in its handler; logs, latencies, prompts and clients of models; a database that fails, and redelivery by the queue; the reads of app/api that only
-- project rows, its routers, and the HTTP adapters of app/ats; the candidate query of
-- app/match/sql.py; the reading of resume files; the queries of pg_linker.py, the skill graph and its importers;
-- evaluations; migrations and the user interface.
mod Prelude
pub mod Payload
pub mod Llm
pub mod Generate
pub mod Db
pub mod Quota
pub mod Screen
pub mod Verify
pub mod Analyze
pub mod Match
pub mod Ingest
pub mod Extract
pub mod Skills
pub mod Profile
pub mod Api
pub mod Handlers
pub mod Pipeline
mod Tests
