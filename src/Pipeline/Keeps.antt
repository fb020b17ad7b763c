-- ===== src/Pipeline/Keeps.antt =====
-- app/handlers.py: a property of the table of jobs, from its writers to every delivery.
use mathlib.Core.Path.{subst}
use job_match_pipeline.Prelude.{◌≡◌, refl, sym, List, [], ◌∷◌, none, arith, Bool-cases, inl, inr}
use job_match_pipeline.Payload.{Uuid, Payload, lookup, parse_uuid}
use job_match_pipeline.Llm.{Outcome, returned, raised_retryable, raised}
use job_match_pipeline.Db.Rows.{Time, Job}
use job_match_pipeline.Db.Session.{alone, World, record_pipeline_event}
use job_match_pipeline.Ingest.Posting.{
  Materialized, materialized, permanent_error, other_error, materialize_posting, is_expired,
}
use job_match_pipeline.Ingest.Store.{
  upsert, job_values, is_empty_jd, store_posting, ingest_materialized, ingest_posting,
}
use job_match_pipeline.Ingest.Links.{Fetched, fetched, value_error, other_failure, fetch_link_list}
use job_match_pipeline.Extract.Service.{extract_job}
use job_match_pipeline.Extract.Preserve.{IsStable, extract_job-keeps}
use job_match_pipeline.Screen.Service.{screen_job}
use job_match_pipeline.Match.Service.{match_batch}
use job_match_pipeline.Match.Flags.{match_batch-jobs}
use job_match_pipeline.Analyze.Batch.{analyze_batch}
use job_match_pipeline.Analyze.Service.{analyze_match}
use job_match_pipeline.Generate.Service.{generate_resume}
use job_match_pipeline.Verify.Service.{verify_resume}
use job_match_pipeline.Api.Trigger.{trigger_generate}
use job_match_pipeline.Handlers.Server.{Server, new_session, settle, record_permanent_failure}
use job_match_pipeline.Handlers.Postings.{
  request_of, settle_fetch, fetch_link_list_handler, ingest_job_handler, extract_job_handler,
}
use job_match_pipeline.Handlers.Matches.{
  match_batch_handler, screen_job_handler, analyze_batch_handler, analyze_match_handler,
}
use job_match_pipeline.Handlers.Requests.{settle_request, api_trigger_generate}
use job_match_pipeline.Handlers.Resumes.{generate_resume_handler, verify_resume_handler}
use job_match_pipeline.Pipeline.Deliveries.{
  Deployment, Delivery, to_fetch_link_list, to_ingest_job, to_extract_job, to_match_batch,
  to_screen_job, to_analyze_batch, to_analyze_match, to_generate_resume, to_verify_resume, of_user,
  deliver, deliver_all,
}
use job_match_pipeline.Pipeline.Untouched.{
  screen_job-keeps, analyze_match-keeps, analyze_batch-jobs, generate_resume-jobs,
  verify_resume-jobs, trigger_generate-jobs, fetch_link_list-jobs,
}

-- A row that an INSERT may write: without extraction.
pub record IsBare (v : Job) : Type 0 where
  pub extracted : v.extracted_at ≡ none
  pub document : v.synthesized_doc ≡ none

-- The property is kept by the UPDATE of extract-job, by the upsert of ingest-job, and by what other
-- sessions commit during the calls of the models.
pub record IsInvariant (d : Deployment) (P : List Job → Type 0) : Type 0 where
  pub by_extraction : IsStable d.extract P
  pub by_upsert : (v : Job) (jobs : List Job) → IsBare v → P jobs → P (upsert v jobs)
  pub by_screen : (w : World) → P w.jobs → P (d.during_screen w).jobs
  pub by_analysis : (w : World) → P w.jobs → P (d.during_analysis w).jobs

module _ (P : List Job → Type 0) where
  settle-keeps :
      {A : Type 0} (o : Outcome A) (w : World) (s : Server)
      → P s.db.jobs
      → P w.jobs
      → P (settle (o, w) s).1.db.jobs
  unfolding settle
  settle-keeps (returned a) w s h g = g
  settle-keeps raised_retryable w s h g = g
  settle-keeps raised w s h g = h

  keeps_same : (v w : World) → v.jobs ≡ w.jobs → P w.jobs → P v.jobs
  keeps_same v w e h = subst P (sym e) h

module _ (d : Deployment) (P : List Job → Type 0) (inv : IsInvariant d P) where
  ingest_materialized-keeps :
      (p : Payload) (m : Materialized) (w : World)
      → P w.jobs
      → P (ingest_materialized d.py d.ingest p m w).1.jobs
  unfolding ingest_materialized store_posting record_pipeline_event job_values
  ingest_materialized-keeps p (permanent_error reason) w h = h
  ingest_materialized-keeps p other_error w h = h
  ingest_materialized-keeps p (materialized posting) w h =
      let stored =
        inv.by_upsert (job_values d.py d.ingest p posting w.next_id w.clock) w.jobs
          (record { extracted = refl; document = refl }) h in
      elim (Bool-cases (is_empty_jd posting.raw_jd)) [
        | inl e ↦ rw e h
        | inr e ↦ elim (Bool-cases (is_expired d.py d.ingest w.clock p)) [
          | inl x ↦ rw (e, x) h
          | inr x ↦ rw (e, x) stored
        ]
      ]

  ingest_posting-keeps :
      (p : Payload) (w : World) → P w.jobs → P (ingest_posting d.py d.ingest p w).1.jobs
  unfolding ingest_posting
  ingest_posting-keeps p w h = ingest_materialized-keeps p (materialize_posting d.py d.ingest p) w h

  settle_fetch-keeps :
      (o : Fetched) (w : World) (s : Server)
      → P s.db.jobs
      → P w.jobs
      → P (settle_fetch (o, w) s).1.db.jobs
  unfolding settle_fetch settle record_permanent_failure record_pipeline_event
  settle_fetch-keeps (fetched r) w s h g = g
  settle_fetch-keeps value_error w s h g = h
  settle_fetch-keeps other_failure w s h g = h

  fetch-keeps :
      (p : Payload) (s : Server)
      → P s.db.jobs
      → P (fetch_link_list_handler d.py d.ingest p s).1.db.jobs
  unfolding fetch_link_list_handler
  fetch-keeps p s h =
      let company = parse_uuid d.py (lookup "company_id" p) in
      let run = fetch_link_list d.py d.ingest (request_of company p) (new_session s.db) in
      let same = fetch_link_list-jobs d.py d.ingest (request_of company p) (new_session s.db) in
      ground (arith, settle_fetch-keeps run.0 run.1 s h (keeps_same P run.1 s.db same h))

  ingest-keeps :
      (p : Payload) (s : Server) → P s.db.jobs → P (ingest_job_handler d.py d.ingest p s).1.db.jobs
  unfolding ingest_job_handler
  ingest-keeps p s h =
      let run = ingest_posting d.py d.ingest p (new_session s.db) in
      settle-keeps P run.0 run.1 s h (ingest_posting-keeps p (new_session s.db) h)

  extract-keeps :
      (p : Payload) (s : Server)
      → P s.db.jobs
      → P (extract_job_handler d.py d.extract p s).1.db.jobs
  unfolding extract_job_handler record_permanent_failure record_pipeline_event
  extract-keeps p s h =
      let run = extract_job d.py d.extract p (new_session s.db) in
      ground (
        arith,
        settle-keeps P run.0 run.1 s h
            (extract_job-keeps d.py d.extract P inv.by_extraction p (new_session s.db) h),
      )

  screen-keeps :
      (p : Payload) (s : Server)
      → P s.db.jobs
      → P (screen_job_handler d.py d.gate d.during_screen d.screen_settings p s).1.db.jobs
  unfolding screen_job_handler record_permanent_failure record_pipeline_event
  screen-keeps p s h =
      let w = new_session s.db in
      let run = screen_job d.gate d.during_screen d.screen_settings d.py p w in
      ground (
        arith,
        settle-keeps P run.0 run.1 s h (
            screen_job-keeps P d.gate d.during_screen d.screen_settings w h (inv.by_screen w h) d.py
              p),
      )

  match_batch-keeps :
      (p : Payload) (s : Server) → P s.db.jobs → P (match_batch_handler d.py d.match p s).1.db.jobs
  unfolding match_batch_handler
  match_batch-keeps p s h =
      let w = new_session s.db in
      let run = match_batch d.py d.match p w in
      settle-keeps P (returned run.0) run.1 s h
        (keeps_same P run.1 w (match_batch-jobs d.py d.match p w) h)

  analyze_batch-keeps :
      (day_start : Time) (p : Payload) (s : Server)
      → P s.db.jobs
      → P (analyze_batch_handler d.py d.batch_settings day_start p s).1.db.jobs
  unfolding analyze_batch_handler
  analyze_batch-keeps day_start p s h =
      let w = new_session s.db in
      let run = analyze_batch d.py d.batch_settings day_start p w in
      settle-keeps P (returned run.0) run.1 s h
        (keeps_same P run.1 w (analyze_batch-jobs d.py d.batch_settings day_start p w) h)

  analyze-keeps :
      (p : Payload) (s : Server)
      → P s.db.jobs
      → P (analyze_match_handler d.py d.default_model d.analysis d.during_analysis p s).1.db.jobs
  unfolding analyze_match_handler record_permanent_failure record_pipeline_event
  analyze-keeps p s h =
      let w = new_session s.db in
      let run = analyze_match d.py d.default_model d.analysis d.during_analysis p w in
      ground (
        arith,
        settle-keeps P run.0 run.1 s h (
            analyze_match-keeps P d.py d.default_model d.analysis d.during_analysis w h
              (inv.by_analysis w h) p),
      )

  generate-keeps :
      (p : Payload) (s : Server)
      → P s.db.jobs
      → P (generate_resume_handler d.py d.generate p s).1.db.jobs
  unfolding generate_resume_handler record_permanent_failure record_pipeline_event
  generate-keeps p s h =
      let w = new_session s.db in
      let run = generate_resume d.py d.generate alone p w in
      ground (
        arith,
        settle-keeps P run.0 run.1 s h
            (keeps_same P run.1 w (generate_resume-jobs d.py d.generate p w) h),
      )

  verify-keeps :
      (p : Payload) (s : Server)
      → P s.db.jobs
      → P (verify_resume_handler d.py d.patterns d.linker d.verify p s).1.db.jobs
  unfolding verify_resume_handler record_permanent_failure record_pipeline_event
  verify-keeps p s h =
      let w = new_session s.db in
      let run = verify_resume d.py d.patterns d.linker d.verify p w in
      ground (
        arith,
        settle-keeps P run.0 run.1 s h
            (keeps_same P run.1 w (verify_resume-jobs d.py d.patterns d.linker d.verify p w) h),
      )

  request-keeps :
      (id : Uuid) (s : Server) → P s.db.jobs → P (api_trigger_generate d.py id s).1.db.jobs
  unfolding api_trigger_generate settle_request
  request-keeps id s h =
      let w = new_session s.db in
      let run = trigger_generate d.py id w in
      ground (arith, keeps_same P run.1 w (trigger_generate-jobs d.py id w) h)

  pub deliver-keeps : (m : Delivery) (s : Server) → P s.db.jobs → P (deliver d m s).db.jobs
  unfolding deliver
  deliver-keeps (to_fetch_link_list p) s h = fetch-keeps p s h
  deliver-keeps (to_ingest_job p) s h = ingest-keeps p s h
  deliver-keeps (to_extract_job p) s h = extract-keeps p s h
  deliver-keeps (to_match_batch p) s h = match_batch-keeps p s h
  deliver-keeps (to_screen_job p) s h = screen-keeps p s h
  deliver-keeps (to_analyze_batch day_start p) s h = analyze_batch-keeps day_start p s h
  deliver-keeps (to_analyze_match p) s h = analyze-keeps p s h
  deliver-keeps (to_generate_resume p) s h = generate-keeps p s h
  deliver-keeps (to_verify_resume p) s h = verify-keeps p s h
  deliver-keeps (of_user id) s h = request-keeps id s h

  pub deliver_all-keeps :
      (ms : List Delivery) (s : Server) → P s.db.jobs → P (deliver_all d ms s).db.jobs
  unfolding deliver_all
  deliver_all-keeps [] s h = h
  deliver_all-keeps (m ∷ ms) s h = deliver_all-keeps ms (deliver d m s) (deliver-keeps m s h)
