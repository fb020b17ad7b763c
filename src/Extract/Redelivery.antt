-- ===== src/Extract/Redelivery.antt =====
-- app/extract/service.py: extract-job delivered twice.
use job_match_pipeline.Prelude.{
  ℕ, ◌≡◌, true, String, List, [], ◌∷◌, Option, none, some, is_some, find, any, arith, ◌==◌, nat_eq,
  Option-cases, inl, inr,
}
use job_match_pipeline.Payload.{Uuid, Payload, Builtins, lookup, parse_uuid}
use job_match_pipeline.Llm.{LlmUsage, Reply, answered, permanent, retryable, returned, no_usage}
use job_match_pipeline.Db.Rows.{Job, Action}
use job_match_pipeline.Db.Session.{World, get_job, update}
use job_match_pipeline.Db.Laws.{find-true}
use job_match_pipeline.Skills.Report.{SpanLinkReport}
use job_match_pipeline.Extract.Model.{
  JobExtraction, ExtractServices, ExtractResult, Embedded, embedded, embed_permanent,
  embed_retryable,
}
use job_match_pipeline.Extract.Service.{
  Values, set_values, is_unextracted, save_extraction, after_embedding, embed_extraction, after_llm,
  extract_found, extract_job,
}

-- Some row of the id is extracted.
abbrev IsExtractedRow : Option Job → Type 0
IsExtractedRow none = ⊥
IsExtractedRow (some j) = is_some j.extracted_at ≡ true

abbrev HasExtraction : Uuid → List Job → Type 0
HasExtraction id jobs = IsExtractedRow (find (λ r. r.id == id) jobs)

HasExtraction-update :
    (v : Values) (now : ℕ) (jobs : List Job)
    → any (is_unextracted v.job.id) jobs ≡ true
    → HasExtraction v.job.id (update (is_unextracted v.job.id) (set_values v now) jobs)
HasExtraction-update v now [] h = ground arith
HasExtraction-update v now (j ∷ jobs) h = ground (arith, HasExtraction-update v now jobs)

module _ (r : ExtractResult) where
  save_extraction-HasExtraction :
      (v : Values) (u : LlmUsage) (unlinked : List String) (w : World)
      → (save_extraction v u unlinked w).0 ≡ returned r
      → r.action ≡ Action.extracted
      → HasExtraction v.job.id (save_extraction v u unlinked w).1.jobs
  unfolding save_extraction
  save_extraction-HasExtraction v u unlinked w h a =
      ground (arith, HasExtraction-update v w.clock w.jobs)

  -- A result that says `extracted`, about a row that then is.
  abbrev IsTrue : Uuid → List Job → Type 0
  IsTrue id jobs = HasExtraction id jobs × (r.job_id ≡ some id)

  save_extraction-names_job :
      (v : Values) (u : LlmUsage) (unlinked : List String) (w : World)
      → (save_extraction v u unlinked w).0 ≡ returned r
      → r.action ≡ Action.extracted
      → r.job_id ≡ some v.job.id
  unfolding save_extraction
  save_extraction-names_job v u unlinked w h a = ground arith

  save_extraction-IsTrue :
      (v : Values) (u : LlmUsage) (unlinked : List String) (w : World)
      → (save_extraction v u unlinked w).0 ≡ returned r
      → r.action ≡ Action.extracted
      → IsTrue v.job.id (save_extraction v u unlinked w).1.jobs
  save_extraction-IsTrue v u unlinked w h a = (
    save_extraction-HasExtraction v u unlinked w h a,
    save_extraction-names_job v u unlinked w h a,
  )

  module _ (py : Builtins) (sv : ExtractServices) where
    after_embedding-IsTrue :
        (job : Job) (e : JobExtraction) (report : SpanLinkReport) (doc : String) (u : LlmUsage)
        (answer : Embedded) (w : World)
        → (after_embedding py sv job e report doc u answer w).0 ≡ returned r
        → r.action ≡ Action.extracted
        → IsTrue job.id (after_embedding py sv job e report doc u answer w).1.jobs
    unfolding after_embedding
    after_embedding-IsTrue job e report doc u (embedded vector) w h a =
        save_extraction-IsTrue
          (record {
            job = job;
            extraction = e;
            skill_ids = report.skill_ids;
            synthesized_doc = doc;
            embedding = vector;
          })
          u report.unlinked_spans w h a
    after_embedding-IsTrue job e report doc u embed_permanent w h a = ground arith
    after_embedding-IsTrue job e report doc u embed_retryable w h a = ground arith

    after_llm-IsTrue :
        (job : Job) (reply : Reply JobExtraction) (w : World)
        → (after_llm py sv job reply w).0 ≡ returned r
        → r.action ≡ Action.extracted
        → IsTrue job.id (after_llm py sv job reply w).1.jobs
    unfolding after_llm embed_extraction
    after_llm-IsTrue job (answered e u) w h a = grind (arith, after_embedding-IsTrue)
    after_llm-IsTrue job permanent w h a = ground arith
    after_llm-IsTrue job retryable w h a = ground arith

    extract_found-IsTrue :
        (job : Job) (w : World)
        → (extract_found py sv job w).0 ≡ returned r
        → r.action ≡ Action.extracted
        → IsTrue job.id (extract_found py sv job w).1.jobs
    unfolding extract_found
    extract_found-IsTrue job w h a = grind (arith, after_llm-IsTrue)

    pub extract_job-IsTrue :
        (payload : Payload) (id : Uuid) (w : World)
        → parse_uuid py (lookup "job_id" payload) ≡ some id
        → (extract_job py sv payload w).0 ≡ returned r
        → r.action ≡ Action.extracted
        → IsTrue id (extract_job py sv payload w).1.jobs
    unfolding extract_job get_job
    extract_job-IsTrue payload id w parsed h a = elim (Option-cases (get_job id w)) [
      | inl gone ↦ absurd (ground arith)
      | inr (job, there) ↦
          let same = find-true (λ (j : Job). j.id == id) w.jobs job there in
          let h1 : (extract_found py sv job w).0 ≡ returned r = ground arith in
          grind (arith, extract_found-IsTrue job w h1 a)
    ]

-- An id whose row is extracted is skipped, with no bill.
pub extract_job-skips :
    (py : Builtins) (sv : ExtractServices) (payload : Payload) (w : World) (id : Uuid)
    → parse_uuid py (lookup "job_id" payload) ≡ some id
    → HasExtraction id w.jobs
    → ((extract_job py sv payload w).0
        ≡ returned (record { action = Action.skipped_cached; job_id = some id; usage = no_usage }))
      × ((extract_job py sv payload w).1.jobs ≡ w.jobs)
unfolding extract_job extract_found get_job
extract_job-skips py sv payload w id parsed h = elim (Option-cases (get_job id w)) [
  | inl gone ↦ absurd (ground arith)
  | inr (job, there) ↦
      let same = find-true (λ (j : Job). j.id == id) w.jobs job there in
      (ground arith, ground arith)
]

-- A payload without an id is not what is extracted.
extract_job-unparsed :
    (py : Builtins) (sv : ExtractServices) (payload : Payload) (w : World) (r : ExtractResult)
    → parse_uuid py (lookup "job_id" payload) ≡ none
    → (extract_job py sv payload w).0 ≡ returned r
    → r.action ≡ Action.extracted
    → ⊥
unfolding extract_job
extract_job-unparsed py sv payload w r bad h a = ground arith

-- Once a delivery of extract-job reports `extracted`, the same message delivered again is skipped: it
-- names the same job, bills nothing and leaves the jobs as they are, whatever the models and other
-- sessions do meanwhile in the second delivery.
pub extract_job-redelivered :
    (py : Builtins) (sv sv2 : ExtractServices) (payload : Payload) (w : World) (r : ExtractResult)
    → (extract_job py sv payload w).0 ≡ returned r
    → r.action ≡ Action.extracted
    → ((extract_job py sv2 payload (extract_job py sv payload w).1).0
        ≡ returned (record { action = Action.skipped_cached; job_id = r.job_id; usage = no_usage }))
      × ((extract_job py sv2 payload (extract_job py sv payload w).1).1.jobs
          ≡ (extract_job py sv payload w).1.jobs)
extract_job-redelivered py sv sv2 payload w r h a =
    elim (Option-cases (parse_uuid py (lookup "job_id" payload))) [
      | inl bad ↦ absurd (extract_job-unparsed py sv payload w r bad h a)
      | inr (id, parsed) ↦
          let (there, named) = extract_job-IsTrue r py sv payload id w parsed h a in
          rw named
            (extract_job-skips py sv2 payload (extract_job py sv payload w).1 id parsed there)
    ]
