-- ===== src/Extract/Preserve.antt =====
-- app/extract/service.py: what extract-job leaves of a property of the table of jobs.
use job_match_pipeline.Prelude.{◌≤◌, String, List, arith, or_else, nat_eq}
use job_match_pipeline.Payload.{Payload, Builtins}
use job_match_pipeline.Llm.{LlmUsage, Reply, answered, permanent, retryable}
use job_match_pipeline.Db.Rows.{Time, Job}
use job_match_pipeline.Db.Session.{World, update}
use job_match_pipeline.Extract.Synthesize.{estimate_tokens}
use job_match_pipeline.Extract.Bounds.{build_synthesized_doc-bound}
use job_match_pipeline.Skills.Report.{SpanLinkReport}
use job_match_pipeline.Extract.Model.{
  JobExtraction, ExtractServices, EmbeddingResult, Embedded, embedded, embed_permanent,
  embed_retryable, span_report, skill_labels,
}
use job_match_pipeline.Extract.Service.{
  Values, set_values, is_unextracted, save_extraction, after_embedding, embed_extraction,
  document_of, after_llm, extract_found, extract_job, description_of,
}

-- The property is kept by the UPDATE, with a document in one chunk, and by the other sessions.
pub record IsStable (sv : ExtractServices) (P : List Job → Type 0) : Type 0 where
  pub by_update :
      (v : Values) (now : Time) (jobs : List Job)
      → estimate_tokens v.synthesized_doc ≤ 500
      → P jobs
      → P (update (is_unextracted v.job.id) (set_values v now) jobs)
  pub by_llm : (w : World) → P w.jobs → P (sv.during_llm w).jobs
  pub by_embedding : (w : World) → P w.jobs → P (sv.during_embedding w).jobs

abbrev values_of : Job → JobExtraction → SpanLinkReport → String → EmbeddingResult → Values
values_of job e report doc vector = record {
  job = job;
  extraction = e;
  skill_ids = report.skill_ids;
  synthesized_doc = doc;
  embedding = vector;
}

jobs-save_extraction :
    (v : Values) (u : LlmUsage) (unlinked : List String) (w : World)
    → (P : List Job → Type 0) → P w.jobs
    → P (update (is_unextracted v.job.id) (set_values v w.clock) w.jobs)
    → P (save_extraction v u unlinked w).1.jobs
unfolding save_extraction
jobs-save_extraction v u unlinked w P h g = ground arith

module _ (py : Builtins) (sv : ExtractServices) (P : List Job → Type 0)
    (stable : IsStable sv P) where
  after_embedding-keeps :
      (job : Job) (e : JobExtraction) (report : SpanLinkReport) (doc : String) (u : LlmUsage)
      (answer : Embedded) (w : World)
      → estimate_tokens doc ≤ 500
      → P w.jobs
      → P (after_embedding py sv job e report doc u answer w).1.jobs
  unfolding after_embedding
  after_embedding-keeps job e report doc u (embedded vector) w short h =
      let v = values_of job e report doc vector in
      jobs-save_extraction v u report.unlinked_spans w P h
        (stable.by_update v w.clock w.jobs short h)
  after_embedding-keeps job e report doc u embed_permanent w short h = h
  after_embedding-keeps job e report doc u embed_retryable w short h = h

  document_of-bound :
      (job : Job) (e : JobExtraction) (labels : List String)
      → estimate_tokens (document_of py sv job e labels) ≤ 500
  unfolding document_of
  document_of-bound job e labels = build_synthesized_doc-bound py _

  embed_extraction-keeps :
      (job : Job) (e : JobExtraction) (u : LlmUsage) (w : World)
      → P w.jobs
      → P (embed_extraction py sv job e u w).1.jobs
  unfolding embed_extraction
  embed_extraction-keeps job e u w h =
      let linker = or_else sv.linker (sv.linker_from_session w) in
      let report = span_report linker e.skill_spans in
      let labels = skill_labels (sv.concept_label w) linker report.skill_ids in
      let doc = document_of py sv job e labels in
      after_embedding-keeps job e report doc u (sv.embedder doc) (sv.during_embedding w)
        (document_of-bound job e labels) (stable.by_embedding w h)

  after_llm-keeps :
      (job : Job) (reply : Reply JobExtraction) (w : World)
      → P w.jobs
      → P (after_llm py sv job reply w).1.jobs
  unfolding after_llm
  after_llm-keeps job (answered e u) w h = ground (arith, embed_extraction-keeps job e u w h)
  after_llm-keeps job permanent w h = h
  after_llm-keeps job retryable w h = h

  extract_found-keeps : (job : Job) (w : World) → P w.jobs → P (extract_found py sv job w).1.jobs
  unfolding extract_found
  extract_found-keeps job w h =
      let reply = sv.llm (description_of py sv job) job.title in
      ground (arith, after_llm-keeps job reply (sv.during_llm w) (stable.by_llm w h))

  pub extract_job-keeps :
      (payload : Payload) (w : World) → P w.jobs → P (extract_job py sv payload w).1.jobs
  unfolding extract_job
  extract_job-keeps payload w h = grind (arith, extract_found-keeps)
