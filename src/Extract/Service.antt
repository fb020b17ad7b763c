-- ===== src/Extract/Service.antt =====
-- app/extract/service.py: extract-job. The models' calls stand between the read of the job and the
-- UPDATE; meanwhile other sessions may commit. The measured latency is left out.
use job_match_pipeline.Prelude.{
  ◌+◌, Bool, ◌&&◌, not, String, List, [], ◌∷◌, Option, none, some, is_none, is_some, is_empty, ltb,
  any, or_else, if◌then◌else◌, ◌==◌, nat_eq, string_eq,
}
use job_match_pipeline.Prelude.Text.{strip, text_length}
use job_match_pipeline.Payload.{
  Uuid, Payload, Builtins, lookup, is_truthy, parse_uuid, number, pos, texts,
}
use job_match_pipeline.Llm.{
  LlmUsage, Reply, answered, permanent, retryable, Outcome, returned, raised_retryable,
  usage_details, no_usage,
}
use job_match_pipeline.Db.Rows.{Time, Job, Stage, Action}
use job_match_pipeline.Db.Session.{World, get_job, record_pipeline_event, update}
use job_match_pipeline.Extract.Synthesize.{build_synthesized_doc}
use job_match_pipeline.Skills.Report.{SpanLinkReport}
use job_match_pipeline.Extract.Model.{
  min_raw_jd_chars, JobExtraction, is_usable, EmbeddingResult, Embedded, ExtractServices,
  ExtractResult, span_report, skill_labels, clean_optional, embedded, embed_permanent,
  embed_retryable,
}

-- `first if first is not None else second`
abbrev pub or_option {ℓ} : {A : Type ℓ} → Option A → Option A → Option A
or_option none y = y
or_option (some a) y = some a

abbrev known_arrangement : Option String → Option String
known_arrangement none = none
known_arrangement (some s) = if s == "unknown" then none else some s

-- The entry of a gap in `values`: only where the row that was read has none and the extraction has one;
-- otherwise the column stays.
abbrev pub fill_gap {ℓ} : {A : Type ℓ} → Option A → Option A → Option A → Option A
fill_gap none (some found) current = some found
fill_gap none none current = current
fill_gap (some a) found current = current

-- What the UPDATE writes, with the job as it was read.
pub record Values : Type 0 where
  pub job : Job
  pub extraction : JobExtraction
  pub skill_ids : List String
  pub synthesized_doc : String
  pub embedding : EmbeddingResult

abbrev pub set_values : Values → Time → Job → Job
set_values v now j = record j {
  extracted_at = some now;
  seniority = clean_optional v.extraction.seniority;
  hard_requirements = v.extraction.hard_requirements;
  nice_to_haves = v.extraction.nice_to_haves;
  skill_ids = v.skill_ids;
  synthesized_doc = some v.synthesized_doc;
  embedding = some v.embedding.vector;
  work_arrangement =
      fill_gap v.job.work_arrangement
        (known_arrangement (clean_optional v.extraction.work_arrangement)) j.work_arrangement;
  comp_min = fill_gap v.job.comp_min v.extraction.comp_min j.comp_min;
  comp_max = fill_gap v.job.comp_max v.extraction.comp_max j.comp_max;
}

-- The WHERE clause of the UPDATE.
abbrev pub is_unextracted : Uuid → Job → Bool
is_unextracted id j = j.id == id && is_none j.extracted_at

abbrev job_event : Action → Uuid → Option Payload → World → World
job_event action id details w =
    record_pipeline_event Stage.extract_job action (some id) none none details w

abbrev result_of : Action → Uuid → LlmUsage → Outcome ExtractResult
result_of action id usage = returned (record { action = action; job_id = some id; usage = usage })

-- An end that only writes its event.
abbrev pub finish : Action → Uuid → LlmUsage → World → Outcome ExtractResult × World
finish action id usage w = (result_of action id usage, job_event action id none w)

abbrev with_embedding : LlmUsage → EmbeddingResult → LlmUsage
with_embedding u e = record u { cost_usd = u.cost_usd + e.cost_usd }

-- The compare-and-set and its events.
unfoldable pub save_extraction :
    Values → LlmUsage → List String → World → Outcome ExtractResult × World
unfolding record_pipeline_event
save_extraction v usage unlinked w =
    let id = v.job.id in
    let total = with_embedding usage v.embedding in
    let w1 = record w { jobs = update (is_unextracted id) (set_values v w.clock) w.jobs } in
    if any (is_unextracted id) w.jobs
    then (
      result_of Action.extracted id total,
      job_event Action.extracted id
          (some (
            usage_details total (
              ("embed_tokens", number (pos v.embedding.token_count))
              ∷ ("embed_cost_usd", number (pos v.embedding.cost_usd))
              ∷ ("skill_spans", texts v.extraction.skill_spans)
              ∷ ("linked_skill_ids", texts v.skill_ids)
              ∷ ("unlinked_spans", texts unlinked)
              ∷ [])))
          w1,
    )
    else finish Action.skipped_cached id total w1

module _ (py : Builtins) (sv : ExtractServices) where
  -- After the call of the embedder.
  unfoldable pub after_embedding :
      Job
      → JobExtraction
      → SpanLinkReport
      → String
      → LlmUsage
      → Embedded
      → World
      → Outcome ExtractResult × World
  unfolding save_extraction record_pipeline_event
  after_embedding job e report doc usage (embedded vector) w =
      save_extraction
        (record {
          job = job;
          extraction = e;
          skill_ids = report.skill_ids;
          synthesized_doc = doc;
          embedding = vector;
        })
        usage report.unlinked_spans w
  after_embedding job e report doc usage embed_permanent w =
      finish Action.llm_permanent_failure job.id usage w
  after_embedding job e report doc usage embed_retryable w =
      (raised_retryable, job_event Action.retryable_error job.id none w)

  -- The document of an extraction.
  unfoldable pub document_of : Job → JobExtraction → List String → String
  document_of job e labels = build_synthesized_doc py (record {
    title = job.title;
    seniority = e.seniority;
    skill_labels = labels;
    hard_requirements = e.hard_requirements;
    comp_min = or_option e.comp_min job.comp_min;
    comp_max = or_option e.comp_max job.comp_max;
  })

  -- Linking, the document and the embedder.
  unfoldable pub embed_extraction :
      Job → JobExtraction → LlmUsage → World → Outcome ExtractResult × World
  unfolding after_embedding
  embed_extraction job e usage w =
      let linker = or_else sv.linker (sv.linker_from_session w) in
      let report = span_report linker e.skill_spans in
      let labels = skill_labels (sv.concept_label w) linker report.skill_ids in
      let doc = document_of job e labels in
      after_embedding job e report doc usage (sv.embedder doc) (sv.during_embedding w)

  -- After the call of the model.
  unfoldable pub after_llm : Job → Reply JobExtraction → World → Outcome ExtractResult × World
  unfolding embed_extraction record_pipeline_event
  after_llm job (answered e usage) w =
      let saved = embed_extraction job e usage w in
      if not (is_usable e)
      then (
        result_of Action.unparseable job.id usage,
        job_event Action.unparseable job.id (some (usage_details usage [])) w,
      )
      else saved
  after_llm job permanent w = finish Action.llm_permanent_failure job.id no_usage w
  after_llm job retryable w = (raised_retryable, job_event Action.retryable_error job.id none w)

  -- `(job.raw_jd or "").strip()`
  abbrev pub description_of : Job → String
  description_of job = strip (or_else job.raw_jd "")

  -- From the row that was read to the model.
  unfoldable pub extract_found : Job → World → Outcome ExtractResult × World
  unfolding after_llm record_pipeline_event
  extract_found job w =
      let raw_jd = description_of job in
      let asked = after_llm job (sv.llm raw_jd job.title) (sv.during_llm w) in
      if is_some job.extracted_at
      then finish Action.skipped_cached job.id no_usage w
      else if ltb (text_length raw_jd) min_raw_jd_chars
      then finish Action.unparseable job.id no_usage w
      else if is_none sv.linker && is_empty w.concepts
      then (raised_retryable, job_event Action.skills_taxonomy_missing job.id none w)
      else asked

  unfoldable pub extract_job : Payload → World → Outcome ExtractResult × World
  unfolding extract_found record_pipeline_event
  extract_job payload w =
      let raw = lookup "job_id" payload in
      elim (parse_uuid py raw) [
        | none ↦ (
          returned (record {
            action = if is_truthy raw then Action.invalid_job_id else Action.missing_job_id;
            job_id = none;
            usage = no_usage;
          }),
          w,
        )
        | some id ↦ elim (get_job id w) [
          | none ↦ (
            result_of Action.not_found id no_usage,
            record_pipeline_event Stage.extract_job Action.not_found none none none none w,
          )
          | some job ↦ extract_found job w
        ]
      ]
