-- ===== src/Extract/Model.antt =====
-- app/extract/llm.py and embed.py, and the helpers of service.py: what extract-job is given, and how it
-- asks the linker.
use job_match_pipeline.Prelude.{
  ℕ, Bool, false, ◌&&◌, ◌||◌, not, String, List, [], Option, none, some, is_some, is_empty, map,
  or_else, if◌then◌else◌, ◌==◌, nat_eq, string_eq,
}
use job_match_pipeline.Prelude.Text.{truthy, strip}
use job_match_pipeline.Payload.{Uuid, ℤ}
use job_match_pipeline.Llm.{LlmUsage, Reply}
use job_match_pipeline.Db.Rows.{Score, Action}
use job_match_pipeline.Db.Session.{World}
use job_match_pipeline.Skills.Report.{SpanLinkReport}

-- MIN_RAW_JD_CHARS
abbrev pub min_raw_jd_chars : ℕ
min_raw_jd_chars = 40

pub record JobExtraction : Type 0 where
  pub parseable : Bool
  pub seniority : Option String
  pub hard_requirements : List String
  pub nice_to_haves : List String
  pub work_arrangement : Option String
  pub comp_min : Option ℤ
  pub comp_max : Option ℤ
  pub skill_spans : List String

abbrev is_known_seniority : Option String → Bool
is_known_seniority none = false
is_known_seniority (some s) = truthy s && truthy (strip s) && not (s == "unknown")

unfoldable pub is_usable : JobExtraction → Bool
is_usable e =
    e.parseable
    && (is_known_seniority e.seniority
        || not (is_empty e.hard_requirements)
        || not (is_empty e.nice_to_haves)
        || not (is_empty e.skill_spans)
        || is_some e.comp_min
        || is_some e.comp_max)

-- `JobLLM.extract_job`, from the description and the title.
abbrev pub JobLlm : Type 0
JobLlm = String → Option String → Reply JobExtraction

pub record EmbeddingResult : Type 0 where
  pub vector : List Score
  pub token_count : ℕ
  pub cost_usd : ℕ

-- `DocumentEmbedder.embed_document`: a vector, PermanentLLMError or RetryableLLMError.
pub data Embedded : Type 0 where
  embedded : EmbeddingResult → Embedded
  embed_permanent : Embedded
  embed_retryable : Embedded

-- `SkillLinker`; a linker may lack the methods that `getattr` looks for.
pub record SkillLinker : Type 0 where
  pub link_spans : List String → List String
  pub link_span_report : Option (List String → SpanLinkReport)
  pub labels_for : Option (List String → List String)

-- The arguments of `extract_job`, what reads the skill tables, and what other sessions commit during
-- the calls of the two models.
pub record ExtractServices : Type 0 where
  pub llm : JobLlm
  pub embedder : String → Embedded
  pub linker : Option SkillLinker
  pub linker_from_session : World → SkillLinker
  -- `concept_labels`, with none for an id that is absent
  pub concept_label : World → String → Option String
  pub during_llm : World → World
  pub during_embedding : World → World

pub record ExtractResult : Type 0 where
  pub action : Action
  pub job_id : Option Uuid
  pub usage : LlmUsage

-- `_link_span_report`
unfoldable pub span_report : SkillLinker → List String → SpanLinkReport
span_report linker spans = elim linker.link_span_report [
  | some report ↦ report spans
  | none ↦ record { skill_ids = linker.link_spans spans; unlinked_spans = [] }
]

-- `_skill_labels`
unfoldable pub skill_labels : (String → Option String) → SkillLinker → List String → List String
skill_labels label linker ids =
    let by_id = map (λ id. or_else (label id) id) ids in
    if is_empty ids then [] else elim linker.labels_for [ some labels ↦ labels ids | none ↦ by_id ]

-- `_clean_optional`
unfoldable pub clean_optional : Option String → Option String
clean_optional none = none
clean_optional (some s) = if truthy (strip s) then some (strip s) else none
