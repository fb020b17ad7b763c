-- ===== src/Extract/Short.antt =====
-- app/extract/service.py: the documents that the table of jobs has.
use job_match_pipeline.Prelude.{◌≤◌, List, [], ◌∷◌, Option, none, some, All, String, arith, nat_eq}
use job_match_pipeline.Payload.{Payload, Builtins}
use job_match_pipeline.Db.Rows.{Time, Job}
use job_match_pipeline.Db.Session.{World, update}
use job_match_pipeline.Extract.Synthesize.{estimate_tokens}
use job_match_pipeline.Extract.Model.{ExtractServices}
use job_match_pipeline.Extract.Service.{Values, set_values, is_unextracted, extract_job}
use job_match_pipeline.Extract.Preserve.{extract_job-keeps}

abbrev pub IsOneChunk : Option String → Type 0
IsOneChunk none = Unit
IsOneChunk (some doc) = estimate_tokens doc ≤ 500

-- Every document of the table is within one chunk of the reranker.
abbrev pub HasShortDocs : List Job → Type 0
HasShortDocs jobs = All (λ j. IsOneChunk j.synthesized_doc) jobs

pub HasShortDocs-update :
    (v : Values) (now : Time) (jobs : List Job)
    → estimate_tokens v.synthesized_doc ≤ 500
    → HasShortDocs jobs
    → HasShortDocs (update (is_unextracted v.job.id) (set_values v now) jobs)
HasShortDocs-update v now [] short h = tt
HasShortDocs-update v now (j ∷ jobs) short h =
    ground (arith, h.0, HasShortDocs-update v now jobs short h.1)

-- If every document of the table is at most 500 tokens by the estimate, so are all after extract-job,
-- whatever the payload and the models say, and whatever other sessions commit during the calls as long
-- as they keep this.
pub extract_job-HasShortDocs :
    (py : Builtins) (sv : ExtractServices) (payload : Payload) (w : World)
    → ((v : World) → HasShortDocs v.jobs → HasShortDocs (sv.during_llm v).jobs)
    → ((v : World) → HasShortDocs v.jobs → HasShortDocs (sv.during_embedding v).jobs)
    → HasShortDocs w.jobs
    → HasShortDocs (extract_job py sv payload w).1.jobs
extract_job-HasShortDocs py sv payload w in_llm in_embedding h =
    extract_job-keeps py sv HasShortDocs
      (record { by_update = HasShortDocs-update; by_llm = in_llm; by_embedding = in_embedding })
      payload w h
