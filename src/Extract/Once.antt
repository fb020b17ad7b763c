-- ===== src/Extract/Once.antt =====
-- app/extract/service.py: a job that is extracted already.
use job_match_pipeline.Prelude.{◌≡◌, refl, true, List, some, is_some, find, arith, ◌==◌, nat_eq}
use job_match_pipeline.Payload.{Uuid, Payload, Builtins}
use job_match_pipeline.Db.Rows.{Time, Job}
use job_match_pipeline.Db.Session.{World, update}
use job_match_pipeline.Db.Laws.{find-update_if}
use job_match_pipeline.Extract.Model.{ExtractServices}
use job_match_pipeline.Extract.Service.{Values, set_values, is_unextracted, extract_job}
use job_match_pipeline.Extract.Preserve.{extract_job-keeps}

-- The row of a job that is extracted.
pub record IsExtracted (x : Uuid) (j : Job) (jobs : List Job) : Type 0 where
  pub row : find (λ r. r.id == x) jobs ≡ some j
  pub extracted : is_some j.extracted_at ≡ true

IsExtracted-update :
    (x : Uuid) (j : Job) (v : Values) (now : Time) (jobs : List Job)
    → IsExtracted x j jobs
    → IsExtracted x j (update (is_unextracted v.job.id) (set_values v now) jobs)
IsExtracted-update x j v now jobs h = record {
  extracted = h.extracted;
  row = ground (
    arith,
    h.row,
    h.extracted,
    find-update_if (λ (r : Job). r.id == x) (is_unextracted v.job.id) (set_values v now) jobs
        (λ r. refl),
  );
}

-- A job with an extraction keeps its whole row in extract-job, whichever job the payload names,
-- whatever the models answer, and whatever other sessions commit during their calls as long as they
-- keep that row.
pub extract_job-keeps_row :
    (py : Builtins) (sv : ExtractServices) (x : Uuid) (j : Job) (payload : Payload) (w : World)
    → ((v : World) → IsExtracted x j v.jobs → IsExtracted x j (sv.during_llm v).jobs)
    → ((v : World) → IsExtracted x j v.jobs → IsExtracted x j (sv.during_embedding v).jobs)
    → IsExtracted x j w.jobs
    → IsExtracted x j (extract_job py sv payload w).1.jobs
extract_job-keeps_row py sv x j payload w in_llm in_embedding h =
    extract_job-keeps py sv (IsExtracted x j)
      (record {
        by_update = λ v now jobs short. IsExtracted-update x j v now jobs;
        by_llm = in_llm;
        by_embedding = in_embedding;
      })
      payload w h
