-- ===== src/Pipeline/Invariants.antt =====
-- The hashes and the documents of the table of jobs under deliveries.
use job_match_pipeline.Prelude.{
  ◌≡◌, refl, List, [], ◌∷◌, All-append, IsDistinct, any, arith, nat_eq, string_eq, Bool-cases, inl,
  inr,
}
use job_match_pipeline.Db.Rows.{Time, Job}
use job_match_pipeline.Db.Session.{World, update}
use job_match_pipeline.Ingest.Store.{has_hash, set_conflict, upsert}
use job_match_pipeline.Ingest.Unique.{hashes, upsert-IsUnique}
use job_match_pipeline.Extract.Service.{Values, set_values, is_unextracted}
use job_match_pipeline.Extract.Short.{IsOneChunk, HasShortDocs, HasShortDocs-update}
use job_match_pipeline.Handlers.Server.{Server}
use job_match_pipeline.Pipeline.Deliveries.{Deployment, Delivery, deliver_all}
use job_match_pipeline.Pipeline.Keeps.{IsBare, deliver_all-keeps}

-- No two rows have one hash, and every document is within one chunk of the reranker.
pub record IsSound (jobs : List Job) : Type 0 where
  pub unique : IsDistinct (hashes jobs)
  pub short : HasShortDocs jobs

hashes-extraction :
    (v : Values) (now : Time) (jobs : List Job)
    → hashes (update (is_unextracted v.job.id) (set_values v now) jobs) ≡ hashes jobs
hashes-extraction v now [] = refl
hashes-extraction v now (j ∷ jobs) = ground (arith, hashes-extraction v now jobs)

HasShortDocs-conflict :
    (v : Job) (jobs : List Job)
    → HasShortDocs jobs
    → HasShortDocs (update (has_hash v.url_hash) (set_conflict v) jobs)
HasShortDocs-conflict v [] h = tt
HasShortDocs-conflict v (j ∷ jobs) h = elim (Bool-cases (has_hash v.url_hash j)) [
  | inl same ↦ rw same (h.0, HasShortDocs-conflict v jobs h.1)
  | inr other ↦ rw other (h.0, HasShortDocs-conflict v jobs h.1)
]

HasShortDocs-upsert :
    (v : Job) (jobs : List Job) → IsBare v → HasShortDocs jobs → HasShortDocs (upsert v jobs)
unfolding upsert
HasShortDocs-upsert v jobs bare h = elim (Bool-cases (any (has_hash v.url_hash) jobs)) [
  | inl old ↦ rw old (HasShortDocs-conflict v jobs h)
  | inr new ↦ rw new (
      All-append (λ (j : Job). IsOneChunk j.synthesized_doc) jobs (v ∷ []) h
        (rw bare.document (tt, tt)))
]

-- Where the sessions that commit during the calls of the models keep it too, any deliveries in any
-- order, repeated or not, keep the table sound: one row for a hash, and no document above 500 tokens by
-- the estimate.
pub deliver_all-IsSound :
    (d : Deployment) (ms : List Delivery) (s : Server)
    → ((w : World) → IsSound w.jobs → IsSound (d.extract.during_llm w).jobs)
    → ((w : World) → IsSound w.jobs → IsSound (d.extract.during_embedding w).jobs)
    → ((w : World) → IsSound w.jobs → IsSound (d.during_screen w).jobs)
    → ((w : World) → IsSound w.jobs → IsSound (d.during_analysis w).jobs)
    → IsSound s.db.jobs
    → IsSound (deliver_all d ms s).db.jobs
deliver_all-IsSound d ms s in_llm in_embedding in_screen in_analysis =
    deliver_all-keeps d IsSound
      (record {
        by_extraction = record {
          by_update = λ v now jobs short h. record {
            unique = rw (hashes-extraction v now jobs) h.unique;
            short = HasShortDocs-update v now jobs short h.short;
          };
          by_llm = in_llm;
          by_embedding = in_embedding;
        };
        by_upsert = λ v jobs bare h. record {
          unique = upsert-IsUnique v jobs h.unique;
          short = HasShortDocs-upsert v jobs bare h.short;
        };
        by_screen = in_screen;
        by_analysis = in_analysis;
      })
      ms s
