-- ===== src/Pipeline/Lifecycle.antt =====
-- The life of a job as an abstract machine, beside the table of jobs under deliveries.
use job_match_pipeline.Prelude.{
  ◌≡◌, ◌⊎◌, refl, String, List, [], ◌∷◌, ◌++◌, Option, none, some, find, any, arith, ◌==◌, nat_eq,
  string_eq, Bool-cases, Option-cases, inl, inr, if◌then◌else◌,
}
use mathlib.Core.Path.{subst}
use job_match_pipeline.Payload.{Uuid}
use job_match_pipeline.Db.Rows.{Score, Time, Job}
use job_match_pipeline.Db.Session.{World, update}
use job_match_pipeline.Db.Laws.{find-update_if, find-append_some, find-append_none}
use job_match_pipeline.Ingest.Store.{has_hash, set_conflict, upsert}
use job_match_pipeline.Extract.Service.{Values, set_values, is_unextracted}
use job_match_pipeline.Handlers.Server.{Server}
use job_match_pipeline.Pipeline.Deliveries.{Deployment, Delivery, deliver_all}
use job_match_pipeline.Pipeline.Keeps.{IsBare, deliver_all-keeps}

-- The columns that only extract-job writes. Extraction also fills gaps of the arrangement and the pay;
-- these are columns of the posting, which a later ingest-job sets again.
pub record Extraction : Type 0 where
  pub extracted_at : Time
  pub seniority : Option String
  pub hard_requirements : List String
  pub nice_to_haves : List String
  pub skill_ids : List String
  pub synthesized_doc : Option String
  pub embedding : Option (List Score)

pub data Phase : Type 0 where
  absent stored : Phase
  extracted : Extraction → Phase

-- The steps that a job may take.
pub data JobStep : Phase → Phase → Type 0 where
  store : JobStep absent stored
  extract : (e : Extraction) → JobStep stored (extracted e)

-- Any number of steps.
pub data JobSteps (p : Phase) : Phase → Type 0 where
  here : JobSteps p p
  next : {q r : Phase} → JobSteps p q → JobStep q r → JobSteps p r

-- No step, or one.
abbrev IsStepOrStay : Phase → Phase → Type 0
IsStepOrStay p q = (p ≡ q) ⊎ JobStep p q

follow : (a p q : Phase) → JobSteps a p → IsStepOrStay p q → JobSteps a q
follow a p q h (inl same) = subst (JobSteps a) same h
follow a p q h (inr step) = next h step

abbrev extraction_of : Time → Job → Extraction
extraction_of t j = record {
  extracted_at = t;
  seniority = j.seniority;
  hard_requirements = j.hard_requirements;
  nice_to_haves = j.nice_to_haves;
  skill_ids = j.skill_ids;
  synthesized_doc = j.synthesized_doc;
  embedding = j.embedding;
}

abbrev phase_of_row : Job → Phase
phase_of_row j = elim j.extracted_at [ none ↦ stored | some t ↦ extracted (extraction_of t j) ]

abbrev phase_of : Option Job → Phase
phase_of none = absent
phase_of (some j) = phase_of_row j

-- The abstract view of the table.
abbrev pub phase : Uuid → List Job → Phase
phase x jobs = phase_of (find (λ j. j.id == x) jobs)

-- A row under the UPDATE of an extraction.
row_extracted :
    (v : Values) (now : Time) (j : Job)
    → IsStepOrStay
        (phase_of_row j)
        (phase_of_row (if is_unextracted v.job.id j then set_values v now j else j))
row_extracted v now j = elim (Option-cases j.extracted_at) [
  | inl unset ↦ elim (Bool-cases (j.id == v.job.id)) [
    | inl same ↦ rw (same, unset) (inr (extract (extraction_of now (set_values v now j))))
    | inr other ↦ rw (other, unset) (inl refl)
  ]
  | inr (t, set) ↦ inl (ground arith)
]

phase-update :
    (x : Uuid) (v : Values) (now : Time) (jobs : List Job)
    → IsStepOrStay
        (phase x jobs)
        (phase x (update (is_unextracted v.job.id) (set_values v now) jobs))
phase-update x v now jobs =
    rw
      (find-update_if (λ (r : Job). r.id == x) (is_unextracted v.job.id) (set_values v now) jobs
        (λ r. refl))
      (elim (Option-cases (find (λ (r : Job). r.id == x) jobs)) [
        | inl gone ↦ rw gone (inl refl)
        | inr (j, there) ↦ rw there (row_extracted v now j)
      ])

phase-append :
    (x : Uuid) (v : Job) (jobs : List Job)
    → IsBare v
    → IsStepOrStay (phase x jobs) (phase x (jobs ++ v ∷ []))
phase-append x v jobs bare = elim (Option-cases (find (λ (r : Job). r.id == x) jobs)) [
  | inr (j, there) ↦
      rw (there, find-append_some (λ (r : Job). r.id == x) jobs (v ∷ []) j there) (inl refl)
  | inl gone ↦
      rw (find-append_none (λ (r : Job). r.id == x) jobs (v ∷ []) gone, gone)
        (elim (Bool-cases (v.id == x)) [
          | inl same ↦ rw (same, bare.extracted) (inr store)
          | inr other ↦ rw other (inl refl)
        ])
]

phase-upsert :
    (x : Uuid) (v : Job) (jobs : List Job)
    → IsBare v
    → IsStepOrStay (phase x jobs) (phase x (upsert v jobs))
unfolding upsert
phase-upsert x v jobs bare = elim (Bool-cases (any (has_hash v.url_hash) jobs)) [
  | inl old ↦
      rw
        (
          old,
          find-update_if (λ (r : Job). r.id == x) (has_hash v.url_hash) (set_conflict v) jobs
              (λ r. refl),
        )
        (inl (ground arith))
  | inr new ↦ rw new (phase-append x v jobs bare)
]

JobSteps-trans : (a p q : Phase) → JobSteps a p → JobSteps p q → JobSteps a q
JobSteps-trans a p q h here = h
JobSteps-trans a p q h (next g step) = next (JobSteps-trans a p _ h g) step

-- What other sessions commit only takes the job further.
abbrev pub GoesOn : Uuid → (World → World) → Type 0
GoesOn x others = (w : World) → JobSteps (phase x w.jobs) (phase x (others w).jobs)

-- Deliveries in any order, repeated or not, refine the life of a job: whatever they do to the table,
-- every job only goes from absent to stored, and from stored to extracted, once, and from then its
-- extracted_at, seniority, requirements, nice-to-haves, skills, document and embedding never change; if
-- what other sessions commit during the calls of the models to extract, to embed, to screen and to
-- analyze does so too. (The gaps of the arrangement and the pay that extraction fills are not among
-- these columns.)
pub deliver_all-refines :
    (d : Deployment) (x : Uuid) (ms : List Delivery) (s : Server)
    → GoesOn x d.extract.during_llm
    → GoesOn x d.extract.during_embedding
    → GoesOn x d.during_screen
    → GoesOn x d.during_analysis
    → JobSteps (phase x s.db.jobs) (phase x (deliver_all d ms s).db.jobs)
deliver_all-refines d x ms s in_llm in_embedding in_screen in_analysis =
    let start = phase x s.db.jobs in
    deliver_all-keeps d (λ jobs. JobSteps start (phase x jobs))
      (record {
        by_extraction = record {
          by_update = λ v now jobs short h.
              follow start (phase x jobs)
                (phase x (update (is_unextracted v.job.id) (set_values v now) jobs)) h
                (phase-update x v now jobs);
          by_llm = λ w h. JobSteps-trans start (phase x w.jobs) _ h (in_llm w);
          by_embedding = λ w h. JobSteps-trans start (phase x w.jobs) _ h (in_embedding w);
        };
        by_upsert = λ v jobs bare h.
            follow start (phase x jobs) (phase x (upsert v jobs)) h (phase-upsert x v jobs bare);
        by_screen = λ w h. JobSteps-trans start (phase x w.jobs) _ h (in_screen w);
        by_analysis = λ w h. JobSteps-trans start (phase x w.jobs) _ h (in_analysis w);
      })
      ms s here

-- An extracted job takes no step.
pub extracted_stays : (e : Extraction) (q : Phase) → JobSteps (extracted e) q → q ≡ extracted e
extracted_stays e q here = refl
extracted_stays e q (next h store) = absurd (ground (arith, extracted_stays e absent h))
extracted_stays e q (next h (extract f)) = absurd (ground (arith, extracted_stays e stored h))
