-- ===== src/Ingest/Unique.antt =====
-- app/ingest/store.py: the rows of `jobs` under redelivery.
use job_match_pipeline.Prelude.{
  ◌+◌, ◌≤◌, ◌≡◌, refl, false, String, List, [], ◌∷◌, ◌++◌, Option, map, any, elem, arith, length,
  take, IsDistinct, string_eq, Bool-cases, inl, inr, elem-append, length-append,
}
use job_match_pipeline.Payload.{Uuid, Payload, Builtins}
use job_match_pipeline.Db.Rows.{Score, Time, Job}
use job_match_pipeline.Db.Laws.{length-update}
use job_match_pipeline.Db.Session.{World, update, record_pipeline_event}
use job_match_pipeline.Ingest.Posting.{
  Materialized, is_expired, materialized, permanent_error, other_error, IngestLibrary,
  materialize_posting,
}
use job_match_pipeline.Ingest.Store.{
  is_empty_jd, job_values, has_hash, set_conflict, upsert, store_posting, ingest_materialized,
  ingest_posting,
}

-- What a row has that is not of its posting: when it was first seen, and the columns that only
-- extraction writes. The arrangement and the pay are the posting's, also where extraction filled them.
abbrev pub Identity : Type 0
Identity =
    Uuid
    × String
    × Option Time
    × Option Time
    × Option String
    × List String
    × List String
    × List String
    × Option String
    × Option (List Score)

abbrev pub identity : Job → Identity
identity j = (
  j.id, j.url_hash, j.ingested_at, j.extracted_at, j.seniority, j.hard_requirements,
  j.nice_to_haves, j.skill_ids, j.synthesized_doc, j.embedding,
)

-- The rows after are those before, each with its identity, and one more at most.
pub record IsRefreshed (before after : List Job) : Type 0 where
  pub kept : map identity (take (length before) after) ≡ map identity before
  pub at_most_one : length after ≤ length before + 1

abbrev pub hashes : List Job → List String
hashes jobs = map (λ j. j.url_hash) jobs

-- No two rows of `jobs` have one hash.
abbrev pub IsUnique : World → Type 0
IsUnique w = IsDistinct (hashes w.jobs)

hashes-update :
    (v : Job) (jobs : List Job)
    → hashes (update (has_hash v.url_hash) (set_conflict v) jobs) ≡ hashes jobs
hashes-update v [] = refl
hashes-update v (j ∷ jobs) = ground (arith, hashes-update v jobs)

elem-hashes : (h : String) (jobs : List Job) → any (has_hash h) jobs ≡ elem h (hashes jobs)
elem-hashes h [] = refl
elem-hashes h (j ∷ jobs) =
    ground
      (arith, elem-hashes h jobs, string_eq.beq_iff h j.url_hash, string_eq.beq_iff j.url_hash h)

IsDistinct-snoc :
    (x : String) (xs : List String) → IsDistinct xs → elem x xs ≡ false → IsDistinct (xs ++ x ∷ [])
IsDistinct-snoc x [] h new = (refl, tt)
IsDistinct-snoc x (y ∷ xs) h new = ground (
  arith,
  IsDistinct-snoc x xs,
  elem-append y xs (x ∷ []),
  string_eq.beq_iff x y,
  string_eq.beq_iff y x,
)

hashes-append : (xs ys : List Job) → hashes (xs ++ ys) ≡ hashes xs ++ hashes ys
hashes-append [] ys = refl
hashes-append (x ∷ xs) ys = ground (arith, hashes-append xs ys)

pub upsert-IsUnique :
    (v : Job) (jobs : List Job) → IsDistinct (hashes jobs) → IsDistinct (hashes (upsert v jobs))
unfolding upsert
upsert-IsUnique v jobs h = elim (Bool-cases (any (has_hash v.url_hash) jobs)) [
  | inl old ↦ rw old (rw (hashes-update v jobs) h)
  | inr new ↦ rw new (
      rw (hashes-append jobs (v ∷ []))
        (IsDistinct-snoc v.url_hash (hashes jobs) h (ground (arith, elem-hashes v.url_hash jobs))))
]

identity-update :
    (v : Job) (jobs : List Job)
    → map identity (take (length jobs) (update (has_hash v.url_hash) (set_conflict v) jobs))
      ≡ map identity jobs
identity-update v [] = refl
identity-update v (j ∷ jobs) = ground (arith, identity-update v jobs)

identity-append :
    (jobs : List Job) (v : Job)
    → map identity (take (length jobs) (jobs ++ v ∷ [])) ≡ map identity jobs
identity-append [] v = refl
identity-append (j ∷ jobs) v = ground (arith, identity-append jobs v)

IsRefreshed-same : (jobs : List Job) → IsRefreshed jobs jobs
IsRefreshed-same jobs = record { kept = take_all jobs; at_most_one = omega arith }
  where
    take_all : (js : List Job) → map identity (take (length js) js) ≡ map identity js
    take_all [] = refl
    take_all (j ∷ js) = ground (arith, take_all js)

upsert-IsRefreshed : (v : Job) (jobs : List Job) → IsRefreshed jobs (upsert v jobs)
unfolding upsert
upsert-IsRefreshed v jobs = elim (Bool-cases (any (has_hash v.url_hash) jobs)) [
  | inl old ↦ rw old (record {
    kept = identity-update v jobs;
    at_most_one = omega (arith, length-update (has_hash v.url_hash) (set_conflict v) jobs);
  })
  | inr new ↦ rw new (record {
    kept = identity-append jobs v;
    at_most_one = omega (arith, length-append jobs (v ∷ []));
  })
]

abbrev IsKept : List Job → List Job → Type 0
IsKept before after =
    (IsDistinct (hashes before) → IsDistinct (hashes after)) × IsRefreshed before after

module _ (py : Builtins) (lib : IngestLibrary) (p : Payload) (w : World) where
  same_rows : IsKept w.jobs w.jobs
  same_rows = (λ h. h, IsRefreshed-same w.jobs)

  store_posting-IsKept : (v : Job) → IsKept w.jobs (store_posting v w).1.jobs
  unfolding store_posting record_pipeline_event
  store_posting-IsKept v = (upsert-IsUnique v w.jobs, upsert-IsRefreshed v w.jobs)

  ingest_materialized-IsKept :
      (m : Materialized) → IsKept w.jobs (ingest_materialized py lib p m w).1.jobs
  unfolding ingest_materialized record_pipeline_event
  ingest_materialized-IsKept (permanent_error reason) = same_rows
  ingest_materialized-IsKept other_error = same_rows
  ingest_materialized-IsKept (materialized posting) =
      elim (Bool-cases (is_empty_jd posting.raw_jd)) [
        | inl e ↦ rw e same_rows
        | inr e ↦ elim (Bool-cases (is_expired py lib w.clock p)) [
          | inl x ↦ rw (e, x) same_rows
          | inr x ↦ rw (e, x) (store_posting-IsKept (job_values py lib p posting w.next_id w.clock))
        ]
      ]

  -- If no two rows of jobs share a hash, none do after a delivery of ingest-job; every row stays with
  -- its id, hash, ingested_at, extracted_at, seniority, requirements, nice-to-haves, skills, document
  -- and embedding, and there is at most one row more. (The arrangement and the pay are not among them:
  -- a refresh sets them from the posting, also where extraction had filled them.)
  pub ingest_posting-IsRefreshed :
      IsUnique w
      → IsUnique (ingest_posting py lib p w).1
        × IsRefreshed w.jobs (ingest_posting py lib p w).1.jobs
  unfolding ingest_posting
  ingest_posting-IsRefreshed one =
      let (unique, refreshed) = ingest_materialized-IsKept (materialize_posting py lib p) in
      (unique one, refreshed)
