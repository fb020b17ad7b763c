-- ===== src/Ingest/New.antt =====
-- app/ingest/fetch.py: which postings are enqueued.
use mathlib.Core.List.{append_assoc, append-nil}
use job_match_pipeline.Prelude.{
  nat_beq, ◌+◌, ◌≡◌, refl, Bool, true, not, String, List, [], ◌∷◌, ◌++◌, map, elem, elem-keep, keep,
  length, arith, All, All-map, nat_eq, string_eq, if◌then◌else◌, beq_refl, length-keep-not,
}
use job_match_pipeline.Payload.{Uuid, Builtins}
use job_match_pipeline.Db.Rows.{Company, Action}
use job_match_pipeline.Db.Session.{World, Task, QueueName, enqueue, record_pipeline_event}
use job_match_pipeline.Ingest.Url.{hash_url}
use job_match_pipeline.Ingest.Posting.{Posting, IngestLibrary}
use job_match_pipeline.Ingest.Links.{
  Fetched, fetched, FetchRequest, Progress, posting_to_ingest_payload, known_hashes, fetch_one,
  fetch_all, fetch_postings,
}

module _ (lib : IngestLibrary) where
  -- No row of the table has the posting's hash.
  abbrev pub is_new : List String → Posting → Bool
  is_new known p = not (elem (hash_url lib.urls p.url) known)

  abbrev hashes_of : List Posting → List String
  hashes_of ps = map (λ p. hash_url lib.urls p.url) ps

-- The message of a posting.
abbrev pub ingest_task : Builtins → IngestLibrary → Uuid → String → Posting → Task
ingest_task py lib company provider p = record {
  queue_name = QueueName.ingest_job;
  payload = posting_to_ingest_payload py lib company provider p;
}

-- The messages of the new postings, in the board's order.
abbrev pub new_tasks :
    Builtins → IngestLibrary → FetchRequest → Uuid → String → List String → List Posting → List Task
new_tasks py lib r company provider known ps =
    if r.is_enqueuing
    then map (ingest_task py lib company provider) (keep (is_new lib known) ps)
    else []

module _ (py : Builtins) (lib : IngestLibrary) (r : FetchRequest) (company : Uuid)
    (provider : String) where
  module _ (known : List String) where
    enqueued-fetch_all :
        (ps : List Posting) (s : Progress)
        → (fetch_all py lib r company provider known ps s).enqueued
          ≡ s.enqueued + length (keep (is_new lib known) ps)
    unfolding fetch_all fetch_one
    enqueued-fetch_all [] s = omega arith
    enqueued-fetch_all (p ∷ ps) s =
        ground (arith, enqueued-fetch_all ps (fetch_one py lib r company provider known p s))

    skipped-fetch_all :
        (ps : List Posting) (s : Progress)
        → (fetch_all py lib r company provider known ps s).skipped
          ≡ s.skipped + length (keep (λ p. not (is_new lib known p)) ps)
    unfolding fetch_all fetch_one
    skipped-fetch_all [] s = omega arith
    skipped-fetch_all (p ∷ ps) s =
        ground (arith, skipped-fetch_all ps (fetch_one py lib r company provider known p s))

    pending-fetch_all :
        (ps : List Posting) (s : Progress)
        → (fetch_all py lib r company provider known ps s).world.pending
          ≡ s.world.pending ++ new_tasks py lib r company provider known ps
    unfolding fetch_all fetch_one enqueue
    pending-fetch_all [] s = ground (arith, append-nil {A = Task} s.world.pending)
    pending-fetch_all (p ∷ ps) s = ground (
      arith,
      pending-fetch_all ps (fetch_one py lib r company provider known p s),
      append_assoc s.world.pending (ingest_task py lib company provider p ∷ [])
          (new_tasks py lib r company provider known ps),
    )

    jobs-fetch_all :
        (ps : List Posting) (s : Progress)
        → (fetch_all py lib r company provider known ps s).world.jobs ≡ s.world.jobs
    unfolding fetch_all fetch_one enqueue
    jobs-fetch_all [] s = refl
    jobs-fetch_all (p ∷ ps) s =
        ground (arith, jobs-fetch_all ps (fetch_one py lib r company provider known p s))

  fetch_all-same_hashes :
      (a b : List String) (ps : List Posting) (s : Progress)
      → All (λ p. elem (hash_url lib.urls p.url) a ≡ elem (hash_url lib.urls p.url) b) ps
      → fetch_all py lib r company provider a ps s ≡ fetch_all py lib r company provider b ps s
  unfolding fetch_all fetch_one
  fetch_all-same_hashes a b [] s h = refl
  fetch_all-same_hashes a b (p ∷ ps) s h =
      rw h.0 (fetch_all-same_hashes a b ps (fetch_one py lib r company provider b p s) h.1)

  -- A hash of the board is in the table exactly if it is in what the table is asked for.
  existing_hash :
      (known : List String) (all_ps ps : List Posting)
      → All (λ p. elem (hash_url lib.urls p.url) (hashes_of lib all_ps) ≡ true) ps
      → All
          (λ p.
            elem (hash_url lib.urls p.url) (keep (λ h. elem h (hashes_of lib all_ps)) known)
            ≡ elem (hash_url lib.urls p.url) known)
          ps
  existing_hash known all_ps [] h = tt
  existing_hash known all_ps (p ∷ ps) h = (
    ground (
      arith,
      h.0,
      elem-keep (λ x. elem x (hashes_of lib all_ps)) (hash_url lib.urls p.url) known,
    ),
    existing_hash known all_ps ps h.1,
  )

  hashes_there :
      (ps : List Posting) → All (λ p. elem (hash_url lib.urls p.url) (hashes_of lib ps) ≡ true) ps
  hashes_there [] = tt
  hashes_there (p ∷ ps) = (
    ground (arith, beq_refl (hash_url lib.urls p.url)),
    All-map {P = λ q. elem (hash_url lib.urls q.url) (hashes_of lib ps) ≡ true}
        {Q = λ q. elem (hash_url lib.urls q.url) (hashes_of lib (p ∷ ps)) ≡ true}
        (λ q h. ground arith) ps (hashes_there ps),
  )

  fetch_all-known :
      (known : List String) (ps : List Posting) (s : Progress)
      → fetch_all py lib r company provider (keep (λ h. elem h (hashes_of lib ps)) known) ps s
        ≡ fetch_all py lib r company provider known ps s
  fetch_all-known known ps s =
      fetch_all-same_hashes (keep (λ h. elem h (hashes_of lib ps)) known) known ps s
        (existing_hash known ps ps (hashes_there ps))

module _ (py : Builtins) (lib : IngestLibrary) (r : FetchRequest) (company : Company)
    (provider : String) (postings : List Posting) (w : World) where
  abbrev new_postings : List Posting
  new_postings = keep (is_new lib (known_hashes w)) postings

  abbrev old_postings : List Posting
  old_postings = keep (λ p. not (is_new lib (known_hashes w) p)) postings

  -- What the result counts, and what the queue and the table are afterwards.
  pub record IsFetched (after : Fetched × World) : Type 0 where
    pub counted :
        after.0
        ≡ fetched (record {
          company_id = company.id;
          listed_count = length new_postings + length old_postings;
          enqueued = length new_postings;
          skipped_existing = length old_postings;
          action = if nat_beq (length new_postings) 0 then Action.noop else Action.enqueued;
        })
    pub sent :
        after.1.pending
        ≡ w.pending ++ new_tasks py lib r company.id provider (known_hashes w) postings
    pub same_jobs : after.1.jobs ≡ w.jobs

  -- Exactly the postings of a board whose hash no row has are enqueued for ingest-job, each once and in
  -- the board's order (none if the caller does not enqueue); the result counts them as enqueued, the
  -- others as skipped, and both together as listed; the rows of `jobs` stay as they are.
  pub fetch_postings-IsFetched : IsFetched (fetch_postings py lib r company provider postings w)
  unfolding fetch_postings record_pipeline_event
  fetch_postings-IsFetched =
      rw
        (fetch_all-known py lib r company.id provider (known_hashes w) postings
          (record { enqueued = 0; skipped = 0; world = w }))
        (let known = known_hashes w in
          let s : Progress = record { enqueued = 0; skipped = 0; world = w } in
          record {
            counted = ground (
              arith,
              enqueued-fetch_all py lib r company.id provider known postings s,
              skipped-fetch_all py lib r company.id provider known postings s,
              length-keep-not (is_new lib known) postings,
            );
            sent = pending-fetch_all py lib r company.id provider known postings s;
            same_jobs = jobs-fetch_all py lib r company.id provider known postings s;
          })
