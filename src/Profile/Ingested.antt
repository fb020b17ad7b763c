-- ===== src/Profile/Ingested.antt =====
-- ingest_profile of app/profile/service.py: the user's next version.
use job_match_pipeline.Prelude.{
  ◌+◌, ◌≡◌, ◌⊎◌, refl, sym, ap, ◌∙◌, Bool, false, String, Option, none, some, find, keep, length,
  max, nat_eq, ◌==◌, arith, Option-cases, inl, inr,
}
use mathlib.Core.Path.{subst}
use job_match_pipeline.Payload.{Uuid}
use job_match_pipeline.Db.Session.{World, get_user, get_profile}
use job_match_pipeline.Profile.Document.{synthesize_profile_doc}
use job_match_pipeline.Profile.Filters.{derive_default_filters}
use job_match_pipeline.Profile.Service.{
  Try, done, raises, ProfileError, ProfileServices, bundle, IngestResult, store_ingest,
  get_or_create_user, ingest_profile, skills_of, values_of, profile_doc_max_tokens, is_of,
}
use job_match_pipeline.Profile.Versions.{IsNextVersion, version_of, store_ingest-IsNextVersion}

pub Try-cases {ℓ} :
    {A : Type ℓ} (t : Try A) → ((a : A) × (t ≡ done a)) ⊎ ((e : ProfileError) × (t ≡ raises e))
Try-cases (done a) = inl (a, refl)
Try-cases (raises e) = inr (e, refl)

value_or {ℓ} : {A : Type ℓ} → A → Try A → A
value_or a (done b) = b
value_or a (raises e) = a

pub done-injective {ℓ} : {A : Type ℓ} (a b : A) → done a ≡ done b → a ≡ b
unfolding value_or
done-injective a b e = ap (value_or a) e

-- The users are no part of what is said.
IsNextVersion-from :
    (id : Uuid) (w w1 w' : World)
    → w1.profiles ≡ w.profiles
    → w1.filters ≡ w.filters
    → w1.jobs ≡ w.jobs
    → w1.matches ≡ w.matches
    → IsNextVersion id w1 w'
    → IsNextVersion id w w'
unfolding get_profile
IsNextVersion-from id w w1 w' ps fs js ms t = record {
  version = t.version ∙ ap (λ x. version_of (find (is_of id) x) + 1) ps;
  flagged = t.flagged;
  others = λ x other. t.others x other ∙ ap (find (is_of x)) ps;
  filters = t.filters ∙ ap (λ x. max 1 (length (keep (λ f. f.user_id == id) x))) fs;
  jobs = t.jobs ∙ js;
  matches = t.matches ∙ ms;
}

abbrev world_of : Uuid × Bool × World → World
world_of t = t.2

get_or_create_user-tables :
    (s : ProfileServices) (user : Option Uuid) (w : World) (t : Uuid × Bool × World)
    → get_or_create_user s user w ≡ done t
    → ((world_of t).profiles ≡ w.profiles)
      × ((world_of t).filters ≡ w.filters)
      × ((world_of t).jobs ≡ w.jobs)
      × ((world_of t).matches ≡ w.matches)
unfolding get_or_create_user
get_or_create_user-tables s none w t h =
    let same = sym (done-injective _ _ h) in
    (
      ap (λ x. (world_of x).profiles) same,
      ap (λ x. (world_of x).filters) same,
      ap (λ x. (world_of x).jobs) same,
      ap (λ x. (world_of x).matches) same,
    )
get_or_create_user-tables s (some u) w t h = elim (Option-cases (get_user u w)) [
  | inl e ↦ absurd (ground (arith, e, h))
  | inr (r, e) ↦
      let found : done (u, false, w) ≡ done t = ground (arith, e, h) in
      let same = sym (done-injective _ _ found) in
      (
        ap (λ x. (world_of x).profiles) same,
        ap (λ x. (world_of x).filters) same,
        ap (λ x. (world_of x).jobs) same,
        ap (λ x. (world_of x).matches) same,
      )
]

-- A successful ingest gives the profile its next version, the first where there was none, and flags it
-- to be matched again; the user has a row of filters; the profiles of other users, the jobs and the
-- matches are as they were.
pub ingest_profile-IsNextVersion :
    (s : ProfileServices) (text : String) (user : Option Uuid) (w w' : World) (r : IngestResult)
    → ingest_profile s text user w ≡ done (r, w')
    → IsNextVersion r.result.user_id w w'
unfolding ingest_profile store_ingest bundle
ingest_profile-IsNextVersion s text user w w' r h = elim (Try-cases (s.parser text)) [
  | inr (e, p) ↦ absurd (ground (arith, p, h))
  | inl (parsed, p) ↦
      let ids = skills_of s.linker parsed text in
      let doc = synthesize_profile_doc parsed (s.linker.labels_for ids) profile_doc_max_tokens in
      elim (Try-cases (s.embedder doc)) [
        | inr (e, q) ↦ absurd (ground (arith, p, q, h))
        | inl (vector, q) ↦ elim (Try-cases (get_or_create_user s user w)) [
          | inr (e, u) ↦ absurd (ground (arith, p, q, u, h))
          | inl ((id, created, w1), u) ↦
              let v = values_of parsed ids doc vector in
              let f = derive_default_filters s.resume parsed in
              let end : done (store_ingest id created v f w1) ≡ done (r, w') =
                ground (arith, p, q, u, h) in
              let tables = get_or_create_user-tables s user w (id, created, w1) u in
              subst (λ x. IsNextVersion x.0.result.user_id w x.1) (done-injective _ _ end)
                (IsNextVersion-from id w w1 (store_ingest id created v f w1).1 tables.0 tables.1
                  tables.2 tables.3 (store_ingest-IsNextVersion id created v f w1))
        ]
      ]
]
