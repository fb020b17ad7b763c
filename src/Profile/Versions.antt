-- ===== src/Profile/Versions.antt =====
-- app/profile/service.py: what an ingest does to the rows of a user.
use job_match_pipeline.Prelude.{
  ℕ, ◌+◌, ◌≤◌, ◌≡◌, ◌≢◌, refl, sym, ap, ◌∙◌, Bool, true, false, List, [], ◌∷◌, ◌++◌, Option, none,
  some, find, keep, length, max, nat_eq, beq_ne, beq_refl, ◌==◌, arith, Option-cases, inl, inr,
  length-append, keep-append,
}
use job_match_pipeline.Payload.{Uuid}
use job_match_pipeline.Db.Rows.{UserProfile, UserFilter}
use job_match_pipeline.Db.Session.{World, get_profile, record_pipeline_event, update}
use job_match_pipeline.Db.Laws.{find-update, find-update_ne, find-append_none, count-update}
use job_match_pipeline.Profile.Filters.{DefaultFilters}
use job_match_pipeline.Profile.Service.{
  ProfileValues, bump, write_profile, get_filter, ensure_filter, upsert_filters, store_ingest,
  is_of, new_profile, empty_filter, set_filter,
}

-- The version of a user without a profile is 0.
abbrev pub version_of : Option UserProfile → ℕ
version_of none = 0
version_of (some p) = p.profile_version

abbrev pub is_flagged : Option UserProfile → Bool
is_flagged none = false
is_flagged (some p) = p.rematch_needed

abbrev pub filter_count : Uuid → World → ℕ
filter_count id w = length (keep (λ f. f.user_id == id) w.filters)

-- The user's profile has its next version and is to be matched again, the profiles of the others are
-- as before, the user has a row of filters and no more of them than before, and no job or match is
-- touched.
pub record IsNextVersion (id : Uuid) (w w' : World) : Type 0 where
  pub version : version_of (get_profile id w') ≡ version_of (get_profile id w) + 1
  pub flagged : is_flagged (get_profile id w') ≡ true
  pub others : (x : Uuid) → x ≢ id → get_profile x w' ≡ get_profile x w
  pub filters : filter_count id w' ≡ max 1 (filter_count id w)
  pub jobs : w'.jobs ≡ w.jobs
  pub matches : w'.matches ≡ w.matches

find-append_other {ℓ} :
    {A : Type ℓ} (p : A → Bool) (xs : List A) (y : A)
    → p y ≡ false
    → find p (xs ++ y ∷ []) ≡ find p xs
find-append_other p [] y h = ground (arith, h)
find-append_other p (x ∷ xs) y h = ground (arith, find-append_other p xs y h)

pub differ : (x id : Uuid) → x ≢ id → (id == x) ≡ false
differ x id h = beq_ne id x (λ e. h (sym e))

module _ (id : Uuid) (v : ProfileValues) (w : World) where
  write_profile-own :
      (version_of (get_profile id (write_profile id v w)) ≡ version_of (get_profile id w) + 1)
      × (is_flagged (get_profile id (write_profile id v w)) ≡ true)
  unfolding write_profile get_profile bump
  write_profile-own = elim (Option-cases (get_profile id w)) [
    | inl e ↦
        let found = find-append_none (is_of id) w.profiles (new_profile id v ∷ []) e in
        ground (arith, e, found, beq_refl id)
    | inr (p, e) ↦
        let found = find-update (is_of id) (bump v) w.profiles (λ q. refl) in
        ground (arith, e, found)
  ]

  write_profile-others :
      (x : Uuid) → x ≢ id → get_profile x (write_profile id v w) ≡ get_profile x w
  unfolding write_profile get_profile bump
  write_profile-others x other = elim (Option-cases (get_profile id w)) [
    | inl e ↦
        ground
          (arith, e, find-append_other (is_of x) w.profiles (new_profile id v) (differ x id other))
    | inr (p, e) ↦
        let same =
          find-update_ne (is_of x) (is_of id) (bump v) w.profiles (λ q. refl)
            (λ q h. ground (arith, nat_eq.beq_iff q.user_id id, h, differ x id other)) in
        ground (arith, e, same)
  ]

count-none {ℓ} :
    {A : Type ℓ} (p : A → Bool) (xs : List A) → find p xs ≡ none → length (keep p xs) ≡ 0
count-none p [] h = refl
count-none p (x ∷ xs) h = ground (arith, h, count-none p xs)

count-some {ℓ} :
    {A : Type ℓ} (p : A → Bool) (xs : List A) (a : A) → find p xs ≡ some a → 1 ≤ length (keep p xs)
count-some p [] a h = ground (arith, h)
count-some p (x ∷ xs) a h = ground (arith, h, count-some p xs a)

-- An added row of filters leaves the other tables.
pub record IsOnlyFilters (w w' : World) : Type 0 where
  pub profiles : w'.profiles ≡ w.profiles
  pub jobs : w'.jobs ≡ w.jobs
  pub matches : w'.matches ≡ w.matches

module _ (id : Uuid) (w : World) where
  abbrev of_user : UserFilter → Bool
  of_user f = f.user_id == id

  pub ensure_filter-IsOnlyFilters : IsOnlyFilters w (ensure_filter id w)
  unfolding ensure_filter
  ensure_filter-IsOnlyFilters = record {
    profiles = ground arith;
    jobs = ground arith;
    matches = ground arith;
  }

  ensure_filter-count : filter_count id (ensure_filter id w) ≡ max 1 (filter_count id w)
  unfolding ensure_filter get_filter
  ensure_filter-count = elim (Option-cases (get_filter id w)) [
    | inl e ↦
        let empty = count-none of_user w.filters e in
        let more = keep-append of_user w.filters (empty_filter id ∷ []) in
        let sum = length-append (keep of_user w.filters) (keep of_user (empty_filter id ∷ [])) in
        ground (arith, e, empty, more, sum, beq_refl id)
    | inr (f, e) ↦ ground (arith, e, count-some of_user w.filters f e)
  ]

  pub changed_filter-count :
      (g : UserFilter → UserFilter)
      → ((f : UserFilter) → of_user (g f) ≡ of_user f)
      → length (keep of_user (update of_user g (ensure_filter id w).filters))
        ≡ max 1 (filter_count id w)
  changed_filter-count g h =
      count-update of_user of_user g (ensure_filter id w).filters h ∙ ensure_filter-count

write_profile-filters :
    (id : Uuid) (v : ProfileValues) (w : World) → (write_profile id v w).filters ≡ w.filters
unfolding write_profile
write_profile-filters id v w = ground arith

write_profile-jobs :
    (id : Uuid) (v : ProfileValues) (w : World) → (write_profile id v w).jobs ≡ w.jobs
unfolding write_profile
write_profile-jobs id v w = ground arith

write_profile-matches :
    (id : Uuid) (v : ProfileValues) (w : World) → (write_profile id v w).matches ≡ w.matches
unfolding write_profile
write_profile-matches id v w = ground arith

pub store_ingest-IsNextVersion :
    (id : Uuid) (created : Bool) (v : ProfileValues) (f : DefaultFilters) (w : World)
    → IsNextVersion id w (store_ingest id created v f w).1
unfolding store_ingest upsert_filters record_pipeline_event get_profile
store_ingest-IsNextVersion id created v f w =
    let w1 = write_profile id v w in
    let own = write_profile-own id v w in
    let only = ensure_filter-IsOnlyFilters id w1 in
    record {
      version = rw only.profiles own.0;
      flagged = rw only.profiles own.1;
      others = λ x other. rw only.profiles (write_profile-others id v w x other);
      filters =
          changed_filter-count id w1 (set_filter f) (λ g. refl)
          ∙ ap (λ fs. max 1 (length (keep (of_user id w) fs))) (write_profile-filters id v w);
      jobs = only.jobs ∙ write_profile-jobs id v w;
      matches = only.matches ∙ write_profile-matches id v w;
    }
