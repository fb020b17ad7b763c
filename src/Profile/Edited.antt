-- ===== src/Profile/Edited.antt =====
-- edit_profile of app/profile/service.py: what an edit does to the rows of a user.
use job_match_pipeline.Prelude.{
  ◌+◌, ◌≡◌, refl, ap, Bool, true, false, List, [], ◌∷◌, some, find, nat_eq, ◌==◌, arith,
  Option-cases, inl, inr,
}
use job_match_pipeline.Payload.{Uuid, Builtins}
use job_match_pipeline.Db.Rows.{UserProfile}
use job_match_pipeline.Db.Session.{World, get_profile, record_pipeline_event, update}
use job_match_pipeline.Db.Laws.{find-true}
use job_match_pipeline.Profile.Fields.{ResumeLibrary}
use job_match_pipeline.Profile.Service.{done, ProfileBundle, is_of}
use job_match_pipeline.Profile.Edit.{
  Edits, edit_row, finish_edit, edited_embedding, edit_filter, store_edit, edit_profile,
}
use mathlib.Core.Path.{subst}
use job_match_pipeline.Profile.Versions.{
  IsNextVersion, differ, ensure_filter-IsOnlyFilters, changed_filter-count,
}
use job_match_pipeline.Profile.Ingested.{Try-cases, done-injective}

edit_row-next :
    (py : Builtins) (lib : ResumeLibrary) (e : Edits) (p row : UserProfile)
    → edit_row py lib e p ≡ done row
    → (row.profile_version ≡ p.profile_version + 1)
      × (row.rematch_needed ≡ true)
      × (row.user_id ≡ p.user_id)
unfolding edit_row finish_edit edited_embedding
edit_row-next py lib e p row h = ground (arith, h)

module _ {ℓ} {A : Type ℓ} where
  find-replace :
      (p : A → Bool) (row a : A) (xs : List A)
      → p row ≡ true
      → find p xs ≡ some a
      → find p (update p (λ _. row) xs) ≡ some row
  find-replace p row a [] k h = ground (arith, h)
  find-replace p row a (x ∷ xs) k h = ground (arith, k, h, find-replace p row a xs k)

  find-replace_other :
      (q p : A → Bool) (row : A) (xs : List A)
      → q row ≡ false
      → ((x : A) → p x ≡ true → q x ≡ false)
      → find q (update p (λ _. row) xs) ≡ find q xs
  find-replace_other q p row [] k h = refl
  find-replace_other q p row (x ∷ xs) k h =
      ground (arith, k, h x, find-replace_other q p row xs k h)

store_edit-IsNextVersion :
    (id : Uuid) (e : Edits) (p row : UserProfile) (w : World)
    → get_profile id w ≡ some p
    → row.profile_version ≡ p.profile_version + 1
    → row.rematch_needed ≡ true
    → row.user_id ≡ p.user_id
    → IsNextVersion id w (store_edit id e row w).1
unfolding store_edit record_pipeline_event get_profile edit_filter
store_edit-IsNextVersion id e p row w found next flag same =
    let only = ensure_filter-IsOnlyFilters id w in
    let mine : (row.user_id == id) ≡ true = rw same (find-true (is_of id) w.profiles p found) in
    let now = find-replace (is_of id) row p w.profiles mine found in
    record {
      version = rw (only.profiles, now, found) next;
      flagged = rw (only.profiles, now) flag;
      others = λ x other. rw only.profiles (
          find-replace_other (is_of x) (is_of id) row w.profiles
            (ground (arith, mine, nat_eq.beq_iff row.user_id id, differ x id other))
            (λ q h. ground (arith, nat_eq.beq_iff q.user_id id, h, differ x id other)));
      filters = changed_filter-count id w (edit_filter e) (λ g. refl);
      jobs = only.jobs;
      matches = only.matches;
    }

-- A successful edit gives the profile its next version and flags it to be matched again, whatever is
-- edited; the user has a row of filters; the profiles of other users, the jobs and the matches are as
-- they were.
pub edit_profile-IsNextVersion :
    (py : Builtins) (lib : ResumeLibrary) (id : Uuid) (e : Edits) (w w' : World) (b : ProfileBundle)
    → edit_profile py lib id e w ≡ done (b, w')
    → IsNextVersion id w w'
unfolding edit_profile
edit_profile-IsNextVersion py lib id e w w' b h = elim (Option-cases (get_profile id w)) [
  | inl none_there ↦ absurd (ground (arith, none_there, h))
  | inr (p, there) ↦ elim (Try-cases (edit_row py lib e p)) [
    | inr (error, bad) ↦ absurd (ground (arith, there, bad, h))
    | inl (row, good) ↦
        let next = edit_row-next py lib e p row good in
        let end : done (store_edit id e row w) ≡ done (b, w') = ground (arith, there, good, h) in
        subst (λ x. IsNextVersion id w x) (ap (λ t. t.1) (done-injective _ _ end))
          (store_edit-IsNextVersion id e p row w there next.0 next.1 next.2)
  ]
]
