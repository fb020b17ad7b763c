-- ===== src/Profile/Selected.antt =====
-- app/profile/service.py with app/match/service.py: an edited profile is in the next dirty cycle.
use job_match_pipeline.Prelude.{
  ℕ, zero, suc, ◌≤◌, ◌≡◌, refl, true, ◌&&◌, ◌||◌, List, [], ◌∷◌, none, arith, take, keep, find,
  elem, length, map, ◌==◌, nat_eq, beq_refl,
}
use job_match_pipeline.Payload.{Uuid, Builtins}
use job_match_pipeline.Db.Rows.{UserProfile}
use job_match_pipeline.Db.Session.{World, get_profile}
use job_match_pipeline.Match.Dirty.{insert_id, sort_ids, select_dirty}
use job_match_pipeline.Profile.Fields.{ResumeLibrary}
use job_match_pipeline.Profile.Service.{done, is_of, ProfileBundle}
use job_match_pipeline.Profile.Versions.{is_flagged}
use job_match_pipeline.Profile.Edit.{Edits, edit_profile}
use job_match_pipeline.Profile.Edited.{edit_profile-IsNextVersion}

elem-insert_id : (x y : Uuid) (ys : List Uuid) → elem x (insert_id y ys) ≡ (x == y || elem x ys)
unfolding insert_id
elem-insert_id x y [] = refl
elem-insert_id x y (z ∷ zs) = ground (arith, elem-insert_id x y zs)

elem-sort_ids : (x : Uuid) (ys : List Uuid) → elem x (sort_ids ys) ≡ elem x ys
unfolding sort_ids
elem-sort_ids x [] = refl
elem-sort_ids x (y ∷ ys) = ground (arith, elem-insert_id x y (sort_ids ys), elem-sort_ids x ys)

length-insert_id : (y : Uuid) (ys : List Uuid) → length (insert_id y ys) ≡ suc (length ys)
unfolding insert_id
length-insert_id y [] = refl
length-insert_id y (z ∷ zs) = ground (arith, length-insert_id y zs)

length-sort_ids : (ys : List Uuid) → length (sort_ids ys) ≡ length ys
unfolding sort_ids
length-sort_ids [] = refl
length-sort_ids (y ∷ ys) = omega (arith, length-insert_id y (sort_ids ys), length-sort_ids ys)

take-all : (n : ℕ) (xs : List Uuid) → length xs ≤ n → take n xs ≡ xs
take-all zero [] h = refl
take-all zero (x ∷ xs) h = absurd (omega (arith, h))
take-all (suc n) [] h = refl
take-all (suc n) (x ∷ xs) h = rw (take-all n xs (omega (arith, h))) refl

-- The users of the flagged profiles.
abbrev flagged_ids : List UserProfile → List Uuid
flagged_ids ps = map (λ p. p.user_id) (keep (λ p. p.rematch_needed && true) ps)

length-flagged_ids : (ps : List UserProfile) → length (flagged_ids ps) ≤ length ps
length-flagged_ids [] = omega arith
length-flagged_ids (p ∷ ps) = ground (arith, length-flagged_ids ps)

elem-flagged_ids :
    (id : Uuid) (ps : List UserProfile)
    → is_flagged (find (is_of id) ps) ≡ true
    → elem id (flagged_ids ps) ≡ true
elem-flagged_ids id [] h = ground (arith, h)
elem-flagged_ids id (p ∷ ps) h =
    ground (arith, h, elem-flagged_ids id ps, nat_eq.beq_iff p.user_id id, beq_refl id)

-- After a successful edit, a dirty cycle for all users whose cap is not below the number of profiles
-- selects the user.
pub edit_profile-is_selected :
    (py : Builtins) (lib : ResumeLibrary) (id : Uuid) (e : Edits) (w w' : World) (b : ProfileBundle)
    (cap : ℕ)
    → edit_profile py lib id e w ≡ done (b, w')
    → length w'.profiles ≤ cap
    → elem id (select_dirty cap none w') ≡ true
unfolding select_dirty get_profile
edit_profile-is_selected py lib id e w w' b cap h enough =
    let next = edit_profile-IsNextVersion py lib id e w w' b h in
    let ids = flagged_ids w'.profiles in
    let few : length (sort_ids ids) ≤ cap =
      omega (arith, enough, length-sort_ids ids, length-flagged_ids w'.profiles) in
    rw (take-all cap (sort_ids ids) few, elem-sort_ids id ids)
      (elem-flagged_ids id w'.profiles next.flagged)
