-- ===== src/Match/Dirty.antt =====
-- app/match/service.py: the users of a dirty cycle, and the end of their flags.
use job_match_pipeline.Prelude.{
  ℕ, ◌≤◌, ◌≡◌, refl, Bool, true, false, ◌&&◌, not, List, [], ◌∷◌, Option, none, some, arith, take,
  keep, any, elem, length, length-take, map, leb, if◌then◌else◌, ◌==◌, nat_eq,
}
use job_match_pipeline.Payload.{Uuid}
use job_match_pipeline.Db.Rows.{UserProfile}
use job_match_pipeline.Db.Session.{World, update}

-- `UserProfile.user_id.in_(requested)`, where the payload names users.
abbrev is_asked : Option (List Uuid) → Uuid → Bool
is_asked none user = true
is_asked (some ids) user = elem user ids

-- `ORDER BY user_id`
unfoldable pub insert_id : Uuid → List Uuid → List Uuid
insert_id x [] = x ∷ []
insert_id x (y ∷ ys) = let rest = insert_id x ys in if leb x y then x ∷ y ∷ ys else y ∷ rest

unfoldable pub sort_ids : List Uuid → List Uuid
unfolding insert_id
sort_ids [] = []
sort_ids (x ∷ xs) = insert_id x (sort_ids xs)

-- `_select_user_ids` in mode dirty.
unfoldable pub select_dirty : ℕ → Option (List Uuid) → World → List Uuid
unfolding sort_ids
select_dirty cap requested w = take cap (
    sort_ids (
      map (λ p. p.user_id)
        (keep (λ p. p.rematch_needed && is_asked requested p.user_id) w.profiles)))

-- The UPDATE at the end of a dirty cycle.
abbrev is_cleared : List Uuid → UserProfile → Bool
is_cleared user_ids p = elem p.user_id user_ids && p.rematch_needed

abbrev clear : UserProfile → UserProfile
clear p = record p { rematch_needed = false }

unfoldable pub clear_rematch : List Uuid → World → World
clear_rematch user_ids w = record w { profiles = update (is_cleared user_ids) clear w.profiles }

-- The user is still to be matched again.
abbrev pub is_dirty_in : Uuid → List UserProfile → Bool
is_dirty_in x ps = any (λ p. p.user_id == x && p.rematch_needed) ps

abbrev pub is_dirty : Uuid → World → Bool
is_dirty x w = is_dirty_in x w.profiles

elem_same : (x y : Uuid) (ids : List Uuid) → (y == x) ≡ true → elem y ids ≡ elem x ids
elem_same x y ids h = rw ((nat_eq.beq_iff y x).0 h) refl

is_dirty_in-update :
    (ids : List Uuid) (x : Uuid) (ps : List UserProfile)
    → is_dirty_in x (update (is_cleared ids) clear ps) ≡ (is_dirty_in x ps && not (elem x ids))
is_dirty_in-update ids x [] = refl
is_dirty_in-update ids x (p ∷ ps) =
    ground (arith, elem_same x p.user_id ids, is_dirty_in-update ids x ps)

pub clear_rematch-is_dirty :
    (ids : List Uuid) (x : Uuid) (w : World)
    → is_dirty x (clear_rematch ids w) ≡ (is_dirty x w && not (elem x ids))
unfolding clear_rematch
clear_rematch-is_dirty ids x w = is_dirty_in-update ids x w.profiles

-- The users of a dirty cycle are at most the cap, and after its end exactly they have lost their
-- flags: a user is still flagged just if it was and was not selected.
pub clear_rematch-select_dirty :
    (cap : ℕ) (requested : Option (List Uuid)) (w : World) (x : Uuid)
    → let ids = select_dirty cap requested w in
      (length ids ≤ cap) × (is_dirty x (clear_rematch ids w) ≡ (is_dirty x w && not (elem x ids)))
unfolding clear_rematch select_dirty
clear_rematch-select_dirty cap requested w x = (
  omega (arith, length-take cap (sort_ids _)),
  is_dirty_in-update (select_dirty cap requested w) x w.profiles,
)
