-- ===== src/Screen/Overlap.antt =====
-- app/screen/gate.py: membership and size of the overlap.
use job_match_pipeline.Prelude.{
  ◌+◌, ◌≡◌, refl, false, ◌&&◌, ◌||◌, not, String, List, [], ◌∷◌, ◌++◌, arith, length, keep, elem,
  string_eq, elem-append, elem-keep, IsDistinct, IsDistinct-keep, length-keep-not, Bool-cases, inl,
  inr,
}
use job_match_pipeline.Prelude.Text.{truthy}
use job_match_pipeline.Screen.Gate.{collect_required, hard_requirement_overlap, missing_count}

elem-collect_required :
    (x : String) (seen required ids : List String)
    → elem x (collect_required seen required ids)
      ≡ (elem x required || (elem x ids && truthy x && not (elem x seen)))
unfolding collect_required
elem-collect_required x seen required [] = ground arith
elem-collect_required x seen required (i ∷ ids) = ground (
  arith,
  elem-collect_required x seen required ids,
  elem-collect_required x (i ∷ seen) (required ++ i ∷ []) ids,
  elem-append x required (i ∷ []),
  string_eq.beq_iff x i,
)

IsDistinct-snoc :
    (i : String) (xs : List String) → IsDistinct xs → elem i xs ≡ false → IsDistinct (xs ++ i ∷ [])
IsDistinct-snoc i [] h e = (refl, tt)
IsDistinct-snoc i (x ∷ xs) h e = ground (
  arith,
  IsDistinct-snoc i xs,
  elem-append x xs (i ∷ []),
  string_eq.beq_iff x i,
  string_eq.beq_iff i x,
)

-- The loop keeps `required` distinct while `seen` holds what it has collected.
IsDistinct-collect_required :
    (seen required ids : List String)
    → ((x : String) → elem x seen ≡ elem x required)
    → IsDistinct required
    → IsDistinct (collect_required seen required ids)
unfolding collect_required
IsDistinct-collect_required seen required [] same d = d
IsDistinct-collect_required seen required (i ∷ ids) same d =
    elim (Bool-cases (not (truthy i) || elem i seen)) [
      | inl skip ↦ rw skip (IsDistinct-collect_required seen required ids same d)
      | inr new ↦ rw new (
          IsDistinct-collect_required (i ∷ seen) (required ++ i ∷ []) ids
            (λ x. ground (arith, same x, elem-append x required (i ∷ [])))
            (IsDistinct-snoc i required d (ground (arith, same i))))
    ]

-- An id is matched exactly when it is required, not empty, and one of the profile's; it is missing
-- exactly when it is required, not empty, and none of the profile's.
pub elem-hard_requirement_overlap :
    (required_ids profile_ids : List String) (x : String)
    → let o = hard_requirement_overlap required_ids profile_ids in
      (elem x o.matched_ids ≡ (elem x required_ids && truthy x && elem x profile_ids))
      × (elem x o.missing_ids ≡ (elem x required_ids && truthy x && not (elem x profile_ids)))
unfolding hard_requirement_overlap
elem-hard_requirement_overlap required_ids profile_ids x =
    let required = collect_required [] [] required_ids in
    let profile = keep truthy profile_ids in
    let known = elem-collect_required x [] [] required_ids in
    let own = elem-keep truthy x profile_ids in
    (
      ground (arith, elem-keep (λ (i : String). elem i profile) x required, known, own),
      ground (arith, elem-keep (λ (i : String). not (elem i profile)) x required, known, own),
    )

-- Neither list of the overlap has an id twice, and the two together have as many ids as there are
-- distinct ids, not empty, in the requirements.
pub hard_requirement_overlap-IsDistinct :
    (required_ids profile_ids : List String)
    → let o = hard_requirement_overlap required_ids profile_ids in
      IsDistinct o.matched_ids
      × IsDistinct o.missing_ids
      × (length o.matched_ids + missing_count o ≡ length (collect_required [] [] required_ids))
unfolding hard_requirement_overlap missing_count
hard_requirement_overlap-IsDistinct required_ids profile_ids = (
  IsDistinct-keep _ (collect_required [] [] required_ids)
      (IsDistinct-collect_required [] [] required_ids (λ x. refl) tt),
  IsDistinct-keep _ (collect_required [] [] required_ids)
      (IsDistinct-collect_required [] [] required_ids (λ x. refl) tt),
  length-keep-not _ (collect_required [] [] required_ids),
)
