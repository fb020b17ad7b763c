-- ===== src/Match/Buckets.antt =====
-- app/match/skills.py: membership and size of the buckets, and the range of the overlap.
use job_match_pipeline.Prelude.{
  ◌+◌, ◌≤◌, ◌<◌, ◌≡◌, refl, false, ◌&&◌, not, String, List, [], ◌∷◌, ◌++◌, Option, map, keep, elem,
  minus, length, arith, string_eq, elem-keep, length-keep-not, length-keep-le, length-append,
  is_empty,
}
use job_match_pipeline.Match.Skills.{
  skill_label, is_adjacent, split_remainder, skill_buckets, jaccard_overlap, distinct,
}

module _ (normalize : String → String) (labels_for : String → Option String) where
  elem-split_remainder :
      (x : String) (ls ids : List String)
      → (elem x (split_remainder normalize labels_for ls ids).0
          ≡ (elem x ids && is_adjacent (skill_label normalize labels_for x) ls))
        × (elem x (split_remainder normalize labels_for ls ids).1
            ≡ (elem x ids && not (is_adjacent (skill_label normalize labels_for x) ls)))
        × (length (split_remainder normalize labels_for ls ids).0
              + length (split_remainder normalize labels_for ls ids).1
            ≡ length ids)
  unfolding split_remainder
  elem-split_remainder x ls [] = (refl, refl, omega arith)
  elem-split_remainder x ls (i ∷ ids) =
      let ih = elem-split_remainder x ls ids in
      (
        ground (arith, ih, string_eq.beq_iff x i),
        ground (arith, ih, string_eq.beq_iff x i),
        ground (arith, ih),
      )

  -- Every skill of the job goes to one bucket: it is matched if the profile has it, adjacent if the
  -- profile lacks it and has a sibling, missing otherwise; no bucket has anything else, and together
  -- they are as long as the job's list.
  pub skill_buckets-divide :
      (job_ids profile_ids : List String) (x : String)
      → let b = skill_buckets normalize labels_for job_ids profile_ids in
        let near =
          is_adjacent
            (skill_label normalize labels_for x)
            (map (skill_label normalize labels_for) profile_ids) in
        (elem x b.matched ≡ (elem x job_ids && elem x profile_ids))
        × (elem x b.adjacent ≡ (elem x job_ids && not (elem x profile_ids) && near))
        × (elem x b.missing ≡ (elem x job_ids && not (elem x profile_ids) && not near))
        × (length b.matched + length b.adjacent + length b.missing ≡ length job_ids)
  unfolding skill_buckets
  skill_buckets-divide job_ids profile_ids x =
      let rest = keep (λ (i : String). not (elem i profile_ids)) job_ids in
      let ls = map (skill_label normalize labels_for) profile_ids in
      let ih = elem-split_remainder x ls rest in
      let outside = elem-keep (λ (i : String). not (elem i profile_ids)) x job_ids in
      let halves = length-keep-not (λ (i : String). elem i profile_ids) job_ids in
      (
        elem-keep (λ i. elem i profile_ids) x job_ids,
        ground (arith, ih, outside),
        ground (arith, ih, outside),
        omega (arith, ih.2, halves),
      )

pos_of_nonempty : (xs : List String) → is_empty xs ≡ false → 0 < length xs
pos_of_nonempty [] h = absurd (ground arith)
pos_of_nonempty (x ∷ xs) h = omega arith

-- The overlap is a ratio between 0 and 1: its denominator is positive, and at least the numerator.
pub jaccard_overlap-ratio :
    (a b : List String)
    → (0 < (jaccard_overlap a b).1) × ((jaccard_overlap a b).0 ≤ (jaccard_overlap a b).1)
unfolding jaccard_overlap
jaccard_overlap-ratio a b =
    let p = distinct b in
    let j = distinct a in
    (
      ground (arith, pos_of_nonempty (j ++ minus p j)),
      ground (arith, length-append {0} j (minus p j), length-keep-le (λ (x : String). elem x p) j),
    )
