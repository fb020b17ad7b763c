-- ===== src/Match/Skills.antt =====
-- app/match/skills.py: overlap of skill sets, and matched, adjacent and missing skills.
use Prim.Native.Char.{code}
use job_match_pipeline.Prelude.{
  ℕ, Bool, ◌&&◌, ◌||◌, not, String, List, [], ◌∷◌, ◌++◌, Option, none, some, map, any, keep, elem,
  minus, is_empty, length, if◌then◌else◌, ◌==◌, string_eq, nat_eq, ◌≡◌, refl,
}
use text.Mathlib.Text.{starts_with}
use job_match_pipeline.Prelude.Text.{truthy}

-- `_SIBLING_LABEL_GROUPS`
abbrev sibling_label_groups : List (List String)
sibling_label_groups =
    ("amazon web services" ∷ "google cloud platform" ∷ "microsoft azure" ∷ [])
    ∷ ("terraform" ∷ "aws cloudformation" ∷ "cloudformation" ∷ "ansible" ∷ [])
    ∷ ("docker" ∷ "kubernetes" ∷ "helm" ∷ [])
    ∷ ("postgresql" ∷ "mysql" ∷ "sqlite" ∷ "sql" ∷ [])
    ∷ ("react" ∷ "vue.js" ∷ "angular" ∷ [])
    ∷ ("django" ∷ "flask" ∷ "fastapi" ∷ [])
    ∷ ("pytorch" ∷ "tensorflow" ∷ "scikit-learn" ∷ [])
    ∷ []

-- `split(":", 1)[1].replace("-", " ")`
spaced : String → String
spaced String.[] = ""
spaced (String.◌∷◌ c s) = String.◌∷◌ (if code c == b'-' then " " else c) (spaced s)

after_colon : String → String
after_colon String.[] = ""
after_colon (String.◌∷◌ c s) = let rest = after_colon s in if code c == b':' then s else rest

unfoldable pub fallback_label : String → String
unfolding spaced after_colon
fallback_label skill_id =
    if starts_with skill_id "seed:" || starts_with skill_id "esco:"
    then spaced (after_colon skill_id)
    else skill_id

falls_back : fallback_label "seed:vue-js" ≡ "vue js"
unfolding fallback_label
falls_back = refl

-- `_is_adjacent`: a sibling group has the job's label and another label of the profile.
unfoldable pub is_adjacent : String → List String → Bool
is_adjacent job_label profile_labels =
    truthy job_label
    && any
        (λ group.
          elem job_label group
          && not (is_empty (keep (λ l. elem l group && not (l == job_label)) profile_labels)))
        sibling_label_groups

pub record SkillBuckets : Type 0 where
  pub matched : List String
  pub adjacent : List String
  pub missing : List String

-- `labels_for` maps a skill id to its preferred label; `normalize` is normalize_label.
module _ (normalize : String → String) (labels_for : String → Option String) where
  -- `labels.get(skill_id) or _fallback_label(skill_id)`
  abbrev label_or : String → Option String → String
  label_or skill_id none = fallback_label skill_id
  label_or skill_id (some l) = if truthy l then l else fallback_label skill_id

  unfoldable pub skill_label : String → String
  skill_label skill_id = normalize (label_or skill_id (labels_for skill_id))

  -- The loop over the remainder.
  unfoldable pub split_remainder : List String → List String → List String × List String
  split_remainder profile_labels [] = ([], [])
  split_remainder profile_labels (skill_id ∷ rest) =
      let (adjacent, missing) = split_remainder profile_labels rest in
      if is_adjacent (skill_label skill_id) profile_labels
      then (skill_id ∷ adjacent, missing)
      else (adjacent, skill_id ∷ missing)

  unfoldable pub skill_buckets : List String → List String → SkillBuckets
  skill_buckets job_ids profile_ids =
      let (adjacent, missing) =
        split_remainder (map skill_label profile_ids)
          (keep (λ skill_id. not (elem skill_id profile_ids)) job_ids) in
      record {
        matched = keep (λ skill_id. elem skill_id profile_ids) job_ids;
        adjacent = adjacent;
        missing = missing;
      }

-- The elements of a set, each once.
unfoldable pub distinct : List String → List String
distinct [] = []
distinct (x ∷ xs) = let rest = distinct xs in if elem x xs then rest else x ∷ rest

-- `jaccard_overlap` before the division: the sizes of the intersection and of the union. Two empty
-- sets have the overlap 0.0, here 0 of 1.
unfoldable pub jaccard_overlap : List String → List String → ℕ × ℕ
unfolding distinct
jaccard_overlap job_skill_ids profile_skill_ids =
    let job_set = distinct job_skill_ids in
    let profile_set = distinct profile_skill_ids in
    let union = job_set ++ minus profile_set job_set in
    if is_empty union
    then (0, 1)
    else (length (keep (λ x. elem x profile_set) job_set), length union)
