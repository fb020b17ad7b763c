-- ===== src/Screen/Gate.antt =====
-- app/screen/gate.py: set math on canonical skill ids, and the rank-label disagreement.
use job_match_pipeline.Prelude.{
  Bool, true, false, ◌&&◌, ◌||◌, not, String, List, [], ◌∷◌, ◌++◌, Option, none, some, ℕ, leb,
  length, keep, elem, if◌then◌else◌, string_eq,
}
use job_match_pipeline.Prelude.Text.{truthy}
use job_match_pipeline.Db.Rows.{Score, QualificationLabel}
use job_match_pipeline.Screen.Labels.{is_low_label, is_auto_generate_label}

pub record HardRequirementOverlap : Type 0 where
  pub matched_ids : List String
  pub missing_ids : List String

unfoldable pub missing_count : HardRequirementOverlap → ℕ
missing_count o = length o.missing_ids

-- The first loop: ids that are not empty and not seen before, in order.
unfoldable pub collect_required : List String → List String → List String → List String
collect_required seen required [] = required
collect_required seen required (skill_id ∷ ids) =
    let skip = not (truthy skill_id) || elem skill_id seen in
    collect_required (if skip then seen else skill_id ∷ seen)
      (if skip then required else required ++ skill_id ∷ []) ids

unfoldable pub hard_requirement_overlap : List String → List String → HardRequirementOverlap
unfolding collect_required
hard_requirement_overlap required_ids profile_ids =
    let required = collect_required [] [] required_ids in
    let profile = keep truthy profile_ids in
    record {
      matched_ids = keep (λ skill_id. elem skill_id profile) required;
      missing_ids = keep (λ skill_id. not (elem skill_id profile)) required;
    }

-- `high` and `low` are the settings' thresholds.
unfoldable pub is_rank_label_disagreement : Option Score → QualificationLabel → Score → Score → Bool
is_rank_label_disagreement none label high low = false
is_rank_label_disagreement (some score) label high low =
    if leb high score && is_low_label label
    then true
    else if leb score low && is_auto_generate_label label
    then true
    else false
