-- ===== src/Profile/Filters.antt =====
-- derive_default_filters of app/profile/filters.py.
use job_match_pipeline.Prelude.{
  String, List, [], ◌∷◌, Option, none, some, map, or_else, if◌then◌else◌,
}
use job_match_pipeline.Prelude.Text.{truthy}
use job_match_pipeline.Payload.{ℤ}
use job_match_pipeline.Profile.Schema.{ParsedResume}
use job_match_pipeline.Profile.Fields.{ResumeLibrary, get_entry}
use job_match_pipeline.Profile.Offline.{infer_title_families}

-- The values of the dict.
pub record DefaultFilters : Type 0 where
  pub title_families : Option (List String)
  pub locations : Option (List String)
  pub comp_floor : Option ℤ
  pub seniority_band : Option String
  pub work_arrangement : Option (List String)

-- _SENIORITY_BANDS
abbrev pub seniority_bands : List (String × String)
seniority_bands =
    ("intern", "intern,junior")
    ∷ ("junior", "junior,mid")
    ∷ ("mid", "mid,senior")
    ∷ ("senior", "mid,senior,staff")
    ∷ ("staff", "senior,staff,principal")
    ∷ ("principal", "staff,principal")
    ∷ ("lead", "senior,lead")
    ∷ []

abbrev pub all_arrangements : List String
all_arrangements = "remote" ∷ "hybrid" ∷ "onsite" ∷ []

-- `values or default`
abbrev pub or_list : List String → List String → List String
or_list [] default = default
or_list (x ∷ xs) default = x ∷ xs

-- `values or None`
abbrev or_none : List String → Option (List String)
or_none [] = none
or_none (x ∷ xs) = some (x ∷ xs)

unfoldable pub band_of : Option String → Option String
unfolding get_entry
band_of none = none
band_of (some s) = if truthy s then some (or_else (get_entry s seniority_bands) s) else none

unfoldable pub derive_default_filters : ResumeLibrary → ParsedResume → DefaultFilters
unfolding band_of infer_title_families
derive_default_filters lib p = record {
  title_families = or_none (
      or_list p.title_families
        (infer_title_families lib [] (map (λ role. role.title) p.work_history)));
  locations = or_none p.locations;
  comp_floor = p.comp_floor;
  seniority_band = band_of p.seniority;
  work_arrangement = some (or_list p.work_arrangement all_arrangements);
}
