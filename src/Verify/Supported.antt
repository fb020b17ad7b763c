-- ===== src/Verify/Supported.antt =====
-- app/verify/deterministic.py: which names and dates the work history supports, beside the checks.
use job_match_pipeline.Prelude.{
  ◌≡◌, refl, ◌↔◌, ◌⊎◌, inl, inr, true, false, ◌&&◌, ◌||◌, not, String, List, [], ◌∷◌, ◌++◌, map,
  all, Option, some, elem, All, arith, string_eq, Bool-cases, Option-cases, is_empty,
}
use job_match_pipeline.Prelude.Text.{truthy}
use job_match_pipeline.Db.Rows.{WorkEntry}
use job_match_pipeline.Verify.Patterns.{Patterns}
use job_match_pipeline.Verify.Dates.{IsSourceDate, IsSourceDate-iff}
use job_match_pipeline.Verify.Deterministic.{
  if_truthy, normalize_employer, source_employers, source_titles, source_dates, date_in_source,
  has_year,
}

-- Some entry has, in a field, a text that is not empty and has the name's normal form.
pub data IsNamedBy (normal : String → String) (field : WorkEntry → Option String) (name : String)
    : List WorkEntry → Type 0 where
  here :
      {e : WorkEntry} {es : List WorkEntry} (n : String)
      → field e ≡ some n
      → truthy n ≡ true
      → normal name ≡ normal n
      → IsNamedBy normal field name (e ∷ es)
  there :
      {e : WorkEntry} {es : List WorkEntry}
      → IsNamedBy normal field name es
      → IsNamedBy normal field name (e ∷ es)

module _ (normal : String → String) (field : WorkEntry → Option String) (name : String) where
  abbrev collected : List WorkEntry → List String
  collected [] = []
  collected (e ∷ es) = map normal (if_truthy (field e)) ++ collected es

  collected-IsNamedBy :
      (es : List WorkEntry)
      → elem (normal name) (collected es) ≡ true
      → IsNamedBy normal field name es
  collected-IsNamedBy [] h = absurd (ground arith)
  collected-IsNamedBy (e ∷ es) h = elim (Option-cases (field e)) [
    | inl gone ↦ there (collected-IsNamedBy es (ground arith))
    | inr (n, given) ↦ elim (Bool-cases (truthy n)) [
      | inl full ↦ elim (Bool-cases (string_eq.beq (normal name) (normal n))) [
        | inl same ↦ here n given full ((string_eq.beq_iff (normal name) (normal n)).0 same)
        | inr other ↦ there (collected-IsNamedBy es (ground arith))
      ]
      | inr empty ↦ there (collected-IsNamedBy es (ground arith))
    ]
  ]

  IsNamedBy-collected :
      {es : List WorkEntry}
      → IsNamedBy normal field name es
      → elem (normal name) (collected es) ≡ true
  IsNamedBy-collected (here n given full same) =
      ground (arith, (string_eq.beq_iff (normal name) (normal n)).1 same)
  IsNamedBy-collected (there h) = ground (arith, IsNamedBy-collected h)

module _ (re : Patterns) where
  -- The text is an employer of some entry.
  abbrev pub IsEmployerOf : List WorkEntry → String → Type 0
  IsEmployerOf es name = IsNamedBy (normalize_employer re) (λ e. e.employer) name es

  abbrev pub IsTitleOf : List WorkEntry → String → Type 0
  IsTitleOf es name = IsNamedBy re.normalize_label (λ e. e.title) name es

  source_employers-collected :
      (name : String) (es : List WorkEntry)
      → source_employers re es ≡ collected (normalize_employer re) (λ e. e.employer) name es
  unfolding source_employers
  source_employers-collected name [] = refl
  source_employers-collected name (e ∷ es) = ground (arith, source_employers-collected name es)

  source_titles-collected :
      (name : String) (es : List WorkEntry)
      → source_titles re es ≡ collected re.normalize_label (λ e. e.title) name es
  unfolding source_titles
  source_titles-collected name [] = refl
  source_titles-collected name (e ∷ es) = ground (arith, source_titles-collected name es)

  pub IsEmployerOf-iff :
      (es : List WorkEntry) (name : String)
      → (elem (normalize_employer re name) (source_employers re es) ≡ true) ↔ IsEmployerOf es name
  IsEmployerOf-iff es name = rw (source_employers-collected name es) (
    collected-IsNamedBy (normalize_employer re) (λ e. e.employer) name es,
    IsNamedBy-collected (normalize_employer re) (λ e. e.employer) name,
  )

  pub IsTitleOf-iff :
      (es : List WorkEntry) (name : String)
      → (elem (re.normalize_label name) (source_titles re es) ≡ true) ↔ IsTitleOf es name
  IsTitleOf-iff es name = rw (source_titles-collected name es) (
    collected-IsNamedBy re.normalize_label (λ e. e.title) name es,
    IsNamedBy-collected re.normalize_label (λ e. e.title) name,
  )

-- The ways in which a date range is supported by the history: its normal form is a date of some entry,
-- or its first year is, or it has parts, each of which is one or is empty.
pub data IsDateOf (re : Patterns) (history : List WorkEntry) (d : String) : Type 0 where
  listed : IsSourceDate re (re.normalize_label d) history → IsDateOf re history d
  by_year :
      (y : String)
      → re.year d ≡ some y
      → truthy y ≡ true
      → IsSourceDate re y history
      → IsDateOf re history d
  by_parts :
      (p : String) (ps : List String)
      → re.date_parts (re.normalize_label d) ≡ p ∷ ps
      → All (λ q. (truthy q ≡ false) ⊎ IsSourceDate re q history) (p ∷ ps)
      → IsDateOf re history d

module _ (re : Patterns) (history : List WorkEntry) where
  abbrev source : List String
  source = source_dates re history

  all-parts :
      (ps : List String)
      → (all (λ part. not (truthy part) || elem part source) ps ≡ true)
        ↔ All (λ q. (truthy q ≡ false) ⊎ IsSourceDate re q history) ps
  all-parts [] = (λ h. tt, λ h. refl)
  all-parts (p ∷ ps) =
      let (to, from) = all-parts ps in
      (
        λ h. elim (Bool-cases (truthy p)) [
          | inl full ↦ (inr ((IsSourceDate-iff re p history).0 (ground arith)), to (ground arith))
          | inr empty ↦ (inl empty, to (ground arith))
        ],
        λ h. elim h.0 [
          | inl empty ↦ ground (arith, empty, from h.1)
          | inr found ↦ ground (arith, (IsSourceDate-iff re p history).1 found, from h.1)
        ],
      )

  by_first_year : (d : String) → has_year source (re.year d) ≡ true → IsDateOf re history d
  by_first_year d h = elim (Option-cases (re.year d)) [
    | inl gone ↦ absurd (ground arith)
    | inr (y, given) ↦
        by_year y given (ground arith) ((IsSourceDate-iff re y history).0 (ground arith))
  ]

  by_each_part :
      (d : String) (ps : List String)
      → re.date_parts (re.normalize_label d) ≡ ps
      → (not (is_empty ps) && all (λ part. not (truthy part) || elem part source) ps) ≡ true
      → IsDateOf re history d
  by_each_part d [] e h = absurd (ground arith)
  by_each_part d (p ∷ ps) e h = by_parts p ps e ((all-parts (p ∷ ps)).0 (ground arith))

  date_in_source-IsDateOf : (d : String) → date_in_source re d source ≡ true → IsDateOf re history d
  unfolding date_in_source
  date_in_source-IsDateOf d h = elim (Bool-cases (elem (re.normalize_label d) source)) [
    | inl found ↦ listed ((IsSourceDate-iff re (re.normalize_label d) history).0 found)
    | inr lost ↦ elim (Bool-cases (has_year source (re.year d))) [
      | inl found ↦ by_first_year d found
      | inr other ↦ by_each_part d (re.date_parts (re.normalize_label d)) refl (ground arith)
    ]
  ]

  IsDateOf-date_in_source : (d : String) → IsDateOf re history d → date_in_source re d source ≡ true
  unfolding date_in_source
  IsDateOf-date_in_source d (listed found) =
      ground (arith, (IsSourceDate-iff re (re.normalize_label d) history).1 found)
  IsDateOf-date_in_source d (by_year y e full found) =
      ground (arith, (IsSourceDate-iff re y history).1 found)
  IsDateOf-date_in_source d (by_parts p ps e h) = ground (arith, (all-parts (p ∷ ps)).1 h)

  pub IsDateOf_iff : (d : String) → (date_in_source re d source ≡ true) ↔ IsDateOf re history d
  IsDateOf_iff d = (date_in_source-IsDateOf d, IsDateOf-date_in_source d)
