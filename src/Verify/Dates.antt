-- ===== src/Verify/Dates.antt =====
-- app/verify/deterministic.py: which dates the work history has, beside `_source_dates`.
use Prim.Native.String.{◌++◌ as append_text}
use job_match_pipeline.Prelude.{
  ◌≡◌, ◌↔◌, inl, inr, Bool, true, ◌||◌, String, List, [], ◌∷◌, ◌++◌, some, elem, elem-append, arith,
  string_eq, not, Bool-cases, Option-cases, if◌then◌else◌,
}
use job_match_pipeline.Prelude.Text.{truthy, strip}
use job_match_pipeline.Db.Rows.{WorkEntry}
use job_match_pipeline.Verify.Patterns.{Patterns}
use job_match_pipeline.Verify.Deterministic.{
  or_empty, date_tokens, range_tokens, entry_dates, source_dates,
}

abbrev pub start_of : WorkEntry → String
start_of e = strip (or_empty e.start_date)

abbrev pub end_of : WorkEntry → String
end_of e = strip (or_empty e.end_date)

-- The role goes on: the entry says so, or has no end.
abbrev pub is_open : WorkEntry → Bool
is_open e = e.is_current || not (truthy (end_of e))

abbrev pub last_of : WorkEntry → String
last_of e = if is_open e then "present" else end_of e

-- The text is the normal form of a date that is not empty, or its year.
pub data IsTokenOf (re : Patterns) (d t : String) : Type 0 where
  whole : truthy d ≡ true → t ≡ re.normalize_label d → IsTokenOf re d t
  year :
      (y : String)
      → truthy d ≡ true
      → re.year d ≡ some y
      → truthy y ≡ true
      → t ≡ y
      → IsTokenOf re d t

pub data Separator : Type 0 where
  en_dash hyphen to_word : Separator

abbrev pub separator_text : Separator → String
separator_text en_dash = " – "
separator_text hyphen = "-"
separator_text to_word = " to "

-- The text is a date of the entry: of its start or its end, a word for an open end, or the two
-- dates with one of the three separators.
pub data IsEntryDate (re : Patterns) (e : WorkEntry) (t : String) : Type 0 where
  start : IsTokenOf re (start_of e) t → IsEntryDate re e t
  end : IsTokenOf re (end_of e) t → IsEntryDate re e t
  open_end : IsTokenOf re (last_of e) t → IsEntryDate re e t
  word : is_open e ≡ true → elem t ("present" ∷ "current" ∷ "now" ∷ []) ≡ true → IsEntryDate re e t
  range :
      (sep : Separator)
      → (truthy (start_of e) || truthy (last_of e)) ≡ true
      → t
        ≡ re.normalize_label
            (append_text (start_of e) (append_text (separator_text sep) (last_of e)))
      → IsEntryDate re e t

elem_left : (x : String) (xs ys : List String) → elem x xs ≡ true → elem x (xs ++ ys) ≡ true
elem_left x xs ys h = ground (arith, elem-append x xs ys, h)

elem_right : (x : String) (xs ys : List String) → elem x ys ≡ true → elem x (xs ++ ys) ≡ true
elem_right x xs ys h = ground (arith, elem-append x xs ys, h)

module _ (re : Patterns) (t : String) where
  tokens-IsTokenOf : (d : String) → elem t (date_tokens re d) ≡ true → IsTokenOf re d t
  tokens-IsTokenOf d h = elim (Bool-cases (truthy d)) [
    | inr empty ↦ absurd (ground arith)
    | inl full ↦ elim (Bool-cases (string_eq.beq t (re.normalize_label d))) [
      | inl same ↦ whole full ((string_eq.beq_iff t _).0 same)
      | inr other ↦ elim (Option-cases (re.year d)) [
        | inl gone ↦ absurd (ground arith)
        | inr (y, given) ↦
            year y full given (ground arith) (ground (arith, (string_eq.beq_iff t y).0))
      ]
    ]
  ]

  IsTokenOf-tokens : (d : String) → IsTokenOf re d t → elem t (date_tokens re d) ≡ true
  IsTokenOf-tokens d (whole full same) =
      ground (arith, (string_eq.beq_iff t (re.normalize_label d)).1 same)
  IsTokenOf-tokens d (year y full given some_year same) =
      ground (arith, (string_eq.beq_iff t y).1 same)

  open_words : WorkEntry → List String
  open_words e = if is_open e then "present" ∷ "current" ∷ "now" ∷ [] else []

  elem-entry_dates :
      (e : WorkEntry)
      → elem t (entry_dates re e) ≡ (
          elem t (date_tokens re (start_of e))
          || (elem t (date_tokens re (end_of e))
              || (elem t (date_tokens re (last_of e))
                  || (elem t (open_words e) || elem t (range_tokens re (start_of e) (last_of e))))))
  unfolding entry_dates open_words
  elem-entry_dates e =
      let a = date_tokens re (start_of e) in
      let b = date_tokens re (end_of e) in
      let c = date_tokens re (last_of e) in
      let d = open_words e in
      let r = range_tokens re (start_of e) (last_of e) in
      cc (
        elem-append t a (b ++ (c ++ (d ++ r))),
        elem-append t b (c ++ (d ++ r)),
        elem-append t c (d ++ r),
        elem-append t d r,
      )

  range-IsEntryDate :
      (e : WorkEntry)
      → elem t (range_tokens re (start_of e) (last_of e)) ≡ true
      → IsEntryDate re e t
  range-IsEntryDate e h =
      let joined : String → String =
        λ sep. re.normalize_label (append_text (start_of e) (append_text sep (last_of e))) in
      elim (Bool-cases (truthy (start_of e) || truthy (last_of e))) [
        | inr empty ↦ absurd (ground arith)
        | inl full ↦ elim (Bool-cases (string_eq.beq t (joined " – "))) [
          | inl same ↦ range en_dash full ((string_eq.beq_iff t _).0 same)
          | inr other ↦ elim (Bool-cases (string_eq.beq t (joined "-"))) [
            | inl same ↦ range hyphen full ((string_eq.beq_iff t _).0 same)
            | inr neither ↦ range to_word full ((string_eq.beq_iff t _).0 (ground arith))
          ]
        ]
      ]

  entry_dates-IsEntryDate : (e : WorkEntry) → elem t (entry_dates re e) ≡ true → IsEntryDate re e t
  unfolding open_words
  entry_dates-IsEntryDate e h = elim (Bool-cases (elem t (date_tokens re (start_of e)))) [
    | inl a ↦ start (tokens-IsTokenOf (start_of e) a)
    | inr na ↦ elim (Bool-cases (elem t (date_tokens re (end_of e)))) [
      | inl b ↦ end (tokens-IsTokenOf (end_of e) b)
      | inr nb ↦ elim (Bool-cases (elem t (date_tokens re (last_of e)))) [
        | inl c ↦ open_end (tokens-IsTokenOf (last_of e) c)
        | inr nc ↦ elim (Bool-cases (elem t (open_words e))) [
          | inl d ↦ word (ground (arith, d)) (ground (arith, d))
          | inr nd ↦ range-IsEntryDate e (ground (arith, elem-entry_dates e))
        ]
      ]
    ]
  ]

  in_words :
      (e : WorkEntry)
      → is_open e ≡ true
      → elem t ("present" ∷ "current" ∷ "now" ∷ []) ≡ true
      → elem t (open_words e) ≡ true
  unfolding open_words
  in_words e still h = rw still h

  in_range :
      (e : WorkEntry) (sep : Separator)
      → (truthy (start_of e) || truthy (last_of e)) ≡ true
      → string_eq.beq t (
          re.normalize_label
            (append_text (start_of e) (append_text (separator_text sep) (last_of e))))
        ≡ true
      → elem t (range_tokens re (start_of e) (last_of e)) ≡ true
  in_range e en_dash full same = ground arith
  in_range e hyphen full same = ground arith
  in_range e to_word full same = ground arith

  IsEntryDate-entry_dates : (e : WorkEntry) → IsEntryDate re e t → elem t (entry_dates re e) ≡ true
  unfolding entry_dates open_words
  IsEntryDate-entry_dates e h =
      let a = date_tokens re (start_of e) in
      let b = date_tokens re (end_of e) in
      let c = date_tokens re (last_of e) in
      let d = open_words e in
      let r = range_tokens re (start_of e) (last_of e) in
      let after_c = elem_right t c (d ++ r) in
      let after_b = elem_right t b (c ++ (d ++ r)) in
      let after_a = elem_right t a (b ++ (c ++ (d ++ r))) in
      elim h [
        | start date ↦ elem_left t a _ (IsTokenOf-tokens _ date)
        | end date ↦ after_a (elem_left t b _ (IsTokenOf-tokens _ date))
        | open_end date ↦ after_a (after_b (elem_left t c _ (IsTokenOf-tokens _ date)))
        | word still i ↦ after_a (after_b (after_c (elem_left t d r (in_words e still i))))
        | range sep full same ↦ after_a (
            after_b
              (after_c (elem_right t d r (in_range e sep full ((string_eq.beq_iff t _).1 same)))))
      ]

-- The text is a date of some entry.
pub data IsSourceDate (re : Patterns) (t : String) : List WorkEntry → Type 0 where
  here : {e : WorkEntry} {es : List WorkEntry} → IsEntryDate re e t → IsSourceDate re t (e ∷ es)
  there : {e : WorkEntry} {es : List WorkEntry} → IsSourceDate re t es → IsSourceDate re t (e ∷ es)

module _ (re : Patterns) (t : String) where
  source_dates-IsSourceDate :
      (es : List WorkEntry) → elem t (source_dates re es) ≡ true → IsSourceDate re t es
  unfolding source_dates
  source_dates-IsSourceDate [] h = absurd (ground arith)
  source_dates-IsSourceDate (e ∷ es) h = elim (Bool-cases (elem t (entry_dates re e))) [
    | inl first ↦ here (entry_dates-IsEntryDate re t e first)
    | inr later ↦ there (
        source_dates-IsSourceDate es
          (ground (arith, elem-append t (entry_dates re e) (source_dates re es))))
  ]

  IsSourceDate-source_dates :
      (es : List WorkEntry) → IsSourceDate re t es → elem t (source_dates re es) ≡ true
  unfolding source_dates
  IsSourceDate-source_dates [] h = elim h [ ]
  IsSourceDate-source_dates (e ∷ es) (here h) =
      elem_left t (entry_dates re e) (source_dates re es) (IsEntryDate-entry_dates re t e h)
  IsSourceDate-source_dates (e ∷ es) (there h) =
      elem_right t (entry_dates re e) (source_dates re es) (IsSourceDate-source_dates es h)

  pub IsSourceDate-iff :
      (es : List WorkEntry) → (elem t (source_dates re es) ≡ true) ↔ IsSourceDate re t es
  IsSourceDate-iff es = (source_dates-IsSourceDate es, IsSourceDate-source_dates es)
