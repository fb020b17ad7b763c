-- ===== src/Verify/Deterministic.antt =====
-- app/verify/deterministic.py: stage 1, which needs no model.
use Prim.Native.Char.{Char, code}
use Prim.Native.String.{◌++◌ as append_text}
use job_match_pipeline.Prelude.{
  Bool, true, false, ◌&&◌, ◌||◌, not, String, List, [], ◌∷◌, ◌++◌, Option, none, some, map, elem,
  minus, keep, all, is_empty, if◌then◌else◌, ◌==◌, string_eq, nat_eq, ◌≡◌, refl,
}
use job_match_pipeline.Prelude.Text.{truthy, strip, is_space}
use job_match_pipeline.Db.Rows.{WorkEntry}
use job_match_pipeline.Generate.Schema.{
  Claim, ClaimKind, ClaimSourceMap, employer, title, date_range, skill, number, accomplishment,
}
use job_match_pipeline.Verify.Patterns.{Patterns, Linker}

pub data FailureCode : Type 0 where
  unknown_employer unknown_title unknown_date_range fabricated_number out_of_set_skill : FailureCode

abbrev code_text : FailureCode → String
code_text unknown_employer = "unknown_employer"
code_text unknown_title = "unknown_title"
code_text unknown_date_range = "unknown_date_range"
code_text fabricated_number = "fabricated_number"
code_text out_of_set_skill = "out_of_set_skill"

abbrev detail : FailureCode → String
detail unknown_employer = "employer is not in the source work-history set"
detail unknown_title = "title is not in the source work-history set"
detail unknown_date_range = "date range is not in the source work-history set"
detail fabricated_number = "a number in the resume does not exist in the source work history"
detail out_of_set_skill = "a canonical skill in the output is not in the user's linked set"

-- `DeterministicFailure.named`; the detail goes with the code.
unfoldable pub named : FailureCode → String
named c = append_text (code_text c) (append_text ": " (detail c))

-- `str(value or "")`
abbrev pub or_empty : Option String → String
or_empty none = ""
or_empty (some s) = s

-- `[value] if value else []`
abbrev pub if_truthy : Option String → List String
if_truthy none = []
if_truthy (some s) = if truthy s then s ∷ [] else []

-- The texts of the claims of one kind.
abbrev pub is_kind : ClaimKind → ClaimKind → Bool
is_kind employer employer = true
is_kind title title = true
is_kind date_range date_range = true
is_kind skill skill = true
is_kind number number = true
is_kind accomplishment accomplishment = true
is_kind _ _ = false

abbrev pub claim_texts : ClaimKind → List Claim → List String
claim_texts k [] = []
claim_texts k (c ∷ cs) =
    let rest = claim_texts k cs in if is_kind c.kind k && truthy c.text then c.text ∷ rest else rest

-- A `for` loop that appends one failure at the first bad item and breaks.
unfoldable pub first_bad : (String → Bool) → FailureCode → List String → List FailureCode
first_bad good c [] = []
first_bad good c (x ∷ xs) = let rest = first_bad good c xs in if good x then rest else c ∷ []

-- `flatten_work_history_text` of app/generate/history.py: the parts joined by newlines.
abbrev join_lines : List String → String
join_lines [] = ""
join_lines (x ∷ []) = x
join_lines (x ∷ y ∷ xs) = append_text x (append_text "\n" (join_lines (y ∷ xs)))

abbrev entry_parts : WorkEntry → List String
entry_parts e =
    if_truthy e.employer
    ++ (if_truthy e.title
        ++ (if_truthy e.start_date
            ++ (if_truthy e.end_date
                ++ (if_truthy e.location
                    ++ ((if e.is_current then "present" ∷ [] else [])
                        ++ keep truthy (map (λ b. b.text) e.bullets))))))

abbrev history_parts : List WorkEntry → List String
history_parts [] = []
history_parts (e ∷ es) = entry_parts e ++ history_parts es

unfoldable pub flatten_work_history_text : List WorkEntry → String
flatten_work_history_text es = join_lines (history_parts es)

-- `_normalize_number`. A match has digits, spaces, `$ , . %` and one of `kKmMbB`.
number_char : Char → Char
number_char c =
    if code c == b'K'
    then "k"
    else if code c == b'M'
    then "m"
    else if code c == b'B'
    then "b"
    else c

unfoldable pub normalize_number : String → String
unfolding number_char is_space
normalize_number String.[] = ""
normalize_number (String.◌∷◌ c s) =
    let rest = normalize_number s in
    if code c == b',' || code c == b'$' || code c == b'%' || is_space (code c)
    then rest
    else String.◌∷◌ (number_char c) rest

normalizes_number : normalize_number "$ 1,250K" ≡ "1250k"
unfolding normalize_number
normalizes_number = refl

unfoldable pub claimed_titles : ClaimSourceMap → List String
claimed_titles mapping = mapping.titles ++ claim_texts title mapping.claims

-- The texts of date claims; an empty text counts.
abbrev pub date_claims : List Claim → List String
date_claims [] = []
date_claims (c ∷ cs) =
    let rest = date_claims cs in if is_kind c.kind date_range then c.text ∷ rest else rest

abbrev pub has_year : List String → Option String → Bool
has_year source none = false
has_year source (some y) = truthy y && elem y source

-- The skill ids that the output claims: in the map, in its claims, and in the resume's text.
abbrev claim_skills : Linker → List Claim → List String
claim_skills linker [] = []
claim_skills linker (c ∷ cs) =
    if_truthy c.canonical_skill_id
    ++ ((if is_kind c.kind skill && truthy c.text then linker.link_spans (c.text ∷ []) else [])
        ++ claim_skills linker cs)

unfoldable pub output_skills : Linker → ClaimSourceMap → String → List String
output_skills linker mapping resume_doc =
    mapping.claimed_skill_ids ++ (claim_skills linker mapping.claims ++ linker.scan_text resume_doc)

-- `if extra: failures.append(...)`
abbrev pub unless_empty : List String → FailureCode → List FailureCode
unless_empty extra c = if is_empty extra then [] else c ∷ []

module _ (re : Patterns) where
  -- `_extract_numbers`
  unfoldable pub extract_numbers : String → List String
  extract_numbers text = keep truthy (map normalize_number (re.number_matches text))

  abbrev pub normalize_employer : String → String
  normalize_employer raw = re.strip_corp_suffix (re.normalize_label raw)

  unfoldable pub source_employers : List WorkEntry → List String
  source_employers [] = []
  source_employers (e ∷ es) = map normalize_employer (if_truthy e.employer) ++ source_employers es

  unfoldable pub source_titles : List WorkEntry → List String
  source_titles [] = []
  source_titles (e ∷ es) = map re.normalize_label (if_truthy e.title) ++ source_titles es

  -- The tokens of a date that is not empty: its normal form and its year.
  abbrev pub date_tokens : String → List String
  date_tokens raw =
      if truthy raw
      then re.normalize_label raw ∷ elim (re.year raw) [ none ↦ [] | some y ↦ if_truthy (some y) ]
      else []

  abbrev pub range_tokens : String → String → List String
  range_tokens start end =
      if truthy start || truthy end
      then re.normalize_label (append_text start (append_text " – " end))
        ∷ re.normalize_label (append_text start (append_text "-" end))
        ∷ re.normalize_label (append_text start (append_text " to " end))
        ∷ []
      else []

  unfoldable pub entry_dates : WorkEntry → List String
  entry_dates e =
      let start = strip (or_empty e.start_date) in
      let end_raw = strip (or_empty e.end_date) in
      let current = e.is_current || not (truthy end_raw) in
      let end = if current then "present" else end_raw in
      date_tokens start
      ++ (date_tokens end_raw
          ++ (date_tokens end
              ++ ((if current then "present" ∷ "current" ∷ "now" ∷ [] else [])
                  ++ range_tokens start end)))

  unfoldable pub source_dates : List WorkEntry → List String
  unfolding entry_dates
  source_dates [] = []
  source_dates (e ∷ es) = entry_dates e ++ source_dates es

  -- `_claimed_employers`: the claim map's names or, if it has none, names that the resume puts after
  -- "at" and that are no source employer.
  abbrev keep_extras : List String → List String → List String
  keep_extras source names =
      keep (λ name. truthy name && not (elem (normalize_employer name) source)) names

  unfoldable pub claimed_employers : ClaimSourceMap → String → List WorkEntry → List String
  claimed_employers mapping resume_doc work_history =
      let claimed = mapping.employers ++ claim_texts employer mapping.claims in
      if is_empty claimed
      then keep_extras (source_employers work_history) (re.employer_phrases resume_doc)
      else claimed

  unfoldable pub date_in_source : String → List String → Bool
  date_in_source raw source =
      let text = re.normalize_label raw in
      let parts = re.date_parts text in
      if elem text source
      then true
      else if has_year source (re.year raw)
      then true
      else not (is_empty parts) && all (λ part. not (truthy part) || elem part source) parts

  unfoldable pub run_deterministic_checks :
      String → List WorkEntry → ClaimSourceMap → List String → Linker → List FailureCode
  run_deterministic_checks resume_doc work_history mapping user_skill_ids linker =
      let employers = source_employers work_history in
      let titles = source_titles work_history in
      let dates = source_dates work_history in
      let source_numbers = extract_numbers (flatten_work_history_text work_history) in
      first_bad (λ e. elem (normalize_employer e) employers) unknown_employer
        (claimed_employers mapping resume_doc work_history)
      ++ (first_bad (λ t. elem (re.normalize_label t) titles) unknown_title (claimed_titles mapping)
          ++ (first_bad (λ d. date_in_source d dates) unknown_date_range mapping.date_ranges
              ++ (first_bad (λ d. date_in_source d dates) unknown_date_range
                    (date_claims mapping.claims)
                  ++ (unless_empty (minus (extract_numbers resume_doc) source_numbers)
                        fabricated_number
                      ++ unless_empty
                          (minus (output_skills linker mapping resume_doc) user_skill_ids)
                          out_of_set_skill))))
