-- ===== src/Profile/Fields.antt =====
-- app/profile/parse.py: the normal forms of a role's fields. The regular expressions and `str.lower`
-- are parameters; a match is given by the groups that the code reads.
use Prim.Native.Char.{code}
use Prim.Native.String.{◌++◌ as append_text}
use job_match_pipeline.Prelude.{
  Bool, ◌||◌, not, String, List, [], ◌∷◌, ◌++◌, Option, none, some, elem, or_else, string_eq,
  if◌then◌else◌, ◌==◌,
}
use job_match_pipeline.Prelude.Text.{truthy, strip, has_char, reverse_onto}

-- The match of _DATE_RANGE: group 0, `start` and `end`.
pub record DateRange : Type 0 where
  pub whole : String
  pub start : String
  pub end : String

pub record ResumeLibrary : Type 0 where
  pub lower : String → String
  -- _ISO_MONTH, _YEAR and _MONTH_YEAR, with `f"{int(text):02d}"`
  pub iso_month : String → Option (String × String)
  pub year_only : String → Option String
  pub month_year : String → Option (String × String)
  pub two_digits : String → String
  -- _SECTION, _ROLE_HEADER (title and employer), _DATE_RANGE, _BULLET, and the place of a header line
  pub section : String → Option String
  pub role_header : String → Option (String × String)
  pub date_range : String → Option DateRange
  pub bullet_item : String → Option String
  pub place : String → Option String
  -- re.sub(r"\s+", " ", text), re.sub(r"^#{1,4}\s*", "", line), re.sub(r"[\s|·•]+", " ", rest)
  pub collapse_spaces : String → String
  pub drop_hashes : String → String
  pub collapse_bars : String → String
  -- re.split(r"[,;/|]", line), text.splitlines() and line.replace(part, "")
  pub split_list : String → List String
  pub splitlines : String → List String
  pub without : String → String → String

-- `text.strip(chars)`
unfoldable pub drop_chars : String → String → String
unfolding has_char
drop_chars chars String.[] = ""
drop_chars chars (String.◌∷◌ c s) =
    let rest = drop_chars chars s in if has_char (code c) chars then rest else String.◌∷◌ c s

abbrev pub rstrip_chars : String → String → String
rstrip_chars chars s = reverse_onto "" (drop_chars chars (reverse_onto "" s))

abbrev pub strip_chars : String → String → String
strip_chars chars s = rstrip_chars chars (drop_chars chars s)

-- `d.get(key)`
unfoldable pub get_entry : String → List (String × String) → Option String
get_entry key [] = none
get_entry key ((k, v) ∷ rest) = let later = get_entry key rest in if k == key then some v else later

-- _MONTHS
abbrev pub months : List (String × String)
months =
    ("january", "01")
    ∷ ("jan", "01")
    ∷ ("february", "02")
    ∷ ("feb", "02")
    ∷ ("march", "03")
    ∷ ("mar", "03")
    ∷ ("april", "04")
    ∷ ("apr", "04")
    ∷ ("may", "05")
    ∷ ("june", "06")
    ∷ ("jun", "06")
    ∷ ("july", "07")
    ∷ ("jul", "07")
    ∷ ("august", "08")
    ∷ ("aug", "08")
    ∷ ("september", "09")
    ∷ ("sep", "09")
    ∷ ("sept", "09")
    ∷ ("october", "10")
    ∷ ("oct", "10")
    ∷ ("november", "11")
    ∷ ("nov", "11")
    ∷ ("december", "12")
    ∷ ("dec", "12")
    ∷ []

-- The aliases of `_normalize_seniority`.
abbrev pub seniority_aliases : List (String × String)
seniority_aliases =
    ("intern", "intern")
    ∷ ("internship", "intern")
    ∷ ("junior", "junior")
    ∷ ("jr", "junior")
    ∷ ("entry", "junior")
    ∷ ("entry-level", "junior")
    ∷ ("mid", "mid")
    ∷ ("mid-level", "mid")
    ∷ ("middle", "mid")
    ∷ ("intermediate", "mid")
    ∷ ("senior", "senior")
    ∷ ("sr", "senior")
    ∷ ("staff", "staff")
    ∷ ("principal", "principal")
    ∷ ("lead", "lead")
    ∷ ("manager", "lead")
    ∷ ("director", "lead")
    ∷ []

abbrev pub allowed_arrangements : List (String × String)
allowed_arrangements =
    ("remote", "remote") ∷ ("hybrid", "hybrid") ∷ ("onsite", "onsite") ∷ ("on-site", "onsite") ∷ []

module _ (lib : ResumeLibrary) where
  unfoldable pub is_present : String → Bool
  is_present value = elem (lib.lower (strip value)) ("present" ∷ "current" ∷ "now" ∷ "today" ∷ [])

  abbrev month_of : String → Option (String × String) → Option String
  month_of raw none = some raw
  month_of raw (some (name, year)) = elim (get_entry (rstrip_chars "." (lib.lower name)) months) [
    | none ↦ some raw
    | some month ↦ some (append_text year (append_text "-" month))
  ]

  abbrev year_of : String → Option String → Option String
  year_of raw none = month_of raw (lib.month_year raw)
  year_of raw (some year) = some (append_text year "-01")

  abbrev iso_of : String → Option (String × String) → Option String
  iso_of raw none = year_of raw (lib.year_only raw)
  iso_of raw (some (year, month)) = some (append_text year (append_text "-" (lib.two_digits month)))

  unfoldable pub normalize_date : Option String → Option String
  unfolding get_entry drop_chars reverse_onto
  normalize_date none = none
  normalize_date (some value) =
      let raw = strip value in
      if not (truthy raw) || is_present raw then none else iso_of raw (lib.iso_month raw)

  unfoldable pub normalize_seniority : Option String → Option String
  normalize_seniority none = none
  normalize_seniority (some value) =
      let token = lib.lower (strip value) in
      if not (truthy value) then none else some (or_else (get_entry token seniority_aliases) token)

  abbrev add_arrangement : Option String → List String → List String
  add_arrangement none out = out
  add_arrangement (some mapped) out = if elem mapped out then out else out ++ mapped ∷ []

  unfoldable pub arrangement_loop : List String → List String → List String
  arrangement_loop [] out = out
  arrangement_loop (value ∷ values) out =
      arrangement_loop values
        (add_arrangement (get_entry (lib.lower (strip value)) allowed_arrangements) out)

  unfoldable pub normalize_arrangements : List String → List String
  normalize_arrangements values = arrangement_loop values []

  unfoldable pub normalize_bullet : String → String
  normalize_bullet text = strip (lib.collapse_spaces text)
