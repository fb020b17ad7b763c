-- ===== src/Screen/Labels.antt =====
-- app/screen/labels.py: the order of the labels, and how a model's text becomes one.
use Prim.Native.Char.{code}
use job_match_pipeline.Prelude.{
  ℕ, ◌+◌, ◌≡◌, refl, Bool, true, false, ◌&&◌, ◌||◌, String, List, [], ◌∷◌, Option, none, some, leb,
  nat_beq, if◌then◌else◌, string_eq,
}
use job_match_pipeline.Prelude.Text.{strip}
use job_match_pipeline.Db.Rows.{
  QualificationLabel, unqualified, minimally_qualified, overqualified, potentially_qualified,
  clearly_qualified,
}

pub QualificationLabel-discrete : Discrete QualificationLabel
QualificationLabel-discrete = hlevel

-- `LABEL_RANK`, and the rank of a column that may be NULL.
abbrev pub label_rank : QualificationLabel → ℕ
label_rank unqualified = 0
label_rank minimally_qualified = 1
label_rank overqualified = 2
label_rank potentially_qualified = 3
label_rank clearly_qualified = 4

abbrev pub qualification_label_rank : Option QualificationLabel → Option ℕ
qualification_label_rank none = none
qualification_label_rank (some l) = some (label_rank l)

abbrev pub label_text : QualificationLabel → String
label_text unqualified = "unqualified"
label_text minimally_qualified = "minimally_qualified"
label_text overqualified = "overqualified"
label_text potentially_qualified = "potentially_qualified"
label_text clearly_qualified = "clearly_qualified"

-- `label in LOW_LABELS`
abbrev pub is_low_label : QualificationLabel → Bool
is_low_label unqualified = true
is_low_label minimally_qualified = true
is_low_label _ = false

-- `label == AUTO_GENERATE_LABEL`
abbrev pub is_auto_generate_label : QualificationLabel → Bool
is_auto_generate_label clearly_qualified = true
is_auto_generate_label _ = false

-- The characters of `value.strip().lower().replace(" ", "_").replace("-", "_")`. No character
-- outside ASCII has a lower case that is a letter of a label.
label_char : ℕ → ℕ
label_char c =
    if leb b'A' c && leb c b'Z' then c + 32 else if nat_beq c 32 || nat_beq c b'-' then b'_' else c

label_chars : String → List ℕ
label_chars String.[] = []
label_chars (String.◌∷◌ c s) = label_char (code c) ∷ label_chars s

same_chars : List ℕ → List ℕ → Bool
same_chars [] [] = true
same_chars (x ∷ xs) (y ∷ ys) = nat_beq x y && same_chars xs ys
same_chars _ _ = false

-- The member of QUALIFICATION_LABEL_SET with these characters.
find_label : List ℕ → List QualificationLabel → Option QualificationLabel
unfolding same_chars label_chars label_char
find_label chars [] = none
find_label chars (l ∷ ls) =
    let rest = find_label chars ls in
    if same_chars chars (label_chars (label_text l)) then some l else rest

abbrev qualification_labels : List QualificationLabel
qualification_labels =
    unqualified ∷ minimally_qualified ∷ overqualified ∷ potentially_qualified ∷ clearly_qualified
    ∷ []

-- `none` stands for the ValueError.
unfoldable pub normalize_qualification_label : String → Option QualificationLabel
unfolding find_label strip
normalize_qualification_label value = find_label (label_chars (strip value)) qualification_labels

normalizes : normalize_qualification_label " Clearly-Qualified\n" ≡ some clearly_qualified
unfolding normalize_qualification_label
normalizes = refl

refuses : normalize_qualification_label "qualified" ≡ none
unfolding normalize_qualification_label
refuses = refl

-- Every label's own text is read back as that label.
pub normalize_qualification_label-label_text :
    (l : QualificationLabel) → normalize_qualification_label (label_text l) ≡ some l
unfolding normalize_qualification_label
normalize_qualification_label-label_text unqualified = refl
normalize_qualification_label-label_text minimally_qualified = refl
normalize_qualification_label-label_text overqualified = refl
normalize_qualification_label-label_text potentially_qualified = refl
normalize_qualification_label-label_text clearly_qualified = refl
