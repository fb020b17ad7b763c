-- ===== src/Skills/Labels.antt =====
-- app/skills/normalize.py and the labels of app/skills/enrich.py.
use Prim.Native.Char.{code}
use job_match_pipeline.Prelude.{
  ℕ, Bool, ◌||◌, not, String, List, [], ◌∷◌, Option, none, some, leb, nat_beq, elem, string_eq,
  if◌then◌else◌,
}
use job_match_pipeline.Prelude.Text.{truthy, strip, reverse_onto, text_length}

-- The `unicodedata`, `re` and `str` calls of the labels.
pub record LabelLibrary : Type 0 where
  -- unicodedata.normalize("NFKC", label)
  pub nfkc : String → String
  pub casefold : String → String
  -- `_PUNCT_RE.sub(" ", text)` and `_WS_RE.sub(" ", text)`
  pub spaces_for_punctuation : String → String
  pub collapse_spaces : String → String
  -- `_COMPOUND_SPLIT_RE.split(text)` and `_LEADING_CONJUNCTION_RE.sub("", part)`
  pub split_compound : String → List String
  pub drop_conjunction : String → String
  -- The group `bare` of `_TRAILING_DISAMBIGUATOR_RE.fullmatch`
  pub bare_group : String → Option String

unfoldable pub normalize_label : LabelLibrary → String → String
normalize_label lib label =
    strip (lib.collapse_spaces (lib.spaces_for_punctuation (strip (lib.casefold (lib.nfkc label)))))

-- The characters of `strip(" \t.")`.
abbrev is_edge : ℕ → Bool
is_edge c = nat_beq c 32 || nat_beq c 9 || nat_beq c 46

unfoldable pub drop_edge : String → String
drop_edge String.[] = ""
drop_edge (String.◌∷◌ c s) = if is_edge (code c) then drop_edge s else String.◌∷◌ c s

abbrev strip_edges : String → String
strip_edges s = reverse_onto "" (drop_edge (reverse_onto "" (drop_edge s)))

-- The fragments that are not empty.
unfoldable pub fragments : LabelLibrary → List String → List String
unfolding drop_edge reverse_onto
fragments lib [] = []
fragments lib (part ∷ parts) =
    let cleaned = strip_edges (lib.drop_conjunction part) in
    let rest = fragments lib parts in if truthy cleaned then cleaned ∷ rest else rest

-- `normalize_label(item) or item.casefold()`
abbrev pub label_key : LabelLibrary → String → String
label_key lib item =
    if truthy (normalize_label lib item) then normalize_label lib item else lib.casefold item

-- The loop with its `seen`.
unfoldable pub unseen : LabelLibrary → List String → List String → List String
unseen lib seen [] = []
unseen lib seen (item ∷ items) =
    let key = label_key lib item in
    let skipped = unseen lib seen items in
    let taken = item ∷ unseen lib (key ∷ seen) items in
    if not (truthy key) || elem key seen then skipped else taken

unfoldable pub expand_compound_span : LabelLibrary → String → List String
unfolding unseen
expand_compound_span lib span =
    let text = strip span in
    if not (truthy text) then [] else unseen lib [] (text ∷ fragments lib (lib.split_compound text))

abbrev bare_or_none : Option String → Option String
bare_or_none none = none
bare_or_none (some s) = if truthy (strip s) then some (strip s) else none

unfoldable pub parenthetical_bare_label : LabelLibrary → String → Option String
parenthetical_bare_label lib label = bare_or_none (lib.bare_group (strip label))

-- AMBIGUOUS_SCAN_TERMS
abbrev pub ambiguous_scan_terms : List String
ambiguous_scan_terms =
    "c" ∷ "r" ∷ "go" ∷ "js" ∷ "ts" ∷ "ml" ∷ "tf" ∷ "pg" ∷ "rest" ∷ "node" ∷ "spark" ∷ "rails"
    ∷ "spring" ∷ "express" ∷ "lambda" ∷ "s3" ∷ "ec2" ∷ "rds" ∷ "git" ∷ "excel" ∷ "docs" ∷ "shell"
    ∷ "unix" ∷ "mongo" ∷ "torch" ∷ "scrum" ∷ "kanban" ∷ []

abbrev key_of_bare : LabelLibrary → Option String → Option String
key_of_bare lib none = none
key_of_bare lib (some bare) =
    let key = normalize_label lib bare in
    if not (truthy key) || leb (text_length key) 2 || elem key ambiguous_scan_terms
    then none
    else some key

-- `_derived_key`
unfoldable pub derived_key : LabelLibrary → String → Option String
derived_key lib label = key_of_bare lib (parenthetical_bare_label lib label)
