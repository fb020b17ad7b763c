-- ===== src/Skills/Aliases.antt =====
-- The exact index of app/skills/linker.py, and derived_alias_index of app/skills/enrich.py. A dict is
-- a list of its items.
use job_match_pipeline.Prelude.{
  Bool, ◌||◌, not, String, List, [], ◌∷◌, ◌++◌, Option, none, some, keep, elem, string_eq,
  if◌then◌else◌, ◌==◌, is_some,
}
use job_match_pipeline.Prelude.Text.{truthy}
use job_match_pipeline.Db.Rows.{Score}
use job_match_pipeline.Skills.Labels.{LabelLibrary, normalize_label, derived_key}

pub record SkillRecord : Type 0 where
  pub id : String
  pub canonical_label : String
  pub alt_labels : List String
  pub description : Option String
  pub embedding : Option (List Score)

abbrev pub labels_of : SkillRecord → List String
labels_of r = r.canonical_label ∷ r.alt_labels

abbrev pub Dict : Type 0
Dict = List (String × String)

-- `dict.get(key)`
unfoldable pub get : String → Dict → Option String
get key [] = none
get key ((k, v) ∷ rest) = let found = get key rest in if k == key then some v else found

abbrev pub has : String → Dict → Bool
has key d = is_some (get key d)

-- `dict.setdefault(key, value)`
abbrev set_default : String → String → Dict → Dict
set_default key v d = if has key d then d else d ++ (key, v) ∷ []

-- The labels of one record.
unfoldable pub add_labels : LabelLibrary → String → List String → Dict → Dict
unfolding get
add_labels lib id [] d = d
add_labels lib id (label ∷ labels) d =
    let key = normalize_label lib label in
    add_labels lib id labels (if truthy key then set_default key id d else d)

-- The loop over the records; `seen` are the ids of `record_map`, and a second record of an id raises
-- ValueError.
unfoldable pub exact_index : LabelLibrary → List String → List SkillRecord → Dict → Option Dict
exact_index lib seen [] d = some d
exact_index lib seen (r ∷ rs) d =
    let rest = exact_index lib (r.id ∷ seen) rs (add_labels lib r.id (labels_of r) d) in
    if elem r.id seen then none else rest

-- The derived keys of the records, each with its record's id, in the order of the two loops.
abbrev keyed : String → Option String → Dict → Dict
keyed id none rest = rest
keyed id (some key) rest = (key, id) ∷ rest

unfoldable pub keys_of_labels : LabelLibrary → String → List String → Dict
keys_of_labels lib id [] = []
keys_of_labels lib id (label ∷ labels) =
    keyed id (derived_key lib label) (keys_of_labels lib id labels)

unfoldable pub derived_keys : LabelLibrary → List SkillRecord → Dict
derived_keys lib [] = []
derived_keys lib (r ∷ rs) = keys_of_labels lib r.id (labels_of r) ++ derived_keys lib rs

-- `candidates` and `contested`
pub record Claims : Type 0 where
  pub candidates : Dict
  pub contested : List String

-- `del candidates[key]`
abbrev pub remove : String → Dict → Dict
remove key d = keep (λ e. not (e.0 == key)) d

abbrev dispute : String → String → Option String → Claims → Claims
dispute key id none c = record c { candidates = c.candidates ++ (key, id) ∷ [] }
dispute key id (some existing) c =
    if existing == id
    then c
    else record { candidates = remove key c.candidates; contested = key ∷ c.contested }

-- One turn of the inner loop, for a key that is not none.
unfoldable pub claim : Dict → String → String → Claims → Claims
unfolding get
claim occupied key id c =
    let disputed = dispute key id (get key c.candidates) c in
    if has key occupied || elem key c.contested then c else disputed

unfoldable pub claim_all : Dict → Dict → Claims → Claims
claim_all occupied [] c = c
claim_all occupied ((key, id) ∷ rest) c = claim_all occupied rest (claim occupied key id c)

unfoldable pub derived_alias_index : LabelLibrary → List SkillRecord → Dict → Dict
unfolding claim_all
derived_alias_index lib records occupied =
    (claim_all occupied (derived_keys lib records)
      (record { candidates = []; contested = [] })).candidates
