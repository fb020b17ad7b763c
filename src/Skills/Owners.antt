-- ===== src/Skills/Owners.antt =====
-- The constructor of InMemorySkillLinker in app/skills/linker.py: a label links to the first record
-- that has it.
use job_match_pipeline.Prelude.{
  ◌≡◌, refl, ◌∙◌, Bool, true, String, List, [], ◌∷◌, ◌++◌, Option, none, some, any, string_eq,
  if◌then◌else◌, ◌==◌, arith, Option-cases, inl, inr,
}
use job_match_pipeline.Prelude.Text.{truthy}
use job_match_pipeline.Db.Rows.{Score}
use job_match_pipeline.Skills.Labels.{LabelLibrary, normalize_label}
use job_match_pipeline.Skills.Aliases.{
  SkillRecord, Dict, get, has, labels_of, add_labels, exact_index, derived_alias_index,
}
use job_match_pipeline.Skills.Contested.{get-append, get-derived_alias_index}
use job_match_pipeline.Skills.Linker.{
  Vector, Index, LinkSettings, link_span, set_item, dict_update, new_linker, index_of,
}

module _ (lib : LabelLibrary) where
  -- The record has a label with this key.
  abbrev is_owner : String → SkillRecord → Bool
  is_owner key r = any (λ label. normalize_label lib label == key) (labels_of r)

  -- The id of the first record that has a label with this key.
  abbrev pub owner : String → List SkillRecord → Option String
  owner key [] = none
  owner key (r ∷ rs) = let later = owner key rs in if is_owner key r then some r.id else later

  abbrev or_owner : Option String → Option String → Option String
  or_owner none o = o
  or_owner (some id) o = some id

  abbrev own : String → String → List String → Option String
  own key id labels =
      if any (λ label. normalize_label lib label == key) labels then some id else none

  get-add_labels :
      (key id : String) (labels : List String) (d : Dict)
      → truthy key ≡ true
      → get key (add_labels lib id labels d) ≡ or_owner (get key d) (own key id labels)
  unfolding add_labels
  get-add_labels key id [] d t = ground arith
  get-add_labels key id (label ∷ labels) d t =
      let k = normalize_label lib label in
      let set = if has k d then d else d ++ (k, id) ∷ [] in
      ground (
        arith,
        t,
        get-add_labels key id labels d t,
        get-add_labels key id labels set t,
        get-append key k id d,
        string_eq.beq_iff k key,
      )

  get-exact_index :
      (key : String) (seen : List String) (records : List SkillRecord) (d exact : Dict)
      → truthy key ≡ true
      → exact_index lib seen records d ≡ some exact
      → get key exact ≡ or_owner (get key d) (owner key records)
  unfolding exact_index
  get-exact_index key seen [] d exact t e = ground (arith, e)
  get-exact_index key seen (r ∷ rs) d exact t e = ground (
    arith,
    e,
    get-exact_index key (r.id ∷ seen) rs (add_labels lib r.id (labels_of r) d) exact t,
    get-add_labels key r.id (labels_of r) d t,
  )

get-set_item :
    (key k v : String) (d : Dict)
    → get key (set_item k v d) ≡ (if k == key then some v else get key d)
unfolding get set_item
get-set_item key k v [] = refl
get-set_item key k v ((l, u) ∷ d) = ground (
  arith,
  get-set_item key k v d,
  string_eq.beq_iff l k,
  string_eq.beq_iff l key,
  string_eq.beq_iff k key,
)

get-dict_update :
    (key : String) (d e : Dict) → get key e ≡ none → get key (dict_update d e) ≡ get key d
unfolding dict_update get
get-dict_update key d [] h = refl
get-dict_update key d ((k, v) ∷ e) h =
    ground (arith, h, get-dict_update key (set_item k v d) e, get-set_item key k v d)

module _ (lib : LabelLibrary) (cosine_similarity : Vector → Vector → Score) where
  get-index_of :
      (s : LinkSettings) (records : List SkillRecord) (exact : Dict) (key id : String)
      → get key exact ≡ some id
      → get key (index_of lib s records exact).exact ≡ some id
  get-index_of s records exact key id h =
      get-dict_update key exact (derived_alias_index lib records exact)
        (ground (arith, h, get-derived_alias_index lib records exact key))
      ∙ h

  -- A linker that is built links a span whose normalized text is that of a label of its records, and
  -- is not empty, to the first record that has such a label, whatever the embedder and the cutoffs.
  pub link_span-owner :
      (s : LinkSettings) (records : List SkillRecord) (index : Index) (span id : String)
      → new_linker lib s records ≡ some index
      → truthy (normalize_label lib span) ≡ true
      → owner lib (normalize_label lib span) records ≡ some id
      → link_span lib cosine_similarity index span ≡ some id
  unfolding link_span new_linker get
  link_span-owner s records index span id made t first =
      let key = normalize_label lib span in
      elim (Option-cases (exact_index lib [] records [])) [
        | inl x ↦ absurd (ground (arith, x, made))
        | inr (exact, x) ↦
            let real : get key exact ≡ some id =
              ground (arith, first, get-exact_index lib key [] records [] exact t x) in
            ground (arith, x, made, t, get-index_of s records exact key id real)
      ]
