-- ===== src/Skills/Linker.antt =====
-- InMemorySkillLinker of app/skills/linker.py. The embedder and the arithmetic of doubles are
-- parameters: the sum of products of two vectors, all of one length (for two lengths the code raises a
-- ValueError, which is left out), and the test of the margin.
use Prim.Native.String.{◌++◌ as append_text}
use job_match_pipeline.Prelude.{
  Bool, true, ◌&&◌, not, String, List, [], ◌∷◌, ◌++◌, Option, none, some, keep, elem, map, leb, ltb,
  or_else, is_empty, string_eq, if◌then◌else◌, ◌==◌,
}
use job_match_pipeline.Prelude.Text.{truthy, join, occurs, text_length}
use job_match_pipeline.Db.Rows.{Score}
use job_match_pipeline.Skills.Labels.{LabelLibrary, normalize_label, ambiguous_scan_terms}
use job_match_pipeline.Skills.Aliases.{
  SkillRecord, Dict, get, labels_of, exact_index, derived_alias_index,
}

abbrev pub Vector : Type 0
Vector = List Score

-- `_IndexedTaxonomy`, with the terms of `scan_text`.
pub record Index : Type 0 where
  pub records : List SkillRecord
  pub exact : Dict
  pub embed : Option (String → Vector)
  pub threshold : Score
  pub high_confidence : Score
  -- `(best_score - second_score) >= margin`; none is `float("-inf")`
  pub has_margin : Score → Option Score → Bool
  pub vectors : List (String × Vector)
  pub scan_terms : Dict

-- `best_score`, `best_id` and `second_score`; none is `float("-inf")`.
pub record Ranking : Type 0 where
  pub best : Option (String × Score)
  pub second : Option Score

-- `score > other`
abbrev pub beats : Score → Option Score → Bool
beats s none = true
beats s (some t) = ltb t s

abbrev pub score_of : Option (String × Score) → Option Score
score_of none = none
score_of (some (id, s)) = some s

-- One turn of the loop over the vectors.
unfoldable pub rank_one : String → Score → Ranking → Ranking
rank_one id s r =
    let runner_up : Ranking = record r { second = some s } in
    if beats s (score_of r.best)
    then record { best = some (id, s); second = score_of r.best }
    else if beats s r.second
    then runner_up
    else r

unfoldable pub rank_all : List (String × Score) → Ranking → Ranking
rank_all [] r = r
rank_all ((id, s) ∷ rest) r = rank_all rest (rank_one id s r)

-- The two tiers.
unfoldable pub accept : Index → Ranking → Option String
accept index r = elim r.best [
  | none ↦ none
  | some found ↦
      if leb index.high_confidence found.1
      then some found.0
      else if leb index.threshold found.1 && index.has_margin found.1 r.second
      then some found.0
      else none
]

module _ (lib : LabelLibrary) (cosine_similarity : Vector → Vector → Score) where
  abbrev pub scores : Vector → List (String × Vector) → List (String × Score)
  scores query [] = []
  scores query ((id, v) ∷ rest) = (id, cosine_similarity query v) ∷ scores query rest

  unfoldable pub similarity_link : Index → String → Option String
  unfolding rank_all accept
  similarity_link index span = elim index.embed [
    | none ↦ none
    | some embed ↦
        if is_empty index.vectors
        then none
        else accept index
            (rank_all (scores (embed span) index.vectors) (record { best = none; second = none }))
  ]

  unfoldable pub link_span : Index → String → Option String
  unfolding get similarity_link
  link_span index span =
      let key = normalize_label lib span in
      let similar = similarity_link index span in
      if not (truthy key)
      then none
      else elim (get key index.exact) [ some id ↦ some id | none ↦ similar ]

-- `records.get(skill_id)`
unfoldable pub record_at : String → List SkillRecord → Option SkillRecord
record_at id [] = none
record_at id (r ∷ rs) = let found = record_at id rs in if r.id == id then some r else found

abbrev label_or : String → Option SkillRecord → String
label_or id none = id
label_or id (some r) = r.canonical_label

unfoldable pub labels_for : Index → List String → List String
unfolding record_at
labels_for index ids = map (λ id. label_or id (record_at id index.records)) ids

abbrev pub spaced : String → String
spaced s = append_text " " (append_text s " ")

-- `f" {key} " in haystack`
unfoldable pub is_found : String → String → Bool
unfolding occurs
is_found haystack key = occurs (spaced key) haystack

-- The loop of `scan_text`; a hit is the id and the matched text.
unfoldable pub scan : String → List String → Dict → Dict
scan haystack seen [] = []
scan haystack seen ((key, id) ∷ terms) =
    let skipped = scan haystack seen terms in
    let hit = (id, key) ∷ scan haystack (id ∷ seen) terms in
    if elem id seen then skipped else if is_found haystack key then hit else skipped

unfoldable pub scan_text : LabelLibrary → Index → String → Dict
scan_text lib index text = scan (spaced (normalize_label lib text)) [] index.scan_terms

-- `sorted(..., key=lambda item: len(item[0]), reverse=True)`, which keeps the order of equal lengths.
unfoldable pub insert_term : String × String → Dict → Dict
insert_term e [] = e ∷ []
insert_term e (d ∷ ds) =
    let rest = insert_term e ds in
    if leb (text_length d.0) (text_length e.0) then e ∷ d ∷ ds else d ∷ rest

unfoldable pub sort_terms : Dict → Dict
unfolding insert_term
sort_terms [] = []
sort_terms (e ∷ es) = insert_term e (sort_terms es)

unfoldable pub scan_terms_of : Dict → Dict
unfolding sort_terms
scan_terms_of exact =
    sort_terms (keep (λ e. ltb 2 (text_length e.0) && not (elem e.0 ambiguous_scan_terms)) exact)

-- `skill_embedding_text`
unfoldable pub skill_embedding_text : SkillRecord → String
unfolding join
skill_embedding_text r = join " | " (
    keep truthy (
      labels_of r
      ++ (if truthy (or_else r.description "") then or_else r.description "" ∷ [] else [])))

-- The vectors that the records bring, and those that are made for the others.
unfoldable pub stored_vectors : List SkillRecord → List (String × Vector)
stored_vectors [] = []
stored_vectors (r ∷ rs) =
    let rest = stored_vectors rs in elim r.embedding [ some v ↦ (r.id, v) ∷ rest | none ↦ rest ]

unfoldable pub made_vectors : (String → Vector) → List SkillRecord → List (String × Vector)
made_vectors embed [] = []
made_vectors embed (r ∷ rs) =
    let rest = made_vectors embed rs in
    elim r.embedding [ some v ↦ rest | none ↦ (r.id, embed (skill_embedding_text r)) ∷ rest ]

unfoldable pub ensure_vectors :
    Bool → Option (String → Vector) → List SkillRecord → List (String × Vector)
unfolding stored_vectors made_vectors
ensure_vectors build_missing none records = []
ensure_vectors build_missing (some embed) records =
    stored_vectors records ++ (if build_missing then made_vectors embed records else [])

-- `dict[key] = value`, at the key's place where it has one.
unfoldable pub set_item : String → String → Dict → Dict
set_item key v [] = (key, v) ∷ []
set_item key v ((k, u) ∷ rest) =
    let later = set_item key v rest in if k == key then (k, v) ∷ rest else (k, u) ∷ later

-- `dict.update(other)`
unfoldable pub dict_update : Dict → Dict → Dict
unfolding set_item
dict_update d [] = d
dict_update d ((k, v) ∷ rest) = dict_update (set_item k v d) rest

-- The arguments of the constructor after the records.
pub record LinkSettings : Type 0 where
  pub embedder : Option (String → Vector)
  pub similarity_threshold : Score
  pub confidence : Option Score
  pub margin_test : Score → Option Score → Bool
  pub build_missing_embeddings : Bool

abbrev pub index_of : LabelLibrary → LinkSettings → List SkillRecord → Dict → Index
index_of lib s records exact = record {
  records = records;
  exact = dict_update exact (derived_alias_index lib records exact);
  embed = s.embedder;
  threshold = s.similarity_threshold;
  high_confidence = or_else s.confidence s.similarity_threshold;
  has_margin = s.margin_test;
  vectors = ensure_vectors s.build_missing_embeddings s.embedder records;
  scan_terms = scan_terms_of exact;
}

-- `InMemorySkillLinker(records, ...)`: none is ValueError, for a second record of an id.
unfoldable pub new_linker : LabelLibrary → LinkSettings → List SkillRecord → Option Index
unfolding exact_index derived_alias_index dict_update scan_terms_of ensure_vectors
new_linker lib s records = elim (exact_index lib [] records []) [
  | none ↦ none
  | some exact ↦ some (index_of lib s records exact)
]
