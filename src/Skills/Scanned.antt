-- ===== src/Skills/Scanned.antt =====
-- scan_text of app/skills/linker.py: which skills are found in a text.
use job_match_pipeline.Prelude.{
  ◌≡◌, Bool, true, ◌&&◌, not, String, List, [], ◌∷◌, any, elem, string_eq, ◌==◌, arith, Bool-cases,
  inl, inr, IsDistinct, All, All-map, beq_refl,
}
use job_match_pipeline.Skills.Aliases.{Dict}
use job_match_pipeline.Skills.Linker.{is_found, scan, scan_text, spaced, Index}
use job_match_pipeline.Skills.Words.{has_word, is_found-has_word}
use job_match_pipeline.Skills.Labels.{LabelLibrary, normalize_label}

-- The ids of the hits.
abbrev pub hit_ids : Dict → List String
hit_ids [] = []
hit_ids ((id, key) ∷ hits) = id ∷ hit_ids hits

-- A term of the id is a word of the text.
abbrev pub is_mentioned : String → Dict → String → Bool
is_mentioned haystack terms id = any (λ t. t.1 == id && has_word t.0 haystack) terms

-- The hit is a term with its id, and a word of the text.
abbrev pub is_term_found : String → Dict → String × String → Bool
is_term_found haystack terms hit =
    any (λ t. t.1 == hit.0 && t.0 == hit.1) terms && has_word hit.1 haystack

elem-scan :
    (haystack x : String) (seen : List String) (terms : Dict)
    → elem x (hit_ids (scan haystack seen terms))
      ≡ (not (elem x seen) && is_mentioned haystack terms x)
unfolding scan
elem-scan haystack x seen [] = ground arith
elem-scan haystack x seen ((key, id) ∷ terms) = ground (
  arith,
  elem-scan haystack x seen terms,
  elem-scan haystack x (id ∷ seen) terms,
  is_found-has_word haystack key,
  string_eq.beq_iff x id,
  string_eq.beq_iff id x,
)

IsDistinct-scan :
    (haystack : String) (seen : List String) (terms : Dict)
    → IsDistinct (hit_ids (scan haystack seen terms))
unfolding scan
IsDistinct-scan haystack seen [] = tt
IsDistinct-scan haystack seen ((key, id) ∷ terms) = ground (
  arith,
  IsDistinct-scan haystack seen terms,
  IsDistinct-scan haystack (id ∷ seen) terms,
  elem-scan haystack id (id ∷ seen) terms,
  string_eq.beq_iff id id,
)

found_later :
    (haystack : String) (t : String × String) (terms : Dict) (hit : String × String)
    → is_term_found haystack terms hit ≡ true
    → is_term_found haystack (t ∷ terms) hit ≡ true
found_later haystack t terms hit h = ground (arith, h)

All-scan :
    (haystack : String) (seen : List String) (terms : Dict)
    → All (λ hit. is_term_found haystack terms hit ≡ true) (scan haystack seen terms)
unfolding scan
All-scan haystack seen [] = tt
All-scan haystack seen ((key, id) ∷ terms) =
    let old = found_later haystack (key, id) terms in
    let skipped = All-map old (scan haystack seen terms) (All-scan haystack seen terms) in
    let taken =
      All-map old (scan haystack (id ∷ seen) terms) (All-scan haystack (id ∷ seen) terms) in
    elim (Bool-cases (elem id seen)) [
      | inl known ↦ rw known skipped
      | inr new ↦ rw new (elim (Bool-cases (is_found haystack key)) [
        | inl found ↦ rw found (
          ground (arith, found, is_found-has_word haystack key, beq_refl id, beq_refl key),
          taken,
        )
        | inr missing ↦ rw missing skipped
      ])
    ]

-- A skill is reported for a text just if one of its scan terms stands in the normal form of the text
-- between two blanks, where a blank is put before and after the text; each such skill is reported
-- once, with one of its terms that stands there so.
pub scan_text-IsMentioned :
    (lib : LabelLibrary) (index : Index) (text : String)
    → IsDistinct (hit_ids (scan_text lib index text))
      × ((id : String)
          → elem id (hit_ids (scan_text lib index text))
            ≡ is_mentioned (spaced (normalize_label lib text)) index.scan_terms id)
      × All
          (λ hit. is_term_found (spaced (normalize_label lib text)) index.scan_terms hit ≡ true)
          (scan_text lib index text)
unfolding scan_text
scan_text-IsMentioned lib index text = (
  IsDistinct-scan (spaced (normalize_label lib text)) [] index.scan_terms,
  λ id. elem-scan (spaced (normalize_label lib text)) id [] index.scan_terms,
  All-scan (spaced (normalize_label lib text)) [] index.scan_terms,
)
