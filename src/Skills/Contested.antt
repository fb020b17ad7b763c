-- ===== src/Skills/Contested.antt =====
-- app/skills/enrich.py: which derived aliases there are.
use job_match_pipeline.Prelude.{
  ◌≡◌, refl, Bool, true, false, String, List, [], ◌∷◌, ◌++◌, Option, none, some, elem, all,
  string_eq, if◌then◌else◌, ◌==◌, arith, Bool-cases, inl, inr, beq_refl,
}
use job_match_pipeline.Skills.Labels.{LabelLibrary}
use job_match_pipeline.Skills.Aliases.{
  SkillRecord, Dict, get, has, remove, Claims, claim, claim_all, derived_keys, derived_alias_index,
}

abbrev or_new : Option String → String → String → String → Option String
or_new none k key id = if key == k then some id else none
or_new (some i) k key id = some i

pub get-append :
    (k key id : String) (d : Dict) → get k (d ++ (key, id) ∷ []) ≡ or_new (get k d) k key id
unfolding get
get-append k key id [] = refl
get-append k key id ((l, v) ∷ d) = ground (arith, get-append k key id d)

get-remove :
    (k key : String) (d : Dict) → get k (remove key d) ≡ (if key == k then none else get k d)
unfolding get
get-remove k key [] = ground arith
get-remove k key ((l, v) ∷ d) = ground (
  arith,
  get-remove k key d,
  string_eq.beq_iff l key,
  string_eq.beq_iff l k,
  string_eq.beq_iff key k,
)

-- The ids that claim a key, in order.
abbrev pub claimants : String → Dict → List String
claimants k [] = []
claimants k ((key, id) ∷ rest) = let ids = claimants k rest in if key == k then id ∷ ids else ids

-- The id that all claims name, if they do.
abbrev pub agreed : List String → Option String
agreed [] = none
agreed (i ∷ is) = if all (λ j. i == j) is then some i else none

module _ (occupied : Dict) (k : String) where
  -- Where a key stands among the claims.
  record Stands (c : Claims) (o : Option String) (is_contested : Bool) : Type 0 where
    there : get k c.candidates ≡ o
    contest : elem k c.contested ≡ is_contested

  Stands-claim_other :
      (key id : String) (c : Claims) (o : Option String) (b : Bool)
      → (key == k) ≡ false
      → Stands c o b
      → Stands (claim occupied key id c) o b
  unfolding claim
  Stands-claim_other key id c o b other h = record {
    there =
        ground
          (arith, h.there, other, get-append k key id c.candidates, get-remove k key c.candidates);
    contest = ground (arith, h.contest, other, string_eq.beq_iff k key, string_eq.beq_iff key k);
  }

  module _ (id : String) (c : Claims) (free : has k occupied ≡ false) where
    Stands-first : Stands c none false → Stands (claim occupied k id c) (some id) false
    unfolding claim
    Stands-first h = record {
      there = ground (arith, free, h.there, h.contest, get-append k k id c.candidates, beq_refl k);
      contest = ground (arith, free, h.there, h.contest);
    }

    Stands-again :
        (i : String)
        → Stands c (some i) false
        → (i == id) ≡ true
        → Stands (claim occupied k id c) (some i) false
    unfolding claim
    Stands-again i h same = record {
      there = ground (arith, free, h.there, h.contest, same);
      contest = ground (arith, free, h.there, h.contest, same);
    }

    Stands-dispute :
        (i : String)
        → Stands c (some i) false
        → (i == id) ≡ false
        → Stands (claim occupied k id c) none true
    unfolding claim
    Stands-dispute i h other = record {
      there =
          ground (arith, free, h.there, h.contest, other, get-remove k k c.candidates, beq_refl k);
      contest = ground (arith, free, h.there, h.contest, other, beq_refl k);
    }

  Stands-lost :
      (id : String) (c : Claims) → Stands c none true → Stands (claim occupied k id c) none true
  unfolding claim
  Stands-lost id c h = record {
    there = ground (arith, h.there, h.contest);
    contest = ground (arith, h.there, h.contest);
  }

  module _ (free : has k occupied ≡ false) where
    get-claim_all_lost :
        (es : Dict) (c : Claims)
        → Stands c none true
        → get k (claim_all occupied es c).candidates ≡ none
    unfolding claim_all
    get-claim_all_lost [] c h = h.there
    get-claim_all_lost ((key, id) ∷ es) c h = elim (Bool-cases (key == k)) [
      | inl same ↦
          get-claim_all_lost es (claim occupied key id c)
            (rw ((string_eq.beq_iff key k).0 same) (Stands-lost id c h))
      | inr other ↦
          get-claim_all_lost es (claim occupied key id c)
            (Stands-claim_other key id c none true other h)
    ]

    get-claim_all_claimed :
        (i : String) (es : Dict) (c : Claims)
        → Stands c (some i) false
        → get k (claim_all occupied es c).candidates
          ≡ (if all (λ j. i == j) (claimants k es) then some i else none)
    unfolding claim_all
    get-claim_all_claimed i [] c h = h.there
    get-claim_all_claimed i ((key, id) ∷ es) c h = elim (Bool-cases (key == k)) [
      | inr other ↦ rw other (
          get-claim_all_claimed i es (claim occupied key id c)
            (Stands-claim_other key id c (some i) false other h))
      | inl same ↦
          let key_is_k = (string_eq.beq_iff key k).0 same in
          elim (Bool-cases (i == id)) [
            | inl agrees ↦
                rw (same, agrees)
                  (get-claim_all_claimed i es (claim occupied key id c)
                    (rw key_is_k (Stands-again id c free i h agrees)))
            | inr differs ↦
                rw (same, differs)
                  (get-claim_all_lost es (claim occupied key id c)
                    (rw key_is_k (Stands-dispute id c free i h differs)))
          ]
    ]

    get-claim_all_free :
        (es : Dict) (c : Claims)
        → Stands c none false
        → get k (claim_all occupied es c).candidates ≡ agreed (claimants k es)
    unfolding claim_all
    get-claim_all_free [] c h = h.there
    get-claim_all_free ((key, id) ∷ es) c h = elim (Bool-cases (key == k)) [
      | inr other ↦ rw other (
          get-claim_all_free es (claim occupied key id c)
            (Stands-claim_other key id c none false other h))
      | inl same ↦ rw same (
          get-claim_all_claimed id es (claim occupied key id c)
            (rw ((string_eq.beq_iff key k).0 same) (Stands-first id c free h)))
    ]

  get-claim_all_occupied :
      (es : Dict) (c : Claims)
      → has k occupied ≡ true
      → get k c.candidates ≡ none
      → get k (claim_all occupied es c).candidates ≡ none
  unfolding claim_all claim
  get-claim_all_occupied [] c taken h = h
  get-claim_all_occupied ((key, id) ∷ es) c taken h =
      get-claim_all_occupied es (claim occupied key id c) taken (
        ground (
          arith,
          taken,
          h,
          string_eq.beq_iff key k,
          get-append k key id c.candidates,
          get-remove k key c.candidates,
        ))

-- A derived alias maps to an id exactly where no real label has the key and every record that derives
-- the key from one of its labels has this id; a key of a real label, a key that nothing derives and a
-- key that two ids claim have no derived alias.
pub get-derived_alias_index :
    (lib : LabelLibrary) (records : List SkillRecord) (occupied : Dict) (k : String)
    → get k (derived_alias_index lib records occupied)
      ≡ (if has k occupied then none else agreed (claimants k (derived_keys lib records)))
unfolding derived_alias_index get
get-derived_alias_index lib records occupied k =
    let start : Claims = record { candidates = []; contested = [] } in
    let keys = derived_keys lib records in
    elim (Bool-cases (has k occupied)) [
      | inl taken ↦ rw taken (get-claim_all_occupied occupied k keys start taken refl)
      | inr free ↦
          rw free (
            get-claim_all_free occupied k free keys start (record { there = refl; contest = refl }))
    ]
