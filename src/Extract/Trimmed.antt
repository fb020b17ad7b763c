-- ===== src/Extract/Trimmed.antt =====
-- app/extract/synthesize.py: what the loops leave of the lists.
use job_match_pipeline.Prelude.{
  ℕ, zero, suc, ◌≤◌, ◌<◌, ◌≡◌, ◌⊎◌, inl, inr, refl, sym, ap, ◌∙◌, leb, leb→le, Bool, true, false,
  String, List, [], ◌∷◌, take, length, arith, Bool-cases, length-take,
}
use job_match_pipeline.Extract.Synthesize.{fits, pop, pop_until, Header, render, kept_requirements}

pop-take : (x : String) (xs : List String) → pop (x ∷ xs) ≡ take (length xs) (x ∷ xs)
pop-take x [] = refl
pop-take x (y ∷ xs) = ground (arith, pop-take y xs)

take_all : (xs : List String) → take (length xs) xs ≡ xs
take_all [] = refl
take_all (x ∷ xs) = ground (arith, take_all xs)

take-take : (j n : ℕ) (xs : List String) → j ≤ n → take j (take n xs) ≡ take j xs
take-take zero n xs h = refl
take-take (suc j) zero xs h = ground arith
take-take (suc j) (suc n) [] h = refl
take-take (suc j) (suc n) (x ∷ xs) h = ground (arith, take-take j n xs)

module _ (ok : List String → Bool) where
  -- The longest prefix that passes the test, or nothing where none does.
  pub record IsLongest (xs kept : List String) : Type 0 where
    pub prefix : kept ≡ take (length kept) xs
    pub passes : (ok kept ≡ true) ⊎ (kept ≡ [])
    pub longest : (j : ℕ) → length kept < j → j ≤ length xs → ok (take j xs) ≡ false

  IsLongest-self : (xs : List String) → (ok xs ≡ true) ⊎ (xs ≡ []) → IsLongest xs xs
  IsLongest-self xs h = record {
    prefix = ground (arith, take_all xs);
    passes = h;
    longest = λ j above below. absurd (omega arith);
  }

  IsLongest-pop :
      (x : String) (xs kept : List String)
      → ok (x ∷ xs) ≡ false
      → IsLongest (take (length xs) (x ∷ xs)) kept
      → IsLongest (x ∷ xs) kept
  IsLongest-pop x xs kept bad h = record {
    prefix =
        h.prefix
        ∙ take-take (length kept) (length xs) (x ∷ xs) (
            ground (
              arith,
              ap length h.prefix,
              length-take (length kept) (take (length xs) (x ∷ xs)),
              length-take (length xs) (x ∷ xs),
            ));
    passes = h.passes;
    longest = λ j above below. elim (Bool-cases (leb j (length xs))) [
      | inl e ↦
          rw (sym (take-take j (length xs) (x ∷ xs) (leb→le j (length xs) e)))
            (h.longest j above (ground (arith, length-take (length xs) (x ∷ xs))))
      | inr e ↦ let whole : j ≡ suc (length xs) = ground arith in rw (whole, take_all xs) bad
    ];
  }

  pop_until-IsLongest :
      (n : ℕ) (xs : List String) → length xs ≤ n → IsLongest xs (pop_until ok n xs)
  unfolding pop_until
  pop_until-IsLongest zero [] h = IsLongest-self [] (inr refl)
  pop_until-IsLongest zero (x ∷ xs) h = absurd (omega arith)
  pop_until-IsLongest (suc n) [] h = elim (Bool-cases (ok [])) [
    | inl e ↦ rw e (IsLongest-self [] (inr refl))
    | inr e ↦ rw e (IsLongest-self [] (inr refl))
  ]
  pop_until-IsLongest (suc n) (x ∷ xs) h = elim (Bool-cases (ok (x ∷ xs))) [
    | inl e ↦ rw e (IsLongest-self (x ∷ xs) (inl e))
    | inr e ↦
        rw (e, pop-take x xs)
          (IsLongest-pop x xs (pop_until ok n (take (length xs) (x ∷ xs))) e (
            pop_until-IsLongest n (take (length xs) (x ∷ xs))
              (ground (arith, length-take (length xs) (x ∷ xs)))))
  ]

-- Of the requirements, the document keeps the longest prefix with which it fits beside all the skills;
-- where not even the empty one does, it keeps none.
pub kept_requirements-IsLongest :
    (h : Header) (skills reqs : List String)
    → IsLongest (λ r. fits (render h skills r)) reqs (kept_requirements h skills reqs)
unfolding kept_requirements
kept_requirements-IsLongest h skills reqs =
    pop_until-IsLongest (λ r. fits (render h skills r)) (length reqs) reqs (omega arith)
