-- ===== src/Prelude/Sets.antt =====
-- Python's `set` as a list of its elements: membership, and order-stable removal of duplicates.
use mathlib.Core.Path.{◌≡◌, refl}
use mathlib.Core.Bool.{Bool, true, false, ◌&&◌, ◌||◌, not}
use mathlib.Core.List.{List, [], ◌∷◌, ◌++◌}
use native.Mathlib.Omega.{arith}
use job_match_pipeline.Prelude.Equality.{Eq, ◌==◌, beq_refl}
use job_match_pipeline.Prelude.Lists.{keep}

module _ {ℓ} {A : Type ℓ} ⦃e : Eq A⦄ where
  -- `x in xs`
  abbrev pub elem : A → List A → Bool
  elem x [] = false
  elem x (y ∷ ys) = x == y || elem x ys

  -- No element twice.
  abbrev pub IsDistinct : List A → Type 0
  IsDistinct [] = Unit
  IsDistinct (x ∷ xs) = (elem x xs ≡ false) × IsDistinct xs

  abbrev pub subset : List A → List A → Bool
  subset [] ys = true
  subset (x ∷ xs) ys = elem x ys && subset xs ys

  -- `xs - ys`
  abbrev pub minus : List A → List A → List A
  minus xs ys = keep (λ x. not (elem x ys)) xs

  pub elem-append : (x : A) (xs ys : List A) → elem x (xs ++ ys) ≡ (elem x xs || elem x ys)
  elem-append x [] ys = refl
  elem-append x (y ∷ xs) ys = ground (arith, elem-append x xs ys)

  pub elem-keep : (p : A → Bool) (x : A) (xs : List A) → elem x (keep p xs) ≡ (elem x xs && p x)
  elem-keep p x [] = refl
  elem-keep p x (y ∷ xs) = ground (arith, elem-keep p x xs, e.beq_iff x y)

  pub elem-minus : (x : A) (xs ys : List A) → elem x (minus xs ys) ≡ (elem x xs && not (elem x ys))
  elem-minus x xs ys = elem-keep (λ y. not (elem y ys)) x xs

  -- An empty difference is inclusion, both ways.
  pub minus-nil :
      (xs ys : List A) → minus xs ys ≡ [] → (x : A) → elem x xs ≡ true → elem x ys ≡ true
  minus-nil xs ys h x m = ground (arith, elem-minus x xs ys)

  pub IsDistinct-keep : (p : A → Bool) (xs : List A) → IsDistinct xs → IsDistinct (keep p xs)
  IsDistinct-keep p [] h = tt
  IsDistinct-keep p (x ∷ xs) h = ground (arith, elem-keep p x xs, IsDistinct-keep p xs)

  nil_of_no_elem : (xs : List A) → ((x : A) → elem x xs ≡ false) → xs ≡ []
  nil_of_no_elem [] h = refl
  nil_of_no_elem (x ∷ xs) h = absurd (ground (arith, h x, beq_refl x))

  pub nil-minus :
      (xs ys : List A) → ((x : A) → elem x xs ≡ true → elem x ys ≡ true) → minus xs ys ≡ []
  nil-minus xs ys h = nil_of_no_elem (minus xs ys) (λ x. ground (arith, elem-minus x xs ys, h x))
