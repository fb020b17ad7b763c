-- ===== src/Db/Laws.antt =====
-- Laws of tables: reads and counts after an UPDATE or an INSERT.
use job_match_pipeline.Prelude.{
  ◌≡◌, refl, Bool, true, false, List, [], ◌∷◌, ◌++◌, Option, none, some, arith, if◌then◌else◌,
  nat_eq, find, any, length, keep, ◌≤◌, ◌&&◌,
}
use job_match_pipeline.Db.Session.{update}

module _ {ℓ} {A : Type ℓ} where
  abbrev pub map_found : (A → A) → Option A → Option A
  map_found f none = none
  map_found f (some a) = some (f a)

  -- A read by a key after an UPDATE of the rows with that key.
  pub find-update :
      (p : A → Bool) (f : A → A) (xs : List A)
      → ((x : A) → p (f x) ≡ p x)
      → find p (update p f xs) ≡ map_found f (find p xs)
  find-update p f [] h = refl
  find-update p f (x ∷ xs) h = ground (arith, h x, find-update p f xs h)

  -- A read by another key is not changed by an UPDATE that keeps keys.
  pub find-update_ne :
      (q p : A → Bool) (f : A → A) (xs : List A)
      → ((x : A) → q (f x) ≡ q x)
      → ((x : A) → p x ≡ true → q x ≡ false)
      → find q (update p f xs) ≡ find q xs
  find-update_ne q p f [] h d = refl
  find-update_ne q p f (x ∷ xs) h d = ground (arith, h x, d x, find-update_ne q p f xs h d)

  -- What a table already shows stays after an INSERT.
  pub find-append_some :
      (p : A → Bool) (xs ys : List A) (a : A) → find p xs ≡ some a → find p (xs ++ ys) ≡ some a
  find-append_some p [] ys a h = ground arith
  find-append_some p (x ∷ xs) ys a h = ground (arith, find-append_some p xs ys a)

  pub find-append_none :
      (p : A → Bool) (xs ys : List A) → find p xs ≡ none → find p (xs ++ ys) ≡ find p ys
  find-append_none p [] ys h = refl
  find-append_none p (x ∷ xs) ys h = ground (arith, find-append_none p xs ys)

  pub find-true : (p : A → Bool) (xs : List A) (a : A) → find p xs ≡ some a → p a ≡ true
  find-true p [] a h = ground arith
  find-true p (x ∷ xs) a h = ground (arith, find-true p xs a)

  pub length-update : (p : A → Bool) (f : A → A) (xs : List A) → length (update p f xs) ≡ length xs
  length-update p f [] = refl
  length-update p f (x ∷ xs) = omega (arith, length-update p f xs)

  -- A read after an UPDATE by any test: the row that was read, updated if it passes the test.
  pub find-update_if :
      (p q : A → Bool) (f : A → A) (xs : List A)
      → ((x : A) → p (f x) ≡ p x)
      → find p (update q f xs) ≡ map_found (λ a. if q a then f a else a) (find p xs)
  find-update_if p q f [] h = refl
  find-update_if p q f (x ∷ xs) h = ground (arith, h x, find-update_if p q f xs h)

  -- The UPDATE reaches a row where a read finds one.
  pub any-find :
      (p q : A → Bool) (xs : List A) (a : A) → find p xs ≡ some a → q a ≡ true → any q xs ≡ true
  any-find p q [] a h e = ground arith
  any-find p q (x ∷ xs) a h e = ground (arith, any-find p q xs a)

  -- Where a key is unique, a test on the keyed row decides how many rows pass both.
  pub count-keyed_none :
      (p q : A → Bool) (xs : List A) → find p xs ≡ none → length (keep (λ x. p x && q x) xs) ≡ 0
  count-keyed_none p q [] h = refl
  count-keyed_none p q (x ∷ xs) h = ground (arith, count-keyed_none p q xs)

  find-none_of_count : (p : A → Bool) (xs : List A) → length (keep p xs) ≡ 0 → find p xs ≡ none
  find-none_of_count p [] h = refl
  find-none_of_count p (x ∷ xs) h = ground (arith, find-none_of_count p xs)

  pub count-keyed :
      (p q : A → Bool) (xs : List A) (a : A)
      → length (keep p xs) ≤ 1
      → find p xs ≡ some a
      → length (keep (λ x. p x && q x) xs) ≡ (if q a then 1 else 0)
  count-keyed p q [] a one h = ground arith
  count-keyed p q (x ∷ xs) a one h =
      ground (arith, count-keyed p q xs a, count-keyed_none p q xs, find-none_of_count p xs)

  pub count-update :
      (p q : A → Bool) (f : A → A) (xs : List A)
      → ((x : A) → p (f x) ≡ p x)
      → length (keep p (update q f xs)) ≡ length (keep p xs)
  count-update p q f [] h = refl
  count-update p q f (x ∷ xs) h = ground (arith, h x, count-update p q f xs h)

  -- An UPDATE that no row passes changes nothing.
  pub update-none :
      (q : A → Bool) (f : A → A) (xs : List A) → length (keep q xs) ≡ 0 → update q f xs ≡ xs
  update-none q f [] h = refl
  update-none q f (x ∷ xs) h = ground (arith, update-none q f xs)
