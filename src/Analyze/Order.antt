-- ===== src/Analyze/Order.antt =====
-- app/analyze/batch.py: the order of the candidates.
use mathlib.Core.List.{Perm}
use mathlib.Core.List.Perm
use job_match_pipeline.Prelude.{
  ℕ, ◌≡◌, ◌⊎◌, inl, inr, true, false, Option, arith, List, [], ◌∷◌, All, All-map, Bool-cases, refl,
}
use job_match_pipeline.Screen.Labels.{qualification_label_rank}
use job_match_pipeline.Db.Rows.{Match}
use job_match_pipeline.Analyze.Ranking.{key_before, ranks_before, insert, order}

module _ (ta ra : Option ℕ) (ca : ℕ) (tb rb : Option ℕ) (cb : ℕ) where
  key_before-total : (key_before ta ra ca tb rb cb ≡ true) ⊎ (key_before tb rb cb ta ra ca ≡ true)
  unfolding key_before
  key_before-total = ground arith

  key_before_trans :
      (tc rc : Option ℕ) (cc : ℕ)
      → key_before ta ra ca tb rb cb ≡ true
      → key_before tb rb cb tc rc cc ≡ true
      → key_before ta ra ca tc rc cc ≡ true
  unfolding key_before
  key_before_trans tc rc c3 p q = ground arith

ranks_before-total : (a b : Match) → (ranks_before a b ≡ true) ⊎ (ranks_before b a ≡ true)
unfolding ranks_before
ranks_before-total a b = key_before-total _ _ _ _ _ _

ranks_before_trans :
    (a b c : Match) → ranks_before a b ≡ true → ranks_before b c ≡ true → ranks_before a c ≡ true
unfolding ranks_before
ranks_before_trans a b c p q =
    key_before_trans (qualification_label_rank a.qualification_label) a.rerank_score a.cycle_at
      (qualification_label_rank b.qualification_label) b.rerank_score b.cycle_at
      (qualification_label_rank c.qualification_label) c.rerank_score c.cycle_at p q

abbrev pub Before : Match → Match → Type 0
Before a b = ranks_before a b ≡ true

-- Every row may stand before all that follow it.
abbrev pub IsOrdered : List Match → Type 0
IsOrdered [] = Unit
IsOrdered (x ∷ xs) = All (Before x) xs × IsOrdered xs

All-insert :
    (P : Match → Type 0) (m : Match) (xs : List Match) → P m → All P xs → All P (insert m xs)
unfolding insert
All-insert P m [] p h = (p, tt)
All-insert P m (x ∷ xs) p h = elim (Bool-cases (ranks_before m x)) [
  | inl first ↦ rw first (p, h)
  | inr later ↦ rw later (h.0, All-insert P m xs p h.1)
]

insert-IsOrdered : (m : Match) (xs : List Match) → IsOrdered xs → IsOrdered (insert m xs)
unfolding insert
insert-IsOrdered m [] h = (tt, tt)
insert-IsOrdered m (x ∷ xs) h = elim (Bool-cases (ranks_before m x)) [
  | inl first ↦ rw first ((first, All-map (λ y b. ranks_before_trans m x y first b) xs h.0), h)
  | inr later ↦
      rw later (All-insert (Before x) m xs (behind m x later) h.0, insert-IsOrdered m xs h.1)
]
  where
    behind : (m x : Match) → ranks_before m x ≡ false → Before x m
    behind m x later = elim (ranks_before-total x m) [ inl b ↦ b | inr c ↦ absurd (ground arith) ]

pub order-IsOrdered : (xs : List Match) → IsOrdered (order xs)
unfolding order
order-IsOrdered [] = tt
order-IsOrdered (x ∷ xs) = insert-IsOrdered x (order xs) (order-IsOrdered xs)

insert-perm : (m : Match) (xs : List Match) → Perm (insert m xs) (m ∷ xs)
unfolding insert
insert-perm m [] = Perm.refl _
insert-perm m (x ∷ xs) = elim (Bool-cases (ranks_before m x)) [
  | inl first ↦ rw first (Perm.refl _)
  | inr later ↦ rw later (Perm.trans (Perm.cons x (insert-perm m xs)) (Perm.swap m x xs))
]

pub order-perm : (xs : List Match) → Perm (order xs) xs
unfolding order
order-perm [] = Perm.refl _
order-perm (x ∷ xs) = Perm.trans (insert-perm x (order xs)) (Perm.cons x (order-perm xs))
