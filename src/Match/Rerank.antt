-- ===== src/Match/Rerank.antt =====
-- app/match/rerank.py: the reranker that reuses the recall's similarity.
use job_match_pipeline.Prelude.{
  ℕ, ◌≤◌, ◌≡◌, String, List, [], ◌∷◌, Option, none, some, map, take, leb, arith, if◌then◌else◌, All,
  All-map, Bool-cases, inl, inr, true,
}
use job_match_pipeline.Db.Rows.{Score}

pub record RerankDocument : Type 0 where
  pub id : String
  pub text : String
  pub similarity : Option Score

pub record RerankResult : Type 0 where
  pub id : String
  pub score : Score

-- `Reranker.rerank`: a query, the documents and `top_n`.
abbrev pub Reranker : Type 0
Reranker = String → List RerankDocument → ℕ → List RerankResult

-- `sorted(xs, key=key, reverse=True)`, which keeps the order of equal keys.
module _ {A : Type 0} (key : A → Score) where
  unfoldable pub insert_desc : A → List A → List A
  insert_desc x [] = x ∷ []
  insert_desc x (y ∷ ys) =
      let rest = insert_desc x ys in if leb (key y) (key x) then x ∷ y ∷ ys else y ∷ rest

  unfoldable pub sort_desc : List A → List A
  unfolding insert_desc
  sort_desc [] = []
  sort_desc (x ∷ xs) = insert_desc x (sort_desc xs)

  -- Each key is at least all that follow.
  abbrev pub IsDescending : List A → Type 0
  IsDescending [] = Unit
  IsDescending (x ∷ xs) = All (λ y. key y ≤ key x) xs × IsDescending xs

  pub All-insert_desc :
      (P : A → Type 0) (x : A) (ys : List A) → P x → All P ys → All P (insert_desc x ys)
  unfolding insert_desc
  All-insert_desc P x [] p h = (p, tt)
  All-insert_desc P x (y ∷ ys) p h = elim (Bool-cases (leb (key y) (key x))) [
    | inl first ↦ rw first (p, h)
    | inr later ↦ rw later (h.0, All-insert_desc P x ys p h.1)
  ]

  insert_desc-IsDescending :
      (x : A) (ys : List A) → IsDescending ys → IsDescending (insert_desc x ys)
  unfolding insert_desc
  insert_desc-IsDescending x [] h = (tt, tt)
  insert_desc-IsDescending x (y ∷ ys) h = elim (Bool-cases (leb (key y) (key x))) [
    | inl first ↦
        rw first
          ((ground arith, All-map (λ z (le : key z ≤ key y). le_of_first z le first) ys h.0), h)
    | inr later ↦ rw later (
      All-insert_desc (λ z. key z ≤ key y) x ys (ground arith) h.0,
      insert_desc-IsDescending x ys h.1,
    )
  ]
    where
      le_of_first : (z : A) → key z ≤ key y → leb (key y) (key x) ≡ true → key z ≤ key x
      le_of_first z le first = ground arith

  pub sort_desc-IsDescending : (xs : List A) → IsDescending (sort_desc xs)
  unfolding sort_desc
  sort_desc-IsDescending [] = tt
  sort_desc-IsDescending (x ∷ xs) =
      insert_desc-IsDescending x (sort_desc xs) (sort_desc-IsDescending xs)

-- `float(doc.similarity or 0.0)`; `zero_score` is the place of 0.0.
abbrev similarity_or : Score → Option Score → Score
similarity_or zero_score none = zero_score
similarity_or zero_score (some s) = s

unfoldable pub cosine_rerank : Score → Reranker
unfolding sort_desc
cosine_rerank zero_score query documents top_n = take top_n (
    sort_desc (λ (r : RerankResult). r.score)
      (map (λ doc. record { id = doc.id; score = similarity_or zero_score doc.similarity })
        documents))
