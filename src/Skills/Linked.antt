-- ===== src/Skills/Linked.antt =====
-- link_span of app/skills/linker.py: what stands behind a link.
use job_match_pipeline.Prelude.{
  ℕ, ◌+◌, ◌≤◌, ◌≡◌, ◌⊎◌, refl, sym, Bool, true, false, ◌&&◌, String, List, [], ◌∷◌, ◌++◌, Option,
  none, some, keep, any, length, leb, leb→le, is_empty, string_eq, nat_eq, if◌then◌else◌, ◌==◌,
  arith, Bool-cases, Option-cases, inl, inr, length-keep-snoc,
}
use mathlib.Core.List.{append_assoc, append-nil}
use mathlib.Core.Path.{subst}
use job_match_pipeline.Prelude.Text.{truthy}
use job_match_pipeline.Db.Rows.{Score}
use job_match_pipeline.Skills.Labels.{LabelLibrary, normalize_label}
use job_match_pipeline.Skills.Aliases.{get}
use job_match_pipeline.Skills.Linker.{
  Vector, Index, Ranking, beats, score_of, rank_one, rank_all, accept, scores, similarity_link,
  link_span,
}

abbrev pub Scored : Type 0
Scored = List (String × Score)

-- How many entries have a higher score.
abbrev pub above : Option Score → Scored → ℕ
above bound xs = length (keep (λ e. beats e.1 bound) xs)

abbrev pub has_entry : String → Score → Scored → Bool
has_entry id s xs = any (λ e. e.0 == id && nat_eq.beq e.1 s) xs

abbrev is_there : Option (String × Score) → Scored → Bool
is_there none xs = is_empty xs
is_there (some (id, s)) xs = has_entry id s xs

abbrev is_in_order : Option Score → Option Score → Bool
is_in_order none best = true
is_in_order (some t) none = false
is_in_order (some t) (some s) = leb t s

-- The two scores so far stand above all others.
record IsRanked (done : Scored) (r : Ranking) : Type 0 where
  best : above (score_of r.best) done ≡ 0
  second : above r.second done ≤ 1
  sorted : is_in_order r.second (score_of r.best) ≡ true
  there : is_there r.best done ≡ true

above-le : (a b : Option Score) (xs : Scored) → is_in_order a b ≡ true → above b xs ≤ above a xs
above-le a b [] h = omega arith
above-le a b (x ∷ xs) h = ground (arith, above-le a b xs)

has_entry-snoc :
    (id i : String) (s t : Score) (xs : Scored)
    → has_entry id s (xs ++ (i, t) ∷ [])
      ≡ (if has_entry id s xs then true else i == id && nat_eq.beq t s)
has_entry-snoc id i s t [] = ground arith
has_entry-snoc id i s t (x ∷ xs) = ground (arith, has_entry-snoc id i s t xs)

above-snoc :
    (bound : Option Score) (id : String) (s : Score) (xs : Scored)
    → above bound (xs ++ (id, s) ∷ []) ≡ above bound xs + (if beats s bound then 1 else 0)
above-snoc bound id s xs = length-keep-snoc (λ e. beats e.1 bound) xs (id, s)

is_there-snoc :
    (best : Option (String × Score)) (id : String) (s : Score) (xs : Scored)
    → is_there best xs ≡ true
    → beats s (score_of best) ≡ false
    → is_there best (xs ++ (id, s) ∷ []) ≡ true
is_there-snoc none id s xs h low = ground arith
is_there-snoc (some (i, t)) id s xs h low = ground (arith, has_entry-snoc i id t s xs)

rank_one-IsRanked :
    (done : Scored) (id : String) (s : Score) (r : Ranking)
    → IsRanked done r
    → IsRanked (done ++ (id, s) ∷ []) (rank_one id s r)
unfolding rank_one
rank_one-IsRanked done id s r h = elim (Bool-cases (beats s (score_of r.best))) [
  | inl top ↦ rw top (record {
    best = ground (
      arith,
      h.best,
      top,
      above-snoc (some s) id s done,
      above-le (score_of r.best) (some s) done,
    );
    second = ground (arith, h.best, above-snoc (score_of r.best) id s done);
    sorted = ground (arith, top);
    there = ground (arith, has_entry-snoc id id s s done, string_eq.beq_iff id id);
  })
  | inr low ↦ rw low (elim (Bool-cases (beats s r.second)) [
    | inl next ↦ rw next (record {
      best = ground (arith, h.best, low, above-snoc (score_of r.best) id s done);
      second =
          ground
            (arith, h.second, next, above-snoc (some s) id s done, above-le r.second (some s) done);
      sorted = ground (arith, low);
      there = is_there-snoc r.best id s done h.there low;
    })
    | inr rest ↦ rw rest (record {
      best = ground (arith, h.best, low, above-snoc (score_of r.best) id s done);
      second = ground (arith, h.second, rest, above-snoc r.second id s done);
      sorted = h.sorted;
      there = is_there-snoc r.best id s done h.there low;
    })
  ])
]

rank_all-IsRanked :
    (done xs : Scored) (r : Ranking) → IsRanked done r → IsRanked (done ++ xs) (rank_all xs r)
unfolding rank_all
rank_all-IsRanked done [] r h = subst (λ ys. IsRanked ys r) (sym (append-nil done)) h
rank_all-IsRanked done ((id, s) ∷ xs) r h =
    subst (λ ys. IsRanked ys (rank_all xs (rank_one id s r))) (append_assoc done ((id, s) ∷ []) xs)
      (rank_all-IsRanked (done ++ (id, s) ∷ []) xs (rank_one id s r)
        (rank_one-IsRanked done id s r h))

-- The entry of an id is accepted: no score is higher, at most one is higher than `second`, and the
-- score is of the high tier, or passes the threshold with the margin over `second`.
pub record IsNearest (index : Index) (xs : Scored) (id : String) : Type 0 where
  pub score : Score
  pub second : Option Score
  pub there : has_entry id score xs ≡ true
  pub best : above (some score) xs ≡ 0
  pub next : above second xs ≤ 1
  pub tier :
      (index.high_confidence ≤ score)
      ⊎ ((index.threshold ≤ score) × (index.has_margin score second ≡ true))

abbrev tier_of : Index → Score → Option Score → Bool
tier_of index s second =
    if leb index.high_confidence s then true else leb index.threshold s && index.has_margin s second

IsTier-tier_of :
    (index : Index) (s : Score) (second : Option Score)
    → tier_of index s second ≡ true
    → (index.high_confidence ≤ s) ⊎ ((index.threshold ≤ s) × (index.has_margin s second ≡ true))
IsTier-tier_of index s second h = elim (Bool-cases (leb index.high_confidence s)) [
  | inl high ↦ inl (leb→le index.high_confidence s high)
  | inr low ↦ inr (ground (arith, h, low), ground (arith, h, low))
]

accept-tier :
    (index : Index) (r : Ranking) (i id : String) (s : Score)
    → r.best ≡ some (i, s)
    → accept index r ≡ some id
    → (i ≡ id) × (tier_of index s r.second ≡ true)
unfolding accept
accept-tier index r i id s b e = ground (arith, b, e)

accept-IsNearest :
    (index : Index) (xs : Scored) (r : Ranking) (id : String)
    → IsRanked xs r
    → accept index r ≡ some id
    → IsNearest index xs id
unfolding accept
accept-IsNearest index xs r id h e = elim (Option-cases r.best) [
  | inl b ↦ absurd (ground (arith, b, e))
  | inr ((i, s), b) ↦
      let (same, tier) = accept-tier index r i id s b e in
      record {
        score = s;
        second = r.second;
        there = ground (arith, h.there, b, same);
        best = ground (arith, h.best, b);
        next = h.second;
        tier = IsTier-tier_of index s r.second tier;
      }
]

module _ (lib : LabelLibrary) (cosine_similarity : Vector → Vector → Score) where
  abbrev pub scores_of : Index → (String → Vector) → String → Scored
  scores_of index embed span = scores lib cosine_similarity (embed span) index.vectors

  similarity_link-IsNearest :
      (index : Index) (span id : String)
      → similarity_link lib cosine_similarity index span ≡ some id
      → (embed : String → Vector) × (index.embed ≡ some embed)
        × IsNearest index (scores_of index embed span) id
  unfolding similarity_link rank_all
  similarity_link-IsNearest index span id e = elim (Option-cases index.embed) [
    | inl b ↦ absurd (ground (arith, b, e))
    | inr (embed, b) ↦ (
      embed,
      b,
      accept-IsNearest index (scores_of index embed span)
          (rank_all (scores_of index embed span) (record { best = none; second = none })) id
          (rank_all-IsRanked [] (scores_of index embed span) (record { best = none; second = none })
            (record { best = refl; second = omega arith; sorted = refl; there = refl }))
          (ground (arith, b, e)),
    )
  ]

  -- A span that is linked to an id has a normalized text that is not empty, and this is a key of the
  -- index with this id, or there is an embedder, and no vector has a higher score than the id's: this
  -- score is of the high tier, or it passes the threshold and the margin over a score that at most one
  -- of the vectors exceeds.
  pub link_span-IsSupported :
      (index : Index) (span id : String)
      → link_span lib cosine_similarity index span ≡ some id
      → (truthy (normalize_label lib span) ≡ true)
        × ((get (normalize_label lib span) index.exact ≡ some id)
            ⊎ ((embed : String → Vector) × (index.embed ≡ some embed)
                × IsNearest index (scores_of index embed span) id))
  unfolding link_span
  link_span-IsSupported index span id e = elim (Bool-cases (truthy (normalize_label lib span))) [
    | inl t ↦ (
      t,
      elim (Option-cases (get (normalize_label lib span) index.exact)) [
        | inl g ↦ inr (similarity_link-IsNearest index span id (ground (arith, t, g, e)))
        | inr (i, g) ↦ inl (ground (arith, t, g, e))
      ],
    )
    | inr f ↦ absurd (ground (arith, f, e))
  ]
