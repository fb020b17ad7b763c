-- ===== src/Profile/Trimmed.antt =====
-- app/profile/synthesize.py: what the trimming of a history leaves.
use job_match_pipeline.Prelude.{
  ℕ, zero, suc, ◌≤◌, ◌≡◌, refl, sym, Bool, true, false, ◌||◌, ◌&&◌, not, String, List, [], ◌∷◌,
  length, ltb, arith, Bool-cases, inl, inr,
}
use mathlib.Core.Path.{subst}
use job_match_pipeline.Extract.Synthesize.{pop}
use job_match_pipeline.Profile.Schema.{WorkHistoryEntry}
use job_match_pipeline.Profile.Document.{
  RoleText, is_long, trim_first, trim_oldest, has_bullets, trim_bullets, weight, trimmed,
}
use job_match_pipeline.Profile.Tail.{
  IsTail, IsTail-pop, IsTail-older, IsTail-refl, IsTail-step, length-pop,
}

module _ (header : List String) (max_tokens : ℕ) where
  abbrev long : List RoleText → Bool
  long history = is_long header max_tokens history

  weight-trim_first :
      (h : List RoleText)
      → ltb 1 (length h) ≡ true
      → suc (weight header max_tokens (trim_first header max_tokens h)) ≤ weight header max_tokens h
  weight-trim_first [] h = ground (arith, h)
  weight-trim_first ((e, []) ∷ rest) h = omega arith
  weight-trim_first ((e, b ∷ bs) ∷ rest) h = omega (arith, length-pop b bs)

  trim_oldest-ends :
      (n : ℕ) (h : List RoleText)
      → weight header max_tokens h ≤ n
      → let kept = trim_oldest header max_tokens n h in (long kept && ltb 1 (length kept)) ≡ false
  unfolding trim_oldest
  trim_oldest-ends zero [] enough = ground arith
  trim_oldest-ends zero ((e, bs) ∷ rest) enough = absurd (omega (arith, enough))
  trim_oldest-ends (suc n) h enough =
      elim (Bool-cases (is_long header max_tokens h && ltb 1 (length h))) [
        | inl e ↦ rw e (
            trim_oldest-ends n (trim_first header max_tokens h)
              (ground (arith, enough, e, weight-trim_first h)))
        | inr e ↦ rw e e
      ]

  trim_oldest-IsTail :
      (n : ℕ) (r : RoleText) (rest : List RoleText)
      → IsTail (r ∷ rest) (trim_oldest header max_tokens n (r ∷ rest))
  unfolding trim_oldest
  trim_oldest-IsTail zero r rest = IsTail-refl r rest
  trim_oldest-IsTail (suc n) (e, []) [] = ground (arith, IsTail-refl (e, []) [])
  trim_oldest-IsTail (suc n) (e, []) (r ∷ rest) =
      elim (Bool-cases
        (is_long header max_tokens ((e, []) ∷ r ∷ rest) && ltb 1 (length ((e, []) ∷ r ∷ rest)))) [
          | inl x ↦ rw x (IsTail-older (e, []) (r ∷ rest) _ (trim_oldest-IsTail n r rest))
          | inr x ↦ rw x (IsTail-refl (e, []) (r ∷ rest))
        ]
  trim_oldest-IsTail (suc n) (e, b ∷ bs) rest =
      elim (Bool-cases
        (is_long header max_tokens ((e, b ∷ bs) ∷ rest) && ltb 1 (length ((e, b ∷ bs) ∷ rest)))) [
          | inl x ↦ rw x (IsTail-pop e b bs rest _ (trim_oldest-IsTail n (e, pop (b ∷ bs)) rest))
          | inr x ↦ rw x (IsTail-refl (e, b ∷ bs) rest)
        ]

  -- The second loop
  trim_bullets-ends :
      (n : ℕ) (e : WorkHistoryEntry) (bs : List String) (rest : List RoleText)
      → length bs ≤ n
      → let kept = trim_bullets header max_tokens n ((e, bs) ∷ rest) in
        (long kept && has_bullets header max_tokens kept) ≡ false
  unfolding trim_bullets
  trim_bullets-ends zero e [] rest enough = ground arith
  trim_bullets-ends zero e (b ∷ bs) rest enough = absurd (omega (arith, enough))
  trim_bullets-ends (suc n) e [] rest enough = ground arith
  trim_bullets-ends (suc n) e (b ∷ bs) rest enough =
      elim (Bool-cases (is_long header max_tokens ((e, b ∷ bs) ∷ rest))) [
        | inl x ↦
            rw x
              (trim_bullets-ends n e (pop (b ∷ bs)) rest (omega (arith, enough, length-pop b bs)))
        | inr x ↦ rw x (ground (arith, x))
      ]

  trim_bullets-IsTail :
      (n : ℕ) (e : WorkHistoryEntry) (bs : List String) (rest : List RoleText)
      → IsTail ((e, bs) ∷ rest) (trim_bullets header max_tokens n ((e, bs) ∷ rest))
  unfolding trim_bullets
  trim_bullets-IsTail zero e bs rest = IsTail-refl (e, bs) rest
  trim_bullets-IsTail (suc n) e [] rest = ground (arith, IsTail-refl (e, []) rest)
  trim_bullets-IsTail (suc n) e (b ∷ bs) rest =
      elim (Bool-cases (is_long header max_tokens ((e, b ∷ bs) ∷ rest))) [
        | inl x ↦ rw x (IsTail-pop e b bs rest _ (trim_bullets-IsTail n e (pop (b ∷ bs)) rest))
        | inr x ↦ rw x (IsTail-refl (e, b ∷ bs) rest)
      ]

  trim_bullets-fits :
      (n : ℕ) (h : List RoleText) → long h ≡ false → trim_bullets header max_tokens n h ≡ h
  unfolding trim_bullets
  trim_bullets-fits zero h fits = refl
  trim_bullets-fits (suc n) h fits = ground (arith, fits)

  length-trim_bullets :
      (n : ℕ) (h : List RoleText) → length (trim_bullets header max_tokens n h) ≡ length h
  unfolding trim_bullets
  length-trim_bullets zero h = refl
  length-trim_bullets (suc n) [] = ground arith
  length-trim_bullets (suc n) ((e, bs) ∷ rest) =
      ground (arith, length-trim_bullets n ((e, pop bs) ∷ rest))

  -- Neither loop runs on.
  abbrev pub is_ended : List RoleText → Bool
  is_ended kept = not (
      is_long header max_tokens kept && (ltb 1 (length kept) || has_bullets header max_tokens kept))

  ended :
      (n : ℕ) (e : WorkHistoryEntry) (bs : List String) (rest : List RoleText)
      → length bs ≤ n
      → (long ((e, bs) ∷ rest) && ltb 1 (length ((e, bs) ∷ rest))) ≡ false
      → is_ended (trim_bullets header max_tokens n ((e, bs) ∷ rest)) ≡ true
  ended n e bs rest enough first = elim (Bool-cases (long ((e, bs) ∷ rest))) [
    | inl x ↦ ground (
      arith,
      x,
      first,
      trim_bullets-ends n e bs rest enough,
      length-trim_bullets n ((e, bs) ∷ rest),
    )
    | inr x ↦ rw (trim_bullets-fits n ((e, bs) ∷ rest) x, x) refl
  ]

  both_loops :
      (h k : List RoleText)
      → IsTail h k
      → (long k && ltb 1 (length k)) ≡ false
      → IsTail h (trim_bullets header max_tokens (weight header max_tokens k) k)
        × (is_ended (trim_bullets header max_tokens (weight header max_tokens k) k) ≡ true)
  both_loops h k t first =
      let n = weight header max_tokens ((t.entry, t.bullets) ∷ t.later) in
      let u = trim_bullets-IsTail n t.entry t.bullets t.later in
      subst
        (λ x.
          IsTail h (trim_bullets header max_tokens (weight header max_tokens x) x)
          × (is_ended (trim_bullets header max_tokens (weight header max_tokens x) x) ≡ true))
        (sym t.after)
        (
          IsTail-step h ((t.entry, t.bullets) ∷ t.later) _ t.older u.older t.entry u.entry t.bullets
              t.gone u.bullets u.gone t.later u.later t.before u.before u.after,
          ended n t.entry t.bullets t.later (omega arith)
              (subst (λ x. (long x && ltb 1 (length x)) ≡ false) t.after first),
        )

  -- What the trimming of a history with a role leaves is its end: the later roles are whole, the first
  -- that is left has its first bullets, and only roles before it are gone. Both loops have ended: the
  -- document fits, or what is left is one role without bullets.
  pub trimmed-IsTail :
      (e : WorkHistoryEntry) (bs : List String) (rest : List RoleText)
      → let kept = trimmed header max_tokens ((e, bs) ∷ rest) in
        IsTail ((e, bs) ∷ rest) kept × (is_ended kept ≡ true)
  unfolding trimmed
  trimmed-IsTail e bs rest =
      let h = (e, bs) ∷ rest in
      both_loops h (trim_oldest header max_tokens (weight header max_tokens h) h)
        (trim_oldest-IsTail (weight header max_tokens h) (e, bs) rest)
        (trim_oldest-ends (weight header max_tokens h) h (omega arith))
