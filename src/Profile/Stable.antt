-- ===== src/Profile/Stable.antt =====
-- The sort of assign_span_ids in app/profile/parse.py: the order of the roles in the answer of the
-- model does not matter.
use mathlib.Core.List.{Permᴰ}
use mathlib.Core.Path.{subst}
use job_match_pipeline.Prelude.{
  ◌≡◌, refl, sym, ◌∙◌, Bool, true, false, ◌&&◌, String, List, [], ◌∷◌, arith, All,
}
use job_match_pipeline.Payload.{Builtins}
use job_match_pipeline.Profile.Schema.{Role, LlmParsePayload}
use job_match_pipeline.Profile.Fields.{ResumeLibrary}
use job_match_pipeline.Profile.Spans.{
  text_leb, leb_then, role_sort_key, role_leb, insert_role, sort_roles, assign_span_ids,
}

text_leb_total : (a b : String) → text_leb a b ≡ false → text_leb b a ≡ true
unfolding text_leb
text_leb_total String.[] b h = ground (arith, h)
text_leb_total (String.◌∷◌ c a) String.[] h = refl
text_leb_total (String.◌∷◌ c a) (String.◌∷◌ d b) h = ground (arith, h, text_leb_total a b)

text_leb_trans : (a b c : String) → text_leb a b ≡ true → text_leb b c ≡ true → text_leb a c ≡ true
unfolding text_leb
text_leb_trans String.[] b c h k = refl
text_leb_trans (String.◌∷◌ x a) String.[] c h k = ground (arith, h)
text_leb_trans (String.◌∷◌ x a) (String.◌∷◌ y b) String.[] h k = ground (arith, k)
text_leb_trans (String.◌∷◌ x a) (String.◌∷◌ y b) (String.◌∷◌ z c) h k =
    ground (arith, h, k, text_leb_trans a b c)

leb_then_total :
    (a b : String) (r s : Bool)
    → (r ≡ false → s ≡ true)
    → leb_then a b r ≡ false
    → leb_then b a s ≡ true
leb_then_total a b r s f h = ground (arith, f, h, text_leb_total a b, text_leb_total b a)

leb_then_trans :
    (a b c : String) (r s t : Bool)
    → (r ≡ true → s ≡ true → t ≡ true)
    → leb_then a b r ≡ true
    → leb_then b c s ≡ true
    → leb_then a c t ≡ true
leb_then_trans a b c r s t f h k =
    ground (arith, f, h, k, text_leb_trans a b c, text_leb_trans b c a, text_leb_trans c a b)

module _ (py : Builtins) (lib : ResumeLibrary) where
  role_leb_total : (r s : Role) → role_leb py lib r s ≡ false → role_leb py lib s r ≡ true
  unfolding role_leb
  role_leb_total r s h =
      let (a, b, c) = role_sort_key py lib r in
      let (d, e, f) = role_sort_key py lib s in
      leb_then_total a d (leb_then b e (text_leb c f)) (leb_then e b (text_leb f c))
        (leb_then_total b e (text_leb c f) (text_leb f c) (text_leb_total c f)) h

  role_leb_trans :
      (r s t : Role)
      → role_leb py lib r s ≡ true
      → role_leb py lib s t ≡ true
      → role_leb py lib r t ≡ true
  unfolding role_leb
  role_leb_trans r s t h k =
      let (a, b, c) = role_sort_key py lib r in
      let (d, e, f) = role_sort_key py lib s in
      let (x, y, z) = role_sort_key py lib t in
      leb_then_trans a d x (leb_then b e (text_leb c f)) (leb_then e y (text_leb f z))
        (leb_then b y (text_leb c z))
        (leb_then_trans b e y (text_leb c f) (text_leb f z) (text_leb c z) (text_leb_trans c f z)) h
        k

  -- The two roles have one sort key.
  abbrev pub is_tied : Role → Role → Bool
  is_tied r s = role_leb py lib r s && role_leb py lib s r

  -- No two roles have one sort key.
  abbrev pub IsUntied : List Role → Type 0
  IsUntied [] = Unit
  IsUntied (r ∷ rs) = All (λ s. is_tied r s ≡ false) rs × IsUntied rs

  insert_role_comm :
      (r s : Role) (ts : List Role)
      → is_tied r s ≡ false
      → insert_role py lib r (insert_role py lib s ts)
        ≡ insert_role py lib s (insert_role py lib r ts)
  unfolding insert_role
  insert_role_comm r s [] h = ground (arith, h, role_leb_total r s, role_leb_total s r)
  insert_role_comm r s (t ∷ ts) h = ground (
    arith,
    h,
    insert_role_comm r s ts h,
    role_leb_total r s,
    role_leb_total s r,
    role_leb_trans r s t,
    role_leb_trans s r t,
  )

  -- The sort does not see the order of its argument.
  All-perm : (P : Role → Type 0) {rs ss : List Role} → Permᴰ rs ss → All P rs → All P ss
  All-perm P Permᴰ.nil h = h
  All-perm P (Permᴰ.cons e d) h = (subst P e h.0, All-perm P d h.1)
  All-perm P (Permᴰ.swap e f) h = (subst P f h.1.0, (subst P e h.0, h.1.1))
  All-perm P (Permᴰ.trans d e) h = All-perm P e (All-perm P d h)

  IsUntied-perm : {rs ss : List Role} → Permᴰ rs ss → IsUntied rs → IsUntied ss
  IsUntied-perm Permᴰ.nil h = h
  IsUntied-perm (Permᴰ.cons {a = a} {l₂ = l} e d) h = (
    subst (λ r. All (λ s. is_tied r s ≡ false) l) e (All-perm (λ s. is_tied a s ≡ false) d h.0),
    IsUntied-perm d h.1,
  )
  IsUntied-perm (Permᴰ.swap {a = a} {b = b} {b' = c} {l = l} e f) h =
      subst (λ r. IsUntied (r ∷ c ∷ l)) f
        (subst (λ r. IsUntied (b ∷ r ∷ l)) e ((ground (arith, h.0.0), h.1.0), (h.0.1, h.1.1)))
  IsUntied-perm (Permᴰ.trans d e) h = IsUntied-perm e (IsUntied-perm d h)

  sort_roles-perm :
      {rs ss : List Role} → Permᴰ rs ss → IsUntied rs → sort_roles py lib rs ≡ sort_roles py lib ss
  unfolding sort_roles
  sort_roles-perm Permᴰ.nil h = refl
  sort_roles-perm (Permᴰ.cons e d) h = rw (e, sort_roles-perm d h.1) refl
  sort_roles-perm (Permᴰ.swap {a = a} {b = b} {l = l} e f) h =
      rw (sym e, sym f) (insert_role_comm a b (sort_roles py lib l) h.0.0)
  sort_roles-perm (Permᴰ.trans d e) h = sort_roles-perm d h ∙ sort_roles-perm e (IsUntied-perm d h)

  -- Two answers with the same roles, in any order, and the same other fields are parsed to the same
  -- resume, with the same roles, bullets and span ids, where no two roles have one sort key.
  pub assign_span_ids-perm :
      (p : LlmParsePayload) (roles : List Role)
      → Permᴰ p.work_history roles
      → IsUntied p.work_history
      → assign_span_ids py lib (record p { work_history = roles }) ≡ assign_span_ids py lib p
  unfolding assign_span_ids
  assign_span_ids-perm p roles d h = rw (sort_roles-perm d h) refl
