-- ===== src/Profile/Sourced.antt =====
-- FallbackResumeParser of app/profile/parse.py: the history that is parsed stands in the text.
use job_match_pipeline.Prelude.{
  ℕ, suc, ◌≡◌, refl, true, ◌&&◌, String, List, [], ◌∷◌, elem, any, map, All, string_eq, ◌==◌, arith,
  Bool-cases, inl, inr, beq_refl,
}
use job_match_pipeline.Prelude.Text.{truthy, strip}
use job_match_pipeline.Payload.{Builtins}
use job_match_pipeline.Skills.Aliases.{Dict}
use job_match_pipeline.Profile.Schema.{Role, WorkHistoryEntry}
use job_match_pipeline.Profile.Fields.{ResumeLibrary, normalize_bullet}
use job_match_pipeline.Profile.Spans.{
  role_leb, insert_role, sort_roles, number_bullets, entry_of, entries_from, assign_span_ids,
}
use job_match_pipeline.Profile.Quoted.{
  IsQuoted, is_header_of, bullets_in, lines_of, elem-strip, take_lines-AllQuoted,
}
use job_match_pipeline.Profile.Offline.{
  header_of_line, take_lines, empty_draft, extract_structured, parse_offline,
}

module _ (lib : ResumeLibrary) where
  module _ (py : Builtins) where
    insert_role-All :
        (P : Role → Type 0) (r : Role) (rs : List Role)
        → P r
        → All P rs
        → All P (insert_role py lib r rs)
    unfolding insert_role
    insert_role-All P r [] h hs = (h, tt)
    insert_role-All P r (s ∷ ss) h hs = elim (Bool-cases (role_leb py lib r s)) [
      | inl e ↦ rw e (h, hs)
      | inr e ↦ rw e (hs.0, insert_role-All P r ss h hs.1)
    ]

    sort_roles-All : (P : Role → Type 0) (rs : List Role) → All P rs → All P (sort_roles py lib rs)
    unfolding sort_roles
    sort_roles-All P [] h = tt
    sort_roles-All P (r ∷ rs) h =
        insert_role-All P r (sort_roles py lib rs) h.0 (sort_roles-All P rs h.1)

    -- The entry's title and employer are those of one header line, and each bullet is the normal form
    -- of a bullet line.
    pub record IsSourced (lines : List String) (e : WorkHistoryEntry) : Type 0 where
      pub role : Role
      pub header : any (λ l. is_header_of lib role (header_of_line lib l)) lines ≡ true
      pub title : e.title ≡ strip role.title
      pub employer : e.employer ≡ strip role.employer
      pub bullets :
          All
            (λ b. elem b.text (map (normalize_bullet lib) (bullets_in lib lines)) ≡ true)
            e.bullets

    elem-map :
        (f : String → String) (x : String) (xs : List String)
        → elem x xs ≡ true
        → elem (f x) (map f xs) ≡ true
    elem-map f x [] h = ground (arith, h)
    elem-map f x (y ∷ ys) h = elim (Bool-cases (x == y)) [
      | inl same ↦ rw ((string_eq.beq_iff x y).0 same) (ground (arith, beq_refl (f y)))
      | inr other ↦ ground (arith, h, other, elem-map f x ys)
    ]

    number_bullets-All :
        (lines : List String) (index j : ℕ) (texts : List String)
        → All (λ b. elem b (bullets_in lib lines) ≡ true) texts
        → All
            (λ b. elem b.text (map (normalize_bullet lib) (bullets_in lib lines)) ≡ true)
            (number_bullets py lib index j texts)
    unfolding number_bullets
    number_bullets-All lines index j [] h = tt
    number_bullets-All lines index j (t ∷ ts) h =
        let rest = number_bullets-All lines index (suc j) ts h.1 in
        let here = elem-map (normalize_bullet lib) t (bullets_in lib lines) h.0 in
        elim (Bool-cases (truthy t && truthy (strip t))) [
          | inl e ↦ rw e (here, rest)
          | inr e ↦ rw e rest
        ]

    entries_from-All :
        (lines : List String) (index : ℕ) (rs : List Role)
        → All (IsQuoted lib lines) rs
        → All (IsSourced lines) (entries_from py lib index rs)
    unfolding entries_from entry_of
    entries_from-All lines index [] h = tt
    entries_from-All lines index (r ∷ rs) h = (
      record {
        role = r;
        header = h.0.header;
        title = refl;
        employer = refl;
        bullets = number_bullets-All lines index 0 r.bullets h.0.bullets;
      },
      entries_from-All lines (suc index) rs h.1,
    )

    -- The offline parser invents no role and no bullet: each entry of the history has the title and the
    -- employer of one line of the text that is a role's header, and each of its bullets is the normal
    -- form of a bullet line of the text.
    pub parse_offline-IsSourced :
        (scan : String → Dict) (text : String)
        → All (IsSourced (lines_of lib text)) (parse_offline lib scan py text).work_history
    unfolding parse_offline extract_structured assign_span_ids
    parse_offline-IsSourced scan text =
        let raws = lib.splitlines text in
        entries_from-All (lines_of lib text) 0
          (sort_roles py lib (take_lines lib raws (empty_draft lib)).roles)
          (sort_roles-All (IsQuoted lib (lines_of lib text))
            (take_lines lib raws (empty_draft lib)).roles
            (take_lines-AllQuoted lib (lines_of lib text) raws (empty_draft lib)
              (elem-strip lib raws []) tt))
