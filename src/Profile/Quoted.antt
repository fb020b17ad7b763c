-- ===== src/Profile/Quoted.antt =====
-- FallbackResumeParser of app/profile/parse.py invents nothing: where roles and bullets come from.
use job_match_pipeline.Prelude.{
  ◌≡◌, sym, Bool, true, false, ◌&&◌, String, List, [], ◌∷◌, ◌++◌, Option, none, some, elem, any,
  map, All, All-append, last, is_empty, elem-append, string_eq, ◌==◌, arith, Bool-cases,
  Option-cases, inl, inr, beq_refl,
}
use mathlib.Core.List.{append_assoc}
use mathlib.Core.Path.{subst}
use job_match_pipeline.Prelude.Text.{strip}
use job_match_pipeline.Profile.Schema.{Role}
use job_match_pipeline.Profile.Fields.{ResumeLibrary, DateRange, strip_chars}
use job_match_pipeline.Profile.Offline.{
  Draft, change_last, add_bullet, set_dates, new_role, header_of_line, collect_meta,
  location_from_date_line, experience_line, body_line, take_line, take_lines, bullet_line,
  date_or_bullet, lacks_start,
}

module _ (lib : ResumeLibrary) where
  abbrev pub is_header_of : Role → Option (String × String) → Bool
  is_header_of r none = false
  is_header_of r (some (title, employer)) =
      strip_chars " *" title == r.title && strip_chars " *" employer == r.employer

  abbrev bullet_in : Option String → List String
  bullet_in none = []
  bullet_in (some item) = strip item ∷ []

  -- The texts of the bullet lines.
  abbrev pub bullets_in : List String → List String
  bullets_in [] = []
  bullets_in (l ∷ ls) = bullet_in (lib.bullet_item l) ++ bullets_in ls

  -- Title and employer stand in one header line, and each bullet is a bullet line.
  pub record IsQuoted (lines : List String) (r : Role) : Type 0 where
    pub header : any (λ l. is_header_of r (header_of_line lib l)) lines ≡ true
    pub bullets : All (λ b. elem b (bullets_in lines) ≡ true) r.bullets

  elem-bullets_in :
      (line item : String) (lines : List String)
      → elem line lines ≡ true
      → lib.bullet_item line ≡ some item
      → elem (strip item) (bullets_in lines) ≡ true
  elem-bullets_in line item [] h e = ground (arith, h)
  elem-bullets_in line item (l ∷ ls) h e = elim (Bool-cases (line == l)) [
    | inl same ↦
        rw (sym ((string_eq.beq_iff line l).0 same), e) (ground (arith, beq_refl (strip item)))
    | inr other ↦ ground (
      arith,
      h,
      other,
      elem-append (strip item) (bullet_in (lib.bullet_item l)) (bullets_in ls),
      elem-bullets_in line item ls,
    )
  ]

  any-elem :
      (p : String → Bool) (line : String) (lines : List String)
      → elem line lines ≡ true
      → p line ≡ true
      → any p lines ≡ true
  any-elem p line [] h e = ground (arith, h)
  any-elem p line (l ∷ ls) h e = ground (arith, h, e, any-elem p line ls, string_eq.beq_iff line l)

  change_last-All :
      (P : Role → Type 0) (f : Role → Role) (rs : List Role)
      → ((r : Role) → P r → P (f r))
      → All P rs
      → All P (change_last f rs)
  unfolding change_last
  change_last-All P f [] g h = tt
  change_last-All P f (r ∷ []) g h = (g r h.0, tt)
  change_last-All P f (r ∷ s ∷ rs) g h = (h.0, change_last-All P f (s ∷ rs) g h.1)

  module _ (lines : List String) where
    abbrev AllQuoted : Draft → Type 0
    AllQuoted d = All (IsQuoted lines) d.roles

    new_role-IsQuoted :
        (line : String) (h : String × String)
        → elem line lines ≡ true
        → header_of_line lib line ≡ some h
        → IsQuoted lines (new_role h)
    new_role-IsQuoted line (title, employer) there e = record {
      header =
          any-elem (λ l. is_header_of (new_role (title, employer)) (header_of_line lib l)) line
            lines there
            (rw e (
              ground
                (arith, beq_refl (strip_chars " *" title), beq_refl (strip_chars " *" employer))));
      bullets = tt;
    }

    bullet_line-AllQuoted :
        (line : String) (d : Draft)
        → elem line lines ≡ true
        → AllQuoted d
        → AllQuoted (bullet_line lib (lib.bullet_item line) d)
    bullet_line-AllQuoted line d there h = elim (Option-cases (lib.bullet_item line)) [
      | inl e ↦ rw e h
      | inr (item, e) ↦ rw e (
          change_last-All (IsQuoted lines) (add_bullet (strip item)) d.roles
            (λ r q. record {
              header = q.header;
              bullets =
                  All-append (λ b. elem b (bullets_in lines) ≡ true) r.bullets (strip item ∷ [])
                    q.bullets (elem-bullets_in line item lines there e, tt);
            })
            h)
    ]

    date_or_bullet-AllQuoted :
        (line : String) (m : Option DateRange) (d : Draft)
        → elem line lines ≡ true
        → AllQuoted d
        → AllQuoted (date_or_bullet lib line m d)
    date_or_bullet-AllQuoted line none d there h = bullet_line-AllQuoted line d there h
    date_or_bullet-AllQuoted line (some m) d there h =
        elim (Bool-cases (lacks_start lib (last d.roles))) [
          | inl e ↦ rw e (
              change_last-All (IsQuoted lines)
                (set_dates m (location_from_date_line lib line m.whole)) d.roles
                (λ r q. record { header = q.header; bullets = q.bullets }) h)
          | inr e ↦ rw e (bullet_line-AllQuoted line d there h)
        ]

    experience_line-AllQuoted :
        (line : String) (d : Draft)
        → elem line lines ≡ true
        → AllQuoted d
        → AllQuoted (experience_line lib line d)
    unfolding experience_line
    experience_line-AllQuoted line d there h = elim (Option-cases (header_of_line lib line)) [
      | inl e ↦
          rw (e, experience_line)
            (elim (Bool-cases (is_empty d.roles)) [
              | inl x ↦ rw x h
              | inr x ↦ rw x (date_or_bullet-AllQuoted line (lib.date_range line) d there h)
            ])
      | inr (header, e) ↦
          rw (e, experience_line)
            (All-append (IsQuoted lines) d.roles (new_role header ∷ []) h
              (new_role-IsQuoted line header there e, tt))
    ]

    body_line-AllQuoted :
        (line : String) (d : Draft)
        → elem line lines ≡ true
        → AllQuoted d
        → AllQuoted (body_line lib line d)
    unfolding body_line
    body_line-AllQuoted line d there h = ground (arith, h, experience_line-AllQuoted line d there h)

    take_line-AllQuoted :
        (raw : String) (d : Draft)
        → elem (strip raw) lines ≡ true
        → AllQuoted d
        → AllQuoted (take_line lib raw d)
    unfolding take_line collect_meta
    take_line-AllQuoted raw d there h = ground (
      arith,
      h,
      body_line-AllQuoted (strip raw) d there h,
      body_line-AllQuoted (strip raw) (record d { section = "experience" }) there h,
    )

    pub take_lines-AllQuoted :
        (raws : List String) (d : Draft)
        → All (λ raw. elem (strip raw) lines ≡ true) raws
        → AllQuoted d
        → AllQuoted (take_lines lib raws d)
    unfolding take_lines
    take_lines-AllQuoted [] d there h = h
    take_lines-AllQuoted (raw ∷ raws) d there h =
        take_lines-AllQuoted raws (take_line lib raw d) there.1
          (take_line-AllQuoted raw d there.0 h)

  -- The lines of a text, without the spaces at their ends.
  abbrev pub lines_of : String → List String
  lines_of text = map strip (lib.splitlines text)

  pub elem-strip :
      (raws done : List String) → All (λ raw. elem (strip raw) (done ++ map strip raws) ≡ true) raws
  elem-strip [] done = tt
  elem-strip (raw ∷ raws) done = (
    ground (arith, elem-append (strip raw) done (strip raw ∷ map strip raws), beq_refl (strip raw)),
    subst (λ ls. All (λ x. elem (strip x) ls ≡ true) raws)
        (append_assoc done (strip raw ∷ []) (map strip raws))
        (elem-strip raws (done ++ strip raw ∷ [])),
  )
