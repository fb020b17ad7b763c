-- ===== src/Skills/Memo.antt =====
-- link_span_report of app/skills/linker.py against a run without its cache and its flags.
use job_match_pipeline.Prelude.{
  ◌≡◌, refl, sym, ◌∙◌, ap, Bool, false, ◌||◌, ◌&&◌, not, String, List, [], ◌∷◌, ◌++◌, Option, none,
  some, elem, is_some, is_empty, any, keep, map, find, string_eq, if◌then◌else◌, ◌==◌, arith,
  Bool-cases, inl, inr,
}
use mathlib.Core.List.{append_assoc, append-nil}
use mathlib.Core.Path.{subst}
use job_match_pipeline.Skills.Labels.{LabelLibrary, expand_compound_span}
use job_match_pipeline.Skills.Report.{
  Cache, cached, Progress, add_id, look_up, link_candidate, link_candidates, link_one, link_all,
  link_span_report,
}

-- The ids that are there, each at its first place.
abbrev pub first_ids : List (Option String) → List String → List String
first_ids [] seen = []
first_ids (none ∷ ids) seen = first_ids ids seen
first_ids (some id ∷ ids) seen =
    let skipped = first_ids ids seen in
    let taken = id ∷ first_ids ids (seen ++ id ∷ []) in if elem id seen then skipped else taken

abbrev add_ids : List (Option String) → List String → List String
add_ids [] linked = linked
add_ids (id ∷ ids) linked = add_ids ids (add_id id linked)

add_ids-first_ids :
    (ids : List (Option String)) (linked : List String)
    → add_ids ids linked ≡ linked ++ first_ids ids linked
add_ids-first_ids [] linked = sym (append-nil {A = String} linked)
add_ids-first_ids (none ∷ ids) linked = add_ids-first_ids ids linked
add_ids-first_ids (some id ∷ ids) linked = elim (Bool-cases (elem id linked)) [
  | inl e ↦ rw e (add_ids-first_ids ids linked)
  | inr e ↦ rw e (
      add_ids-first_ids ids (linked ++ id ∷ [])
      ∙ append_assoc linked (id ∷ []) (first_ids ids (linked ++ id ∷ [])))
]

module _ (lib : LabelLibrary) (link_span : String → Option String) where
  abbrev same_key : String → String → Bool
  same_key key c = lib.casefold c == key

  -- The first fragment with the casefolded text.
  abbrev first_with : String → List String → Option String
  first_with key all = find (same_key key) all

  abbrev linked_of : Option String → Option String
  linked_of none = none
  linked_of (some c) = link_span c

  -- What a fragment is linked to: what `link_span` says of the first fragment that differs from it in
  -- case at most.
  abbrev pub resolve : List String → String → Option String
  resolve all c = linked_of (first_with (lib.casefold c) all)

  -- All fragments of all spans.
  abbrev pub fragments_of : List String → List String
  fragments_of [] = []
  fragments_of (span ∷ spans) = expand_compound_span lib span ++ fragments_of spans

  -- A span with fragments, none of which is linked.
  abbrev pub is_left : List String → String → Bool
  is_left all span =
      not (is_empty (expand_compound_span lib span))
      && not (any is_some (map (resolve all) (expand_compound_span lib span)))

  abbrev cached_as : Option String → Option (Option String)
  cached_as none = none
  cached_as (some c) = some (link_span c)

  -- The cache holds what `link_span` says of the first of the fragments so far.
  abbrev IsCache : List String → Cache → Type 0
  IsCache done cache = (key : String) → cached key cache ≡ cached_as (first_with key done)

  abbrev extended : Option String → String → String → Option String
  extended none key c = if same_key key c then some c else none
  extended (some d) key c = some d

  first_with-snoc :
      (key c : String) (xs : List String)
      → first_with key (xs ++ c ∷ []) ≡ extended (first_with key xs) key c
  first_with-snoc key c [] = refl
  first_with-snoc key c (x ∷ xs) = ground (arith, first_with-snoc key c xs)

  abbrev first_or : Option String → String → Option String
  first_or none c = some c
  first_or (some d) c = some d

  first_with-middle :
      (c : String) (xs ys : List String)
      → first_with (lib.casefold c) (xs ++ c ∷ ys) ≡ first_or (first_with (lib.casefold c) xs) c
  first_with-middle c [] ys = ground (arith, string_eq.beq_iff (lib.casefold c) (lib.casefold c))
  first_with-middle c (x ∷ xs) ys = ground (arith, first_with-middle c xs ys)

  -- One turn reads what the first such fragment has, and keeps the cache.
  look_up-resolve :
      (done more : List String) (c : String) (cache : Cache)
      → IsCache done cache
      → (look_up lib link_span c cache).0 ≡ resolve (done ++ c ∷ more) c
  unfolding look_up
  look_up-resolve done more c cache h =
      ground (arith, h (lib.casefold c), first_with-middle c done more)

  look_up-IsCache :
      (done : List String) (c : String) (cache : Cache)
      → IsCache done cache
      → IsCache (done ++ c ∷ []) (look_up lib link_span c cache).1
  unfolding look_up cached
  look_up-IsCache done c cache h key = ground (
    arith,
    h key,
    h (lib.casefold c),
    first_with-snoc key c done,
    string_eq.beq_iff (lib.casefold c) key,
  )

  -- What the fragments `cs` of one span do, after the fragments `done`.
  record IsRun (all done cs : List String) (p q : Progress) : Type 0 where
    cache : IsCache (done ++ cs) q.cache
    linked : q.linked ≡ add_ids (map (resolve all) cs) p.linked
    unlinked : q.unlinked ≡ p.unlinked
    flag : q.span_linked ≡ (p.span_linked || any is_some (map (resolve all) cs))

  link_candidates-IsRun :
      (all done cs more : List String) (p : Progress)
      → all ≡ done ++ (cs ++ more)
      → IsCache done p.cache
      → IsRun all done cs p (link_candidates lib link_span cs p)
  unfolding link_candidates link_candidate
  link_candidates-IsRun all done [] more p e h = record {
    cache = subst (λ xs. IsCache xs p.cache) (sym (append-nil {A = String} done)) h;
    linked = refl;
    unlinked = refl;
    flag = ground arith;
  }
  link_candidates-IsRun all done (c ∷ cs) more p e h =
      let now : (look_up lib link_span c p.cache).0 ≡ resolve all c =
        rw e (look_up-resolve done (cs ++ more) c p.cache h) in
      let q = link_candidate lib link_span c p in
      let run =
        link_candidates-IsRun all (done ++ c ∷ []) cs more q
          (e ∙ sym (append_assoc done (c ∷ []) (cs ++ more))) (look_up-IsCache done c p.cache h) in
      record {
        cache =
            subst (λ xs. IsCache xs (link_candidates lib link_span cs q).cache)
              (append_assoc done (c ∷ []) cs) run.cache;
        linked = run.linked ∙ ap (λ id. add_ids (map (resolve all) cs) (add_id id p.linked)) now;
        unlinked = run.unlinked;
        flag = ground (arith, run.flag, now);
      }

  abbrev after_fragments : String → List String → Progress → Progress
  after_fragments span cs p =
      if is_empty cs
      then p
      else if (link_candidates lib link_span cs (record p { span_linked = false })).span_linked
      then link_candidates lib link_span cs (record p { span_linked = false })
      else record (link_candidates lib link_span cs (record p { span_linked = false })) {
        unlinked =
            (link_candidates lib link_span cs (record p { span_linked = false })).unlinked
            ++ span ∷ [];
      }

  abbrev left_of : List String → String → List String → List String
  left_of all span cs =
      if not (is_empty cs) && not (any is_some (map (resolve all) cs)) then span ∷ [] else []

  -- What one span does, with the fragments `cs`.
  record IsSpanRun (all done cs : List String) (span : String) (p q : Progress) : Type 0 where
    cache : IsCache (done ++ cs) q.cache
    linked : q.linked ≡ add_ids (map (resolve all) cs) p.linked
    unlinked : q.unlinked ≡ p.unlinked ++ left_of all span cs

  after_fragments-IsSpanRun :
      (all done cs more : List String) (span : String) (p : Progress)
      → all ≡ done ++ (cs ++ more)
      → IsCache done p.cache
      → IsSpanRun all done cs span p (after_fragments span cs p)
  after_fragments-IsSpanRun all done [] more span p e h = record {
    cache = subst (λ xs. IsCache xs p.cache) (sym (append-nil {A = String} done)) h;
    linked = refl;
    unlinked = sym (append-nil {A = String} p.unlinked);
  }
  after_fragments-IsSpanRun all done (c ∷ cs) more span p e h =
      let run =
        link_candidates-IsRun all done (c ∷ cs) more (record p { span_linked = false }) e h in
      elim (Bool-cases (any is_some (map (resolve all) (c ∷ cs)))) [
        | inl some_linked ↦ rw (run.flag ∙ some_linked) (record {
          cache = run.cache;
          linked = run.linked;
          unlinked = rw some_linked (run.unlinked ∙ sym (append-nil {A = String} p.unlinked));
        })
        | inr none_linked ↦ rw (run.flag ∙ none_linked) (record {
          cache = run.cache;
          linked = run.linked;
          unlinked = rw none_linked (ap (λ xs. xs ++ span ∷ []) run.unlinked);
        })
      ]

  record IsReport (all spans : List String) (p q : Progress) : Type 0 where
    linked : q.linked ≡ add_ids (map (resolve all) (fragments_of spans)) p.linked
    unlinked : q.unlinked ≡ p.unlinked ++ keep (is_left all) spans

  add_ids-map_append :
      (f : String → Option String) (xs ys : List String) (linked : List String)
      → add_ids (map f (xs ++ ys)) linked ≡ add_ids (map f ys) (add_ids (map f xs) linked)
  add_ids-map_append f [] ys linked = refl
  add_ids-map_append f (x ∷ xs) ys linked = add_ids-map_append f xs ys (add_id (f x) linked)

  keep_left :
      (all : List String) (span : String) (spans before : List String)
      → (before ++ left_of all span (expand_compound_span lib span)) ++ keep (is_left all) spans
        ≡ before ++ keep (is_left all) (span ∷ spans)
  keep_left all span spans before = elim (Bool-cases (is_left all span)) [
    | inl e ↦ rw e (append_assoc before (span ∷ []) (keep (is_left all) spans))
    | inr e ↦ rw (e, append-nil {A = String} before) refl
  ]

  link_all-IsReport :
      (all done spans : List String) (p : Progress)
      → all ≡ done ++ fragments_of spans
      → IsCache done p.cache
      → IsReport all spans p (link_all lib link_span spans p)
  unfolding link_all link_one
  link_all-IsReport all done [] p e h = record {
    linked = refl;
    unlinked = sym (append-nil {A = String} p.unlinked);
  }
  link_all-IsReport all done (span ∷ spans) p e h =
      let cs = expand_compound_span lib span in
      let q : Progress = link_one lib link_span span p in
      let one : IsSpanRun all done cs span p q =
        after_fragments-IsSpanRun all done cs (fragments_of spans) span p e h in
      let rest =
        link_all-IsReport all (done ++ cs) spans q
          (e ∙ sym (append_assoc done cs (fragments_of spans))) one.cache in
      record {
        linked =
            rest.linked
            ∙ ap (add_ids (map (resolve all) (fragments_of spans))) one.linked
            ∙ sym (add_ids-map_append (resolve all) cs (fragments_of spans) p.linked);
        unlinked =
            rest.unlinked
            ∙ ap (λ xs. xs ++ keep (is_left all) spans) one.unlinked
            ∙ keep_left all span spans p.unlinked;
      }

  -- The report is that of a run without the loops' cache and flags: the ids that are found, each at
  -- its first place, and the spans that have fragments of which none is linked, where each fragment
  -- is linked to what `link_span` says of the first fragment of all the spans that has its casefolded
  -- text, for any `link_span`.
  pub link_span_report-resolve :
      (spans : List String)
      → link_span_report lib link_span spans ≡ record {
        skill_ids = first_ids (map (resolve (fragments_of spans)) (fragments_of spans)) [];
        unlinked_spans = keep (is_left (fragments_of spans)) spans;
      }
  unfolding link_span_report cached
  link_span_report-resolve spans =
      let start : Progress = record {
        linked = [];
        cache = [];
        unlinked = [];
        span_linked = false;
      } in
      let run = link_all-IsReport (fragments_of spans) [] spans start refl (λ key. refl) in
      rw
        (
          run.linked,
          run.unlinked,
          add_ids-first_ids (map (resolve (fragments_of spans)) (fragments_of spans)) [],
        )
        refl
