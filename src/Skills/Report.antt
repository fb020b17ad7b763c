-- ===== src/Skills/Report.antt =====
-- link_span_report of app/skills/linker.py and app/skills/pg_linker.py, for any `link_span`.
use job_match_pipeline.Prelude.{
  Bool, false, ◌||◌, String, List, [], ◌∷◌, ◌++◌, Option, none, some, elem, is_some, is_empty,
  string_eq, if◌then◌else◌, ◌==◌,
}
use job_match_pipeline.Skills.Labels.{LabelLibrary, expand_compound_span}

pub record SpanLinkReport : Type 0 where
  pub skill_ids : List String
  pub unlinked_spans : List String

-- `cache`: what each casefolded fragment has been linked to.
abbrev pub Cache : Type 0
Cache = List (String × Option String)

unfoldable pub cached : String → Cache → Option (Option String)
cached key [] = none
cached key ((k, id) ∷ rest) = let found = cached key rest in if k == key then some id else found

-- The variables of the loops; `seen_ids` is the set of what is linked.
pub record Progress : Type 0 where
  pub linked : List String
  pub cache : Cache
  pub unlinked : List String
  pub span_linked : Bool

-- `if skill_id not in seen_ids: ... linked.append(skill_id)`
abbrev pub add_id : Option String → List String → List String
add_id none linked = linked
add_id (some id) linked = if elem id linked then linked else linked ++ id ∷ []

module _ (lib : LabelLibrary) (link_span : String → Option String) where
  -- `cache[key]`, filled first where it lacks the key.
  unfoldable pub look_up : String → Cache → Option String × Cache
  look_up candidate cache = elim (cached (lib.casefold candidate) cache) [
    | some id ↦ (id, cache)
    | none ↦ (link_span candidate, (lib.casefold candidate, link_span candidate) ∷ cache)
  ]

  unfoldable pub link_candidate : String → Progress → Progress
  link_candidate candidate p =
      let (id, cache) = look_up candidate p.cache in
      record {
        linked = add_id id p.linked;
        cache = cache;
        unlinked = p.unlinked;
        span_linked = p.span_linked || is_some id;
      }

  unfoldable pub link_candidates : List String → Progress → Progress
  link_candidates [] p = p
  link_candidates (c ∷ cs) p = link_candidates cs (link_candidate c p)

  -- `if not span_linked: unlinked.append(span)`
  abbrev pub close_span : String → Progress → Progress
  close_span span p = if p.span_linked then p else record p { unlinked = p.unlinked ++ span ∷ [] }

  unfoldable pub link_one : String → Progress → Progress
  link_one span p =
      let candidates = expand_compound_span lib span in
      if is_empty candidates
      then p
      else close_span span (link_candidates candidates (record p { span_linked = false }))

  unfoldable pub link_all : List String → Progress → Progress
  link_all [] p = p
  link_all (span ∷ spans) p = link_all spans (link_one span p)

  unfoldable pub link_span_report : List String → SpanLinkReport
  link_span_report spans =
      let p =
        link_all spans (record { linked = []; cache = []; unlinked = []; span_linked = false }) in
      record { skill_ids = p.linked; unlinked_spans = p.unlinked }
