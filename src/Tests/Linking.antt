-- ===== src/Tests/Linking.antt =====
-- Runs of the skill index.
use job_match_pipeline.Prelude.{
  ◌+◌, ◌≡◌, ◌⊎◌, refl, true, false, String, List, [], ◌∷◌, Option, none, some, map, keep, elem, leb,
  All, IsDistinct, if◌then◌else◌, ◌==◌, string_eq,
}
use job_match_pipeline.Prelude.Text.{strip, text_length, truthy, reverse_onto, occurs, starts_with}
use job_match_pipeline.Db.Rows.{Score}
use job_match_pipeline.Skills.Labels.{
  LabelLibrary, normalize_label, parenthetical_bare_label, derived_key, expand_compound_span,
  unseen, fragments, drop_edge,
}
use job_match_pipeline.Skills.Aliases.{
  SkillRecord, get, has, keys_of_labels, derived_keys, claim, claim_all, derived_alias_index,
  exact_index, add_labels,
}
use job_match_pipeline.Skills.Contested.{claimants, agreed, get-derived_alias_index}
use job_match_pipeline.Skills.Report.{
  link_span_report, link_all, link_one, link_candidates, link_candidate, look_up, cached,
}
use job_match_pipeline.Skills.Memo.{
  first_ids, resolve, fragments_of, is_left, link_span_report-resolve,
}
use job_match_pipeline.Skills.Linker.{
  Vector, Index, LinkSettings, link_span, similarity_link, rank_all, rank_one, accept, index_of,
  new_linker, ensure_vectors, stored_vectors, made_vectors, dict_update, set_item, scan_text, scan,
  is_found, spaced,
}
use job_match_pipeline.Skills.Linked.{IsNearest, scores_of, link_span-IsSupported}
use job_match_pipeline.Skills.Owners.{owner, link_span-owner}
use job_match_pipeline.Skills.Scanned.{hit_ids, is_mentioned, is_term_found, scan_text-IsMentioned}

abbrev labels : LabelLibrary
labels = record {
  nfkc = λ s. s;
  casefold = λ s. s;
  spaces_for_punctuation = λ s. s;
  collapse_spaces = λ s. s;
  split_compound = λ s. s ∷ [];
  drop_conjunction = λ s. s;
  bare_group = λ s.
      if s == "python (language)"
      then some "python"
      else if s == "python (snake)"
      then some "python"
      else if s == "java (language)"
      then some "java"
      else none;
}

abbrev skill : String → String → SkillRecord
skill id label = record {
  id = id;
  canonical_label = label;
  alt_labels = [];
  description = none;
  embedding = none;
}

-- Two skills claim `python`, one claims `java`.
abbrev skills : List SkillRecord
skills =
    skill "1" "python (language)" ∷ skill "2" "python (snake)" ∷ skill "3" "java (language)" ∷ []

contested_python : get "python" (derived_alias_index labels skills []) ≡ none
unfolding derived_alias_index claim_all claim derived_keys keys_of_labels derived_key
    parenthetical_bare_label normalize_label get strip text_length
contested_python = refl

alias_of_java : get "java" (derived_alias_index labels skills []) ≡ some "3"
unfolding derived_alias_index claim_all claim derived_keys keys_of_labels derived_key
    parenthetical_bare_label normalize_label get strip text_length
alias_of_java = refl

get-derived_alias_index_example :
    get "java" (derived_alias_index labels skills [])
    ≡ (if has "java" [] then none else agreed (claimants "java" (derived_keys labels skills)))
get-derived_alias_index_example = get-derived_alias_index labels skills [] "java"

real_labels :
    exact_index labels [] (skill "3" "java" ∷ skill "4" "java" ∷ []) [] ≡ some (("java", "3") ∷ [])
unfolding exact_index add_labels normalize_label get strip
real_labels = refl

-- Texts of which "JAVA" and "java" are one in lower case.
abbrev folding : LabelLibrary
folding = record labels { casefold = λ s. if s == "JAVA" then "java" else s }

abbrev link_upper : String → Option String
link_upper s = if s == "JAVA" then some "3" else none

-- The second span is linked by what the cache has for the first.
shared_case :
    link_span_report folding link_upper ("JAVA" ∷ "java" ∷ "go" ∷ [])
    ≡ record { skill_ids = "3" ∷ []; unlinked_spans = "go" ∷ [] }
unfolding link_span_report link_all link_one link_candidates link_candidate look_up cached
    expand_compound_span unseen fragments normalize_label strip drop_edge reverse_onto
shared_case = refl

link_span_report-resolve_example :
    link_span_report folding link_upper ("JAVA" ∷ "java" ∷ "go" ∷ []) ≡ record {
      skill_ids =
          first_ids
            (map
              (resolve folding link_upper
                (fragments_of folding link_upper ("JAVA" ∷ "java" ∷ "go" ∷ [])))
              (fragments_of folding link_upper ("JAVA" ∷ "java" ∷ "go" ∷ [])))
            [];
      unlinked_spans =
          keep
            (is_left folding link_upper
              (fragments_of folding link_upper ("JAVA" ∷ "java" ∷ "go" ∷ [])))
            ("JAVA" ∷ "java" ∷ "go" ∷ []);
    }
link_span_report-resolve_example =
    link_span_report-resolve folding link_upper ("JAVA" ∷ "java" ∷ "go" ∷ [])

-- A score for each text: the first number of the stored vector.
abbrev product : Vector → Vector → Score
product a [] = 0
product a (x ∷ xs) = x

abbrev vectors_of : String → Vector
vectors_of s = []

abbrev close_skill : String → String → Score → SkillRecord
close_skill id label s = record (skill id label) { embedding = some (s ∷ []) }

abbrev sharp : LinkSettings
sharp = record {
  embedder = some vectors_of;
  similarity_threshold = 80;
  confidence = some 90;
  margin_test = λ best second. elim second [ none ↦ true | some t ↦ leb (t + 5) best ];
  build_missing_embeddings = false;
}

abbrev close_skills : List SkillRecord
close_skills = close_skill "1" "mysql" 70 ∷ close_skill "2" "postgres" 86 ∷ []

abbrev close_index : Index
close_index = index_of labels sharp close_skills (("mysql", "1") ∷ ("postgres", "2") ∷ [])

built_index : new_linker labels sharp close_skills ≡ some close_index
unfolding new_linker exact_index add_labels normalize_label get strip
built_index = refl

links_by_margin : link_span labels product close_index "pg sql" ≡ some "2"
unfolding link_span similarity_link rank_all rank_one accept get normalize_label strip
    ensure_vectors stored_vectors made_vectors dict_update set_item derived_alias_index claim_all
    derived_keys keys_of_labels derived_key parenthetical_bare_label
links_by_margin = refl

link_span-IsSupported_example :
    (truthy (normalize_label labels "pg sql") ≡ true)
    × ((get (normalize_label labels "pg sql") close_index.exact ≡ some "2")
        ⊎ ((embed : String → Vector) × (close_index.embed ≡ some embed)
            × IsNearest close_index (scores_of labels product close_index embed "pg sql") "2"))
link_span-IsSupported_example =
    link_span-IsSupported labels product close_index "pg sql" "2" links_by_margin

mysql_key : truthy (normalize_label labels "mysql") ≡ true
unfolding normalize_label strip
mysql_key = refl

mysql_owner : owner labels (normalize_label labels "mysql") close_skills ≡ some "1"
unfolding normalize_label strip
mysql_owner = refl

link_span-owner_example : link_span labels product close_index "mysql" ≡ some "1"
link_span-owner_example =
    link_span-owner labels product sharp close_skills close_index "mysql" "1" built_index mysql_key
      mysql_owner

finds_java :
    scan_text labels (record close_index { scan_terms = ("java", "3") ∷ [] }) "go java"
    ≡ ("3", "java") ∷ []
unfolding scan_text scan is_found occurs starts_with normalize_label strip
finds_java = refl

scan_text-IsMentioned_example :
    IsDistinct (hit_ids (scan_text labels close_index "a mysql"))
    × ((id : String)
        → elem id (hit_ids (scan_text labels close_index "a mysql"))
          ≡ is_mentioned (spaced (normalize_label labels "a mysql")) close_index.scan_terms id)
    × All
        (λ hit.
          is_term_found (spaced (normalize_label labels "a mysql")) close_index.scan_terms hit
          ≡ true)
        (scan_text labels close_index "a mysql")
scan_text-IsMentioned_example = scan_text-IsMentioned labels close_index "a mysql"
