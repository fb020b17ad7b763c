-- ===== src/Analyze/Unique.antt =====
-- app/analyze/service.py: the number of analyses of a match.
use job_match_pipeline.Prelude.{
  ℕ, ◌≤◌, ◌≡◌, refl, String, false, arith, any, keep, length, length-keep-snoc, ◌==◌, nat_eq, List,
  [], ◌∷◌, ◌++◌, Bool, inl, inr, Bool-cases, ap,
}
use job_match_pipeline.Payload.{Uuid, Payload, Builtins}
use job_match_pipeline.Llm.{LlmUsage, Reply, answered, permanent, retryable}
use job_match_pipeline.Db.Rows.{Match, MatchAnalysis, Job, UserProfile}
use job_match_pipeline.Db.Session.{World}
use job_match_pipeline.Analyze.Service.{
  AnalysisLlm, has_match, save_analysis, after_llm, analyze_rows, analyze_new, analyze_found,
  analyze_match,
}

-- The rows of a match.
abbrev pub analysis_count : Uuid → World → ℕ
analysis_count id w = length (keep (has_match id) w.analyses)

keep-of-any-false :
    (p : MatchAnalysis → Bool) (xs : List MatchAnalysis) → any p xs ≡ false → length (keep p xs) ≡ 0
keep-of-any-false p [] h = refl
keep-of-any-false p (x ∷ xs) h = ground (arith, keep-of-any-false p xs)

-- The count after an INSERT that the constraint admits.
snoc_count :
    (x : Uuid) (a : MatchAnalysis) (rows : List MatchAnalysis)
    → any (has_match a.match_id) rows ≡ false
    → length (keep (has_match x) rows) ≤ 1
    → length (keep (has_match x) (rows ++ a ∷ [])) ≤ 1
snoc_count x a rows free h = elim (Bool-cases (a.match_id == x)) [
  | inl same ↦ rw (length-keep-snoc (has_match x) rows a) (
      ground (
        arith,
        keep-of-any-false (has_match a.match_id) rows free,
        ap (λ k. length (keep (has_match k) rows)) ((nat_eq.beq_iff a.match_id x).0 same),
      ))
  | inr other ↦ rw (length-keep-snoc (has_match x) rows a) (ground arith)
]

analysis_count-save :
    (x : Uuid) (py : Builtins) (d : String) (m : Match) (name : String) (u : LlmUsage) (w : World)
    → analysis_count x w ≤ 1
    → analysis_count x (save_analysis py d m name u w).1 ≤ 1
unfolding save_analysis
analysis_count-save x py d m name u w h = elim (Bool-cases (any (has_match m.id) w.analyses)) [
  | inl raced ↦ rw raced h
  | inr free ↦ rw free (snoc_count x _ w.analyses free h)
]

analysis_count-after_llm :
    (x : Uuid) (py : Builtins) (d : String) (m : Match) (reply : Reply String) (w : World)
    → analysis_count x w ≤ 1
    → analysis_count x (after_llm py d m reply w).1 ≤ 1
unfolding after_llm
analysis_count-after_llm x py d m (answered name u) w h = analysis_count-save x py d m name u w h
analysis_count-after_llm x py d m permanent w h = h
analysis_count-after_llm x py d m retryable w h = h

module _ (py : Builtins) (d : String) (llm : AnalysisLlm) (others : World → World) (x : Uuid)
    (w : World) (one : analysis_count x w ≤ 1) (still : analysis_count x (others w) ≤ 1) where
  analysis_count-rows :
      (m : Match) (job : Job) (p : UserProfile)
      → analysis_count x (analyze_rows py d llm others m job p w).1 ≤ 1
  unfolding analyze_rows
  analysis_count-rows m job p =
      ground (arith, analysis_count-after_llm x py d m (llm m job p) (others w) still)

  analysis_count-found : (m : Match) → analysis_count x (analyze_found py d llm others m w).1 ≤ 1
  unfolding analyze_found analyze_new
  analysis_count-found m = grind (arith, analysis_count-rows)

  -- A match that has at most one analysis has at most one after any delivery of analyze-match, if it
  -- has at most one after what other sessions commit during the model's call.
  pub analyze_match-one :
      (payload : Payload) → analysis_count x (analyze_match py d llm others payload w).1 ≤ 1
  unfolding analyze_match
  analyze_match-one payload = grind (arith, analysis_count-found)
