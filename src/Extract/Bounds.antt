-- ===== src/Extract/Bounds.antt =====
-- app/extract/synthesize.py: how long the document may be.
use job_match_pipeline.Prelude.{
  ℕ, zero, suc, ◌≤◌, String, List, [], arith, leb→le, Bool-cases, inl, inr,
}
use job_match_pipeline.Prelude.Text.{clip, text_length}
use job_match_pipeline.Payload.{Builtins}
use job_match_pipeline.Extract.Synthesize.{
  estimate_tokens, fits, synth_doc_max_chars, Header, render, shorten, kept_requirements,
  kept_skills, DocFields, build_synthesized_doc,
}

pub length-clip : (n : ℕ) (s : String) → text_length (clip n s) ≤ n
unfolding clip text_length
length-clip zero s = omega arith
length-clip (suc n) String.[] = omega arith
length-clip (suc n) (String.◌∷◌ c s) = omega (arith, length-clip n s)

estimate-clip : (s : String) → estimate_tokens (clip synth_doc_max_chars s) ≤ 500
unfolding estimate_tokens
estimate-clip s = ground (arith, length-clip synth_doc_max_chars s)

shorten_bound :
    (h : Header) (skills reqs : List String) → estimate_tokens (shorten h skills reqs) ≤ 500
unfolding shorten
shorten_bound h skills reqs =
    let reqs1 = kept_requirements h skills reqs in
    let doc = render h (kept_skills h skills reqs1) reqs1 in
    elim (Bool-cases (fits doc)) [
      | inl e ↦ rw e (leb→le (estimate_tokens doc) 500 e)
      | inr e ↦ elim (Bool-cases (fits (render h [] []))) [
        | inl f ↦ rw (e, f) (leb→le (estimate_tokens (render h [] [])) 500 f)
        | inr f ↦ rw (e, f) (estimate-clip (render h [] []))
      ]
    ]

-- The document of a job is within one chunk of the reranker, 500 tokens by the estimate, whatever the
-- title, the lists and the pay are.
pub build_synthesized_doc-bound :
    (py : Builtins) (d : DocFields) → estimate_tokens (build_synthesized_doc py d) ≤ 500
unfolding build_synthesized_doc
build_synthesized_doc-bound py d = shorten_bound _ _ _
