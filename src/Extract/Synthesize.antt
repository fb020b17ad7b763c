-- ===== src/Extract/Synthesize.antt =====
-- app/extract/synthesize.py: the document of a job, in one chunk of the reranker.
use Prim.Native.String.{◌++◌ as append_text}
use job_match_pipeline.Prelude.{
  ℕ, zero, suc, ◌+◌, ◌-◌, ◌*◌, ◌/◌, Bool, ◌&&◌, not, String, List, [], ◌∷◌, ◌++◌, Option, none,
  some, leb, length, is_empty, if◌then◌else◌,
}
use job_match_pipeline.Prelude.Text.{truthy, strip, clip, join, text_length}
use job_match_pipeline.Payload.{ℤ, number, Builtins}

-- SYNTH_DOC_MAX_TOKENS, _CHARS_PER_TOKEN and SYNTH_DOC_MAX_CHARS
abbrev pub synth_doc_max_tokens : ℕ
synth_doc_max_tokens = 500

abbrev pub chars_per_token : ℕ
chars_per_token = 4

abbrev pub synth_doc_max_chars : ℕ
synth_doc_max_chars = synth_doc_max_tokens * chars_per_token

unfoldable pub estimate_tokens : String → ℕ
estimate_tokens text =
    if not (truthy text) then 0 else (text_length text + chars_per_token - 1) / chars_per_token

-- `estimate_tokens(doc) <= SYNTH_DOC_MAX_TOKENS`
abbrev pub fits : String → Bool
fits doc = leb (estimate_tokens doc) synth_doc_max_tokens

-- `xs.pop()`: what is left.
abbrev pub pop : List String → List String
pop [] = []
pop (x ∷ []) = []
pop (x ∷ y ∷ xs) = x ∷ pop (y ∷ xs)

-- `while not ok(xs) and xs: xs.pop()`, on fuel.
unfoldable pub pop_until : (List String → Bool) → ℕ → List String → List String
pop_until ok zero xs = xs
pop_until ok (suc n) xs =
    let rest = pop_until ok n (pop xs) in if not (ok xs) && not (is_empty xs) then rest else xs

-- `[s.strip() for s in labels if s and s.strip()]`
unfoldable pub stripped_items : List String → List String
stripped_items [] = []
stripped_items (s ∷ rest) =
    let others = stripped_items rest in
    if truthy s && truthy (strip s) then strip s ∷ others else others

-- A line of the header, if its value is not blank.
abbrev header_line : String → Option String → List String
header_line label none = []
header_line label (some s) =
    if truthy s && truthy (strip s) then append_text label (strip s) ∷ [] else []

module _ (py : Builtins) where
  abbrev digits : ℤ → String
  digits n = py.str_of_value (number n)

  unfoldable pub comp_line : Option ℤ → Option ℤ → List String
  comp_line none none = []
  comp_line (some low) (some high) =
      append_text "Compensation: " (append_text (digits low) (append_text "-" (digits high))) ∷ []
  comp_line (some low) none = append_text "Compensation: " (append_text (digits low) "+") ∷ []
  comp_line none (some high) = append_text "Compensation: up to " (digits high) ∷ []

-- `if part: lines.append(label + "; ".join(part))`
abbrev list_line : String → List String → List String
list_line label part = if is_empty part then [] else append_text label (join "; " part) ∷ []

-- The lines that do not depend on the lists.
pub record Header : Type 0 where
  pub title_line : List String
  pub seniority_line : List String
  pub comp_line : List String

unfoldable pub render : Header → List String → List String → String
render h skill_part req_part = join "\n" (
    h.title_line
    ++ h.seniority_line
    ++ list_line "Skills: " skill_part
    ++ list_line "Hard requirements: " req_part
    ++ h.comp_line)

-- `doc[:SYNTH_DOC_MAX_CHARS]` where the header alone is too long.
abbrev clip_header : String → String
clip_header doc = if fits doc then doc else clip synth_doc_max_chars doc

-- The requirements that are left by the first loop, and the skills by the second.
unfoldable pub kept_requirements : Header → List String → List String → List String
kept_requirements h skills reqs = pop_until (λ r. fits (render h skills r)) (length reqs) reqs

unfoldable pub kept_skills : Header → List String → List String → List String
kept_skills h skills reqs = pop_until (λ s. fits (render h s reqs)) (length skills) skills

unfoldable pub shorten : Header → List String → List String → String
unfolding kept_requirements kept_skills
shorten h skills reqs =
    let reqs1 = kept_requirements h skills reqs in
    let doc = render h (kept_skills h skills reqs1) reqs1 in
    if fits doc then doc else clip_header (render h [] [])

pub record DocFields : Type 0 where
  pub title : Option String
  pub seniority : Option String
  pub skill_labels : List String
  pub hard_requirements : List String
  pub comp_min : Option ℤ
  pub comp_max : Option ℤ

unfoldable pub header_of : Builtins → DocFields → Header
header_of py d = record {
  title_line = header_line "Title: " d.title;
  seniority_line = header_line "Seniority: " d.seniority;
  comp_line = comp_line py d.comp_min d.comp_max;
}

unfoldable pub build_synthesized_doc : Builtins → DocFields → String
unfolding header_of shorten
build_synthesized_doc py d =
    shorten (header_of py d) (stripped_items d.skill_labels) (stripped_items d.hard_requirements)
