-- ===== src/Profile/Document.antt =====
-- app/profile/synthesize.py: the document of a profile, trimmed to the embedder's limit.
use Prim.Native.String.{◌++◌ as append_text}
use job_match_pipeline.Prelude.{
  ℕ, zero, suc, ◌+◌, ◌*◌, Bool, false, ◌&&◌, not, String, List, [], ◌∷◌, ◌++◌, Option, none, some,
  keep, last, map, length, leb, ltb, or_else, is_empty, if◌then◌else◌,
}
use job_match_pipeline.Prelude.Text.{truthy, join, clip, lstrip, reverse_onto}
use job_match_pipeline.Extract.Synthesize.{estimate_tokens, pop}
use job_match_pipeline.Profile.Schema.{WorkHistoryEntry, ParsedResume}
use job_match_pipeline.Profile.Filters.{or_list, all_arrangements}
use job_match_pipeline.Profile.Spans.{text_leb}

-- `(entry, texts of its bullets)`
abbrev pub RoleText : Type 0
RoleText = WorkHistoryEntry × List String

-- `max(history, key=lambda role: role.start_date or "")`, the first of the greatest
unfoldable pub latest_start : WorkHistoryEntry → List WorkHistoryEntry → WorkHistoryEntry
unfolding text_leb
latest_start best [] = best
latest_start best (r ∷ rs) =
    latest_start
      (if text_leb (or_else r.start_date "") (or_else best.start_date "") then best else r) rs

abbrev latest_of : List WorkHistoryEntry → Option WorkHistoryEntry
latest_of [] = none
latest_of (r ∷ rs) = some (latest_start r rs)

unfoldable pub most_recent_role : List WorkHistoryEntry → Option WorkHistoryEntry
unfolding latest_start
most_recent_role history = elim (last (keep (λ r. r.is_current) history)) [
  | some r ↦ some r
  | none ↦ latest_of history
]

abbrev title_of : Option WorkHistoryEntry → String
title_of none = "Candidate"
title_of (some r) = r.title

-- `value or default`, on an optional text
abbrev or_text : Option String → String → String
or_text none default = default
or_text (some s) default = if truthy s then s else default

abbrev listed : String → List String → List String
listed label xs = if is_empty xs then [] else append_text label (join ", " xs) ∷ []

abbrev summary_lines : Option String → List String
summary_lines none = []
summary_lines (some s) = if truthy s then "" ∷ "Summary:" ∷ s ∷ [] else []

unfoldable pub header_lines : ParsedResume → List String → List String
unfolding join most_recent_role
header_lines p labels =
    append_text "Title: " (title_of (most_recent_role p.work_history))
    ∷ append_text "Seniority: " (or_text p.seniority "unspecified")
    ∷ (listed "Location: " p.locations
        ++ (listed "Work arrangement: " (or_list p.work_arrangement all_arrangements)
            ++ (listed "Skills: " labels ++ summary_lines p.summary)))

abbrev end_of : WorkHistoryEntry → String
end_of e = if e.is_current then "present" else or_text e.end_date "present"

abbrev place_of : Option String → String
place_of none = ""
place_of (some s) = if truthy s then append_text " (" (append_text s ")") else ""

abbrev role_line : WorkHistoryEntry → String
role_line e = append_text e.title (
    append_text " — " (
      append_text e.employer (
        append_text " (" (
          append_text (or_text e.start_date "?")
            (append_text " – " (append_text (end_of e) (append_text ")" (place_of e.location))))))))

unfoldable pub history_lines : List RoleText → List String
history_lines [] = []
history_lines ((e, bullets) ∷ rest) =
    role_line e ∷ (map (λ text. append_text "- " text) bullets ++ ("" ∷ history_lines rest))

-- `text.rstrip() + "\n"`
unfoldable pub end_line : String → String
unfolding lstrip reverse_onto
end_line text = reverse_onto "" (String.◌∷◌ "\n" (lstrip (reverse_onto "" text)))

module _ (header : List String) (max_tokens : ℕ) where
  unfoldable pub render_profile : List RoleText → String
  unfolding history_lines end_line join
  render_profile history =
      end_line (join "\n" (header ++ ("" ∷ "Experience:" ∷ history_lines history)))

  -- `estimate_tokens(doc) > max_tokens`
  unfoldable pub is_long : List RoleText → Bool
  is_long history = not (leb (estimate_tokens (render_profile history)) max_tokens)

  -- The body of the first loop.
  abbrev pub trim_first : List RoleText → List RoleText
  trim_first [] = []
  trim_first ((e, []) ∷ rest) = rest
  trim_first ((e, b ∷ bs) ∷ rest) = (e, pop (b ∷ bs)) ∷ rest

  -- The first loop, and the second, on fuel.
  unfoldable pub trim_oldest : ℕ → List RoleText → List RoleText
  trim_oldest zero history = history
  trim_oldest (suc n) history =
      let shorter = trim_oldest n (trim_first history) in
      if is_long history && ltb 1 (length history) then shorter else history

  abbrev pub pop_first : List RoleText → List RoleText
  pop_first [] = []
  pop_first ((e, bs) ∷ rest) = (e, pop bs) ∷ rest

  abbrev pub has_bullets : List RoleText → Bool
  has_bullets [] = false
  has_bullets ((e, bs) ∷ rest) = not (is_empty bs)

  unfoldable pub trim_bullets : ℕ → List RoleText → List RoleText
  trim_bullets zero history = history
  trim_bullets (suc n) history =
      let shorter = trim_bullets n (pop_first history) in
      if is_long history && has_bullets history then shorter else history

  -- The bodies that the loops can run.
  abbrev pub weight : List RoleText → ℕ
  weight [] = 0
  weight ((e, bs) ∷ rest) = suc (length bs + weight rest)

  unfoldable pub trimmed : List RoleText → List RoleText
  unfolding trim_oldest trim_bullets
  trimmed history =
      let kept = trim_oldest (weight history) history in trim_bullets (weight kept) kept

  unfoldable pub fit_profile : List RoleText → String
  unfolding trimmed end_line
  fit_profile history =
      let doc = render_profile (trimmed history) in
      if is_long (trimmed history) then end_line (clip (max_tokens * 4) doc) else doc

abbrev pub texts_of : List WorkHistoryEntry → List RoleText
texts_of history = map (λ e. (e, map (λ b. b.text) e.bullets)) history

-- The arguments are the labels of the skills, `linker.labels_for(skill_ids)`, and the limit.
unfoldable pub synthesize_profile_doc : ParsedResume → List String → ℕ → String
unfolding header_lines fit_profile
synthesize_profile_doc p labels max_tokens =
    fit_profile (header_lines p labels) max_tokens (texts_of p.work_history)
