-- ===== src/Profile/Limits.antt =====
-- app/profile/synthesize.py: how long the document of a profile may be.
use job_match_pipeline.Prelude.{ℕ, ◌+◌, ◌*◌, ◌≤◌, ◌≡◌, String, List, leb→le, if◌then◌else◌, arith}
use job_match_pipeline.Prelude.Text.{clip, lstrip, reverse_onto, text_length}
use job_match_pipeline.Extract.Synthesize.{estimate_tokens}
use job_match_pipeline.Extract.Bounds.{length-clip}
use job_match_pipeline.Profile.Schema.{ParsedResume}
use job_match_pipeline.Profile.Document.{
  RoleText, end_line, render_profile, is_long, trimmed, fit_profile, synthesize_profile_doc,
  header_lines, texts_of,
}

length-reverse_onto :
    (acc s : String) → text_length (reverse_onto acc s) ≡ text_length s + text_length acc
unfolding text_length reverse_onto
length-reverse_onto acc String.[] = omega arith
length-reverse_onto acc (String.◌∷◌ c s) = omega (arith, length-reverse_onto (String.◌∷◌ c acc) s)

length-lstrip : (s : String) → text_length (lstrip s) ≤ text_length s
unfolding text_length lstrip
length-lstrip String.[] = omega arith
length-lstrip (String.◌∷◌ c s) = ground (arith, length-lstrip s)

length-end_line : (s : String) → text_length (end_line s) ≤ text_length s + 1
unfolding end_line text_length
length-end_line s = omega (
  arith,
  length-reverse_onto "" (String.◌∷◌ "\n" (lstrip (reverse_onto "" s))),
  length-lstrip (reverse_onto "" s),
  length-reverse_onto "" s,
)

estimate-end_line :
    (s : String) (n : ℕ) → text_length s ≤ n * 4 → estimate_tokens (end_line s) ≤ n + 1
unfolding estimate_tokens
estimate-end_line s n h = ground (arith, h, length-end_line s)

module _ (header : List String) (max_tokens : ℕ) where
  fits_or_clipped :
      (kept : List RoleText)
      → estimate_tokens (
          if is_long header max_tokens kept
          then end_line (clip (max_tokens * 4) (render_profile header max_tokens kept))
          else render_profile header max_tokens kept)
        ≤ max_tokens + 1
  unfolding is_long
  fits_or_clipped kept =
      let doc = render_profile header max_tokens kept in
      ground (
        arith,
        leb→le (estimate_tokens doc) max_tokens,
        estimate-end_line (clip (max_tokens * 4) doc) max_tokens (length-clip (max_tokens * 4) doc),
      )

-- The document of a profile has at most one token more than the limit, by the estimate.
pub synthesize_profile_doc-bound :
    (p : ParsedResume) (labels : List String) (max_tokens : ℕ)
    → estimate_tokens (synthesize_profile_doc p labels max_tokens) ≤ max_tokens + 1
unfolding synthesize_profile_doc fit_profile
synthesize_profile_doc-bound p labels max_tokens =
    fits_or_clipped (header_lines p labels) max_tokens
      (trimmed (header_lines p labels) max_tokens (texts_of p.work_history))
