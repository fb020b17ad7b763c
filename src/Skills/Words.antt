-- ===== src/Skills/Words.antt =====
-- scan_text of app/skills/linker.py: when `f" {key} " in haystack` holds.
use Prim.Native.Char.{code}
use Prim.Native.String.{◌++◌ as append_text}
use Prim.Native.String.append
use job_match_pipeline.Prelude.{
  ◌≡◌, refl, Bool, false, ◌&&◌, ◌||◌, String, Option, none, some, arith, nat_beq, if◌then◌else◌,
  ◌∙◌,
}
use mathlib.Core.Path.{ap}
use job_match_pipeline.Prelude.Text.{starts_with, occurs}
use job_match_pipeline.Skills.Linker.{is_found, spaced}

-- What stands after a word with which a text begins.
abbrev pub after : String → String → Option String
after String.[] s = some s
after (String.◌∷◌ c p) String.[] = none
after (String.◌∷◌ c p) (String.◌∷◌ d s) =
    let rest = after p s in if nat_beq (code c) (code d) then rest else none

abbrev pub has_blank_first : Option String → Bool
has_blank_first none = false
has_blank_first (some String.[]) = false
has_blank_first (some (String.◌∷◌ d s)) = nat_beq 32 (code d)

-- Somewhere in the text there is a blank, then the word, then a blank again.
abbrev pub has_word : String → String → Bool
has_word key String.[] = false
has_word key (String.◌∷◌ c s) =
    (nat_beq 32 (code c) && has_blank_first (after key s)) || has_word key s

starts_with-blank : (s : String) → starts_with " " s ≡ has_blank_first (some s)
unfolding starts_with
starts_with-blank String.[] = refl
starts_with-blank (String.◌∷◌ d s) = ground arith

starts_with-append :
    (key s : String) → starts_with (append_text key " ") s ≡ has_blank_first (after key s)
unfolding starts_with
starts_with-append String.[] s = rw (append.nil " ") (starts_with-blank s)
starts_with-append (String.◌∷◌ c key) String.[] = rw (append.cons c key " ") refl
starts_with-append (String.◌∷◌ c key) (String.◌∷◌ d s) =
    rw (append.cons c key " ") (ground (arith, starts_with-append key s))

spaced_step : (key : String) → spaced key ≡ String.◌∷◌ " " (append_text key " ")
spaced_step key =
    append.cons " " "" (append_text key " ") ∙ ap (λ t. String.◌∷◌ " " t) (append.nil _)

-- The scan finds a key just where it is a word of the text.
pub is_found-has_word : (haystack key : String) → is_found haystack key ≡ has_word key haystack
unfolding is_found occurs starts_with
is_found-has_word haystack key = rw (spaced_step key) (occurs_step haystack)
  where
    occurs_step : (s : String) → occurs (String.◌∷◌ " " (append_text key " ")) s ≡ has_word key s
    occurs_step String.[] = refl
    occurs_step (String.◌∷◌ c s) = ground (arith, occurs_step s, starts_with-append key s)
