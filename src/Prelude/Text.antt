-- ===== src/Prelude/Text.antt =====
-- What the program uses of Python's `str`: `strip`, truth, slices.
use Prim.Native.Char.{code}
use Prim.Native.String.{◌++◌ as append_text}
use job_match_pipeline.Prelude.{
  ℕ, zero, suc, String, ◌≡◌, refl, Bool, true, false, List, [], ◌∷◌, ◌&&◌, ◌||◌, not, leb, nat_beq,
  if◌then◌else◌, ◌==◌, string_eq,
}

-- `ch.isspace()`, the characters that `strip` takes off.
unfoldable pub is_space : ℕ → Bool
is_space c =
    (leb 9 c && leb c 13)
    || (leb 28 c && leb c 32)
    || nat_beq c 133
    || nat_beq c 160
    || nat_beq c 5760
    || (leb 8192 c && leb c 8202)
    || (leb 8232 c && leb c 8233)
    || nat_beq c 8239
    || nat_beq c 8287
    || nat_beq c 12288

unfoldable pub lstrip : String → String
unfolding is_space
lstrip String.[] = ""
lstrip (String.◌∷◌ c s) = if is_space (code c) then lstrip s else String.◌∷◌ c s

unfoldable pub reverse_onto : String → String → String
reverse_onto acc String.[] = acc
reverse_onto acc (String.◌∷◌ c s) = reverse_onto (String.◌∷◌ c acc) s

-- `text.strip()`
unfoldable pub strip : String → String
unfolding lstrip reverse_onto
strip s = reverse_onto "" (lstrip (reverse_onto "" (lstrip s)))

-- `text[:n]`
unfoldable pub clip : ℕ → String → String
clip zero s = ""
clip (suc n) String.[] = ""
clip (suc n) (String.◌∷◌ c s) = String.◌∷◌ c (clip n s)

-- `sep.join(parts)`
unfoldable pub join : String → List String → String
join sep [] = ""
join sep (s ∷ []) = s
join sep (s ∷ t ∷ rest) = append_text s (append_text sep (join sep (t ∷ rest)))

-- Whether a character, by its code, is in a text.
unfoldable pub has_char : ℕ → String → Bool
has_char c String.[] = false
has_char c (String.◌∷◌ d s) = nat_beq c (code d) || has_char c s

-- `len(text)`
unfoldable pub text_length : String → ℕ
text_length String.[] = 0
text_length (String.◌∷◌ c s) = suc (text_length s)

-- `text.startswith(prefix)`
unfoldable pub starts_with : String → String → Bool
starts_with String.[] s = true
starts_with (String.◌∷◌ c p) String.[] = false
starts_with (String.◌∷◌ c p) (String.◌∷◌ d s) = nat_beq (code c) (code d) && starts_with p s

-- `part in text`
unfoldable pub occurs : String → String → Bool
unfolding starts_with
occurs part String.[] = starts_with part ""
occurs part (String.◌∷◌ c s) = starts_with part (String.◌∷◌ c s) || occurs part s

-- The truth of a text: it is not empty.
abbrev pub truthy : String → Bool
truthy s = not (s == "")

strips : strip "  a b\n" ≡ "a b"
unfolding strip
strips = refl

strips_blank : strip " \t " ≡ ""
unfolding strip
strips_blank = refl
