-- ===== src/Verify/Patterns.antt =====
-- What the checks take from outside: the matches of their regular expressions, Unicode label
-- normalization, and the skill linker.
use job_match_pipeline.Prelude.{String, List, Option}

-- The `re` and `unicodedata` calls of app/verify/deterministic.py and app/skills/normalize.py.
pub record Patterns : Type 0 where
  -- normalize_label
  pub normalize_label : String → String
  -- `_CORP_SUFFIX_RE.sub("", text).strip(" .,")`
  pub strip_corp_suffix : String → String
  -- `re.search(r"\b(19|20)\d{2}\b", raw)`
  pub year : String → Option String
  -- `re.split(r"\s*[–—\-to]+\s*", text)`
  pub date_parts : String → List String
  -- The matches of `_NUMBER_RE` in the text less span ids and list markers.
  pub number_matches : String → List String
  -- The names that follow "at" or "@" in a text, stripped.
  pub employer_phrases : String → List String

-- `SkillLinker`, as the checks use it: the ids that `link_spans` and `scan_text` find.
pub record Linker : Type 0 where
  pub link_spans : List String → List String
  pub scan_text : String → List String
