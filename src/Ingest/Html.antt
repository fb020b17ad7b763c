-- ===== src/Ingest/Html.antt =====
-- app/ats/normalize.py: the text of a posting's HTML, and the HTML that is shown.
use job_match_pipeline.Prelude.{
  ℕ, suc, ◌-◌, Bool, ◌&&◌, ◌||◌, not, String, List, [], ◌∷◌, ◌++◌, Option, none, some, ltb, elem,
  string_eq, if◌then◌else◌,
}
use job_match_pipeline.Prelude.Text.{truthy, strip, join, has_char}

-- The calls that `html.parser.HTMLParser.feed` makes.
pub data HtmlEvent : Type 0 where
  starttag : String → HtmlEvent
  endtag : String → HtmlEvent
  data_text : String → HtmlEvent

-- Python's `html`, `html.parser` and `re` on a text, and nh3.
pub record HtmlLibrary : Type 0 where
  -- html.unescape
  pub unescape : String → String
  -- `none` where the parser raises
  pub feed : String → Option (List HtmlEvent)
  -- `re.sub(r"<[^>]+>", " ", text)`
  pub strip_tags : String → String
  pub splitlines : String → List String
  -- `_WHITESPACE_RE.sub(" ", line)` and `_BLANK_LINES_RE.sub("\n\n", text)`
  pub collapse_spaces : String → String
  pub collapse_blank_lines : String → String
  -- `_BOILERPLATE_RE.match` and `_HTML_TAG_RE.search`
  pub is_boilerplate : String → Bool
  pub has_tag : String → Bool
  -- nh3.clean with the allowed tags and attributes
  pub clean : String → String

-- `_TextExtractor`
pub record TextExtractor : Type 0 where
  pub chunks : List String
  pub skip_depth : ℕ

abbrev is_skipped_tag : String → Bool
is_skipped_tag tag = elem tag ("script" ∷ "style" ∷ "noscript" ∷ [])

abbrev opens_line : String → Bool
opens_line tag =
    elem tag ("p" ∷ "div" ∷ "br" ∷ "li" ∷ "tr" ∷ "h1" ∷ "h2" ∷ "h3" ∷ "h4" ∷ "h5" ∷ "h6" ∷ [])

abbrev closes_line : String → Bool
closes_line tag = elem tag ("p" ∷ "div" ∷ "li" ∷ "tr" ∷ [])

abbrev add_chunk : String → TextExtractor → TextExtractor
add_chunk s t = record t { chunks = t.chunks ++ s ∷ [] }

-- `handle_starttag`, `handle_endtag` and `handle_data`
unfoldable pub handle : HtmlEvent → TextExtractor → TextExtractor
handle (starttag tag) t =
    if is_skipped_tag tag
    then record t { skip_depth = suc t.skip_depth }
    else if opens_line tag
    then add_chunk "\n" t
    else t
handle (endtag tag) t =
    if is_skipped_tag tag && ltb 0 t.skip_depth
    then record t { skip_depth = t.skip_depth - 1 }
    else if closes_line tag
    then add_chunk "\n" t
    else t
handle (data_text s) t = if ltb 0 t.skip_depth then t else add_chunk s t

unfoldable pub handle_all : List HtmlEvent → TextExtractor → TextExtractor
handle_all [] t = t
handle_all (e ∷ es) t = handle_all es (handle e t)

abbrev text_of : HtmlLibrary → String → Option (List HtmlEvent) → String
text_of lib s none = lib.strip_tags s
text_of lib s (some es) = join "" (handle_all es (record { chunks = []; skip_depth = 0 })).chunks

-- The lines that are kept.
unfoldable pub clean_lines : HtmlLibrary → List String → List String
clean_lines lib [] = []
clean_lines lib (line ∷ rest) =
    let cleaned = strip (lib.collapse_spaces line) in
    let others = clean_lines lib rest in
    if not (truthy cleaned) || lib.is_boilerplate cleaned then others else cleaned ∷ others

abbrev or_none : String → Option String
or_none s = if truthy s then some s else none

unfoldable pub html_to_text : HtmlLibrary → Option String → Option String
html_to_text lib none = none
html_to_text lib (some raw) =
    let text = lib.unescape (strip raw) in
    let body =
      if has_char 60 text && has_char 62 text
      then lib.unescape (text_of lib text (lib.feed text))
      else text in
    if not (truthy (strip raw))
    then none
    else or_none
        (strip (lib.collapse_blank_lines (join "\n" (clean_lines lib (lib.splitlines body)))))

unfoldable pub sanitize_jd_html : HtmlLibrary → Option String → Option String
sanitize_jd_html lib none = none
sanitize_jd_html lib (some raw) =
    let text = lib.unescape (strip raw) in
    let cleaned = strip (lib.clean text) in
    if not (truthy (strip raw)) || not (lib.has_tag text)
    then none
    else if not (truthy cleaned) || not (lib.has_tag cleaned)
    then none
    else some cleaned
