-- ===== src/Ingest/Posting.antt =====
-- app/ingest/store.py: the posting that a payload describes, or that its provider is asked for.
use job_match_pipeline.Prelude.{
  ℕ, Bool, true, false, ◌&&◌, ◌||◌, not, String, List, [], ◌∷◌, Option, none, some, ltb, elem,
  string_eq, if◌then◌else◌,
}
use job_match_pipeline.Prelude.Text.{truthy, strip}
use job_match_pipeline.Payload.{
  ℤ, Value, null, flag, text, Payload, Builtins, lookup, is_truthy, is_blank, to_str, to_int,
}
use job_match_pipeline.Db.Rows.{Score, Time, Action}
use job_match_pipeline.Ingest.Html.{HtmlLibrary, html_to_text}
use job_match_pipeline.Ingest.Url.{UrlLibrary}

pub record Posting : Type 0 where
  pub url : String
  pub title : String
  pub location : Option String
  pub department : Option String
  pub employment_type : Option String
  pub work_arrangement : Option String
  pub comp_min : Option ℤ
  pub comp_max : Option ℤ
  pub raw_jd : Option String
  pub raw_jd_html : Option String
  pub posted_at : Option Time
  pub external_id : Option String

-- A posting, PermanentIngestError with its reason, or any other exception.
pub data Materialized : Type 0 where
  materialized : Posting → Materialized
  permanent_error : Action → Materialized
  other_error : Materialized

-- `adapter.list_postings`: the postings, PermanentIngestError with its reason, or any other exception.
pub data Listing : Type 0 where
  listed : List Posting → Listing
  refused : Action → Listing
  failed : Listing

-- What ingestion takes from outside: the libraries, `datetime.fromisoformat` with a missing zone read
-- as UTC, `datetime.isoformat`, `float` of a count, and the adapters' calls of the boards' APIs, by the
-- provider's key.
pub record IngestLibrary : Type 0 where
  pub html : HtmlLibrary
  pub urls : UrlLibrary
  pub datetime_of_text : String → Option Time
  pub text_of_datetime : Time → String
  pub float_of_count : ℕ → Score
  pub fetch_posting : String → String → Materialized
  pub list_postings : String → String → Listing

-- `payload.get(key)` where only a text counts.
abbrev text_value : Value → Option String
text_value (text s) = some s
text_value _ = none

abbrev stripped_or_none : String → Option String
stripped_or_none s = if truthy s then some s else none

unfoldable pub str_or_none : Builtins → Value → Option String
str_or_none py null = none
str_or_none py v = stripped_or_none (strip (to_str py v))

unfoldable pub int_or_none : Builtins → Value → Option ℤ
int_or_none py v = if is_blank v then none else to_int py v

unfoldable pub parse_dt : IngestLibrary → Value → Option Time
parse_dt lib (text s) = if truthy s then lib.datetime_of_text s else none
parse_dt lib v = none

-- `_ADAPTERS`
abbrev pub is_supported : String → Bool
is_supported key = elem key ("greenhouse" ∷ "lever" ∷ "ashby" ∷ [])

-- `get_adapter(provider).fetch_posting(url)`; an unknown provider is an error like that of a fetch.
unfoldable pub fetch_posting : IngestLibrary → String → String → Materialized
fetch_posting lib provider url =
    let key = lib.urls.lower (strip provider) in
    if is_supported key then lib.fetch_posting key url else other_error

abbrev is_blank_text : Option String → Bool
is_blank_text none = true
is_blank_text (some s) = not (truthy (strip s))

-- The HTML to show: of its own key, or what stands as the JD.
abbrev html_source : Value → Value → Option String
html_source html jd = if is_blank_text (text_value html) then text_value jd else text_value html

unfoldable pub posting_of : Builtins → IngestLibrary → Payload → String → Option String → Posting
posting_of py lib p url raw_jd = record {
  url = strip url;
  title = strip (to_str py (lookup "title" p));
  location = str_or_none py (lookup "location" p);
  department = str_or_none py (lookup "department" p);
  employment_type = str_or_none py (lookup "employment_type" p);
  work_arrangement = str_or_none py (lookup "work_arrangement" p);
  comp_min = int_or_none py (lookup "comp_min" p);
  comp_max = int_or_none py (lookup "comp_max" p);
  raw_jd = raw_jd;
  raw_jd_html = html_source (lookup "raw_jd_html" p) (lookup "raw_jd" p);
  posted_at = parse_dt lib (lookup "posted_at" p);
  external_id = str_or_none py (lookup "external_id" p);
}

abbrev from_payload : Builtins → IngestLibrary → Payload → String → Option String → Materialized
from_payload py lib p url raw_jd =
    if is_truthy (lookup "title" p)
    then materialized (posting_of py lib p url raw_jd)
    else permanent_error Action.unparseable

-- The JD by the kind of its value: fetched if it is missing, and where it is no text but true, the
-- caller's `raw_jd.strip()` raises.
unfoldable pub with_jd : Builtins → IngestLibrary → Payload → String → Value → Materialized
with_jd py lib p url null =
    let provider = lookup "ats_provider" p in
    if is_truthy provider
    then fetch_posting lib (to_str py provider) url
    else permanent_error Action.unparseable
with_jd py lib p url (text s) = from_payload py lib p url (html_to_text lib.html (some s))
with_jd py lib p url v =
    if is_truthy v && is_truthy (lookup "title" p)
    then other_error
    else from_payload py lib p url none

abbrev with_url : Builtins → IngestLibrary → Payload → Option String → Materialized
with_url py lib p none = permanent_error Action.unparseable
with_url py lib p (some url) =
    if truthy url
    then with_jd py lib p url (lookup "raw_jd" p)
    else permanent_error Action.unparseable

-- `_materialize_posting`
unfoldable pub materialize_posting : Builtins → IngestLibrary → Payload → Materialized
unfolding with_jd
materialize_posting py lib p = with_url py lib p (text_value (lookup "url" p))

abbrev is_true : Value → Bool
is_true (flag true) = true
is_true _ = false

abbrev is_past : Time → Option Time → Bool
is_past now none = false
is_past now (some t) = ltb t now

abbrev status_text : Builtins → Value → String
status_text py v = if is_truthy v then to_str py v else ""

unfoldable pub is_expired : Builtins → IngestLibrary → Time → Payload → Bool
is_expired py lib now p =
    is_true (lookup "expired" p)
    || is_past now (parse_dt lib (lookup "expires_at" p))
    || elem (lib.urls.lower (status_text py (lookup "status" p)))
        ("expired" ∷ "closed" ∷ "archived" ∷ [])
