-- ===== src/Tests/Ingesting.antt =====
-- Runs of ingestion and extraction.
use job_match_pipeline.Prelude.{
  ◌≡◌, refl, String, [], ◌∷◌, Option, none, some, true, false, length, map, nat_eq, string_eq,
  leb→le,
}
use job_match_pipeline.Prelude.Text.{strip, text_length, join, has_char}
use job_match_pipeline.Payload.{ℤ, Payload, text, pos, parse_uuid, lookup}
use job_match_pipeline.Llm.{answered, returned}
use job_match_pipeline.Db.Rows.{Job, Company, Action}
use job_match_pipeline.Db.Session.{World, get_job}
use job_match_pipeline.Ingest.Html.{HtmlLibrary, html_to_text, clean_lines}
use job_match_pipeline.Ingest.Url.{UrlLibrary, hash_url, normalize_url, trim_path}
use job_match_pipeline.Ingest.Posting.{
  Posting, IngestLibrary, materialize_posting, with_jd, posting_of, is_expired, parse_dt,
  other_error, listed,
}
use job_match_pipeline.Ingest.Store.{
  ingest_posting, ingest_materialized, store_posting, upsert, job_values, url_hash_of,
}
use job_match_pipeline.Ingest.Unique.{IsUnique, IsRefreshed, ingest_posting-IsRefreshed}
use job_match_pipeline.Ingest.Links.{FetchRequest, fetch_postings}
use job_match_pipeline.Ingest.New.{IsFetched, fetch_postings-IsFetched}
use job_match_pipeline.Extract.Synthesize.{Header, estimate_tokens, fits, render, kept_requirements}
use job_match_pipeline.Extract.Trimmed.{IsLongest, kept_requirements-IsLongest}
use job_match_pipeline.Extract.Model.{
  JobExtraction, embedded, ExtractServices, ExtractResult, SkillLinker, is_usable,
}
use job_match_pipeline.Extract.Service.{
  extract_job, extract_found, after_llm, embed_extraction, after_embedding, save_extraction,
}
use job_match_pipeline.Extract.Once.{IsExtracted, extract_job-keeps_row}
use job_match_pipeline.Extract.Short.{HasShortDocs}
use job_match_pipeline.Tests.Data.{py, world, job, bill, names, marks, count_marks}

abbrev html : HtmlLibrary
html = record {
  unescape = λ s. s;
  feed = λ s. none;
  strip_tags = λ s. s;
  splitlines = λ s. s ∷ [];
  collapse_spaces = λ s. s;
  collapse_blank_lines = λ s. s;
  is_boilerplate = λ s. false;
  has_tag = λ s. false;
  clean = λ s. s;
}

abbrev urls : UrlLibrary
urls = record {
  urlsplit = λ s. record { scheme = ""; netloc = ""; path = s; query = ""; fragment = "" };
  urlunsplit = λ r. r.path;
  lower = λ s. s;
  sha256 = λ s. s;
}

abbrev posting_at : String → Posting
posting_at url = record {
  url = url;
  title = "Engineer";
  location = none;
  department = none;
  employment_type = none;
  work_arrangement = none;
  comp_min = none;
  comp_max = none;
  raw_jd = some "build things";
  raw_jd_html = none;
  posted_at = none;
  external_id = none;
}

abbrev pub lib : IngestLibrary
lib = record {
  html = html;
  urls = urls;
  datetime_of_text = λ s. none;
  text_of_datetime = λ t. "";
  float_of_count = λ n. n;
  fetch_posting = λ key url. other_error;
  list_postings = λ key token. listed (posting_at "h" ∷ posting_at "new" ∷ []);
}

abbrev pub message : Payload
message = ("url", text "new") ∷ ("title", text "Engineer") ∷ ("raw_jd", text "build things") ∷ []

-- The message makes a second row.
two_rows : length (ingest_posting py lib message world).1.jobs ≡ 2
unfolding ingest_posting ingest_materialized materialize_posting with_jd posting_of html_to_text
    clean_lines has_char join strip lookup is_expired parse_dt store_posting upsert job_values
    url_hash_of hash_url normalize_url trim_path
two_rows = refl

ingest_posting-IsRefreshed_example :
    IsUnique (ingest_posting py lib message world).1
    × IsRefreshed world.jobs (ingest_posting py lib message world).1.jobs
ingest_posting-IsRefreshed_example = ingest_posting-IsRefreshed py lib message world (refl, tt)

abbrev request : FetchRequest
request = record {
  company_id = none;
  ats_provider = some "greenhouse";
  board_token = some "acme";
  company_name = none;
  is_enqueuing = true;
}

abbrev company : Company
company = record {
  id = 2;
  name = "Acme";
  ats_provider = some "greenhouse";
  board_token = some "acme";
  discovered_via = none;
}

-- The posting `h` is there, `new` is not.
fetch_postings-IsFetched_example :
    IsFetched py lib request company "greenhouse" (posting_at "h" ∷ posting_at "new" ∷ []) world (
      fetch_postings py lib request company "greenhouse"
        (posting_at "h" ∷ posting_at "new" ∷ [])
        world)
fetch_postings-IsFetched_example =
    fetch_postings-IsFetched py lib request company "greenhouse"
      (posting_at "h" ∷ posting_at "new" ∷ []) world

abbrev header : Header
header = record { title_line = "Title: Engineer" ∷ []; seniority_line = []; comp_line = [] }

kept_requirements-IsLongest_example :
    IsLongest
      (λ r. fits (render header ("python" ∷ []) r))
      ("degree" ∷ "years" ∷ [])
      (kept_requirements header ("python" ∷ []) ("degree" ∷ "years" ∷ []))
kept_requirements-IsLongest_example =
    kept_requirements-IsLongest header ("python" ∷ []) ("degree" ∷ "years" ∷ [])

abbrev linker : SkillLinker
linker = record { link_spans = λ spans. spans; link_span_report = none; labels_for = none }

abbrev extraction : JobExtraction
extraction = record {
  parseable = true;
  seniority = some "senior";
  hard_requirements = "degree" ∷ [];
  nice_to_haves = [];
  work_arrangement = some "remote";
  comp_min = some (pos 100);
  comp_max = none;
  skill_spans = "python" ∷ [];
}

abbrev pub services : ExtractServices
services = record {
  llm = λ raw title. answered extraction bill;
  embedder = λ doc. embedded (record { vector = 1 ∷ []; token_count = 3; cost_usd = 1 });
  linker = some linker;
  linker_from_session = λ w. linker;
  concept_label = λ w id. none;
  during_llm = λ w. w;
  during_embedding = λ w. w;
}

abbrev open_job : Job
open_job = record job {
  id = 11;
  url_hash = "i";
  raw_jd = some "We build things, and look for somebody who builds them.";
  extracted_at = none;
  synthesized_doc = none;
}

abbrev pub full_world : World
full_world = record world { jobs = job ∷ open_job ∷ [] }

parse-11 : parse_uuid py (lookup "job_id" (names "job_id" 11)) ≡ some 11
unfolding marks count_marks parse_uuid lookup
parse-11 = refl

-- Job 10 is extracted; its row stays when job 11 is extracted.
extract_job-keeps_row_example :
    IsExtracted 10 job (extract_job py services (names "job_id" 11) full_world).1.jobs
extract_job-keeps_row_example =
    extract_job-keeps_row py services 10 job (names "job_id" 11) full_world (λ v h. h) (λ v h. h)
      (record { row = refl; extracted = refl })

pub short_docs : HasShortDocs full_world.jobs
unfolding estimate_tokens text_length
short_docs = (leb→le 3 500 refl, (tt, tt))

abbrev first_result : ExtractResult
first_result = record {
  action = Action.extracted;
  job_id = some 11;
  usage = record bill { cost_usd = 4 };
}

extracts-11 : (extract_job py services (names "job_id" 11) full_world).0 ≡ returned first_result
unfolding extract_job extract_found after_llm embed_extraction after_embedding save_extraction
    is_usable get_job marks count_marks parse_uuid lookup strip text_length
extracts-11 = refl

abbrev pay_of : Option Job → Option ℤ
pay_of none = none
pay_of (some j) = j.comp_min

abbrev with_pay : Job → Job
with_pay j = record j { comp_min = some (pos 70) }

-- While the model is called, a posting's refresh writes the pay of the board; the extraction's pay is
-- written over it.
abbrev refreshing : ExtractServices
refreshing = record services { during_llm = λ w. record w { jobs = map with_pay w.jobs } }

pay_of_refreshed :
    pay_of (get_job 11 (extract_job py refreshing (names "job_id" 11) full_world).1)
    ≡ some (pos 100)
unfolding extract_job extract_found after_llm embed_extraction after_embedding save_extraction
    is_usable get_job marks count_marks parse_uuid lookup strip text_length
pay_of_refreshed = refl
