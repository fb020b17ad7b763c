-- ===== src/Ingest/Links.antt =====
-- app/ingest/fetch.py: fetch-link-list, from a company's board to the messages of ingest-job.
use job_match_pipeline.Prelude.{
  ℕ, suc, Bool, ◌&&◌, ◌||◌, not, String, List, [], ◌∷◌, ◌++◌, Option, none, some, map, find, elem,
  keep, length, nat_beq, if◌then◌else◌, ◌==◌, nat_eq, string_eq,
}
use job_match_pipeline.Prelude.Text.{truthy, strip}
use job_match_pipeline.Payload.{Uuid, ℤ, Value, null, number, text, Payload, Builtins}
use job_match_pipeline.Db.Rows.{Time, Company, Stage, Action}
use job_match_pipeline.Db.Session.{World, QueueName, record_pipeline_event, enqueue}
use job_match_pipeline.Ingest.Url.{hash_url}
use job_match_pipeline.Ingest.Posting.{
  Posting, Listing, listed, refused, failed, IngestLibrary, is_supported,
}

pub record FetchLinkListResult : Type 0 where
  pub company_id : Uuid
  pub listed_count : ℕ
  pub enqueued : ℕ
  pub skipped_existing : ℕ
  pub action : Action

-- A result, ValueError, or any other exception.
pub data Fetched : Type 0 where
  fetched : FetchLinkListResult → Fetched
  value_error : Fetched
  other_failure : Fetched

-- The keyword arguments.
pub record FetchRequest : Type 0 where
  pub company_id : Option Uuid
  pub ats_provider : Option String
  pub board_token : Option String
  pub company_name : Option String
  pub is_enqueuing : Bool

abbrev text_or_null : Option String → Value
text_or_null none = null
text_or_null (some s) = text s

abbrev number_or_null : Option ℤ → Value
number_or_null none = null
number_or_null (some n) = number n

abbrev time_or_null : IngestLibrary → Option Time → Value
time_or_null lib none = null
time_or_null lib (some t) = text (lib.text_of_datetime t)

unfoldable pub posting_to_ingest_payload :
    Builtins → IngestLibrary → Uuid → String → Posting → Payload
posting_to_ingest_payload py lib company_id ats_provider posting =
    ("url", text posting.url)
    ∷ ("title", text posting.title)
    ∷ ("location", text_or_null posting.location)
    ∷ ("department", text_or_null posting.department)
    ∷ ("employment_type", text_or_null posting.employment_type)
    ∷ ("work_arrangement", text_or_null posting.work_arrangement)
    ∷ ("comp_min", number_or_null posting.comp_min)
    ∷ ("comp_max", number_or_null posting.comp_max)
    ∷ ("raw_jd", text_or_null posting.raw_jd)
    ∷ ("raw_jd_html", text_or_null posting.raw_jd_html)
    ∷ ("posted_at", time_or_null lib posting.posted_at)
    ∷ ("external_id", text_or_null posting.external_id)
    ∷ ("url_hash", text (hash_url lib.urls posting.url))
    ∷ ("company_id", text (py.str_of_uuid company_id))
    ∷ ("ats_provider", text ats_provider)
    ∷ ("source", text ats_provider)
    ∷ []

abbrev is_text : String → Option String → Bool
is_text s none = Bool.false
is_text s (some t) = t == s

abbrev text_or : String → Option String → String
text_or s none = s
text_or s (some t) = if truthy t then t else s

abbrev or_empty : Option String → String
or_empty none = ""
or_empty (some s) = s

abbrev new_company : String → String → Option String → Uuid → Company
new_company provider token name id = record {
  id = id;
  name = text_or token name;
  ats_provider = some provider;
  board_token = some token;
  discovered_via = some "seed_config";
}

-- The company of a board, added if it is not there.
unfoldable pub company_of_board : String → String → Option String → World → Company × World
company_of_board provider token name w =
    elim (find (λ c. is_text provider c.ats_provider && is_text token c.board_token) w.companies) [
      | some company ↦ (company, w)
      | none ↦
          let company = new_company provider token name w.next_id in
          (company, record w { companies = w.companies ++ company ∷ []; next_id = suc w.next_id })
    ]

-- `_resolve_company`, with none for its ValueError.
unfoldable pub resolve_company : FetchRequest → World → Option (Company × World)
unfolding company_of_board
resolve_company r w = elim r.company_id [
  | some id ↦ elim (find (λ c. c.id == id) w.companies) [
    | none ↦ none
    | some company ↦ some (company, w)
  ]
  | none ↦
      let provider = or_empty r.ats_provider in
      let token = or_empty r.board_token in
      if not (truthy provider) || not (truthy token)
      then none
      else some (company_of_board provider token r.company_name w)
]

-- `get_adapter(provider).list_postings(token)`; the outer none is the ValueError of `get_adapter`.
unfoldable pub list_postings : IngestLibrary → String → String → Option Listing
list_postings lib provider token =
    let key = lib.urls.lower (strip provider) in
    if is_supported key then some (lib.list_postings key token) else none

-- The hashes of the rows that are there already.
abbrev pub known_hashes : World → List String
known_hashes w = map (λ j. j.url_hash) w.jobs

-- The variables of the loop.
pub record Progress : Type 0 where
  pub enqueued : ℕ
  pub skipped : ℕ
  pub world : World

module _ (py : Builtins) (lib : IngestLibrary) (r : FetchRequest) where
  unfoldable pub fetch_one : Uuid → String → List String → Posting → Progress → Progress
  unfolding enqueue
  fetch_one company provider existing posting s =
      let payload = posting_to_ingest_payload py lib company provider posting in
      if elem (hash_url lib.urls posting.url) existing
      then record s { skipped = suc s.skipped }
      else record s {
        enqueued = suc s.enqueued;
        world = if r.is_enqueuing then enqueue QueueName.ingest_job payload s.world else s.world;
      }

  unfoldable pub fetch_all : Uuid → String → List String → List Posting → Progress → Progress
  fetch_all company provider existing [] s = s
  fetch_all company provider existing (p ∷ ps) s =
      fetch_all company provider existing ps (fetch_one company provider existing p s)

  abbrev empty_result : Company → Action → FetchLinkListResult
  empty_result company action = record {
    company_id = company.id;
    listed_count = 0;
    enqueued = 0;
    skipped_existing = 0;
    action = action;
  }

  abbrev refusal : Company → Action → World → Fetched × World
  refusal company action w = (
    fetched (empty_result company action),
    record_pipeline_event Stage.fetch_link_list action none none none none w,
  )

  -- The postings are there; `existing` is what the table has of their hashes.
  unfoldable pub fetch_postings : Company → String → List Posting → World → Fetched × World
  unfolding record_pipeline_event
  fetch_postings company provider postings w =
      let hashes = map (λ p. hash_url lib.urls p.url) postings in
      let existing = keep (λ h. elem h hashes) (known_hashes w) in
      let start : Progress = record { enqueued = 0; skipped = 0; world = w } in
      let s = fetch_all company.id provider existing postings start in
      let action = if nat_beq s.enqueued 0 then Action.noop else Action.enqueued in
      (
        fetched (record {
          company_id = company.id;
          listed_count = length postings;
          enqueued = s.enqueued;
          skipped_existing = s.skipped;
          action = action;
        }),
        record_pipeline_event Stage.fetch_link_list action none none
            (some (lib.float_of_count s.enqueued)) none s.world,
      )

  unfoldable pub fetch_listing : Company → String → Option Listing → World → Fetched × World
  unfolding fetch_postings record_pipeline_event
  fetch_listing company provider none w = (value_error, w)
  fetch_listing company provider (some (listed postings)) w =
      fetch_postings company provider postings w
  fetch_listing company provider (some (refused reason)) w = refusal company reason w
  fetch_listing company provider (some failed) w = (other_failure, w)

  unfoldable pub fetch_board : Company → World → Fetched × World
  unfolding fetch_listing record_pipeline_event
  fetch_board company w =
      let provider = or_empty company.ats_provider in
      let token = or_empty company.board_token in
      if not (truthy provider) || not (truthy token)
      then refusal company Action.permanent_failure w
      else fetch_listing company provider (list_postings lib provider token) w

  unfoldable pub fetch_link_list : World → Fetched × World
  unfolding fetch_board
  fetch_link_list w = elim (resolve_company r w) [
    | none ↦ (value_error, w)
    | some (company, w1) ↦ fetch_board company w1
  ]
