-- ===== src/Ingest/Store.antt =====
-- app/ingest/store.py: the upsert of a posting by the hash of its URL. The constraint on `company_id`
-- is left out.
use job_match_pipeline.Prelude.{
  suc, Bool, not, String, List, [], ◌∷◌, ◌++◌, Option, none, some, any, find, if◌then◌else◌, ◌==◌,
  string_eq,
}
use job_match_pipeline.Prelude.Text.{truthy, strip}
use job_match_pipeline.Payload.{
  Uuid, Value, null, Payload, Builtins, lookup, is_truthy, parse_uuid, to_str,
}
use job_match_pipeline.Llm.{Outcome, returned, raised}
use job_match_pipeline.Db.Rows.{Time, Job, Stage, Action}
use job_match_pipeline.Db.Session.{World, record_pipeline_event, update}
use job_match_pipeline.Ingest.Html.{sanitize_jd_html}
use job_match_pipeline.Ingest.Url.{hash_url}
use job_match_pipeline.Ingest.Posting.{
  Posting, Materialized, materialized, permanent_error, other_error, IngestLibrary,
  materialize_posting, parse_dt, is_expired,
}

pub record IngestResult : Type 0 where
  pub action : Action
  pub job_id : Option Uuid
  pub url_hash : Option String

-- A column of a JSON value.
abbrev column_of : Builtins → Value → Option String
column_of py null = none
column_of py v = some (to_str py v)

abbrev first_truthy : Value → Value → Value
first_truthy v w = if is_truthy v then v else w

-- `payload.get("url_hash") or hash_url(posting.url)`
unfoldable pub url_hash_of : Builtins → IngestLibrary → Payload → Posting → String
url_hash_of py lib p posting =
    let given = lookup "url_hash" p in
    if is_truthy given then to_str py given else hash_url lib.urls posting.url

-- `values`, as the row that an INSERT writes.
unfoldable pub job_values : Builtins → IngestLibrary → Payload → Posting → Uuid → Time → Job
job_values py lib p posting id now = record {
  id = id;
  url_hash = url_hash_of py lib p posting;
  url = some posting.url;
  source = column_of py (first_truthy (lookup "source" p) (lookup "ats_provider" p));
  ats_provider = column_of py (lookup "ats_provider" p);
  company_id = parse_uuid py (lookup "company_id" p);
  ingested_at = some now;
  posted_at = posting.posted_at;
  expires_at = parse_dt lib (lookup "expires_at" p);
  title = some posting.title;
  location = posting.location;
  work_arrangement = posting.work_arrangement;
  department = posting.department;
  employment_type = posting.employment_type;
  comp_min = posting.comp_min;
  comp_max = posting.comp_max;
  raw_jd = posting.raw_jd;
  raw_jd_html = sanitize_jd_html lib.html posting.raw_jd_html;
  extracted_at = none;
  seniority = none;
  hard_requirements = [];
  nice_to_haves = [];
  skill_ids = [];
  synthesized_doc = none;
  embedding = none;
}

-- `set_` of the conflict's update.
abbrev pub set_conflict : Job → Job → Job
set_conflict v j = record j {
  url = v.url;
  title = v.title;
  location = v.location;
  work_arrangement = v.work_arrangement;
  department = v.department;
  employment_type = v.employment_type;
  comp_min = v.comp_min;
  comp_max = v.comp_max;
  raw_jd = v.raw_jd;
  raw_jd_html = v.raw_jd_html;
  posted_at = v.posted_at;
  expires_at = v.expires_at;
  ats_provider = v.ats_provider;
  source = v.source;
  company_id = v.company_id;
}

abbrev pub has_hash : String → Job → Bool
has_hash h j = j.url_hash == h

-- INSERT … ON CONFLICT (url_hash) DO UPDATE
unfoldable pub upsert : Job → List Job → List Job
upsert v jobs =
    if any (has_hash v.url_hash) jobs
    then update (has_hash v.url_hash) (set_conflict v) jobs
    else jobs ++ v ∷ []

abbrev id_of : Option Job → Option Uuid
id_of none = none
id_of (some j) = some j.id

-- RETURNING id
abbrev pub id_at : String → World → Option Uuid
id_at h w = id_of (find (has_hash h) w.jobs)

abbrev plain_event : Action → Option Uuid → World → World
plain_event action job w = record_pipeline_event Stage.ingest_job action job none none none w

abbrev rejected : Action → Option String → World → Outcome IngestResult × World
rejected action url_hash w = (
  returned (record { action = action; job_id = none; url_hash = url_hash }),
  plain_event action none w,
)

unfoldable pub store_posting : Job → World → Outcome IngestResult × World
unfolding record_pipeline_event
store_posting v w =
    let w1 = record w { jobs = upsert v w.jobs; next_id = suc w.next_id } in
    let job = id_at v.url_hash w1 in
    (
      returned (record { action = Action.ingested; job_id = job; url_hash = some v.url_hash }),
      plain_event Action.ingested job w1,
    )

abbrev has_text : Option String → Bool
has_text none = Bool.false
has_text (some s) = truthy s

abbrev pub is_empty_jd : Option String → Bool
is_empty_jd none = Bool.true
is_empty_jd (some s) = not (truthy (strip s))

unfoldable pub ingest_materialized :
    Builtins → IngestLibrary → Payload → Materialized → World → Outcome IngestResult × World
unfolding record_pipeline_event
ingest_materialized py lib p (permanent_error reason) w = rejected reason none w
ingest_materialized py lib p other_error w = (raised, w)
ingest_materialized py lib p (materialized posting) w =
    if is_empty_jd posting.raw_jd
    then rejected Action.unparseable (some (url_hash_of py lib p posting)) w
    else if is_expired py lib w.clock p
    then rejected Action.expired (some (url_hash_of py lib p posting)) w
    else store_posting (job_values py lib p posting w.next_id w.clock) w

unfoldable pub ingest_posting :
    Builtins → IngestLibrary → Payload → World → Outcome IngestResult × World
ingest_posting py lib p w = ingest_materialized py lib p (materialize_posting py lib p) w
