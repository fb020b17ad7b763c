-- ===== src/Tests/Data.antt =====
-- A small database, and concrete functions in place of what is outside the repository.
use job_match_pipeline.Prelude.{
  zero, suc, ◌≡◌, refl, ap, String, [], ◌∷◌, Option, none, some, true, false, if◌then◌else◌, ◌==◌,
  string_eq,
}
use job_match_pipeline.Payload.{Uuid, Payload, text, Builtins}
use job_match_pipeline.Llm.{LlmUsage}
use job_match_pipeline.Db.Rows.{
  Job, User, UserProfile, WorkEntry, Match, Generation, QualificationLabel, VerifyStatus,
}
use job_match_pipeline.Db.Session.{World}
use job_match_pipeline.Generate.Schema.{ClaimSourceMap}
use job_match_pipeline.Verify.Patterns.{Patterns, Linker}

-- An id as a row of marks, one more than its number.
unfoldable pub marks : Uuid → String
marks zero = String.◌∷◌ "#" ""
marks (suc n) = String.◌∷◌ "#" (marks n)

abbrev one_more : Option Uuid → Option Uuid
one_more none = some 0
one_more (some n) = some (suc n)

unfoldable pub count_marks : String → Option Uuid
count_marks String.[] = none
count_marks (String.◌∷◌ c s) = one_more (count_marks s)

pub count_marks-marks : (u : Uuid) → count_marks (marks u) ≡ some u
unfolding count_marks marks
count_marks-marks zero = refl
count_marks-marks (suc n) = ap one_more (count_marks-marks n)

pub count_marks-empty : count_marks "" ≡ none
unfolding count_marks
count_marks-empty = refl

abbrev pub py : Builtins
py = record {
  uuid_of_text = count_marks;
  str_of_uuid = marks;
  str_of_value = λ v. "";
  int_of_text = λ s. none;
  uuid-str = count_marks-marks;
  uuid-empty = count_marks-empty;
}

-- A resume states one employer, and its only number is the year.
abbrev pub re : Patterns
re = record {
  normalize_label = λ s. s;
  strip_corp_suffix = λ s. s;
  year = λ s. if s == "2020" then some "2020" else none;
  date_parts = λ s. s ∷ [];
  number_matches = λ s. if s == "2020" then "2020" ∷ [] else [];
  employer_phrases = λ s. [];
}

abbrev pub linker : Linker
linker = record {
  link_spans = λ s. [];
  scan_text = λ s. if s == "Python" then "python" ∷ [] else [];
}

abbrev pub job : Job
job = record {
  id = 10;
  url_hash = "h";
  url = some "u";
  source = none;
  ats_provider = none;
  company_id = none;
  ingested_at = some 0;
  posted_at = none;
  expires_at = none;
  title = some "Engineer";
  location = none;
  work_arrangement = none;
  department = none;
  employment_type = none;
  comp_min = none;
  comp_max = none;
  raw_jd = some "build things";
  raw_jd_html = none;
  extracted_at = some 0;
  seniority = none;
  hard_requirements = "python" ∷ "rust" ∷ [];
  nice_to_haves = [];
  skill_ids = "python" ∷ "rust" ∷ [];
  synthesized_doc = some "an engineer";
  embedding = none;
}

abbrev pub user : User
user = record { id = 1; tier = "free"; quota_remaining = some 2; quota_reset_at = none }

abbrev pub entry : WorkEntry
entry = record {
  employer = some "Acme";
  title = some "Engineer";
  start_date = some "2020";
  end_date = none;
  location = none;
  is_current = true;
  source = "parsed";
  bullets = record { span_id = "wh:0:b:0"; text = "built things" } ∷ [];
}

abbrev pub profile : UserProfile
profile = record {
  user_id = 1;
  work_history = entry ∷ [];
  skill_ids = "python" ∷ [];
  synthesized_doc = some "a maker";
  embedding = none;
  profile_version = 1;
  rematch_needed = false;
}

abbrev match_with : Uuid → Option QualificationLabel → Match
match_with id label = record {
  id = id;
  user_id = 1;
  job_id = 10;
  cycle_at = 5;
  rerank_score = some 900;
  qualification_label = label;
  screen_reason = none;
  matched_skills = [];
  adjacent_skills = [];
  missing_skills = [];
}

-- Match 20 is not screened, match 21 is.
abbrev pub open_match : Match
open_match = match_with 20 none

abbrev pub labelled_match : Match
labelled_match = record (match_with 21 (some QualificationLabel.overqualified)) { cycle_at = 4 }

abbrev pub claim_map : ClaimSourceMap
claim_map = record {
  attempt = 1;
  claims = [];
  claimed_skill_ids = "python" ∷ [];
  employers = "Acme" ∷ [];
  titles = "Engineer" ∷ [];
  date_ranges = [];
}

abbrev pub bad_map : ClaimSourceMap
bad_map = record claim_map { employers = "Globex" ∷ [] }

abbrev generation_with : Uuid → Option VerifyStatus → Generation
generation_with id status = record {
  id = id;
  match_id = 20;
  resume_doc = some "Python";
  claim_source_map = some claim_map;
  verify_status = status;
  verify_failures = [];
}

-- Generation 30 is verified, generation 31 is not.
abbrev pub verified_generation : Generation
verified_generation = generation_with 30 (some VerifyStatus.failed)

abbrev pub new_generation : Generation
new_generation = generation_with 31 none

abbrev pub world : World
world = record {
  jobs = job ∷ [];
  users = user ∷ [];
  profiles = profile ∷ [];
  filters = [];
  companies = [];
  concepts = "python" ∷ [];
  matches = labelled_match ∷ open_match ∷ [];
  generations = verified_generation ∷ new_generation ∷ [];
  analyses = [];
  events = [];
  pending = [];
  next_id = 40;
  clock = 7;
}

abbrev pub bill : LlmUsage
bill = record { prompt_tokens = 10; completion_tokens = 5; cost_usd = 3 }

-- A message that names a row by its id.
abbrev pub names : String → Uuid → Payload
names key id = (key, text (marks id)) ∷ []
