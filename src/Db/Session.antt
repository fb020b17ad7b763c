-- ===== src/Db/Session.antt =====
-- A SQLAlchemy session and the handler's queue, as one state that operations thread: `session.get`,
-- the UPDATE and INSERT statements that the handlers issue, and `record_pipeline_event`. The tables
-- are lists in insertion order; `gen_random_uuid()` is a counter, and `now()` the clock.
use job_match_pipeline.Prelude.{
  String, Bool, List, [], ◌∷◌, ◌++◌, Option, some, if◌then◌else◌, ◌==◌, nat_eq, find,
}
use job_match_pipeline.Payload.{Uuid, Payload}
use job_match_pipeline.Db.Rows.{
  Score, Time, Job, User, UserProfile, UserFilter, Company, Match, Generation, MatchAnalysis, Stage,
  Action, Details, PipelineEvent, VerifyStatus,
}

-- A message: the queue's name and its body.
pub data QueueName : Type 0 where
  ingest_job extract_job screen_job analyze_match generate_resume verify_resume : QueueName

pub record Task : Type 0 where
  pub queue_name : QueueName
  pub payload : Payload

pub record World : Type 0 where
  pub jobs : List Job
  pub users : List User
  pub profiles : List UserProfile
  pub filters : List UserFilter
  pub companies : List Company
  -- The ids of `concepts`, the skill graph
  pub concepts : List String
  pub matches : List Match
  pub generations : List Generation
  pub analyses : List MatchAnalysis
  pub events : List PipelineEvent
  -- BufferedTaskQueue._pending
  pub pending : List Task
  pub next_id : Uuid
  pub clock : Time

-- session.get(Job, id), and so for the other tables
unfoldable pub get_job : Uuid → World → Option Job
get_job id w = find (λ r. r.id == id) w.jobs

unfoldable pub get_user : Uuid → World → Option User
get_user id w = find (λ r. r.id == id) w.users

unfoldable pub get_profile : Uuid → World → Option UserProfile
get_profile id w = find (λ r. r.user_id == id) w.profiles

unfoldable pub get_match : Uuid → World → Option Match
get_match id w = find (λ r. r.id == id) w.matches

unfoldable pub get_generation : Uuid → World → Option Generation
get_generation id w = find (λ r. r.id == id) w.generations

-- `record_pipeline_event`: `now()` stamps the row.
unfoldable pub record_pipeline_event :
    Stage → Action → Option Uuid → Option Uuid → Option Score → Option Details → World → World
record_pipeline_event stage action job user score details w = record w {
  events =
      w.events
      ++ record {
        stage = stage;
        action = action;
        job_id = job;
        user_id = user;
        score = score;
        details = details;
        ts = w.clock;
      }
        ∷ [];
}

-- BufferedTaskQueue.enqueue
unfoldable pub enqueue : QueueName → Payload → World → World
enqueue name payload w = record w {
  pending = w.pending ++ record { queue_name = name; payload = payload } ∷ [];
}

-- What other sessions commit during a call, where none commits anything.
abbrev pub alone : World → World
alone w = w

-- UPDATE of the rows that pass a test.
abbrev pub update {ℓ} : {A : Type ℓ} → (A → Bool) → (A → A) → List A → List A
update p f [] = []
update p f (x ∷ xs) = (if p x then f x else x) ∷ update p f xs

-- `generation.verify_status = status; generation.verify_failures = failures or None`
unfoldable pub write_status : Uuid → VerifyStatus → List String → World → World
write_status id status failures w = record w {
  generations =
      update (λ r. r.id == id)
        (λ r. record r { verify_status = some status; verify_failures = failures }) w.generations;
}
