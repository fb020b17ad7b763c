-- ===== src/Api/Trigger.antt =====
-- app/api/service.py: trigger_generate, a user's request of a resume.
use job_match_pipeline.Prelude.{List, [], ◌∷◌, Option, none, some, ltb, if◌then◌else◌, ◌==◌, nat_eq}
use job_match_pipeline.Payload.{Uuid, Payload, Builtins, text}
use job_match_pipeline.Llm.{Outcome, returned, raised}
use job_match_pipeline.Db.Rows.{Match, Generation, Action}
use job_match_pipeline.Db.Session.{World, QueueName, get_match, enqueue}
use job_match_pipeline.Quota.{try_consume_quota}

pub record TriggerResult : Type 0 where
  pub action : Action
  pub match_id : Uuid
  pub generation_id : Option Uuid

-- The later of two ids.
abbrev max_id : Uuid → Option Uuid → Option Uuid
max_id a none = some a
max_id a (some b) = some (if ltb b a then a else b)

-- `ORDER BY Generation.id DESC LIMIT 1` among the resumes of a match.
unfoldable pub latest_generation : Uuid → List Generation → Option Uuid
latest_generation match [] = none
latest_generation match (g ∷ gs) =
    let rest = latest_generation match gs in if g.match_id == match then max_id g.id rest else rest

unfoldable pub generate_payload : Builtins → Match → Payload
generate_payload py m =
    ("user_id", text (py.str_of_uuid m.user_id))
    ∷ ("job_id", text (py.str_of_uuid m.job_id))
    ∷ ("match_id", text (py.str_of_uuid m.id))
    ∷ []

abbrev trigger_result : Action → Match → Option Uuid → Outcome TriggerResult
trigger_result action m generation =
    returned (record { action = action; match_id = m.id; generation_id = generation })

unfoldable pub trigger_new : Builtins → Match → World → Outcome TriggerResult × World
unfolding try_consume_quota enqueue
trigger_new py m w =
    let (granted, w1) = try_consume_quota m.user_id w in
    if granted
    then (
      trigger_result Action.enqueued m none,
      enqueue QueueName.generate_resume (generate_payload py m) w1,
    )
    else (trigger_result Action.quota_exhausted m none, w1)

unfoldable pub trigger_match : Builtins → Match → World → Outcome TriggerResult × World
unfolding trigger_new
trigger_match py m w = elim (latest_generation m.id w.generations) [
  | some id ↦ (trigger_result Action.skipped_existing m (some id), w)
  | none ↦ trigger_new py m w
]

-- PrivacySafeError is raised without a match.
unfoldable pub trigger_generate : Builtins → Uuid → World → Outcome TriggerResult × World
unfolding trigger_match
trigger_generate py match_id w = elim (get_match match_id w) [
  | none ↦ (raised, w)
  | some m ↦ trigger_match py m w
]

-- Requests one after another, in one session.
unfoldable pub trigger_all : Builtins → List Uuid → World → World
trigger_all py [] w = w
trigger_all py (id ∷ ids) w = trigger_all py ids (trigger_generate py id w).1
