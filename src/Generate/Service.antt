-- ===== src/Generate/Service.antt =====
-- app/generate/service.py: generate-resume. The model is given the rows that its prompt is rendered
-- from, and the violations of the previous attempt.
use job_match_pipeline.Prelude.{
  ℕ, suc, Bool, true, false, ◌||◌, String, List, [], ◌∷◌, ◌++◌, Option, none, some, is_none, keep,
  length, leb, ltb, if◌then◌else◌, ◌==◌, nat_eq, map,
}
use job_match_pipeline.Prelude.Text.{truthy, strip}
use job_match_pipeline.Payload.{
  Uuid, Payload, Value, text, texts, number, pos, Builtins, lookup, is_truthy, parse_uuid,
  read_attempt,
}
use job_match_pipeline.Llm.{
  LlmUsage, Reply, answered, permanent, retryable, Outcome, returned, raised_retryable,
  usage_details, no_usage,
}
use job_match_pipeline.Generate.Schema.{GeneratedResume, to_claim_map}
use job_match_pipeline.Db.Rows.{Job, UserProfile, Match, Generation, Stage, Action}
use job_match_pipeline.Db.Session.{
  World, QueueName, get_job, get_user, get_profile, get_match, record_pipeline_event, enqueue,
}

abbrev pub max_attempt : ℕ
max_attempt = 2

-- `GenerateLLM.generate`
abbrev pub GenerateLlm : Type 0
GenerateLlm = Match → Job → UserProfile → List String → Reply GeneratedResume

pub record GenerateResult : Type 0 where
  pub action : Action
  pub match_id : Option Uuid
  pub generation_id : Option Uuid
  pub usage : LlmUsage
  pub verify_enqueued : Bool

abbrev pub bare_result : Action → Option Uuid → GenerateResult
bare_result action id = record {
  action = action;
  match_id = id;
  generation_id = none;
  usage = no_usage;
  verify_enqueued = false;
}

-- `select(func.count())` of a match's generations.
abbrev pub of_match : Uuid → Generation → Bool
of_match id r = r.match_id == id

abbrev pub existing_count : Uuid → World → ℕ
existing_count id w = length (keep (of_match id) w.generations)

-- `attempt_of`
abbrev pub attempt_of : Generation → ℕ
attempt_of r = elim r.claim_source_map [
  | none ↦ 1
  | some m ↦ if m.attempt == 0 then 1 else m.attempt
]

-- `max(rows, key=attempt_of)`: the first of the largest.
abbrev max_attempt_row : Generation → List Generation → Generation
max_attempt_row best [] = best
max_attempt_row best (r ∷ rs) =
    max_attempt_row (if ltb (attempt_of best) (attempt_of r) then r else best) rs

abbrev pub latest : List Generation → Option Generation
latest [] = none
latest (r ∷ rs) = some (max_attempt_row r rs)

abbrev pub latest_generation : Uuid → World → Option Generation
latest_generation id w = latest (keep (of_match id) w.generations)

abbrev id_of : Option Generation → Option Uuid
id_of none = none
id_of (some r) = some r.id

-- `_violations`
abbrev pub read_violations : Value → List String
read_violations (texts l) = keep truthy (map strip l)
read_violations _ = []

-- An event of this handler about a match, with no score.
abbrev pub match_event : Action → Match → World → World
match_event action m w =
    record_pipeline_event Stage.generate_resume action (some m.job_id) (some m.user_id) none none w

abbrev uuid_value : Builtins → ℕ → Value
uuid_value py id = text (py.str_of_uuid id)

-- The body of the message to verify-resume.
unfoldable pub verify_payload : Builtins → Match → Uuid → ℕ → Payload
verify_payload py m generation attempt =
    ("user_id", uuid_value py m.user_id)
    ∷ ("job_id", uuid_value py m.job_id)
    ∷ ("match_id", uuid_value py m.id)
    ∷ ("generation_id", uuid_value py generation)
    ∷ ("attempt", number (pos attempt))
    ∷ []

-- The INSERT of the generation, the message to verify-resume and the event.
unfoldable pub save_generation :
    Builtins → Match → ℕ → GeneratedResume → LlmUsage → World → Outcome GenerateResult × World
unfolding record_pipeline_event enqueue
save_generation py m attempt resume usage w =
    let id = w.next_id in
    let w1 = record w {
      generations =
          w.generations
          ++ record {
            id = id;
            match_id = m.id;
            resume_doc = some resume.resume_doc;
            claim_source_map = some (to_claim_map resume attempt);
            verify_status = none;
            verify_failures = [];
          }
            ∷ [];
      next_id = suc w.next_id;
    } in
    (
      returned (record {
        action = Action.generated;
        match_id = some m.id;
        generation_id = some id;
        usage = usage;
        verify_enqueued = true;
      }),
      record_pipeline_event Stage.generate_resume Action.generated (some m.job_id) (some m.user_id)
          m.rerank_score
          (some (
            usage_details usage
              (("attempt", number (pos attempt)) ∷ ("generation_id", uuid_value py id) ∷ [])))
          (enqueue QueueName.verify_resume (verify_payload py m id attempt) w1),
    )

unfoldable pub after_llm :
    Builtins → Match → ℕ → Reply GeneratedResume → World → Outcome GenerateResult × World
unfolding record_pipeline_event
after_llm py m attempt (answered resume usage) w = save_generation py m attempt resume usage w
after_llm py m attempt permanent w = (
  returned (bare_result Action.llm_permanent_failure (some m.id)),
  match_event Action.llm_permanent_failure m w,
)
after_llm py m attempt retryable w = (raised_retryable, match_event Action.retryable_error m w)

module _ (py : Builtins) (llm : GenerateLlm) (others : World → World) where
  -- A job, user or profile that is gone; a missing job is not named in the event.
  abbrev rows_gone : Match → Option Uuid → World → Outcome GenerateResult × World
  rows_gone m job w = (
    returned (bare_result Action.not_found (some m.id)),
    record_pipeline_event Stage.generate_resume Action.not_found job (some m.user_id) none none w,
  )

  unfoldable pub generate_new : Payload → Match → ℕ → World → Outcome GenerateResult × World
  unfolding record_pipeline_event
  generate_new payload m attempt w = elim (get_job m.job_id w) [
    | none ↦ rows_gone m none w
    | some job ↦ elim (get_profile m.user_id w) [
      | none ↦ rows_gone m (some m.job_id) w
      | some profile ↦
          if is_none (get_user m.user_id w)
          then rows_gone m (some m.job_id) w
          else after_llm py m attempt
              (llm m job profile (read_violations (lookup "violations" payload))) (others w)
    ]
  ]

  unfoldable pub generate_match : Payload → Match → World → Outcome GenerateResult × World
  unfolding record_pipeline_event
  generate_match payload m w =
      let attempt = read_attempt py (lookup "attempt" payload) in
      if leb attempt (existing_count m.id w) || ltb max_attempt attempt
      then (
        returned (record (bare_result Action.skipped_existing (some m.id)) {
          generation_id = id_of (latest_generation m.id w);
        }),
        match_event Action.skipped_existing m w,
      )
      else generate_new payload m attempt w

  unfoldable pub generate_resume : Payload → World → Outcome GenerateResult × World
  unfolding record_pipeline_event
  generate_resume payload w =
      let raw = lookup "match_id" payload in
      elim (parse_uuid py raw) [
        | none ↦ (
          returned (
              bare_result
                (if is_truthy raw then Action.invalid_match_id else Action.missing_match_id) none),
          w,
        )
        | some id ↦ elim (get_match id w) [
          | none ↦ (
            returned (bare_result Action.not_found (some id)),
            record_pipeline_event Stage.generate_resume Action.not_found none none none none w,
          )
          | some m ↦ generate_match payload m w
        ]
      ]
