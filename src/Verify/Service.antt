-- ===== src/Verify/Service.antt =====
-- app/verify/service.py: verify-resume, up to the run of the graph.
use job_match_pipeline.Prelude.{
  ℕ, max, Bool, true, false, ◌&&◌, not, String, List, Option, none, some, is_none, is_some, keep,
  last, if◌then◌else◌, ◌==◌, nat_eq,
}
use job_match_pipeline.Payload.{
  Uuid, Payload, Value, null, Builtins, lookup, is_truthy, is_blank, to_str, parse_uuid,
  read_attempt,
}
use job_match_pipeline.Llm.{Outcome, returned}
use job_match_pipeline.Generate.Schema.{ClaimSourceMap}
use job_match_pipeline.Db.Rows.{Job, UserProfile, Match, Generation, Stage, Action}
use job_match_pipeline.Db.Session.{
  World, get_job, get_profile, get_match, get_generation, record_pipeline_event,
}
use job_match_pipeline.Verify.Patterns.{Patterns, Linker}
use job_match_pipeline.Verify.Deterministic.{or_empty}
use job_match_pipeline.Verify.State.{VerifyLlm, VerifyResult, Inputs, bare_result}
use job_match_pipeline.Verify.Graph.{run_verify_graph}

-- `match.generations[-1]`, in insertion order.
abbrev pub generations_of : Uuid → World → List Generation
generations_of id w = keep (λ r. r.match_id == id) w.generations

abbrev pub attempt_of_map : Option ClaimSourceMap → ℕ
attempt_of_map none = 1
attempt_of_map (some m) = max 1 m.attempt

-- `_attempt`: of the payload or, if it has none, of the stored map.
unfoldable pub verify_attempt : Builtins → Value → Generation → ℕ
verify_attempt py null g = attempt_of_map g.claim_source_map
verify_attempt py v g = read_attempt py v

abbrev user_of : Option Match → Option Uuid
user_of none = none
user_of (some m) = some m.user_id

abbrev job_of : Option Match → Option Uuid
job_of none = none
job_of (some m) = some m.job_id

unfoldable pub load_generation : Builtins → Payload → World → Option Generation
load_generation py payload w = elim (parse_uuid py (lookup "generation_id" payload)) [
  | some id ↦ get_generation id w
  | none ↦ elim (parse_uuid py (lookup "match_id" payload)) [
    | none ↦ none
    | some id ↦ elim (get_match id w) [ none ↦ none | some m ↦ last (generations_of m.id w) ]
  ]
]

unfoldable pub missing_action : Builtins → Payload → Action
missing_action py payload =
    let raw = lookup "generation_id" payload in
    if is_blank raw && not (is_truthy (lookup "match_id" payload))
    then Action.missing_generation_id
    else if not (is_blank raw) && is_none (parse_uuid py raw)
    then Action.invalid_generation_id
    else Action.not_found

abbrev raw_generation_id : Builtins → Payload → Option String
raw_generation_id py payload =
    let raw = lookup "generation_id" payload in if is_blank raw then none else some (to_str py raw)

-- `if action == "not_found"`
abbrev is_not_found : Action → Bool
is_not_found Action.not_found = true
is_not_found _ = false

unfoldable pub generation_missing : Builtins → Payload → World → Outcome VerifyResult × World
unfolding record_pipeline_event
generation_missing py payload w =
    let action = missing_action py payload in
    (
      returned (bare_result action (raw_generation_id py payload)),
      if is_not_found action
          then record_pipeline_event Stage.verify_resume Action.not_found none none none none w
          else w,
    )

module _ (py : Builtins) (re : Patterns) (linker : Linker) (llm : VerifyLlm) where
  abbrev pub inputs : Generation → Match → Job → UserProfile → ℕ → Inputs
  inputs g m job profile attempt = record {
    py = py;
    re = re;
    linker = linker;
    llm = llm;
    generation = g;
    match = m;
    job = job;
    profile = profile;
    work_history = profile.work_history;
    resume_doc = or_empty g.resume_doc;
    attempt = attempt;
  }

  -- A job or a profile that is gone; a missing job is not named in the event.
  abbrev rows_gone : Generation → Match → Option Uuid → World → Outcome VerifyResult × World
  rows_gone g m job w = (
    returned (bare_result Action.not_found (some (py.str_of_uuid g.id))),
    record_pipeline_event Stage.verify_resume Action.not_found job (some m.user_id) none none w,
  )

  unfoldable pub verify_rows : Payload → Generation → Match → World → Outcome VerifyResult × World
  unfolding record_pipeline_event
  verify_rows payload g m w = elim (get_job m.job_id w) [
    | none ↦ rows_gone g m none w
    | some job ↦ elim (get_profile m.user_id w) [
      | none ↦ rows_gone g m (some m.job_id) w
      | some profile ↦
          run_verify_graph (inputs g m job profile (verify_attempt py (lookup "attempt" payload) g))
            w
    ]
  ]

  unfoldable pub verify_unverified : Payload → Generation → World → Outcome VerifyResult × World
  unfolding record_pipeline_event
  verify_unverified payload g w = elim (get_match g.match_id w) [
    | none ↦ (
      returned (bare_result Action.not_found (some (py.str_of_uuid g.id))),
      record_pipeline_event Stage.verify_resume Action.not_found none none none none w,
    )
    | some m ↦ verify_rows payload g m w
  ]

  unfoldable pub verify_generation : Payload → Generation → World → Outcome VerifyResult × World
  unfolding record_pipeline_event
  verify_generation payload g w =
      let m = get_match g.match_id w in
      if is_some g.verify_status
      then (
        returned (record (bare_result Action.skipped_verified (some (py.str_of_uuid g.id))) {
          verify_status = g.verify_status;
          verify_failures = g.verify_failures;
        }),
        record_pipeline_event Stage.verify_resume Action.skipped_verified (job_of m) (user_of m)
            none none w,
      )
      else verify_unverified payload g w

  unfoldable pub verify_resume : Payload → World → Outcome VerifyResult × World
  verify_resume payload w = elim (load_generation py payload w) [
    | none ↦ generation_missing py payload w
    | some g ↦ verify_generation payload g w
  ]
