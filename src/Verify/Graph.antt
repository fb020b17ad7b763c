-- ===== src/Verify/Graph.antt =====
-- app/verify/graph.py: the nodes, the edges, and the run of the compiled graph, for the case that no
-- other session commits during the models' calls: the status is written without a test that it is
-- still NULL.
use Prim.Native.String.{◌++◌ as append_text}
use job_match_pipeline.Prelude.{
  ℕ, zero, suc, ◌+◌, Bool, true, false, String, List, [], ◌∷◌, ◌++◌, Option, none, some, map,
  is_empty, ltb, if◌then◌else◌, length,
}
use job_match_pipeline.Prelude.Text.{truthy}
use job_match_pipeline.Payload.{Payload, Value, text, texts, number, pos, Builtins}
use job_match_pipeline.Llm.{
  LlmUsage, Reply, answered, permanent, retryable, Outcome, returned, raised_retryable, raised,
  usage_details,
}
use job_match_pipeline.Db.Rows.{Match, Stage, Action, VerifyStatus}
use job_match_pipeline.Db.Session.{World, QueueName, record_pipeline_event, enqueue, write_status}
use job_match_pipeline.Verify.Deterministic.{FailureCode, named, run_deterministic_checks}
use job_match_pipeline.Verify.State.{
  Verdict, pass, fail, VerifyDecision, VerifyResult, bare_result, Inputs, VerifyState,
  initial_state, Node, deterministic, grounding, coverage, decide, fail_safe, end,
}
use job_match_pipeline.Generate.Schema.{ClaimSourceMap}

abbrev pub max_attempt : ℕ
max_attempt = 2

-- `_as_map`: an absent map is an empty one.
abbrev pub as_map : Option ClaimSourceMap → ClaimSourceMap
as_map none = record {
  attempt = 1;
  claims = [];
  claimed_skill_ids = [];
  employers = [];
  titles = [];
  date_ranges = [];
}
as_map (some m) = m

-- `_prefix`
abbrev label_line : String → String → String
label_line stage item = append_text stage (append_text ": " item)

unfoldable pub prefix : String → List String → String → List String
prefix stage [] reason =
    if truthy reason then label_line stage reason ∷ [] else label_line stage "failed" ∷ []
prefix stage (v ∷ vs) reason = map (label_line stage) (v ∷ vs)

abbrev pub add_usage : LlmUsage → LlmUsage → LlmUsage
add_usage a b = record {
  prompt_tokens = a.prompt_tokens + b.prompt_tokens;
  completion_tokens = a.completion_tokens + b.completion_tokens;
  cost_usd = a.cost_usd + b.cost_usd;
}

-- `_record_stage_event`, and the other events of this handler about the match.
abbrev pub stage_event : Action → Match → World → World
stage_event action m w =
    record_pipeline_event Stage.verify_resume action (some m.job_id) (some m.user_id) m.rerank_score
      none w

abbrev verdict_action : Verdict → Action → Action → Action
verdict_action fail on_fail on_pass = on_fail
verdict_action pass on_fail on_pass = on_pass

abbrev verdict_failures : String → VerifyDecision → List String
verdict_failures stage d = elim d.verdict [ pass ↦ [] | fail ↦ prefix stage d.violations d.reason ]

-- What grounding_node and coverage_node do with the reply of their call.
unfoldable pub take_reply :
    Inputs
    → String
    → Action
    → Action
    → VerifyState
    → Reply VerifyDecision
    → World
    → Outcome VerifyState × World
unfolding record_pipeline_event
take_reply i stage on_fail on_pass s (answered d usage) w = (
  returned (record s {
    usage = add_usage s.usage usage;
    llm_failures = s.llm_failures ++ verdict_failures stage d;
    llm_permanent = false;
  }),
  stage_event (verdict_action d.verdict on_fail on_pass) i.match w,
)
take_reply i stage on_fail on_pass s permanent w = (returned (record s { llm_permanent = true }), w)
take_reply i stage on_fail on_pass s retryable w = (
  raised_retryable,
  record_pipeline_event Stage.verify_resume Action.retryable_error (some i.match.job_id)
      (some i.match.user_id) none none w,
)

abbrev pub stage1_failures : Inputs → List FailureCode
stage1_failures i =
    run_deterministic_checks i.re i.resume_doc i.work_history (as_map i.generation.claim_source_map)
      i.profile.skill_ids i.linker

unfoldable pub deterministic_node : Inputs → VerifyState → World → Outcome VerifyState × World
unfolding record_pipeline_event
deterministic_node i s w =
    let stage1 = stage1_failures i in
    (
      returned (record initial_state { stage1 = stage1; result = s.result }),
      stage_event (if is_empty stage1 then Action.stage1_pass else Action.stage1_fail) i.match w,
    )

unfoldable pub grounding_node : Inputs → VerifyState → World → Outcome VerifyState × World
unfolding take_reply
grounding_node i s w =
    take_reply i "grounding" Action.stage2_fail Action.stage2_pass s
      (i.llm.ground i.resume_doc i.work_history) w

unfoldable pub coverage_node : Inputs → VerifyState → World → Outcome VerifyState × World
unfolding take_reply
coverage_node i s w =
    take_reply i "coverage" Action.stage3_fail Action.stage3_pass s
      (i.llm.coverage i.resume_doc i.match i.job i.work_history) w

abbrev uuid_value : Builtins → ℕ → Value
uuid_value py id = text (py.str_of_uuid id)

abbrev pub details_of : Inputs → LlmUsage → Payload → Payload
details_of i usage extra =
    usage_details usage (("generation_id", uuid_value i.py i.generation.id) ∷ extra)

unfoldable pub fail_safe_node : Inputs → VerifyState → World → Outcome VerifyState × World
unfolding record_pipeline_event write_status
fail_safe_node i s w =
    let failures = map named s.stage1 ++ "verify: llm permanent failure" ∷ [] in
    (
      returned (record s {
        result =
            some
              (record (bare_result Action.llm_permanent_failure
                (some (i.py.str_of_uuid i.generation.id))) {
                  verify_status = some VerifyStatus.needs_review;
                  verify_failures = failures;
                  usage = s.usage;
                });
      }),
      record_pipeline_event Stage.verify_resume Action.llm_permanent_failure (some i.match.job_id)
          (some i.match.user_id) none (some (details_of i s.usage []))
          (write_status i.generation.id VerifyStatus.needs_review failures w),
    )

-- The body of the message to generate-resume.
unfoldable pub regenerate_payload : Inputs → List String → Payload
regenerate_payload i failures =
    ("user_id", uuid_value i.py i.match.user_id)
    ∷ ("job_id", uuid_value i.py i.match.job_id)
    ∷ ("match_id", uuid_value i.py i.match.id)
    ∷ ("attempt", number (pos (i.attempt + 1)))
    ∷ ("violations", texts failures)
    ∷ ("prior_generation_id", uuid_value i.py i.generation.id)
    ∷ []

-- One of the three ends of decide_node: its action, its status, and whether it regenerates.
unfoldable pub conclude :
    Action
    → VerifyStatus
    → Bool
    → Inputs
    → List String
    → VerifyState
    → World
    → Outcome VerifyState × World
unfolding record_pipeline_event write_status enqueue
conclude action status again i failures s w =
    let w1 = write_status i.generation.id status failures w in
    let w2 =
      if again then enqueue QueueName.generate_resume (regenerate_payload i failures) w1 else w1 in
    (
      returned (record s {
        result = some (record (bare_result action (some (i.py.str_of_uuid i.generation.id))) {
          verify_status = some status;
          verify_failures = failures;
          usage = s.usage;
          regenerate_enqueued = again;
        });
      }),
      record_pipeline_event Stage.verify_resume action (some i.match.job_id) (some i.match.user_id)
          i.match.rerank_score
          (some (details_of i s.usage (("failure_count", number (pos (length failures))) ∷ []))) w2,
    )

abbrev pub all_failures : VerifyState → List String
all_failures s = map named s.stage1 ++ s.llm_failures

unfoldable pub decide_node : Inputs → VerifyState → World → Outcome VerifyState × World
unfolding conclude
decide_node i s w =
    let failures = all_failures s in
    if is_empty failures
    then conclude Action.passed VerifyStatus.passed false i [] s w
    else if ltb i.attempt max_attempt
    then conclude Action.regenerate_enqueued VerifyStatus.failed true i failures s w
    else conclude Action.needs_review VerifyStatus.needs_review false i failures s w

-- `builder.add_edge` and `add_conditional_edges`, with `_after_grounding` and `_after_coverage`.
abbrev pub next_node : Node → VerifyState → Node
next_node deterministic s = grounding
next_node grounding s = if s.llm_permanent then fail_safe else coverage
next_node coverage s = if s.llm_permanent then fail_safe else decide
next_node decide s = end
next_node fail_safe s = end
next_node end s = end

unfoldable pub run_node : Node → Inputs → VerifyState → World → Outcome VerifyState × World
unfolding deterministic_node grounding_node coverage_node decide_node fail_safe_node
run_node deterministic i s w = deterministic_node i s w
run_node grounding i s w = grounding_node i s w
run_node coverage i s w = coverage_node i s w
run_node decide i s w = decide_node i s w
run_node fail_safe i s w = fail_safe_node i s w
run_node end i s w = (returned s, w)

-- `_GRAPH.invoke`, for a number of steps; `none` means that they ran out.
unfoldable pub invoke :
    ℕ → Node → Inputs → VerifyState → World → Option (Outcome VerifyState × World)
invoke fuel end i s w = some (returned s, w)
invoke zero n i s w = none
invoke (suc fuel) n i s w =
    let (o, w1) = run_node n i s w in
    elim o [
      | returned s1 ↦ invoke fuel (next_node n s1) i s1 w1
      | raised_retryable ↦ some (raised_retryable, w1)
      | raised ↦ some (raised, w1)
    ]

-- `run_verify_graph`; no path has more than four nodes.
abbrev pub final : Option (Outcome VerifyState × World) → World → Outcome VerifyResult × World
final none w = (raised, w)
final (some (returned s, w1)) w =
    (elim s.result [ none ↦ raised_retryable | some r ↦ returned r ], w1)
final (some (raised_retryable, w1)) w = (raised_retryable, w1)
final (some (raised, w1)) w = (raised, w1)

unfoldable pub run_verify_graph : Inputs → World → Outcome VerifyResult × World
unfolding invoke run_node
run_verify_graph i w = final (invoke 4 deterministic i initial_state w) w
