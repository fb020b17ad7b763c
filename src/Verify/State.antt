-- ===== src/Verify/State.antt =====
-- The types of app/verify/graph.py and service.py: what the workflow reads and what it carries.
use job_match_pipeline.Prelude.{ℕ, String, Bool, false, List, [], Option, none}
use job_match_pipeline.Payload.{Builtins}
use job_match_pipeline.Llm.{LlmUsage, Reply, no_usage}
use job_match_pipeline.Db.Rows.{
  Job, UserProfile, Match, Generation, WorkEntry, VerifyStatus, Action,
}
use job_match_pipeline.Verify.Patterns.{Patterns, Linker}
use job_match_pipeline.Verify.Deterministic.{FailureCode}

pub data Verdict : Type 0 where
  pass fail : Verdict

-- `VerifyDecision`, normalized.
pub record VerifyDecision : Type 0 where
  pub verdict : Verdict
  pub violations : List String
  pub reason : String

-- `VerifyLLM`: the two calls, from the data that their prompts are rendered from. The grounding call
-- does not see the job.
pub record VerifyLlm : Type 0 where
  pub ground : String → List WorkEntry → Reply VerifyDecision
  pub coverage : String → Match → Job → List WorkEntry → Reply VerifyDecision

pub record VerifyResult : Type 0 where
  pub action : Action
  -- `str` of the id, or of what the payload has in its place
  pub generation_id : Option String
  pub verify_status : Option VerifyStatus
  pub verify_failures : List String
  pub usage : LlmUsage
  pub regenerate_enqueued : Bool

abbrev pub bare_result : Action → Option String → VerifyResult
bare_result action id = record {
  action = action;
  generation_id = id;
  verify_status = none;
  verify_failures = [];
  usage = no_usage;
  regenerate_enqueued = false;
}

-- The entries of `VerifyState` that no node changes.
pub record Inputs : Type 0 where
  pub py : Builtins
  pub re : Patterns
  pub linker : Linker
  pub llm : VerifyLlm
  pub generation : Generation
  pub match : Match
  pub job : Job
  pub profile : UserProfile
  pub work_history : List WorkEntry
  pub resume_doc : String
  pub attempt : ℕ

-- The entries that nodes write.
pub record VerifyState : Type 0 where
  pub stage1 : List FailureCode
  pub usage : LlmUsage
  pub llm_failures : List String
  pub llm_permanent : Bool
  pub result : Option VerifyResult

-- `invoke` starts without them, and the nodes read a missing one as these.
abbrev pub initial_state : VerifyState
initial_state = record {
  stage1 = [];
  usage = no_usage;
  llm_failures = [];
  llm_permanent = false;
  result = none;
}

pub data Node : Type 0 where
  deterministic grounding coverage decide fail_safe end : Node
