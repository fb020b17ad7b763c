-- ===== src/Llm.antt =====
-- app/llm: what a model call bills, how it may end, and which HTTP statuses are worth a retry.
use job_match_pipeline.Prelude.{ℕ, ◌∷◌, ◌||◌, ltb, leb, nat_beq, if◌then◌else◌}
use job_match_pipeline.Payload.{Payload, number, pos}

-- `LLMUsage`. Costs are whole numbers of 10^-8 USD, the precision that `usage_details` keeps.
pub record LlmUsage : Type 0 where
  pub prompt_tokens : ℕ
  pub completion_tokens : ℕ
  pub cost_usd : ℕ

-- A call of a model: an answer and its bill, PermanentLLMError or RetryableLLMError.
pub data Reply {ℓ} (A : Type ℓ) : Type ℓ where
  answered : A → LlmUsage → Reply A
  permanent : Reply A
  retryable : Reply A

-- A handler's end: a result, RetryableLLMError, or any other exception.
pub data Outcome {ℓ} (A : Type ℓ) : Type ℓ where
  returned : A → Outcome A
  raised_retryable : Outcome A
  raised : Outcome A

-- `usage_details` of app/ingest/events.py; the measured latency is left out.
unfoldable pub usage_details : LlmUsage → Payload → Payload
usage_details u extra =
    ("prompt_tokens", number (pos u.prompt_tokens))
    ∷ ("completion_tokens", number (pos u.completion_tokens))
    ∷ ("cost_usd", number (pos u.cost_usd))
    ∷ extra

abbrev pub no_usage : LlmUsage
no_usage = record { prompt_tokens = 0; completion_tokens = 0; cost_usd = 0 }

-- How `classify_llm_status` ends: it returns, or raises one of the two errors.
pub data StatusClass : Type 0 where
  accepted retryable_status permanent_status : StatusClass

unfoldable pub classify_llm_status : ℕ → StatusClass
classify_llm_status status_code =
    if ltb status_code 400
    then accepted
    else if nat_beq status_code 408 || nat_beq status_code 429 || leb 500 status_code
    then retryable_status
    else if nat_beq status_code 401 || nat_beq status_code 403 || nat_beq status_code 404
    then retryable_status
    else permanent_status
