-- ===== src/Tests/Handling.antt =====
-- Calls of the resume handlers.
use job_match_pipeline.Prelude.{◌≡◌, ◌∷◌, []}
use job_match_pipeline.Llm.{retryable}
use job_match_pipeline.Generate.Service.{GenerateLlm}
use job_match_pipeline.Db.Session.{Task, QueueName}
use job_match_pipeline.Handlers.Drain.{drain, drain-ends}
use job_match_pipeline.Handlers.Server.{Server}
use job_match_pipeline.Handlers.Resumes.{generate_resume_handler, verify_resume_handler}
use job_match_pipeline.Handlers.Sent.{IsSound, IsRetryable, generate_resume_handler-IsSound}
use job_match_pipeline.Handlers.Retries.{
  IsWithinAttempts, verify_resume_handler-IsWithinAttempts, verify_resume_handler-IsRetryable,
}
use job_match_pipeline.Tests.Data.{py, re, linker, world, names}
use job_match_pipeline.Tests.Verifying.{writer, strict, silent}

-- No generation is there before the call.
abbrev server : Server
server = record { db = record world { generations = [] }; sent = [] }

abbrev full_server : Server
full_server = record { db = world; sent = [] }

abbrev busy : GenerateLlm
busy m j p violations = retryable

generate_resume_handler-IsSound_example :
    IsSound py server (generate_resume_handler py writer (names "match_id" 20) server).1
generate_resume_handler-IsSound_example =
    generate_resume_handler-IsSound py writer (names "match_id" 20) server

verify_resume_handler-IsWithinAttempts_example :
    IsWithinAttempts py full_server
      (verify_resume_handler py re linker strict (names "generation_id" 31) full_server).1
verify_resume_handler-IsWithinAttempts_example =
    verify_resume_handler-IsWithinAttempts py re linker strict (names "generation_id" 31)
      full_server

verify_resume_handler-IsRetryable_example :
    IsRetryable
      (verify_resume_handler py re linker silent (names "generation_id" 31) full_server).0
      full_server
      (verify_resume_handler py re linker silent (names "generation_id" 31) full_server).1
verify_resume_handler-IsRetryable_example =
    verify_resume_handler-IsRetryable py re linker silent (names "generation_id" 31) full_server

-- A request for a resume that the models refuse twice.
abbrev request : Task
request = record { queue_name = QueueName.generate_resume; payload = names "match_id" 20 }

drain-ends_example : drain py re linker writer strict 5 (request ∷ []) server ≡ []
drain-ends_example = drain-ends py re linker writer strict request server
