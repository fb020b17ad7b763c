-- ===== src/Tests/Delivering.antt =====
-- Runs of deliveries to one server.
use job_match_pipeline.Prelude.{refl, List, [], ◌∷◌}
use job_match_pipeline.Db.Session.{World}
use job_match_pipeline.Handlers.Server.{Server}
use job_match_pipeline.Pipeline.Deliveries.{
  Deployment, Delivery, to_ingest_job, to_extract_job, to_match_batch, to_screen_job,
  to_generate_resume, of_user, deliver_all,
}
use job_match_pipeline.Pipeline.Lifecycle.{JobSteps, here, phase, deliver_all-refines}
use job_match_pipeline.Pipeline.Invariants.{IsSound, deliver_all-IsSound}
use job_match_pipeline.Tests.Data.{py, re, linker, names}
use job_match_pipeline.Tests.Screening.{gate, settings}
use job_match_pipeline.Tests.Matching.{budget, analyst, match_services}
use job_match_pipeline.Tests.Verifying.{writer, strict}
use job_match_pipeline.Tests.Ingesting.{lib, services, message, full_world, short_docs}

abbrev alone : World → World
alone w = w

abbrev deployment : Deployment
deployment = record {
  py = py;
  ingest = lib;
  extract = services;
  match = match_services;
  gate = gate;
  during_screen = alone;
  screen_settings = settings;
  batch_settings = budget;
  default_model = "model";
  analysis = analyst;
  during_analysis = alone;
  generate = writer;
  patterns = re;
  linker = linker;
  verify = strict;
}

abbrev server : Server
server = record { db = full_world; sent = [] }

-- Some messages arrive twice.
abbrev deliveries : List Delivery
deliveries =
    to_ingest_job message
    ∷ to_extract_job (names "job_id" 11)
    ∷ to_ingest_job message
    ∷ to_extract_job (names "job_id" 11)
    ∷ to_match_batch []
    ∷ to_screen_job (names "match_id" 20)
    ∷ of_user 21
    ∷ to_generate_resume (names "match_id" 20)
    ∷ []

deliver_all-refines_example :
    JobSteps (phase 11 server.db.jobs) (phase 11 (deliver_all deployment deliveries server).db.jobs)
deliver_all-refines_example =
    deliver_all-refines deployment 11 deliveries server (λ w. here) (λ w. here) (λ w. here)
      (λ w. here)

deliver_all-IsSound_example : IsSound (deliver_all deployment deliveries server).db.jobs
deliver_all-IsSound_example =
    deliver_all-IsSound deployment deliveries server (λ w h. h) (λ w h. h) (λ w h. h) (λ w h. h)
      (record { unique = (refl, (refl, tt)); short = short_docs })
