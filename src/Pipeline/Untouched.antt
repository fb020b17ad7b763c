-- ===== src/Pipeline/Untouched.antt =====
-- The services beside ingestion and extraction: the table of jobs.
use mathlib.Core.Path.{subst}
use job_match_pipeline.Prelude.{
  ℕ, zero, suc, ◌+◌, ◌≡◌, ◌∙◌, refl, String, List, [], ◌∷◌, Option, none, some, arith, Option-cases,
  inl, inr,
}
use job_match_pipeline.Payload.{Uuid, Payload, Builtins}
use job_match_pipeline.Llm.{
  Reply, answered, permanent, retryable, Outcome, returned, raised_retryable, raised,
}
use job_match_pipeline.Db.Rows.{Time, Job, Company, UserProfile, Match, Generation, Action}
use job_match_pipeline.Db.Session.{alone, World, record_pipeline_event}
use job_match_pipeline.Screen.Service.{
  GateDecision, GateLlm, ScreenSettings, screen_rows, screen_unscreened, screen_match, screen_job,
  save_decision,
}
use job_match_pipeline.Screen.Service
use job_match_pipeline.Analyze.Batch.{BatchSettings, enqueue_all, analyze_batch}
use job_match_pipeline.Analyze.Service.{
  AnalysisLlm, save_analysis, analyze_rows, analyze_new, analyze_found, analyze_match,
}
use job_match_pipeline.Analyze.Service as Analysis
use job_match_pipeline.Generate.Schema.{GeneratedResume}
use job_match_pipeline.Generate.Service.{
  GenerateLlm, save_generation, generate_new, generate_match, generate_resume,
}
use job_match_pipeline.Generate.Service as Generation
use job_match_pipeline.Verify.Patterns.{Patterns, Linker}
use job_match_pipeline.Verify.State.{
  VerifyLlm, VerifyState, VerifyDecision, Inputs, Node, initial_state,
}
use job_match_pipeline.Verify.Graph.{
  take_reply, deterministic_node, grounding_node, coverage_node, fail_safe_node, conclude,
  decide_node, next_node, run_node, invoke, final, run_verify_graph,
}
use job_match_pipeline.Verify.Service.{
  generation_missing, verify_rows, verify_unverified, verify_generation, verify_resume,
}
use job_match_pipeline.Ingest.Posting.{Listing, listed, refused, failed, IngestLibrary}
use job_match_pipeline.Ingest.Links.{
  FetchRequest, company_of_board, resolve_company, fetch_listing, fetch_board, fetch_link_list,
}
use job_match_pipeline.Ingest.New.{fetch_postings-IsFetched}
use job_match_pipeline.Quota.{try_consume_quota}
use job_match_pipeline.Api.Trigger.{trigger_new, trigger_match, trigger_generate}

module _ (P : List Job → Type 0) where
  screen_after_llm-keeps :
      (s : ScreenSettings) (m : Match) (missing : ℕ) (reply : Reply GateDecision) (w : World)
      → P w.jobs
      → P (Service.after_llm s m missing reply w).1.jobs
  unfolding Service.after_llm save_decision
  screen_after_llm-keeps s m missing (answered d u) w h = ground arith
  screen_after_llm-keeps s m missing permanent w h = h
  screen_after_llm-keeps s m missing retryable w h = h

  module _ (llm : GateLlm) (others : World → World) (s : ScreenSettings) (w : World)
      (here : P w.jobs) (there : P (others w).jobs) where
    screen_rows-keeps :
        (m : Match) (job : Job) (p : Option UserProfile)
        → P (screen_rows llm others s m job p w).1.jobs
    unfolding screen_rows
    screen_rows-keeps m job p = grind (arith, screen_after_llm-keeps)

    screen_match-keeps : (m : Match) → P (screen_match llm others s m w).1.jobs
    unfolding screen_match screen_unscreened
    screen_match-keeps m = grind (arith, screen_rows-keeps)

    pub screen_job-keeps :
        (py : Builtins) (payload : Payload) → P (screen_job llm others s py payload w).1.jobs
    unfolding screen_job
    screen_job-keeps py payload = grind (arith, screen_match-keeps)

  analyze_after_llm-keeps :
      (py : Builtins) (model : String) (m : Match) (reply : Reply String) (w : World)
      → P w.jobs
      → P (Analysis.after_llm py model m reply w).1.jobs
  unfolding Analysis.after_llm save_analysis
  analyze_after_llm-keeps py model m (answered d u) w h = ground arith
  analyze_after_llm-keeps py model m permanent w h = h
  analyze_after_llm-keeps py model m retryable w h = h

  module _ (py : Builtins) (model : String) (llm : AnalysisLlm) (others : World → World) (w : World)
      (here : P w.jobs) (there : P (others w).jobs) where
    analyze_rows-keeps :
        (m : Match) (job : Job) (p : UserProfile)
        → P (analyze_rows py model llm others m job p w).1.jobs
    unfolding analyze_rows
    analyze_rows-keeps m job p = grind (arith, analyze_after_llm-keeps)

    analyze_found-keeps : (m : Match) → P (analyze_found py model llm others m w).1.jobs
    unfolding analyze_found analyze_new
    analyze_found-keeps m = grind (arith, analyze_rows-keeps)

    pub analyze_match-keeps :
        (payload : Payload) → P (analyze_match py model llm others payload w).1.jobs
    unfolding analyze_match
    analyze_match-keeps payload = grind (arith, analyze_found-keeps)

enqueue_all-jobs :
    (py : Builtins) (ms : List Match) (n : ℕ) (w : World) → (enqueue_all py ms n w).1.jobs ≡ w.jobs
unfolding enqueue_all
enqueue_all-jobs py [] n w = refl
enqueue_all-jobs py (m ∷ ms) n w = enqueue_all-jobs py ms (n + 1) _

pub analyze_batch-jobs :
    (py : Builtins) (s : BatchSettings) (day_start : Time) (payload : Payload) (w : World)
    → (analyze_batch py s day_start payload w).1.jobs ≡ w.jobs
unfolding analyze_batch record_pipeline_event
analyze_batch-jobs py s day_start payload w = enqueue_all-jobs py _ _ _

generate_after_llm-jobs :
    (py : Builtins) (m : Match) (n : ℕ) (reply : Reply GeneratedResume) (w : World)
    → (Generation.after_llm py m n reply w).1.jobs ≡ w.jobs
unfolding Generation.after_llm save_generation
generate_after_llm-jobs py m n (answered r u) w = refl
generate_after_llm-jobs py m n permanent w = refl
generate_after_llm-jobs py m n retryable w = refl

generate_match-jobs :
    (py : Builtins) (llm : GenerateLlm) (payload : Payload) (m : Match) (w : World)
    → (generate_match py llm alone payload m w).1.jobs ≡ w.jobs
unfolding generate_match generate_new
generate_match-jobs py llm payload m w = grind (arith, generate_after_llm-jobs)

pub generate_resume-jobs :
    (py : Builtins) (llm : GenerateLlm) (payload : Payload) (w : World)
    → (generate_resume py llm alone payload w).1.jobs ≡ w.jobs
unfolding generate_resume
generate_resume-jobs py llm payload w = grind (arith, generate_match-jobs)

-- Where there is a world, it has the jobs of the other.
abbrev HasJobsOf : {A : Type 0} → Option (A × World) → World → Type 0
HasJobsOf none w = Unit
HasJobsOf (some (a, v)) w = v.jobs ≡ w.jobs

module _ (i : Inputs) where
  take_reply-jobs :
      (stage : String) (on_fail on_pass : Action) (s : VerifyState) (reply : Reply VerifyDecision)
      (w : World)
      → (take_reply i stage on_fail on_pass s reply w).1.jobs ≡ w.jobs
  unfolding take_reply
  take_reply-jobs stage on_fail on_pass s (answered d u) w = refl
  take_reply-jobs stage on_fail on_pass s permanent w = refl
  take_reply-jobs stage on_fail on_pass s retryable w = refl

  run_node-jobs : (n : Node) (s : VerifyState) (w : World) → (run_node n i s w).1.jobs ≡ w.jobs
  unfolding run_node deterministic_node grounding_node coverage_node decide_node conclude
      fail_safe_node
  run_node-jobs n s w = grind (arith, take_reply-jobs)

  HasJobsOf-trans :
      (o : Option (Outcome VerifyState × World)) (v w : World)
      → HasJobsOf o v
      → v.jobs ≡ w.jobs
      → HasJobsOf o w
  HasJobsOf-trans none v w h g = tt
  HasJobsOf-trans (some (o, u)) v w h g = h ∙ g

  step_jobs :
      (fuel : ℕ) (n : Node) (o : Outcome VerifyState) (w1 w : World)
      → ((s : VerifyState) (v : World) → HasJobsOf (invoke fuel (next_node n s) i s v) v)
      → w1.jobs ≡ w.jobs
      → HasJobsOf
          (elim o [
            | returned s1 ↦ invoke fuel (next_node n s1) i s1 w1
            | raised_retryable ↦ some (raised_retryable, w1)
            | raised ↦ some (raised, w1)
          ])
          w
  step_jobs fuel n (returned s1) w1 w rest h =
      HasJobsOf-trans (invoke fuel (next_node n s1) i s1 w1) w1 w (rest s1 w1) h
  step_jobs fuel n raised_retryable w1 w rest h = h
  step_jobs fuel n raised w1 w rest h = h

  invoke-jobs :
      (fuel : ℕ) (n : Node) (s : VerifyState) (w : World) → HasJobsOf (invoke fuel n i s w) w
  unfolding invoke
  invoke-jobs fuel Node.end s w = refl
  invoke-jobs zero n s w = tt
  invoke-jobs (suc fuel) n s w =
      step_jobs fuel n (run_node n i s w).0 (run_node n i s w).1 w
        (λ s1 v. invoke-jobs fuel (next_node n s1) s1 v) (run_node-jobs n s w)

  final-jobs :
      (o : Option (Outcome VerifyState × World)) (w : World)
      → HasJobsOf o w
      → (final o w).1.jobs ≡ w.jobs
  final-jobs none w h = refl
  final-jobs (some (returned s, v)) w h = h
  final-jobs (some (raised_retryable, v)) w h = h
  final-jobs (some (raised, v)) w h = h

  run_verify_graph-jobs : (w : World) → (run_verify_graph i w).1.jobs ≡ w.jobs
  unfolding run_verify_graph
  run_verify_graph-jobs w =
      final-jobs (invoke 4 Node.deterministic i initial_state w) w
        (invoke-jobs 4 Node.deterministic initial_state w)

module _ (py : Builtins) (re : Patterns) (linker : Linker) (llm : VerifyLlm) where
  verify_generation-jobs :
      (payload : Payload) (g : Generation) (w : World)
      → (verify_generation py re linker llm payload g w).1.jobs ≡ w.jobs
  unfolding verify_generation verify_unverified verify_rows
  verify_generation-jobs payload g w = grind (arith, run_verify_graph-jobs)

  pub verify_resume-jobs :
      (payload : Payload) (w : World) → (verify_resume py re linker llm payload w).1.jobs ≡ w.jobs
  unfolding verify_resume generation_missing
  verify_resume-jobs payload w = grind (arith, verify_generation-jobs)

pub trigger_generate-jobs :
    (py : Builtins) (id : Uuid) (w : World) → (trigger_generate py id w).1.jobs ≡ w.jobs
unfolding trigger_generate trigger_match trigger_new try_consume_quota
trigger_generate-jobs py id w = grind arith

module _ (py : Builtins) (lib : IngestLibrary) (r : FetchRequest) where
  fetch_listing-jobs :
      (c : Company) (provider : String) (o : Option Listing) (w : World)
      → (fetch_listing py lib r c provider o w).1.jobs ≡ w.jobs
  unfolding fetch_listing
  fetch_listing-jobs c provider none w = refl
  fetch_listing-jobs c provider (some (listed postings)) w =
      (fetch_postings-IsFetched py lib r c provider postings w).same_jobs
  fetch_listing-jobs c provider (some (refused reason)) w = refl
  fetch_listing-jobs c provider (some failed) w = refl

  company_of_board-jobs :
      (provider token : String) (name : Option String) (w : World)
      → (company_of_board provider token name w).1.jobs ≡ w.jobs
  unfolding company_of_board
  company_of_board-jobs provider token name w = grind arith

  resolve_company-jobs : (w : World) → HasJobsOf (resolve_company r w) w
  unfolding resolve_company
  resolve_company-jobs w = grind (arith, company_of_board-jobs)

  fetch_board-jobs : (c : Company) (w : World) → (fetch_board py lib r c w).1.jobs ≡ w.jobs
  unfolding fetch_board
  fetch_board-jobs c w = grind (arith, fetch_listing-jobs)

  pub fetch_link_list-jobs : (w : World) → (fetch_link_list py lib r w).1.jobs ≡ w.jobs
  unfolding fetch_link_list
  fetch_link_list-jobs w = elim (Option-cases (resolve_company r w)) [
    | inl e ↦ rw (e, fetch_link_list) refl
    | inr ((c, v), e) ↦
        rw (e, fetch_link_list)
          (fetch_board-jobs c v
            ∙ subst (λ (o : Option (Company × World)). HasJobsOf o w) e (resolve_company-jobs w))
  ]
