-- ===== src/Screen/Frame.antt =====
-- app/screen/service.py: the parts of the database beside the match.
use job_match_pipeline.Prelude.{ℕ, String, ◌≡◌, refl, arith, Option}
use job_match_pipeline.Payload.{Payload, Builtins}
use job_match_pipeline.Llm.{Reply, answered, permanent, retryable}
use job_match_pipeline.Db.Rows.{Match, UserProfile, Job}
use job_match_pipeline.Db.Session.{World}
use job_match_pipeline.Screen.Service.{
  GateDecision, GateLlm, ScreenSettings, save_decision, after_llm, screen_rows, screen_unscreened,
  screen_match, screen_job, stripped, profile_doc, profile_skills,
}
use job_match_pipeline.Screen.Gate.{hard_requirement_overlap, missing_count}
use job_match_pipeline.Db.Session.{alone}

-- The queue, the users with their quotas, and the resumes are as they were.
pub record IsQuiet (before after : World) : Type 0 where
  pub same_pending : after.pending ≡ before.pending
  pub same_users : after.users ≡ before.users
  pub same_generations : after.generations ≡ before.generations

after_llm-IsQuiet :
    (s : ScreenSettings) (m : Match) (missing : ℕ) (reply : Reply GateDecision) (v w : World)
    → IsQuiet v w
    → IsQuiet v (after_llm s m missing reply w).1
unfolding after_llm save_decision
after_llm-IsQuiet s m missing (answered d u) v w h = ground arith
after_llm-IsQuiet s m missing permanent v w h = ground arith
after_llm-IsQuiet s m missing retryable v w h = ground arith

module _ (llm : GateLlm) (others : World → World) (s : ScreenSettings) (w : World)
    (quiet : IsQuiet w (others w)) where
  screen_rows-IsQuiet :
      (m : Match) (job : Job) (p : Option UserProfile)
      → IsQuiet w (screen_rows llm others s m job p w).1
  unfolding screen_rows
  screen_rows-IsQuiet m job p = grind (arith, after_llm-IsQuiet)

  screen_match-IsQuiet : (m : Match) → IsQuiet w (screen_match llm others s m w).1
  unfolding screen_match screen_unscreened
  screen_match-IsQuiet m = grind (arith, screen_rows-IsQuiet)

  -- Screening enqueues nothing, spends no quota and touches no resume, whatever it returns, if the
  -- other sessions that commit during the model's call do none of this.
  pub screen_job-IsQuiet :
      (py : Builtins) (payload : Payload) → IsQuiet w (screen_job llm others s py payload w).1
  unfolding screen_job
  screen_job-IsQuiet py payload = grind (arith, screen_match-IsQuiet)

-- An error of the model, permanent or retryable.
abbrev pub IsError : Reply GateDecision → Type 0
IsError (answered d u) = ⊥
IsError permanent = Unit
IsError retryable = Unit

after_llm-matches :
    (s : ScreenSettings) (m : Match) (missing : ℕ) (reply : Reply GateDecision) (w : World)
    → IsError reply
    → (after_llm s m missing reply w).1.matches ≡ w.matches
unfolding after_llm
after_llm-matches s m missing (answered d u) w h = absurd h
after_llm-matches s m missing permanent w h = refl
after_llm-matches s m missing retryable w h = refl

module _ (llm : GateLlm) (s : ScreenSettings) (w : World)
    (fails : (job_text profile_text : String) → IsError (llm job_text profile_text)) where
  screen_rows-matches :
      (m : Match) (job : Job) (p : Option UserProfile)
      → (screen_rows llm alone s m job p w).1.matches ≡ w.matches
  unfolding screen_rows
  screen_rows-matches m job p =
      let missing = missing_count (hard_requirement_overlap job.skill_ids (profile_skills p)) in
      let job_doc = stripped job.synthesized_doc in
      let doc = profile_doc p in
      ground (arith, after_llm-matches s m missing (llm job_doc doc) w (fails job_doc doc))

  -- Where the model fails on every input and no other session commits during its call, no match
  -- changes: the label stays NULL and the match stays screenable.
  pub screen_job-llm_error :
      (py : Builtins) (payload : Payload)
      → (screen_job llm alone s py payload w).1.matches ≡ w.matches
  unfolding screen_job screen_match screen_unscreened
  screen_job-llm_error py payload = grind (arith, screen_rows-matches)
