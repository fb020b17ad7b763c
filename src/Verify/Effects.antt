-- ===== src/Verify/Effects.antt =====
-- app/verify/graph.py: what a run writes and sends.
use job_match_pipeline.Prelude.{
  ◌≡◌, refl, List, [], ◌∷◌, ◌++◌, Option, none, some, arith, ◌==◌, nat_eq,
}
use mathlib.Core.List.{append-nil}
use job_match_pipeline.Llm.{Reply, answered, permanent, retryable, returned}
use job_match_pipeline.Db.Rows.{Generation, VerifyStatus, Action}
use job_match_pipeline.Db.Session.{World, Task, QueueName, update}
use job_match_pipeline.Verify.State.{pass, VerifyDecision, Inputs}
use job_match_pipeline.Verify.Graph.{run_verify_graph, regenerate_payload}
use job_match_pipeline.Verify.Verdicts.{Report, report, ground_reply, coverage_reply}

-- The call answered, and its verdict is no failure.
abbrev pub Passes : Reply VerifyDecision → Type 0
Passes (answered d u) = d.verdict ≡ pass
Passes _ = ⊥

abbrev pub status_of : Report → Option VerifyStatus
status_of (returned (a, st, fs)) = st
status_of _ = none

module _ (i : Inputs) (w : World) where
  -- The rows after a report: a status and its failures on the generation, or nothing.
  abbrev pub written : Report → List Generation → List Generation
  written (returned (a, some st, fs)) rows =
      update (λ r. r.id == i.generation.id)
        (λ r. record r { verify_status = some st; verify_failures = fs }) rows
  written _ rows = rows

  abbrev pub sent : Report → List Task
  sent (returned (Action.regenerate_enqueued, st, fs)) =
      record { queue_name = QueueName.generate_resume; payload = regenerate_payload i fs } ∷ []
  sent _ = []

  -- The generation's row and the queue after a run, by what it reports.
  abbrev pub HasEffects : Type 0
  HasEffects =
      ((run_verify_graph i w).1.generations
        ≡ written (report (run_verify_graph i w).0) w.generations)
      × ((run_verify_graph i w).1.pending ≡ w.pending ++ sent (report (run_verify_graph i w).0))

  effects_at :
      (g c : Reply VerifyDecision) → ground_reply i w ≡ g → coverage_reply i w ≡ c → HasEffects
  unfolding run_verify_graph
  effects_at retryable c p q = (ground arith, ground (arith, append-nil w.pending))
  effects_at permanent c p q = (ground arith, ground (arith, append-nil w.pending))
  effects_at (answered g u) retryable p q = (ground arith, ground (arith, append-nil w.pending))
  effects_at (answered g u) permanent p q = (ground arith, ground (arith, append-nil w.pending))
  effects_at (answered g u) (answered c v) p q =
      (ground arith, ground (arith, append-nil w.pending))

  -- While no other session commits during the models' calls: a run that reports a status writes it with its failures to the generation's row alone, and
  -- enqueues one generate-resume if it reports `regenerate_enqueued`; in every other case it enqueues
  -- nothing, and a run that raises writes no status.
  pub run_verify_graph-HasEffects : HasEffects
  run_verify_graph-HasEffects = effects_at (ground_reply i w) (coverage_reply i w) refl refl
