-- ===== src/Screen/Redelivery.antt =====
-- app/screen/service.py: screen-job delivered twice.
use job_match_pipeline.Prelude.{
  ◌≡◌, true, some, arith, is_some, Option-cases, Bool-cases, inl, inr, ℕ, ◌∙◌, any, find,
  IsDistinct, ◌==◌, nat_eq,
}
use job_match_pipeline.Payload.{Uuid, Payload, Builtins, lookup, parse_uuid}
use job_match_pipeline.Llm.{LlmUsage, Reply, answered, permanent, retryable, returned}
use job_match_pipeline.Db.Rows.{Match, Action}
use job_match_pipeline.Db.Session.{World, get_match}
use job_match_pipeline.Db.Laws.{find-true}
use job_match_pipeline.Screen.Service.{
  GateDecision, GateLlm, ScreenSettings, ScreenResult, bare_result, is_unscreened, write_label,
  skip_raced, save_decision, after_llm, screen_rows, screen_unscreened, screen_match, screen_job,
}
use job_match_pipeline.Screen.Once.{match_ids, label_of, label_of-save_decision, screen_job-skips}

-- The results of a first delivery, while other sessions commit during its model's call.
module _ (llm : GateLlm) (others : World → World) (s : ScreenSettings) (w : World)
    (r : ScreenResult) (one : IsDistinct (match_ids (others w).matches)) where
  -- A result that reports the label that the match then has.
  abbrev IsLabelled : Uuid → World → Type 0
  IsLabelled id after =
      (label_of id after ≡ r.qualification_label) × (is_some r.qualification_label ≡ true)

  -- The UPDATE reached a row if the result is `screened`.
  reported :
      (m : Match) (missing : ℕ) (d : GateDecision) (u : LlmUsage) (w' : World)
      → (save_decision s m missing d u w').0 ≡ returned r
      → r.action ≡ Action.screened
      → (r.qualification_label ≡ some d.label) × (any (is_unscreened m.id) w'.matches ≡ true)
  unfolding save_decision write_label skip_raced
  reported m missing d u w' h a = elim (Bool-cases (any (is_unscreened m.id) w'.matches)) [
    | inl written ↦ (ground arith, written)
    | inr raced ↦ absurd (ground arith)
  ]

  after_llm-IsLabelled :
      (m : Match) (missing : ℕ) (reply : Reply GateDecision)
      → (after_llm s m missing reply (others w)).0 ≡ returned r
      → r.action ≡ Action.screened
      → IsLabelled m.id (after_llm s m missing reply (others w)).1
  unfolding after_llm
  after_llm-IsLabelled m missing (answered d u) h a =
      let (label, written) = reported m missing d u (others w) h a in
      ground (arith, label, label_of-save_decision s m missing d u (others w) one written)
  after_llm-IsLabelled m missing permanent h a = ground arith
  after_llm-IsLabelled m missing retryable h a = ground arith

  screen_match-IsLabelled :
      (m : Match)
      → (screen_match llm others s m w).0 ≡ returned r
      → r.action ≡ Action.screened
      → IsLabelled m.id (screen_match llm others s m w).1
  unfolding screen_match screen_unscreened screen_rows
  screen_match-IsLabelled m h a = grind (arith, after_llm-IsLabelled)

  -- A result `screened` means that the payload's match has the reported label.
  screened-IsLabelled :
      (py : Builtins) (payload : Payload) (id : Uuid)
      → parse_uuid py (lookup "match_id" payload) ≡ some id
      → (screen_job llm others s py payload w).0 ≡ returned r
      → r.action ≡ Action.screened
      → IsLabelled id (screen_job llm others s py payload w).1
  unfolding screen_job get_match
  screened-IsLabelled py payload id parsed h a =
      elim (Option-cases (find (λ (m : Match). m.id == id) w.matches)) [
        | inl gone ↦ absurd (ground arith)
        | inr (m, found) ↦ ground (
          arith,
          screen_match-IsLabelled m,
          find-true (λ (m : Match). m.id == id) w.matches m found,
          nat_eq.beq_iff m.id id,
        )
      ]

  -- Let a delivery screen the payload's match, whatever other sessions commit during its model's call,
  -- as long as the ids of the matches stay distinct. A second delivery of the payload, whatever its
  -- model would answer and other sessions commit, is skipped with the label of the first and leaves
  -- the matches as they are.
  pub screen_job-redelivered :
      (py : Builtins) (payload : Payload) (id : Uuid) (llm' : GateLlm) (others' : World → World)
      → parse_uuid py (lookup "match_id" payload) ≡ some id
      → (screen_job llm others s py payload w).0 ≡ returned r
      → r.action ≡ Action.screened
      → let w1 = (screen_job llm others s py payload w).1 in
        ((screen_job llm' others' s py payload w1).0
          ≡ returned (record (bare_result Action.skipped_screened (some id)) {
            qualification_label = r.qualification_label;
          }))
        × ((screen_job llm' others' s py payload w1).1.matches ≡ w1.matches)
  screen_job-redelivered py payload id llm' others' parsed h a =
      let (same, set) = screened-IsLabelled py payload id parsed h a in
      elim (Option-cases r.qualification_label) [
        | inl unset ↦ absurd (ground arith)
        | inr (k, is_k) ↦
            let w1 = (screen_job llm others s py payload w).1 in
            let skips = screen_job-skips llm' others' s py payload w1 id k parsed (same ∙ is_k) in
            (rw is_k skips.0, skips.1)
      ]
