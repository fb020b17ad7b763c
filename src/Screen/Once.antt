-- ===== src/Screen/Once.antt =====
-- app/screen/service.py: the label of a match, under redelivery and concurrent deliveries.
use job_match_pipeline.Prelude.{
  ℕ, ◌+◌, ◌≡◌, refl, true, String, List, [], ◌∷◌, map, any, elem, IsDistinct, Option, none, some,
  arith, find, length, length-append, ◌==◌, nat_eq, Option-cases, inl, inr,
}
use job_match_pipeline.Payload.{Uuid, Payload, Builtins, lookup, parse_uuid}
use job_match_pipeline.Llm.{LlmUsage, Reply, answered, permanent, retryable, returned}
use job_match_pipeline.Db.Rows.{Match, UserProfile, Job, QualificationLabel, Action}
use job_match_pipeline.Db.Session.{World, get_match, update}
use job_match_pipeline.Db.Laws.{find-update_if, find-true}
use job_match_pipeline.Screen.Gate.{hard_requirement_overlap, missing_count}
use job_match_pipeline.Screen.Service.{
  GateDecision, GateLlm, ScreenSettings, bare_result, is_unscreened, set_label, save_decision,
  after_llm, screen_rows, screen_match, screen_job, stripped, profile_doc, profile_skills,
}

abbrev match_label : Option Match → Option QualificationLabel
match_label none = none
match_label (some m) = m.qualification_label

abbrev in_table : Uuid → List Match → Option QualificationLabel
in_table id rows = match_label (find (λ r. r.id == id) rows)

-- The label of a match in the database, none if it has none or there is no such match.
abbrev pub label_of : Uuid → World → Option QualificationLabel
label_of id w = in_table id w.matches

-- The UPDATE keeps every label that is there.
in_table-update :
    (x id : Uuid) (l k : QualificationLabel) (reason : String) (rows : List Match)
    → in_table x rows ≡ some k
    → in_table x (update (is_unscreened id) (set_label l reason) rows) ≡ some k
in_table-update x id l k reason rows h = ground (
  arith,
  find-update_if (λ (r : Match). r.id == x) (is_unscreened id) (set_label l reason) rows
      (λ r. refl),
)

matches-save_decision :
    (s : ScreenSettings) (m : Match) (missing : ℕ) (d : GateDecision) (u : LlmUsage) (w : World)
    → (save_decision s m missing d u w).1.matches
      ≡ update (is_unscreened m.id) (set_label d.label d.reason) w.matches
unfolding save_decision
matches-save_decision s m missing d u w = ground arith

-- What follows the model's reply keeps every label that is there by then.
label_of-after_llm :
    (x : Uuid) (k : QualificationLabel) (s : ScreenSettings) (m : Match) (missing : ℕ)
    (reply : Reply GateDecision) (w : World)
    → label_of x w ≡ some k
    → label_of x (after_llm s m missing reply w).1 ≡ some k
label_of-after_llm x k s m missing (answered d u) w h =
    unfold after_llm in
    rw (matches-save_decision s m missing d u w)
      (in_table-update x m.id d.label k d.reason w.matches h)
label_of-after_llm x k s m missing permanent w h = unfold after_llm in h
label_of-after_llm x k s m missing retryable w h = unfold after_llm in h

module _ (llm : GateLlm) (others : World → World) (s : ScreenSettings) (x : Uuid)
    (k : QualificationLabel) (w : World) (before : label_of x w ≡ some k)
    (kept : label_of x (others w) ≡ some k) where
  screen_rows-keeps :
      (m : Match) (job : Job) (p : Option UserProfile)
      → label_of x (screen_rows llm others s m job p w).1 ≡ some k
  unfolding screen_rows
  screen_rows-keeps m job p =
      let missing = missing_count (hard_requirement_overlap job.skill_ids (profile_skills p)) in
      let reply = llm (stripped job.synthesized_doc) (profile_doc p) in
      ground (arith, label_of-after_llm x k s m missing reply (others w) kept)

  screen_match-keeps : (m : Match) → label_of x (screen_match llm others s m w).1 ≡ some k
  unfolding screen_match
  screen_match-keeps m = grind (arith, screen_rows-keeps)

  -- A label that a match has is never changed by screen-job, whichever match the payload names,
  -- whatever the model answers, and whatever other sessions commit during the call as long as they
  -- keep that label.
  pub screen_job-keeps_label :
      (py : Builtins) (payload : Payload)
      → label_of x (screen_job llm others s py payload w).1 ≡ some k
  unfolding screen_job
  screen_job-keeps_label py payload = grind (arith, screen_match-keeps)

-- The row behind a label.
row_of_label :
    (id : Uuid) (k : QualificationLabel) (w : World)
    → label_of id w ≡ some k
    → (m : Match) × (get_match id w ≡ some m) × (m.id ≡ id) × (m.qualification_label ≡ some k)
unfolding get_match
row_of_label id k w h = elim (Option-cases (find (λ (r : Match). r.id == id) w.matches)) [
  | inl gone ↦ absurd (ground arith)
  | inr (m, there) ↦ (
    m,
    there,
    ground (arith, find-true (λ (r : Match). r.id == id) w.matches m there),
    ground arith,
  )
]

-- A match with a label is skipped, whatever the model would answer: the result carries the label and
-- no bill, the matches stay as they are, and one event is written.
pub screen_job-skips :
    (llm : GateLlm) (others : World → World) (s : ScreenSettings) (py : Builtins)
    (payload : Payload) (w : World) (id : Uuid) (k : QualificationLabel)
    → parse_uuid py (lookup "match_id" payload) ≡ some id
    → label_of id w ≡ some k
    → ((screen_job llm others s py payload w).0
        ≡ returned (record (bare_result Action.skipped_screened (some id)) {
          qualification_label = some k;
        }))
      × ((screen_job llm others s py payload w).1.matches ≡ w.matches)
      × (length (screen_job llm others s py payload w).1.events ≡ length w.events + 1)
unfolding screen_job screen_match
screen_job-skips llm others s py payload w id k parsed labelled =
    let (m, found, same, set) = row_of_label id k w labelled in
    (ground arith, ground arith, grind (arith, length-append))

-- The ids of the rows; the primary key keeps them distinct.
abbrev pub match_ids : List Match → List Uuid
match_ids rows = map (λ r. r.id) rows

elem-match_ids :
    (id : Uuid) (rows : List Match)
    → any (is_unscreened id) rows ≡ true
    → elem id (match_ids rows) ≡ true
elem-match_ids id [] h = absurd (ground arith)
elem-match_ids id (r ∷ rows) h =
    ground (arith, elem-match_ids id rows, nat_eq.beq_iff r.id id, nat_eq.beq_iff id r.id)

-- The label of a row that the UPDATE reached.
in_table-update_written :
    (id : Uuid) (l : QualificationLabel) (reason : String) (rows : List Match)
    → IsDistinct (match_ids rows)
    → any (is_unscreened id) rows ≡ true
    → in_table id (update (is_unscreened id) (set_label l reason) rows) ≡ some l
in_table-update_written id l reason [] one h = absurd (ground arith)
in_table-update_written id l reason (r ∷ rows) one h = ground (
  arith,
  in_table-update_written id l reason rows,
  elem-match_ids id rows,
  nat_eq.beq_iff r.id id,
)

pub label_of-save_decision :
    (s : ScreenSettings) (m : Match) (missing : ℕ) (d : GateDecision) (u : LlmUsage) (w : World)
    → IsDistinct (match_ids w.matches)
    → any (is_unscreened m.id) w.matches ≡ true
    → label_of m.id (save_decision s m missing d u w).1 ≡ some d.label
label_of-save_decision s m missing d u w one written =
    rw (matches-save_decision s m missing d u w)
      (in_table-update_written m.id d.label d.reason w.matches one written)
