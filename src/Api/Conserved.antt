-- ===== src/Api/Conserved.antt =====
-- app/api/service.py and app/quota.py: what a request costs.
use job_match_pipeline.Prelude.{
  ℕ, ◌+◌, ◌≤◌, ◌≡◌, ◌∙◌, refl, false, List, [], ◌∷◌, Option, none, some, arith, length,
  length-append, keep, IsDistinct, map, elem, nat_eq,
}
use job_match_pipeline.Payload.{Uuid, Builtins}
use job_match_pipeline.Db.Rows.{User, Match}
use job_match_pipeline.Db.Session.{World, Task, QueueName, update, enqueue}
use job_match_pipeline.Quota.{spend, may_spend, try_consume_quota}
use job_match_pipeline.Api.Trigger.{
  generate_payload, trigger_all, trigger_new, trigger_match, trigger_generate,
}

abbrev quota_value : Option ℕ → ℕ
quota_value none = 0
quota_value (some n) = n

-- What all users together have left.
abbrev pub total_quota : List User → ℕ
total_quota [] = 0
total_quota (u ∷ us) = quota_value u.quota_remaining + total_quota us

-- The primary key of `users`.
abbrev pub HasDistinctUsers : World → Type 0
HasDistinctUsers w = IsDistinct (map (λ u. u.id) w.users)

spend-none :
    (id : Uuid) (us : List User)
    → elem id (map (λ u. u.id) us) ≡ false
    → (length (keep (may_spend id) us) ≡ 0)
      × (total_quota (update (may_spend id) spend us) ≡ total_quota us)
spend-none id [] h = (refl, refl)
spend-none id (u ∷ us) h = ground (arith, spend-none id us)

-- An UPDATE takes as much as the number of rows that it reaches, and it reaches one at most.
spend-total :
    (id : Uuid) (us : List User)
    → IsDistinct (map (λ u. u.id) us)
    → (length (keep (may_spend id) us) ≤ 1)
      × (total_quota (update (may_spend id) spend us) + length (keep (may_spend id) us)
          ≡ total_quota us)
spend-total id [] h = (omega arith, refl)
spend-total id (u ∷ us) h = ground (arith, spend-total id us, spend-none id us, h.0)

ids-update :
    (id : Uuid) (us : List User)
    → map (λ u. u.id) (update (may_spend id) spend us) ≡ map (λ u. u.id) us
ids-update id [] = refl
ids-update id (u ∷ us) = ground (arith, ids-update id us)

-- Quotas and messages together.
abbrev pub worth : World → ℕ
worth w = total_quota w.users + length w.pending

-- The users stay distinct, and nothing is lost or won.
pub record IsConserved (before after : World) : Type 0 where
  pub distinct : HasDistinctUsers after
  pub same_worth : worth after ≡ worth before

abbrev generate_task : Builtins → Match → Task
generate_task py m = record {
  queue_name = QueueName.generate_resume;
  payload = generate_payload py m;
}

IsConserved-trigger_new :
    (py : Builtins) (m : Match) (w : World)
    → HasDistinctUsers w
    → IsConserved w (trigger_new py m w).1
unfolding trigger_new try_consume_quota enqueue
IsConserved-trigger_new py m w h = record {
  distinct = ground (arith, ids-update m.user_id w.users);
  same_worth =
      ground
        (arith, spend-total m.user_id w.users h, length-append w.pending (generate_task py m ∷ []));
}

IsConserved-trigger_generate :
    (py : Builtins) (id : Uuid) (w : World)
    → HasDistinctUsers w
    → IsConserved w (trigger_generate py id w).1
unfolding trigger_generate trigger_match
IsConserved-trigger_generate py id w h = grind (arith, IsConserved-trigger_new, h)

-- Any number of requests one after another, each for any match, spend exactly one unit of quota for
-- each message that they enqueue: what all users have left and what waits in the queue add up to the
-- same as before, if no two users have one id; that they still do not.
pub trigger_all-IsConserved :
    (py : Builtins) (ids : List Uuid) (w : World)
    → HasDistinctUsers w
    → IsConserved w (trigger_all py ids w)
unfolding trigger_all
trigger_all-IsConserved py [] w h = record { distinct = h; same_worth = refl }
trigger_all-IsConserved py (id ∷ ids) w h =
    let first = IsConserved-trigger_generate py id w h in
    let rest = trigger_all-IsConserved py ids (trigger_generate py id w).1 first.distinct in
    record { distinct = rest.distinct; same_worth = rest.same_worth ∙ first.same_worth }
