-- ===== src/Quota.antt =====
-- app/quota.py: the atomic decrement of a user's quota.
pub mod Bounds
use job_match_pipeline.Prelude.{
  ℕ, zero, suc, ◌+◌, ◌-◌, Bool, true, false, ◌&&◌, Option, none, some, ltb, nat_beq, if◌then◌else◌,
  ◌==◌, nat_eq, length, keep,
}
use job_match_pipeline.Payload.{Uuid}
use job_match_pipeline.Db.Rows.{User}
use job_match_pipeline.Db.Session.{World, update}

-- `quota_remaining IS NOT NULL AND quota_remaining > 0`
abbrev pub has_quota : User → Bool
has_quota u = elim u.quota_remaining [ none ↦ false | some n ↦ ltb 0 n ]

abbrev pub less_one : Option ℕ → Option ℕ
less_one none = none
less_one (some n) = some (n - 1)

abbrev pub spend : User → User
spend u = record u { quota_remaining = less_one u.quota_remaining }

abbrev pub may_spend : Uuid → User → Bool
may_spend id u = u.id == id && has_quota u

-- `rowcount == 1`, and the table after the UPDATE.
unfoldable pub try_consume_quota : Uuid → World → Bool × World
try_consume_quota id w = (
  nat_beq (length (keep (may_spend id) w.users)) 1,
  record w { users = update (may_spend id) spend w.users },
)

-- `k` requests one after another: how many were granted, and what is left.
unfoldable pub consume_times : ℕ → Uuid → World → ℕ × World
consume_times zero id w = (0, w)
consume_times (suc k) id w =
    let (granted, w1) = try_consume_quota id w in
    let (n, w2) = consume_times k id w1 in ((if granted then n + 1 else n), w2)
