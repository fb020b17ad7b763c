-- ===== src/Quota/Bounds.antt =====
-- app/quota.py: requests against a quota, one after another.
use job_match_pipeline.Prelude.{
  ℕ, zero, suc, ◌-◌, ◌≤◌, ◌≡◌, refl, false, Option, none, some, arith, ltb, min, if◌then◌else◌,
  ◌==◌, nat_eq, length, keep,
}
use job_match_pipeline.Payload.{Uuid}
use job_match_pipeline.Db.Rows.{User}
use job_match_pipeline.Db.Session.{World, get_user}
use job_match_pipeline.Db.Laws.{find-update_if, count-keyed, count-update, find-true, update-none}
use job_match_pipeline.Quota.{has_quota, spend, may_spend, try_consume_quota, consume_times}

-- The primary key: at most one row of the user.
abbrev pub HasOneRow : Uuid → World → Type 0
HasOneRow id w = length (keep (λ (u : User). u.id == id) w.users) ≤ 1

abbrev quota_of_row : Option User → Option ℕ
quota_of_row none = none
quota_of_row (some u) = u.quota_remaining

abbrev pub quota_of : Uuid → World → Option ℕ
quota_of id w = quota_of_row (get_user id w)

module _ (id : Uuid) (w : World) (one : HasOneRow id w) where
  try_consume_quota-HasOneRow : HasOneRow id (try_consume_quota id w).1
  unfolding try_consume_quota
  try_consume_quota-HasOneRow =
      rw (count-update (λ (u : User). u.id == id) (may_spend id) spend w.users (λ u. refl)) one

  module _ (u : User) (q : ℕ) (found : get_user id w ≡ some u)
      (has : u.quota_remaining ≡ some q) where
    abbrev after_spend : User
    after_spend = if has_quota u then spend u else u

    granted-try_consume_quota : (try_consume_quota id w).0 ≡ ltb 0 q
    unfolding try_consume_quota get_user
    granted-try_consume_quota =
        ground (arith, count-keyed (λ (u : User). u.id == id) has_quota w.users u one found)

    get_user-try_consume_quota : get_user id (try_consume_quota id w).1 ≡ some after_spend
    unfolding try_consume_quota get_user
    get_user-try_consume_quota = ground (
      arith,
      find-true (λ (u : User). u.id == id) w.users u found,
      find-update_if (λ (u : User). u.id == id) (may_spend id) spend w.users (λ u. refl),
    )

    quota-after_spend : after_spend.quota_remaining ≡ some (q - 1)
    quota-after_spend = ground arith

-- Of `k` requests by a user with one row and quota `q`, exactly the first `min k q` are granted, and `q - k` is
-- left, never below zero.
pub consume_times_bounded :
    (k : ℕ) (id : Uuid) (w : World) (u : User) (q : ℕ)
    → HasOneRow id w
    → get_user id w ≡ some u
    → u.quota_remaining ≡ some q
    → ((consume_times k id w).0 ≡ min k q) × (quota_of id (consume_times k id w).1 ≡ some (q - k))
unfolding consume_times
consume_times_bounded zero id w u q one found has = (omega arith, ground arith)
consume_times_bounded (suc k) id w u q one found has = ground (
  arith,
  granted-try_consume_quota id w one u q found has,
  consume_times_bounded k id (try_consume_quota id w).1 (after_spend id w one u q found has) (q - 1)
      (try_consume_quota-HasOneRow id w one) (get_user-try_consume_quota id w one u q found has)
      (quota-after_spend id w one u q found has),
)

-- A user with one row, whose quota is NULL or zero, is refused, and no user changes.
pub try_consume_quota-refuses :
    (id : Uuid) (w : World) (u : User)
    → HasOneRow id w
    → get_user id w ≡ some u
    → has_quota u ≡ false
    → ((try_consume_quota id w).0 ≡ false) × ((try_consume_quota id w).1.users ≡ w.users)
unfolding try_consume_quota get_user
try_consume_quota-refuses id w u one found out =
    let none_pass = count-keyed (λ (u : User). u.id == id) has_quota w.users u one found in
    (ground (arith, none_pass), ground (arith, none_pass, update-none (may_spend id) spend w.users))
