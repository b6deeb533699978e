-- ===== src/Billing/Expiry.antt =====
-- processExpiredSubscriptions and downgradeToFreePlan of internal/scheduler/scheduler.go.
pub mod Effect
pub mod Downgrade
use mathlib.Core.Option
use fxtun_dev.Base.{
  ℕ, zero, suc, ◌+◌, ◌-◌, ◌*◌, ◌/◌, ◌%◌, ◌^◌, ◌≤◌, ◌<◌, ◌≡◌, refl, sym, ap, ◌∙◌, ◌≢◌, ◌↔◌, ◌⊎◌, inl,
  inr, Bool, true, false, not, ◌&&◌, ◌||◌, Option, none, some, List, [], ◌∷◌, ◌++◌, map, arith, ltb,
  leb, eqb, if◌then◌else◌, ltb→lt, lt→ltb, leb→le, eqb_iff, Bool-cases, Option-cases, is_some, Eq,
  nat_eq, ◌==◌, length, get_elem?, set, take, drop, replicate, All, length-append, length-take,
  length-drop,
}
use fxtun_dev.Base.Int.{ℤ, pos, negsuc}
use fxtun_dev.Base.Bytes.{codes}
use fxtun_dev.Base.Dict.{Dict, lookup, insert, delete}
use fxtun_dev.Base.Tables.{each}
use fxtun_dev.Billing.{
  Subscription, is_active, expired, Plan, User, Db, Outside, select_expired, Event,
  subscription_expired, expired_action, State, log_audit, emit,
}
use fxtun_dev.Billing.Plans
use fxtun_dev.Billing.Subscriptions

abbrev is_zero : ℤ → Bool
is_zero (pos n) = n == 0
is_zero (negsuc n) = false

find_free : List (ℕ × Plan) → Option ℕ
find_free [] = none
find_free ((i, p) ∷ ps) = if is_zero p.price then some i else find_free ps

-- The plan with the slug "free", or else the first of price 0; the outer `none` is an error.
unfoldable pub free_plan : Outside → Db → Option (Option ℕ)
unfolding find_free
free_plan o db = elim (Plans.get_by_slug o (codes "free") db) [
  | some i ↦ some (some i)
  | none ↦ Option.map find_free (Plans.list_all o 100 db)
]

unfoldable pub set_plan : Outside → ℕ → ℕ → Db → Option Db
set_plan o user plan db = elim (Plans.get_user o user db) [
  | none ↦ none
  | some u ↦ Plans.update_user_row o user (record u { plan_id = plan }) db
]

-- `none` is an error, `some db` with the same tables where there is no free plan.
unfoldable pub downgrade_to_free_plan : Outside → ℕ → Db → Option Db
downgrade_to_free_plan o user db = elim (free_plan o db) [
  | none ↦ none
  | some none ↦ some db
  | some (some plan) ↦ set_plan o user plan db
]

-- The rest of the round, after the row is written.
unfoldable pub after_expiry : Outside → ℕ → Subscription → State → State
unfolding log_audit emit
after_expiry o id s w = elim (downgrade_to_free_plan o s.user_id w.db) [
  | none ↦ w
  | some db ↦
      emit
        (record {
          type = subscription_expired;
          user_id = s.user_id;
          subscription = (id, s);
          plan = none;
          days_left = 0;
        })
        (log_audit expired_action s.user_id id s.plan_id (record w { db = db }))
]

unfoldable pub expire_one : Outside → State → ℕ → Subscription → State
expire_one o w id s =
    if s.recurring && is_active s.status
    then w
    else let s' = record s { status = expired; updated_at = o.now } in
      elim (Subscriptions.update o id s' w.db) [
        | none ↦ w
        | some db ↦ after_expiry o id s' (record w { db = db })
      ]

unfoldable pub process_expired_subscriptions : Outside → State → State
process_expired_subscriptions o w =
    if o.succeeds select_expired
    then each (expire_one o) w (Subscriptions.get_expired o.now w.db)
    else w
