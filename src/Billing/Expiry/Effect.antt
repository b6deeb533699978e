-- ===== src/Billing/Expiry/Effect.antt =====
-- What one run of processExpiredSubscriptions does to every subscription: internal/scheduler/scheduler.go.
use fxtun_dev.Base.{
  ℕ, ◌≡◌, inl, inr, not, ◌&&◌, Option, some, arith, if◌then◌else◌, Option-cases, nat_eq, ◌==◌,
}
use mathlib.Core.Option
use fxtun_dev.Base.Dict.{lookup, Unique}
use fxtun_dev.Base.Tables.{lookup-select, select-Unique, lookup-each}
use fxtun_dev.Billing.{
  Subscription, is_active, expired, Db, Outside, select_expired, update_subscription, State,
}
use fxtun_dev.Billing.Plans.{update_user_row}
use fxtun_dev.Billing.Subscriptions.{ends_before, update, write_row, written, is_due, get_expired}
use fxtun_dev.Billing.Subscriptions.Laws.{lookup-rewritten}
use fxtun_dev.Billing.Expiry.{
  set_plan, downgrade_to_free_plan, after_expiry, expire_one, process_expired_subscriptions,
}

-- The subscription after the run: an active one past its end that does not renew has expired.
unfoldable pub settle : Outside → ℕ → Subscription → Subscription
settle o i s =
    if o.succeeds select_expired
      && o.succeeds (update_subscription i)
      && is_active s.status
      && not s.recurring
      && ends_before o.now s.current_period_end
    then record s { status = expired; updated_at = o.now }
    else s

module _ (o : Outside) where
  pub downgrade-subscriptions :
      (u : ℕ) (db : Db) {db' : Db}
      → downgrade_to_free_plan o u db ≡ some db'
      → db'.subscriptions ≡ db.subscriptions
  unfolding downgrade_to_free_plan set_plan update_user_row
  downgrade-subscriptions u db h = ground arith

  pub after_expiry-subscriptions :
      (id : ℕ) (s : Subscription) (w : State)
      → (after_expiry o id s w).db.subscriptions ≡ w.db.subscriptions
  unfolding after_expiry
  after_expiry-subscriptions id s w =
      elim (Option-cases (downgrade_to_free_plan o s.user_id w.db)) [
        | inl e ↦ rw (e, after_expiry)
        | inr (db', e) ↦ rw (e, after_expiry) (downgrade-subscriptions s.user_id w.db e)
      ]

  abbrev change : ℕ → Subscription → Option Subscription → Option Subscription
  change id s old =
      if s.recurring && is_active s.status
      then old
      else if o.succeeds (update_subscription id)
      then write_row o.now (record s { status = expired; updated_at = o.now }) old
      else old

  lookup-expire_one :
      (i : ℕ) (w : State) (id : ℕ) (s : Subscription)
      → lookup i (expire_one o w id s).db.subscriptions ≡ (
          if id == i then change i s (lookup i w.db.subscriptions) else lookup i w.db.subscriptions)
  unfolding expire_one update written
  lookup-expire_one i w id s =
      let s' = record s { status = expired; updated_at = o.now } in
      ground (
        arith,
        nat_eq.beq_iff id i,
        after_expiry-subscriptions id s' (record w { db = written o.now id s' w.db }),
        lookup-rewritten o.now i id s' w.db.subscriptions,
      )

  -- The loop over the rows of the query, seen at one subscription.
  pub lookup-process_expired :
      (i : ℕ) (w : State)
      → Unique w.db.subscriptions
      → lookup i (process_expired_subscriptions o w).db.subscriptions
        ≡ Option.map (settle o i) (lookup i w.db.subscriptions)
  unfolding process_expired_subscriptions settle get_expired is_due write_row
  lookup-process_expired i w u = ground (
    arith,
    lookup-each i (λ (w' : State). lookup i w'.db.subscriptions) (change i) (expire_one o)
        (lookup-expire_one i) (get_expired o.now w.db)
        (select-Unique (is_due o.now) w.db.subscriptions u) w,
    lookup-select i (is_due o.now) w.db.subscriptions u,
    Option-cases (lookup i w.db.subscriptions),
  )
