-- ===== src/Billing/Touches.antt =====
-- A round of a loop of internal/scheduler/scheduler.go writes at most its own row of the subscriptions,
-- and never the row's user.
use fxtun_dev.Base.{
  ℕ, ◌≡◌, refl, ◌⊎◌, inl, inr, Bool, true, false, not, ◌&&◌, ◌||◌, Option, none, some, arith,
  if◌then◌else◌, Bool-cases, Option-cases, nat_eq, ◌==◌,
}
use mathlib.Core.Option
use fxtun_dev.Base.Dict.{Dict, lookup, Unique}
use fxtun_dev.Billing.{
  is_active, expired, success, failed, update_subscription, Subscription, active, YooPayment,
  Payment, Plan, Db, Outside, State, autopayment_created, autopayment_paid,
}
use fxtun_dev.Billing.Plans
use fxtun_dev.Billing.Plans.{update_user_row}
use fxtun_dev.Billing.Payments
use fxtun_dev.Billing.Subscriptions.{update, write_row, written, rewritten}
use fxtun_dev.Billing.Subscriptions.Laws.{lookup-rewritten, rewritten-Unique}
use fxtun_dev.Billing.Expiry.{set_plan, expire_one}
use fxtun_dev.Billing.Expiry.Effect.{after_expiry-subscriptions}
use fxtun_dev.Billing.Renewal.{
  renew_priced, has_method, no_pending, new_payment, or_keep, or_else, handle_autopayment_success,
  after_charge, bill, renew_one, is_free,
}
use fxtun_dev.Billing.Changes.{switch, change_one}

-- The table after a write of the row `id`, or the old table.
abbrev pub Touches : ℕ → ℕ → Dict ℕ Subscription → Dict ℕ Subscription → Type 0
Touches now id m m' = (m' ≡ m) ⊎ ((s : Subscription) × (m' ≡ rewritten now id s m))

abbrev pub owner : ℕ → Dict ℕ Subscription → Option ℕ
owner i m = Option.map (λ (s : Subscription). s.user_id) (lookup i m)

rewritten-owner :
    (now i id : ℕ) (s : Subscription) (m : Dict ℕ Subscription)
    → owner i (rewritten now id s m) ≡ owner i m
unfolding write_row
rewritten-owner now i id s m =
    ground (arith, lookup-rewritten now i id s m, Option-cases (lookup i m))

module _ (now id : ℕ) (m m' : Dict ℕ Subscription) where
  pub Touches-owner : (i : ℕ) → Touches now id m m' → owner i m' ≡ owner i m
  Touches-owner i (inl e) = rw e
  Touches-owner i (inr (s, e)) = rw e (rewritten-owner now i id s m)

  pub Touches-Unique : Touches now id m m' → Unique m → Unique m'
  Touches-Unique (inl e) u = rw e u
  Touches-Unique (inr (s, e)) u = rw e (rewritten-Unique now id s m u)

  pub Touches-lookup : (i : ℕ) → Touches now id m m' → (id == i) ≡ false → lookup i m' ≡ lookup i m
  Touches-lookup i (inl e) n = rw e
  Touches-lookup i (inr (s, e)) n = rw e (ground (arith, lookup-rewritten now i id s m))

if_Touches :
    (now id : ℕ) (m : Dict ℕ Subscription) (b : Bool) (w w' : State)
    → Touches now id m w.db.subscriptions
    → Touches now id m w'.db.subscriptions
    → Touches now id m (if b then w else w').db.subscriptions
if_Touches now id m true w w' h h' = h
if_Touches now id m false w w' h h' = h'

-- After a step that leaves the table.
Touches-from :
    (now id : ℕ) (m0 m m' : Dict ℕ Subscription)
    → m ≡ m0
    → Touches now id m m'
    → Touches now id m0 m'
Touches-from now id m0 m m' e h = rw (← e) h

module _ (o : Outside) where
  pub expire_one-Touches :
      (w : State) (id : ℕ) (s : Subscription)
      → Touches o.now id w.db.subscriptions (expire_one o w id s).db.subscriptions
  unfolding expire_one update written
  expire_one-Touches w id s =
      let s' = record s { status = expired; updated_at = o.now } in
      elim (Bool-cases (s.recurring && is_active s.status)) [
        | inl h ↦ inl (ground arith)
        | inr h ↦ elim (Bool-cases (o.succeeds (update_subscription id))) [
          | inl k ↦ inr (
            s',
            ground (
              arith,
              after_expiry-subscriptions o id s' (record w { db = written o.now id s' w.db }),
            ),
          )
          | inr k ↦ inl (ground arith)
        ]
      ]

  pub set_plan-subscriptions :
      (u p : ℕ) (db : Db) {db' : Db}
      → set_plan o u p db ≡ some db'
      → db'.subscriptions ≡ db.subscriptions
  unfolding set_plan update_user_row
  set_plan-subscriptions u p db h = ground arith

  or_keep-set_plan :
      (u p : ℕ) (db : Db) (w : State)
      → w.db.subscriptions ≡ db.subscriptions
      → (or_keep (set_plan o u p db) w).db.subscriptions ≡ db.subscriptions
  unfolding set_plan update_user_row
  or_keep-set_plan u p db w h = ground arith

  pub switch-Touches :
      (id : ℕ) (s : Subscription) (next : ℕ) (w : State)
      → Touches o.now id w.db.subscriptions (switch o id s next w).db.subscriptions
  unfolding switch update written
  switch-Touches id s next w =
      let s' = record s { plan_id = next; next_plan_id = none; updated_at = o.now } in
      elim (Option-cases (Plans.get_by_id o next w.db)) [
        | inl h ↦ inl (ground arith)
        | inr (plan, h) ↦ elim (Bool-cases (o.succeeds (update_subscription id))) [
          | inl k ↦
              let db = written o.now id s' w.db in
              inr (s', ground (arith, or_keep-set_plan s.user_id next db (record w { db = db })))
          | inr k ↦ inl (ground arith)
        ]
      ]

  pub change_one-Touches :
      (w : State) (id : ℕ) (s : Subscription)
      → Touches o.now id w.db.subscriptions (change_one o w id s).db.subscriptions
  unfolding change_one
  change_one-Touches w id s = elim (Option-cases s.next_plan_id) [
    | inl h ↦ inl (ground arith)
    | inr (next, h) ↦ rw (h, change_one) (switch-Touches id s next w)
  ]

  or_keep-update :
      (pid : ℕ) (p : Payment) (w : State)
      → (or_keep (Payments.update o pid p w.db) w).db.subscriptions ≡ w.db.subscriptions
  unfolding Payments.update Payments.written
  or_keep-update pid p w = ground arith

  handle_autopayment_success-Touches :
      (id : ℕ) (s : Subscription) (pid : ℕ) (p : Payment) (y : YooPayment) (plan : ℕ × Plan)
      (w : State)
      → Touches o.now id w.db.subscriptions
          (handle_autopayment_success o id s pid p y plan w).db.subscriptions
  unfolding handle_autopayment_success update written
  handle_autopayment_success-Touches id s pid p y plan w =
      let p' = record p { status = success; yookassa_data = autopayment_paid y } in
      let s' = record s {
        current_period_start = some o.now;
        current_period_end = some (o.add_month o.now);
        status = active;
        yookassa_payment_method_id = or_else y.saved_method s.yookassa_payment_method_id;
        updated_at = o.now;
      } in
      elim (Bool-cases (o.succeeds (update_subscription id))) [
        | inl k ↦ inr (s', ground (arith, or_keep-update pid p' w))
        | inr k ↦ inl (ground (arith, or_keep-update pid p' w))
      ]

  after_charge-Touches :
      (id : ℕ) (s : Subscription) (pid : ℕ) (p : Payment) (plan : ℕ × Plan) (y : Option YooPayment)
      (w : State)
      → Touches o.now id w.db.subscriptions (after_charge o id s pid p plan y w).db.subscriptions
  unfolding after_charge
  after_charge-Touches id s pid p plan none w =
      inl (or_keep-update pid (record p { status = failed }) w)
  after_charge-Touches id s pid p plan (some y) w =
      let p' = record p { yookassa_data = autopayment_created y } in
      let w' = or_keep (Payments.update o pid p' w.db) w in
      if_Touches o.now id w.db.subscriptions y.succeeded _ _
        (Touches-from o.now id w.db.subscriptions w'.db.subscriptions _ (or_keep-update pid p' w)
          (handle_autopayment_success-Touches id s pid p' y plan w'))
        (inl (or_keep-update pid p' w))

  create-subscriptions :
      (p : Payment) (db : Db) {r : ℕ × Db}
      → Payments.create o p db ≡ some r
      → r.1.subscriptions ≡ db.subscriptions
  unfolding Payments.create
  create-subscriptions p db h = ground arith

  pub bill-Touches :
      (id : ℕ) (s : Subscription) (plan : ℕ × Plan) (w : State)
      → Touches o.now id w.db.subscriptions (bill o id s plan w).db.subscriptions
  unfolding bill
  bill-Touches id s (plan_id, plan) w = elim (Option-cases (Payments.get_next_invoice_id o w.db)) [
    | inl h ↦ inl (ground arith)
    | inr (invoice, h) ↦
        let amount = o.to_rub plan.price in
        let p = new_payment id s invoice amount in
        elim (Option-cases (Payments.create o p w.db)) [
          | inl k ↦ inl (ground arith)
          | inr ((pid, db), k) ↦
              rw (h, bill, k)
                (Touches-from o.now id w.db.subscriptions db.subscriptions _
                  (create-subscriptions p w.db k)
                  (after_charge-Touches id s pid p (plan_id, plan) (o.charge id s invoice amount)
                    (record w { db = db })))
        ]
  ]

  renew_priced-Touches :
      (id : ℕ) (s : Subscription) (plan : Option Plan) (w : State)
      → Touches o.now id w.db.subscriptions (renew_priced o id s plan w).db.subscriptions
  unfolding renew_priced
  renew_priced-Touches id s none w = inl refl
  renew_priced-Touches id s (some plan) w =
      if_Touches o.now id w.db.subscriptions (is_free plan.price) _ _ (inl refl)
        (bill-Touches id s (s.plan_id, plan) w)

  pub renew_one-Touches :
      (w : State) (id : ℕ) (s : Subscription)
      → Touches o.now id w.db.subscriptions (renew_one o w id s).db.subscriptions
  unfolding renew_one
  renew_one-Touches w id s =
      if_Touches o.now id w.db.subscriptions
        (not s.recurring || not (has_method s.yookassa_payment_method_id)) _ _ (inl refl)
        (if_Touches o.now id w.db.subscriptions
          (not (no_pending (Payments.get_pending_by_subscription_id o id w.db))) _ _ (inl refl)
          (renew_priced-Touches id s (Plans.get_by_id o s.plan_id w.db) w))
