-- ===== src/Billing/Handlers/Activation.antt =====
-- The effect of a payment that succeeds: handlePaymentSucceeded of internal/api/handlers_payment.go.
use fxtun_dev.Base.{ℕ, ◌≡◌, refl, ◌∙◌, false, Option, some, List, arith, nat_eq}
use fxtun_dev.Base.Dict.{lookup, lookup-insert}
use fxtun_dev.Billing.{
  Subscription, active, Payment, success, payment_succeeded, YooPayment, User, Outside, State,
  update_payment, update_subscription, select_subscription, select_invoice,
}
use fxtun_dev.Billing.Subscriptions
use fxtun_dev.Billing.Subscriptions.{rewritten, written, write_row}
use fxtun_dev.Billing.Subscriptions.Laws.{lookup-rewritten}
use fxtun_dev.Billing.Payments
use fxtun_dev.Billing.Payments.{find_invoice}
use fxtun_dev.Billing.Expiry.Downgrade.{Works, plan_of, set_plan-plan_of}
use fxtun_dev.Billing.Handlers.{
  is_success, activated, activate, activate_for, with_payment, handle_payment_succeeded,
}
use fxtun_dev.Billing.Renewal.{or_else}
use fxtun_dev.Billing.Handlers.Delivery.{read_invoice}

module _ (o : Outside) (works : Works o) (y : YooPayment) where
  activate_lem :
      (id : ℕ) (s : Subscription) (x : User) (w : State)
      → lookup id w.db.subscriptions ≡ some s
      → lookup s.user_id w.db.users ≡ some x
      → (lookup id (activate o y id (some s) w).db.subscriptions ≡ some (activated o y s))
        × (plan_of s.user_id (activate o y id (some s) w).db ≡ some s.plan_id)
  unfolding activate Subscriptions.update written write_row
  activate_lem id s x w e k =
      let db = written o.now id (activated o y s) w.db in
      (
        ground (
          arith,
          works (update_subscription id),
          set_plan-plan_of o works s.user_id s.plan_id db x k,
          lookup-rewritten o.now id id (activated o y s) w.db.subscriptions,
          nat_eq.beq_iff id id,
        ),
        ground (
          arith,
          works (update_subscription id),
          set_plan-plan_of o works s.user_id s.plan_id db x k,
          lookup-insert s.user_id s.user_id (record x { plan_id = s.plan_id }) w.db.users,
          nat_eq.beq_iff s.user_id s.user_id,
        ),
      )

  -- A payment that succeeds is answered with 200, makes its subscription active, whatever its status was, with a
  -- period from now to a month from now and the payment method that was saved, if any, and puts the
  -- subscription's plan on its user; nothing else of the subscription changes but its time of update. (Every
  -- statement succeeds; the payment, its subscription and the user exist; it is the first delivery.)
  pub payment_succeeded_activates :
      (scan : List ℕ → Option ℕ) (w : State) (text : List ℕ) (invoice pid id : ℕ) (p : Payment)
      (s : Subscription) (x : User)
      → y.invoice_id ≡ some text
      → scan text ≡ some invoice
      → find_invoice invoice w.db.payments ≡ some (pid, p)
      → is_success p ≡ false
      → p.subscription_id ≡ some id
      → lookup id w.db.subscriptions ≡ some s
      → lookup s.user_id w.db.users ≡ some x
      → ((handle_payment_succeeded scan o y w).1 ≡ 200)
        × (lookup id (handle_payment_succeeded scan o y w).0.db.subscriptions
            ≡ some (record s {
              status = active;
              current_period_start = some o.now;
              current_period_end = some (o.add_month o.now);
              yookassa_payment_method_id = or_else y.saved_method s.yookassa_payment_method_id;
              updated_at = o.now;
            }))
        × (plan_of s.user_id (handle_payment_succeeded scan o y w).0.db ≡ some s.plan_id)
  unfolding activated with_payment activate_for Payments.get_by_invoice_id Payments.update
      Payments.written Subscriptions.get_by_id
  payment_succeeded_activates scan w text invoice pid id p s x e r found fresh q row known =
      let p' = record p { status = success; yookassa_data = payment_succeeded y } in
      let w' = record w { db = Payments.written pid p' w.db } in
      let a = activate_lem id s x w' row known in
      let step : handle_payment_succeeded scan o y w ≡ (activate o y id (some s) w', 200) =
        read_invoice scan o y w text invoice e r
        ∙ ground (
          arith,
          works (select_invoice invoice),
          works (update_payment pid success),
          works (select_subscription id),
        ) in
      rw step (refl, a.0, a.1)
