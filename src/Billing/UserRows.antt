-- ===== src/Billing/UserRows.antt =====
-- Which rows of the users the rounds of internal/scheduler/scheduler.go write.
use fxtun_dev.Billing.Renewal.{new_payment}
use fxtun_dev.Base.{
  ℕ, ◌≡◌, refl, ◌∙◌, ◌≢◌, inl, inr, Option, none, some, arith, Option-cases, nat_eq,
}
use fxtun_dev.Base.Dict.{lookup, lookup-insert}
use fxtun_dev.Billing.{
  expired, autopayment_created, Subscription, YooPayment, Payment, Plan, Db, Outside, State,
}
use fxtun_dev.Billing.Plans
use fxtun_dev.Billing.Plans.{update_user_row}
use fxtun_dev.Billing.Payments
use fxtun_dev.Billing.Payments.{drop_pending}
use fxtun_dev.Billing.Subscriptions.{update, written}
use fxtun_dev.Billing.Expiry.{free_plan, set_plan, downgrade_to_free_plan, after_expiry, expire_one}
use fxtun_dev.Billing.Renewal.{
  or_keep, handle_autopayment_success, after_charge, bill, renew_priced, renew_one,
}
use fxtun_dev.Billing.Changes.{switch, change_one}

module _ (o : Outside) (u : ℕ) where
  set_plan-users :
      (v p : ℕ) (db : Db) {db' : Db}
      → v ≢ u
      → set_plan o v p db ≡ some db'
      → lookup u db'.users ≡ lookup u db.users
  unfolding set_plan update_user_row
  set_plan-users v p db {db'} n h = elim (Option-cases (Plans.get_user o v db)) [
    | inl k ↦ cc (let f : ◌≡◌ {A = Option Db} none (some db') = ground (arith, h) in f)
    | inr (x, k) ↦ ground (
      arith,
      lookup-insert v u (record x { plan_id = p }) db.users,
      nat_eq.beq_iff v u,
      lookup v db.users,
    )
  ]

  downgrade-users :
      (v : ℕ) (db : Db) {db' : Db}
      → v ≢ u
      → downgrade_to_free_plan o v db ≡ some db'
      → lookup u db'.users ≡ lookup u db.users
  unfolding downgrade_to_free_plan
  downgrade-users v db {db'} n h = elim (Option-cases (free_plan o db)) [
    | inl k ↦ ground arith
    | inr (none, k) ↦ ground arith
    | inr (some p, k) ↦ set_plan-users v p db {db' = db'} n (ground arith)
  ]

  after_expiry-users :
      (id : ℕ) (s : Subscription) (w : State)
      → s.user_id ≢ u
      → lookup u (after_expiry o id s w).db.users ≡ lookup u w.db.users
  unfolding after_expiry
  after_expiry-users id s w n = elim (Option-cases (downgrade_to_free_plan o s.user_id w.db)) [
    | inl e ↦ rw (e, after_expiry)
    | inr (db', e) ↦ rw (e, after_expiry) (downgrade-users s.user_id w.db n e)
  ]

  pub expire_one-users :
      (w : State) (id : ℕ) (s : Subscription)
      → s.user_id ≢ u
      → lookup u (expire_one o w id s).db.users ≡ lookup u w.db.users
  unfolding expire_one update written
  expire_one-users w id s n =
      let s' = record s { status = expired; updated_at = o.now } in
      ground (arith, after_expiry-users id s' (record w { db = written o.now id s' w.db }) n)

  switch-users :
      (id : ℕ) (s : Subscription) (next : ℕ) (w : State)
      → s.user_id ≢ u
      → lookup u (switch o id s next w).db.users ≡ lookup u w.db.users
  unfolding switch update written
  switch-users id s next w n =
      let s' = record s { plan_id = next; next_plan_id = none; updated_at = o.now } in
      let db = written o.now id s' w.db in
      elim (Option-cases (set_plan o s.user_id next db)) [
        | inl k ↦ ground arith
        | inr (db', k) ↦ ground (arith, set_plan-users s.user_id next db n k)
      ]

  pub change_one-users :
      (w : State) (id : ℕ) (s : Subscription)
      → s.user_id ≢ u
      → lookup u (change_one o w id s).db.users ≡ lookup u w.db.users
  unfolding change_one
  change_one-users w id s n = elim (Option-cases s.next_plan_id) [
    | inl h ↦ ground arith
    | inr (next, h) ↦ rw (h, change_one) (switch-users id s next w n)
  ]

module _ (o : Outside) where
  handle_autopayment_success-users :
      (id : ℕ) (s : Subscription) (pid : ℕ) (p : Payment) (y : YooPayment) (plan : ℕ × Plan)
      (w : State)
      → (handle_autopayment_success o id s pid p y plan w).db.users ≡ w.db.users
  unfolding handle_autopayment_success update written Payments.update Payments.written
  handle_autopayment_success-users id s pid p y plan w = ground arith

  after_charge-users :
      (id : ℕ) (s : Subscription) (pid : ℕ) (p : Payment) (plan : ℕ × Plan) (y : Option YooPayment)
      (w : State)
      → (after_charge o id s pid p plan y w).db.users ≡ w.db.users
  unfolding after_charge Payments.update Payments.written
  after_charge-users id s pid p plan none w = ground arith
  after_charge-users id s pid p plan (some y) w =
      let p' = record p { yookassa_data = autopayment_created y } in
      ground (
        arith,
        handle_autopayment_success-users id s pid p' y plan
            (or_keep (Payments.update o pid p' w.db) w),
      )

  create-users :
      (p : Payment) (db : Db) {r : ℕ × Db} → Payments.create o p db ≡ some r → r.1.users ≡ db.users
  unfolding Payments.create
  create-users p db h = ground arith

  bill-users :
      (id : ℕ) (s : Subscription) (plan : ℕ × Plan) (w : State)
      → (bill o id s plan w).db.users ≡ w.db.users
  unfolding bill
  bill-users id s (plan_id, plan) w = elim (Option-cases (Payments.get_next_invoice_id o w.db)) [
    | inl h ↦ ground arith
    | inr (invoice, h) ↦
        let amount = o.to_rub plan.price in
        let p = new_payment id s invoice amount in
        elim (Option-cases (Payments.create o p w.db)) [
          | inl k ↦ ground arith
          | inr ((pid, db), k) ↦
              rw (h, bill, k)
                (after_charge-users id s pid p (plan_id, plan) (o.charge id s invoice amount)
                    (record w { db = db })
                  ∙ create-users p w.db k)
        ]
  ]

  renew_priced-users :
      (id : ℕ) (s : Subscription) (plan : Option Plan) (w : State)
      → (renew_priced o id s plan w).db.users ≡ w.db.users
  unfolding renew_priced
  renew_priced-users id s none w = refl
  renew_priced-users id s (some plan) w = ground (arith, bill-users id s (s.plan_id, plan) w)

  pub renew_one-users :
      (w : State) (id : ℕ) (s : Subscription) → (renew_one o w id s).db.users ≡ w.db.users
  unfolding renew_one
  renew_one-users w id s =
      ground (arith, renew_priced-users id s (Plans.get_by_id o s.plan_id w.db) w)
