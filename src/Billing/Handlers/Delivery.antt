-- ===== src/Billing/Handlers/Delivery.antt =====
-- Deliveries of the webhook of internal/api/handlers_payment.go, once and again.
use fxtun_dev.Base.{
  ℕ, ◌≡◌, refl, sym, ap, ◌∙◌, inl, inr, true, Option, none, some, List, [], ◌∷◌, arith, Bool-cases,
  Option-cases, nat_eq, ◌==◌,
}
use fxtun_dev.Base.Dict.{Dict, lookup, insert, Unique}
use fxtun_dev.Billing.{
  Subscription, Payment, success, payment_succeeded, YooPayment, Db, Outside, State, update_payment,
  select_invoice,
}
use fxtun_dev.Billing.Plans.{update_user_row}
use fxtun_dev.Billing.Subscriptions
use fxtun_dev.Billing.Subscriptions.{rewritten, write_row as write_subscription}
use fxtun_dev.Billing.Payments
use fxtun_dev.Billing.Payments.{write_row, find_invoice}
use fxtun_dev.Billing.Expiry.{set_plan}
use fxtun_dev.Billing.Handlers.{
  is_success, activate, activate_for, with_payment, handle_payment_succeeded,
}

find_invoice-lookup :
    (invoice pid : ℕ) (p : Payment) (m : Dict ℕ Payment)
    → Unique m
    → find_invoice invoice m ≡ some (pid, p)
    → (lookup pid m ≡ some p) × (p.invoice_id ≡ invoice)
unfolding find_invoice lookup
find_invoice-lookup invoice pid p [] u e = cc
find_invoice-lookup invoice pid p ((i, q) ∷ m) u e = elim (Bool-cases (q.invoice_id == invoice)) [
  | inl h ↦
      (ground (arith, nat_eq.beq_iff i pid), ground (arith, nat_eq.beq_iff q.invoice_id invoice))
  | inr h ↦
      let rest = find_invoice-lookup invoice pid p m u.1 (ground arith) in
      (ground (arith, rest, u.0, nat_eq.beq_iff i pid), rest.1)
]

find_invoice-insert :
    (invoice pid : ℕ) (p row : Payment) (m : Dict ℕ Payment)
    → Unique m
    → find_invoice invoice m ≡ some (pid, p)
    → row.invoice_id ≡ invoice
    → find_invoice invoice (insert pid row m) ≡ some (pid, row)
unfolding find_invoice insert
find_invoice-insert invoice pid p row [] u e r = cc
find_invoice-insert invoice pid p row ((i, q) ∷ m) u e r =
    elim (Bool-cases (q.invoice_id == invoice)) [
      | inl h ↦ ground (arith, nat_eq.beq_iff i pid, nat_eq.beq_iff row.invoice_id invoice)
      | inr h ↦
          let found : find_invoice invoice m ≡ some (pid, p) = ground arith in
          let rest = find_invoice-lookup invoice pid p m u.1 found in
          ground (
            arith,
            rest,
            u.0,
            find_invoice-insert invoice pid p row m u.1 found r,
            nat_eq.beq_iff i pid,
          )
    ]

module _ (o : Outside) (y : YooPayment) where
  set_plan-payments :
      (u p : ℕ) (db : Db) {db' : Db} → set_plan o u p db ≡ some db' → db'.payments ≡ db.payments
  unfolding set_plan update_user_row
  set_plan-payments u p db h = ground arith

  activate-payments :
      (id : ℕ) (s : Option Subscription) (w : State)
      → (activate o y id s w).db.payments ≡ w.db.payments
  unfolding activate update_user_row Subscriptions.update Subscriptions.written
  activate-payments id none w = refl
  activate-payments id (some s) w = ground arith

  activate_for-payments :
      (id : Option ℕ) (w : State) → (activate_for o y id w).db.payments ≡ w.db.payments
  unfolding activate_for
  activate_for-payments none w = refl
  activate_for-payments (some id) w = activate-payments id (Subscriptions.get_by_id o id w.db) w

  -- After a delivery that is answered with 200 the payment is found, and is a success.
  delivered :
      (invoice pid : ℕ) (p : Payment) (w : State)
      → Unique w.db.payments
      → find_invoice invoice w.db.payments ≡ some (pid, p)
      → (with_payment o y (some (pid, p)) w).1 ≡ 200
      → (p' : Payment) × (find_invoice invoice (with_payment o y (some (pid, p)) w).0.db.payments
          ≡ some (pid, p'))
        × (is_success p' ≡ true)
  unfolding with_payment Payments.update Payments.written write_row
  delivered invoice pid p w u e h =
      let p' = record p { status = success; yookassa_data = payment_succeeded y } in
      let w' = record w { db = Payments.written pid p' w.db } in
      let stored = find_invoice-lookup invoice pid p w.db.payments u e in
      elim (Bool-cases (is_success p)) [
        | inl k ↦ (p, ground arith, k)
        | inr k ↦ elim (Bool-cases (o.succeeds (update_payment pid success))) [
          | inl l ↦ (
            p',
            ground (
              arith,
              stored,
              activate_for-payments p.subscription_id w',
              find_invoice-insert invoice pid p p' w.db.payments u e stored.1,
            ),
            refl,
          )
          | inr l ↦ absurd (let f : ◌≡◌ {A = ℕ} 500 200 = ground arith in omega arith)
        ]
      ]

pub read_invoice :
    (scan : List ℕ → Option ℕ) (o : Outside) (y : YooPayment) (w : State) (text : List ℕ)
    (invoice : ℕ)
    → y.invoice_id ≡ some text
    → scan text ≡ some invoice
    → handle_payment_succeeded scan o y w
      ≡ with_payment o y (Payments.get_by_invoice_id o invoice w.db) w
unfolding handle_payment_succeeded
read_invoice scan o y w text invoice e r = ground arith

found_again :
    (o : Outside) (y : YooPayment) (w : State) (invoice pid : ℕ) (p : Payment)
    → find_invoice invoice w.db.payments ≡ some (pid, p)
    → is_success p ≡ true
    → o.succeeds (select_invoice invoice) ≡ true
    → with_payment o y (Payments.get_by_invoice_id o invoice w.db) w ≡ (w, 200)
unfolding with_payment Payments.get_by_invoice_id
found_again o y w invoice pid p e k q = rw (q, e, with_payment, k)

-- A notification that is delivered again at once changes nothing: if a delivery was answered with 200, then
-- one for the same invoice that is the next thing to happen is answered with 200 and leaves the whole state,
-- if it can read the invoice. (A payment has one row.)
pub redelivered_payment :
    (scan : List ℕ → Option ℕ) (o o' : Outside) (y y' : YooPayment) (w : State) (text : List ℕ)
    (invoice : ℕ)
    → Unique w.db.payments
    → y.invoice_id ≡ some text
    → y'.invoice_id ≡ some text
    → scan text ≡ some invoice
    → (handle_payment_succeeded scan o y w).1 ≡ 200
    → o'.succeeds (select_invoice invoice) ≡ true
    → handle_payment_succeeded scan o' y' (handle_payment_succeeded scan o y w).0
      ≡ ((handle_payment_succeeded scan o y w).0, 200)
unfolding Payments.get_by_invoice_id with_payment
redelivered_payment scan o o' y y' w text invoice u e e' r h q =
    let first = read_invoice scan o y w text invoice e r in
    let w1 = (handle_payment_succeeded scan o y w).0 in
    elim (Option-cases (Payments.get_by_invoice_id o invoice w.db)) [
      | inl k ↦ absurd (let f : ◌≡◌ {A = ℕ} 404 200 = ground (arith, first) in omega arith)
      | inr ((pid, p), k) ↦
          let found : find_invoice invoice w.db.payments ≡ some (pid, p) = ground arith in
          let same : handle_payment_succeeded scan o y w ≡ with_payment o y (some (pid, p)) w =
            first ∙ ap (λ r. with_payment o y r w) k in
          let d = delivered o y invoice pid p w u found (sym (ap (λ r. r.1) same) ∙ h) in
          let there : find_invoice invoice w1.db.payments ≡ some (pid, d.0) =
            ap (λ (r : State × ℕ). find_invoice invoice r.0.db.payments) same ∙ d.1 in
          read_invoice scan o' y' w1 text invoice e' r
          ∙ found_again o' y' w1 invoice pid d.0 there d.2 q
    ]
