-- ===== src/Billing/Renewal.antt =====
-- processRecurringRenewals and handleAutopaymentSuccess of internal/scheduler/scheduler.go. The charge
-- by createAutopayment is what the outside answers.
use fxtun_dev.Base.{
  ℕ, ◌+◌, Bool, true, false, not, ◌&&◌, ◌||◌, Option, none, some, List, [], ◌∷◌, if◌then◌else◌,
  nat_eq, ◌==◌,
}
use fxtun_dev.Base.Int.{ℤ, pos, negsuc}
use fxtun_dev.Base.Dict.{Dict}
use fxtun_dev.Base.Tables.{each}
use fxtun_dev.Billing.{
  Subscription, active, Payment, unpaid, success, failed, no_data, autopayment_created,
  autopayment_paid, YooPayment, Plan, Db, Outside, select_expiring, subscription_renewed,
  subscription_renew_failed, renewed_action, State, log_audit, emit,
}
use fxtun_dev.Billing.Plans
use fxtun_dev.Billing.Subscriptions
use fxtun_dev.Billing.Payments

abbrev pub is_free : ℤ → Bool
is_free (pos n) = n == 0
is_free (negsuc n) = true

-- A write whose error is ignored.
abbrev pub or_keep : Option Db → State → State
or_keep none w = w
or_keep (some db) w = record w { db = db }

abbrev pub or_else {ℓ} : {A : Type ℓ} → Option A → Option A → Option A
or_else none o = o
or_else (some a) o = some a

unfoldable pub handle_autopayment_success :
    Outside → ℕ → Subscription → ℕ → Payment → YooPayment → ℕ × Plan → State → State
unfolding log_audit emit
handle_autopayment_success o id s pid p y plan w =
    let p' = record p { status = success; yookassa_data = autopayment_paid y } in
    let w' = or_keep (Payments.update o pid p' w.db) w in
    let s' = record s {
      current_period_start = some o.now;
      current_period_end = some (o.add_month o.now);
      status = active;
      yookassa_payment_method_id = or_else y.saved_method s.yookassa_payment_method_id;
      updated_at = o.now;
    } in
    elim (Subscriptions.update o id s' w'.db) [
      | none ↦ w'
      | some db ↦
          emit
            (record {
              type = subscription_renewed;
              user_id = s.user_id;
              subscription = (id, s');
              plan = some plan;
              days_left = 0;
            })
            (log_audit renewed_action s.user_id id s.plan_id (record w' { db = db }))
    ]

-- The answer of YooKassa to the charge for the payment `pid`.
unfoldable pub after_charge :
    Outside → ℕ → Subscription → ℕ → Payment → ℕ × Plan → Option YooPayment → State → State
unfolding handle_autopayment_success emit
after_charge o id s pid p plan none w =
    emit
      (record {
        type = subscription_renew_failed;
        user_id = s.user_id;
        subscription = (id, s);
        plan = some plan;
        days_left = 0;
      })
      (or_keep (Payments.update o pid (record p { status = failed }) w.db) w)
after_charge o id s pid p plan (some y) w =
    let p' = record p { yookassa_data = autopayment_created y } in
    let w' = or_keep (Payments.update o pid p' w.db) w in
    if y.succeeded then handle_autopayment_success o id s pid p' y plan w' else w'

abbrev pub has_method : Option (List ℕ) → Bool
has_method none = false
has_method (some []) = false
has_method (some (c ∷ cs)) = true

abbrev pub no_pending : Option (Dict ℕ Payment) → Bool
no_pending none = false
no_pending (some []) = true
no_pending (some (r ∷ rs)) = false

unfoldable pub new_payment : ℕ → Subscription → ℕ → ℤ → Payment
new_payment id s invoice amount = record {
  user_id = s.user_id;
  subscription_id = some id;
  invoice_id = invoice;
  amount = amount;
  status = unpaid;
  is_recurring = true;
  yookassa_data = no_data;
  created_at = 0;
}

-- From the invoice id on.
unfoldable pub bill : Outside → ℕ → Subscription → ℕ × Plan → State → State
bill o id s (plan_id, plan) w = elim (Payments.get_next_invoice_id o w.db) [
  | none ↦ w
  | some invoice ↦
      let amount = o.to_rub plan.price in
      let p = new_payment id s invoice amount in
      elim (Payments.create o p w.db) [
        | none ↦ w
        | some (pid, db) ↦
            after_charge o id s pid p (plan_id, plan) (o.charge id s invoice amount)
              (record w { db = db })
      ]
]

unfoldable pub renew_priced : Outside → ℕ → Subscription → Option Plan → State → State
renew_priced o id s none w = w
renew_priced o id s (some plan) w =
    if is_free plan.price then w else bill o id s (s.plan_id, plan) w

unfoldable pub renew_one : Outside → State → ℕ → Subscription → State
renew_one o w id s =
    if not s.recurring || not (has_method s.yookassa_payment_method_id)
    then w
    else if not (no_pending (Payments.get_pending_by_subscription_id o id w.db))
    then w
    else renew_priced o id s (Plans.get_by_id o s.plan_id w.db) w

abbrev hour : ℕ
hour = 3600

unfoldable pub process_recurring_renewals : Outside → State → State
process_recurring_renewals o w =
    if o.yookassa_enabled && o.succeeds select_expiring
    then each (renew_one o) w (Subscriptions.get_expiring (o.now + hour) w.db)
    else w
