-- ===== src/Billing/Handlers.antt =====
-- The webhook handlers of internal/api/handlers_payment.go. The text of the invoice id is read by
-- `fmt.Sscanf`, which is a parameter.
pub mod Delivery
pub mod Activation
use fxtun_dev.Base.{
  ℕ, zero, suc, ◌+◌, ◌-◌, ◌*◌, ◌/◌, ◌%◌, ◌^◌, ◌≤◌, ◌<◌, ◌≡◌, refl, sym, ap, ◌∙◌, ◌≢◌, ◌↔◌, ◌⊎◌, inl,
  inr, Bool, true, false, not, ◌&&◌, ◌||◌, Option, none, some, List, [], ◌∷◌, ◌++◌, map, arith, ltb,
  leb, eqb, if◌then◌else◌, ltb→lt, lt→ltb, leb→le, eqb_iff, Bool-cases, Option-cases, is_some, Eq,
  nat_eq, ◌==◌, length, get_elem?, set, take, drop, replicate, All, length-append, length-take,
  length-drop,
}
use fxtun_dev.Base.Dict.{Dict, lookup, insert, delete}
use fxtun_dev.Billing.{
  Subscription, active, Payment, success, failed, payment_succeeded, payment_canceled, YooPayment,
  User, Db, Outside, activated_action, State, log_audit,
}
use fxtun_dev.Billing.Plans
use fxtun_dev.Billing.Subscriptions
use fxtun_dev.Billing.Payments
use fxtun_dev.Billing.Expiry.{set_plan}
use fxtun_dev.Billing.Renewal.{or_keep, or_else}

abbrev is_success : Payment → Bool
is_success p = elim (p.status) [ success ↦ true | _ ↦ false ]

-- The subscription as the payment leaves it.
unfoldable pub activated : Outside → YooPayment → Subscription → Subscription
activated o y s = record s {
  status = active;
  current_period_start = some o.now;
  current_period_end = some (o.add_month o.now);
  yookassa_payment_method_id = or_else y.saved_method s.yookassa_payment_method_id;
  updated_at = o.now;
}

-- The rest of `handlePaymentSucceeded`, from the subscription's row on; failed writes are logged only.
unfoldable pub activate : Outside → YooPayment → ℕ → Option Subscription → State → State
unfolding activated set_plan log_audit
activate o y id none w = w
activate o y id (some s) w =
    let w' = or_keep (Subscriptions.update o id (activated o y s) w.db) w in
    log_audit activated_action s.user_id id s.plan_id
      (or_keep (set_plan o s.user_id s.plan_id w'.db) w')

unfoldable pub activate_for : Outside → YooPayment → Option ℕ → State → State
activate_for o y none w = w
activate_for o y (some id) w = activate o y id (Subscriptions.get_by_id o id w.db) w

unfoldable pub with_payment : Outside → YooPayment → Option (ℕ × Payment) → State → State × ℕ
with_payment o y none w = (w, 404)
with_payment o y (some (pid, p)) w =
    if is_success p
    then (w, 200)
    else let p' = record p { status = success; yookassa_data = payment_succeeded y } in
      elim (Payments.update o pid p' w.db) [
        | none ↦ (w, 500)
        | some db ↦ (activate_for o y p.subscription_id (record w { db = db }), 200)
      ]

-- The result is the state and the code of the answer.
unfoldable pub handle_payment_succeeded :
    (List ℕ → Option ℕ) → Outside → YooPayment → State → State × ℕ
handle_payment_succeeded scan o y w = elim (y.invoice_id) [
  | none ↦ (w, 400)
  | some text ↦ elim (scan text) [
    | none ↦ (w, 400)
    | some invoice ↦ with_payment o y (Payments.get_by_invoice_id o invoice w.db) w
  ]
]

unfoldable pub cancel_payment : Outside → YooPayment → Option (ℕ × Payment) → State → State
cancel_payment o y none w = w
cancel_payment o y (some (pid, p)) w =
    or_keep
      (Payments.update o pid (record p { status = failed; yookassa_data = payment_canceled y })
        w.db)
      w

unfoldable pub handle_payment_canceled :
    (List ℕ → Option ℕ) → Outside → YooPayment → State → State × ℕ
handle_payment_canceled scan o y w = elim (y.invoice_id) [
  | none ↦ (w, 200)
  | some text ↦ elim (scan text) [
    | none ↦ (w, 200)
    | some invoice ↦ (cancel_payment o y (Payments.get_by_invoice_id o invoice w.db) w, 200)
  ]
]

pub data WebhookEvent : Type 0 where
  succeeded_event canceled_event waiting_event other_event : YooPayment → WebhookEvent

unfoldable pub dispatch : (List ℕ → Option ℕ) → Outside → WebhookEvent → State → State × ℕ
dispatch scan o (succeeded_event y) w = handle_payment_succeeded scan o y w
dispatch scan o (canceled_event y) w = handle_payment_canceled scan o y w
dispatch scan o (waiting_event y) w = (w, 200)
dispatch scan o (other_event y) w = (w, 200)

-- What the handler reads of a request: whether its address is YooKassa's, and its event, if the body can
-- be read and parsed.
pub record Webhook : Type 0 where
  pub from_yookassa : Bool
  pub event : Option WebhookEvent

unfoldable pub handle_payment_webhook :
    (List ℕ → Option ℕ) → Bool → Outside → Webhook → State → State × ℕ
handle_payment_webhook scan test_mode o r w =
    if not o.yookassa_enabled
    then (w, 503)
    else if not test_mode && not r.from_yookassa
    then (w, 403)
    else elim (r.event) [ none ↦ (w, 400) | some event ↦ dispatch scan o event w ]
