-- ===== src/Billing/Requests.antt =====
-- The user's handlers of internal/api/handlers_payment.go: checkout, the end of the renewals and the
-- change of the plan. The user of the request's context is an argument, `none` without one; a body that
-- cannot be decoded is `none`.
pub mod Cancelling
use fxtun_dev.Base.Bytes.{bytes_eq}
use fxtun_dev.Base.{
  ℕ, zero, suc, ◌+◌, ◌-◌, ◌*◌, ◌/◌, ◌%◌, ◌^◌, ◌≤◌, ◌<◌, ◌≡◌, refl, sym, ap, ◌∙◌, ◌≢◌, ◌↔◌, ◌⊎◌, inl,
  inr, Bool, true, false, not, ◌&&◌, ◌||◌, Option, none, some, List, [], ◌∷◌, ◌++◌, map, arith, ltb,
  leb, eqb, if◌then◌else◌, ltb→lt, lt→ltb, leb→le, eqb_iff, Bool-cases, Option-cases, is_some, Eq,
  nat_eq, ◌==◌, length, get_elem?, set, take, drop, replicate, All, length-append, length-take,
  length-drop,
}
use fxtun_dev.Base.Int.{ℤ, pos, negsuc}
use fxtun_dev.Base.Dict.{Dict, lookup, insert, delete}
use fxtun_dev.Billing.{
  Subscription, pending, cancelled, is_active, Payment, unpaid, no_data, checkout_created,
  YooPayment, Plan, Db, Outside, cancelled_action, change_scheduled_action, initiated_action, State,
  log_audit,
}
use fxtun_dev.Billing.Plans
use fxtun_dev.Billing.Subscriptions
use fxtun_dev.Billing.Payments
use fxtun_dev.Billing.Renewal.{or_keep, is_free}

pub record ContextUser : Type 0 where
  pub id : ℕ
  pub is_admin : Bool

pub data Reply : Type 0 where
  error_reply : ℕ → Reply
  will_not_renew change_removed change_scheduled : Reply
  checkout_reply : List ℕ → ℕ → Reply

unfoldable pub cancel_row : Outside → ContextUser → ℕ → Subscription → State → State × Reply
unfolding log_audit
cancel_row o user id s w =
    if not (is_active s.status)
    then (w, error_reply 400)
    else let s' = record s {
      status = cancelled;
      recurring = false;
      yookassa_payment_method_id = none;
      updated_at = o.now;
    } in
      elim (Subscriptions.update o id s' w.db) [
        | none ↦ (w, error_reply 500)
        | some db ↦
            (log_audit cancelled_action user.id id s.plan_id (record w { db = db }), will_not_renew)
      ]

unfoldable pub handle_cancel_subscription : Outside → Option ContextUser → State → State × Reply
handle_cancel_subscription o none w = (w, error_reply 401)
handle_cancel_subscription o (some user) w = elim (Subscriptions.get_by_user_id o user.id w.db) [
  | none ↦ (w, error_reply 500)
  | some none ↦ (w, error_reply 404)
  | some (some (id, s)) ↦ cancel_row o user id s w
]

unfoldable pub change_row : Outside → ContextUser → ℕ → ℕ → Subscription → State → State × Reply
unfolding log_audit
change_row o user plan id s w =
    if not (is_active s.status)
    then (w, error_reply 400)
    else if s.plan_id == plan
    then elim (Subscriptions.update o id (record s { next_plan_id = none; updated_at = o.now })
        w.db) [ none ↦ (w, error_reply 500) | some db ↦ (record w { db = db }, change_removed) ]
    else elim (Subscriptions.update o id (record s { next_plan_id = some plan; updated_at = o.now })
        w.db) [
          | none ↦ (w, error_reply 500)
          | some db ↦ (
            log_audit change_scheduled_action user.id id s.plan_id (record w { db = db }),
            change_scheduled,
          )
        ]

change_for : Outside → ContextUser → ℕ → Option (Option (ℕ × Subscription)) → State → State × Reply
unfolding change_row
change_for o user plan none w = (w, error_reply 500)
change_for o user plan (some none) w = (w, error_reply 400)
change_for o user plan (some (some (id, s))) w = change_row o user plan id s w

unfoldable pub handle_change_plan : Outside → Option ContextUser → Option ℕ → State → State × Reply
unfolding change_for
handle_change_plan o none req w = (w, error_reply 401)
handle_change_plan o (some user) none w = (w, error_reply 400)
handle_change_plan o (some user) (some plan) w = elim (Plans.get_by_id o plan w.db) [
  | none ↦ (w, error_reply 400)
  | some new_plan ↦
      if not new_plan.is_public && not user.is_admin
      then (w, error_reply 403)
      else change_for o user plan (Subscriptions.get_by_user_id o user.id w.db) w
]

pub record CheckoutRequest : Type 0 where
  pub plan_id : ℕ
  pub recurring : Bool

-- YooKassa's answer to a new payment: the payment and the URL where it is confirmed, empty without one.
abbrev Answer : Type 0
Answer = Option (YooPayment × List ℕ)

unfoldable pub pending_subscription : ContextUser → CheckoutRequest → Subscription
pending_subscription user req = record {
  user_id = user.id;
  plan_id = req.plan_id;
  next_plan_id = none;
  status = pending;
  recurring = req.recurring;
  current_period_start = none;
  current_period_end = none;
  yookassa_payment_method_id = none;
  created_at = 0;
  updated_at = 0;
}

unfoldable pub pending_payment : ContextUser → CheckoutRequest → ℕ → ℕ → ℤ → Payment
pending_payment user req sub invoice amount = record {
  user_id = user.id;
  subscription_id = some sub;
  invoice_id = invoice;
  amount = amount;
  status = unpaid;
  is_recurring = req.recurring;
  yookassa_data = no_data;
  created_at = 0;
}

answered : Outside → ContextUser → ℕ → ℕ → ℕ → Payment → Answer → State → State × Reply
unfolding log_audit
answered o user plan sub pid p none w = (w, error_reply 500)
answered o user plan sub pid p (some (y, url)) w =
    let w' =
      or_keep (Payments.update o pid (record p { yookassa_data = checkout_created y }) w.db) w in
    if url == []
    then (w', error_reply 500)
    else (log_audit initiated_action user.id sub plan w', checkout_reply url p.invoice_id)

-- From the invoice id on.
unfoldable pub open_payment :
    (ℕ → ℤ → Answer) → Outside → ContextUser → CheckoutRequest → Plan → ℕ → State → State × Reply
unfolding answered pending_subscription pending_payment
open_payment ask o user req plan invoice w =
    elim (Subscriptions.create o (pending_subscription user req) w.db) [
      | none ↦ (w, error_reply 500)
      | some (sub, db) ↦
          let amount = o.to_rub plan.price in
          let p = pending_payment user req sub invoice amount in
          elim (Payments.create o p db) [
            | none ↦ (record w { db = db }, error_reply 500)
            | some (pid, db') ↦
                answered o user req.plan_id sub pid p (ask invoice amount) (record w { db = db' })
          ]
    ]

-- The handler ignores an error of this query.
has_active : Option (Option (ℕ × Subscription)) → Bool
has_active none = false
has_active (some none) = false
has_active (some (some (id, s))) = is_active s.status

checkout_plan :
    (ℕ → ℤ → Answer) → Outside → ContextUser → CheckoutRequest → Plan → State → State × Reply
unfolding has_active open_payment
checkout_plan ask o user req plan w =
    if not plan.is_public && not user.is_admin
    then (w, error_reply 403)
    else if is_free plan.price
    then (w, error_reply 400)
    else if has_active (Subscriptions.get_by_user_id o user.id w.db)
    then (w, error_reply 400)
    else elim (Payments.get_next_invoice_id o w.db) [
      | none ↦ (w, error_reply 500)
      | some invoice ↦ open_payment ask o user req plan invoice w
    ]

-- `enabled` is the result of isPaymentEnabledForDomain; `ask` is YooKassa.
unfoldable pub handle_checkout :
    (ℕ → ℤ → Answer)
    → Bool
    → Outside
    → Option ContextUser
    → Option CheckoutRequest
    → State
    → State × Reply
unfolding checkout_plan has_active open_payment
handle_checkout ask enabled o none req w = (w, error_reply 401)
handle_checkout ask enabled o (some user) req w =
    if not enabled then (w, error_reply 503) else elim req [
      | none ↦ (w, error_reply 400)
      | some r ↦ elim (Plans.get_by_id o r.plan_id w.db) [
        | none ↦ (w, error_reply 400)
        | some plan ↦ checkout_plan ask o user r plan w
      ]
    ]
