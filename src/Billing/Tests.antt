-- ===== src/Billing/Tests.antt =====
-- A run of the scheduler and deliveries of the webhook on a small database, and the theorems at it.
use fxtun_dev.Base.{
  ℕ, ◌+◌, ◌*◌, ◌≡◌, refl, true, false, Option, none, some, List, [], ◌∷◌, arith, if◌then◌else◌,
  nat_eq, ◌==◌,
}
use fxtun_dev.Base.Int.{pos}
use fxtun_dev.Base.Bytes.{bytes_eq, codes}
use fxtun_dev.Base.Dict.{Dict, lookup}
use fxtun_dev.Base.Tables.{select}
use fxtun_dev.Billing.{
  Subscription, active, expired, Payment, unpaid, no_data, YooPayment, Plan, User, Outside, State,
}
use fxtun_dev.Billing.Plans
use fxtun_dev.Billing.Payments.{find_invoice, delete_stale_pending}
use fxtun_dev.Billing.Payments.Cleanup.{Refers}
use fxtun_dev.Billing.Expiry.{free_plan, process_expired_subscriptions}
use fxtun_dev.Billing.Expiry.Effect.{settle, lookup-process_expired}
use fxtun_dev.Billing.Expiry.Downgrade.{Works, plan_of, process_expired-downgrades}
use fxtun_dev.Billing.Changes.{run_checks, runs}
use fxtun_dev.Billing.Unpaid.{expired_gets_next_plan}
use fxtun_dev.Billing.Handlers.{handle_payment_succeeded}
use fxtun_dev.Billing.Handlers.Activation.{payment_succeeded_activates}
use fxtun_dev.Billing.Handlers.Delivery.{redelivered_payment}
use fxtun_dev.Billing.Requests.{ContextUser, will_not_renew, handle_cancel_subscription}
use fxtun_dev.Billing.Requests.Cancelling.{cancelled_row, cancelled_keeps_plan}
use fxtun_dev.Billing.Domains.{PaymentDomainSettings}

-- A time with every statement working and YooKassa off.
abbrev at : ℕ → Outside
at t = record {
  now = t;
  add_month = λ d. d + 2592000;
  add_days = λ n d. d + n * 86400;
  succeeds = λ st. true;
  to_rub = λ usd. usd;
  charge = λ id s invoice amount. none;
  yookassa_enabled = false;
}

abbrev works : (t : ℕ) → Works (at t)
works t st = refl

-- Paid until 500, with the plan 2.
abbrev paid : Option ℕ → Subscription
paid next = record {
  user_id = 7;
  plan_id = 2;
  next_plan_id = next;
  status = active;
  recurring = false;
  current_period_start = some 100;
  current_period_end = some 500;
  yookassa_payment_method_id = none;
  created_at = 100;
  updated_at = 100;
}

abbrev invoice : Payment
invoice = record {
  user_id = 7;
  subscription_id = some 4;
  invoice_id = 100001;
  amount = pos 500;
  status = unpaid;
  is_recurring = false;
  yookassa_data = no_data;
  created_at = 90;
}

abbrev customer : User
customer = record { plan_id = 2; is_admin = false }

abbrev business : Plan
business = record { slug = codes "business"; price = pos 900; is_public = true }

abbrev shop : Option ℕ → State
shop next = record {
  db = record {
    users = (7, customer) ∷ [];
    plans =
        (1, record { slug = codes "free"; price = pos 0; is_public = true })
        ∷ (2, record { slug = codes "pro"; price = pos 500; is_public = true })
        ∷ (3, business)
        ∷ [];
    subscriptions = (4, paid next) ∷ [];
    payments = (5, invoice) ∷ [];
    next_subscription = 6;
    next_payment = 6;
  };
  audit = [];
  events = [];
}

only_four :
    (next : Option ℕ) (j : ℕ) (t : Subscription)
    → lookup j (shop next).db.subscriptions ≡ some t
    → j ≡ 4
unfolding lookup
only_four next j t e = ground (arith, nat_eq.beq_iff 4 j)

abbrev only :
    (next : Option ℕ) (j : ℕ) (t : Subscription)
    → lookup j (shop next).db.subscriptions ≡ some t
    → t.user_id ≡ 7
    → j ≡ 4
only next j t e h = only_four next j t e

expired_row :
    lookup 4 (process_expired_subscriptions (at 600) (shop none)).db.subscriptions
    ≡ some (settle (at 600) 4 (paid none))
unfolding lookup
expired_row = lookup-process_expired (at 600) 4 (shop none) (refl, tt)

back_to_free : plan_of 7 (process_expired_subscriptions (at 600) (shop none)).db ≡ some 1
unfolding lookup free_plan Plans.get_by_slug
back_to_free =
    process_expired-downgrades (at 600) (works 600) (shop none) 4 1 (paid none) (refl, tt) refl refl
      refl refl refl refl

upgraded_for_nothing :
    (lookup 4 (process_expired_subscriptions (at 600) (shop (some 3))).db.subscriptions
      ≡ some (record (paid (some 3)) { status = expired; updated_at = 600 }))
    × (plan_of 7 (run_checks (at 600) (shop (some 3))).db ≡ some 3)
unfolding lookup
upgraded_for_nothing =
    expired_gets_next_plan (at 600) (works 600) (shop (some 3)) 4 3 (paid (some 3)) business
      (refl, tt) refl (only (some 3)) refl refl refl refl refl refl refl

abbrev user : ContextUser
user = record { id = 7; is_admin = false }

paid_for_ever :
    ((handle_cancel_subscription (at 300) (some user) (shop none)).1 ≡ will_not_renew)
    × (lookup 4
          (runs
            (at 600 ∷ at 9000000 ∷ [])
            (handle_cancel_subscription (at 300) (some user) (shop none)).0).db.subscriptions
        ≡ some (cancelled_row (at 300) (paid none)))
    × (lookup 7
          (runs
            (at 600 ∷ at 9000000 ∷ [])
            (handle_cancel_subscription (at 300) (some user) (shop none)).0).db.users
        ≡ lookup 7 (shop none).db.users)
unfolding lookup
paid_for_ever =
    cancelled_keeps_plan (at 300) (works 300) user (shop none) 4 (paid none) (refl, tt) refl refl
      (only none) refl refl (at 600 ∷ at 9000000 ∷ [])

abbrev text : List ℕ
text = codes "100001"

abbrev scan : List ℕ → Option ℕ
scan s = if s == text then some 100001 else none

abbrev yoo : YooPayment
yoo = record {
  id = codes "y1";
  succeeded = true;
  paid = true;
  saved_method = none;
  invoice_id = some text;
}

paid_again :
    ((handle_payment_succeeded scan (at 700) yoo (shop none)).1 ≡ 200)
    × (lookup 4 (handle_payment_succeeded scan (at 700) yoo (shop none)).0.db.subscriptions
        ≡ some (record (paid none) {
          status = active;
          current_period_start = some 700;
          current_period_end = some 2592700;
          yookassa_payment_method_id = (paid none).yookassa_payment_method_id;
          updated_at = 700;
        }))
    × (plan_of 7 (handle_payment_succeeded scan (at 700) yoo (shop none)).0.db ≡ some 2)
unfolding lookup find_invoice
paid_again =
    payment_succeeded_activates (at 700) (works 700) yoo scan (shop none) text 100001 5 4 invoice
      (paid none) customer refl refl refl refl refl refl refl

delivered_twice :
    handle_payment_succeeded scan
      (at 800)
      yoo
      (handle_payment_succeeded scan (at 700) yoo (shop none)).0
    ≡ ((handle_payment_succeeded scan (at 700) yoo (shop none)).0, 200)
unfolding lookup
delivered_twice =
    redelivered_payment scan (at 700) (at 800) yoo yoo (shop none) text 100001 (refl, tt) refl refl
      refl paid_again.0 refl

references : Refers (shop none).db
unfolding lookup
references i p id e h = ground (arith, nat_eq.beq_iff 5 i, nat_eq.beq_iff 4 id)

-- The stale payment goes, and its subscription, which is active, stays.
cleaned : (delete_stale_pending (at 90000) 3600 (shop none).db).payments ≡ []
unfolding delete_stale_pending select
cleaned = refl

abbrev off : Dict (List ℕ) PaymentDomainSettings
off = (codes "a.b", record { enabled = false; message = [] }) ∷ []

abbrev host : List ℕ
host = codes "c.d"
