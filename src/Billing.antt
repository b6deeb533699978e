-- ===== src/Billing.antt =====
-- The rows of internal/database/models.go that billing reads and writes, the state that the scheduler
-- and the payment handlers share, and what they ask of the outside.
pub mod Plans
pub mod Subscriptions
pub mod Payments
pub mod Expiry
pub mod Renewal
pub mod Changes
pub mod Handlers
pub mod Requests
pub mod Domains
pub mod Touches
pub mod Quiet
pub mod UserRows
pub mod Forever
pub mod Unpaid
mod Tests
use fxtun_dev.Base.{
  ℕ, zero, suc, ◌+◌, ◌-◌, ◌*◌, ◌/◌, ◌%◌, ◌^◌, ◌≤◌, ◌<◌, ◌≡◌, refl, sym, ap, ◌∙◌, ◌≢◌, ◌↔◌, ◌⊎◌, inl,
  inr, Bool, true, false, not, ◌&&◌, ◌||◌, Option, none, some, List, [], ◌∷◌, ◌++◌, map, arith, ltb,
  leb, eqb, if◌then◌else◌, ltb→lt, lt→ltb, leb→le, eqb_iff, Bool-cases, Option-cases, is_some, Eq,
  nat_eq, ◌==◌, length, get_elem?, set, take, drop, replicate, All, length-append, length-take,
  length-drop,
}
use fxtun_dev.Base.Int.{ℤ, pos, negsuc}
use fxtun_dev.Base.Dict.{Dict}

pub data SubscriptionStatus : Type 0 where
  pending active cancelled expired : SubscriptionStatus

-- Times are in seconds; the id of a row is its key in the table.
pub record Subscription : Type 0 where
  pub user_id : ℕ
  pub plan_id : ℕ
  pub next_plan_id : Option ℕ
  pub status : SubscriptionStatus
  pub recurring : Bool
  pub current_period_start : Option ℕ
  pub current_period_end : Option ℕ
  pub yookassa_payment_method_id : Option (List ℕ)
  pub created_at : ℕ
  pub updated_at : ℕ

-- `Subscription.IsActive`.
abbrev pub is_active : SubscriptionStatus → Bool
is_active active = true
is_active pending = false
is_active cancelled = false
is_active expired = false

-- `status IN ('active', 'cancelled')`.
abbrev pub is_current : SubscriptionStatus → Bool
is_current active = true
is_current cancelled = true
is_current pending = false
is_current expired = false

abbrev pub is_pending : SubscriptionStatus → Bool
is_pending pending = true
is_pending active = false
is_pending cancelled = false
is_pending expired = false

pub data PaymentStatus : Type 0 where
  unpaid success failed : PaymentStatus

abbrev pub is_unpaid : PaymentStatus → Bool
is_unpaid unpaid = true
is_unpaid success = false
is_unpaid failed = false

-- The payment that YooKassa reports: the saved payment method, if it has one that is saved, and the
-- text of `metadata["invoice_id"]`.
pub record YooPayment : Type 0 where
  pub id : List ℕ
  pub succeeded : Bool
  pub paid : Bool
  pub saved_method : Option (List ℕ)
  pub invoice_id : Option (List ℕ)

-- The structure that is printed as JSON into `yookassa_data`.
pub data YooData : Type 0 where
  no_data : YooData
  autopayment_created autopayment_paid payment_succeeded payment_canceled checkout_created :
      YooPayment → YooData

pub record Payment : Type 0 where
  pub user_id : ℕ
  pub subscription_id : Option ℕ
  pub invoice_id : ℕ
  pub amount : ℤ
  pub status : PaymentStatus
  pub is_recurring : Bool
  pub yookassa_data : YooData
  pub created_at : ℕ

-- The price is in hundredths.
pub record Plan : Type 0 where
  pub slug : List ℕ
  pub price : ℤ
  pub is_public : Bool

pub record User : Type 0 where
  pub plan_id : ℕ
  pub is_admin : Bool

-- AUTOINCREMENT gives the next ids.
pub record Db : Type 0 where
  pub users : Dict ℕ User
  pub plans : Dict ℕ Plan
  pub subscriptions : Dict ℕ Subscription
  pub payments : Dict ℕ Payment
  pub next_subscription : ℕ
  pub next_payment : ℕ

-- The statements that may fail, with the id that tells two of a kind apart.
pub data Statement : Type 0 where
  select_slug select_plans select_expired select_expiring select_plan_changes : Statement
  select_max_invoice delete_stale_subscriptions delete_stale_payments : Statement
  select_plan select_user select_subscription select_current select_unpaid : ℕ → Statement
  select_invoice select_reminders update_user update_subscription : ℕ → Statement
  insert_subscription insert_payment : ℕ → Statement
  update_payment : ℕ → PaymentStatus → Statement

-- What one run is given: the time, the calendar, which statements succeed, the exchange rate and the
-- answer of YooKassa to a charge (for a subscription, its plan, an invoice id and an amount).
pub record Outside : Type 0 where
  pub now : ℕ
  pub add_month : ℕ → ℕ
  pub add_days : ℕ → ℕ → ℕ
  pub succeeds : Statement → Bool
  pub to_rub : ℤ → ℤ
  pub charge : ℕ → Subscription → ℕ → ℤ → Option YooPayment
  pub yookassa_enabled : Bool

pub data EventType : Type 0 where
  subscription_expiring subscription_expired subscription_renewed : EventType
  subscription_renew_failed plan_changed : EventType

pub record Event : Type 0 where
  pub type : EventType
  pub user_id : ℕ
  pub subscription : ℕ × Subscription
  pub plan : Option (ℕ × Plan)
  pub days_left : ℕ

-- An entry of the audit log: the action, the user, the subscription and the plan.
pub data Action : Type 0 where
  expired_action renewed_action changed_action activated_action cancelled_action : Action
  change_scheduled_action initiated_action : Action

pub record State : Type 0 where
  pub db : Db
  pub audit : List (Action × ℕ × ℕ × ℕ)
  pub events : List Event

-- `Audit.Log`, whose failure is ignored, and `emit`.
unfoldable pub log_audit : Action → ℕ → ℕ → ℕ → State → State
log_audit action user sub plan w = record w { audit = (action, user, sub, plan) ∷ w.audit }

unfoldable pub emit : Event → State → State
emit event w = record w { events = event ∷ w.events }
