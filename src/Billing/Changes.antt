-- ===== src/Billing/Changes.antt =====
-- applyPlanChanges, sendExpirationReminders, cleanupStalePendingPayments and runChecks of
-- internal/scheduler/scheduler.go.
use fxtun_dev.Base.{ℕ, ◌-◌, Option, none, some, List, [], ◌∷◌, if◌then◌else◌, nat_eq}
use fxtun_dev.Base.Tables.{each}
use fxtun_dev.Billing.{
  Subscription, Plan, Outside, select_plan_changes, select_reminders, plan_changed,
  subscription_expiring, changed_action, State, log_audit, emit,
}
use fxtun_dev.Billing.Plans
use fxtun_dev.Billing.Subscriptions
use fxtun_dev.Billing.Payments
use fxtun_dev.Billing.Expiry.{set_plan, process_expired_subscriptions}
use fxtun_dev.Billing.Renewal.{or_keep, process_recurring_renewals}

-- The round for a row whose next plan is `next`.
unfoldable pub switch : Outside → ℕ → Subscription → ℕ → State → State
unfolding set_plan log_audit emit
switch o id s next w = elim (Plans.get_by_id o next w.db) [
  | none ↦ w
  | some plan ↦
      let s' = record s { plan_id = next; next_plan_id = none; updated_at = o.now } in
      elim (Subscriptions.update o id s' w.db) [
        | none ↦ w
        | some db ↦
            emit
              (record {
                type = plan_changed;
                user_id = s.user_id;
                subscription = (id, s');
                plan = some (next, plan);
                days_left = 0;
              })
              (log_audit changed_action s.user_id id next
                (or_keep (set_plan o s.user_id next db) (record w { db = db })))
      ]
]

unfoldable pub change_one : Outside → State → ℕ → Subscription → State
unfolding switch
change_one o w id s = elim (s.next_plan_id) [ none ↦ w | some next ↦ switch o id s next w ]

unfoldable pub apply_plan_changes : Outside → State → State
apply_plan_changes o w =
    if o.succeeds select_plan_changes
    then each (change_one o) w (Subscriptions.get_with_pending_plan_change o.now w.db)
    else w

with_id : ℕ → Option Plan → Option (ℕ × Plan)
with_id id none = none
with_id id (some p) = some (id, p)

unfoldable pub remind_one : Outside → ℕ → State → ℕ → Subscription → State
unfolding emit with_id
remind_one o days w id s =
    emit
      (record {
        type = subscription_expiring;
        user_id = s.user_id;
        subscription = (id, s);
        plan = with_id s.plan_id (Plans.get_by_id o s.plan_id w.db);
        days_left = days;
      })
      w

unfoldable pub check_expiring_subscriptions : Outside → ℕ → State → State
check_expiring_subscriptions o days w =
    if o.succeeds (select_reminders days)
    then each (remind_one o days) w (Subscriptions.get_for_renewal_reminder o days w.db)
    else w

unfoldable pub send_expiration_reminders : Outside → State → State
send_expiration_reminders o w =
    check_expiring_subscriptions o 1 (check_expiring_subscriptions o 3 w)

abbrev day : ℕ
day = 86400

unfoldable pub cleanup_stale_pending_payments : Outside → State → State
cleanup_stale_pending_payments o w = record w {
  db = Payments.delete_stale_pending o (o.now - day) w.db;
}

-- Each step reads the tables that the one before has left.
unfoldable pub run_checks : Outside → State → State
run_checks o w =
    let w1 = process_expired_subscriptions o w in
    let w2 = process_recurring_renewals o w1 in
    let w3 = apply_plan_changes o w2 in
    let w4 = send_expiration_reminders o w3 in cleanup_stale_pending_payments o w4

-- The runs of `Start`, in their order.
unfoldable pub runs : List Outside → State → State
runs [] w = w
runs (o ∷ os) w = runs os (run_checks o w)
