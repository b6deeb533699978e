-- ===== src/Billing/Forever.antt =====
-- Runs of the scheduler (internal/scheduler/scheduler.go) over subscriptions that are cancelled.
use fxtun_dev.Billing.{delete_stale_subscriptions}
use fxtun_dev.Billing.Payments.{named, is_stale}
use fxtun_dev.Billing.{select_reminders}
use fxtun_dev.Billing.{select_expired, select_expiring, select_plan_changes, is_pending}
use fxtun_dev.Base.Tables.{keep}
use fxtun_dev.Billing.UserRows.{expire_one-users, change_one-users, renew_one-users}
use fxtun_dev.Billing.Payments.{delete_stale_pending}
use fxtun_dev.Base.{
  ℕ, ◌+◌, ◌-◌, ◌≡◌, refl, sym, ap, ◌∙◌, inl, inr, Bool, false, not, ◌&&◌, Option, none, some, List,
  [], ◌∷◌, arith, Bool-cases, nat_eq,
}
use fxtun_dev.Base.Dict.{Dict, lookup, Unique}
use fxtun_dev.Base.Sets.{contains}
use fxtun_dev.Base.Tables.{select, each_inv}
use fxtun_dev.Billing.{Subscription, Outside, State, cancelled}
use fxtun_dev.Billing.Payments.{drop_pending}
use fxtun_dev.Billing.Subscriptions.{
  is_due, is_expiring, has_plan_change, get_expired, get_expiring, get_with_pending_plan_change,
  get_for_renewal_reminder,
}
use fxtun_dev.Billing.Expiry.{expire_one, process_expired_subscriptions}
use fxtun_dev.Billing.Renewal.{renew_one, process_recurring_renewals}
use fxtun_dev.Billing.Changes.{
  change_one, remind_one, apply_plan_changes, send_expiration_reminders,
  check_expiring_subscriptions, cleanup_stale_pending_payments, run_checks, runs,
}
use fxtun_dev.Billing.Touches.{expire_one-Touches, renew_one-Touches, change_one-Touches}
use fxtun_dev.Billing.Quiet.{Quiet, Kept, Kept-refl, Kept-trans, if_Kept, loop-Kept}

not_due :
    (now : ℕ) (s : Subscription)
    → s.status ≡ cancelled
    → s.next_plan_id ≡ none
    → is_due now s ≡ false
unfolding is_due
not_due now s h k = ground arith

not_expiring :
    (t : ℕ) (s : Subscription)
    → s.status ≡ cancelled
    → s.next_plan_id ≡ none
    → is_expiring t s ≡ false
unfolding is_expiring
not_expiring t s h k = ground arith

unchanging :
    (now : ℕ) (s : Subscription)
    → s.status ≡ cancelled
    → s.next_plan_id ≡ none
    → has_plan_change now s ≡ false
unfolding has_plan_change
unchanging now s h k = ground arith

remind_one-db :
    (o : Outside) (days : ℕ) (w : State) (id : ℕ) (s : Subscription)
    → (remind_one o days w id s).db ≡ w.db
unfolding remind_one
remind_one-db o days w id s = refl

pub reminders-db :
    (o : Outside) (w : State) (days : ℕ) → (check_expiring_subscriptions o days w).db ≡ w.db
unfolding check_expiring_subscriptions
reminders-db o w days = elim (Bool-cases (o.succeeds (select_reminders days))) [
  | inl h ↦
      rw (h, check_expiring_subscriptions)
        (each_inv (λ (w' : State). w'.db ≡ w.db) (remind_one o days)
          (λ w' id s e. remind_one-db o days w' id s ∙ e) (get_for_renewal_reminder o days w.db) w
          refl)
  | inr h ↦ rw (h, check_expiring_subscriptions)
]

module _ (ids : List ℕ) where
  drop_pending_missing :
      (i : ℕ) (m : Dict ℕ Subscription) → lookup i m ≡ none → lookup i (drop_pending ids m) ≡ none
  unfolding drop_pending lookup
  drop_pending_missing i [] h = refl
  drop_pending_missing i ((j, s) ∷ m) h = ground (arith, drop_pending_missing i m)

  lookup-drop_pending :
      (i : ℕ) (m : Dict ℕ Subscription)
      → Unique m
      → lookup i (drop_pending ids m)
        ≡ keep (λ s. not (is_pending s.status && contains ids i)) (lookup i m)
  unfolding drop_pending lookup
  lookup-drop_pending i [] u = refl
  lookup-drop_pending i ((j, s) ∷ m) u =
      ground (arith, nat_eq.beq_iff j i, lookup-drop_pending i m u.1, drop_pending_missing i m)

  drop_pending-Unique : (m : Dict ℕ Subscription) → Unique m → Unique (drop_pending ids m)
  unfolding drop_pending
  drop_pending-Unique [] u = tt
  drop_pending-Unique ((j, s) ∷ m) u = elim (Bool-cases (is_pending s.status && contains ids j)) [
    | inl h ↦ rw h (drop_pending-Unique m u.1)
    | inr h ↦ rw h (drop_pending_missing j m u.0, drop_pending-Unique m u.1)
  ]

pub keep-some :
    (p : Subscription → Bool) (r : Option Subscription) (s : Subscription)
    → keep p r ≡ some s
    → r ≡ some s
keep-some p none s e = cc
keep-some p (some t) s e = ground arith

-- A deletion of pending rows keeps the cancelled ones.
dropped-Kept :
    (u : ℕ) (w w' : State) (ids : List ℕ)
    → Unique w.db.subscriptions
    → Quiet u w.db.subscriptions
    → w'.db.users ≡ w.db.users
    → w'.db.subscriptions ≡ drop_pending ids w.db.subscriptions
    → Kept u w w'
dropped-Kept u w w' ids uq q eu es = record {
  unique = rw es (drop_pending-Unique ids w.db.subscriptions uq);
  quiet = λ i s e h. q i s (was i s e) h;
  user = ap (lookup u) eu;
  rows = λ i s e h.
      let k = (q i s e h).0 in
      rw es (ground (arith, lookup-drop_pending ids i w.db.subscriptions uq));
}
  where
    was :
        (i : ℕ) (s : Subscription)
        → lookup i w'.db.subscriptions ≡ some s
        → lookup i w.db.subscriptions ≡ some s
    was i s e =
        keep-some _ _ s
          (sym (lookup-drop_pending ids i w.db.subscriptions uq) ∙ (sym (ap (lookup i) es) ∙ e))

same-Kept :
    (u : ℕ) (w w' : State)
    → Unique w.db.subscriptions
    → Quiet u w.db.subscriptions
    → w'.db ≡ w.db
    → Kept u w w'
same-Kept u w w' uq q e = record {
  unique = rw e uq;
  quiet = rw e q;
  user = rw e;
  rows = λ i s h k. rw e h;
}

module _ (o : Outside) (u : ℕ) (w : State) (uq : Unique w.db.subscriptions)
    (q : Quiet u w.db.subscriptions) where
  process_expired-Kept : Kept u w (process_expired_subscriptions o w)
  unfolding process_expired_subscriptions get_expired
  process_expired-Kept =
      if_Kept (o.succeeds select_expired)
        (loop-Kept o (expire_one o) (expire_one-Touches o) u (is_due o.now) (not_due o.now)
          (expire_one-users o u) w uq q)
        (Kept-refl u w uq q)

  renewals-Kept : Kept u w (process_recurring_renewals o w)
  unfolding process_recurring_renewals get_expiring
  renewals-Kept =
      if_Kept (o.yookassa_enabled && o.succeeds select_expiring)
        (loop-Kept o (renew_one o) (renew_one-Touches o) u (is_expiring (o.now + 3600))
          (not_expiring (o.now + 3600)) (λ w' id s h. ap (lookup u) (renew_one-users o w' id s)) w
          uq q)
        (Kept-refl u w uq q)

  changes-Kept : Kept u w (apply_plan_changes o w)
  unfolding apply_plan_changes get_with_pending_plan_change
  changes-Kept =
      if_Kept (o.succeeds select_plan_changes)
        (loop-Kept o (change_one o) (change_one-Touches o) u (has_plan_change o.now)
          (unchanging o.now) (change_one-users o u) w uq q)
        (Kept-refl u w uq q)

  reminders-Kept : (days : ℕ) → Kept u w (check_expiring_subscriptions o days w)
  reminders-Kept days = same-Kept u w _ uq q (reminders-db o w days)

  cleanup-Kept : Kept u w (cleanup_stale_pending_payments o w)
  unfolding cleanup_stale_pending_payments delete_stale_pending
  cleanup-Kept = elim (Bool-cases (o.succeeds delete_stale_subscriptions)) [
    | inl h ↦
        dropped-Kept u w (cleanup_stale_pending_payments o w)
          (named (select (is_stale (o.now - 86400)) w.db.payments)) uq q (ground arith)
          (ground arith)
    | inr h ↦ same-Kept u w (cleanup_stale_pending_payments o w) uq q (ground arith)
  ]

then_Kept :
    (u : ℕ) {w w' : State} (f : State → State)
    → ((v : State) → Unique v.db.subscriptions → Quiet u v.db.subscriptions → Kept u v (f v))
    → Kept u w w'
    → Kept u w (f w')
then_Kept u {w' = w'} f h k = Kept-trans k (h w' k.unique k.quiet)

pub run_checks-Kept :
    (o : Outside) (u : ℕ) (w : State)
    → Unique w.db.subscriptions
    → Quiet u w.db.subscriptions
    → Kept u w (run_checks o w)
unfolding run_checks send_expiration_reminders
run_checks-Kept o u w uq q = then_Kept u (cleanup_stale_pending_payments o) (cleanup-Kept o u) (
    then_Kept u (check_expiring_subscriptions o 1) (λ v a b. reminders-Kept o u v a b 1)
      (then_Kept u (check_expiring_subscriptions o 3) (λ v a b. reminders-Kept o u v a b 3)
        (then_Kept u (apply_plan_changes o) (changes-Kept o u) (
          then_Kept u (process_recurring_renewals o) (renewals-Kept o u)
            (process_expired-Kept o u w uq q)))))

pub runs-Kept :
    (os : List Outside) (u : ℕ) (w : State)
    → Unique w.db.subscriptions
    → Quiet u w.db.subscriptions
    → Kept u w (runs os w)
unfolding runs
runs-Kept [] u w uq q = Kept-refl u w uq q
runs-Kept (o ∷ os) u w uq q =
    let k = run_checks-Kept o u w uq q in
    Kept-trans k (runs-Kept os u (run_checks o w) k.unique k.quiet)

-- However often the scheduler runs and whatever time passes, the cancelled subscriptions of a user whose
-- subscriptions are all cancelled, with no next plan, stay as they are, and so does the user's row with
-- the plan in it.
pub cancelled_never_expires :
    (os : List Outside) (u i : ℕ) (s : Subscription) (w : State)
    → Unique w.db.subscriptions
    → Quiet u w.db.subscriptions
    → lookup i w.db.subscriptions ≡ some s
    → s.user_id ≡ u
    → (lookup i (runs os w).db.subscriptions ≡ some s)
      × (lookup u (runs os w).db.users ≡ lookup u w.db.users)
cancelled_never_expires os u i s w uq q e h =
    let k = runs-Kept os u w uq q in (k.rows i s e h, k.user)
