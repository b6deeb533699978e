-- ===== src/Billing/Requests/Cancelling.antt =====
-- A subscription that its user cancels, with handleCancelSubscription of
-- internal/api/handlers_payment.go, and the runs of the scheduler after it.
use fxtun_dev.Billing.{cancelled_action}
use fxtun_dev.Base.{
  ℕ, ◌≡◌, refl, sym, ap, ◌∙◌, inl, inr, Bool, true, false, ◌&&◌, Option, none, some, List, [], ◌∷◌,
  arith, Bool-cases, Option-cases, nat_eq, ◌==◌,
}
use fxtun_dev.Base.Dict.{Dict, lookup, Unique}
use fxtun_dev.Base.Tables.{select, keep, lookup-select, select-Unique}
use fxtun_dev.Billing.{
  Subscription, active, cancelled, is_current, Outside, State, log_audit, update_subscription,
  select_current,
}
use fxtun_dev.Billing.Subscriptions.{rewritten, written, write_row, latest, get_by_user_id, update}
use fxtun_dev.Billing.Subscriptions.Laws.{lookup-rewritten, rewritten-Unique}
use fxtun_dev.Billing.Expiry.Downgrade.{Works}
use fxtun_dev.Billing.Changes.{runs}
use fxtun_dev.Billing.Quiet.{Quiet}
use fxtun_dev.Billing.Forever.{cancelled_never_expires}
use fxtun_dev.Billing.Requests.{ContextUser, will_not_renew, cancel_row, handle_cancel_subscription}

latest-lookup :
    (m : Dict ℕ Subscription) (j : ℕ) (t : Subscription)
    → Unique m
    → latest m ≡ some (j, t)
    → lookup j m ≡ some t
unfolding latest lookup
latest-lookup [] j t u e = cc
latest-lookup ((i, s) ∷ m) j t u e = elim (Option-cases (latest m)) [
  | inl h ↦ ground (arith, nat_eq.beq_iff i j)
  | inr ((k, r), h) ↦
      ground (arith, latest-lookup m k r u.1 h, nat_eq.beq_iff i j, nat_eq.beq_iff i k, u.0)
]

latest-none : (m : Dict ℕ Subscription) → latest m ≡ none → m ≡ []
unfolding latest
latest-none [] e = refl
latest-none ((i, s) ∷ m) e = elim (Option-cases (latest m)) [
  | inl h ↦ ground arith
  | inr ((k, r), h) ↦ ground arith
]

-- The subscription as it is after the user's request.
pub cancelled_row : Outside → Subscription → Subscription
cancelled_row o s = record s {
  status = cancelled;
  recurring = false;
  yookassa_payment_method_id = none;
  updated_at = o.now;
}

kept :
    (p : Subscription → Bool) (r : Option Subscription) (s : Subscription)
    → keep p r ≡ some s
    → (r ≡ some s) × (p s ≡ true)
kept p none s e = cc
kept p (some t) s e = ground arith

module _ (o : Outside) (works : Works o) (user : ContextUser) (w : State) (i : ℕ) (s : Subscription)
    (uq : Unique w.db.subscriptions) (row : lookup i w.db.subscriptions ≡ some s)
    (mine : s.user_id ≡ user.id)
    (only : (j : ℕ) (t : Subscription)
      → lookup j w.db.subscriptions ≡ some t
      → t.user_id ≡ user.id
      → j ≡ i)
    (running : s.status ≡ active) where
  abbrev current : Subscription → Bool
  current t = t.user_id == user.id && is_current t.status

  found : get_by_user_id o user.id w.db ≡ some (some (i, s))
  unfolding get_by_user_id lookup
  found =
      let m = select current w.db.subscriptions in
      let at = λ (j : ℕ). lookup-select j current w.db.subscriptions uq in
      let here : lookup i m ≡ some s = ground (arith, at i, nat_eq.beq_iff s.user_id user.id) in
      elim (Option-cases (latest m)) [
        | inl h ↦
            let clash : ◌≡◌ {A = Option Subscription} none (some s) =
              sym (ap (lookup i) (latest-none m h)) ∙ here in
            cc clash
        | inr ((j, t), h) ↦
            let there : lookup j m ≡ some t =
              latest-lookup m j t (select-Unique current w.db.subscriptions uq) h in
            let stored = kept current (lookup j w.db.subscriptions) t (sym (at j) ∙ there) in
            let same : j ≡ i =
              only j t stored.0 (ground (arith, stored, nat_eq.beq_iff t.user_id user.id)) in
            ground (arith, works (select_current user.id), stored)
      ]

  cancel_lem : handle_cancel_subscription o (some user) w ≡ (
    log_audit cancelled_action user.id i s.plan_id
        (record w { db = written o.now i (cancelled_row o s) w.db }),
    will_not_renew,
  )
  unfolding handle_cancel_subscription cancel_row update cancelled_row
  cancel_lem = ground (arith, found, works (update_subscription i))

  rewritten-Quiet :
      s.next_plan_id ≡ none
      → Quiet user.id (rewritten o.now i (cancelled_row o s) w.db.subscriptions)
  unfolding cancelled_row write_row
  rewritten-Quiet next j t e h = elim (Bool-cases (i == j)) [
    | inl k ↦
        let same : i ≡ j = (nat_eq.beq_iff i j).0 k in
        let stored : lookup j w.db.subscriptions ≡ some s = rw (← same) row in
        ground (arith, lookup-rewritten o.now j i (cancelled_row o s) w.db.subscriptions)
    | inr k ↦
        let stored : lookup j w.db.subscriptions ≡ some t =
          ground (arith, lookup-rewritten o.now j i (cancelled_row o s) w.db.subscriptions) in
        let same : j ≡ i = only j t stored h in
        cc (let clash : ◌≡◌ {A = Bool} false true = ground (arith, nat_eq.beq_iff i j) in clash)
  ]

  -- A user who ends the renewals is answered that the subscription will not renew. After that, however
  -- often the scheduler runs and whatever time passes, the subscription stays cancelled and the user's row
  -- keeps the paid plan. (Every statement of the request succeeds; the subscription is active, has no next
  -- plan and is the user's only one.)
  pub cancelled_keeps_plan :
      s.next_plan_id ≡ none
      → (os : List Outside)
      → ((handle_cancel_subscription o (some user) w).1 ≡ will_not_renew)
        × (lookup i (runs os (handle_cancel_subscription o (some user) w).0).db.subscriptions
            ≡ some (cancelled_row o s))
        × (lookup user.id (runs os (handle_cancel_subscription o (some user) w).0).db.users
            ≡ lookup user.id w.db.users)
  unfolding written log_audit cancelled_row write_row
  cancelled_keeps_plan next os =
      let w' =
        log_audit cancelled_action user.id i s.plan_id
          (record w { db = written o.now i (cancelled_row o s) w.db }) in
      let there : lookup i w'.db.subscriptions ≡ some (cancelled_row o s) = ground (
        arith,
        lookup-rewritten o.now i i (cancelled_row o s) w.db.subscriptions,
        nat_eq.beq_iff i i,
      ) in
      let later =
        cancelled_never_expires os user.id i (cancelled_row o s) w'
          (rewritten-Unique o.now i (cancelled_row o s) w.db.subscriptions uq)
          (rewritten-Quiet next) there mine in
      rw cancel_lem (refl, later.0, later.1)
