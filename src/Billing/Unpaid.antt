-- ===== src/Billing/Unpaid.antt =====
-- A run of the scheduler (internal/scheduler/scheduler.go) over a subscription that has expired while a
-- plan change is scheduled.
use fxtun_dev.Billing.Expiry.{free_plan}
use fxtun_dev.Billing.Expiry.Downgrade.{after_expiry-plans}
use fxtun_dev.Base.{
  ℕ, ◌≡◌, refl, sym, ap, ◌∙◌, ◌≢◌, inl, inr, Bool, true, false, Option, none, some, arith,
  Bool-cases, Option-cases, is_some, nat_eq, ◌==◌,
}
use mathlib.Core.Option
use fxtun_dev.Base.Dict.{lookup, Unique, lookup-insert}
use fxtun_dev.Base.Tables.{select, lookup-select, select-Unique, each, each_inv, each_reaches}
use fxtun_dev.Billing.{
  Subscription, active, expired, User, Plan, Db, Outside, State, select_plan, update_subscription,
  select_expired, select_plan_changes,
}
use fxtun_dev.Billing.Plans
use fxtun_dev.Billing.Plans.{update_user_row}
use fxtun_dev.Billing.Payments.{delete_stale_pending}
use fxtun_dev.Billing.Subscriptions.{
  ends_before, update, written, has_plan_change, get_expired, get_with_pending_plan_change,
}
use fxtun_dev.Billing.Expiry.{
  set_plan, downgrade_to_free_plan, after_expiry, expire_one, process_expired_subscriptions,
}
use fxtun_dev.Billing.Expiry.Effect.{settle, lookup-process_expired}
use fxtun_dev.Billing.Expiry.Downgrade.{Works, plan_of, set_plan-plan_of}
use fxtun_dev.Billing.Renewal.{process_recurring_renewals}
use fxtun_dev.Billing.Changes.{
  switch, change_one, apply_plan_changes, send_expiration_reminders, check_expiring_subscriptions,
  cleanup_stale_pending_payments, run_checks,
}
use fxtun_dev.Billing.Touches.{expire_one-Touches}
use fxtun_dev.Billing.Quiet.{each-Unique}
use fxtun_dev.Billing.UserRows.{change_one-users}
use fxtun_dev.Billing.Forever.{reminders-db, keep-some}

abbrev known : ℕ → Db → Bool
known u db = is_some (lookup u db.users)

module _ (o : Outside) where
  set_plan-plans :
      (v p : ℕ) (db : Db) {db' : Db} → set_plan o v p db ≡ some db' → db'.plans ≡ db.plans
  unfolding set_plan update_user_row
  set_plan-plans v p db h = ground arith

module _ (o : Outside) (u : ℕ) where
  set_plan-known :
      (v p : ℕ) (db : Db) {db' : Db}
      → set_plan o v p db ≡ some db'
      → known u db ≡ true
      → known u db' ≡ true
  unfolding set_plan update_user_row
  set_plan-known v p db h k = elim (Option-cases (Plans.get_user o v db)) [
    | inl n ↦ ground arith
    | inr (x, n) ↦ ground (arith, lookup-insert v u (record x { plan_id = p }) db.users)
  ]

  downgrade-known :
      (v : ℕ) (db : Db) {db' : Db}
      → downgrade_to_free_plan o v db ≡ some db'
      → known u db ≡ true
      → known u db' ≡ true
  unfolding downgrade_to_free_plan
  downgrade-known v db {db'} h k = elim (Option-cases (free_plan o db)) [
    | inl e ↦ ground arith
    | inr (none, e) ↦ ground arith
    | inr (some p, e) ↦ set_plan-known v p db {db' = db'} (ground arith) k
  ]

  after_expiry-known :
      (id : ℕ) (s : Subscription) (w : State)
      → known u w.db ≡ true
      → known u (after_expiry o id s w).db ≡ true
  unfolding after_expiry
  after_expiry-known id s w k = elim (Option-cases (downgrade_to_free_plan o s.user_id w.db)) [
    | inl e ↦ rw (e, after_expiry) k
    | inr (db', e) ↦ rw (e, after_expiry) (downgrade-known s.user_id w.db e k)
  ]

  expire_one-known :
      (w : State) (id : ℕ) (s : Subscription)
      → known u w.db ≡ true
      → known u (expire_one o w id s).db ≡ true
  unfolding expire_one update written
  expire_one-known w id s k =
      let s' = record s { status = expired; updated_at = o.now } in
      ground (arith, after_expiry-known id s' (record w { db = written o.now id s' w.db }) k)

  expire_one-plans :
      (w : State) (id : ℕ) (s : Subscription) → (expire_one o w id s).db.plans ≡ w.db.plans
  unfolding expire_one update written
  expire_one-plans w id s =
      let s' = record s { status = expired; updated_at = o.now } in
      ground (arith, after_expiry-plans o id s' (record w { db = written o.now id s' w.db }))

module _ (o : Outside) (works : Works o) (u p : ℕ) (plan : Plan) where
  -- The new plan and the user are there.
  abbrev Ready : State → Type 0
  Ready w = (lookup p w.db.plans ≡ some plan) × (known u w.db ≡ true)

  switch-plan_of :
      (id : ℕ) (s : Subscription) (w : State)
      → Ready w
      → s.user_id ≡ u
      → plan_of u (switch o id s p w).db ≡ some p
  unfolding switch update written Plans.get_by_id
  switch-plan_of id s w r e =
      let s' = record s { plan_id = p; next_plan_id = none; updated_at = o.now } in
      let db = written o.now id s' w.db in
      elim (Option-cases (lookup s.user_id w.db.users)) [
        | inl k ↦ cc (let f : ◌≡◌ {A = Bool} false true = ground arith in f)
        | inr (x, k) ↦ ground (
          arith,
          works (select_plan p),
          works (update_subscription id),
          set_plan-plan_of o works s.user_id p db x k,
          lookup-insert s.user_id u (record x { plan_id = p }) w.db.users,
          nat_eq.beq_iff s.user_id u,
        )
      ]

  switch-Ready :
      (id : ℕ) (s : Subscription) (next : ℕ) (w : State) → Ready w → Ready (switch o id s next w)
  unfolding switch update written
  switch-Ready id s next w r =
      let s' = record s { plan_id = next; next_plan_id = none; updated_at = o.now } in
      let db = written o.now id s' w.db in
      elim (Option-cases (set_plan o s.user_id next db)) [
        | inl k ↦ ground arith
        | inr (db', k) ↦ ground (
          arith,
          set_plan-known o u s.user_id next db k r.1,
          set_plan-plans o s.user_id next db k,
        )
      ]

  change_one-Ready : (w : State) (id : ℕ) (s : Subscription) → Ready w → Ready (change_one o w id s)
  unfolding change_one
  change_one-Ready w id s r = elim (Option-cases s.next_plan_id) [
    | inl h ↦ rw (h, change_one) r
    | inr (next, h) ↦ rw (h, change_one) (switch-Ready id s next w r)
  ]

  change_one-plan_of :
      (w : State) (id : ℕ) (s : Subscription)
      → (s.user_id ≡ u → s.next_plan_id ≡ some p)
      → Ready w
      → plan_of u w.db ≡ some p
      → plan_of u (change_one o w id s).db ≡ some p
  unfolding change_one
  change_one-plan_of w id s q r k = elim (Bool-cases (s.user_id == u)) [
    | inl h ↦
        let e : s.user_id ≡ u = (nat_eq.beq_iff s.user_id u).0 h in
        rw (q e, change_one) (switch-plan_of id s w r e)
    | inr h ↦
        let n : s.user_id ≢ u = ground (arith, nat_eq.beq_iff s.user_id u) in
        rw (change_one-users o u w id s n) k
  ]

  -- The changes that are due reach the user's plan.
  apply_plan_changes-plan_of :
      (w : State) (i : ℕ) (s : Subscription)
      → Unique w.db.subscriptions
      → Ready w
      → ((j : ℕ) (t : Subscription) → lookup j w.db.subscriptions ≡ some t → t.user_id ≡ u → j ≡ i)
      → lookup i w.db.subscriptions ≡ some s
      → s.user_id ≡ u
      → s.next_plan_id ≡ some p
      → ends_before o.now s.current_period_end ≡ true
      → plan_of u (apply_plan_changes o w).db ≡ some p
  unfolding apply_plan_changes select get_with_pending_plan_change change_one switch
  apply_plan_changes-plan_of w i s uq r only e mine next d =
      let m = get_with_pending_plan_change o.now w.db in
      let found = λ (j : ℕ). lookup-select j (has_plan_change o.now) w.db.subscriptions uq in
      let selected : lookup i m ≡ some s =
        unfold get_with_pending_plan_change has_plan_change in ground (arith, found i) in
      let scheduled : (j : ℕ) (t : Subscription)
          → lookup j m ≡ some t
          → t.user_id ≡ u
          → t.next_plan_id ≡ some p =
        λ j t k h.
          let stored = keep-some (has_plan_change o.now) _ t (sym (found j) ∙ k) in
          let same : j ≡ i = only j t stored h in ground (arith) in
      let done : plan_of u (each (change_one o) w m).db ≡ some p =
        each_reaches Ready (λ w'. plan_of u w'.db ≡ some p)
          (λ (t : Subscription). t.user_id ≡ u → t.next_plan_id ≡ some p) (change_one o) i s
          change_one-Ready (λ w' j t q v k. change_one-plan_of w' j t q v k)
          (λ w' v. rw (next, change_one) (switch-plan_of i s w' v mine)) m
          (select-Unique (has_plan_change o.now) w.db.subscriptions uq) scheduled selected w r in
      rw (works select_plan_changes) done

module _ (o : Outside) where
  expired-Unique :
      (w : State)
      → Unique w.db.subscriptions
      → Unique (process_expired_subscriptions o w).db.subscriptions
  unfolding process_expired_subscriptions
  expired-Unique w uq = elim (Bool-cases (o.succeeds select_expired)) [
    | inl h ↦
        rw h (each-Unique o (expire_one o) (expire_one-Touches o) (get_expired o.now w.db) w uq)
    | inr h ↦ rw h uq
  ]

  expired-owner :
      (w : State) (j : ℕ) (t : Subscription)
      → Unique w.db.subscriptions
      → lookup j (process_expired_subscriptions o w).db.subscriptions ≡ some t
      → (t' : Subscription) × (lookup j w.db.subscriptions ≡ some t') × (t'.user_id ≡ t.user_id)
  unfolding settle
  expired-owner w j t uq h = elim (Option-cases (lookup j w.db.subscriptions)) [
    | inl k ↦ cc (
        let f : ◌≡◌ {A = Option Subscription} none (some t) =
          ground (arith, lookup-process_expired o j w uq) in
        f)
    | inr (t', k) ↦ (t', k, ground (arith, lookup-process_expired o j w uq))
  ]

  expired-kept :
      (u p : ℕ) (plan : Plan) (w : State)
      → lookup p w.db.plans ≡ some plan
      → known u w.db ≡ true
      → (lookup p (process_expired_subscriptions o w).db.plans ≡ some plan)
        × (known u (process_expired_subscriptions o w).db ≡ true)
  unfolding process_expired_subscriptions
  expired-kept u p plan w e k = elim (Bool-cases (o.succeeds select_expired)) [
    | inl h ↦ rw h (
        each_inv (λ (w' : State). (lookup p w'.db.plans ≡ some plan) × (known u w'.db ≡ true))
          (expire_one o)
          (λ w' id s r.
            (ap (lookup p) (expire_one-plans o u w' id s) ∙ r.0, expire_one-known o u w' id s r.1))
          (get_expired o.now w.db) w (e, k))
    | inr h ↦ rw h (e, k)
  ]

  renewals_off : (w : State) → o.yookassa_enabled ≡ false → process_recurring_renewals o w ≡ w
  unfolding process_recurring_renewals
  renewals_off w e = ground arith

  later_steps-users :
      (w : State)
      → (cleanup_stale_pending_payments o (send_expiration_reminders o w)).db.users ≡ w.db.users
  unfolding cleanup_stale_pending_payments send_expiration_reminders delete_stale_pending
  later_steps-users w =
      ground (arith, reminders-db o w 3, reminders-db o (check_expiring_subscriptions o 3 w) 1)

-- The first step of a run ends an active subscription that does not renew and is past its end. If a plan
-- change is scheduled for it, the third step of the same run then gives its user the next plan,
-- where payments are switched off and so none is made. (Every statement succeeds, the user and the plan
-- exist, and the user has no other subscription.)
pub expired_gets_next_plan :
    (o : Outside)
    → Works o
    → (w : State) (i p : ℕ) (s : Subscription) (plan : Plan) → Unique w.db.subscriptions
    → lookup i w.db.subscriptions ≡ some s
    → ((j : ℕ) (t : Subscription)
        → lookup j w.db.subscriptions ≡ some t
        → t.user_id ≡ s.user_id
        → j ≡ i)
    → s.status ≡ active
    → s.recurring ≡ false
    → ends_before o.now s.current_period_end ≡ true
    → s.next_plan_id ≡ some p
    → lookup p w.db.plans ≡ some plan
    → known s.user_id w.db ≡ true
    → o.yookassa_enabled ≡ false
    → (lookup i (process_expired_subscriptions o w).db.subscriptions
        ≡ some (record s { status = expired; updated_at = o.now }))
      × (plan_of s.user_id (run_checks o w).db ≡ some p)
unfolding run_checks settle
expired_gets_next_plan o works w i p s plan uq e only a r d next there k off =
    let s' = record s { status = expired; updated_at = o.now } in
    let w1 = process_expired_subscriptions o w in
    let row : lookup i w1.db.subscriptions ≡ some s' = ground (
      arith,
      lookup-process_expired o i w uq,
      works select_expired,
      works (update_subscription i),
    ) in
    let changed : plan_of s.user_id (apply_plan_changes o w1).db ≡ some p =
      apply_plan_changes-plan_of o works s.user_id p plan w1 i s' (expired-Unique o w uq)
        (expired-kept o s.user_id p plan w there k)
        (λ j t h m. let x = expired-owner o w j t uq h in only j x.0 x.1 (x.2 ∙ m)) row refl next
        d in
    let end = later_steps-users o (apply_plan_changes o w1) in
    (
      row,
      rw (renewals_off o w1 off)
          (ap (λ us. Option.map (λ (x : User). x.plan_id) (lookup s.user_id us)) end ∙ changed),
    )
