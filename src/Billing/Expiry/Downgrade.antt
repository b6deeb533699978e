-- ===== src/Billing/Expiry/Downgrade.antt =====
-- What one run of processExpiredSubscriptions does to a user: internal/scheduler/scheduler.go.
use fxtun_dev.Billing.{select_user, update_user}
use fxtun_dev.Base.{
  ℕ, ◌≡◌, refl, ◌∙◌, inl, inr, true, false, not, ◌&&◌, Option, none, some, arith, if◌then◌else◌,
  Bool-cases, Option-cases, is_some, nat_eq, ◌==◌,
}
use mathlib.Core.Option
use fxtun_dev.Base.Dict.{lookup, insert, Unique, lookup-insert}
use fxtun_dev.Base.Tables.{lookup-select, select-Unique, each, each_reaches}
use fxtun_dev.Billing.{
  Subscription, User, is_active, active, expired, Db, Outside, Statement, select_expired,
  update_subscription, State,
}
use fxtun_dev.Billing.Plans.{get_user, update_user_row, list_all, get_by_slug}
use fxtun_dev.Billing.Subscriptions.{ends_before, update, written, is_due, get_expired}
use fxtun_dev.Billing.Expiry.{
  set_plan, free_plan, downgrade_to_free_plan, after_expiry, expire_one,
  process_expired_subscriptions,
}

-- Every statement of the run succeeds.
abbrev pub Works : Outside → Type 0
Works o = (st : Statement) → o.succeeds st ≡ true

abbrev pub plan_of : ℕ → Db → Option ℕ
plan_of u db = Option.map (λ (x : User). x.plan_id) (lookup u db.users)

module _ (o : Outside) where
  pub after_expiry-plans :
      (id : ℕ) (s : Subscription) (w : State) → (after_expiry o id s w).db.plans ≡ w.db.plans
  unfolding after_expiry downgrade_to_free_plan set_plan update_user_row
  after_expiry-plans id s w = ground arith

  free_plan_plans : (db db' : Db) → db.plans ≡ db'.plans → free_plan o db ≡ free_plan o db'
  unfolding free_plan get_by_slug list_all
  free_plan_plans db db' e = rw e

module _ (o : Outside) (works : Works o) where
  pub set_plan-plan_of :
      (v p : ℕ) (db : Db) (x : User)
      → lookup v db.users ≡ some x
      → set_plan o v p db
        ≡ some (record db { users = insert v (record x { plan_id = p }) db.users })
  unfolding set_plan get_user update_user_row
  set_plan-plan_of v p db x e = ground (arith, works (select_user v), works (update_user v))

  pub set_plan_missing : (v p : ℕ) (db : Db) → lookup v db.users ≡ none → set_plan o v p db ≡ none
  unfolding set_plan get_user
  set_plan_missing v p db e = ground (arith, works (select_user v))

  pub plan_of-set_plan :
      (u v p : ℕ) (db : Db) {db' : Db}
      → set_plan o v p db ≡ some db'
      → plan_of u db' ≡ (if v == u then some p else plan_of u db)
  plan_of-set_plan u v p db e = elim (Option-cases (lookup v db.users)) [
    | inl h ↦ cc (set_plan_missing v p db h)
    | inr (x, h) ↦
        ground (
          arith,
          set_plan-plan_of v p db x h,
          lookup-insert v u (record x { plan_id = p }) db.users,
        )
  ]

  module _ (f u : ℕ) where
    -- The free plan is `f`, and the user exists.
    abbrev Ready : State → Type 0
    Ready w = (free_plan o w.db ≡ some (some f)) × (is_some (lookup u w.db.users) ≡ true)

    written-Ready :
        (id : ℕ) (s : Subscription) (w : State)
        → Ready w
        → Ready (record w { db = written o.now id s w.db })
    unfolding written
    written-Ready id s w r = (free_plan_plans o _ w.db refl ∙ r.0, r.1)

    after_expiry-plan_of :
        (id : ℕ) (s : Subscription) (w : State)
        → Ready w
        → plan_of u (after_expiry o id s w).db ≡ (if s.user_id == u then some f else plan_of u w.db)
    unfolding after_expiry downgrade_to_free_plan
    after_expiry-plan_of id s w r = elim (Option-cases (lookup s.user_id w.db.users)) [
      | inl h ↦ ground (arith, set_plan_missing s.user_id f w.db h, nat_eq.beq_iff s.user_id u)
      | inr (x, h) ↦ ground (
        arith,
        set_plan-plan_of s.user_id f w.db x h,
        lookup-insert s.user_id u (record x { plan_id = f }) w.db.users,
      )
    ]

    after_expiry-Ready :
        (id : ℕ) (s : Subscription) (w : State) → Ready w → Ready (after_expiry o id s w)
    after_expiry-Ready id s w r = (
      free_plan_plans o _ _ (after_expiry-plans o id s w) ∙ r.0,
      ground (arith, after_expiry-plan_of id s w r),
    )

    expire_one-plan_of :
        (w : State) (id : ℕ) (s : Subscription)
        → Ready w
        → plan_of u (expire_one o w id s).db ≡ (
            if not (s.recurring && is_active s.status) && s.user_id == u
            then some f
            else plan_of u w.db)
    unfolding expire_one update written
    expire_one-plan_of w id s r =
        let s' = record s { status = expired; updated_at = o.now } in
        let w' = record w { db = written o.now id s' w.db } in
        ground (
          arith,
          works (update_subscription id),
          after_expiry-plan_of id s' w' (written-Ready id s' w r),
        )

    expire_one-Ready :
        (w : State) (id : ℕ) (s : Subscription) → Ready w → Ready (expire_one o w id s)
    unfolding expire_one update
    expire_one-Ready w id s r =
        let s' = record s { status = expired; updated_at = o.now } in
        let w' = record w { db = written o.now id s' w.db } in
        let after = after_expiry-Ready id s' w' (written-Ready id s' w r) in
        elim (Bool-cases (s.recurring && is_active s.status)) [
          | inl h ↦ rw (h, expire_one) r
          | inr h ↦ rw (h, expire_one, works (update_subscription id), update) after
        ]

  -- A user with an active subscription that does not renew and is past its end is on the free plan after
  -- the run, if every statement succeeds and there is a free plan.
  pub process_expired-downgrades :
      (w : State) (i f : ℕ) (s : Subscription)
      → Unique w.db.subscriptions
      → lookup i w.db.subscriptions ≡ some s
      → s.status ≡ active
      → s.recurring ≡ false
      → ends_before o.now s.current_period_end ≡ true
      → free_plan o w.db ≡ some (some f)
      → is_some (lookup s.user_id w.db.users) ≡ true
      → plan_of s.user_id (process_expired_subscriptions o w).db ≡ some f
  unfolding process_expired_subscriptions get_expired
  process_expired-downgrades w i f s uq e a r d free known =
      let u = s.user_id in
      let selected : lookup i (get_expired o.now w.db) ≡ some s =
        unfold get_expired is_due in
        ground (arith, lookup-select i (is_due o.now) w.db.subscriptions uq) in
      let done : plan_of u (each (expire_one o) w (get_expired o.now w.db)).db ≡ some f =
        each_reaches (Ready f u) (λ w'. plan_of u w'.db ≡ some f) (λ (t : Subscription). Unit {0})
          (expire_one o) i s (expire_one-Ready f u)
          (λ w' j t y inv p. ground (arith, expire_one-plan_of f u w' j t inv))
          (λ w' inv. ground (arith, expire_one-plan_of f u w' i s inv)) (get_expired o.now w.db)
          (select-Unique (is_due o.now) w.db.subscriptions uq) (λ j t y. tt) selected w
          (free, known) in
      rw (works select_expired) done
