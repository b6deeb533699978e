-- ===== src/Billing/Payments/Cleanup.antt =====
-- DeleteStalePending of internal/database/payment_repo.go: what is left, and that no payment refers to
-- a subscription that is gone.
use fxtun_dev.Base.{
  ℕ, ◌≡◌, refl, sym, ap, ◌∙◌, inl, inr, Bool, true, not, Option, none, some, [], ◌∷◌, arith,
  Bool-cases, Option-cases, is_some, nat_eq,
}
use mathlib.Core.Option
use fxtun_dev.Base.Dict.{Dict, lookup, Unique}
use fxtun_dev.Base.Tables.{keep, select, lookup-select}
use fxtun_dev.Billing.{
  Subscription, Payment, Db, Outside, delete_stale_subscriptions, delete_stale_payments,
}
use fxtun_dev.Billing.Payments.{
  is_stale, is_dropped, unless_dropped, set_null, drop_pending, named, delete_stale_pending,
}

-- Every payment that names a subscription names one that is there.
abbrev pub Refers : Db → Type 0
Refers db =
    (i : ℕ) (p : Payment) (id : ℕ)
    → lookup i db.payments ≡ some p
    → p.subscription_id ≡ some id
    → is_some (lookup id db.subscriptions) ≡ true

module _ (old new : Dict ℕ Subscription) where
  abbrev nulled : Payment → Payment
  nulled p = record p {
    subscription_id = unless_dropped (is_dropped old new p.subscription_id) p.subscription_id;
  }

  lookup-set_null :
      (i : ℕ) (m : Dict ℕ Payment) → lookup i (set_null old new m) ≡ Option.map nulled (lookup i m)
  unfolding set_null lookup
  lookup-set_null i [] = refl
  lookup-set_null i ((j, p) ∷ m) = ground (arith, lookup-set_null i m)

  set_null-Unique : (m : Dict ℕ Payment) → Unique m → Unique (set_null old new m)
  unfolding set_null
  set_null-Unique [] u = tt
  set_null-Unique ((j, p) ∷ m) u = (ground (arith, lookup-set_null j m, u.0), set_null-Unique m u.1)

  nulled-refers :
      (p : Payment) (id : ℕ)
      → ((k : ℕ) → p.subscription_id ≡ some k → is_some (lookup k old) ≡ true)
      → (nulled p).subscription_id ≡ some id
      → is_some (lookup id new) ≡ true
  nulled-refers p id h e = elim (Option-cases p.subscription_id) [
    | inl q ↦ ground arith
    | inr (k, q) ↦ ground (arith, h k q)
  ]

set_null-Refers :
    (db : Db) (new : Dict ℕ Subscription)
    → Refers db
    → (i : ℕ) (p : Payment) (id : ℕ) → lookup i (set_null db.subscriptions new db.payments) ≡ some p
    → p.subscription_id ≡ some id
    → is_some (lookup id new) ≡ true
set_null-Refers db new r i p id e h = elim (Option-cases (lookup i db.payments)) [
  | inl q ↦
      let clash : ◌≡◌ {A = Option Payment} none (some p) =
        ground (arith, lookup-set_null db.subscriptions new i db.payments) in
      cc clash
  | inr (p0, q) ↦
      let same : nulled db.subscriptions new p0 ≡ p =
        ground (arith, lookup-set_null db.subscriptions new i db.payments) in
      nulled-refers db.subscriptions new p0 id (λ k. r i p0 k q)
        (ap (λ (x : Payment). x.subscription_id) same ∙ h)
]

keep_is : (p : Payment → Bool) (r : Option Payment) (s : Payment) → keep p r ≡ some s → r ≡ some s
keep_is p none s e = cc
keep_is p (some t) s e = ground arith

-- The cleanup keeps the references of the payments sound, whichever of its statements fail.
pub delete_stale_pending-Refers :
    (o : Outside) (cutoff : ℕ) (db : Db)
    → Unique db.payments
    → Refers db
    → Refers (delete_stale_pending o cutoff db)
unfolding delete_stale_pending
delete_stale_pending-Refers o cutoff db u r =
    elim (Bool-cases (o.succeeds delete_stale_subscriptions)) [
      | inl g ↦ elim (Bool-cases (o.succeeds delete_stale_payments)) [
        | inl h ↦
            rw (g, h)
              (λ i p id e q.
                set_null-Refers db kept_rows r i p id
                  (keep_is (λ p'. not (is_stale cutoff p')) _ p
                    (sym (
                        lookup-select i (λ p'. not (is_stale cutoff p')) nulled_rows
                          (set_null-Unique db.subscriptions kept_rows db.payments u))
                      ∙ e))
                  q)
        | inr h ↦ rw (g, h) (set_null-Refers db kept_rows r)
      ]
      | inr g ↦ rw g r
    ]
  where
    kept_rows : Dict ℕ Subscription
    kept_rows = drop_pending (named (select (is_stale cutoff) db.payments)) db.subscriptions

    nulled_rows : Dict ℕ Payment
    nulled_rows = set_null db.subscriptions kept_rows db.payments
