-- ===== src/Billing/Subscriptions/Laws.antt =====
-- What writes of rows of internal/database/subscription_repo.go change, and what they leave.
use fxtun_dev.Base.{
  ℕ, ◌≡◌, refl, inl, inr, Option, none, some, arith, if◌then◌else◌, Bool-cases, nat_eq, ◌==◌,
}
use fxtun_dev.Base.Dict.{Dict, lookup, lookup-insert, Unique, insert-Unique}
use fxtun_dev.Billing.{Subscription}
use fxtun_dev.Billing.Subscriptions.{write_row, store, rewritten}

pub write_row_missing :
    (now : ℕ) (s : Subscription) (old : Option Subscription)
    → write_row now s old ≡ none
    → old ≡ none
unfolding write_row
write_row_missing now s none h = refl
write_row_missing now s (some old) h = cc

module _ {ℓ} {A : Type ℓ} (i id : ℕ) (m : Dict ℕ A) where
  pub lookup-store :
      (r : Option A)
      → (r ≡ none → lookup id m ≡ none)
      → lookup i (store id r m) ≡ (if id == i then r else lookup i m)
  lookup-store none h = elim (Bool-cases (id == i)) [
    | inl e ↦ let e' : id ≡ i = (nat_eq.beq_iff id i).0 e in rw e (rw (← e') (h refl))
    | inr e ↦ rw e
  ]
  lookup-store (some row) h = lookup-insert id i row m

  pub store-Unique : (r : Option A) → Unique m → Unique (store id r m)
  store-Unique none u = u
  store-Unique (some row) u = insert-Unique id row m u

module _ (now i id : ℕ) (s : Subscription) (m : Dict ℕ Subscription) where
  pub lookup-rewritten :
      lookup i (rewritten now id s m)
      ≡ (if id == i then write_row now s (lookup i m) else lookup i m)
  unfolding rewritten
  lookup-rewritten = elim (Bool-cases (id == i)) [
    | inl e ↦ let e' : id ≡ i = (nat_eq.beq_iff id i).0 e in ground (arith, stored)
    | inr e ↦ rw e (ground (arith, stored))
  ]
    where
      stored :
          lookup i (rewritten now id s m)
          ≡ (if id == i then write_row now s (lookup id m) else lookup i m)
      stored =
          lookup-store i id m (write_row now s (lookup id m))
            (write_row_missing now s (lookup id m))

pub rewritten-Unique :
    (now id : ℕ) (s : Subscription) (m : Dict ℕ Subscription)
    → Unique m
    → Unique (rewritten now id s m)
unfolding rewritten
rewritten-Unique now id s m u = store-Unique id id m (write_row now s (lookup id m)) u
