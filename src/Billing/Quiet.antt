-- ===== src/Billing/Quiet.antt =====
-- A user all of whose subscriptions are cancelled and have no next plan, through one loop of
-- internal/scheduler/scheduler.go.
use fxtun_dev.Base.{
  ℕ, ◌≡◌, refl, sym, ap, ◌∙◌, ◌≢◌, inl, inr, Bool, true, false, Option, none, some, arith,
  if◌then◌else◌, Bool-cases, Option-cases, nat_eq,
}
use fxtun_dev.Base.Dict.{Dict, lookup, Unique}
use fxtun_dev.Base.Tables.{
  keep, each, each_inv, each_frame, each_rows, select, lookup-select, select-Unique,
}
use fxtun_dev.Billing.{Subscription, cancelled, Outside, State}
use fxtun_dev.Billing.Touches.{Touches, owner, Touches-owner, Touches-Unique, Touches-lookup}

abbrev pub Quiet : ℕ → Dict ℕ Subscription → Type 0
Quiet u m =
    (i : ℕ) (s : Subscription)
    → lookup i m ≡ some s
    → s.user_id ≡ u
    → (s.status ≡ cancelled) × (s.next_plan_id ≡ none)

-- The subscriptions of the user and the user's row are as before.
pub record Kept (u : ℕ) (w w' : State) : Type 0 where
  pub unique : Unique w'.db.subscriptions
  pub quiet : Quiet u w'.db.subscriptions
  pub user : lookup u w'.db.users ≡ lookup u w.db.users
  pub rows :
      (i : ℕ) (s : Subscription)
      → lookup i w.db.subscriptions ≡ some s
      → s.user_id ≡ u
      → lookup i w'.db.subscriptions ≡ some s

pub Kept-refl :
    (u : ℕ) (w : State) → Unique w.db.subscriptions → Quiet u w.db.subscriptions → Kept u w w
Kept-refl u w uq q = record { unique = uq; quiet = q; user = refl; rows = λ i s e h. e }

pub Kept-trans : {u : ℕ} {w w' w'' : State} → Kept u w w' → Kept u w' w'' → Kept u w w''
Kept-trans k l = record {
  unique = l.unique;
  quiet = l.quiet;
  user = l.user ∙ k.user;
  rows = λ i s e h. l.rows i s (k.rows i s e h) h;
}

pub if_Kept :
    {u : ℕ} {w w' : State} (b : Bool) → Kept u w w' → Kept u w w → Kept u w (if b then w' else w)
if_Kept true k r = k
if_Kept false k r = r

-- No new row is the user's, and the old ones stay.
Quiet-owner :
    (u : ℕ) (m m' : Dict ℕ Subscription)
    → Quiet u m
    → ((i : ℕ) → owner i m' ≡ owner i m)
    → ((i : ℕ) (s : Subscription) → lookup i m ≡ some s → s.user_id ≡ u → lookup i m' ≡ some s)
    → Quiet u m'
Quiet-owner u m m' q own rows i s e h = elim (Option-cases (lookup i m)) [
  | inl k ↦ cc (let f : some s.user_id ≡ none = ground (arith, own i) in f)
  | inr (t, k) ↦
      let same : t.user_id ≡ u = ground (arith, own i) in
      let stays : lookup i m' ≡ some t = rows i t k same in
      let eq : t ≡ s = ground arith in rw (← eq) (q i t k same)
]

chosen :
    (p : Subscription → Bool) (r : Option Subscription) (s : Subscription)
    → keep p r ≡ some s
    → (r ≡ some s) × (p s ≡ true)
chosen p none s e = cc
chosen p (some t) s e = elim (Bool-cases (p t)) [
  | inl h ↦ let eq : t ≡ s = ground arith in (ap some eq, rw (← eq) h)
  | inr h ↦ cc (let f : ◌≡◌ {A = Option Subscription} none (some s) = ground arith in f)
]

module _ (o : Outside) (step : State → ℕ → Subscription → State)
    (touches : (w : State) (id : ℕ) (s : Subscription)
      → Touches o.now id w.db.subscriptions (step w id s).db.subscriptions) where
  pub each-owner :
      (i : ℕ) (m : Dict ℕ Subscription) (w : State)
      → owner i (each step w m).db.subscriptions ≡ owner i w.db.subscriptions
  each-owner i m w =
      each_inv (λ w'. owner i w'.db.subscriptions ≡ owner i w.db.subscriptions) step
        (λ w' id s h. Touches-owner o.now id w'.db.subscriptions _ i (touches w' id s) ∙ h) m w refl

  pub each-Unique :
      (m : Dict ℕ Subscription) (w : State)
      → Unique w.db.subscriptions
      → Unique (each step w m).db.subscriptions
  each-Unique m w u =
      each_inv (λ w'. Unique w'.db.subscriptions) step
        (λ w' id s h. Touches-Unique o.now id w'.db.subscriptions _ (touches w' id s) h) m w u

  pub lookup-each_missing :
      (i : ℕ) (m : Dict ℕ Subscription) (w : State)
      → lookup i m ≡ none
      → lookup i (each step w m).db.subscriptions ≡ lookup i w.db.subscriptions
  lookup-each_missing i m w e =
      each_frame (λ (w' : State). lookup i w'.db.subscriptions) step i
        (λ w' id s n. Touches-lookup o.now id w'.db.subscriptions _ i (touches w' id s) n) m e w

  module _ (u : ℕ) (p : Subscription → Bool)
      (skips : (s : Subscription) → s.status ≡ cancelled → s.next_plan_id ≡ none → p s ≡ false)
      (users : (w : State) (id : ℕ) (s : Subscription)
        → s.user_id ≢ u
        → lookup u (step w id s).db.users ≡ lookup u w.db.users) where
    pub loop-Kept :
        (w : State)
        → Unique w.db.subscriptions
        → Quiet u w.db.subscriptions
        → Kept u w (each step w (select p w.db.subscriptions))
    loop-Kept w uq q = record {
      unique = each-Unique (select p w.db.subscriptions) w uq;
      quiet =
          Quiet-owner u w.db.subscriptions _ q (λ i. each-owner i (select p w.db.subscriptions) w)
            stay;
      user =
          each_rows (λ (w' : State). lookup u w'.db.users) step
            (λ (s : Subscription). s.user_id ≢ u) (λ w' id s h. users w' id s h)
            (select p w.db.subscriptions) (select-Unique p w.db.subscriptions uq) foreign w;
      rows = stay;
    }
      where
        stay :
            (i : ℕ) (s : Subscription)
            → lookup i w.db.subscriptions ≡ some s
            → s.user_id ≡ u
            → lookup i (each step w (select p w.db.subscriptions)).db.subscriptions ≡ some s
        stay i s e h =
            lookup-each_missing i (select p w.db.subscriptions) w (
              let n = skips s (q i s e h).0 (q i s e h).1 in
              ground (arith, lookup-select i p w.db.subscriptions uq))
            ∙ e

        foreign :
            (i : ℕ) (s : Subscription)
            → lookup i (select p w.db.subscriptions) ≡ some s
            → s.user_id ≢ u
        foreign i s e h =
            let stored : (lookup i w.db.subscriptions ≡ some s) × (p s ≡ true) =
              chosen p (lookup i w.db.subscriptions) s
                (sym (lookup-select i p w.db.subscriptions uq) ∙ e) in
            let k = q i s stored.0 h in
            let clash : ◌≡◌ {A = Bool} true false = sym stored.1 ∙ skips s k.0 k.1 in cc clash
