-- ===== src/Base/Tables.antt =====
-- A table of a database as a dictionary of rows by their ids, and a loop over the rows of a query.
use Prim.Native.Nat.{ℕ}
use mathlib.Core.Path.{◌≡◌, refl, ◌∙◌}
use mathlib.Core.Bool.{Bool, false}
use mathlib.Core.Option.{Option, none, some}
use mathlib.Core.List.{[], ◌∷◌}
use native.Mathlib.Omega.{arith}
use fxtun_dev.Base.Tests.{if◌then◌else◌, ◌==◌, nat_eq, Bool-cases}
use mathlib.Core.Logic.{inl, inr}
use fxtun_dev.Base.Dict.{Dict, lookup, Unique}

abbrev pub keep {ℓ} : {A : Type ℓ} → (A → Bool) → Option A → Option A
keep p none = none
keep p (some a) = if p a then some a else none

module _ {ℓ} {V : Type ℓ} where
  -- `SELECT … WHERE p`.
  unfoldable pub select : (V → Bool) → Dict ℕ V → Dict ℕ V
  select p [] = []
  select p ((i, v) ∷ m) = if p v then (i, v) ∷ select p m else select p m

  pub lookup-select_missing :
      (i : ℕ) (p : V → Bool) (m : Dict ℕ V) → lookup i m ≡ none → lookup i (select p m) ≡ none
  unfolding select lookup
  lookup-select_missing i p [] h = refl
  lookup-select_missing i p ((j, v) ∷ m) h = ground (arith, lookup-select_missing i p m)

  pub lookup-select :
      (i : ℕ) (p : V → Bool) (m : Dict ℕ V) → Unique m → lookup i (select p m) ≡ keep p (lookup i m)
  unfolding select lookup
  lookup-select i p [] u = refl
  lookup-select i p ((j, v) ∷ m) u =
      ground (arith, lookup-select i p m u.1, lookup-select_missing i p m)

  pub select-Unique : (p : V → Bool) (m : Dict ℕ V) → Unique m → Unique (select p m)
  unfolding select
  select-Unique p [] u = tt
  select-Unique p ((j, v) ∷ m) u = elim (Bool-cases (p v)) [
    | inl h ↦ rw h (lookup-select_missing j p m u.0, select-Unique p m u.1)
    | inr h ↦ rw h (select-Unique p m u.1)
  ]

module _ {ℓ κ} {V : Type ℓ} {S : Type κ} where
  -- `for _, row := range rows`.
  unfoldable pub each : (S → ℕ → V → S) → S → Dict ℕ V → S
  each step s [] = s
  each step s ((i, v) ∷ m) = each step (step s i v) m

  -- What every round keeps, the loop keeps.
  pub each_inv {μ} :
      (P : S → Type μ) (step : S → ℕ → V → S)
      → ((s : S) (i : ℕ) (v : V) → P s → P (step s i v))
      → (m : Dict ℕ V) (s : S) → P s
      → P (each step s m)
  unfolding each
  each_inv P step h [] s p = p
  each_inv P step h ((i, v) ∷ m) s p = each_inv P step h m (step s i v) (h s i v p)

-- The effect of a loop on one entry: if every round changes only the entry of its own row, the entry
-- is changed once if its id is among the rows, and else not at all.
abbrev pub once {ℓ κ} :
    {V : Type ℓ} {W : Type κ} → (V → Option W → Option W) → Option V → Option W → Option W
once change none old = old
once change (some v) old = change v old

module _ {ℓ κ μ} {V : Type ℓ} {W : Type κ} {S : Type μ} where
  pub lookup-each :
      (i : ℕ) (get : S → Option W) (change : V → Option W → Option W) (step : S → ℕ → V → S)
      → ((s : S) (j : ℕ) (v : V) → get (step s j v) ≡ (if j == i then change v (get s) else get s))
      → (m : Dict ℕ V) → Unique m
      → (s : S) → get (each step s m) ≡ once change (lookup i m) (get s)
  unfolding each lookup
  lookup-each i get change step h [] u s = refl
  lookup-each i get change step h ((j, v) ∷ m) u s = elim (Bool-cases (j == i)) [
    | inl e ↦ rw e (
        ground
          (arith, lookup-each i get change step h m u.1 (step s j v), h s j v, nat_eq.beq_iff j i))
    | inr e ↦ rw e (ground (arith, lookup-each i get change step h m u.1 (step s j v), h s j v))
  ]

module _ {ℓ κ μ ν} {V : Type ℓ} {S : Type κ} where
  -- The same, where the rounds of the rows with `Q` keep it.
  pub each_keeps :
      (P : S → Type μ) (Q : V → Type ν) (step : S → ℕ → V → S)
      → ((s : S) (j : ℕ) (v : V) → Q v → P s → P (step s j v))
      → (m : Dict ℕ V) → Unique m
      → ((j : ℕ) (v : V) → lookup j m ≡ some v → Q v)
      → (s : S) → P s
      → P (each step s m)
  unfolding each lookup
  each_keeps P Q step h [] u q s p = p
  each_keeps P Q step h ((j, v) ∷ m) u q s p =
      each_keeps P Q step h m u.1 (λ k v' e. q k v' (ground (arith, nat_eq.beq_iff j k, e, u.0)))
        (step s j v) (h s j v (q j v (ground (arith, nat_eq.beq_iff j j))) p)

-- A property that the round of one row brings about and the rounds of the rows with `Q` keep holds after
-- a loop over rows with `Q`.
module _ {ℓ κ μ} {V : Type ℓ} {S : Type κ} where
  pub each_reaches {ν ξ} :
      (Inv : S → Type μ) (P : S → Type ν) (Q : V → Type ξ) (step : S → ℕ → V → S) (i : ℕ) (v : V)
      → ((s : S) (j : ℕ) (v' : V) → Inv s → Inv (step s j v'))
      → ((s : S) (j : ℕ) (v' : V) → Q v' → Inv s → P s → P (step s j v'))
      → ((s : S) → Inv s → P (step s i v))
      → (m : Dict ℕ V) → Unique m
      → ((j : ℕ) (v' : V) → lookup j m ≡ some v' → Q v')
      → lookup i m ≡ some v
      → (s : S) → Inv s
      → P (each step s m)
  unfolding each lookup
  each_reaches Inv P Q step i v ki kp hit [] u q e s inv = cc
  each_reaches Inv P Q step i v ki kp hit ((j, v') ∷ m) u q e s inv = elim (Bool-cases (j == i)) [
    | inl h ↦
        let ej : j ≡ i = (nat_eq.beq_iff j i).0 h in
        let ev : v' ≡ v = ground arith in
        let first : P (step s j v') = rw (ej, ev) (hit s inv) in
        (each_keeps (λ s'. Inv s' × P s') Q step
          (λ s' k x y p. (ki s' k x p.0, kp s' k x y p.0 p.1)) m u.1 (λ k x r. q k x (other k x r))
          (step s j v') (ki s j v' inv, first)).1
    | inr h ↦
        each_reaches Inv P Q step i v ki kp hit m u.1 (λ k x r. q k x (other k x r)) (ground arith)
          (step s j v') (ki s j v' inv)
  ]
    where
      other : (k : ℕ) (x : V) → lookup k m ≡ some x → lookup k ((j, v') ∷ m) ≡ some x
      other k x r = ground (arith, nat_eq.beq_iff j k, r, u.0)

module _ {ℓ κ μ} {V : Type ℓ} {W : Type κ} {S : Type μ} (get : S → W) (step : S → ℕ → V → S) where
  -- An entry whose id is not among the rows.
  pub each_frame :
      (i : ℕ)
      → ((s : S) (j : ℕ) (v : V) → (j == i) ≡ false → get (step s j v) ≡ get s)
      → (m : Dict ℕ V) → lookup i m ≡ none
      → (s : S) → get (each step s m) ≡ get s
  unfolding each lookup
  each_frame i h [] e s = refl
  each_frame i h ((j, v) ∷ m) e s = elim (Bool-cases (j == i)) [
    | inl q ↦ cc (let f : some v ≡ none = ground arith in f)
    | inr q ↦ each_frame i h m (ground arith) (step s j v) ∙ h s j v q
  ]

  -- A part of the state that no round of these rows changes.
  pub each_rows {ν} :
      (Q : V → Type ν)
      → ((s : S) (j : ℕ) (v : V) → Q v → get (step s j v) ≡ get s)
      → (m : Dict ℕ V) → Unique m
      → ((j : ℕ) (v : V) → lookup j m ≡ some v → Q v)
      → (s : S) → get (each step s m) ≡ get s
  unfolding each lookup
  each_rows Q h [] u q s = refl
  each_rows Q h ((j, v) ∷ m) u q s =
      each_rows Q h m u.1 (λ k v' e. q k v' (ground (arith, nat_eq.beq_iff j k, e, u.0)))
        (step s j v)
      ∙ h s j v (q j v (ground (arith, nat_eq.beq_iff j j)))
