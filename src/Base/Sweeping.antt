-- ===== src/Base/Sweeping.antt =====
-- The loop that deletes the entries of a Go map that fail a test.
use mathlib.Core.Path.{◌≡◌, refl}
use mathlib.Core.Bool.{Bool}
use mathlib.Core.List.{[], ◌∷◌}
use native.Mathlib.Omega.{arith}
use fxtun_dev.Base.Tests.{if◌then◌else◌, Eq}
use fxtun_dev.Base.Dict.{Dict, lookup, delete, lookup-delete}
use fxtun_dev.Base.Tables.{keep}

module _ {ℓ κ} {K : Type ℓ} {V : Type κ} ⦃e : Eq K⦄ where
  -- `for k, v := range m { if !p(v) { delete(m, k) } }`.
  unfoldable pub sweep : (V → Bool) → Dict K V → Dict K V
  sweep p [] = []
  sweep p ((k, v) ∷ m) = let rest = sweep p m in if p v then (k, v) ∷ rest else delete k rest

  pub lookup-sweep :
      (p : V → Bool) (k : K) (m : Dict K V) → lookup k (sweep p m) ≡ keep p (lookup k m)
  unfolding sweep lookup
  lookup-sweep p k [] = refl
  lookup-sweep p k ((j, v) ∷ m) =
      ground (arith, lookup-sweep p k m, lookup-delete j k (sweep p m), e.beq_iff j k)
