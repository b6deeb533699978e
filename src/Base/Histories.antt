-- ===== src/Base/Histories.antt =====
-- Histories of operations on a state, and how often something comes out of them.
use Prim.Native.Nat.{ℕ, ◌+◌, ◌≤◌}
use mathlib.Core.List.{List, [], ◌∷◌}
use native.Mathlib.Omega.{arith}
use fxtun_dev.Base.Lists.{All}

module _ {ℓ κ} {S : Type ℓ} {Op : Type κ} (step : Op → S → S) where
  unfoldable pub run : List Op → S → S
  run [] s = s
  run (op ∷ ops) s = run ops (step op s)

  -- The sum over the operations, each in the state in which it runs.
  unfoldable pub total : (Op → S → ℕ) → List Op → S → ℕ
  total f [] s = 0
  total f (op ∷ ops) s = f op s + total f ops (step op s)

  -- No more comes out than was held or came in, if it is so for each operation.
  pub total_le :
      (held : S → ℕ) (out into : Op → S → ℕ)
      → ((op : Op) (s : S) → out op s + held (step op s) ≤ held s + into op s)
      → (ops : List Op) (s : S) → total out ops s ≤ held s + total into ops s
  unfolding total
  total_le held out into h [] s = omega arith
  total_le held out into h (op ∷ ops) s =
      let one : out op s + held (step op s) ≤ held s + into op s = h op s in
      let rest : total out ops (step op s) ≤ held (step op s) + total into ops (step op s) =
        total_le held out into h ops (step op s) in
      omega arith

  -- What every operation of a history keeps.
  pub run_inv {μ ν} :
      (P : S → Type μ) (Q : Op → Type ν)
      → ((op : Op) (s : S) → Q op → P s → P (step op s))
      → (ops : List Op) → All Q ops
      → (s : S) → P s
      → P (run ops s)
  unfolding run
  run_inv P Q h [] q s p = p
  run_inv P Q h (op ∷ ops) (q, qs) s p = run_inv P Q h ops qs (step op s) (h op s q p)
