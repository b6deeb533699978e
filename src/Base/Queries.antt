-- ===== src/Base/Queries.antt =====
-- Queries on the tables of Base/Tables: the row that is taken, and the selections of a changed table.
use Prim.Native.Nat.{ℕ}
use mathlib.Core.Path.{◌≡◌, refl}
use mathlib.Core.Bool.{Bool, true, false}
use mathlib.Core.Option.{Option, none, some}
use mathlib.Core.List.{[], ◌∷◌, ◌++◌}
use native.Mathlib.Omega.{arith}
use fxtun_dev.Base.Tests.{if◌then◌else◌, is_some, nat_eq}
use fxtun_dev.Base.Dict.{Dict, lookup, insert, delete, Unique}
use fxtun_dev.Base.Tables.{select}

-- The first row of a query, as `QueryRow` takes it.
module _ {ℓ} {V : Type ℓ} where
  abbrev pub head : Dict ℕ V → Option (ℕ × V)
  head [] = none
  head ((i, v) ∷ m) = some (i, v)

  abbrev pub query_row : (V → Bool) → Dict ℕ V → Option (ℕ × V)
  query_row p m = head (select p m)

  pub head-none : (m : Dict ℕ V) → head m ≡ none → m ≡ []
  head-none [] e = refl
  head-none ((i, v) ∷ m) e = cc

  pub query_row-lookup :
      (p : V → Bool) (m : Dict ℕ V) (i : ℕ) (v : V)
      → Unique m
      → query_row p m ≡ some (i, v)
      → (lookup i m ≡ some v) × (p v ≡ true)
  unfolding select lookup
  query_row-lookup p [] i v u e = cc
  query_row-lookup p ((j, w) ∷ m) i v u e =
      ground (arith, query_row-lookup p m i v u.1, nat_eq.beq_iff j i, nat_eq.beq_iff i j, u.0)

  pub select-delete :
      (p : V → Bool) (k : ℕ) (m : Dict ℕ V) → select p (delete k m) ≡ delete k (select p m)
  unfolding select delete
  select-delete p k [] = refl
  select-delete p k ((j, v) ∷ m) = ground (arith, select-delete p k m)

  pub select-insert :
      (p : V → Bool) (k : ℕ) (v : V) (m : Dict ℕ V)
      → lookup k m ≡ none
      → select p (insert k v m) ≡ select p m ++ (if p v then (k, v) ∷ [] else [])
  unfolding select insert lookup
  select-insert p k v [] e = refl
  select-insert p k v ((j, w) ∷ m) e = ground (arith, select-insert p k v m)

  -- What one selection leaves out, another may look for.
  pub select-select_none :
      (p q : V → Bool) (m : Dict ℕ V)
      → ((v : V) → q v ≡ true → p v ≡ false)
      → select p (select q m) ≡ []
  unfolding select
  select-select_none p q [] h = refl
  select-select_none p q ((j, v) ∷ m) h = ground (arith, select-select_none p q m h, h v)

  pub select-select_same :
      (p q : V → Bool) (m : Dict ℕ V)
      → ((v : V) → p v ≡ true → q v ≡ true)
      → select p (select q m) ≡ select p m
  unfolding select
  select-select_same p q [] h = refl
  select-select_same p q ((j, v) ∷ m) h = ground (arith, select-select_same p q m h, h v)

  -- The row that is taken is in every selection that it fits.
  pub query_row-select_none :
      (p q : V → Bool) (m : Dict ℕ V) (k : ℕ) (v : V)
      → query_row p m ≡ some (k, v)
      → select q m ≡ []
      → q v ≡ false
  unfolding select
  query_row-select_none p q [] k v e n = cc
  query_row-select_none p q ((j, w) ∷ m) k v e n = ground (arith, query_row-select_none p q m k v)

  pub query_row-is_some :
      (p : V → Bool) (m : Dict ℕ V) (k : ℕ) (v : V)
      → query_row p m ≡ some (k, v)
      → is_some (lookup k m) ≡ true
  unfolding select lookup
  query_row-is_some p [] k v e = cc
  query_row-is_some p ((j, w) ∷ m) k v e =
      ground (arith, query_row-is_some p m k v, nat_eq.beq_iff j k)
