-- ===== src/Base/Sets.antt =====
-- Sets of numbers as lists: the keys of a Go map that is only asked for membership.
use Prim.Native.Nat.{ℕ}
use mathlib.Core.Path.{◌≡◌}
use mathlib.Core.Bool.{Bool, false, ◌||◌}
use mathlib.Core.List.{List, [], ◌∷◌}
use native.Mathlib.Omega.{arith}
use fxtun_dev.Base.Tests.{eqb, if◌then◌else◌}

abbrev pub contains : List ℕ → ℕ → Bool
contains [] p = false
contains (q ∷ qs) p = eqb q p || contains qs p

abbrev pub without : ℕ → List ℕ → List ℕ
without p [] = []
without p (q ∷ qs) = if eqb q p then without p qs else q ∷ without p qs

abbrev pub Distinct : List ℕ → Type 0
Distinct [] = Unit
Distinct (q ∷ qs) = (contains qs q ≡ false) × Distinct qs

pub contains-without :
    (p q : ℕ) (l : List ℕ) → contains (without p l) q ≡ (if eqb p q then false else contains l q)
contains-without p q [] = ground arith
contains-without p q (x ∷ l) = ground (arith, contains-without p q l)

pub without-Distinct : (p : ℕ) (l : List ℕ) → Distinct l → Distinct (without p l)
without-Distinct p [] d = tt
without-Distinct p (x ∷ l) d = ground (arith, contains-without p x l, without-Distinct p l d.1)
