-- ===== src/Base/Bytes.antt =====
-- Go strings and byte slices as lists of byte values, with the functions of the packages io and
-- strings that the source calls on them. Text is taken to be ASCII where case is folded.
use Prim.Native.Nat.{ℕ, zero, suc, ◌+◌, ◌<◌}
use Prim.Native.Char.{code}
use Prim.Native.String.{String}
use mathlib.Core.Path.{◌≡◌, refl, ap}
use mathlib.Core.Logic.{◌↔◌}
use mathlib.Core.Bool.{Bool, true, false, ◌&&◌}
use mathlib.Core.Option.{Option, none, some}
use mathlib.Core.List.{List, [], ◌∷◌, ◌++◌}
use native.Mathlib.Omega.{arith}
use fxtun_dev.Base.Tests.{leb, eqb, if◌then◌else◌, Eq}
use fxtun_dev.Base.Lists.{length}

abbrev pub Bytes : Type 0
Bytes = List ℕ

abbrev pub codes : String → Bytes
codes String.[] = []
codes (String.◌∷◌ c s) = code c ∷ codes s

-- `a == b` on strings.
abbrev pub bytes_beq : Bytes → Bytes → Bool
bytes_beq [] [] = true
bytes_beq [] (y ∷ ys) = false
bytes_beq (x ∷ xs) [] = false
bytes_beq (x ∷ xs) (y ∷ ys) = eqb x y && bytes_beq xs ys

pub bytes_beq_iff : (a b : Bytes) → (bytes_beq a b ≡ true) ↔ (a ≡ b)
bytes_beq_iff [] [] = ground arith
bytes_beq_iff [] (y ∷ ys) = ground arith
bytes_beq_iff (x ∷ xs) [] = ground arith
bytes_beq_iff (x ∷ xs) (y ∷ ys) = ground (arith, bytes_beq_iff xs ys)

instance abbrev pub bytes_eq : Eq Bytes
bytes_eq = record { beq = bytes_beq; beq_iff = bytes_beq_iff }

-- `io.ReadFull` of n bytes: `none` when the stream ends early.
unfoldable pub read_full : ℕ → Bytes → Option (Bytes × Bytes)
read_full zero s = some ([], s)
read_full (suc n) [] = none
read_full (suc n) (b ∷ s) = elim (read_full n s) [ none ↦ none | some (d, r) ↦ some (b ∷ d, r) ]

-- What was written is read back, and the rest is left.
pub read_full-append : (d r : Bytes) → read_full (length d) (d ++ r) ≡ some (d, r)
unfolding read_full
read_full-append [] r = refl
read_full-append (b ∷ d) r = ground (arith, read_full-append d r)

-- A success splits the stream.
pub read_full_split :
    (n : ℕ) (s d r : Bytes) → read_full n s ≡ some (d, r) → (s ≡ d ++ r) × (length d ≡ n)
unfolding read_full
read_full_split zero s d r e = ground arith
read_full_split (suc n) [] d r e = ground arith
read_full_split (suc n) (b ∷ s) [] r e = ground arith
read_full_split (suc n) (b ∷ s) (c ∷ d) r e = ground (arith, read_full_split n s d r)

-- It fails exactly when too few bytes are left.
pub read_full_short : (n : ℕ) (s : Bytes) → length s < n → read_full n s ≡ none
unfolding read_full
read_full_short zero s h = absurd (omega arith)
read_full_short (suc n) [] h = refl
read_full_short (suc n) (b ∷ s) h = ground (arith, read_full_short n s)

-- More input behind a successful read is left unread.
pub read_full_mono :
    (n : ℕ) (s d r more : Bytes)
    → read_full n s ≡ some (d, r)
    → read_full n (s ++ more) ≡ some (d, r ++ more)
unfolding read_full
read_full_mono zero s d r more e = ground arith
read_full_mono (suc n) [] d r more e = ground arith
read_full_mono (suc n) (b ∷ s) [] r more e = ground arith
read_full_mono (suc n) (b ∷ s) (c ∷ d) r more e = ground (arith, read_full_mono n s d r more)

-- `strings.ToLower`, on ASCII.
unfoldable pub lower : ℕ → ℕ
lower c = if leb b'A' c && leb c b'Z' then c + 32 else c

unfoldable pub to_lower : Bytes → Bytes
unfolding lower
to_lower [] = []
to_lower (c ∷ s) = lower c ∷ to_lower s

lower_idem : (c : ℕ) → lower (lower c) ≡ lower c
unfolding lower
lower_idem c = ground arith

pub to_lower_idem : (s : Bytes) → to_lower (to_lower s) ≡ to_lower s
unfolding to_lower
to_lower_idem [] = refl
to_lower_idem (c ∷ s) = cc (lower_idem c, to_lower_idem s)

pub length-to_lower : (s : Bytes) → length (to_lower s) ≡ length s
unfolding to_lower
length-to_lower [] = refl
length-to_lower (c ∷ s) = ap suc (length-to_lower s)
