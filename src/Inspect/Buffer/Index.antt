-- ===== src/Inspect/Buffer/Index.antt =====
-- The index arithmetic of the ring: how far back a slot is.
use fxtun_dev.Base.{
  ℕ, ◌+◌, ◌-◌, ◌*◌, ◌%◌, ◌<◌, ◌≡◌, sym, ap, ◌∙◌, arith, ltb, eqb, if◌then◌else◌, nat_eq,
}
use native.Mathlib.Nat.{add-mod_right}

-- The slot of the i-th newest entry, without division.
abbrev pub back : ℕ → ℕ → ℕ → ℕ
back w n i = if ltb i w then w - 1 - i else w + n - 1 - i

pub list_index :
    (w n off i : ℕ) → w < n → off + i < n → (w + n * 2 - 1 - off - i) % n ≡ back w n (off + i)
list_index w n off i hw hi = grind arith

one_turn : (w n i : ℕ) → i < n → w + n * 2 - 1 - 0 - i ≡ w + n - 1 - i + n
one_turn w n i h = omega arith

pub get_index : (w n i : ℕ) → w < n → i < n → (w + n - 1 - i) % n ≡ back w n i
get_index w n i hw hi =
    sym (add-mod_right (w + n - 1 - i) n)
    ∙ sym (ap (λ (x : ℕ). x % n) (one_turn w n i hi))
    ∙ list_index w n 0 i hw (omega arith)
    ∙ ap (back w n) (omega arith)

pub next_index : (w n : ℕ) → w < n → (w + 1) % n ≡ (if eqb (w + 1) n then 0 else w + 1)
next_index w n hw = grind arith
