-- ===== src/Server/Ports/Laws.antt =====
-- What the allocator promises: a port is in the range, and has one holder at a time.
use fxtun_dev.Base.{
  ℕ, zero, suc, ◌+◌, ◌-◌, ◌≤◌, ◌<◌, ◌≡◌, refl, ◌⊎◌, inl, inr, true, false, ◌||◌, none, some, arith,
  ltb, eqb, if◌then◌else◌, eqb_iff, Bool-cases, nat_eq,
}
use fxtun_dev.Base.Int.{ℤ, pos, negsuc}
use fxtun_dev.Base.Dict.{lookup-insert, lookup-delete}
use fxtun_dev.Server.Ports.{
  PortAllocator, PortError, outside_range, in_use, no_available, ok, err, is_used, mark, scan,
  auto_assign, explicit, allocate, release,
}

abbrev pub InRange : PortAllocator → ℕ → Type 0
InRange a p = (a.port_range.min ≤ p) × (p ≤ a.port_range.max)

pub is_used-mark :
    (a : PortAllocator) (p q : ℕ) → is_used (mark a p) q ≡ (if eqb p q then true else is_used a q)
unfolding is_used mark
is_used-mark a p q = ground (arith, lookup-insert p q true a.used_ports)

pub is_used-release :
    (a : PortAllocator) (p q : ℕ)
    → is_used (release p a) q ≡ (if eqb p q then false else is_used a q)
unfolding is_used release
is_used-release a p q = ground (arith, lookup-delete p q a.used_ports)

-- The scan finds the lowest port that is free, among those it has rounds for.
scan_cases :
    (n lo : ℕ) (a : PortAllocator)
    → ((p : ℕ) × (scan n lo a ≡ some p)
        × (lo ≤ p)
        × (p < lo + n)
        × (is_used a p ≡ false)
        × ((q : ℕ) → lo ≤ q → q < p → is_used a q ≡ true))
      ⊎ ((scan n lo a ≡ none) × ((q : ℕ) → lo ≤ q → q < lo + n → is_used a q ≡ true))
unfolding scan
scan_cases zero lo a = inr (refl, λ q h k. absurd (omega arith))
scan_cases (suc n) lo a = elim (Bool-cases (is_used a lo)) [
  | inr free ↦
      inl (lo, rw (free, scan) refl, omega arith, omega arith, free, λ q h k. absurd (omega arith))
  | inl busy ↦ elim (scan_cases n (suc lo) a) [
    | inl (p, e, l, h, f, below) ↦ inl (
      p,
      rw (busy, scan) e,
      omega arith,
      omega arith,
      f,
      λ q x y. from_next busy q x (λ z. below q z y),
    )
    | inr (e, all) ↦
        inr (rw (busy, scan) e, λ q x y. from_next busy q x (λ z. all q z (omega arith)))
  ]
]
  where
    from_next :
        is_used a lo ≡ true
        → (q : ℕ) → lo ≤ q
        → (suc lo ≤ q → is_used a q ≡ true)
        → is_used a q ≡ true
    from_next busy q x f = elim (Bool-cases (eqb lo q)) [
      | inl same ↦ rw (← (eqb_iff lo q).0 same) busy
      | inr other ↦ f (ground (arith, other))
    ]

-- An automatic assignment yields the lowest free port of the range, and fails only when every port
-- of the range is in use.
pub allocate_auto :
    (a : PortAllocator)
    → ((p : ℕ) × (allocate (pos 0) a ≡ (mark a p, ok p))
        × InRange a p
        × (is_used a p ≡ false)
        × ((q : ℕ) → a.port_range.min ≤ q → q < p → is_used a q ≡ true))
      ⊎ ((allocate (pos 0) a ≡ (a, err no_available))
          × ((q : ℕ) → InRange a q → is_used a q ≡ true))
unfolding allocate auto_assign
allocate_auto a = elim (scan_cases (a.port_range.max + 1 - a.port_range.min) a.port_range.min a) [
  | inl (p, e, l, h, f, below) ↦ inl (p, rw (e, auto_assign) refl, (l, omega arith), f, below)
  | inr (e, all) ↦ inr (rw (e, auto_assign) refl, λ q h. all q h.0 (omega arith))
]

-- A request for port n succeeds exactly when n lies in the range and is free; the two refusals are
-- told apart, and change nothing.
pub allocate_requested :
    (a : PortAllocator) (n : ℕ)
    → 0 < n
    → allocate (pos n) a ≡ (
        if ltb n a.port_range.min || ltb a.port_range.max n
        then (a, err outside_range)
        else if is_used a n
        then (a, err in_use)
        else (mark a n, ok n))
unfolding allocate explicit
allocate_requested a zero h = absurd (omega arith)
allocate_requested a (suc n) h = refl

-- Whatever was requested, a successful call hands out one port of the range that was free, marks it
-- as used and no other, and it is the requested one unless 0 was requested.
pub allocate_ok :
    (r : ℤ) (a a' : PortAllocator) (p : ℕ)
    → allocate r a ≡ (a', ok p)
    → (a' ≡ mark a p) × InRange a p × (is_used a p ≡ false) × ((r ≡ pos 0) ⊎ (r ≡ pos p))
allocate_ok (negsuc n) a a' p e = unfold allocate in ground arith
allocate_ok (pos zero) a a' p e = elim (allocate_auto a) [
  | inl (q, g, i, f, below) ↦ ground (arith, g)
  | inr (g, all) ↦ ground (arith, g)
]
allocate_ok (pos (suc n)) a a' p e = ground (arith, allocate_requested a (suc n))

-- A refused request leaves the allocator as it was.
pub allocate_err :
    (r : ℤ) (a a' : PortAllocator) (x : PortError) → allocate r a ≡ (a', err x) → a' ≡ a
allocate_err (negsuc n) a a' x e = unfold allocate in ground arith
allocate_err (pos zero) a a' x e = elim (allocate_auto a) [
  | inl (q, g, i, f, below) ↦ ground (arith, g)
  | inr (g, all) ↦ ground (arith, g)
]
allocate_err (pos (suc n)) a a' x e = ground (arith, allocate_requested a (suc n))

-- If some port of the range is free, an automatic assignment hands out a free port of the range, and none
-- above that port.
pub allocate_lowest :
    (a : PortAllocator) (q : ℕ)
    → InRange a q
    → is_used a q ≡ false
    → (p : ℕ) × (allocate (pos 0) a ≡ (mark a p, ok p))
      × InRange a p
      × (is_used a p ≡ false)
      × (p ≤ q)
allocate_lowest a q i free = elim (allocate_auto a) [
  | inr (e, all) ↦ absurd (ground (arith, all q i))
  | inl (p, e, j, f, below) ↦ (p, e, j, f, ground (arith, below q))
]
