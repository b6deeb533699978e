-- ===== src/Server/Streams/Finding.antt =====
-- Which session a stream of internal/server/stream_pool.go is opened on.
use fxtun_dev.Base.{
  ℕ, zero, suc, ◌+◌, ◌-◌, ◌*◌, ◌/◌, ◌%◌, ◌^◌, ◌≤◌, ◌<◌, ◌≡◌, sym, ap, ◌∙◌, inl, inr, true, false,
  Option, none, some, List, [], ◌∷◌, arith, leb, leb→le, Bool-cases, Option-cases, nat_eq, length,
  get_elem?,
}
use native.Mathlib.Nat.{mod-eq_of_lt, mod-add-div', mod-lt, mul-add-mod_self_right}
use fxtun_dev.Base.Bytes.{bytes_eq}
use fxtun_dev.Server.Streams.{
  Session, Link, all_sessions, usable, try_sessions, or_primary, open_stream_round_robin,
}

-- A loop that fails has found no usable session at any of its positions.
try_sessions-none :
    (k pos : ℕ) (ss : List Session)
    → try_sessions k pos ss ≡ none
    → pos + k ≤ 2 ^ 32
    → (i : ℕ) → i < k
    → usable (get_elem? ss ((pos + i) % length ss)) ≡ none
unfolding try_sessions
try_sessions-none zero pos ss e b i h = absurd (omega arith)
try_sessions-none (suc k) pos ss e b zero h =
    let same : pos + 0 ≡ pos = omega arith in
    rw same (ground (arith, Option-cases (usable (get_elem? ss (pos % length ss)))))
try_sessions-none (suc k) pos ss e b (suc i) h =
    let same : pos + suc i ≡ pos + 1 + i = omega arith in
    let small : (pos + 1) % 2 ^ 32 ≡ pos + 1 = omega arith in
    let rest : try_sessions k ((pos + 1) % 2 ^ 32) ss ≡ none =
      ground (arith, Option-cases (usable (get_elem? ss (pos % length ss)))) in
    rw same (
      try_sessions-none k (pos + 1) ss (sym (ap (λ q. try_sessions k q ss) small) ∙ rest)
        (omega arith) i (omega arith))

usable_lem :
    (r : Option Session) {s : Session} → usable r ≡ some s → (s.closed ≡ false) × (s.opens ≡ true)
usable_lem none e = cc
usable_lem (some t) e = ground arith

-- A loop that succeeds has found a usable one.
try_sessions_usable :
    (k pos : ℕ) (ss : List Session) {s : Session}
    → try_sessions k pos ss ≡ some s
    → (s.closed ≡ false) × (s.opens ≡ true)
unfolding try_sessions
try_sessions_usable zero pos ss e = cc
try_sessions_usable (suc k) pos ss {s} e =
    elim (Option-cases (usable (get_elem? ss (pos % length ss)))) [
      | inl h ↦ try_sessions_usable k ((pos + 1) % 2 ^ 32) ss {s = s} (ground arith)
      | inr (t, h) ↦
          let same : t ≡ s = ground arith in
          rw (← same) (usable_lem (get_elem? ss (pos % length ss)) h)
    ]

wrap : (n j : ℕ) → (n + j) % n ≡ j % n
wrap n j = grind arith

pub get_elem?-lt :
    (ss : List Session) (j : ℕ) {s : Session} → get_elem? ss j ≡ some s → j < length ss
get_elem?-lt [] j e = cc
get_elem?-lt (x ∷ ss) zero e = omega arith
get_elem?-lt (x ∷ ss) (suc j) e = omega (arith, get_elem?-lt ss j e)

-- Every position is met in n rounds.
meets : (pos n j : ℕ) → j < n → (i : ℕ) × (i < n) × ((pos + i) % n ≡ j)
meets pos n j h =
    let q = pos / n in
    let split : pos % n + q * n ≡ pos = mod-add-div' pos n in
    let low : pos % n < n = mod-lt pos (omega arith) in
    elim (Bool-cases (leb (pos % n) j)) [
      | inl k ↦
          let below : pos % n ≤ j = leb→le (pos % n) j k in
          let e : pos + (j - pos % n) ≡ q * n + j = omega (arith, split, below) in
          (
            j - pos % n,
            omega arith,
            ap (λ x. x % n) e ∙ (mul-add-mod_self_right q n j ∙ mod-eq_of_lt h),
          )
      | inr k ↦
          let above : j < pos % n = ground arith in
          let e : pos + (n + j - pos % n) ≡ q * n + (n + j) = omega (arith, split, above, low) in
          (
            n + j - pos % n,
            omega arith,
            ap (λ x. x % n) e ∙ (mul-add-mod_self_right q n (n + j) ∙ (wrap n j ∙ mod-eq_of_lt h)),
          )
    ]

-- If some session of the client is usable, then a stream is opened, and on a usable session: unless the
-- counter of 32 bits wraps around during the search.
pub open_stream_round_robin-finds :
    (c : Link) (j : ℕ) (s : Session)
    → (c.session_idx + 1) % 2 ^ 32 + length (all_sessions c) < 2 ^ 32
    → get_elem? (all_sessions c) j ≡ some s
    → s.closed ≡ false
    → s.opens ≡ true
    → (t : Session) × ((open_stream_round_robin c).1 ≡ some t)
      × (t.closed ≡ false)
      × (t.opens ≡ true)
unfolding open_stream_round_robin
open_stream_round_robin-finds c j s b e open_ works =
    let ss = all_sessions c in
    let n = length ss in
    let pos = (c.session_idx + 1) % 2 ^ 32 in
    let small : n % 2 ^ 32 ≡ n = omega (arith, b) in
    elim (Option-cases (try_sessions n pos ss)) [
      | inl k ↦
          let m = meets pos n j (get_elem?-lt ss j e) in
          let nothing = try_sessions-none n pos ss k (omega (arith, b)) m.0 m.1 in
          let found : usable (some s) ≡ some s = ground arith in
          let clash : ◌≡◌ {A = Option Session} none (some s) =
            sym nothing ∙ (ap (λ x. usable (get_elem? ss x)) m.2 ∙ (ap usable e ∙ found)) in
          absurd (ground arith)
      | inr (t, k) ↦
          let u = try_sessions_usable n pos ss {s = t} k in
          (
            t,
            ap (λ r. or_primary r c.primary) (ap (λ x. try_sessions x pos ss) small ∙ k),
            u.0,
            u.1,
          )
    ]
