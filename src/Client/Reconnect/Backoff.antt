-- ===== src/Client/Reconnect/Backoff.antt =====
-- The pauses of the reconnect loop.
use fxtun_dev.Base.{
  ℕ, zero, suc, ◌+◌, ◌*◌, ◌%◌, List, ◌∷◌, ◌≤◌, ◌≡◌, refl, sym, ap, ◌∙◌, inl, inr, false, some, [],
  arith, leb, if◌then◌else◌, Bool-cases,
}
use native.Mathlib.Nat.{mul-le-mul_left}
use fxtun_dev.Base.Bytes.{Bytes}
use fxtun_dev.Client.Reconnect.{
  ReconnectConfig, fails, expires, Surroundings, Retry, again, grow, backoff_with_jitter, exceeds,
  pause, round, rounds, first_retry, reconnect, max_reconnect_backoff, base_interval,
}
use fxtun_dev.Base.Branches.{}
use fxtun_dev.Client.Reconnect.Ending.{rounds-again, rounds-ended, Round-cases}

abbrev pub min : ℕ → ℕ → ℕ
min a b = if leb a b then a else b

grow_lem : (d : ℕ) → d ≤ max_reconnect_backoff → grow d ≡ min (d * 2) max_reconnect_backoff
unfolding grow
grow_lem d h = ground arith

-- d, doubled so often.
abbrev pub doubled : ℕ → ℕ → ℕ
doubled zero d = d
doubled (suc k) d = doubled k (d * 2)

doubled-le : (k d : ℕ) → d ≤ doubled k d
doubled-le zero d = omega arith
doubled-le (suc k) d = omega (arith, doubled-le k (d * 2))

doubled-min : (k d b : ℕ) → min (doubled k (min d b)) b ≡ min (doubled k d) b
doubled-min k d b = elim (Bool-cases (leb d b)) [
  | inl h ↦ rw h refl
  | inr h ↦ rw h (ground (arith, doubled-le k b, doubled-le k d))
]

round-fails :
    (cfg : ReconnectConfig) (w : Surroundings) (l : Retry)
    → w.cancelled (suc l.attempts) ≡ false
    → exceeds cfg.max_attempts (suc l.attempts) ≡ false
    → w.attempt (suc l.attempts) ≡ fails
    → round cfg w l
      ≡ again (pause (w.random (suc l.attempts)) (record l { attempts = suc l.attempts }))
unfolding round
round-fails cfg w l live under h = rw (live, under, h) refl

round-expires :
    (cfg : ReconnectConfig) (w : Surroundings) (l : Retry) (t : Bytes)
    → w.cancelled (suc l.attempts) ≡ false
    → exceeds cfg.max_attempts (suc l.attempts) ≡ false
    → w.attempt (suc l.attempts) ≡ expires (some (some t))
    → round cfg w l ≡ again (record l { attempts = suc l.attempts; token = t })
unfolding round
round-expires cfg w l t live under h = rw (live, under, h) refl

-- A loop that has not ended, its pause after so many failures.
rounds-fails :
    (cfg : ReconnectConfig) (w : Surroundings) (k : ℕ) (l : Retry)
    → ((n : ℕ) → w.cancelled n ≡ false)
    → ((n : ℕ) → exceeds cfg.max_attempts n ≡ false)
    → ((n : ℕ) → w.attempt n ≡ fails)
    → l.current_backoff ≤ max_reconnect_backoff
    → (l' : Retry) × (rounds cfg w k l ≡ again l')
      × (l'.current_backoff ≡ min (doubled k l.current_backoff) max_reconnect_backoff)
unfolding rounds
rounds-fails cfg w zero l live under bad low = (l, refl, ground arith)
rounds-fails cfg w (suc k) l live under bad low =
    let l1 : Retry = pause (w.random (suc l.attempts)) (record l { attempts = suc l.attempts }) in
    let e : round cfg w l ≡ again l1 =
      round-fails cfg w l (live (suc l.attempts)) (under (suc l.attempts)) (bad (suc l.attempts)) in
    let grown : l1.current_backoff ≡ min (l.current_backoff * 2) max_reconnect_backoff =
      grow_lem l.current_backoff low in
    let (l', r, last) = rounds-fails cfg w k l1 live under bad (ground (arith, grown)) in
    (
      l',
      rounds-again cfg w k l l1 e ∙ r,
      last
          ∙ ap (λ x. min (doubled k x) max_reconnect_backoff) grown
          ∙ doubled-min k (l.current_backoff * 2) max_reconnect_backoff,
    )

-- A pause p that the jitter makes of d: between 0.8 and 1.2 times d, rounded down.
abbrev pub Jittered : ℕ → ℕ → Type 0
Jittered d p = (4 * d ≤ 5 * p + 4) × (5 * p ≤ 6 * d)

backoff_with_jitter-Jittered :
    (b d : ℕ) → d ≤ max_reconnect_backoff → Jittered d (backoff_with_jitter b d)
unfolding backoff_with_jitter
backoff_with_jitter-Jittered b d low =
    let byte : b % 256 ≤ 255 = omega arith in
    let above : d * (2 * (b % 256)) ≤ d * 510 = mul-le-mul_left d (omega (arith, byte)) in
    let split : d * (1020 + 2 * (b % 256)) ≡ d * 1020 + d * (2 * (b % 256)) = omega arith in
    ground (arith, above, split)

rounds_last :
    (cfg : ReconnectConfig) (w : Surroundings) (k : ℕ) (l l1 l2 : Retry)
    → rounds cfg w k l ≡ again l1
    → round cfg w l1 ≡ again l2
    → rounds cfg w (suc k) l ≡ again l2
unfolding rounds
rounds_last cfg w zero l l1 l2 e r = ground (arith, e, r)
rounds_last cfg w (suc k) l l1 l2 e r = elim (Round-cases (round cfg w l)) [
  | inl (l', f) ↦
      rounds-again cfg w (suc k) l l' f
      ∙ rounds_last cfg w k l' l1 l2 (sym (rounds-again cfg w k l l' f) ∙ e) r
  | inr (x, l', f) ↦ absurd (ground (arith, rounds-ended cfg w k l l' x f, e))
]

-- If every attempt fails, nobody cancels and there is no limit of attempts, then after k failures the next
-- one pauses for the interval doubled k times, but at most two minutes, times a jitter of 0.8 to 1.2, if the
-- interval is at most two minutes.
pub reconnect-current_backoff :
    (cfg : ReconnectConfig) (w : Surroundings) (k : ℕ) (token : Bytes)
    → ((n : ℕ) → w.cancelled n ≡ false)
    → ((n : ℕ) → exceeds cfg.max_attempts n ≡ false)
    → ((n : ℕ) → w.attempt n ≡ fails)
    → base_interval cfg ≤ max_reconnect_backoff
    → (l : Retry) × (p : ℕ) × (earlier : List ℕ) × (reconnect cfg w (suc k) token ≡ again l)
      × (l.slept ≡ p ∷ earlier)
      × Jittered (min (doubled k (base_interval cfg)) max_reconnect_backoff) p
unfolding reconnect first_retry
reconnect-current_backoff cfg w k token live under bad low =
    let (l1, e, last) = rounds-fails cfg w k (first_retry cfg token) live under bad low in
    let n : ℕ = suc l1.attempts in
    let d : ℕ = min (doubled k (base_interval cfg)) max_reconnect_backoff in
    let small : d ≤ max_reconnect_backoff = ground arith in
    let l2 : Retry = pause (w.random n) (record l1 { attempts = n }) in
    (
      l2,
      backoff_with_jitter (w.random n) l1.current_backoff,
      l1.slept,
      rounds_last cfg w k (first_retry cfg token) l1 l2 e
          (round-fails cfg w l1 (live n) (under n) (bad n)),
      refl,
      rw last (backoff_with_jitter-Jittered (w.random n) d small),
    )

rounds-expires :
    (cfg : ReconnectConfig) (w : Surroundings) (t : ℕ → Bytes) (k : ℕ) (l : Retry)
    → ((n : ℕ) → w.cancelled n ≡ false)
    → ((n : ℕ) → exceeds cfg.max_attempts n ≡ false)
    → ((n : ℕ) → w.attempt n ≡ expires (some (some (t n))))
    → (l' : Retry) × (rounds cfg w k l ≡ again l')
      × (l'.attempts ≡ l.attempts + k)
      × (l'.slept ≡ l.slept)
unfolding rounds
rounds-expires cfg w t zero l live under renewed = (l, refl, omega arith, refl)
rounds-expires cfg w t (suc k) l live under renewed =
    let l1 : Retry = record l { attempts = suc l.attempts; token = t (suc l.attempts) } in
    let e : round cfg w l ≡ again l1 =
      round-expires cfg w l (t (suc l.attempts)) (live (suc l.attempts)) (under (suc l.attempts))
        (renewed (suc l.attempts)) in
    let (l', r, counted, silent) = rounds-expires cfg w t k l1 live under renewed in
    (l', rounds-again cfg w k l l1 e ∙ r, omega (arith, counted), silent)

-- If the refresher always has a new token and the server always takes it for expired, then without a limit
-- the loop makes any number of attempts without one pause.
pub reconnect_without_pause :
    (cfg : ReconnectConfig) (w : Surroundings) (t : ℕ → Bytes) (k : ℕ) (token : Bytes)
    → ((n : ℕ) → w.cancelled n ≡ false)
    → ((n : ℕ) → exceeds cfg.max_attempts n ≡ false)
    → ((n : ℕ) → w.attempt n ≡ expires (some (some (t n))))
    → (l : Retry) × (reconnect cfg w k token ≡ again l) × (l.attempts ≡ k) × (l.slept ≡ [])
unfolding reconnect first_retry
reconnect_without_pause cfg w t k token live under renewed =
    let (l, r, counted, silent) =
      rounds-expires cfg w t k (first_retry cfg token) live under renewed in
    (l, r, omega (arith, counted), silent)
