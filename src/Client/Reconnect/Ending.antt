-- ===== src/Client/Reconnect/Ending.antt =====
-- When the reconnect loop ends.
use fxtun_dev.Base.{
  ℕ, zero, suc, ◌+◌, ◌≤◌, ◌<◌, ◌≡◌, refl, ap, ◌∙◌, ◌⊎◌, inl, inr, false, none, some, arith,
}
use fxtun_dev.Base.Bytes.{Bytes}
use fxtun_dev.Base.Int.{pos}
use fxtun_dev.Client.Reconnect.{
  ReconnectConfig, Attempt, connects, fails, expires, Surroundings, Retry, End, reconnected, Round,
  again, ended, exceeds, pause, after, round, rounds, first_retry, reconnect,
}

after-again :
    (b : ℕ) (a : Attempt) (l l' : Retry) → after b a l ≡ again l' → l'.attempts ≡ l.attempts
after-again b connects l l' e = cc
after-again b fails l l' e = ground arith
after-again b (expires none) l l' e = cc
after-again b (expires (some none)) l l' e = ground arith
after-again b (expires (some (some t))) l l' e = ground arith

after-ended :
    (b : ℕ) (a : Attempt) (l l' : Retry) (x : End)
    → after b a l ≡ ended x l'
    → l'.attempts ≡ l.attempts
after-ended b connects l l' x e = ground arith
after-ended b fails l l' x e = cc
after-ended b (expires none) l l' x e = ground arith
after-ended b (expires (some none)) l l' x e = cc
after-ended b (expires (some (some t))) l l' x e = cc

pub Round-cases :
    (r : Round) → ((l : Retry) × (r ≡ again l)) ⊎ ((x : End) × (l : Retry) × (r ≡ ended x l))
Round-cases (again l) = inl (l, refl)
Round-cases (ended x l) = inr (x, l, refl)

-- A round that goes on has counted its attempt, which was not above the limit.
round-again :
    (cfg : ReconnectConfig) (w : Surroundings) (l l' : Retry)
    → round cfg w l ≡ again l'
    → (l'.attempts ≡ suc l.attempts) × (exceeds cfg.max_attempts (suc l.attempts) ≡ false)
unfolding round
round-again cfg w l l' e = ground (
  arith,
  after-again (w.random (suc l.attempts)) (w.attempt (suc l.attempts))
      (record l { attempts = suc l.attempts }) l',
)

round-ended :
    (cfg : ReconnectConfig) (w : Surroundings) (l l' : Retry) (x : End)
    → round cfg w l ≡ ended x l'
    → l'.attempts ≤ suc l.attempts
unfolding round
round-ended cfg w l l' x e = ground (
  arith,
  after-ended (w.random (suc l.attempts)) (w.attempt (suc l.attempts))
      (record l { attempts = suc l.attempts }) l' x,
)

pub rounds-again :
    (cfg : ReconnectConfig) (w : Surroundings) (f : ℕ) (l l' : Retry)
    → round cfg w l ≡ again l'
    → rounds cfg w (suc f) l ≡ rounds cfg w f l'
unfolding rounds
rounds-again cfg w f l l' e = ground arith

pub rounds-ended :
    (cfg : ReconnectConfig) (w : Surroundings) (f : ℕ) (l l' : Retry) (x : End)
    → round cfg w l ≡ ended x l'
    → rounds cfg w (suc f) l ≡ ended x l'
unfolding rounds
rounds-ended cfg w f l l' x e = ground arith

rounds_end :
    (cfg : ReconnectConfig) (w : Surroundings) (m f : ℕ) (l : Retry)
    → cfg.max_attempts ≡ pos (suc m)
    → l.attempts ≤ suc m
    → suc m < f + l.attempts
    → (e : End) × (l' : Retry) × (rounds cfg w f l ≡ ended e l') × (l'.attempts ≤ suc (suc m))
rounds_end cfg w m zero l limit low enough = absurd (omega arith)
rounds_end cfg w m (suc f) l limit low enough = elim (Round-cases (round cfg w l)) [
  | inl (l', e) ↦
      let (counted, under) = round-again cfg w l l' e in
      let under' : exceeds (pos (suc m)) (suc l.attempts) ≡ false = rw limit at under in
      let (x, l2, r, few) = rounds_end cfg w m f l' limit (ground arith) (omega (arith, counted)) in
      (x, l2, rounds-again cfg w f l l' e ∙ r, few)
  | inr (x, l', e) ↦
      (x, l', rounds-ended cfg w f l l' x e, omega (arith, round-ended cfg w l l' x e))
]

-- With a limit of m attempts, m above 0, the loop ends after at most m + 1 rounds, whatever happens in
-- them, and its counter is then at most m + 1.
pub reconnect_total :
    (cfg : ReconnectConfig) (w : Surroundings) (m f : ℕ) (token : Bytes)
    → cfg.max_attempts ≡ pos (suc m)
    → suc m < f
    → (e : End) × (l : Retry) × (reconnect cfg w f token ≡ ended e l) × (l.attempts ≤ suc (suc m))
unfolding reconnect first_retry
reconnect_total cfg w m f token limit enough =
    rounds_end cfg w m f (first_retry cfg token) limit (omega arith) (omega arith)

-- What a round does that neither stops the loop nor connects.
abbrev pub GoesOn : Attempt → Type 0
GoesOn connects = ⊥
GoesOn fails = Unit {0}
GoesOn (expires none) = ⊥
GoesOn (expires (some r)) = Unit {0}

after-GoesOn :
    (b : ℕ) (a : Attempt) (l : Retry) → GoesOn a → (l' : Retry) × (after b a l ≡ again l')
after-GoesOn b connects l h = elim h [ ]
after-GoesOn b fails l h = (pause b l, refl)
after-GoesOn b (expires none) l h = elim h [ ]
after-GoesOn b (expires (some none)) l h = (pause b l, refl)
after-GoesOn b (expires (some (some t))) l h = (record l { token = t }, refl)

round-GoesOn :
    (cfg : ReconnectConfig) (w : Surroundings) (l : Retry)
    → w.cancelled (suc l.attempts) ≡ false
    → exceeds cfg.max_attempts (suc l.attempts) ≡ false
    → GoesOn (w.attempt (suc l.attempts))
    → (l' : Retry) × (round cfg w l ≡ again l') × (l'.attempts ≡ suc l.attempts)
unfolding round
round-GoesOn cfg w l live under h =
    let (l', e) =
      after-GoesOn (w.random (suc l.attempts)) (w.attempt (suc l.attempts))
        (record l { attempts = suc l.attempts }) h in
    let counted : l'.attempts ≡ suc l.attempts =
      after-again (w.random (suc l.attempts)) (w.attempt (suc l.attempts))
        (record l { attempts = suc l.attempts }) l' e in
    (l', ground arith, counted)

round-connects :
    (cfg : ReconnectConfig) (w : Surroundings) (l : Retry)
    → w.cancelled (suc l.attempts) ≡ false
    → exceeds cfg.max_attempts (suc l.attempts) ≡ false
    → w.attempt (suc l.attempts) ≡ connects
    → round cfg w l ≡ ended reconnected (record l { attempts = suc l.attempts })
unfolding round
round-connects cfg w l live under h = rw (live, under, h) refl

rounds_reach :
    (cfg : ReconnectConfig) (w : Surroundings) (left : ℕ) (f : ℕ) (l : Retry)
    → ((n : ℕ) → n ≤ l.attempts + suc left → exceeds cfg.max_attempts n ≡ false)
    → ((n : ℕ) → w.cancelled n ≡ false)
    → ((n : ℕ) → n < l.attempts + suc left → GoesOn (w.attempt n))
    → w.attempt (l.attempts + suc left) ≡ connects
    → left < f
    → (l' : Retry) × (rounds cfg w f l ≡ ended reconnected l')
      × (l'.attempts ≡ l.attempts + suc left)
rounds_reach cfg w left zero l under live goes hit enough = absurd (omega arith)
rounds_reach cfg w zero (suc f) l under live goes hit enough =
    let one : suc l.attempts ≡ l.attempts + 1 = omega arith in
    (
      record l { attempts = suc l.attempts },
      rounds-ended cfg w f l (record l { attempts = suc l.attempts }) reconnected
          (round-connects cfg w l (live (suc l.attempts)) (under (suc l.attempts) (omega arith))
            (ap w.attempt one ∙ hit)),
      one,
    )
rounds_reach cfg w (suc left) (suc f) l under live goes hit enough =
    let (l', e, counted) =
      round-GoesOn cfg w l (live (suc l.attempts)) (under (suc l.attempts) (omega arith))
        (goes (suc l.attempts) (omega arith)) in
    let moved : l'.attempts + suc left ≡ l.attempts + suc (suc left) = omega (arith, counted) in
    let (l2, r, total) =
      rounds_reach cfg w left f l' (λ n h. under n (omega (arith, moved, h))) live
        (λ n h. goes n (omega (arith, moved, h))) (ap w.attempt moved ∙ hit) (omega arith) in
    (l2, rounds-again cfg w f l l' e ∙ r, total ∙ moved)

-- If the server takes the k-th attempt, the ones before fail or end with a refresher that answers, the
-- limit is not below k, and nobody cancels, then the loop reconnects at the k-th attempt.
pub reconnect_reaches :
    (cfg : ReconnectConfig) (w : Surroundings) (k f : ℕ) (token : Bytes)
    → ((n : ℕ) → n ≤ suc k → exceeds cfg.max_attempts n ≡ false)
    → ((n : ℕ) → w.cancelled n ≡ false)
    → ((n : ℕ) → n < suc k → GoesOn (w.attempt n))
    → w.attempt (suc k) ≡ connects
    → k < f
    → (l : Retry) × (reconnect cfg w f token ≡ ended reconnected l) × (l.attempts ≡ suc k)
unfolding reconnect first_retry
reconnect_reaches cfg w k f token under live goes hit enough =
    let sum : 0 + suc k ≡ suc k = omega arith in
    let (l, r, total) =
      rounds_reach cfg w k f (first_retry cfg token) (λ n h. under n (omega (arith, h))) live
        (λ n h. goes n (omega (arith, h))) (ap w.attempt sum ∙ hit) enough in
    (l, r, total ∙ sum)
