-- ===== src/Client/Reconnect/Tests.antt =====
-- The reconnect loop and the control side at concrete inputs.
use fxtun_dev.Base.{ℕ, zero, suc, ◌≡◌, ◌≤◌, ◌<◌, refl, Bool, false, List, ◌∷◌, arith}
use fxtun_dev.Base.Bytes.{Bytes, codes}
use fxtun_dev.Base.Int.{pos}
use fxtun_dev.Client.Reconnect.{
  ReconnectConfig, Attempt, connects, fails, Surroundings, Retry, End, reconnected, again, ended,
  reconnect, max_reconnect_backoff, base_interval,
}
use fxtun_dev.Client.Reconnect.Ending.{GoesOn, reconnect_total, reconnect_reaches}
use fxtun_dev.Client.Reconnect.Backoff.{min, doubled, Jittered, reconnect-current_backoff}

-- Five seconds, and so many attempts.
abbrev config : ℕ → ReconnectConfig
config m = record { interval = 5000000000; max_attempts = pos m }

abbrev never : ℕ → Bool
never n = false

abbrev down : Surroundings
down = record { attempt = λ n. fails; random = λ n. n; cancelled = never }

-- The second attempt succeeds.
abbrev second : ℕ → Attempt
second zero = fails
second (suc zero) = fails
second (suc (suc n)) = connects

abbrev back : Surroundings
back = record { attempt = second; random = λ n. n; cancelled = never }

abbrev token : Bytes
token = codes "t"

gives_up :
    (e : End) × (l : Retry) × (reconnect (config 2) down 3 token ≡ ended e l) × (l.attempts ≤ 3)
gives_up = reconnect_total (config 2) down 1 3 token refl (omega arith)

at_first : (n : ℕ) → n < 2 → GoesOn (second n)
at_first zero h = tt
at_first (suc zero) h = tt
at_first (suc (suc n)) h = absurd (omega (arith, h))

comes_back :
    (l : Retry) × (reconnect (config 0) back 9 token ≡ ended reconnected l) × (l.attempts ≡ 2)
comes_back =
    reconnect_reaches (config 0) back 1 9 token (λ n h. refl) (λ n. refl) at_first refl
      (omega arith)

doubled_pause :
    (l : Retry) × (p : ℕ) × (earlier : List ℕ) × (reconnect (config 0) down 4 token ≡ again l)
    × (l.slept ≡ p ∷ earlier)
    × Jittered (min (doubled 3 5000000000) max_reconnect_backoff) p
unfolding base_interval
doubled_pause =
    reconnect-current_backoff (config 0) down 3 token (λ n. refl) (λ n. refl) (λ n. refl)
      (omega arith)
