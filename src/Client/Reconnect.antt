-- ===== src/Client/Reconnect.antt =====
-- reconnect of internal/client/client.go as a loop of rounds. What Connect and the token refresher come to
-- in each round, and whether the context is cancelled by then, are parameters. A duration is a number of
-- nanoseconds as its 64 bits; the factor of the jitter is exact, where the source has float64.
mod Ending
mod Backoff
mod Tests
use fxtun_dev.Base.{
  ℕ, zero, suc, ◌+◌, ◌*◌, ◌/◌, ◌%◌, ◌^◌, Bool, false, ◌&&◌, Option, none, some, List, [], ◌∷◌, ltb,
  eqb, if◌then◌else◌,
}
use fxtun_dev.Base.Bytes.{Bytes}
use fxtun_dev.Base.Int.{ℤ, pos, negsuc}

-- maxReconnectBackoff, two minutes.
abbrev pub max_reconnect_backoff : ℕ
max_reconnect_backoff = 120000000000

-- defaultReconnectInterval, five seconds.
abbrev pub default_reconnect_interval : ℕ
default_reconnect_interval = 5000000000

pub record ReconnectConfig : Type 0 where
  pub interval : ℕ
  pub max_attempts : ℤ

-- What Connect comes to. With an expired token, the refresher is missing, fails or has a new token.
pub data Attempt : Type 0 where
  connects : Attempt
  fails : Attempt
  expires : Option (Option Bytes) → Attempt

pub record Surroundings : Type 0 where
  pub attempt : ℕ → Attempt
  -- The byte that rand.Read gives.
  pub random : ℕ → ℕ
  pub cancelled : ℕ → Bool

-- The variables of the loop, with the pauses that it has made, the last one first.
pub record Retry : Type 0 where
  pub attempts : ℕ
  pub current_backoff : ℕ
  pub token : Bytes
  pub slept : List ℕ

pub data End : Type 0 where
  reconnected closed stopped : End

pub data Round : Type 0 where
  again : Retry → Round
  ended : End → Retry → Round

-- `currentBackoff *= 2` with its cap, compared as signed numbers.
unfoldable pub grow : ℕ → ℕ
grow d =
    let twice = (d * 2) % 2 ^ 64 in
    if ltb max_reconnect_backoff twice && ltb twice (2 ^ 63) then max_reconnect_backoff else twice

abbrev pub exceeds : ℤ → ℕ → Bool
exceeds (negsuc k) n = false
exceeds (pos m) n = ltb 0 m && ltb m n

unfoldable pub base_interval : ReconnectConfig → ℕ
base_interval cfg = if eqb cfg.interval 0 then default_reconnect_interval else cfg.interval

-- backoffWithJitter: 0.8 + 0.4 * b / 255 of the duration. A negative duration is no pause.
unfoldable pub backoff_with_jitter : ℕ → ℕ → ℕ
backoff_with_jitter b d = if ltb d (2 ^ 63) then d * (1020 + 2 * (b % 256)) / 1275 else 0

abbrev pub pause : ℕ → Retry → Retry
pause b l = record l {
  current_backoff = grow l.current_backoff;
  slept = backoff_with_jitter b l.current_backoff ∷ l.slept;
}

-- After an attempt, with a random byte.
abbrev pub after : ℕ → Attempt → Retry → Round
after b connects l = ended reconnected l
after b fails l = again (pause b l)
after b (expires none) l = ended closed l
after b (expires (some none)) l = again (pause b l)
after b (expires (some (some t))) l = again (record l { token = t })

-- One round of the loop.
unfoldable pub round : ReconnectConfig → Surroundings → Retry → Round
round cfg w l =
    let n = suc l.attempts in
    if w.cancelled n
    then ended stopped l
    else if exceeds cfg.max_attempts n
    then ended closed (record l { attempts = n })
    else after (w.random n) (w.attempt n) (record l { attempts = n })

-- At most so many rounds.
unfoldable pub rounds : ReconnectConfig → Surroundings → ℕ → Retry → Round
rounds cfg w zero l = again l
rounds cfg w (suc f) l = elim (round cfg w l) [
  | again l' ↦ rounds cfg w f l'
  | ended e l' ↦ ended e l'
]

unfoldable pub first_retry : ReconnectConfig → Bytes → Retry
first_retry cfg token = record {
  attempts = 0;
  current_backoff = base_interval cfg;
  token = token;
  slept = [];
}

unfoldable pub reconnect : ReconnectConfig → Surroundings → ℕ → Bytes → Round
reconnect cfg w fuel token = rounds cfg w fuel (first_retry cfg token)
