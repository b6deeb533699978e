-- ===== src/Inspect/Channels.antt =====
-- Go channels, as the subscribers of a buffer use them: a queue with a bound, open or closed.
use fxtun_dev.Base.{
  ℕ, Bool, true, Option, none, some, List, [], ◌∷◌, ◌++◌, ltb, if◌then◌else◌, nat_eq, length,
}
use fxtun_dev.Base.Dict.{Dict, lookup, insert}

module _ {ℓ} (A : Type ℓ) where
  pub record Channel : Type ℓ where
    pub queue : List A
    pub buffer : ℕ
    pub closed : Bool

  -- The channels that were made, by number.
  abbrev pub Channels : Type ℓ
  Channels = Dict ℕ Channel

module _ {ℓ} {A : Type ℓ} where
  -- `select { case ch <- a: default: }`; `none` is the panic of a send on a closed channel. A
  -- number without a channel stands for none in the program, and nothing is sent.
  unfoldable pub try_send : A → Option (Channel A) → ℕ → Channels A → Option (Channels A)
  try_send a none ch cs = some cs
  try_send a (some c) ch cs =
      if c.closed
      then none
      else some (
          if ltb (length c.queue) c.buffer
          then insert ch (record c { queue = c.queue ++ (a ∷ []) }) cs
          else cs)

  unfoldable pub send : A → ℕ → Channels A → Option (Channels A)
  unfolding try_send
  send a ch cs = try_send a (lookup ch cs) ch cs

  unfoldable pub close_found : Option (Channel A) → ℕ → Channels A → Channels A
  close_found none ch cs = cs
  close_found (some c) ch cs = insert ch (record c { closed = true }) cs

  -- `close(ch)`. A buffer closes a channel once, since Close forgets its subscribers.
  unfoldable pub close : ℕ → Channels A → Channels A
  unfolding close_found
  close ch cs = close_found (lookup ch cs) ch cs
