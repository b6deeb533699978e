-- ===== src/Inspect/Buffer/Subscribers.antt =====
-- The subscribers of a buffer: what a capture sends them, and what closing does to them.
use fxtun_dev.Base.{
  ℕ, ◌≡◌, refl, inl, inr, true, false, none, some, List, [], ◌∷◌, ◌++◌, arith, ltb, eqb,
  if◌then◌else◌, Bool-cases, Option-cases, nat_eq, length, All,
}
use fxtun_dev.Base.Dict.{lookup, insert, lookup-insert}
use fxtun_dev.Inspect.Exchange.{CapturedExchange}
use fxtun_dev.Inspect.Channels.{Channel, Channels, send, try_send, close_found}
use fxtun_dev.Inspect.Channels
use fxtun_dev.Inspect.Buffer.{RingBuffer, add_locked, notify, close, close_all}

abbrev Feed : Type 0
Feed = Channels CapturedExchange

-- A channel is open.
abbrev pub Open : Feed → ℕ → Type 0
Open cs ch = (c : Channel CapturedExchange) × (lookup ch cs ≡ some c) × (c.closed ≡ false)

-- An exchange that is sent to an open channel joins its queue, unless the queue is full; nothing
-- else changes.
pub send_open :
    (ex : CapturedExchange) (ch : ℕ) (cs : Feed) (c : Channel CapturedExchange)
    → lookup ch cs ≡ some c
    → c.closed ≡ false
    → (cs' : Feed) × (send ex ch cs ≡ some cs')
      × ((j : ℕ)
          → lookup j cs' ≡ (
              if eqb ch j
              then some (record c {
                queue = if ltb (length c.queue) c.buffer then c.queue ++ (ex ∷ []) else c.queue;
              })
              else lookup j cs))
unfolding send
send_open ex ch cs c e o = elim (Bool-cases (ltb (length c.queue) c.buffer)) [
  | inl room ↦ (
    insert ch (record c { queue = c.queue ++ (ex ∷ []) }) cs,
    ground (arith, room),
    λ j. ground (arith, room, lookup-insert ch j (record c { queue = c.queue ++ (ex ∷ []) }) cs),
  )
  | inr full ↦ (cs, ground (arith, full), λ j. ground (arith, full))
]

send-Open :
    (ex : CapturedExchange) (ch : ℕ) (cs : Feed)
    → Open cs ch
    → (cs' : Feed) × (send ex ch cs ≡ some cs') × ((j : ℕ) → Open cs j → Open cs' j)
send-Open ex ch cs (c, e, o) =
    let (cs', s, l) = send_open ex ch cs c e o in
    (
      cs',
      s,
      λ j (d, f, p). elim (Bool-cases (eqb ch j)) [
        | inl same ↦ (
          record c {
            queue = if ltb (length c.queue) c.buffer then c.queue ++ (ex ∷ []) else c.queue;
          },
          ground (arith, l j, same),
          o,
        )
        | inr other ↦ (d, ground (arith, l j, other), p)
      ],
    )

pub All-keep :
    (cs cs' : Feed) (subs : List ℕ)
    → ((j : ℕ) → Open cs j → Open cs' j)
    → All (Open cs) subs
    → All (Open cs') subs
All-keep cs cs' [] keep os = tt
All-keep cs cs' (ch ∷ chs) keep (o, os) = (keep ch o, All-keep cs cs' chs keep os)

-- A capture that is sent to open channels does not panic, and leaves open what was open.
pub notify-Open :
    (ex : CapturedExchange) (subs : List ℕ) (cs : Feed)
    → All (Open cs) subs
    → (cs' : Feed) × (notify ex subs cs ≡ some cs') × ((j : ℕ) → Open cs j → Open cs' j)
unfolding notify
notify-Open ex [] cs os = (cs, refl, λ j o. o)
notify-Open ex (ch ∷ chs) cs (o, os) =
    let (cs1, e1, keep1) = send-Open ex ch cs o in
    let (cs2, e2, keep2) = notify-Open ex chs cs1 (All-keep cs cs1 chs keep1 os) in
    (cs2, rw (e1, notify) e2, λ j h. keep2 j (keep1 j h))

-- A closed channel.
abbrev pub Closed : Feed → ℕ → Type 0
Closed cs ch = (c : Channel CapturedExchange) × (lookup ch cs ≡ some c) × (c.closed ≡ true)

close-Closed :
    (ch : ℕ) (cs : Feed) (c : Channel CapturedExchange)
    → lookup ch cs ≡ some c
    → Closed (Channels.close ch cs) ch
unfolding Channels.close
close-Closed ch cs c e = (
  record c { closed = true },
  ground (arith, e, lookup-insert ch ch (record c { closed = true }) cs),
  refl,
)

close_other : (k ch : ℕ) (cs : Feed) → Closed cs ch → Closed (Channels.close k cs) ch
unfolding Channels.close
close_other k ch cs (c, e, o) = elim (Option-cases (lookup k cs)) [
  | inl unknown ↦ (c, ground (arith, unknown, e), o)
  | inr (d, known) ↦ elim (Bool-cases (eqb k ch)) [
    | inl same ↦ (
      record d { closed = true },
      ground (arith, known, same, lookup-insert k ch (record d { closed = true }) cs),
      refl,
    )
    | inr other ↦
        (c, ground (arith, known, other, e, lookup-insert k ch (record d { closed = true }) cs), o)
  ]
]

close_all-Closed :
    (subs : List ℕ) (cs : Feed) (ch : ℕ) → Closed cs ch → Closed (close_all subs cs) ch
unfolding close_all
close_all-Closed [] cs ch h = h
close_all-Closed (k ∷ ks) cs ch h =
    close_all-Closed ks (Channels.close k cs) ch (close_other k ch cs h)

close_all_head :
    (ch : ℕ) (chs : List ℕ) (cs : Feed) → Open cs ch → Closed (close_all (ch ∷ chs) cs) ch
unfolding close_all
close_all_head ch chs cs (c, e, o) =
    close_all-Closed chs (Channels.close ch cs) ch (close-Closed ch cs c e)

notify-Closed :
    (ex : CapturedExchange) (ch : ℕ) (chs : List ℕ) (cs : Feed)
    → Closed cs ch
    → notify ex (ch ∷ chs) cs ≡ none
unfolding notify send
notify-Closed ex ch chs cs (c, e, o) = ground (arith, e, o)

-- `Add` gives the lock back before it sends. If the buffer is closed in between, with a subscriber,
-- the send panics.
pub notify-close_panics :
    (ex : CapturedExchange) (rb rb' : RingBuffer CapturedExchange) (cs : Feed) (subs : List ℕ)
    (ch : ℕ) (chs : List ℕ)
    → rb.subscribers ≡ ch ∷ chs
    → All (Open cs) rb.subscribers
    → add_locked ex rb ≡ some (rb', subs)
    → notify ex subs (close rb' cs).1 ≡ none
unfolding add_locked close
notify-close_panics ex rb rb' cs subs ch chs s os e =
    rw (snapshot, same)
      (notify-Closed ex ch chs (close_all (ch ∷ chs) cs) (close_all_head ch chs cs (rw s at os).0))
  where
    snapshot : subs ≡ ch ∷ chs
    snapshot = ground arith

    same : rb'.subscribers ≡ ch ∷ chs
    same = ground arith
