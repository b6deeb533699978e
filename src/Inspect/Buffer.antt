-- ===== src/Inspect/Buffer.antt =====
-- internal/inspect/buffer.go: the ring of captured exchanges, generic in what it holds. Methods run
-- under the buffer's lock; `Add` sends to its subscribers after it has given the lock back, so its
-- two halves are functions of their own.
pub mod Index
pub mod Refinement
pub mod Subscribers
use fxtun_dev.Base.{
  ℕ, zero, suc, ◌+◌, ◌-◌, ◌*◌, ◌/◌, ◌%◌, ◌^◌, ◌≤◌, ◌<◌, ◌≡◌, refl, sym, ap, ◌∙◌, ◌≢◌, ◌↔◌, ◌⊎◌, inl,
  inr, Bool, true, false, not, ◌&&◌, ◌||◌, Option, none, some, List, [], ◌∷◌, ◌++◌, map, arith, ltb,
  leb, eqb, if◌then◌else◌, ltb→lt, lt→ltb, leb→le, eqb_iff, Bool-cases, Option-cases, is_some, Eq,
  nat_eq, ◌==◌, length, get_elem?, set, take, drop, replicate, All, length-append, length-take,
  length-drop,
}
use fxtun_dev.Base.Bytes.{Bytes, bytes_eq}
use fxtun_dev.Base.Dict.{Dict, insert}
use fxtun_dev.Base.Sets.{without}
use fxtun_dev.Inspect.Channels.{Channel, Channels, send}
use fxtun_dev.Inspect.Channels

pub record RingBuffer {ℓ} (A : Type ℓ) : Type ℓ where
  pub entries : List (Option A)
  pub capacity : ℕ
  pub write_idx : ℕ
  pub count : ℕ
  pub subscribers : List ℕ
  pub closed : Bool

module _ {ℓ} {A : Type ℓ} where
  unfoldable pub new_ring_buffer : ℕ → RingBuffer A
  new_ring_buffer capacity = record {
    entries = replicate capacity none;
    capacity = capacity;
    write_idx = 0;
    count = 0;
    subscribers = [];
    closed = false;
  }

  -- The part of `Add` under the lock, with the snapshot of the subscribers; `none` is the panic of an
  -- index out of range.
  unfoldable pub add_locked : A → RingBuffer A → Option (RingBuffer A × List ℕ)
  add_locked ex rb =
      if ltb rb.write_idx (length rb.entries)
      then some (
        record rb {
          entries = set rb.entries rb.write_idx (some ex);
          write_idx = (rb.write_idx + 1) % rb.capacity;
          count = if ltb rb.count rb.capacity then rb.count + 1 else rb.count;
        },
        rb.subscribers,
      )
      else none

  -- The rest of `Add`; `none` is the panic of a send on a closed channel.
  unfoldable pub notify : A → List ℕ → Channels A → Option (Channels A)
  notify ex [] cs = some cs
  notify ex (ch ∷ chs) cs = elim (send ex ch cs) [ none ↦ none | some cs' ↦ notify ex chs cs' ]

  -- `Add`, with nothing between its halves.
  unfoldable pub add : A → RingBuffer A → Channels A → Option (RingBuffer A × Channels A)
  unfolding add_locked notify
  add ex rb cs = elim (add_locked ex rb) [
    | none ↦ none
    | some (rb', subs) ↦ elim (notify ex subs cs) [ none ↦ none | some cs' ↦ some (rb', cs') ]
  ]

  -- A read of the entries, where an empty slot is nil. The indexes are remainders by the capacity, which is
  -- the length of the entries.
  abbrev pub slot : List (Option A) → ℕ → Option A
  slot [] i = none
  slot (o ∷ os) zero = o
  slot (o ∷ os) (suc i) = slot os i

  -- The loop of `List`, with the rounds that are left.
  list_loop : RingBuffer A → ℕ → ℕ → ℕ → List (Option A)
  list_loop rb offset zero i = []
  list_loop rb offset (suc n) i =
      slot rb.entries ((rb.write_idx + rb.capacity * 2 - 1 - offset - i) % rb.capacity)
      ∷ list_loop rb offset n (suc i)

  -- Offsets and limits are natural numbers.
  unfoldable pub list : ℕ → ℕ → RingBuffer A → List (Option A)
  unfolding list_loop
  list offset limit rb =
      if leb rb.count offset
      then []
      else list_loop rb offset (if ltb (rb.count - offset) limit then rb.count - offset else limit)
          0

  -- The loop of `Get`; the outer `none` is the panic of a nil pointer.
  get_loop : (A → Bytes) → Bytes → RingBuffer A → ℕ → ℕ → Option (Option A)
  get_loop id_of id rb zero i = some none
  get_loop id_of id rb (suc n) i =
      elim (slot rb.entries ((rb.write_idx + rb.capacity - 1 - i) % rb.capacity)) [
        | none ↦ none
        | some ex ↦ elim (id_of ex == id) [
          | true ↦ some (some ex)
          | false ↦ get_loop id_of id rb n (suc i)
        ]
      ]

  unfoldable pub get : (A → Bytes) → Bytes → RingBuffer A → Option (Option A)
  unfolding get_loop
  get id_of id rb = get_loop id_of id rb rb.count 0

  unfoldable pub len : RingBuffer A → ℕ
  len rb = rb.count

  clear_all : List (Option A) → List (Option A)
  clear_all [] = []
  clear_all (o ∷ os) = none ∷ clear_all os

  unfoldable pub clear : RingBuffer A → RingBuffer A
  unfolding clear_all
  clear rb = record rb { entries = clear_all rb.entries; write_idx = 0; count = 0 }

  -- `ch` is the number of the channel that `make` returns.
  unfoldable pub subscribe : ℕ → RingBuffer A → Channels A → RingBuffer A × Channels A
  subscribe ch rb cs =
      if rb.closed then (rb, insert ch (record { queue = []; buffer = 0; closed = true }) cs) else (
        record rb { subscribers = ch ∷ rb.subscribers },
        insert ch (record { queue = []; buffer = 64; closed = false }) cs,
      )

  unfoldable pub unsubscribe : ℕ → RingBuffer A → RingBuffer A
  unsubscribe ch rb = record rb { subscribers = without ch rb.subscribers }

  unfoldable pub subscribers_count : RingBuffer A → ℕ
  subscribers_count rb = length rb.subscribers

  close_all : List ℕ → Channels A → Channels A
  close_all [] cs = cs
  close_all (ch ∷ chs) cs = close_all chs (Channels.close ch cs)

  unfoldable pub close : RingBuffer A → Channels A → RingBuffer A × Channels A
  unfolding close_all
  close rb cs = (record rb { closed = true; subscribers = [] }, close_all rb.subscribers cs)
