-- ===== src/Inspect/Manager/Rings.antt =====
-- Every ring of a manager works as a bounded list, whatever was captured.
use fxtun_dev.Base.{
  ℕ, ◌≡◌, refl, ◌∙◌, true, none, some, List, [], ◌∷◌, arith, ltb→lt, nat_eq, take, All,
}
use fxtun_dev.Base.Dict.{lookup, insert, lookup-insert}
use fxtun_dev.Inspect.Exchange.{CapturedExchange}
use fxtun_dev.Inspect.Channels.{Channels}
use fxtun_dev.Inspect.Buffer.{RingBuffer, new_ring_buffer, add, add_locked}
use fxtun_dev.Inspect.Buffer.Refinement.{Holds, new-Holds, add_locked-Holds}
use fxtun_dev.Inspect.Buffer.Subscribers.{Open, All-keep, notify-Open}
use fxtun_dev.Inspect.Manager.{
  Manager, slots, enabled, get_buffer, created, get_or_create, with_user, get_or_create_with_user,
  add_to, add_and_persist,
}

-- The tunnel has a ring, which holds the list, and whose subscribers' channels are open.
abbrev pub Captures :
    Manager CapturedExchange → Channels CapturedExchange → ℕ → List CapturedExchange → Type 0
Captures m cs tunnel_id xs =
    (rb : RingBuffer CapturedExchange) × (get_buffer tunnel_id m ≡ some rb)
    × Holds rb xs
    × All (Open cs) rb.subscribers
    × (rb.capacity ≡ slots m)

-- The ring of a tunnel that had none is empty, where inspection is enabled.
pub get_or_create-Captures :
    (tunnel_id user_id : ℕ) (m : Manager CapturedExchange) (cs : Channels CapturedExchange)
    → enabled m ≡ true
    → get_buffer tunnel_id m ≡ none
    → Captures (get_or_create_with_user tunnel_id user_id m).0 cs tunnel_id []
unfolding get_or_create_with_user get_or_create enabled get_buffer created with_user new_ring_buffer
get_or_create-Captures tunnel_id user_id m cs on fresh =
    rw (on, fresh)
      (
        new_ring_buffer (slots m),
        ground (
          arith,
          lookup-insert tunnel_id tunnel_id (new_ring_buffer {A = CapturedExchange} (slots m))
              m.buffers,
        ),
        new-Holds (slots m) (ltb→lt 0 (slots m) on),
        tt,
        refl,
      )

-- What is written keeps the subscribers.
add_locked_subscribers :
    (ex : CapturedExchange) (rb rb' : RingBuffer CapturedExchange) (subs : List ℕ)
    → add_locked ex rb ≡ some (rb', subs)
    → rb'.subscribers ≡ rb.subscribers
unfolding add_locked
add_locked_subscribers ex rb rb' subs e = ground arith

-- A captured exchange stands first in the ring of its tunnel, which drops its oldest one when it is full; the
-- capture does not panic, and the store gets the exchange with the tunnel's user.
pub add_and_persist-Captures {κ} :
    {S : Type κ} (save : CapturedExchange → ℕ → S → S) (tunnel_id : ℕ) (ex : CapturedExchange)
    (m : Manager CapturedExchange) (cs : Channels CapturedExchange) (store : S)
    (xs : List CapturedExchange) (user_id : ℕ)
    → Captures m cs tunnel_id xs
    → lookup tunnel_id m.user_ids ≡ some user_id
    → (m' : Manager CapturedExchange) × (cs' : Channels CapturedExchange) × (add_and_persist save
          tunnel_id ex m cs
          (some store)
        ≡ some (m', cs', some (save ex user_id store)))
      × Captures m' cs' tunnel_id (take (slots m) (ex ∷ xs))
unfolding add_and_persist add_to get_buffer add
add_and_persist-Captures save tunnel_id ex m cs store xs user_id (rb, found, h, os, size) user =
    let (rb', stored, h', cap') = add_locked-Holds ex rb xs h in
    let (cs', sent, keep) = notify-Open ex rb.subscribers cs os in
    let m' = record m { buffers = insert tunnel_id rb' m.buffers } in
    (
      m',
      cs',
      ground (arith, found, stored, sent, user),
      (
        rb',
        ground (arith, lookup-insert tunnel_id tunnel_id rb' m.buffers),
        rw size at h',
        rw (add_locked_subscribers ex rb rb' rb.subscribers stored)
            (All-keep cs cs' rb.subscribers keep os),
        cap' ∙ size,
      ),
    )
