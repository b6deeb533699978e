-- ===== src/Inspect/Manager.antt =====
-- internal/inspect/manager.go: one ring per tunnel. A pointer to a ring is its tunnel's entry, since a ring
-- belongs to one tunnel. The store (an interface over the database) is a parameter: `save` of an exchange
-- with its user.
pub mod Rings
use fxtun_dev.Base.{
  ℕ, zero, suc, ◌+◌, ◌-◌, ◌*◌, ◌/◌, ◌%◌, ◌^◌, ◌≤◌, ◌<◌, ◌≡◌, refl, sym, ap, ◌∙◌, ◌≢◌, ◌↔◌, ◌⊎◌, inl,
  inr, Bool, true, false, not, ◌&&◌, ◌||◌, Option, none, some, List, [], ◌∷◌, ◌++◌, map, arith, ltb,
  leb, eqb, if◌then◌else◌, ltb→lt, lt→ltb, leb→le, eqb_iff, Bool-cases, Option-cases, is_some, Eq,
  nat_eq, ◌==◌, length, get_elem?, set, take, drop, replicate, All, length-append, length-take,
  length-drop,
}
use fxtun_dev.Base.Dict.{Dict, lookup, insert, delete}
use fxtun_dev.Base.Int.{ℤ, pos, negsuc}
use fxtun_dev.Inspect.Channels.{Channel, Channels}
use fxtun_dev.Inspect.Buffer.{RingBuffer, new_ring_buffer, add}
use fxtun_dev.Inspect.Buffer

pub record Manager {ℓ} (A : Type ℓ) : Type ℓ where
  pub buffers : Dict ℕ (RingBuffer A)
  pub user_ids : Dict ℕ ℕ
  pub capacity : ℤ
  pub max_body_size : ℕ

abbrev or_zero : Option ℕ → ℕ
or_zero none = 0
or_zero (some n) = n

-- `m.store.Save`, if there is a store.
abbrev saved {κ} : {S : Type κ} → (S → S) → Option S → Option S
saved f none = none
saved f (some store) = some (f store)

module _ {ℓ} {A : Type ℓ} where
  unfoldable pub new_manager : ℤ → ℕ → Manager A
  new_manager capacity max_body_size = record {
    buffers = [];
    user_ids = [];
    capacity = capacity;
    max_body_size = max_body_size;
  }

  -- The capacity as a number of slots; 0 where inspection is disabled.
  abbrev pub slots : Manager A → ℕ
  slots m = elim m.capacity [ pos n ↦ n | negsuc n ↦ 0 ]

  unfoldable pub enabled : Manager A → Bool
  enabled m = ltb 0 (slots m)

  -- `Get`.
  unfoldable pub get_buffer : ℕ → Manager A → Option (RingBuffer A)
  get_buffer tunnel_id m = lookup tunnel_id m.buffers

  unfoldable pub created : ℕ → Manager A → Option (RingBuffer A) → Manager A × Option (RingBuffer A)
  created tunnel_id m (some rb) = (m, some rb)
  created tunnel_id m none = (
    record m { buffers = insert tunnel_id (new_ring_buffer (slots m)) m.buffers },
    some (new_ring_buffer (slots m)),
  )

  unfoldable pub get_or_create : ℕ → Manager A → Manager A × Option (RingBuffer A)
  unfolding enabled created get_buffer
  get_or_create tunnel_id m =
      if enabled m then created tunnel_id m (get_buffer tunnel_id m) else (m, none)

  unfoldable pub with_user :
      ℕ → ℕ → Manager A × Option (RingBuffer A) → Manager A × Option (RingBuffer A)
  with_user tunnel_id user_id (m, none) = (m, none)
  with_user tunnel_id user_id (m, some rb) =
      (record m { user_ids = insert tunnel_id user_id m.user_ids }, some rb)

  unfoldable pub get_or_create_with_user : ℕ → ℕ → Manager A → Manager A × Option (RingBuffer A)
  unfolding get_or_create with_user
  get_or_create_with_user tunnel_id user_id m =
      with_user tunnel_id user_id (get_or_create tunnel_id m)

  unfoldable pub add_to :
      ℕ → A → Manager A → Channels A → Option (RingBuffer A) → Option (Manager A × Channels A)
  add_to tunnel_id ex m cs none = some (m, cs)
  add_to tunnel_id ex m cs (some rb) = elim (add ex rb cs) [
    | none ↦ none
    | some (rb', cs') ↦ some (record m { buffers = insert tunnel_id rb' m.buffers }, cs')
  ]

  -- `AddAndPersist`, with the store as it is left; no store is `none`. The outer `none` is a panic.
  unfoldable pub add_and_persist {κ} :
      {S : Type κ}
      → (A → ℕ → S → S)
      → ℕ
      → A
      → Manager A
      → Channels A
      → Option S
      → Option (Manager A × Channels A × Option S)
  unfolding add_to get_buffer
  add_and_persist save tunnel_id ex m cs store =
      elim (add_to tunnel_id ex m cs (get_buffer tunnel_id m)) [
        | none ↦ none
        | some (m', cs') ↦
            some (m', cs', saved (save ex (or_zero (lookup tunnel_id m'.user_ids))) store)
      ]

  unfoldable pub close_removed : Option (RingBuffer A) → Channels A → Channels A
  close_removed none cs = cs
  close_removed (some rb) cs = (Buffer.close rb cs).1

  unfoldable pub remove : ℕ → Manager A → Channels A → Manager A × Channels A
  unfolding get_buffer close_removed
  remove tunnel_id m cs = (
    record m { buffers = delete tunnel_id m.buffers; user_ids = delete tunnel_id m.user_ids },
    close_removed (get_buffer tunnel_id m) cs,
  )

  close_buffers : Dict ℕ (RingBuffer A) → Channels A → Channels A
  close_buffers [] cs = cs
  close_buffers ((i, rb) ∷ rbs) cs = close_buffers rbs (Buffer.close rb cs).1

  unfoldable pub close : Manager A → Channels A → Manager A × Channels A
  unfolding close_buffers
  close m cs = (record m { buffers = []; user_ids = [] }, close_buffers m.buffers cs)
