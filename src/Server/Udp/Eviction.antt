-- ===== src/Server/Udp/Eviction.antt =====
-- The eviction of senders that have been silent for more than 60 seconds.
use fxtun_dev.Base.{
  ℕ, ◌+◌, ◌≡◌, refl, inl, inr, Bool, false, ◌&&◌, ◌||◌, none, some, [], ◌∷◌, arith, ltb,
  if◌then◌else◌, Bool-cases, nat_eq,
}
use fxtun_dev.Base.Bytes.{Bytes, bytes_eq, bytes_beq_iff, bytes_beq}
use fxtun_dev.Base.Dict.{Dict, lookup, delete, lookup-delete, Unique}
use fxtun_dev.Server.Udp.{Relay, evict_entries, evict, stale}

-- Some entry of the key is stale.
abbrev gone : ℕ → Bytes → Dict Bytes ℕ → Bool
gone now k [] = false
gone now k ((j, t) ∷ m) = (stale now t && bytes_beq j k) || gone now k m

evict_entries_lem :
    (now : ℕ) (es : Dict Bytes ℕ) (r : Relay) (k : Bytes)
    → (lookup k (evict_entries now es r).client_addrs
        ≡ (if gone now k es then none else lookup k r.client_addrs))
      × (lookup k (evict_entries now es r).client_last_seen
          ≡ (if gone now k es then none else lookup k r.client_last_seen))
      × ((evict_entries now es r).hash_to_key ≡ r.hash_to_key)
unfolding evict_entries
evict_entries_lem now [] r k = (refl, refl, refl)
evict_entries_lem now ((j, t) ∷ es) r k = elim (Bool-cases (stale now t)) [
  | inl old ↦ ground (
    arith,
    old,
    evict_entries_lem now es
        (record r {
          client_addrs = delete j r.client_addrs;
          client_last_seen = delete j r.client_last_seen;
        })
        k,
    lookup-delete j k r.client_addrs,
    lookup-delete j k r.client_last_seen,
  )
  | inr recent ↦ ground (arith, recent, evict_entries_lem now es r k)
]

gone_missing : (now : ℕ) (k : Bytes) (m : Dict Bytes ℕ) → lookup k m ≡ none → gone now k m ≡ false
unfolding lookup
gone_missing now k [] e = refl
gone_missing now k ((j, t) ∷ m) e = ground (arith, gone_missing now k m)

gone-lookup :
    (now t : ℕ) (k : Bytes) (m : Dict Bytes ℕ)
    → Unique m
    → lookup k m ≡ some t
    → gone now k m ≡ stale now t
unfolding lookup
gone-lookup now t k [] u e = cc
gone-lookup now t k ((j, v) ∷ m) u e =
    ground (arith, gone_missing now k m, gone-lookup now t k m u.1, bytes_beq_iff j k)

-- One run of the cleanup, for a sender last seen at time t: it is forgotten, with its time, exactly
-- when t is more than 60 seconds ago, and otherwise kept. The table of hashes stays.
pub evict_cases :
    (now t : ℕ) (r : Relay) (k : Bytes)
    → Unique r.client_last_seen
    → lookup k r.client_last_seen ≡ some t
    → (lookup k (evict now r).client_addrs
        ≡ (if ltb (t + 60) now then none else lookup k r.client_addrs))
      × (lookup k (evict now r).client_last_seen ≡ (if ltb (t + 60) now then none else some t))
      × ((evict now r).hash_to_key ≡ r.hash_to_key)
unfolding evict
evict_cases now t r k u e = ground (
  arith,
  gone-lookup now t k r.client_last_seen u e,
  evict_entries_lem now r.client_last_seen r k,
)
