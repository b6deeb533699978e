-- ===== src/Server/Udp/Replies.antt =====
-- Where replies go: to the last sender with the hash, which need not be the sender that the client
-- answered.
use mathlib.Core.Option
use fxtun_dev.Base.{
  ℕ, suc, ◌+◌, ◌*◌, ◌%◌, ◌^◌, ◌≤◌, ◌≡◌, refl, ap, ◌∙◌, ◌≢◌, inl, inr, Option, none, some, List, [],
  ◌∷◌, ◌++◌, arith, eqb, ◌==◌, if◌then◌else◌, Bool-cases, nat_eq, length,
}
use fxtun_dev.Base.Bytes.{Bytes, bytes_eq, bytes_beq_iff}
use fxtun_dev.Base.Dict.{lookup, lookup-insert}
use fxtun_dev.Server.Udp.{
  got, UdpAddr, hash_bytes, hash_addr, Relay, new_relay, or_empty, on_packet, route, frame,
  on_frame, max_udp_packet_size,
}
use fxtun_dev.Server.Udp.Frames.{hash_addr-lt, read_frame-frame}

-- The string of the last sender with a hash.
abbrev last_key : (UdpAddr → Bytes) → ℕ → Option Bytes → List (UdpAddr × Bytes × ℕ) → Option Bytes
last_key key h found [] = found
last_key key h found ((a, payload, now) ∷ ps) =
    last_key key h (if eqb (hash_addr a) h then some (key a) else found) ps

-- The last sender with a hash.
abbrev pub last_with : ℕ → Option UdpAddr → List (UdpAddr × Bytes × ℕ) → Option UdpAddr
last_with h found [] = found
last_with h found ((a, payload, now) ∷ ps) =
    last_with h (if eqb (hash_addr a) h then some a else found) ps

-- The last sender with a string.
abbrev pub last_named :
    (UdpAddr → Bytes) → Bytes → Option UdpAddr → List (UdpAddr × Bytes × ℕ) → Option UdpAddr
last_named key k found [] = found
last_named key k found ((a, payload, now) ∷ ps) =
    last_named key k (if key a == k then some a else found) ps

module _ (key : UdpAddr → Bytes) where
  -- The packets of a tunnel in the order in which the socket delivers them.
  abbrev pub relay : Relay → List (UdpAddr × Bytes × ℕ) → Relay
  relay r [] = r
  relay r ((a, payload, now) ∷ ps) = relay (on_packet key a payload now r).0 ps

  hash_to_key-relay :
      (ps : List (UdpAddr × Bytes × ℕ)) (r : Relay) (h : ℕ)
      → lookup h (relay r ps).hash_to_key ≡ last_key key h (lookup h r.hash_to_key) ps
  unfolding on_packet
  hash_to_key-relay [] r h = refl
  hash_to_key-relay ((a, payload, now) ∷ ps) r h =
      hash_to_key-relay ps (on_packet key a payload now r).0 h
      ∙ ap (λ o. last_key key h o ps) (lookup-insert (hash_addr a) h (key a) r.hash_to_key)

  client_addrs-relay :
      (ps : List (UdpAddr × Bytes × ℕ)) (r : Relay) (k : Bytes)
      → lookup k (relay r ps).client_addrs ≡ last_named key k (lookup k r.client_addrs) ps
  unfolding on_packet
  client_addrs-relay [] r k = refl
  client_addrs-relay ((a, payload, now) ∷ ps) r k =
      client_addrs-relay ps (on_packet key a payload now r).0 k
      ∙ ap (λ o. last_named key k o ps) (lookup-insert (key a) k a r.client_addrs)

  last_key-last_with :
      (ps : List (UdpAddr × Bytes × ℕ)) (h : ℕ) (found : Option UdpAddr)
      → last_key key h (Option.map key found) ps ≡ Option.map key (last_with h found ps)
  last_key-last_with [] h found = refl
  last_key-last_with ((a, payload, now) ∷ ps) h found = elim (Bool-cases (eqb (hash_addr a) h)) [
    | inl e ↦ rw e (last_key-last_with ps h (some a))
    | inr e ↦ rw e (last_key-last_with ps h found)
  ]

  last_named_empty :
      ((a : UdpAddr) → key a ≢ [])
      → (ps : List (UdpAddr × Bytes × ℕ)) → last_named key [] none ps ≡ none
  last_named_empty key_ne [] = refl
  last_named_empty key_ne ((a, payload, now) ∷ ps) = elim (Bool-cases (key a == [])) [
    | inl e ↦ absurd (key_ne a ((bytes_beq_iff (key a) []).0 e))
    | inr e ↦ rw e (last_named_empty key_ne ps)
  ]

-- Where a reply under a hash goes: to the last address with the string of the last sender with that hash.
abbrev pub reply_to :
    (UdpAddr → Bytes) → Option UdpAddr → List (UdpAddr × Bytes × ℕ) → Option UdpAddr
reply_to key none ps = none
reply_to key (some a) ps = last_named key (key a) none ps

module _ (key : UdpAddr → Bytes) (key_ne : (a : UdpAddr) → key a ≢ []) where
  route_found :
      (found : Option UdpAddr) (ps : List (UdpAddr × Bytes × ℕ))
      → last_named key (or_empty (Option.map key found)) none ps ≡ reply_to key found ps
  route_found none ps = last_named_empty key key_ne ps
  route_found (some a) ps = refl

  -- Without eviction, a reply under a hash goes to the endpoint of the last sender with that hash, under the
  -- last address that has its string, and is dropped when there was none, if no string of an address is empty.
  pub route-relay :
      (ps : List (UdpAddr × Bytes × ℕ)) (h : ℕ)
      → route h (relay key new_relay ps) ≡ reply_to key (last_with h none ps) ps
  unfolding new_relay route lookup
  route-relay ps h =
      let by_hash : lookup h (relay key new_relay ps).hash_to_key
          ≡ Option.map key (last_with h none ps) =
        hash_to_key-relay key ps new_relay h ∙ last_key-last_with key ps h none in
      ap (λ o. lookup (or_empty o) (relay key new_relay ps).client_addrs) by_hash
      ∙ client_addrs-relay key ps new_relay (or_empty (Option.map key (last_with h none ps)))
      ∙ route_found (last_with h none ps) ps

hash_bytes-append :
    (acc : ℕ) (xs : Bytes) (b : ℕ)
    → hash_bytes acc (xs ++ (b ∷ [])) ≡ (hash_bytes acc xs * 31 + b) % 2 ^ 32
unfolding hash_bytes
hash_bytes-append acc [] b = refl
hash_bytes-append acc (x ∷ xs) b = hash_bytes-append ((acc * 31 + x) % 2 ^ 32) xs b

-- Two senders whose addresses differ by one in the last byte and by 31 in the port have one hash.
pub hash_addr_collision :
    (prefix zone : Bytes) (b port : ℕ)
    → hash_addr (record { ip = prefix ++ (b ∷ []); port = port + 31; zone = zone })
      ≡ hash_addr (record { ip = prefix ++ (suc b ∷ []); port = port; zone = zone })
unfolding hash_addr
hash_addr_collision prefix zone b port =
    omega (arith, hash_bytes-append 0 prefix b, hash_bytes-append 0 prefix (suc b))

module _ (key : UdpAddr → Bytes) where
  -- The client's answer to a packet, under the packet's hash, goes back to the packet's sender as
  -- long as no other packet has arrived.
  pub on_frame-on_packet :
      (a : UdpAddr) (payload reply rest : Bytes) (now : ℕ) (r : Relay)
      → length reply ≤ max_udp_packet_size
      → on_frame (frame (hash_addr a) reply ++ rest) (on_packet key a payload now r).0
        ≡ got (some (reply, a), rest)
  unfolding on_frame route on_packet
  on_frame-on_packet a payload reply rest now r l = ground (
    arith,
    read_frame-frame (hash_addr a) reply rest (hash_addr-lt a) l,
    lookup-insert (hash_addr a) (hash_addr a) (key a) r.hash_to_key,
    lookup-insert (key a) (key a) a r.client_addrs,
    bytes_beq_iff (key a) (key a),
  )

  -- The answer to a first sender goes to a second one instead, if the second has sent since and has
  -- an address with the same hash.
  pub on_frame_crossed :
      (a b : UdpAddr) (pa pb reply rest : Bytes) (na nb : ℕ) (r : Relay)
      → hash_addr a ≡ hash_addr b
      → length reply ≤ max_udp_packet_size
      → on_frame (frame (hash_addr a) reply ++ rest) (relay key r ((a, pa, na) ∷ (b, pb, nb) ∷ []))
        ≡ got (some (reply, b), rest)
  on_frame_crossed a b pa pb reply rest na nb r same l =
      rw same (on_frame-on_packet b pb reply rest nb (on_packet key a pa na r).0 l)
