-- ===== src/Server/Udp.antt =====
-- internal/server/udp_manager.go: the frames between the server and a client of a UDP tunnel, and the
-- table by which a reply finds its way back. Times are seconds; `addr.String()` (package net) is the
-- parameter `key`.
pub mod Frames
pub mod Replies
pub mod Eviction
use fxtun_dev.Base.{
  ℕ, zero, suc, ◌+◌, ◌-◌, ◌*◌, ◌/◌, ◌%◌, ◌^◌, ◌≤◌, ◌<◌, ◌≡◌, refl, sym, ap, ◌∙◌, ◌≢◌, ◌↔◌, ◌⊎◌, inl,
  inr, Bool, true, false, not, ◌&&◌, ◌||◌, Option, none, some, List, [], ◌∷◌, ◌++◌, map, arith, ltb,
  leb, eqb, if◌then◌else◌, ltb→lt, lt→ltb, leb→le, eqb_iff, Bool-cases, Option-cases, is_some, Eq,
  nat_eq, ◌==◌, length, get_elem?, set, take, drop, replicate, All, length-append, length-take,
  length-drop,
}
use fxtun_dev.Base.Bytes.{Bytes, bytes_eq, read_full}
use fxtun_dev.Base.Dict.{Dict, lookup, insert, delete}
use fxtun_dev.Protocol.Codec.{put_uint32, uint32}

abbrev pub max_udp_packet_size : ℕ
max_udp_packet_size = 65507

abbrev pub udp_header_size : ℕ
udp_header_size = 6

-- net.UDPAddr: the bytes of the IP address, the port and the zone. Addresses may differ in their bytes and
-- have one string, such as the forms of an IPv4 address.
pub record UdpAddr : Type 0 where
  pub ip : Bytes
  pub port : ℕ
  pub zone : Bytes

hash_bytes : ℕ → Bytes → ℕ
hash_bytes hash [] = hash
hash_bytes hash (b ∷ bs) = hash_bytes ((hash * 31 + b) % 2 ^ 32) bs

-- In uint32.
unfoldable pub hash_addr : UdpAddr → ℕ
unfolding hash_bytes
hash_addr addr = (hash_bytes 0 addr.ip * 31 + addr.port) % 2 ^ 32

-- `binary.BigEndian.PutUint16` of `uint16(n)`, and its inverse.
unfoldable pub put_uint16 : ℕ → Bytes
put_uint16 n = (n / 2 ^ 8 % 256) ∷ (n % 256) ∷ []

unfoldable pub uint16 : Bytes → ℕ
uint16 (a ∷ b ∷ _) = a * 2 ^ 8 + b
uint16 _ = 0

-- [2 bytes length][4 bytes addr hash][payload].
unfoldable pub frame : ℕ → Bytes → Bytes
frame hash payload = put_uint16 (length payload) ++ (put_uint32 hash ++ payload)

-- The length of a buffer of `udpFramePool`.
abbrev pub frame_room : ℕ
frame_room = udp_header_size + max_udp_packet_size

-- What a read of the stream comes to: the stream ends, `frame[:length]` is out of range, or a value.
pub data Reading {ℓ} (A : Type ℓ) : Type ℓ where
  ended panics : Reading A
  got : A → Reading A

read_payload : ℕ → ℕ → Bytes → Reading (ℕ × Bytes × Bytes)
read_payload hash len s =
    if ltb frame_room len
    then panics
    else elim (read_full len s) [ none ↦ ended | some (payload, rest) ↦ got (hash, payload, rest) ]

-- One frame of the stream: the hash, the payload, and what is left.
unfoldable pub read_frame : Bytes → Reading (ℕ × Bytes × Bytes)
unfolding uint16 read_payload
read_frame s = elim (read_full udp_header_size s) [
  | none ↦ ended
  | some (header, s1) ↦ read_payload (uint32 (drop 2 header)) (uint16 header) s1
]

-- The maps of `HandlePackets`.
pub record Relay : Type 0 where
  pub client_addrs : Dict Bytes UdpAddr
  pub hash_to_key : Dict ℕ Bytes
  pub client_last_seen : Dict Bytes ℕ

unfoldable pub new_relay : Relay
new_relay = record { client_addrs = []; hash_to_key = []; client_last_seen = [] }

module _ (key : UdpAddr → Bytes) where
  -- A packet from `addr`: the table, and the frame that goes to the client.
  unfoldable pub on_packet : UdpAddr → Bytes → ℕ → Relay → Relay × Bytes
  on_packet addr payload now r = (
    record r {
      client_addrs = insert (key addr) addr r.client_addrs;
      hash_to_key = insert (hash_addr addr) (key addr) r.hash_to_key;
      client_last_seen = insert (key addr) now r.client_last_seen;
    },
    frame (hash_addr addr) payload,
  )

-- A missing map entry reads as the empty string.
abbrev pub or_empty : Option Bytes → Bytes
or_empty none = []
or_empty (some k) = k

-- Where a frame with this hash is sent, if anywhere.
unfoldable pub route : ℕ → Relay → Option UdpAddr
route hash r = lookup (or_empty (lookup hash r.hash_to_key)) r.client_addrs

-- A frame from the client: what is written to the UDP socket, and the rest of the stream.
unfoldable pub on_frame : Bytes → Relay → Reading (Option (Bytes × UdpAddr) × Bytes)
on_frame s r = elim (read_frame s) [
  | ended ↦ ended
  | panics ↦ panics
  | got (hash, payload, rest) ↦
      got (elim (route hash r) [ none ↦ none | some addr ↦ some (payload, addr) ], rest)
]

abbrev pub stale : ℕ → ℕ → Bool
stale now last_seen = ltb 60 (now - last_seen)

-- The loop over `clientLastSeen`.
evict_entries : ℕ → Dict Bytes ℕ → Relay → Relay
evict_entries now [] r = r
evict_entries now ((k, last_seen) ∷ rest) r = evict_entries now rest (
    if stale now last_seen
    then record r {
      client_addrs = delete k r.client_addrs;
      client_last_seen = delete k r.client_last_seen;
    }
    else r)

unfoldable pub evict : ℕ → Relay → Relay
unfolding evict_entries
evict now r = evict_entries now r.client_last_seen r
