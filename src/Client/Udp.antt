-- ===== src/Client/Udp.antt =====
-- handleUDPStream of internal/client/udp_proxy.go: the client's side of the frames of a UDP tunnel, and
-- the address hash that an answer carries.
pub mod Wire
use fxtun_dev.Base.{
  ℕ, zero, suc, ◌+◌, ◌-◌, ◌*◌, ◌/◌, ◌%◌, ◌^◌, ◌≤◌, ◌<◌, ◌≡◌, refl, sym, ap, ◌∙◌, ◌≢◌, ◌↔◌, ◌⊎◌, inl,
  inr, Bool, true, false, not, ◌&&◌, ◌||◌, Option, none, some, List, [], ◌∷◌, ◌++◌, map, arith, ltb,
  leb, eqb, if◌then◌else◌, ltb→lt, lt→ltb, leb→le, eqb_iff, Bool-cases, Option-cases, is_some, Eq,
  nat_eq, ◌==◌, length, get_elem?, set, take, drop, replicate, All, length-append, length-take,
  length-drop,
}
use fxtun_dev.Base.Bytes.{Bytes, bytes_eq, read_full}
use fxtun_dev.Protocol.Codec.{put_uint32, uint32}
use fxtun_dev.Server.Udp.{put_uint16, uint16, Reading, ended, panics, got}

abbrev pub client_header_size : ℕ
client_header_size = 10

abbrev pub client_packet_size : ℕ
client_packet_size = 65507

-- `binary.BigEndian.PutUint64` and its inverse.
unfoldable pub put_uint64 : ℕ → Bytes
put_uint64 n = put_uint32 (n / 2 ^ 32) ++ put_uint32 (n % 2 ^ 32)

unfoldable pub uint64 : Bytes → ℕ
uint64 s = uint32 s * 2 ^ 32 + uint32 (drop 4 s)

unfoldable pub client_frame : ℕ → Bytes → Bytes
client_frame hash payload = put_uint16 (length payload) ++ (put_uint64 hash ++ payload)

-- `payload[:length]` of a buffer of 65507 bytes, filled from the stream.
unfoldable pub fill_payload : ℕ → ℕ → Bytes → Reading (ℕ × Bytes × Bytes)
fill_payload hash len s =
    if ltb client_packet_size len
    then panics
    else elim (read_full len s) [ none ↦ ended | some (payload, rest) ↦ got (hash, payload, rest) ]

-- One round of the loop that reads the stream: the hash, the payload and what is left.
unfoldable pub read_client_frame : Bytes → Reading (ℕ × Bytes × Bytes)
read_client_frame s = elim (read_full client_header_size s) [
  | none ↦ ended
  | some (header, s1) ↦ fill_payload (uint64 (drop 2 header)) (uint16 header) s1
]

pub record Proxy : Type 0 where
  pub last_addr_hash : ℕ
  pub bytes_received : ℕ
  pub bytes_sent : ℕ

-- A frame of the stream: the datagram for the local service. The hash is stored before the payload is
-- read, and the counter is of the datagrams that were written.
unfoldable pub from_stream : Bytes → Proxy → Proxy × Reading (Bytes × Bytes)
from_stream s p = elim (read_client_frame s) [
  | ended ↦ (p, ended)
  | panics ↦ (p, panics)
  | got (hash, payload, rest) ↦ (
    record p { last_addr_hash = hash; bytes_received = p.bytes_received + length payload },
    got (payload, rest),
  )
]

-- A datagram of the local service: the frame for the server.
unfoldable pub from_local : Bytes → Proxy → Proxy × Bytes
from_local payload p =
    (record p { bytes_sent = p.bytes_sent + length payload }, client_frame p.last_addr_hash payload)
