-- ===== src/Server/Udp/Frames.antt =====
-- The frames of a UDP tunnel.
use fxtun_dev.Base.{ℕ, ◌^◌, ◌≤◌, ◌<◌, ◌≡◌, refl, some, ◌++◌, arith, length, drop}
use mathlib.Core.List.{append_assoc}
use fxtun_dev.Base.Bytes.{Bytes, read_full, read_full-append}
use fxtun_dev.Protocol.Codec.{put_uint32, uint32}
use fxtun_dev.Server.Udp.{
  frame_room, panics, got, read_payload, max_udp_packet_size, UdpAddr, hash_addr, put_uint16,
  uint16, frame, read_frame,
}

pub hash_addr-lt : (a : UdpAddr) → hash_addr a < 2 ^ 32
unfolding hash_addr
hash_addr-lt a = omega arith

read_header :
    (n h : ℕ) (s : Bytes)
    → read_full 6 (put_uint16 n ++ (put_uint32 h ++ s)) ≡ some (put_uint16 n ++ put_uint32 h, s)
unfolding put_uint16 put_uint32 read_full
read_header n h s = refl

fields :
    (n h : ℕ)
    → n < 2 ^ 16
    → h < 2 ^ 32
    → (uint16 (put_uint16 n ++ put_uint32 h) ≡ n)
      × (uint32 (drop 2 (put_uint16 n ++ put_uint32 h)) ≡ h)
unfolding put_uint16 put_uint32 uint16 uint32
fields n h a b = omega arith

-- A packet of at most `max_udp_packet_size` bytes arrives as it was framed, with its hash, and
-- what follows it in the stream is left.
pub read_frame-frame :
    (hash : ℕ) (payload rest : Bytes)
    → hash < 2 ^ 32
    → length payload ≤ max_udp_packet_size
    → read_frame (frame hash payload ++ rest) ≡ got (hash, payload, rest)
unfolding read_frame read_payload frame
read_frame-frame hash payload rest h l =
    rw
      (
        append_assoc (put_uint16 (length payload)) (put_uint32 hash ++ payload) rest,
        append_assoc (put_uint32 hash) payload rest,
      )
      (ground (
        arith,
        read_header (length payload) hash (payload ++ rest),
        fields (length payload) hash,
        read_full-append payload rest,
      ))

-- A header whose length field lies between the room of a buffer and 2 ^ 16 makes the server panic, whatever
-- the hash and the rest of the stream are.
pub read_frame_oversized :
    (len hash : ℕ) (s : Bytes)
    → frame_room < len
    → len < 2 ^ 16
    → hash < 2 ^ 32
    → read_frame (put_uint16 len ++ (put_uint32 hash ++ s)) ≡ panics
unfolding read_frame read_payload
read_frame_oversized len hash s lo hi h = ground (arith, read_header len hash s, fields len hash)
