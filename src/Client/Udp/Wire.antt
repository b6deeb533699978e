-- ===== src/Client/Udp/Wire.antt =====
-- The client's frames against its own reader and against the frames of internal/server/udp_manager.go.
use fxtun_dev.Server.Udp.Frames.{read_frame-frame}
use fxtun_dev.Base.{
  ℕ, ◌+◌, ◌/◌, ◌%◌, ◌^◌, ◌≤◌, ◌<◌, ◌≡◌, refl, ap, ◌∙◌, some, [], ◌∷◌, ◌++◌, arith, nat_eq, length,
  drop, length-append,
}
use mathlib.Core.List.{append_assoc}
use fxtun_dev.Base.Bytes.{Bytes, bytes_eq, read_full, read_full-append, read_full_short}
use fxtun_dev.Protocol.Codec.{put_uint32, uint32}
use fxtun_dev.Server.Udp.{put_uint16, uint16, ended, got, frame, read_frame}
use fxtun_dev.Client.Udp.{put_uint64, uint64, client_frame, fill_payload, read_client_frame}

read_header :
    (n h : ℕ) (s : Bytes)
    → read_full 10 (put_uint16 n ++ (put_uint64 h ++ s)) ≡ some (put_uint16 n ++ put_uint64 h, s)
unfolding put_uint16 put_uint64 put_uint32 read_full
read_header n h s = refl

fields :
    (n h : ℕ)
    → n < 2 ^ 16
    → h < 2 ^ 64
    → (uint16 (put_uint16 n ++ put_uint64 h) ≡ n)
      × (uint64 (drop 2 (put_uint16 n ++ put_uint64 h)) ≡ h)
unfolding put_uint16 put_uint64 put_uint32 uint16 uint64 uint32
fields n h a b = omega arith

-- The client's writer and reader agree: a packet of at most 65507 bytes is read as it was framed, with
-- its 64-bit hash, and what follows in the stream is left.
pub read_client_frame-client_frame :
    (hash : ℕ) (payload rest : Bytes)
    → hash < 2 ^ 64
    → length payload ≤ 65507
    → read_client_frame (client_frame hash payload ++ rest) ≡ got (hash, payload, rest)
unfolding read_client_frame fill_payload client_frame
read_client_frame-client_frame hash payload rest h l =
    rw
      (
        append_assoc (put_uint16 (length payload)) (put_uint64 hash ++ payload) rest,
        append_assoc (put_uint64 hash) payload rest,
      )
      (ground (
        arith,
        read_header (length payload) hash (payload ++ rest),
        fields (length payload) hash,
        read_full-append payload rest,
      ))

server_header :
    (n h a b c d : ℕ) (s : Bytes)
    → read_full 10 (put_uint16 n ++ (put_uint32 h ++ (a ∷ b ∷ c ∷ d ∷ s)))
      ≡ some (put_uint16 n ++ (put_uint32 h ++ (a ∷ b ∷ c ∷ d ∷ [])), s)
unfolding put_uint16 put_uint32 read_full
server_header n h a b c d s = refl

length_field : (n : ℕ) (s : Bytes) → n < 2 ^ 16 → uint16 (put_uint16 n ++ s) ≡ n
unfolding put_uint16 uint16
length_field n s h = omega arith

prefixed : (n : ℕ) (s : Bytes) → length (put_uint32 n ++ s) ≡ 4 + length s
unfolding put_uint32
prefixed n s = omega arith

prefixed_bound : (n : ℕ) (s : Bytes) → length s + 4 ≤ 65507 → length (put_uint32 n ++ s) ≤ 65507
prefixed_bound n s h = omega (arith, prefixed n s)

-- The client's frame, cut where the server cuts it.
same_bytes :
    (hash : ℕ) (front last rest : Bytes)
    → length last ≡ 4
    → client_frame hash (front ++ last) ++ rest
      ≡ frame (hash / 2 ^ 32) (put_uint32 (hash % 2 ^ 32) ++ front) ++ (last ++ rest)
unfolding client_frame frame put_uint64
same_bytes hash front last rest e =
    let n : length (front ++ last) ≡ length (put_uint32 (hash % 2 ^ 32) ++ front) =
      omega (arith, prefixed (hash % 2 ^ 32) front, length-append front last) in
    rw n (simp append_assoc)

-- What a client reads of a frame of the server: never a packet. The server's header has 6 bytes and the
-- client's 10, so that the client takes the first bytes of the payload for the hash and waits for as many
-- bytes at the end.
pub read_client_frame-frame :
    (hash : ℕ) (payload : Bytes)
    → hash < 2 ^ 32
    → length payload ≤ 65507
    → read_client_frame (frame hash payload) ≡ ended
unfolding read_client_frame fill_payload frame read_full put_uint16 put_uint32
read_client_frame-frame hash [] h l = refl
read_client_frame-frame hash (a ∷ []) h l = refl
read_client_frame-frame hash (a ∷ b ∷ []) h l = refl
read_client_frame-frame hash (a ∷ b ∷ c ∷ []) h l = refl
read_client_frame-frame hash (a ∷ b ∷ c ∷ d ∷ p) h l =
    let n = length (a ∷ b ∷ c ∷ d ∷ p) in
    ground (
      arith,
      server_header n hash a b c d p,
      length_field n (put_uint32 hash ++ (a ∷ b ∷ c ∷ d ∷ [])),
      read_full_short n p,
    )

-- What the server reads of a frame of the client: the upper half of the hash as the whole, four bytes of
-- the hash in front of the payload, and the last four bytes of the payload as the start of the next
-- frame.
pub read_frame-client_frame :
    (hash : ℕ) (front last rest : Bytes)
    → hash < 2 ^ 64
    → length last ≡ 4
    → length front + 4 ≤ 65507
    → read_frame (client_frame hash (front ++ last) ++ rest)
      ≡ got (hash / 2 ^ 32, put_uint32 (hash % 2 ^ 32) ++ front, last ++ rest)
read_frame-client_frame hash front last rest h e l =
    ap read_frame (same_bytes hash front last rest e)
    ∙ read_frame-frame (hash / 2 ^ 32) (put_uint32 (hash % 2 ^ 32) ++ front) (last ++ rest)
        (omega arith) (prefixed_bound (hash % 2 ^ 32) front l)
