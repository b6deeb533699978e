-- ===== src/Protocol/Codec/Frames.antt =====
-- Framing: what `Encode` and `EncodeBytes` send is what `Decode` and `DecodeRaw` return, message by
-- message.
use fxtun_dev.Base.{
  ℕ, zero, suc, ◌+◌, ◌^◌, ◌≤◌, ◌<◌, ◌≡◌, refl, ◌⊎◌, inl, inr, Option, none, some, List, [], ◌∷◌,
  ◌++◌, arith, Option-cases, length, length-append,
}
use fxtun_dev.Base.Bytes.{Bytes, read_full, read_full-append, read_full_mono, read_full_split}
use fxtun_dev.Protocol.Io.{Writer}
use fxtun_dev.Protocol.Codec.{
  max_message_size, header_size, CodecError, message_too_large, Result, ok, err, ◌>>=◌, put_uint32,
  uint32, encode_bytes, read_frame, encode, decode,
}
use mathlib.Core.List.{append_assoc, append-nil}

-- The four bytes of a length below 2 ^ 32 give it back.
uint32-put_uint32 : (n : ℕ) → n < 2 ^ 32 → uint32 (put_uint32 n) ≡ n
unfolding uint32 put_uint32
uint32-put_uint32 n h = omega arith

-- A frame on the wire.
abbrev pub frame : Bytes → Bytes
frame d = put_uint32 (length d) ++ d

read_header_bytes : (n : ℕ) (s : Bytes) → read_full 4 (put_uint32 n ++ s) ≡ some (put_uint32 n, s)
unfolding put_uint32 read_full
read_header_bytes n s = refl

-- One frame is read back, whatever follows.
pub read_frame-frame :
    (d rest : Bytes) → length d ≤ max_message_size → read_frame (frame d ++ rest) ≡ ok (d, rest)
unfolding read_frame
read_frame-frame d rest h = rw (append_assoc (put_uint32 (length d)) d rest) (
    ground (
      arith,
      read_header_bytes (length d) (d ++ rest),
      uint32-put_uint32 (length d),
      read_full-append d rest,
    ))

-- What `EncodeBytes` does on every branch, on a connection that takes the frame: it sends the frame
-- if the payload is at most `max_message_size` bytes, and otherwise reports the size and sends
-- nothing.
pub encode_bytes_cases :
    (d : Bytes) (w : Writer)
    → length d + header_size ≤ w.room
    → ((length d ≤ max_message_size)
        × ((encode_bytes d w).1 ≡ none)
        × ((encode_bytes d w).0.sent ≡ w.sent ++ frame d))
      ⊎ ((max_message_size < length d) × (encode_bytes d w ≡ (w, some message_too_large)))
unfolding encode_bytes
encode_bytes_cases d w h = ground arith

encode_bytes_sent :
    (d : Bytes) (w w' : Writer)
    → encode_bytes d w ≡ (w', none)
    → (length d ≤ max_message_size) × (w'.sent ≡ w.sent ++ frame d)
unfolding encode_bytes
encode_bytes_sent d w w' e = ground arith

-- A length prefix above the limit is refused whatever follows it, before any payload is read.
pub read_frame_too_large :
    (n : ℕ) (s : Bytes)
    → max_message_size < n
    → n < 2 ^ 32
    → read_frame (put_uint32 n ++ s) ≡ err message_too_large
unfolding read_frame
read_frame_too_large n s lo hi = ground (arith, read_header_bytes n s, uint32-put_uint32 n)

read_frame_parts :
    (s d rest : Bytes)
    → read_frame s ≡ ok (d, rest)
    → (h : Bytes) × (s1 : Bytes) × (read_full header_size s ≡ some (h, s1))
      × (uint32 h ≤ max_message_size)
      × (read_full (uint32 h) s1 ≡ some (d, rest))
unfolding read_frame
read_frame_parts s d rest e = elim (Option-cases (read_full header_size s)) [
  | inl short ↦ absurd (ground (arith, short))
  | inr ((h, s1), p) ↦ (h, s1, p, ground (arith, p), ground (arith, p))
]

-- Every payload that `read_frame` returns keeps the limit.
pub read_frame_bounded :
    (s d rest : Bytes) → read_frame s ≡ ok (d, rest) → length d ≤ max_message_size
read_frame_bounded s d rest e =
    let (h, s1, p, small, q) = read_frame_parts s d rest e in
    omega (arith, (read_full_split (uint32 h) s1 d rest q).1)

read_frame_mono :
    (s d r more : Bytes) → read_frame s ≡ ok (d, r) → read_frame (s ++ more) ≡ ok (d, r ++ more)
unfolding read_frame
read_frame_mono s d r more e = grind (arith, read_full_mono)

Result-cases {ℓ} :
    {A : Type ℓ} (r : Result A) → ((a : A) × (r ≡ ok a)) ⊎ ((e : CodecError) × (r ≡ err e))
Result-cases (ok a) = inl (a, refl)
Result-cases (err e) = inr (e, refl)

-- A connection that ends inside a frame yields an error, and no message.
pub read_frame_truncated :
    (d front back : Bytes) (x : ℕ)
    → length d ≤ max_message_size
    → frame d ≡ front ++ (x ∷ back)
    → (e : CodecError) × (read_frame front ≡ err e)
read_frame_truncated d front back x h p = elim (Result-cases (read_frame front)) [
  | inl ((c, r), q) ↦
      absurd
        (ground (arith, whole, read_frame_mono front c r (x ∷ back) q, length-append r (x ∷ back)))
  | inr failed ↦ failed
]
  where
    whole : read_frame (front ++ (x ∷ back)) ≡ ok (d, [])
    whole = rw (← p, ← append-nil (frame d)) (read_frame-frame d [] h)

-- A JSON library whose decoder reads back what its encoder wrote.
module _ {ℓ} {M : Type ℓ} (marshal : M → Option Bytes) (unmarshal : Bytes → Option M)
    (unmarshal-marshal : (msg : M) (d : Bytes)
      → marshal msg ≡ some d
      → unmarshal d ≡ some msg) where
  -- A message that `Encode` sent is what `Decode` returns, and the bytes behind it are left.
  pub decode-encode :
      (msg : M) (w w' : Writer)
      → encode marshal msg w ≡ (w', none)
      → (m : Bytes) × (w'.sent ≡ w.sent ++ m)
        × ((rest : Bytes) → decode unmarshal (m ++ rest) ≡ ok (msg, rest))
  unfolding encode decode
  decode-encode msg w w' e = elim (Option-cases (marshal msg)) [
    | inl none_made ↦ absurd (ground (arith, none_made))
    | inr (d, made) ↦ (
      frame d,
      (encode_bytes_sent d w w' (ground (arith, made))).1,
      λ rest.
          rw
            (
              read_frame-frame d rest (encode_bytes_sent d w w' (ground (arith, made))).0,
              unmarshal-marshal msg d made,
            )
            refl,
    )
  ]

  -- Calls of `Encode` in a row, up to the first error.
  abbrev pub send_all : List M → Writer → Writer × Option CodecError
  send_all [] w = (w, none)
  send_all (msg ∷ msgs) w =
      let (w', failed) = encode marshal msg w in
      elim failed [ none ↦ send_all msgs w' | some e ↦ (w', some e) ]

  -- As many calls of `Decode` in a row.
  abbrev pub receive : ℕ → Bytes → Result (List M × Bytes)
  receive zero s = ok ([], s)
  receive (suc n) s = do
    (msg, s1) ← decode unmarshal s
    (msgs, s2) ← receive n s1
    ok (msg ∷ msgs, s2)

  -- The messages of a connection arrive in the order and number in which they were sent.
  pub receive-send_all :
      (msgs : List M) (w w' : Writer)
      → send_all msgs w ≡ (w', none)
      → (m : Bytes) × (w'.sent ≡ w.sent ++ m)
        × ((rest : Bytes) → receive (length msgs) (m ++ rest) ≡ ok (msgs, rest))
  receive-send_all [] w w' e = ([], ground (arith, append-nil w.sent), λ rest. refl)
  receive-send_all (msg ∷ msgs) w w' e = elim (Option-cases (encode marshal msg w).1) [
    | inr (x, bad) ↦ absurd (ground (arith, bad))
    | inl good ↦
        let (m, here, read) = decode-encode msg w (encode marshal msg w).0 (ground (arith, good)) in
        let (ms, there, reads) =
          receive-send_all msgs (encode marshal msg w).0 w' (ground (arith, good)) in
        (
          m ++ ms,
          ground (arith, append_assoc w.sent m ms),
          λ rest. rw (append_assoc m ms rest, read (ms ++ rest), reads rest) refl,
        )
  ]
