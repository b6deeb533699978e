-- ===== src/Protocol/Codec.antt =====
-- internal/protocol/codec.go: messages behind a length of four bytes. JSON (encoding/json) is a
-- parameter; the pool of buffers is not modelled, since no buffer outlives its call.
pub mod Frames
use fxtun_dev.Base.{
  ℕ, zero, suc, ◌+◌, ◌-◌, ◌*◌, ◌/◌, ◌%◌, ◌^◌, ◌≤◌, ◌<◌, ◌≡◌, refl, sym, ap, ◌∙◌, ◌≢◌, ◌↔◌, ◌⊎◌, inl,
  inr, Bool, true, false, not, ◌&&◌, ◌||◌, Option, none, some, List, [], ◌∷◌, ◌++◌, map, arith, ltb,
  leb, eqb, if◌then◌else◌, ltb→lt, lt→ltb, leb→le, eqb_iff, Bool-cases, Option-cases, is_some, Eq,
  ◌==◌, length, get_elem?, set, take, drop, replicate, All, length-append, length-take, length-drop,
}
use fxtun_dev.Base.Bytes.{Bytes, read_full}
use fxtun_dev.Protocol.Io.{Writer, write}

-- 1 << 20.
abbrev pub max_message_size : ℕ
max_message_size = 1_048_576

abbrev pub header_size : ℕ
header_size = 4

pub data CodecError : Type 0 where
  marshal_message message_too_large write_message : CodecError
  read_header read_payload unmarshal_message : CodecError

pub data Result {ℓ} (A : Type ℓ) : Type ℓ where
  ok : A → Result A
  err : CodecError → Result A

infixl 5 ◌>>=◌
abbrev ◌>>=◌ {ℓ κ} : {A : Type ℓ} {B : Type κ} → Result A → (A → Result B) → Result B
ok a >>= f = f a
err e >>= f = err e

-- `binary.BigEndian.PutUint32` of `uint32(n)`.
unfoldable pub put_uint32 : ℕ → Bytes
put_uint32 n = (n / 2 ^ 24 % 256) ∷ (n / 2 ^ 16 % 256) ∷ (n / 2 ^ 8 % 256) ∷ (n % 256) ∷ []

-- `binary.BigEndian.Uint32` of four bytes.
unfoldable pub uint32 : Bytes → ℕ
uint32 (a ∷ b ∷ c ∷ d ∷ _) = a * 2 ^ 24 + b * 2 ^ 16 + c * 2 ^ 8 + d
uint32 _ = 0

abbrev report : Writer × Bool → Writer × Option CodecError
report (w, true) = (w, none)
report (w, false) = (w, some write_message)

unfoldable pub encode_bytes : Bytes → Writer → Writer × Option CodecError
unfolding write put_uint32
encode_bytes d w =
    if ltb max_message_size (length d)
    then (w, some message_too_large)
    else report (write (put_uint32 (length d) ++ d) w)

abbrev or_fail {ℓ} : {A : Type ℓ} → Option A → CodecError → Result A
or_fail none e = err e
or_fail (some a) e = ok a

-- The length prefix and the payload, which `Decode` and `DecodeRaw` both begin with.
unfoldable pub read_frame : Bytes → Result (Bytes × Bytes)
unfolding uint32
read_frame s = do
  (header, s1) ← or_fail (read_full header_size s) read_header
  let len = uint32 header
  if ltb max_message_size len
      then err message_too_large
      else or_fail (read_full len s1) read_payload

-- `marshal` is `json.Marshal`, and `unmarshal` is `json.Unmarshal` into the type at hand.
module _ {ℓ} {M : Type ℓ} (marshal : M → Option Bytes) where
  unfoldable pub encode : M → Writer → Writer × Option CodecError
  encode msg w = elim (marshal msg) [ none ↦ (w, some marshal_message) | some d ↦ encode_bytes d w ]

module _ {ℓ} {M : Type ℓ} (unmarshal : Bytes → Option M) where
  unfoldable pub decode : Bytes → Result (M × Bytes)
  decode s = do
    (d, rest) ← read_frame s
    msg ← or_fail (unmarshal d) unmarshal_message
    ok (msg, rest)

  -- The raw payload beside the base message.
  unfoldable pub decode_raw : Bytes → Result ((Bytes × M) × Bytes)
  decode_raw s = do
    (d, rest) ← read_frame s
    msg ← or_fail (unmarshal d) unmarshal_message
    ok ((d, msg), rest)
