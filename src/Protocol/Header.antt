-- ===== src/Protocol/Header.antt =====
-- internal/protocol/stream_header.go: the binary header of a data stream.
pub mod RoundTrip
use fxtun_dev.Base.{
  ℕ, zero, suc, ◌+◌, ◌-◌, ◌*◌, ◌/◌, ◌%◌, ◌^◌, ◌≤◌, ◌<◌, ◌≡◌, refl, sym, ap, ◌∙◌, ◌≢◌, ◌↔◌, ◌⊎◌, inl,
  inr, Bool, true, false, not, ◌&&◌, ◌||◌, Option, none, some, List, [], ◌∷◌, ◌++◌, map, arith, ltb,
  leb, eqb, if◌then◌else◌, ltb→lt, lt→ltb, leb→le, eqb_iff, Bool-cases, Option-cases, is_some, Eq,
  ◌==◌, length, get_elem?, set, take, drop, replicate, All, length-append, length-take, length-drop,
}
use fxtun_dev.Protocol.Io.{Writer, write}
use fxtun_dev.Base.Bytes.{Bytes, read_full, read_full-append, read_full_split}

pub record StreamHeader : Type 0 where
  pub tunnel_id : Bytes
  pub remote_addr : Bytes

pub data HeaderError : Type 0 where
  tunnel_id_too_long remote_addr_too_long write_failed : HeaderError
  read_tunnel_id_length read_tunnel_id read_remote_addr_length read_remote_addr : HeaderError

pub data Result {ℓ} (A : Type ℓ) : Type ℓ where
  ok : A → Result A
  err : HeaderError → Result A

-- `_, err := w.Write(buf); return err`.
abbrev report : Writer × Bool → Writer × Option HeaderError
report (w, true) = (w, none)
report (w, false) = (w, some write_failed)

infixl 5 ◌>>=◌
abbrev ◌>>=◌ {ℓ κ} : {A : Type ℓ} {B : Type κ} → Result A → (A → Result B) → Result B
ok a >>= f = f a
err e >>= f = err e

-- The writer afterwards, and the error.
unfoldable pub write_stream_header : Writer → Bytes → Bytes → Writer × Option HeaderError
unfolding write
write_stream_header w tunnel_id remote_addr =
    let tid_len = length tunnel_id in
    let ra_len = length remote_addr in
    if ltb 255 tid_len
    then (w, some tunnel_id_too_long)
    else if ltb 255 ra_len
    then (w, some remote_addr_too_long)
    else report (write (((tid_len % 256) ∷ tunnel_id) ++ ((ra_len % 256) ∷ remote_addr)) w)

-- `io.ReadFull` into a buffer of n bytes, with the error that the caller wraps.
read_field : ℕ → HeaderError → Bytes → Result (Bytes × Bytes)
read_field n e s = elim (read_full n s) [ none ↦ err e | some p ↦ ok p ]

-- One length byte.
read_length : HeaderError → Bytes → Result (ℕ × Bytes)
read_length e [] = err e
read_length e (b ∷ s) = ok (b, s)

unfoldable pub read_stream_header : Bytes → Result (StreamHeader × Bytes)
unfolding read_field read_length
read_stream_header s = do
  (tid_len, s1) ← read_length read_tunnel_id_length s
  (tid, s2) ← read_field tid_len read_tunnel_id s1
  (ra_len, s3) ← read_length read_remote_addr_length s2
  (ra, s4) ← read_field ra_len read_remote_addr s3
  ok (record { tunnel_id = tid; remote_addr = ra }, s4)
