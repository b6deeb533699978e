-- ===== src/Protocol/Header/RoundTrip.antt =====
-- internal/protocol/stream_header.go: what the reader makes of the writer's bytes.
use fxtun_dev.Base.{
  ℕ, ◌+◌, ◌≤◌, ◌<◌, ◌≡◌, refl, sym, ◌∙◌, ◌⊎◌, inl, inr, none, some, [], ◌∷◌, ◌++◌, arith, length,
  length-append,
}
use fxtun_dev.Base.Bytes.{Bytes, read_full-append, read_full_mono}
use fxtun_dev.Protocol.Io.{Writer}
use fxtun_dev.Protocol.Header.{
  StreamHeader, HeaderError, tunnel_id_too_long, remote_addr_too_long, Result, ok, err, read_field,
  write_stream_header, read_stream_header,
}
use mathlib.Core.List.{append_assoc, append-nil, append_cancel_left}

-- The bytes of a header.
abbrev layout : Bytes → Bytes → Bytes
layout t a = (length t ∷ t) ++ (length a ∷ a)

-- A header that goes out is laid out so, behind what was sent before.
written :
    (w w' : Writer) (t a : Bytes)
    → write_stream_header w t a ≡ (w', none)
    → w'.sent ≡ w.sent ++ layout t a
unfolding write_stream_header
written w w' t a e = ground arith

read_layout :
    (t a rest : Bytes)
    → read_stream_header (layout t a ++ rest) ≡ ok (record { tunnel_id = t; remote_addr = a }, rest)
unfolding read_stream_header
read_layout t a rest = ground (
  arith,
  append_assoc t (length a ∷ a) rest,
  read_full-append t (length a ∷ (a ++ rest)),
  read_full-append a rest,
)

-- A header that was written without error extends what was sent by bytes that are read back as
-- both fields, whatever follows them, and the bytes behind them are left unread.
pub read_stream_header-write_stream_header :
    (w w' : Writer) (t a : Bytes)
    → write_stream_header w t a ≡ (w', none)
    → (m : Bytes) × (w'.sent ≡ w.sent ++ m)
      × ((rest : Bytes)
          → read_stream_header (m ++ rest) ≡ ok (record { tunnel_id = t; remote_addr = a }, rest))
read_stream_header-write_stream_header w w' t a e =
    (layout t a, written w w' t a e, read_layout t a)

-- On a connection that takes the header: if both fields fit a length byte, the writer reports no error;
-- otherwise it reports the field that does not fit, the tunnel's identifier first, and the connection is
-- untouched.
pub write_stream_header_cases :
    (w : Writer) (t a : Bytes)
    → length t + length a + 2 ≤ w.room
    → ((length t ≤ 255) × (length a ≤ 255) × ((write_stream_header w t a).1 ≡ none))
      ⊎ ((255 < length t) × (write_stream_header w t a ≡ (w, some tunnel_id_too_long)))
      ⊎ ((length t ≤ 255)
          × (255 < length a)
          × (write_stream_header w t a ≡ (w, some remote_addr_too_long)))
unfolding write_stream_header
write_stream_header_cases w t a h = ground (arith, length-append t (length a ∷ a))

read_field_mono :
    (n : ℕ) (f : HeaderError) (s d r more : Bytes)
    → read_field n f s ≡ ok (d, r)
    → read_field n f (s ++ more) ≡ ok (d, r ++ more)
unfolding read_field
read_field_mono n f s d r more e = ground (arith, read_full_mono n s d r more)

read_stream_header_mono :
    (s r more : Bytes) (h : StreamHeader)
    → read_stream_header s ≡ ok (h, r)
    → read_stream_header (s ++ more) ≡ ok (h, r ++ more)
unfolding read_stream_header
read_stream_header_mono s r more h e = grind (arith, read_full_mono)

Result-cases {ℓ} :
    {A : Type ℓ} (r : Result A) → ((a : A) × (r ≡ ok a)) ⊎ ((e : HeaderError) × (r ≡ err e))
Result-cases (ok a) = inl (a, refl)
Result-cases (err e) = inr (e, refl)

-- No proper prefix of what the writer appended is read as a header.
pub read_stream_header_truncated :
    (w w' : Writer) (t a front back : Bytes) (x : ℕ)
    → write_stream_header w t a ≡ (w', none)
    → w'.sent ≡ w.sent ++ (front ++ (x ∷ back))
    → (e : HeaderError) × (read_stream_header front ≡ err e)
read_stream_header_truncated w w' t a front back x e p =
    elim (Result-cases (read_stream_header front)) [
      | inl ((h, r), q) ↦ absurd (
          ground (
            arith,
            whole,
            read_stream_header_mono front r (x ∷ back) h q,
            length-append r (x ∷ back),
          ))
      | inr failed ↦ failed
    ]
  where
    same : layout t a ≡ front ++ (x ∷ back)
    same = append_cancel_left w.sent _ _ (sym (written w w' t a e) ∙ p)

    whole :
        read_stream_header (front ++ (x ∷ back))
        ≡ ok (record { tunnel_id = t; remote_addr = a }, [])
    whole = rw (← same, ← append-nil (layout t a)) (read_layout t a [])
