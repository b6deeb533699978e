-- ===== src/Protocol/Compress.antt =====
-- internal/protocol/compress.go: the handshake of one byte each way before the first session. The
-- zstd codec (github.com/klauspost/compress) is a parameter: whether it could be set up. Deadlines
-- show as an input that ends early or as a write that fails.
use fxtun_dev.Base.{
  ℕ, ◌-◌, ◌<◌, ◌≡◌, refl, sym, ap, ◌∙◌, ◌⊎◌, Bool, true, false, ◌&&◌, [], ◌∷◌, ◌++◌, arith, eqb,
  if◌then◌else◌,
}
use fxtun_dev.Base.Bytes.{Bytes}
use mathlib.Core.List.{append_cancel_left}
use fxtun_dev.Protocol.Io.{Writer, write}

abbrev pub compress_none : ℕ
compress_none = 0x00

abbrev pub compress_zstd : ℕ
compress_zstd = 0x01

pub data NegotiateError : Type 0 where
  read_preference write_response write_preference read_response create_codec : NegotiateError

-- The connection as it stands, wrapped, or an error.
pub data Negotiated : Type 0 where
  plain compressed : Negotiated
  failed : NegotiateError → Negotiated

abbrev answer : Bool → ℕ
answer accepted = if accepted then compress_zstd else compress_none

-- `zstd_ready`: both `zstd.NewWriter` and `zstd.NewReader` succeed.
module _ (zstd_ready : Bool) where
  unfoldable pub wrap_zstd : Negotiated
  wrap_zstd = if zstd_ready then compressed else failed create_codec

  -- The server's side, on what it can read and the writer to the client.
  unfoldable pub negotiate_server : Bool → Bytes → Writer → Writer × Negotiated
  unfolding wrap_zstd
  negotiate_server want_compress [] w = (w, failed read_preference)
  negotiate_server want_compress (b ∷ rest) w =
      let accepted = eqb b compress_zstd && want_compress in
      let (w', sent) = write (answer accepted ∷ []) w in
      (w', if sent then (if accepted then wrap_zstd else plain) else failed write_response)

  read_answer : Bool → Bytes → Negotiated
  unfolding wrap_zstd
  read_answer want_compress [] = failed read_response
  read_answer want_compress (b ∷ rest) =
      if eqb b compress_zstd && want_compress then wrap_zstd else plain

  -- The client's side.
  unfoldable pub negotiate_client : Bool → Bytes → Writer → Writer × Negotiated
  unfolding read_answer
  negotiate_client want_compress input w =
      let (w', sent) = write (answer want_compress ∷ []) w in
      (w', if sent then read_answer want_compress input else failed write_preference)

negotiate_client_sends :
    (wants : Bool) (input : Bytes) (w : Writer)
    → 0 < w.room
    → negotiate_client true wants input w ≡ (
      record { sent = w.sent ++ (answer wants ∷ []); room = w.room - 1 },
      read_answer true wants input,
    )
unfolding negotiate_client write
negotiate_client_sends wants input w h = ground arith

negotiate_server_sends :
    (wants : Bool) (b : ℕ) (rest : Bytes) (w : Writer)
    → 0 < w.room
    → negotiate_server true wants (b ∷ rest) w ≡ (
      record { sent = w.sent ++ (answer (eqb b compress_zstd && wants) ∷ []); room = w.room - 1 },
      if eqb b compress_zstd && wants then compressed else plain,
    )
unfolding negotiate_server write
negotiate_server_sends wants b rest w h = ground arith

outcome :
    (c s : Bool)
    → (read_answer true c (answer (eqb (answer c) compress_zstd && s) ∷ [])
        ≡ (if eqb (answer c) compress_zstd && s then compressed else plain))
      × (read_answer true c (answer (eqb (answer c) compress_zstd && s) ∷ [])
          ≡ (if c && s then compressed else plain))
unfolding read_answer wrap_zstd
outcome true true = (refl, refl)
outcome true false = (refl, refl)
outcome false s = (refl, refl)

-- A handshake between the two sides over a connection that takes each byte: the server reads what
-- the client sent, and the client what the server sent. Both sides then agree, and they compress
-- exactly when both want to, given that the codec can be set up.
pub negotiate_agree :
    (client_wants server_wants : Bool) (cw sw : Writer) (up down : Bytes)
    → 0 < cw.room
    → 0 < sw.room
    → (negotiate_client true client_wants down cw).0.sent ≡ cw.sent ++ up
    → (negotiate_server true server_wants up sw).0.sent ≡ sw.sent ++ down
    → ((negotiate_client true client_wants down cw).1
        ≡ (negotiate_server true server_wants up sw).1)
      × ((negotiate_client true client_wants down cw).1
          ≡ (if client_wants && server_wants then compressed else plain))
negotiate_agree client_wants server_wants cw sw up down hc hs ec es =
    rw
      (
        negotiate_client_sends client_wants down cw hc,
        up_byte,
        negotiate_server_sends server_wants (answer client_wants) [] sw hs,
        down_byte,
      )
      (outcome client_wants server_wants)
  where
    up_byte : up ≡ answer client_wants ∷ []
    up_byte =
        append_cancel_left cw.sent _ _
          (sym ec ∙ ap (λ r. r.0.sent) (negotiate_client_sends client_wants down cw hc))

    down_byte : down ≡ answer (eqb (answer client_wants) compress_zstd && server_wants) ∷ []
    down_byte = append_cancel_left sw.sent _ _ (
        sym es
        ∙ ap (λ (u : Bytes). (negotiate_server true server_wants u sw).0.sent) up_byte
        ∙ ap (λ r. r.0.sent) (negotiate_server_sends server_wants (answer client_wants) [] sw hs))

-- Neither side compresses against a peer that does not answer `compress_zstd`, or without its own
-- wish, or when the codec cannot be set up.
pub negotiate_compressed :
    (zstd_ready want : Bool) (b : ℕ) (rest : Bytes) (w : Writer)
    → ((negotiate_client zstd_ready want (b ∷ rest) w).1 ≡ compressed)
      ⊎ ((negotiate_server zstd_ready want (b ∷ rest) w).1 ≡ compressed)
    → (zstd_ready ≡ true) × (want ≡ true) × (b ≡ compress_zstd)
unfolding negotiate_client negotiate_server write
negotiate_compressed zstd_ready want b rest w h = ground arith
