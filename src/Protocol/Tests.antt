-- ===== src/Protocol/Tests.antt =====
-- Runs of the protocol's functions, and its theorems at concrete inputs.
use fxtun_dev.Base.{ℕ, ◌≡◌, refl, sym, true, Option, none, some, List, [], ◌∷◌, ◌++◌, arith}
use fxtun_dev.Base.Bytes.{Bytes, codes, read_full}
use fxtun_dev.Protocol.Io.{Writer, write}
use fxtun_dev.Protocol.Header.{write_stream_header, read_stream_header}
use fxtun_dev.Protocol.Header
use fxtun_dev.Protocol.Header.RoundTrip.{read_stream_header-write_stream_header}
use fxtun_dev.Protocol.Codec.{
  message_too_large, ok, err, put_uint32, encode_bytes, read_frame, encode,
}
use fxtun_dev.Protocol.Codec.Frames.{
  frame, read_frame_too_large, send_all, receive, receive-send_all,
}
use fxtun_dev.Protocol.Messages.{MessageType, ping, tag, message, parse_message}
use fxtun_dev.Protocol.Compress.{compressed, negotiate_server, negotiate_client}

abbrev fresh : Writer
fresh = record { sent = []; room = 100 }

abbrev after_header : Writer
after_header = record { sent = 2 ∷ 116 ∷ 49 ∷ 1 ∷ 58 ∷ []; room = 95 }

header_run : write_stream_header fresh (codes "t1") (codes ":") ≡ (after_header, none)
unfolding write_stream_header
header_run = refl

read_stream_header-write_stream_header_example :
    (m : Bytes) × (after_header.sent ≡ fresh.sent ++ m)
    × ((rest : Bytes)
        → read_stream_header (m ++ rest)
          ≡ Header.ok (record { tunnel_id = codes "t1"; remote_addr = codes ":" }, rest))
read_stream_header-write_stream_header_example =
    read_stream_header-write_stream_header fresh after_header (codes "t1") (codes ":") header_run

-- The messages are byte strings, which the library leaves as they are.
abbrev marshal : Bytes → Option Bytes
marshal d = some d

abbrev two_messages : List Bytes
two_messages = (7 ∷ 8 ∷ []) ∷ [] ∷ []

abbrev after_messages : Writer
after_messages = record { sent = 0 ∷ 0 ∷ 0 ∷ 2 ∷ 7 ∷ 8 ∷ 0 ∷ 0 ∷ 0 ∷ 0 ∷ []; room = 90 }

messages_run :
    send_all marshal marshal (λ msg d e. sym e) two_messages fresh ≡ (after_messages, none)
unfolding encode encode_bytes
messages_run = refl

receive-send_all_example :
    (m : Bytes) × (after_messages.sent ≡ fresh.sent ++ m)
    × ((rest : Bytes)
        → receive marshal marshal (λ msg d e. sym e) 2 (m ++ rest) ≡ ok (two_messages, rest))
receive-send_all_example =
    receive-send_all marshal marshal (λ msg d e. sym e) two_messages fresh after_messages
      messages_run

abbrev seven : Bytes
seven = 7 ∷ []

read_frame_too_large_example : read_frame (put_uint32 1_048_577 ++ (9 ∷ [])) ≡ err message_too_large
read_frame_too_large_example = read_frame_too_large 1_048_577 (9 ∷ []) (ground arith) (ground arith)

frame_run : read_frame (0 ∷ 0 ∷ 0 ∷ 1 ∷ 7 ∷ 9 ∷ []) ≡ ok (7 ∷ [], 9 ∷ [])
unfolding read_frame read_full
frame_run = refl

frame_bytes : frame (7 ∷ 8 ∷ []) ≡ (0 ∷ 0 ∷ 0 ∷ 2 ∷ 7 ∷ []) ++ (8 ∷ [])
unfolding put_uint32
frame_bytes = refl

abbrev unmarshal : MessageType → Bytes → Option ℕ
unmarshal k [] = none
unmarshal k (b ∷ bs) = some b

parse_run : parse_message unmarshal seven (codes "ping") ≡ message ping 7
unfolding parse_message tag
parse_run = refl

client_sends : (negotiate_client true true (1 ∷ []) fresh).0.sent ≡ 1 ∷ []
unfolding negotiate_client write
client_sends = refl

server_sends : (negotiate_server true true (1 ∷ []) fresh).0.sent ≡ 1 ∷ []
unfolding negotiate_server write
server_sends = refl

client_compresses : (negotiate_client true true (1 ∷ []) fresh).1 ≡ compressed
unfolding negotiate_client write
client_compresses = refl
