-- ===== src/Client/Tests.antt =====
-- Frames of a UDP tunnel at concrete inputs.
use fxtun_dev.Base.{◌≡◌, arith}
use fxtun_dev.Base.Bytes.{Bytes, codes}
use fxtun_dev.Server.Udp.{ended, frame}
use fxtun_dev.Client.Udp.{read_client_frame}
use fxtun_dev.Client.Udp.Wire.{read_client_frame-frame}

abbrev hello : Bytes
hello = codes "hello"

client_waits : read_client_frame (frame 77 hello) ≡ ended
client_waits = read_client_frame-frame 77 hello (omega arith) (omega arith)
