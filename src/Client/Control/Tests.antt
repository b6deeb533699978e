-- ===== src/Client/Control/Tests.antt =====
-- The control side of the client at concrete inputs.
use fxtun_dev.Base.{◌≡◌, ◌≤◌, refl, true, List, [], ◌∷◌, nat_eq}
use fxtun_dev.Base.Bytes.{bytes_eq, codes}
use fxtun_dev.Base.Dict.{lookup, insert}
use fxtun_dev.Client.Control.{
  TunnelCreated, FromServer, tunnel_created, tunnel_error, ping, pong, server_shutdown, new_control,
  handle_message, handle_messages, read_on, read_open, finish_request, timed_out,
  handle_tunnel_created, register_request, request_tunnel, receives, loses_connection, timer_fires,
  loop_round, loop_connects, happen_all, happen, handle_disconnect,
}
use fxtun_dev.Client.Control.Waiting.{first_created, heard, any_fatal, outcome, request_tunnel_lem}
use fxtun_dev.Client.Control.Loops.{happen_all-new_control, happen_all_second}

abbrev answer : TunnelCreated
answer = record {
  request_id = codes "r2";
  tunnel_id = codes "t2";
  url = codes "http://x";
  remote_addr = [];
}

-- The server refuses the request r1.
abbrev messages : List FromServer
messages = ping ∷ tunnel_error (codes "r1") ∷ tunnel_created answer ∷ []

waits_on :
    (request_tunnel true true 9 (codes "r1") (codes "web") messages new_control).1
    ≡ outcome true (first_created (codes "r1") (heard messages)) (any_fatal messages)
unfolding handle_messages read_open read_on handle_message handle_tunnel_created register_request
    new_control lookup insert
waits_on = request_tunnel_lem true 9 (codes "r1") (codes "web") messages new_control refl refl

-- The wait for the refused request ends with the timeout.
refused_waits :
    (request_tunnel true true 9 (codes "r1") (codes "web") messages new_control).1 ≡ timed_out
unfolding handle_messages read_open read_on handle_message handle_tunnel_created register_request
    new_control lookup insert request_tunnel finish_request
refused_waits = refl

single_loop :
    (happen_all true
      (loses_connection ∷ loses_connection ∷ loop_round ∷ receives 3 pong ∷ loop_connects ∷ [])
      new_control).loops
    ≤ 1
single_loop =
    happen_all-new_control true
      (loses_connection ∷ loses_connection ∷ loop_round ∷ receives 3 pong ∷ loop_connects ∷ [])
      (tt, (tt, (tt, (tt, (tt, tt)))))

-- A connection is lost, and the server that is dialled then shuts down.
two_loops :
    (happen_all true
      (receives 7 server_shutdown ∷ timer_fires ∷ [])
      (happen true loses_connection new_control)).loops
    ≡ 2
unfolding happen handle_disconnect new_control
two_loops = happen_all_second 7 (happen true loses_connection new_control) refl refl
