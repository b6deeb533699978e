-- ===== src/Client/Control.antt =====
-- The control side of internal/client/client.go: the messages of the server, the requests that wait for
-- them, and the flags of the reconnection. A handler runs under its locks; what other goroutines do is an
-- event of its own.
mod Waiting
mod Loops
mod Tests
use fxtun_dev.Base.{
  ℕ, suc, ◌-◌, Bool, true, false, not, ◌&&◌, Option, none, some, List, [], ◌∷◌, eqb, if◌then◌else◌,
  nat_eq,
}
use fxtun_dev.Base.Bytes.{Bytes, bytes_eq}
use fxtun_dev.Base.Dict.{Dict, lookup, insert, delete}

pub record TunnelCreated : Type 0 where
  pub request_id : Bytes
  pub tunnel_id : Bytes
  pub url : Bytes
  pub remote_addr : Bytes

-- A message that DecodeRaw has read, with what its handler takes from it; `unparsed` where ParseMessage
-- fails or the type is unknown. A tunnel error has the id of its request.
pub data FromServer : Type 0 where
  tunnel_created : TunnelCreated → FromServer
  tunnel_error : Bytes → FromServer
  tunnel_closed : Bytes → FromServer
  ping pong : FromServer
  server_shutdown : FromServer
  server_error : Bool → FromServer
  unparsed : FromServer

pub record ActiveTunnel : Type 0 where
  pub config_name : Bytes
  pub url : Bytes
  pub remote_addr : Bytes

-- A pending request has a channel with room for one answer. `stuck`: a handler waits for ever at a full one,
-- with the lock. `loops`: the reconnect loops that run; `timers`: the delayed reconnects after a shutdown.
pub record Control : Type 0 where
  pub tunnels : Dict Bytes ActiveTunnel
  pub pending : Dict Bytes (Option TunnelCreated)
  pub stuck : Bool
  pub last_pong : ℕ
  pub pongs_sent : ℕ
  pub reconnecting : Bool
  pub loops : ℕ
  pub timers : ℕ
  pub client_closed : Bool

unfoldable pub new_control : Control
new_control = record {
  tunnels = [];
  pending = [];
  stuck = false;
  last_pong = 0;
  pongs_sent = 0;
  reconnecting = false;
  loops = 0;
  timers = 0;
  client_closed = false;
}

-- RequestTunnel up to its wait.
unfoldable pub register_request : Bytes → Control → Control
register_request id st = record st { pending = insert id none st.pending }

-- What RequestTunnel returns.
pub data Outcome : Type 0 where
  created timed_out closed send_failed : Outcome

-- The request is over: the deferred function removes its channel.
unfoldable pub forget_request : Bytes → Control → Control
forget_request id st = record st { pending = delete id st.pending }

unfoldable pub store_tunnel : Bytes → TunnelCreated → Control → Control
store_tunnel name r st = record st {
  tunnels =
      insert r.tunnel_id (record { config_name = name; url = r.url; remote_addr = r.remote_addr })
        st.tunnels;
}

-- The end of the wait. Where an answer is there and the client is closed, `select` takes either; where
-- neither is so, the timeout ends the wait.
unfoldable pub finish_request : Bool → Bytes → Bytes → Control → Control × Outcome
finish_request takes_answer id name st = elim (lookup id st.pending) [
  | none ↦ (st, if st.client_closed then closed else timed_out)
  | some answer ↦ elim answer [
    | none ↦ (forget_request id st, if st.client_closed then closed else timed_out)
    | some r ↦
        if st.client_closed && not takes_answer
        then (forget_request id st, closed)
        else (forget_request id (store_tunnel name r st), created)
  ]
]

-- The argument is whether the configuration asks for reconnects.
unfoldable pub handle_disconnect : Bool → Control → Control
handle_disconnect enabled st =
    if st.reconnecting
    then st
    else if not enabled
    then record st { reconnecting = true; client_closed = true }
    else record st { reconnecting = true; loops = suc st.loops }

unfoldable pub handle_tunnel_created : TunnelCreated → Control → Control
handle_tunnel_created r st = elim (lookup r.request_id st.pending) [
  | none ↦ st
  | some answer ↦ elim answer [
    | none ↦ record st { pending = insert r.request_id (some r) st.pending }
    | some other ↦ record st { stuck = true }
  ]
]

-- One round of handleMessages at a time.
unfoldable pub handle_message : ℕ → FromServer → Control → Control
handle_message now (tunnel_created r) st = handle_tunnel_created r st
handle_message now (tunnel_error id) st = st
handle_message now (tunnel_closed id) st = record st { tunnels = delete id st.tunnels }
handle_message now ping st = record st { pongs_sent = suc st.pongs_sent }
handle_message now pong st = record st { last_pong = now }
handle_message now server_shutdown st = record st { reconnecting = true; timers = suc st.timers }
handle_message now (server_error fatal) st =
    if fatal then record st { client_closed = true } else st
handle_message now unparsed st = st

-- A handler that is stuck reads no further message.
unfoldable pub read_on : ℕ → FromServer → Control → Control
read_on now x st = if st.stuck then st else handle_message now x st

-- The loop, until the client is closed: Close cancels the context.
unfoldable pub read_open : ℕ → FromServer → Control → Control
read_open now x st = if st.client_closed then st else read_on now x st

unfoldable pub handle_messages : ℕ → List FromServer → Control → Control
handle_messages now [] st = st
handle_messages now (x ∷ xs) st = handle_messages now xs (read_open now x st)

-- RequestTunnel, with the messages that come while it waits. The connection is not lost meanwhile.
unfoldable pub request_tunnel :
    Bool → Bool → ℕ → Bytes → Bytes → List FromServer → Control → Control × Outcome
request_tunnel sent takes_answer now id name xs st =
    let waiting = register_request id st in
    if sent
    then finish_request takes_answer id name (handle_messages now xs waiting)
    else (forget_request id waiting, send_failed)

-- The end of the five seconds after a shutdown.
unfoldable pub reconnect_later : Bool → Control → Control
reconnect_later enabled st =
    handle_disconnect enabled (record st { timers = st.timers - 1; reconnecting = false })

-- The loop of reconnect, as far as the flags and the tunnels go: its rounds, and its two ends.
unfoldable pub clear_tunnels : Control → Control
clear_tunnels st = record st { tunnels = [] }

unfoldable pub loop_connected : Control → Control
loop_connected st = record st { loops = st.loops - 1; reconnecting = false }

unfoldable pub loop_closed : Control → Control
loop_closed st = record st { loops = st.loops - 1; client_closed = true }

-- What may happen next: a message; a lost connection, noticed by a read or the keepalive; the five seconds
-- after a shutdown are over; a round of a reconnect loop begins; a loop has connected, or gives up.
pub data Event : Type 0 where
  receives : ℕ → FromServer → Event
  loses_connection : Event
  timer_fires : Event
  loop_round loop_connects loop_gives_up : Event

unfoldable pub happen : Bool → Event → Control → Control
happen enabled (receives now x) st = read_on now x st
happen enabled loses_connection st = handle_disconnect enabled st
happen enabled timer_fires st = if eqb st.timers 0 then st else reconnect_later enabled st
happen enabled loop_round st = if eqb st.loops 0 then st else clear_tunnels st
happen enabled loop_connects st = if eqb st.loops 0 then st else loop_connected st
happen enabled loop_gives_up st = if eqb st.loops 0 then st else loop_closed st

unfoldable pub happen_all : Bool → List Event → Control → Control
happen_all enabled [] st = st
happen_all enabled (x ∷ xs) st = happen_all enabled xs (happen enabled x st)
