-- ===== src/Server/Tunnels/Tests.antt =====
-- Tunnel requests, run, and theorems on them at concrete inputs.
use fxtun_dev.Base.{◌≡◌, refl, inr, true, false, none, some, [], ◌∷◌, arith, nat_eq, length}
use fxtun_dev.Base.Bytes.{bytes_eq, codes, to_lower}
use fxtun_dev.Base.Int.{pos}
use fxtun_dev.Base.Dict.{lookup, insert, delete}
use fxtun_dev.Base.Sets.{contains}
use fxtun_dev.Server.Router.{register_tunnel, get_tunnel}
use fxtun_dev.Server.Ports.{PortAllocator}
use fxtun_dev.Server.Tunnels.{
  http, Tunnel, Client, Server, TunnelRequest, tunnel_created, tunnel_error, tunnel_limit, Outside,
  get_client, connect, with_tunnel,
}
use fxtun_dev.Server.Tunnels.Requests.{
  global_max, tunnel_count, may_use, token_max, handle_tunnel_request,
}
use fxtun_dev.Server.Tunnels.Closing.{close_client}
use fxtun_dev.Server.Tunnels.Steps.{new_server}
use fxtun_dev.Server.Tunnels.Limits.{Within, handle_tunnel_request-Within}
use fxtun_dev.Server.Tunnels.Queries.{get_tunnels_by_user_id}
use fxtun_dev.Server.Tunnels.Overtaken.{wanted, late_request_leaks}

abbrev idle : PortAllocator
idle = record { port_range = record { min = 10; max = 12 }; used_ports = [] }

-- A client whose token allows one tunnel.
abbrev guarded : Client
guarded = record {
  token = some (record { max_tunnels = pos 1; allows = λ s. true });
  db_token = none;
  plan = none;
  user_id = 0;
  tunnels = [];
}

abbrev wish : TunnelRequest
wish = record {
  tunnel_type = some http;
  name = [];
  subdomain = codes "App";
  local_port = 80;
  remote_port = pos 0;
}

abbrev outside : Outside
outside = record { short_id = codes "r4nd0m"; bind = λ p. true }

abbrev joined : Server
joined = connect guarded (new_server idle idle true)

abbrev app : Tunnel
app = record {
  id = 2;
  client_id = 1;
  type = http;
  name = [];
  subdomain = codes "app";
  remote_port = 0;
  local_port = 80;
}

there : get_client 1 joined ≡ some guarded
unfolding get_client connect new_server lookup insert
there = refl

opened :
    get_client 1 (handle_tunnel_request outside wish 1 joined).0 ≡ some (with_tunnel app guarded)
unfolding get_client connect new_server lookup insert handle_tunnel_request to_lower register_tunnel
opened = refl

second_refused :
    (handle_tunnel_request outside wish 1 (handle_tunnel_request outside wish 1 joined).0).1
    ≡ tunnel_error tunnel_limit ∷ []
unfolding get_client connect new_server lookup insert handle_tunnel_request to_lower register_tunnel
second_refused = refl

one_tunnel : length (with_tunnel app guarded).tunnels ≡ 1
unfolding insert
one_tunnel = refl

no_tunnel : Within (token_max guarded) (length guarded.tunnels)
no_tunnel = inr (ground arith)

handle_tunnel_request-Within_example :
    Within (token_max (with_tunnel app guarded)) (length (with_tunnel app guarded).tunnels)
handle_tunnel_request-Within_example =
    handle_tunnel_request-Within outside wish 1 guarded (with_tunnel app guarded) joined there
      no_tunnel opened

-- The client is closed, and then its request is handled.

abbrev ended : Server
ended = close_client 1 joined

is_ended : contains ended.clients 1 ≡ false
unfolding close_client connect new_server lookup insert
is_ended = refl

late_request_leaks_example :
    (t : Tunnel) × ((handle_tunnel_request outside wish 1 ended).1 ≡ tunnel_created t ∷ [])
    × (t.client_id ≡ 1)
    × (get_tunnel
          (wanted outside wish)
          (close_client 1 (handle_tunnel_request outside wish 1 ended).0).http_router
        ≡ some t)
unfolding close_client get_client connect new_server lookup insert delete to_lower global_max
    tunnel_count token_max may_use
late_request_leaks_example =
    late_request_leaks outside wish 1 guarded ended is_ended refl refl refl refl refl refl

-- The queries, on a server with one tunnel of user 3.

abbrev user_server : Server
user_server =
    (handle_tunnel_request outside wish 1
      (connect (record guarded { user_id = 3 }) (new_server idle idle true))).0

listed_one : length (get_tunnels_by_user_id 3 user_server) ≡ 1
unfolding get_tunnels_by_user_id get_client connect new_server lookup insert handle_tunnel_request
    to_lower register_tunnel
listed_one = refl
