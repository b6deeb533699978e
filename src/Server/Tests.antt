-- ===== src/Server/Tests.antt =====
-- Runs of the server's functions, and its theorems at concrete inputs.
use fxtun_dev.Base.{
  ℕ, ◌≡◌, refl, ◌≢◌, ◌↔◌, true, false, none, some, List, [], ◌∷◌, arith, eqb, nat_eq, ◌-◌, ◌++◌,
  drop, length,
}
use fxtun_dev.Base.Bytes.{bytes_eq, Bytes, codes, to_lower}
use fxtun_dev.Base.Int.{pos}
use fxtun_dev.Base.Dict.{lookup, insert, Unique}
use fxtun_dev.Base.Sets.{contains}
use fxtun_dev.Server.Router.{Routes, register_tunnel, get_tunnel}
use fxtun_dev.Server.Ports.{PortRange, PortAllocator, new_port_allocator, ok, is_used, allocate}
use fxtun_dev.Server.Ports.Holders.{Call, allocates, releases, run, run-new-Inv}
use fxtun_dev.Server.Ports.Holders
use fxtun_dev.Server.Udp.{UdpAddr, hash_addr, Relay, new_relay, route}
use fxtun_dev.Server.Udp.Replies.{relay, last_with, reply_to, route-relay}
use fxtun_dev.Server.Tunnels.{http, Tunnel, Client, Server, TunnelRequest, Outside, connect}
use fxtun_dev.Server.Tunnels.Requests.{handle_tunnel_request}
use fxtun_dev.Server.Tunnels.Invariant.{Owned}
use fxtun_dev.Server.Tunnels.Steps.{
  new_server, connects, requests, Steps, start, after, get_tunnel_iff,
}

-- Ports.

abbrev ports : PortRange
ports = record { min = 10; max = 12 }

abbrev idle : PortAllocator
idle = record { port_range = ports; used_ports = [] }

abbrev calls : List Call
calls = allocates (λ p. eqb p 11) (pos 0) ∷ allocates (λ p. true) (pos 11) ∷ releases 11 ∷ []

run-new-Inv_example : Holders.Inv (run (new_port_allocator ports, []) calls)
run-new-Inv_example = run-new-Inv ports calls

first_port :
    allocate (pos 0) idle ≡ (record { port_range = ports; used_ports = (10, true) ∷ [] }, ok 10)
unfolding allocate lookup insert
first_port = refl

port_free : is_used idle 11 ≡ false
unfolding is_used lookup
port_free = refl

-- UDP.

abbrev key : UdpAddr → Bytes
key a = a.port ∷ (drop (length a.ip - 4) a.ip ++ a.zone)

key_ne : (a : UdpAddr) → key a ≢ []
key_ne a e = ground arith

abbrev alice : UdpAddr
alice = record { ip = 127 ∷ 0 ∷ 0 ∷ 1 ∷ []; port = 5031; zone = [] }

abbrev bob : UdpAddr
bob = record { ip = 127 ∷ 0 ∷ 0 ∷ 2 ∷ []; port = 5000; zone = [] }

abbrev packets : List (UdpAddr × Bytes × ℕ)
packets = (alice, 1 ∷ [], 0) ∷ (bob, 2 ∷ [], 1) ∷ []

route-relay_example :
    route (hash_addr alice) (relay key new_relay packets)
    ≡ reply_to key (last_with (hash_addr alice) none packets) packets
route-relay_example = route-relay key key_ne packets (hash_addr alice)

same_hash : hash_addr alice ≡ hash_addr bob
unfolding hash_addr
same_hash = refl

abbrev seen : Relay
seen = record {
  client_addrs = (7 ∷ [], alice) ∷ [];
  hash_to_key = [];
  client_last_seen = (7 ∷ [], 100) ∷ [];
}

seen-Unique : Unique seen.client_last_seen
unfolding lookup
seen-Unique = (refl, tt)

seen_time : lookup (7 ∷ []) seen.client_last_seen ≡ some 100
unfolding lookup
seen_time = refl

-- Routes.

abbrev one_route : Routes ℕ
one_route = (codes "app", 4) ∷ []

register_run : register_tunnel (codes "App") 4 [] ≡ some one_route
unfolding register_tunnel lookup insert to_lower
register_run = refl

-- Tunnels.

abbrev visitor : Client
visitor = record { token = none; db_token = none; plan = none; user_id = 3; tunnels = [] }

abbrev wish : TunnelRequest
wish = record {
  tunnel_type = some http;
  name = [];
  subdomain = codes "App";
  local_port = 80;
  remote_port = pos 0;
}

abbrev outside : Outside
outside = record { short_id = codes "r4nd0m"; bind = λ p. true }

abbrev joined : Server
unfolding connect
joined = connect visitor (new_server idle idle true)

abbrev opened : Server
opened = (handle_tunnel_request outside wish 1 joined).0

abbrev app : Tunnel
app = record {
  id = 2;
  client_id = 1;
  type = http;
  name = [];
  subdomain = codes "app";
  remote_port = 0;
  local_port = 80;
}

is_joined : contains joined.clients 1 ≡ true
unfolding connect new_server
is_joined = refl

history : Steps (new_server idle idle true) opened
unfolding connect joined
history =
    after joined opened
      (after (new_server idle idle true) joined start
        (connects visitor (new_server idle idle true)))
      (requests outside wish 1 joined is_joined)

get_tunnel_iff_example :
    (get_tunnel (codes "APP") opened.http_router ≡ some app)
    ↔ Owned opened (to_lower (codes "APP")) app
get_tunnel_iff_example = get_tunnel_iff idle idle true opened history (codes "APP") app

app_routed : get_tunnel (codes "APP") opened.http_router ≡ some app
unfolding get_tunnel handle_tunnel_request connect new_server lookup insert to_lower register_tunnel
app_routed = refl
