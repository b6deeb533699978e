-- ===== src/Server/Tunnels/Requests.antt =====
-- internal/server/server.go: handleTunnelRequest and the creation of a tunnel of each type.
use fxtun_dev.Base.{
  ◌≡◌, arith, ℕ, ◌+◌, Bool, true, not, ◌&&◌, Option, none, some, List, [], ◌∷◌, ltb, leb,
  if◌then◌else◌, nat_eq, length,
}
use fxtun_dev.Base.Bytes.{Bytes, bytes_eq, to_lower}
use fxtun_dev.Base.Int.{ℤ, pos, negsuc}
use fxtun_dev.Base.Dict.{lookup, insert}
use fxtun_dev.Base.Sets.{without}
use fxtun_dev.Server.Router.{Routes, register_tunnel}
use fxtun_dev.Server.Ports.{PortAllocator, Result, ok, err}
use fxtun_dev.Server.Ports
use fxtun_dev.Server.Tunnels.{
  TunnelType, http, tcp, udp, Tunnel, Token, Client, Server, TunnelRequest, ErrorCode, tunnel_limit,
  permission_denied, subdomain_taken, port_unavailable, protocol_error, Reply, tunnel_created,
  tunnel_error, Outside, get_client, or_empty, put, with_tunnel, uninspect,
}

-- ClientManager.CountTunnelsByUserID.
unfoldable pub count_tunnels : List ℕ → Server → ℕ
unfolding get_client
count_tunnels [] s = 0
count_tunnels (id ∷ ids) s =
    elim (get_client id s) [ none ↦ 0 | some c ↦ length c.tunnels ] + count_tunnels ids s

unfoldable pub count_tunnels_by_user_id : ℕ → Server → ℕ
unfolding count_tunnels
count_tunnels_by_user_id user_id s = count_tunnels (or_empty (lookup user_id s.user_clients)) s

abbrev pub default_max_tunnels : ℕ
default_max_tunnels = 10

-- `globalMax`, where 0 stands for no limit.
unfoldable pub global_max : Option ℤ → ℕ
global_max none = default_max_tunnels
global_max (some (negsuc n)) = 0
global_max (some (pos n)) = n

positive_limit : Option Token → ℕ → ℕ
positive_limit none d = d
positive_limit (some t) d = elim t.max_tunnels [ pos n ↦ (if ltb 0 n then n else d) | negsuc n ↦ d ]

-- `tokenMax`, where 0 stands for no limit.
unfoldable pub token_max : Client → ℕ
unfolding positive_limit
token_max c = positive_limit c.db_token (positive_limit c.token 0)

-- The limit of a client with a token of the database and no other.
pub token_max_db :
    (c : Client) (t : Token) (n : ℕ)
    → c.token ≡ none
    → c.db_token ≡ some t
    → t.max_tunnels ≡ pos n
    → token_max c ≡ n
unfolding token_max positive_limit
token_max_db c t n e d m = ground (arith, e, d, m)

abbrev pub refused : Server → ErrorCode → Server × List Reply
refused s code = (s, tunnel_error code ∷ [])

-- inspect.Manager.GetOrCreateWithUser, as far as which tunnels have a buffer.
abbrev pub inspect : ℕ → Server → Server
inspect id s = if s.inspect_enabled then record s { inspected = id ∷ without id s.inspected } else s

unfoldable pub may_use : Option Token → Bytes → Bool
may_use none subdomain = true
may_use (some t) subdomain = t.allows subdomain

unfoldable pub pick_subdomain : Bytes → Bytes → Bytes
pick_subdomain [] short_id = short_id
pick_subdomain (b ∷ bs) short_id = b ∷ bs

-- The end of `createHTTPTunnel`, by what RegisterTunnel answers.
unfoldable pub finish_http :
    ℕ → Client → Tunnel → Server → Option (Routes Tunnel) → Server × List Reply
finish_http id c t s none = refused (uninspect t.id s) subdomain_taken
finish_http id c t s (some routes) =
    (put id (with_tunnel t c) (record s { http_router = routes }), tunnel_created t ∷ [])

unfoldable pub create_http_tunnel :
    Outside → TunnelRequest → ℕ → Client → Server → Server × List Reply
unfolding may_use pick_subdomain finish_http
create_http_tunnel o req id c s =
    let subdomain = pick_subdomain (to_lower req.subdomain) o.short_id in
    if not (may_use c.token subdomain)
    then refused s permission_denied
    else let t : Tunnel = record {
      id = s.next_id;
      client_id = id;
      type = http;
      name = req.name;
      subdomain = subdomain;
      remote_port = 0;
      local_port = req.local_port;
    } in
      let s1 = inspect t.id (record s { next_id = s.next_id + 1 }) in
      finish_http id c t s1 (register_tunnel subdomain t s1.http_router)

-- The ends of `createTCPTunnel` and `createUDPTunnel`, by what AllocatePort answers.
unfoldable pub serve : ℕ → Client → Tunnel → Server → Server × List Reply
serve id c t s = (
  put id (with_tunnel t c) (record s { serving = insert t.id t s.serving; next_id = t.id + 1 }),
  tunnel_created t ∷ [],
)

unfoldable pub port_tunnel : TunnelType → TunnelRequest → ℕ → ℕ → ℕ → Tunnel
port_tunnel type req id tunnel_id port = record {
  id = tunnel_id;
  client_id = id;
  type = type;
  name = req.name;
  subdomain = [];
  remote_port = port;
  local_port = req.local_port;
}

unfoldable pub finish_port :
    TunnelType → TunnelRequest → ℕ → Client → Server → Result ℕ → Server × List Reply
unfolding serve port_tunnel
finish_port type req id c s (err e) = refused s port_unavailable
finish_port type req id c s (ok port) = serve id c (port_tunnel type req id s.next_id port) s

unfoldable pub create_tcp_tunnel :
    Outside → TunnelRequest → ℕ → Client → Server → Server × List Reply
unfolding finish_port
create_tcp_tunnel o req id c s =
    let (ports, r) = Ports.allocate_port o.bind req.remote_port s.tcp_ports in
    finish_port tcp req id c (record s { tcp_ports = ports }) r

unfoldable pub create_udp_tunnel :
    Outside → TunnelRequest → ℕ → Client → Server → Server × List Reply
unfolding finish_port
create_udp_tunnel o req id c s =
    let (ports, r) = Ports.allocate_port o.bind req.remote_port s.udp_ports in
    finish_port udp req id c (record s { udp_ports = ports }) r

unfoldable pub create :
    Option TunnelType → Outside → TunnelRequest → ℕ → Client → Server → Server × List Reply
unfolding create_http_tunnel create_tcp_tunnel create_udp_tunnel
create (some http) o req id c s = create_http_tunnel o req id c s
create (some tcp) o req id c s = create_tcp_tunnel o req id c s
create (some udp) o req id c s = create_udp_tunnel o req id c s
create none o req id c s = refused s protocol_error

-- `tunnelCount`: over all sessions of the user, or the client's own.
unfoldable pub tunnel_count : Client → Server → ℕ
unfolding count_tunnels_by_user_id
tunnel_count c s =
    if ltb 0 c.user_id then count_tunnels_by_user_id c.user_id s else length c.tunnels

-- `reached limit n`: a limit of 0 is none.
abbrev pub reached : ℕ → ℕ → Bool
reached limit n = ltb 0 limit && leb limit n

unfoldable pub handle_request : Outside → TunnelRequest → ℕ → Client → Server → Server × List Reply
unfolding tunnel_count create global_max token_max
handle_request o req id c s =
    if reached (global_max c.plan) (tunnel_count c s)
    then refused s tunnel_limit
    else if reached (token_max c) (length c.tunnels)
    then refused s tunnel_limit
    else create req.tunnel_type o req id c s

-- `handleTunnelRequest` of the client `id`, which need no longer be registered.
unfoldable pub handle_tunnel_request : Outside → TunnelRequest → ℕ → Server → Server × List Reply
unfolding handle_request
handle_tunnel_request o req id s = elim (lookup id s.objects) [
  | none ↦ (s, [])
  | some c ↦ handle_request o req id c s
]
