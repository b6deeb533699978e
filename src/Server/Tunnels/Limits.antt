-- ===== src/Server/Tunnels/Limits.antt =====
-- The limits on the number of tunnels, and what a refused request leaves.
use fxtun_dev.Base.{
  ℕ, suc, ◌+◌, ◌≤◌, ◌≡◌, refl, ◌∙◌, ◌⊎◌, inl, inr, false, Option, none, some, arith, Bool-cases,
  Option-cases, nat_eq, length,
}
use fxtun_dev.Base.Bytes.{bytes_eq, to_lower}
use fxtun_dev.Base.Dict.{lookup, lookup-insert, length-insert}
use fxtun_dev.Server.Router.{Routes, register_tunnel}
use fxtun_dev.Server.Ports.{PortAllocator, Result, ok, err}
use fxtun_dev.Server.Ports
use fxtun_dev.Server.Tunnels.{
  TunnelType, http, tcp, udp, Tunnel, Client, Server, TunnelRequest, Outside, get_client,
  with_tunnel,
}
use fxtun_dev.Server.Tunnels.Requests.{
  tunnel_count, reached, global_max, token_max, may_use, pick_subdomain, port_tunnel, inspect,
  finish_http, create_http_tunnel, serve, finish_port, create_tcp_tunnel, create_udp_tunnel, create,
  handle_request, handle_tunnel_request,
}

-- The client as it was, or with one more tunnel.
abbrev Grown : Client → Option Client → Type 0
Grown c r = (r ≡ some c) ⊎ ((t : Tunnel) × (r ≡ some (with_tunnel t c)))

finish_http-Grown :
    (id : ℕ) (c : Client) (t : Tunnel) (s : Server) (r : Option (Routes Tunnel))
    → get_client id s ≡ some c
    → Grown c (get_client id (finish_http id c t s r).0)
unfolding finish_http get_client
finish_http-Grown id c t s none g = inl g
finish_http-Grown id c t s (some routes) g =
    inr (t, ground (arith, g, lookup-insert id id (with_tunnel t c) s.objects))

inspect-get_client : (k id : ℕ) (s : Server) → get_client id (inspect k s) ≡ get_client id s
unfolding get_client
inspect-get_client k id s = ground arith

create_http_tunnel-Grown :
    (o : Outside) (req : TunnelRequest) (id : ℕ) (c : Client) (s : Server)
    → get_client id s ≡ some c
    → Grown c (get_client id (create_http_tunnel o req id c s).0)
unfolding create_http_tunnel get_client
create_http_tunnel-Grown o req id c s g =
    let subdomain = pick_subdomain (to_lower req.subdomain) o.short_id in
    let t : Tunnel = record {
      id = s.next_id;
      client_id = id;
      type = http;
      name = req.name;
      subdomain = subdomain;
      remote_port = 0;
      local_port = req.local_port;
    } in
    let s1 = inspect t.id (record s { next_id = s.next_id + 1 }) in
    elim (Bool-cases (may_use c.token subdomain)) [
      | inr forbidden ↦ rw forbidden (inl g)
      | inl allowed ↦ rw allowed (
          finish_http-Grown id c t s1 (register_tunnel subdomain t s1.http_router)
            (inspect-get_client t.id id (record s { next_id = s.next_id + 1 }) ∙ g))
    ]

finish_port-Grown :
    (type : TunnelType) (req : TunnelRequest) (id : ℕ) (c : Client) (s : Server) (r : Result ℕ)
    → get_client id s ≡ some c
    → Grown c (get_client id (finish_port type req id c s r).0)
unfolding finish_port serve port_tunnel get_client
finish_port-Grown type req id c s (err e) g = inl g
finish_port-Grown type req id c s (ok port) g = inr (
  port_tunnel type req id s.next_id port,
  ground (
    arith,
    g,
    lookup-insert id id (with_tunnel (port_tunnel type req id s.next_id port) c) s.objects,
  ),
)

create-Grown :
    (type : Option TunnelType) (o : Outside) (req : TunnelRequest) (id : ℕ) (c : Client)
    (s : Server)
    → get_client id s ≡ some c
    → Grown c (get_client id (create type o req id c s).0)
unfolding create create_tcp_tunnel create_udp_tunnel get_client
create-Grown none o req id c s g = inl g
create-Grown (some http) o req id c s g = create_http_tunnel-Grown o req id c s g
create-Grown (some tcp) o req id c s g =
    let (ports, r) = Ports.allocate_port o.bind req.remote_port s.tcp_ports in
    finish_port-Grown tcp req id c (record s { tcp_ports = ports }) r g
create-Grown (some udp) o req id c s g =
    let (ports, r) = Ports.allocate_port o.bind req.remote_port s.udp_ports in
    finish_port-Grown udp req id c (record s { udp_ports = ports }) r g

-- A limit of 0 is none.
abbrev pub Within : ℕ → ℕ → Type 0
Within limit n = (limit ≡ 0) ⊎ (n ≤ limit)

one_more : (t : Tunnel) (c : Client) → length (with_tunnel t c).tunnels ≤ suc (length c.tunnels)
one_more t c = ground (arith, length-insert t.id t c.tunnels)

token_max-with_tunnel : (t : Tunnel) (c : Client) → token_max (with_tunnel t c) ≡ token_max c
unfolding token_max
token_max-with_tunnel t c = refl

Grown-Within :
    (c c' : Client) (r : Option Client)
    → reached (token_max c) (length c.tunnels) ≡ false
    → Grown c r
    → r ≡ some c'
    → Within (token_max c') (length c'.tunnels)
Grown-Within c c' r room (inl same) e =
    let is : c ≡ c' = ground (arith, same, e) in rw (← is) (ground (arith, room))
Grown-Within c c' r room (inr (t, grown)) e =
    let is : with_tunnel t c ≡ c' = ground (arith, grown, e) in
    rw (← is) (rw (token_max-with_tunnel t c) (ground (arith, room, one_more t c)))

handle_request-Within :
    (o : Outside) (req : TunnelRequest) (id : ℕ) (c c' : Client) (s : Server)
    → get_client id s ≡ some c
    → Within (token_max c) (length c.tunnels)
    → get_client id (handle_request o req id c s).0 ≡ some c'
    → Within (token_max c') (length c'.tunnels)
unfolding handle_request
handle_request-Within o req id c c' s g w e =
    elim (Bool-cases (reached (global_max c.plan) (tunnel_count c s))) [
      | inl full ↦ let is : c ≡ c' = ground (arith, full, e, g) in rw (← is) w
      | inr below ↦ elim (Bool-cases (reached (token_max c) (length c.tunnels))) [
        | inl full ↦ let is : c ≡ c' = ground (arith, below, full, e, g) in rw (← is) w
        | inr room ↦
            Grown-Within c c' (get_client id (create req.tunnel_type o req id c s).0) room
              (create-Grown req.tunnel_type o req id c s g) (ground (arith, below, room, e))
      ]
    ]

-- A registered client that holds no more tunnels than the limit of its token, if there is a limit, holds no more
-- after a request of any type, however the request ends.
pub handle_tunnel_request-Within :
    (o : Outside) (req : TunnelRequest) (id : ℕ) (c c' : Client) (s : Server)
    → get_client id s ≡ some c
    → Within (token_max c) (length c.tunnels)
    → get_client id (handle_tunnel_request o req id s).0 ≡ some c'
    → Within (token_max c') (length c'.tunnels)
unfolding handle_tunnel_request get_client
handle_tunnel_request-Within o req id c c' s g w e = elim (Option-cases (lookup id s.objects)) [
  | inl missing ↦ absurd (ground (arith, g, missing))
  | inr (d, found) ↦
      let is : d ≡ c = ground (arith, g, found) in
      handle_request-Within o req id c c' s g w (ground (arith, found, is, e))
]
