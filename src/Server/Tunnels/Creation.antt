-- ===== src/Server/Tunnels/Creation.antt =====
-- A new client, and a request of a registered client, keep the invariant.
use fxtun_dev.Base.{
  ℕ, ◌+◌, ◌≡◌, refl, ◌≢◌, ◌⊎◌, inl, inr, true, Option, none, some, [], ◌∷◌, arith, eqb, eqb_iff,
  Bool-cases, Option-cases, nat_eq, length,
}
use fxtun_dev.Base.Bytes.{bytes_eq, to_lower}
use fxtun_dev.Base.Dict.{lookup, insert, lookup-insert, Unique}
use fxtun_dev.Base.Sets.{contains, without, contains-without}
use fxtun_dev.Server.Router.{Routes, register_tunnel}
use fxtun_dev.Server.Router.Table.{register_tunnel-some}
use fxtun_dev.Server.Ports.{PortAllocator, Result, ok, err}
use fxtun_dev.Server.Ports
use fxtun_dev.Server.Tunnels.{
  TunnelType, http, tcp, udp, Tunnel, Client, Server, TunnelRequest, Outside, get_client,
  link_user_client, connect, put, with_tunnel, uninspect,
}
use fxtun_dev.Server.Tunnels.Requests.{
  tunnel_count, reached, global_max, token_max, may_use, port_tunnel, inspect, pick_subdomain,
  finish_http, create_http_tunnel, serve, finish_port, create_tcp_tunnel, create_udp_tunnel, create,
  handle_request, handle_tunnel_request,
}
use fxtun_dev.Server.Tunnels.Invariant.{
  Inv, Registered, unchanged-Inv, added_port-Inv, added_http-Inv,
}

module _ (c : Client) (s s' : Server) (v : Inv s) (empty : (k : ℕ) → lookup k c.tunnels ≡ none)
    (empty_unique : Unique c.tunnels) (unknown : get_client s.next_id s ≡ none)
    (now : Registered s.next_id c s s') (same_routes : s'.http_router ≡ s.http_router)
    (grows : s'.next_id ≡ s.next_id + 1)
    (fewer : (j : ℕ)
      → contains s'.clients j ≡ true
      → (s.next_id ≡ j) ⊎ (contains s.clients j ≡ true)) where
  tunnels_now :
      (j : ℕ) (d : Client) → get_client j s' ≡ some d → (c ≡ d) ⊎ (get_client j s ≡ some d)
  tunnels_now j d gd = elim (Bool-cases (eqb s.next_id j)) [
    | inl same ↦ inl (ground (arith, same, now j))
    | inr other ↦ inr (ground (arith, other, now j))
  ]

  joined-Inv : Inv s'
  joined-Inv = record {
    owned = λ sub t e.
        let (d, gd, l, h, same) = v.owned sub t (rw same_routes at e) in
        (
          d,
          ground (arith, now t.client_id, gd, unknown, eqb_iff s.next_id t.client_id),
          l,
          h,
          same,
        );
    routed = λ j k d t gd e h. rw same_routes (elim (tunnels_now j d gd) [
      | inl new ↦ absurd (ground (arith, empty k, rw (← new) at e))
      | inr before ↦ v.routed j k d t before e h
    ]);
    labelled = λ j k d t gd e. elim (tunnels_now j d gd) [
      | inl new ↦ absurd (ground (arith, empty k, rw (← new) at e))
      | inr before ↦ omega (arith, v.labelled j k d t before e)
    ];
    unique = λ j d gd. elim (tunnels_now j d gd) [
      | inl new ↦ rw (← new) empty_unique
      | inr before ↦ v.unique j d before
    ];
    known = λ j e. elim (fewer j e) [
      | inl new ↦ omega arith
      | inr before ↦ omega (arith, v.known j before)
    ];
  }

linked :
    (user_id id : ℕ) (s : Server)
    → ((link_user_client user_id id s).objects ≡ s.objects)
      × ((link_user_client user_id id s).clients ≡ s.clients)
      × ((link_user_client user_id id s).http_router ≡ s.http_router)
      × ((link_user_client user_id id s).next_id ≡ s.next_id)
unfolding link_user_client
linked user_id id s = ground arith

pub linked-Inv : (user_id id : ℕ) (s : Server) → Inv s → Inv (link_user_client user_id id s)
linked-Inv user_id id s v =
    let (eo, ec, er, en) = linked user_id id s in
    unchanged-Inv s (link_user_client user_id id s) eo ec er (omega (arith, en)) v

pub connect-Inv : (c : Client) (s : Server) → Inv s → Inv (connect c s)
unfolding connect get_client lookup
connect-Inv c s v =
    linked-Inv c.user_id s.next_id
      (record s {
        objects = insert s.next_id (record c { tunnels = [] }) s.objects;
        clients = s.next_id ∷ without s.next_id s.clients;
        next_id = s.next_id + 1;
      })
      (joined-Inv (record c { tunnels = [] }) s
        (record s {
          objects = insert s.next_id (record c { tunnels = [] }) s.objects;
          clients = s.next_id ∷ without s.next_id s.clients;
          next_id = s.next_id + 1;
        })
        v (λ k. refl) tt (ground (arith, v.known s.next_id))
        (λ j. ground (
          arith,
          lookup-insert {V = Client} s.next_id j (record c { tunnels = [] }) s.objects,
          contains-without s.next_id j s.clients,
        ))
        refl refl
        (λ j e. elim (Bool-cases (eqb s.next_id j)) [
          | inl same ↦ inl (ground (arith, same))
          | inr other ↦ inr (ground (arith, e, other, contains-without s.next_id j s.clients))
        ]))

inspected :
    (id : ℕ) (s : Server)
    → ((inspect id s).objects ≡ s.objects)
      × ((inspect id s).clients ≡ s.clients)
      × ((inspect id s).http_router ≡ s.http_router)
      × ((inspect id s).next_id ≡ s.next_id)
inspected id s = ground arith

module _ (t : Tunnel) (c : Client) (s s1 : Server) (g : get_client t.client_id s ≡ some c)
    (next : t.id ≡ s.next_id) (eo : s1.objects ≡ s.objects) (ec : s1.clients ≡ s.clients)
    (er : s1.http_router ≡ s.http_router) (en : s1.next_id ≡ s.next_id + 1) where
  put-Registered : Registered t.client_id (with_tunnel t c) s (put t.client_id (with_tunnel t c) s1)
  unfolding get_client
  put-Registered j =
      ground (arith, eo, ec, lookup-insert t.client_id j (with_tunnel t c) s1.objects)

  finish_http-Inv :
      t.type ≡ http
      → Inv s
      → (r : Option (Routes Tunnel)) → register_tunnel t.subdomain t s1.http_router ≡ r
      → Inv (finish_http t.client_id c t s1 r).0
  unfolding finish_http get_client
  finish_http-Inv h v none e = unchanged-Inv s (uninspect t.id s1) eo ec er (omega (arith, en)) v
  finish_http-Inv h v (some routes) e =
      let (free, made) = register_tunnel-some t.subdomain t s1.http_router routes e in
      added_http-Inv t c s (put t.client_id (with_tunnel t c) (record s1 { http_router = routes }))
        v g next put-Registered en ec
        (
          λ sub. rw (made, ← er) (lookup-insert (to_lower t.subdomain) sub t s1.http_router),
          rw er at free,
          h,
        )

serve-Inv :
    (t : Tunnel) (c : Client) (s : Server)
    → get_client t.client_id s ≡ some c
    → t.id ≡ s.next_id
    → t.type ≢ http
    → Inv s
    → Inv (serve t.client_id c t s).0
unfolding serve
serve-Inv t c s g next h v =
    let s1 = record s { serving = insert t.id t s.serving; next_id = t.id + 1 } in
    added_port-Inv t c s (put t.client_id (with_tunnel t c) s1) v g next
      (put-Registered t c s s1 g next refl refl refl (ground (arith, next))) (ground (arith, next))
      refl h refl

http_request-Inv :
    (o : Outside) (req : TunnelRequest) (id : ℕ) (c : Client) (s : Server)
    → get_client id s ≡ some c
    → Inv s
    → Inv (create_http_tunnel o req id c s).0
unfolding create_http_tunnel
http_request-Inv o req id c s g v =
    let subdomain = pick_subdomain (to_lower req.subdomain) o.short_id in
    let t : Tunnel = record {
      id = s.next_id;
      client_id = id;
      type = http;
      name = req.name;
      subdomain = subdomain;
      remote_port = 0;
      local_port = req.local_port;
    } in
    let s1 = inspect t.id (record s { next_id = s.next_id + 1 }) in
    let (eo, ec, er, en) = inspected t.id (record s { next_id = s.next_id + 1 }) in
    elim (Bool-cases (may_use c.token subdomain)) [
      | inr forbidden ↦ rw forbidden v
      | inl allowed ↦ rw allowed (
          finish_http-Inv t c s s1 g refl eo ec er en refl v
            (register_tunnel subdomain t s1.http_router) refl)
    ]

port_request-Inv :
    (type : TunnelType) (req : TunnelRequest) (id : ℕ) (c : Client) (s : Server) (r : Result ℕ)
    → type ≢ http
    → get_client id s ≡ some c
    → Inv s
    → Inv (finish_port type req id c s r).0
unfolding finish_port port_tunnel
port_request-Inv type req id c s (err e) h g v = v
port_request-Inv type req id c s (ok port) h g v =
    serve-Inv (port_tunnel type req id s.next_id port) c s g refl h v

create-Inv :
    (o : Outside) (req : TunnelRequest) (id : ℕ) (c : Client) (s : Server)
    (type : Option TunnelType)
    → get_client id s ≡ some c
    → Inv s
    → Inv (create type o req id c s).0
unfolding create create_tcp_tunnel create_udp_tunnel get_client
create-Inv o req id c s none g v = v
create-Inv o req id c s (some http) g v = http_request-Inv o req id c s g v
create-Inv o req id c s (some tcp) g v =
    let (ports, r) = Ports.allocate_port o.bind req.remote_port s.tcp_ports in
    port_request-Inv tcp req id c (record s { tcp_ports = ports }) r (λ e. ground arith) g
      (unchanged-Inv s (record s { tcp_ports = ports }) refl refl refl (omega arith) v)
create-Inv o req id c s (some udp) g v =
    let (ports, r) = Ports.allocate_port o.bind req.remote_port s.udp_ports in
    port_request-Inv udp req id c (record s { udp_ports = ports }) r (λ e. ground arith) g
      (unchanged-Inv s (record s { udp_ports = ports }) refl refl refl (omega arith) v)

handle_request-Inv :
    (o : Outside) (req : TunnelRequest) (id : ℕ) (c : Client) (s : Server)
    → get_client id s ≡ some c
    → Inv s
    → Inv (handle_request o req id c s).0
unfolding handle_request
handle_request-Inv o req id c s g v =
    elim (Bool-cases (reached (global_max c.plan) (tunnel_count c s))) [
      | inl full ↦ rw full v
      | inr below ↦ rw below (elim (Bool-cases (reached (token_max c) (length c.tunnels))) [
        | inl full ↦ rw full v
        | inr room ↦ rw room (create-Inv o req id c s req.tunnel_type g v)
      ])
    ]

-- A request of a registered client keeps the invariant, however it ends.
pub handle_tunnel_request-Inv :
    (o : Outside) (req : TunnelRequest) (id : ℕ) (s : Server)
    → contains s.clients id ≡ true
    → Inv s
    → Inv (handle_tunnel_request o req id s).0
unfolding handle_tunnel_request get_client
handle_tunnel_request-Inv o req id s here v = elim (Option-cases (lookup id s.objects)) [
  | inl missing ↦ rw (missing, handle_tunnel_request) v
  | inr (c, found) ↦
      rw (found, handle_tunnel_request)
        (handle_request-Inv o req id c s (ground (arith, here, found)) v)
]
