-- ===== src/Server/Tunnels/Overtaken.antt =====
-- A request that the end of its client overtakes: `Close` runs in another goroutine, once, and the handler goes
-- on with a client that is no longer registered.
use fxtun_dev.Base.{
  ℕ, ◌+◌, ◌≡◌, refl, ap, ◌∙◌, inl, inr, true, false, Option, none, some, [], ◌∷◌, arith, Bool-cases,
  nat_eq, length,
}
use fxtun_dev.Base.Bytes.{Bytes, bytes_eq, bytes_beq_iff, to_lower}
use fxtun_dev.Base.Dict.{lookup, lookup-insert}
use fxtun_dev.Base.Sets.{contains}
use fxtun_dev.Server.Router.{Routes, register_tunnel, get_tunnel}
use fxtun_dev.Server.Router.Table.{register_tunnel-some}
use fxtun_dev.Server.Tunnels.{
  http, Tunnel, Client, Server, TunnelRequest, tunnel_created, Outside, get_client,
}
use fxtun_dev.Server.Tunnels.Closing.{close_client}
use fxtun_dev.Server.Tunnels.Requests.{
  tunnel_count, reached, global_max, token_max, may_use, pick_subdomain, inspect, finish_http,
  create_http_tunnel, create, handle_request, handle_tunnel_request,
}

-- What a created HTTP tunnel leaves.
abbrev Routed : ℕ → Tunnel → Server → Server → Type 0
Routed id t s s' =
    (t.client_id ≡ id)
    × (lookup (to_lower t.subdomain) s'.http_router ≡ some t)
    × (s'.clients ≡ s.clients)

finish_http-Routed :
    (id : ℕ) (c : Client) (t t' : Tunnel) (s s' : Server) (r : Option (Routes Tunnel))
    → t.client_id ≡ id
    → register_tunnel t.subdomain t s.http_router ≡ r
    → finish_http id c t s r ≡ (s', tunnel_created t' ∷ [])
    → Routed id t' s s'
unfolding finish_http
finish_http-Routed id c t t' s s' none own e f = absurd (ground (arith, f))
finish_http-Routed id c t t' s s' (some routes) own e f =
    let (free, made) = register_tunnel-some t.subdomain t s.http_router routes e in
    let same : t ≡ t' = ground (arith, f) in
    (
      ground (arith, same, own),
      ground (
        arith,
        f,
        same,
        made,
        lookup-insert (to_lower t.subdomain) (to_lower t.subdomain) t s.http_router,
        bytes_beq_iff (to_lower t.subdomain) (to_lower t.subdomain),
      ),
      ground (arith, f),
    )

inspect_clients : (k : ℕ) (s : Server) → (inspect k s).clients ≡ s.clients
inspect_clients k s = ground arith

create_http_tunnel-Routed :
    (o : Outside) (req : TunnelRequest) (id : ℕ) (c : Client) (t : Tunnel) (s s' : Server)
    → create_http_tunnel o req id c s ≡ (s', tunnel_created t ∷ [])
    → Routed id t s s'
unfolding create_http_tunnel
create_http_tunnel-Routed o req id c t s s' e =
    let subdomain = pick_subdomain (to_lower req.subdomain) o.short_id in
    let made : Tunnel = record {
      id = s.next_id;
      client_id = id;
      type = http;
      name = req.name;
      subdomain = subdomain;
      remote_port = 0;
      local_port = req.local_port;
    } in
    let s1 = inspect made.id (record s { next_id = s.next_id + 1 }) in
    elim (Bool-cases (may_use c.token subdomain)) [
      | inr forbidden ↦ absurd (ground (arith, forbidden, e))
      | inl allowed ↦
          let (own, routed, clients) =
            finish_http-Routed id c made t s1 s' (register_tunnel subdomain made s1.http_router)
              refl refl (ground (arith, allowed, e)) in
          (own, routed, clients ∙ inspect_clients made.id (record s { next_id = s.next_id + 1 }))
    ]

handle_request-Routed :
    (o : Outside) (req : TunnelRequest) (id : ℕ) (c : Client) (t : Tunnel) (s s' : Server)
    → req.tunnel_type ≡ some http
    → handle_request o req id c s ≡ (s', tunnel_created t ∷ [])
    → Routed id t s s'
unfolding handle_request create
handle_request-Routed o req id c t s s' is_http e =
    elim (Bool-cases (reached (global_max c.plan) (tunnel_count c s))) [
      | inl full ↦ absurd (ground (arith, full, e))
      | inr below ↦ elim (Bool-cases (reached (token_max c) (length c.tunnels))) [
        | inl full ↦ absurd (ground (arith, below, full, e))
        | inr room ↦
            create_http_tunnel-Routed o req id c t s s' (ground (arith, below, room, is_http, e))
      ]
    ]

-- The subdomain that a request gets.
abbrev pub wanted : Outside → TunnelRequest → Bytes
wanted o req = pick_subdomain (to_lower req.subdomain) o.short_id

finish_http-some :
    (id : ℕ) (c : Client) (t : Tunnel) (s : Server)
    → lookup (to_lower t.subdomain) s.http_router ≡ none
    → (finish_http id c t s (register_tunnel t.subdomain t s.http_router)).1 ≡ tunnel_created t ∷ []
unfolding finish_http register_tunnel
finish_http-some id c t s free = ground (arith, free)

inspect_routes : (k : ℕ) (s : Server) → (inspect k s).http_router ≡ s.http_router
inspect_routes k s = ground arith

-- A request that meets every check succeeds.
handle_tunnel_request-created :
    (o : Outside) (req : TunnelRequest) (id : ℕ) (c : Client) (s : Server)
    → lookup id s.objects ≡ some c
    → req.tunnel_type ≡ some http
    → reached (global_max c.plan) (tunnel_count c s) ≡ false
    → reached (token_max c) (length c.tunnels) ≡ false
    → may_use c.token (wanted o req) ≡ true
    → lookup (to_lower (wanted o req)) s.http_router ≡ none
    → (t : Tunnel) × ((handle_tunnel_request o req id s).1 ≡ tunnel_created t ∷ [])
      × (t.subdomain ≡ wanted o req)
unfolding handle_tunnel_request handle_request create create_http_tunnel
handle_tunnel_request-created o req id c s found is_http below room allowed free =
    let made : Tunnel = record {
      id = s.next_id;
      client_id = id;
      type = http;
      name = req.name;
      subdomain = wanted o req;
      remote_port = 0;
      local_port = req.local_port;
    } in
    let s1 = inspect made.id (record s { next_id = s.next_id + 1 }) in
    let free1 : lookup (to_lower (wanted o req)) s1.http_router ≡ none =
      ap (λ r. lookup (to_lower (wanted o req)) r)
        (inspect_routes made.id (record s { next_id = s.next_id + 1 }))
      ∙ free in
    let last : (finish_http id c made s1 (register_tunnel made.subdomain made s1.http_router)).1
        ≡ tunnel_created made ∷ [] =
      finish_http-some id c made s1 free1 in
    (made, ground (arith, found, is_http, below, room, allowed, last), refl)

-- A handler that begins its work when Close has run on its client, and whose request for an HTTP tunnel meets
-- every check, still creates the tunnel. Its subdomain then leads to a tunnel of the client that is gone, and
-- a further Close does not free it.
pub late_request_leaks :
    (o : Outside) (req : TunnelRequest) (id : ℕ) (c : Client) (s : Server)
    → contains s.clients id ≡ false
    → lookup id s.objects ≡ some c
    → req.tunnel_type ≡ some http
    → reached (global_max c.plan) (tunnel_count c s) ≡ false
    → reached (token_max c) (length c.tunnels) ≡ false
    → may_use c.token (wanted o req) ≡ true
    → lookup (to_lower (wanted o req)) s.http_router ≡ none
    → (t : Tunnel) × ((handle_tunnel_request o req id s).1 ≡ tunnel_created t ∷ [])
      × (t.client_id ≡ id)
      × (get_tunnel
            (wanted o req)
            (close_client id (handle_tunnel_request o req id s).0).http_router
          ≡ some t)
unfolding handle_tunnel_request get_tunnel close_client get_client
late_request_leaks o req id c s gone found is_http below room allowed free =
    let (t, answer, named) =
      handle_tunnel_request-created o req id c s found is_http below room allowed free in
    let s' = (handle_tunnel_request o req id s).0 in
    let (own, routed, clients) =
      handle_request-Routed o req id c t s s' is_http (ground (arith, found, answer)) in
    (t, answer, own, ground (arith, clients, gone, routed, named))
