-- ===== src/Server/Tunnels/Steps.antt =====
-- The histories of the server in which each call runs to its end: what is routed is what registered
-- clients have open.
use fxtun_dev.Base.{ℕ, ◌≡◌, ◌↔◌, Bool, true, some, List, [], arith, nat_eq}
use fxtun_dev.Base.Bytes.{Bytes, bytes_eq, to_lower}
use fxtun_dev.Base.Dict.{lookup}
use fxtun_dev.Base.Sets.{contains}
use fxtun_dev.Server.Router.{get_tunnel}
use fxtun_dev.Server.Ports.{PortAllocator}
use fxtun_dev.Server.Tunnels.{
  Tunnel, Client, Server, TunnelRequest, Reply, Outside, get_client, connect,
}
use fxtun_dev.Server.Tunnels.Requests.{handle_tunnel_request}
use fxtun_dev.Server.Tunnels.Closing.{
  close_tunnel, close_client, serving_ends, admin_close_tunnel, close_tunnel_by_id,
}
use fxtun_dev.Server.Tunnels.Invariant.{Owned, Inv}
use fxtun_dev.Server.Tunnels.Creation.{connect-Inv, handle_tunnel_request-Inv}
use fxtun_dev.Server.Tunnels.Ending.{
  close_tunnel-Inv, close_client-Inv, serving_ends-Inv, admin_close_tunnel-Inv,
  close_tunnel_by_id-Inv,
}

-- The server that New makes, with its two port allocators.
unfoldable pub new_server : PortAllocator → PortAllocator → Bool → Server
new_server tcp_ports udp_ports inspect_enabled = record {
  objects = [];
  clients = [];
  user_clients = [];
  http_router = [];
  tcp_ports = tcp_ports;
  udp_ports = udp_ports;
  serving = [];
  inspect_enabled = inspect_enabled;
  inspected = [];
  next_id = 1;
}

-- One call. The messages of a client are handled while it is registered.
pub data Step : Server → Server → Type 0 where
  connects : (c : Client) (s : Server) → Step s (connect c s)
  requests :
      (o : Outside) (req : TunnelRequest) (id : ℕ) (s : Server)
      → contains s.clients id ≡ true
      → Step s (handle_tunnel_request o req id s).0
  closes : (k id : ℕ) (s : Server) → contains s.clients id ≡ true → Step s (close_tunnel k id s).0
  disconnects : (id : ℕ) (s : Server) → Step s (close_client id s)
  stops_serving : (k : ℕ) (s : Server) → Step s (serving_ends k s)
  admin_closes :
      (k : ℕ) (s s' : Server) (r : List Reply) → admin_close_tunnel k s ≡ some (s', r) → Step s s'
  user_closes :
      (k user_id : ℕ) (s s' : Server) (r : List Reply)
      → close_tunnel_by_id k user_id s ≡ some (s', r)
      → Step s s'

pub data Steps (s : Server) : Server → Type 0 where
  start : Steps s s
  after : (t u : Server) → Steps s t → Step t u → Steps s u

Step-Inv : (s s' : Server) → Step s s' → Inv s → Inv s'
Step-Inv s _ (connects c _) v = connect-Inv c s v
Step-Inv s _ (requests o req id _ here) v = handle_tunnel_request-Inv o req id s here v
Step-Inv s _ (closes k id _ here) v = close_tunnel-Inv k id s here v
Step-Inv s _ (disconnects id _) v = close_client-Inv id s v
Step-Inv s _ (stops_serving k _) v = serving_ends-Inv k s v
Step-Inv s s' (admin_closes k _ _ r e) v = admin_close_tunnel-Inv k s s' r e v
Step-Inv s s' (user_closes k user_id _ _ r e) v = close_tunnel_by_id-Inv k user_id s s' r e v

-- The invariant holds after every history.
pub Steps-Inv : (s s' : Server) → Steps s s' → Inv s → Inv s'
Steps-Inv s _ start v = v
Steps-Inv s s' (after t _ h l) v = Step-Inv t s' l (Steps-Inv s t h v)

pub new_server-Inv : (p q : PortAllocator) (i : Bool) → Inv (new_server p q i)
unfolding new_server get_client lookup
new_server-Inv p q i = record {
  owned = λ sub t e. absurd (ground (arith, e));
  routed = λ id k c t g e h. absurd (ground (arith, g));
  labelled = λ id k c t g e. absurd (ground (arith, g));
  unique = λ id c g. absurd (ground (arith, g));
  known = λ id e. absurd (ground (arith, e));
}

-- After any history of calls from a new server, a subdomain in any spelling of its case is routed to a
-- tunnel exactly when that tunnel is an HTTP tunnel with this subdomain, held under its identifier by a
-- registered client.
pub get_tunnel_iff :
    (p q : PortAllocator) (i : Bool) (s : Server)
    → Steps (new_server p q i) s
    → (sub : Bytes) (t : Tunnel)
    → (get_tunnel sub s.http_router ≡ some t) ↔ Owned s (to_lower sub) t
unfolding get_tunnel
get_tunnel_iff p q i s h sub t =
    let v = Steps-Inv (new_server p q i) s h (new_server-Inv p q i) in
    (
      v.owned (to_lower sub) t,
      λ (c, g, l, e, same). rw (← same) (v.routed t.client_id t.id c t g l e),
    )
