-- ===== src/Server/Tunnels/Closing.antt =====
-- internal/server/server.go and client_manager.go: the end of a tunnel, of a client, and of the serving
-- of a port.
use fxtun_dev.Base.{
  ℕ, Bool, false, Option, none, some, List, [], ◌∷◌, if◌then◌else◌, is_some, nat_eq,
}
use fxtun_dev.Base.Bytes.{bytes_eq}
use fxtun_dev.Base.Dict.{Dict, lookup, delete}
use fxtun_dev.Base.Sets.{without}
use fxtun_dev.Server.Router.{unregister_tunnel}
use fxtun_dev.Server.Ports.{PortAllocator, Result, ok, err}
use fxtun_dev.Server.Ports
use fxtun_dev.Server.Tunnels.{
  TunnelType, http, tcp, udp, Tunnel, Client, Server, Reply, tunnel_closed, get_client, or_empty,
  unlink_user_client, put, uninspect,
}

-- What closing a tunnel does to the shared tables.
unfoldable pub detach : ℕ → Tunnel → Server → Server
detach tunnel_id t s = elim t.type [
  | http ↦
      uninspect tunnel_id (record s { http_router = unregister_tunnel t.subdomain s.http_router })
  | tcp ↦ s
  | udp ↦ s
]

unfoldable pub close_found : ℕ → ℕ → Client → Option Tunnel → Server → Server × List Reply
unfolding detach
close_found tunnel_id id c none s = (s, [])
close_found tunnel_id id c (some t) s = (
  detach tunnel_id t (put id (record c { tunnels = delete tunnel_id c.tunnels }) s),
  tunnel_closed tunnel_id ∷ [],
)

-- `closeTunnel` of the client `id`; MsgTunnelClose is handled by it.
unfoldable pub close_tunnel : ℕ → ℕ → Server → Server × List Reply
unfolding close_found
close_tunnel tunnel_id id s = elim (lookup id s.objects) [
  | none ↦ (s, [])
  | some c ↦ close_found tunnel_id id c (lookup tunnel_id c.tunnels) s
]

-- The loop over the tunnels in `Client.Close`.
unfoldable pub detach_all : Dict ℕ Tunnel → Server → Server
unfolding detach
detach_all [] s = s
detach_all ((i, t) ∷ ts) s = detach_all ts (detach i t s)

unfoldable pub close_registered : ℕ → Client → Server → Server
unfolding detach_all unlink_user_client
close_registered id c s =
    let s1 = put id (record c { tunnels = [] }) (detach_all c.tunnels s) in
    let s2 = unlink_user_client c.user_id id s1 in record s2 { clients = without id s2.clients }

-- `Client.Close`. It runs once, which is to say on a registered client.
unfoldable pub close_client : ℕ → Server → Server
unfolding close_registered get_client
close_client id s = elim (get_client id s) [ none ↦ s | some c ↦ close_registered id c s ]

unfoldable pub release_port : TunnelType → ℕ → Server → Server
release_port http port s = s
release_port tcp port s = record s { tcp_ports = Ports.release port s.tcp_ports }
release_port udp port s = record s { udp_ports = Ports.release port s.udp_ports }

-- The deferred calls of AcceptConnections and HandlePackets, when they return.
unfoldable pub serving_ends : ℕ → Server → Server
unfolding release_port
serving_ends tunnel_id s = elim (lookup tunnel_id s.serving) [
  | none ↦ s
  | some t ↦ release_port t.type t.remote_port (record s { serving = delete tunnel_id s.serving })
]

unfoldable pub has_tunnel : ℕ → Option Client → Bool
has_tunnel tunnel_id none = false
has_tunnel tunnel_id (some c) = is_some (lookup tunnel_id c.tunnels)

-- The first of the clients `ids` that is registered and has the tunnel.
unfoldable pub find_owner : List ℕ → ℕ → Server → Option ℕ
unfolding get_client
find_owner [] tunnel_id s = none
find_owner (id ∷ ids) tunnel_id s =
    if has_tunnel tunnel_id (get_client id s) then some id else find_owner ids tunnel_id s

unfoldable pub close_owned : Option ℕ → ℕ → Server → Option (Server × List Reply)
unfolding close_tunnel
close_owned none tunnel_id s = none
close_owned (some id) tunnel_id s = some (close_tunnel tunnel_id id s)

-- ClientManager.AdminCloseTunnel; `none` is the error "tunnel not found".
unfoldable pub admin_close_tunnel : ℕ → Server → Option (Server × List Reply)
unfolding find_owner has_tunnel close_owned
admin_close_tunnel tunnel_id s = close_owned (find_owner s.clients tunnel_id s) tunnel_id s

-- ClientManager.CloseTunnelByID.
unfoldable pub close_tunnel_by_id : ℕ → ℕ → Server → Option (Server × List Reply)
unfolding find_owner has_tunnel close_owned
close_tunnel_by_id tunnel_id user_id s =
    close_owned (find_owner (or_empty (lookup user_id s.user_clients)) tunnel_id s) tunnel_id s
