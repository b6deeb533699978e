-- ===== src/Server/Tunnels.antt =====
-- internal/server/server.go and client_manager.go: the clients, their tunnels, and the tables that
-- these share. A pointer to a client is its identifier. Identifiers (generateID prints a counter) are
-- the counter's values. Each function is one call, run to its end; what is left of a handler when its
-- client is closed at the same time is a call on a client that is no longer registered.
pub mod Requests
pub mod Closing
pub mod Invariant
pub mod Removal
pub mod Creation
pub mod Ending
pub mod Steps
pub mod Limits
pub mod Queries
pub mod Overtaken
mod Tests
use fxtun_dev.Base.{
  ℕ, zero, suc, ◌+◌, ◌-◌, ◌*◌, ◌/◌, ◌%◌, ◌^◌, ◌≤◌, ◌<◌, ◌≡◌, refl, sym, ap, ◌∙◌, ◌≢◌, ◌↔◌, ◌⊎◌, inl,
  inr, Bool, true, false, not, ◌&&◌, ◌||◌, Option, none, some, List, [], ◌∷◌, ◌++◌, map, arith, ltb,
  leb, eqb, if◌then◌else◌, ltb→lt, lt→ltb, leb→le, eqb_iff, Bool-cases, Option-cases, is_some, Eq,
  nat_eq, ◌==◌, length, get_elem?, set, take, drop, replicate, All, length-append, length-take,
  length-drop,
}
use fxtun_dev.Base.Bytes.{Bytes, bytes_eq, to_lower}
use fxtun_dev.Base.Int.{ℤ, pos, negsuc}
use fxtun_dev.Base.Dict.{Dict, lookup, insert, delete}
use fxtun_dev.Base.Sets.{contains, without}
use fxtun_dev.Server.Router.{Routes, register_tunnel, unregister_tunnel}
use fxtun_dev.Server.Ports.{PortAllocator, Result, ok, err}
use fxtun_dev.Server.Ports

pub data TunnelType : Type 0 where
  http tcp udp : TunnelType

pub record Tunnel : Type 0 where
  pub id : ℕ
  pub client_id : ℕ
  pub type : TunnelType
  pub name : Bytes
  pub subdomain : Bytes
  pub remote_port : ℕ
  pub local_port : ℕ

-- config.TokenConfig and database.APIToken, as far as tunnels depend on them. `allows` is
-- CanUseSubdomain.
pub record Token : Type 0 where
  pub max_tunnels : ℤ
  pub allows : Bytes → Bool

pub record Client : Type 0 where
  pub token : Option Token
  pub db_token : Option Token
  -- The plan's MaxTunnels, if there is a plan.
  pub plan : Option ℤ
  -- 0 if the client has no user.
  pub user_id : ℕ
  pub tunnels : Dict ℕ Tunnel

pub record Server : Type 0 where
  -- Every client that was made, and the registered ones.
  pub objects : Dict ℕ Client
  pub clients : List ℕ
  pub user_clients : Dict ℕ (List ℕ)
  pub http_router : Routes Tunnel
  pub tcp_ports : PortAllocator
  pub udp_ports : PortAllocator
  -- The tunnels whose port is served: AcceptConnections or HandlePackets runs.
  pub serving : Dict ℕ Tunnel
  pub inspect_enabled : Bool
  -- The tunnels that have an inspect buffer.
  pub inspected : List ℕ
  pub next_id : ℕ

-- internal/protocol: TunnelRequestMessage. An unknown type is `none`.
pub record TunnelRequest : Type 0 where
  pub tunnel_type : Option TunnelType
  pub name : Bytes
  pub subdomain : Bytes
  pub local_port : ℕ
  pub remote_port : ℤ

pub data ErrorCode : Type 0 where
  tunnel_limit permission_denied subdomain_taken port_unavailable protocol_error : ErrorCode

-- The control messages that the server sends.
pub data Reply : Type 0 where
  tunnel_created : Tunnel → Reply
  tunnel_error : ErrorCode → Reply
  tunnel_closed : ℕ → Reply

-- What the outside decides during a request: the random label, and which ports can be bound.
pub record Outside : Type 0 where
  pub short_id : Bytes
  pub bind : ℕ → Bool

-- ClientManager.GetClient.
unfoldable pub get_client : ℕ → Server → Option Client
get_client id s = if contains s.clients id then lookup id s.objects else none

abbrev or_empty : Option (List ℕ) → List ℕ
or_empty none = []
or_empty (some l) = l

-- ClientManager.linkUserClient.
unfoldable pub link_user_client : ℕ → ℕ → Server → Server
link_user_client user_id client_id s = if eqb user_id 0 then s else record s {
  user_clients =
      insert user_id (or_empty (lookup user_id s.user_clients) ++ (client_id ∷ [])) s.user_clients;
}

-- The first occurrence is taken out.
unfoldable pub remove_first : ℕ → List ℕ → List ℕ
remove_first id [] = []
remove_first id (i ∷ is) = if eqb i id then is else i ∷ remove_first id is

-- ClientManager.unlinkUserClient.
unfoldable pub store_ids : ℕ → List ℕ → Server → Server
store_ids user_id [] s = record s { user_clients = delete user_id s.user_clients }
store_ids user_id (i ∷ is) s = record s { user_clients = insert user_id (i ∷ is) s.user_clients }

unfoldable pub unlink_user_client : ℕ → ℕ → Server → Server
unfolding remove_first store_ids
unlink_user_client user_id client_id s =
    if eqb user_id 0
    then s
    else store_ids user_id (remove_first client_id (or_empty (lookup user_id s.user_clients))) s

-- createClientFromDBToken, createClientFromJWT and createClient, with the link to the user that
-- `authenticate` makes.
unfoldable pub connect : Client → Server → Server
unfolding link_user_client
connect c s =
    let id = s.next_id in
    link_user_client c.user_id id (record s {
      objects = insert id (record c { tunnels = [] }) s.objects;
      clients = id ∷ without id s.clients;
      next_id = id + 1;
    })

-- Writes a client back.
abbrev pub put : ℕ → Client → Server → Server
put id c s = record s { objects = insert id c s.objects }

abbrev pub with_tunnel : Tunnel → Client → Client
with_tunnel t c = record c { tunnels = insert t.id t c.tunnels }

-- inspect.Manager.Remove, as far as which tunnels have a buffer.
abbrev pub uninspect : ℕ → Server → Server
uninspect id s = record s { inspected = without id s.inspected }
