-- ===== src/Server/Tunnels/Queries.antt =====
-- internal/server/client_manager.go: the queries of the API. The order in which Go ranges over a map is the order
-- of the association list.
use fxtun_dev.Base.{
  ℕ, ◌+◌, ◌≡◌, refl, inl, inr, none, some, List, [], ◌∷◌, ◌++◌, arith, Option-cases, nat_eq, length,
  length-append,
}
use fxtun_dev.Base.Bytes.{Bytes}
use fxtun_dev.Base.Dict.{Dict, lookup}
use fxtun_dev.Server.Tunnels.{
  TunnelType, http, tcp, udp, Tunnel, Client, Server, get_client, or_empty,
}
use fxtun_dev.Server.Tunnels.Requests.{count_tunnels, count_tunnels_by_user_id}

pub record TunnelInfo : Type 0 where
  pub id : ℕ
  pub type : TunnelType
  pub name : Bytes
  pub subdomain : Bytes
  pub remote_port : ℕ
  pub local_port : ℕ
  pub client_id : ℕ
  pub user_id : ℕ

pub record Stats : Type 0 where
  pub active_clients : ℕ
  pub active_tunnels : ℕ
  pub http_tunnels : ℕ
  pub tcp_tunnels : ℕ
  pub udp_tunnels : ℕ

info : Client → Tunnel → TunnelInfo
info c t = record {
  id = t.id;
  type = t.type;
  name = t.name;
  subdomain = t.subdomain;
  remote_port = t.remote_port;
  local_port = t.local_port;
  client_id = t.client_id;
  user_id = c.user_id;
}

infos : Client → Dict ℕ Tunnel → List TunnelInfo
unfolding info
infos c [] = []
infos c ((k, t) ∷ ts) = info c t ∷ infos c ts

-- The tunnels of the clients that are registered.
tunnels_of : List ℕ → Server → List TunnelInfo
unfolding get_client infos
tunnels_of [] s = []
tunnels_of (id ∷ ids) s =
    elim (get_client id s) [ none ↦ [] | some c ↦ infos c c.tunnels ] ++ tunnels_of ids s

-- GetTunnelsByUserID.
unfoldable pub get_tunnels_by_user_id : ℕ → Server → List TunnelInfo
unfolding tunnels_of
get_tunnels_by_user_id user_id s = tunnels_of (or_empty (lookup user_id s.user_clients)) s

-- GetAllTunnels.
unfoldable pub get_all_tunnels : Server → List TunnelInfo
unfolding tunnels_of
get_all_tunnels s = tunnels_of s.clients s

count_type : TunnelType → Stats → Stats
count_type http st = record st { http_tunnels = st.http_tunnels + 1 }
count_type tcp st = record st { tcp_tunnels = st.tcp_tunnels + 1 }
count_type udp st = record st { udp_tunnels = st.udp_tunnels + 1 }

add_tunnels : Dict ℕ Tunnel → Stats → Stats
unfolding count_type
add_tunnels [] st = st
add_tunnels ((k, t) ∷ ts) st =
    add_tunnels ts (count_type t.type (record st { active_tunnels = st.active_tunnels + 1 }))

add_clients : List ℕ → Server → Stats → Stats
unfolding get_client add_tunnels
add_clients [] s st = st
add_clients (id ∷ ids) s st =
    add_clients ids s (elim (get_client id s) [ none ↦ st | some c ↦ add_tunnels c.tunnels st ])

-- GetStats.
unfoldable pub get_stats : Server → Stats
unfolding add_clients
get_stats s = add_clients s.clients s (record {
  active_clients = length s.clients;
  active_tunnels = 0;
  http_tunnels = 0;
  tcp_tunnels = 0;
  udp_tunnels = 0;
})

length-infos : (c : Client) (ts : Dict ℕ Tunnel) → length (infos c ts) ≡ length ts
unfolding infos
length-infos c [] = refl
length-infos c ((k, t) ∷ ts) = ground (arith, length-infos c ts)

length-tunnels_of : (ids : List ℕ) (s : Server) → length (tunnels_of ids s) ≡ count_tunnels ids s
unfolding tunnels_of count_tunnels
length-tunnels_of [] s = refl
length-tunnels_of (id ∷ ids) s = elim (Option-cases (get_client id s)) [
  | inl gone ↦ ground (arith, gone, length-tunnels_of ids s)
  | inr (c, here) ↦ ground (
    arith,
    here,
    length-tunnels_of ids s,
    length-infos c c.tunnels,
    length-append (infos c c.tunnels) (tunnels_of ids s),
  )
]

-- The number of tunnels that the limit of a user is compared with is the number that the API lists for the user.
pub length-get_tunnels_by_user_id :
    (user_id : ℕ) (s : Server)
    → length (get_tunnels_by_user_id user_id s) ≡ count_tunnels_by_user_id user_id s
unfolding get_tunnels_by_user_id count_tunnels_by_user_id
length-get_tunnels_by_user_id user_id s =
    length-tunnels_of (or_empty (lookup user_id s.user_clients)) s

-- The counts of a table, over those there were.
add_tunnels_lem :
    (ts : Dict ℕ Tunnel) (st : Stats)
    → ((add_tunnels ts st).active_clients ≡ st.active_clients)
      × ((add_tunnels ts st).active_tunnels ≡ st.active_tunnels + length ts)
      × ((add_tunnels ts st).http_tunnels
            + (add_tunnels ts st).tcp_tunnels
            + (add_tunnels ts st).udp_tunnels
          ≡ st.http_tunnels + st.tcp_tunnels + st.udp_tunnels + length ts)
unfolding add_tunnels count_type
add_tunnels_lem [] st = ground arith
add_tunnels_lem ((k, t) ∷ ts) st = ground (
  arith,
  add_tunnels_lem ts (count_type t.type (record st { active_tunnels = st.active_tunnels + 1 })),
)

add_clients_lem :
    (ids : List ℕ) (s : Server) (st : Stats)
    → ((add_clients ids s st).active_clients ≡ st.active_clients)
      × ((add_clients ids s st).active_tunnels ≡ st.active_tunnels + length (tunnels_of ids s))
      × ((add_clients ids s st).http_tunnels
            + (add_clients ids s st).tcp_tunnels
            + (add_clients ids s st).udp_tunnels
          ≡ st.http_tunnels + st.tcp_tunnels + st.udp_tunnels + length (tunnels_of ids s))
unfolding add_clients tunnels_of
add_clients_lem [] s st = ground arith
add_clients_lem (id ∷ ids) s st = elim (Option-cases (get_client id s)) [
  | inl gone ↦ ground (arith, gone, add_clients_lem ids s st)
  | inr (c, here) ↦ ground (
    arith,
    here,
    add_clients_lem ids s (add_tunnels c.tunnels st),
    add_tunnels_lem c.tunnels st,
    length-infos c c.tunnels,
    length-append (infos c c.tunnels) (tunnels_of ids s),
  )
]

-- The statistics count each registered client once, every tunnel that the API lists, and each of these under
-- exactly one type.
pub get_stats_lem :
    (s : Server)
    → ((get_stats s).active_clients ≡ length s.clients)
      × ((get_stats s).active_tunnels ≡ length (get_all_tunnels s))
      × ((get_stats s).http_tunnels + (get_stats s).tcp_tunnels + (get_stats s).udp_tunnels
          ≡ (get_stats s).active_tunnels)
unfolding get_stats get_all_tunnels
get_stats_lem s = ground (
  arith,
  add_clients_lem s.clients s (record {
    active_clients = length s.clients;
    active_tunnels = 0;
    http_tunnels = 0;
    tcp_tunnels = 0;
    udp_tunnels = 0;
  }),
)
