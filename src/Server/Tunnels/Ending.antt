-- ===== src/Server/Tunnels/Ending.antt =====
-- The end of a tunnel, and the end of a client, keep the invariant.
use fxtun_dev.Base.{
  ℕ, ◌≡◌, refl, ◌∙◌, inl, inr, true, ◌&&◌, none, some, List, [], ◌∷◌, arith, if◌then◌else◌,
  Option-cases, nat_eq,
}
use fxtun_dev.Base.Bytes.{Bytes, bytes_eq, bytes_beq, to_lower}
use fxtun_dev.Base.Dict.{Dict, lookup, delete, lookup-insert, lookup-delete, delete-Unique}
use fxtun_dev.Base.Sets.{contains, contains-without}
use fxtun_dev.Server.Router.{unregister_tunnel}
use fxtun_dev.Server.Tunnels.{
  Tunnel, Client, Server, Reply, get_client, unlink_user_client, store_ids, remove_first, or_empty,
  put,
}
use fxtun_dev.Server.Tunnels.Closing.{
  detach, close_found, close_tunnel, detach_all, close_registered, close_client, release_port,
  serving_ends, find_owner, has_tunnel, close_owned, admin_close_tunnel, close_tunnel_by_id,
}
use fxtun_dev.Server.Tunnels.Invariant.{Inv, unchanged-Inv}
use fxtun_dev.Server.Tunnels.Removal.{is_http, covers, removed-Inv}

detached :
    (i : ℕ) (t : Tunnel) (s : Server)
    → ((detach i t s).objects ≡ s.objects)
      × ((detach i t s).clients ≡ s.clients)
      × ((detach i t s).next_id ≡ s.next_id)
      × ((sub : Bytes)
          → lookup sub (detach i t s).http_router ≡ (
              if is_http t && bytes_beq (to_lower t.subdomain) sub
              then none
              else lookup sub s.http_router))
unfolding detach unregister_tunnel
detached i t s = (
  ground arith,
  ground arith,
  ground arith,
  λ sub. ground (arith, lookup-delete (to_lower t.subdomain) sub s.http_router),
)

all_detached :
    (ts : Dict ℕ Tunnel) (s : Server)
    → ((detach_all ts s).objects ≡ s.objects)
      × ((detach_all ts s).clients ≡ s.clients)
      × ((detach_all ts s).next_id ≡ s.next_id)
      × ((sub : Bytes)
          → lookup sub (detach_all ts s).http_router
            ≡ (if covers ts sub then none else lookup sub s.http_router))
unfolding detach_all
all_detached [] s = (refl, refl, refl, λ sub. refl)
all_detached ((i, t) ∷ ts) s =
    let (o1, c1, n1, r1) = detached i t s in
    let (o2, c2, n2, r2) = all_detached ts (detach i t s) in
    (o2 ∙ o1, c2 ∙ c1, n2 ∙ n1, λ sub. ground (arith, r1 sub, r2 sub))

module _ (k id : ℕ) (c : Client) (t : Tunnel) (s : Server) (v : Inv s)
    (g : get_client id s ≡ some c) (found : lookup k c.tunnels ≡ some t) where
  left_client : Client
  left_client = record c { tunnels = delete k c.tunnels }

  after_close : Server
  after_close = detach k t (put id left_client s)

  just_one : (j : ℕ) (u : Tunnel) → lookup j ((k, t) ∷ []) ≡ some u → (k ≡ j) × (t ≡ u)
  unfolding lookup
  just_one j u e = ground arith

  closed-Inv : Inv after_close
  unfolding get_client after_close left_client lookup
  closed-Inv =
      let (eo, ec, en, er) = detached k t (put id left_client s) in
      removed-Inv id c s after_close v g ((k, t) ∷ [])
        (λ j u e. ground (arith, just_one j u e, found)) (refl, tt) (λ sub. ground (arith, er sub))
        (some left_client) (λ j. ground (arith, eo, ec, lookup-insert id j left_client s.objects))
        (λ j u e n. (left_client, refl, ground (arith, lookup-delete k j c.tunnels)))
        (λ d e.
          let is : left_client ≡ d = ground (arith, e) in
          rw (← is) (
            delete-Unique k c.tunnels (v.unique id c g),
            λ j u l. ground (arith, lookup-delete k j c.tunnels, l),
          ))
        (λ j e. rw ec at e) en

-- Closing a tunnel of a registered client keeps the invariant.
pub close_tunnel-Inv :
    (k id : ℕ) (s : Server) → contains s.clients id ≡ true → Inv s → Inv (close_tunnel k id s).0
unfolding close_tunnel get_client close_found after_close left_client
close_tunnel-Inv k id s here v = elim (Option-cases (lookup id s.objects)) [
  | inl missing ↦ rw (missing, close_tunnel) v
  | inr (c, found) ↦ elim (Option-cases (lookup k c.tunnels)) [
    | inl no_tunnel ↦ rw (found, close_tunnel, no_tunnel) v
    | inr (t, there) ↦
        rw (found, close_tunnel, there)
          (closed-Inv k id c t s v (ground (arith, here, found)) there)
  ]
]

stored :
    (user_id : ℕ) (ids : List ℕ) (s : Server)
    → ((store_ids user_id ids s).objects ≡ s.objects)
      × ((store_ids user_id ids s).clients ≡ s.clients)
      × ((store_ids user_id ids s).http_router ≡ s.http_router)
      × ((store_ids user_id ids s).next_id ≡ s.next_id)
unfolding store_ids
stored user_id [] s = (refl, refl, refl, refl)
stored user_id (i ∷ is) s = (refl, refl, refl, refl)

unlinked :
    (user_id id : ℕ) (s : Server)
    → ((unlink_user_client user_id id s).objects ≡ s.objects)
      × ((unlink_user_client user_id id s).clients ≡ s.clients)
      × ((unlink_user_client user_id id s).http_router ≡ s.http_router)
      × ((unlink_user_client user_id id s).next_id ≡ s.next_id)
unfolding unlink_user_client
unlinked user_id id s =
    ground (arith, stored user_id (remove_first id (or_empty (lookup user_id s.user_clients))) s)

close_registered-Inv :
    (id : ℕ) (c : Client) (s : Server)
    → get_client id s ≡ some c
    → Inv s
    → Inv (close_registered id c s)
unfolding close_registered get_client
close_registered-Inv id c s g v =
    let s1 = put id (record c { tunnels = [] }) (detach_all c.tunnels s) in
    let (eo, ec, en, er) = all_detached c.tunnels s in
    let (uo, uc, ur, un) = unlinked c.user_id id s1 in
    removed-Inv id c s (close_registered id c s) v g c.tunnels (λ k t e. e) (v.unique id c g)
      (λ sub. ground (arith, ur, er sub)) none
      (λ j. ground (
        arith,
        uo,
        uc,
        eo,
        ec,
        contains-without id j s.clients,
        lookup-insert {V = Client} id j (record c { tunnels = [] }) s.objects,
      ))
      (λ j u e n. absurd (ground (arith, e, n))) (λ d e. absurd (ground (arith, e)))
      (λ j e. ground (arith, uc, ec, contains-without id j s.clients, e)) (ground (arith, un, en))

-- The end of a client keeps the invariant.
pub close_client-Inv : (id : ℕ) (s : Server) → Inv s → Inv (close_client id s)
unfolding close_client
close_client-Inv id s v = elim (Option-cases (get_client id s)) [
  | inl missing ↦ rw (missing, close_client) v
  | inr (c, found) ↦ rw (found, close_client) (close_registered-Inv id c s found v)
]

served :
    (k : ℕ) (s : Server)
    → ((serving_ends k s).objects ≡ s.objects)
      × ((serving_ends k s).clients ≡ s.clients)
      × ((serving_ends k s).http_router ≡ s.http_router)
      × ((serving_ends k s).next_id ≡ s.next_id)
unfolding serving_ends release_port
served k s = ground arith

-- The end of the serving of a port keeps the invariant.
pub serving_ends-Inv : (k : ℕ) (s : Server) → Inv s → Inv (serving_ends k s)
serving_ends-Inv k s v =
    let (eo, ec, er, en) = served k s in
    unchanged-Inv s (serving_ends k s) eo ec er (omega (arith, en)) v

find_owner-registered :
    (ids : List ℕ) (k id : ℕ) (s : Server)
    → find_owner ids k s ≡ some id
    → contains s.clients id ≡ true
unfolding find_owner has_tunnel get_client
find_owner-registered [] k id s e = absurd (ground (arith, e))
find_owner-registered (i ∷ ids) k id s e = ground (arith, find_owner-registered ids k id s)

close_owned-Inv :
    (ids : List ℕ) (k : ℕ) (s s' : Server) (r : List Reply)
    → close_owned (find_owner ids k s) k s ≡ some (s', r)
    → Inv s
    → Inv s'
unfolding close_owned
close_owned-Inv ids k s s' r e v = elim (Option-cases (find_owner ids k s)) [
  | inl no_owner ↦ absurd (ground (arith, e, no_owner))
  | inr (id, owner) ↦
      let same : (close_tunnel k id s).0 ≡ s' = ground (arith, e, owner) in
      rw (← same) (close_tunnel-Inv k id s (find_owner-registered ids k id s owner) v)
]

-- What an administrator or a user closes keeps the invariant.
pub admin_close_tunnel-Inv :
    (k : ℕ) (s s' : Server) (r : List Reply)
    → admin_close_tunnel k s ≡ some (s', r)
    → Inv s
    → Inv s'
unfolding admin_close_tunnel
admin_close_tunnel-Inv k s s' r e v = close_owned-Inv s.clients k s s' r e v

pub close_tunnel_by_id-Inv :
    (k user_id : ℕ) (s s' : Server) (r : List Reply)
    → close_tunnel_by_id k user_id s ≡ some (s', r)
    → Inv s
    → Inv s'
unfolding close_tunnel_by_id
close_tunnel_by_id-Inv k user_id s s' r e v =
    close_owned-Inv (or_empty (lookup user_id s.user_clients)) k s s' r e v
