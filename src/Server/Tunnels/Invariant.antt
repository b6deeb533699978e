-- ===== src/Server/Tunnels/Invariant.antt =====
-- What ties the routing table to the clients' tunnels, and how one change keeps it.
use fxtun_dev.Base.{
  ℕ, ◌+◌, ◌≤◌, ◌<◌, ◌≡◌, refl, ◌≢◌, ◌⊎◌, inl, inr, true, none, some, arith, eqb, if◌then◌else◌,
  Bool-cases, Option-cases, nat_eq,
}
use mathlib.Core.Path.{subst₂}
use fxtun_dev.Base.Bytes.{Bytes, bytes_eq, bytes_beq, bytes_beq_iff, to_lower}
use fxtun_dev.Base.Dict.{lookup, lookup-insert, Unique, insert-Unique}
use fxtun_dev.Base.Sets.{contains}
use fxtun_dev.Server.Tunnels.{http, Tunnel, Client, Server, get_client, put, with_tunnel}

-- A route leads to an HTTP tunnel of a registered client, under the subdomain of that tunnel.
abbrev pub Owned : Server → Bytes → Tunnel → Type 0
Owned s sub t =
    (c : Client) × (get_client t.client_id s ≡ some c)
    × (lookup t.id c.tunnels ≡ some t)
    × (t.type ≡ http)
    × (to_lower t.subdomain ≡ sub)

pub record Inv (s : Server) : Type 0 where
  pub owned : (sub : Bytes) (t : Tunnel) → lookup sub s.http_router ≡ some t → Owned s sub t
  pub routed :
      (id k : ℕ) (c : Client) (t : Tunnel)
      → get_client id s ≡ some c
      → lookup k c.tunnels ≡ some t
      → t.type ≡ http
      → lookup (to_lower t.subdomain) s.http_router ≡ some t
  pub labelled :
      (id k : ℕ) (c : Client) (t : Tunnel)
      → get_client id s ≡ some c
      → lookup k c.tunnels ≡ some t
      → (t.id ≡ k) × (t.client_id ≡ id) × (k < s.next_id)
  pub unique : (id : ℕ) (c : Client) → get_client id s ≡ some c → Unique c.tunnels
  pub known : (id : ℕ) → contains s.clients id ≡ true → id < s.next_id

-- A change of the counter, the ports, the users or the buffers alone.
pub unchanged-Inv :
    (s s' : Server)
    → s'.objects ≡ s.objects
    → s'.clients ≡ s.clients
    → s'.http_router ≡ s.http_router
    → s.next_id ≤ s'.next_id
    → Inv s
    → Inv s'
unfolding get_client
unchanged-Inv s s' eo ec er en v = record {
  owned = λ sub t e. rw (ec, eo) (v.owned sub t (rw er at e));
  routed = λ id k c t g e h. rw er (v.routed id k c t (rw (eo, ec) at g) e h);
  labelled = λ id k c t g e. omega (arith, v.labelled id k c t (rw (eo, ec) at g) e);
  unique = λ id c g. v.unique id c (rw (eo, ec) at g);
  known = λ id e. omega (arith, v.known id (rw ec at e));
}

pub get_client-put :
    (id j : ℕ) (c c' : Client) (s : Server)
    → get_client id s ≡ some c
    → get_client j (put id c' s) ≡ (if eqb id j then some c' else get_client j s)
unfolding get_client
get_client-put id j c c' s g = ground (arith, lookup-insert id j c' s.objects)

-- A registered client gets a tunnel under the next identifier. An HTTP tunnel takes a subdomain that
-- was free.
abbrev pub NewRoute : Tunnel → Server → Server → Type 0
NewRoute t s s' =
    ((sub : Bytes)
      → lookup sub s'.http_router
        ≡ (if bytes_beq (to_lower t.subdomain) sub then some t else lookup sub s.http_router))
    × (lookup (to_lower t.subdomain) s.http_router ≡ none)
    × (t.type ≡ http)

abbrev pub Registered : ℕ → Client → Server → Server → Type 0
Registered id c' s s' = (j : ℕ) → get_client j s' ≡ (if eqb id j then some c' else get_client j s)

module _ (t : Tunnel) (c : Client) (s s' : Server) (v : Inv s)
    (g : get_client t.client_id s ≡ some c) (next : t.id ≡ s.next_id)
    (now : Registered t.client_id (with_tunnel t c) s s') (grows : s'.next_id ≡ s.next_id + 1)
    (same_clients : s'.clients ≡ s.clients) where
  tunnels_now :
      (id : ℕ) (c' : Client)
      → get_client id s' ≡ some c'
      → ((id ≡ t.client_id) × (c' ≡ with_tunnel t c)) ⊎ (get_client id s ≡ some c')
  tunnels_now id c' g' = elim (Bool-cases (eqb t.client_id id)) [
    | inl same ↦ inl (ground (arith, same), ground (arith, now id, same))
    | inr other ↦ inr (ground (arith, now id, other))
  ]

  fresh_id : lookup t.id c.tunnels ≡ none
  fresh_id = elim (Option-cases (lookup t.id c.tunnels)) [
    | inl e ↦ e
    | inr (u, e) ↦ absurd (omega (arith, v.labelled t.client_id t.id c u g e))
  ]

  added-labelled :
      (id k : ℕ) (c' : Client) (u : Tunnel)
      → get_client id s' ≡ some c'
      → lookup k c'.tunnels ≡ some u
      → (u.id ≡ k) × (u.client_id ≡ id) × (k < s'.next_id)
  added-labelled id k c' u g' e = elim (tunnels_now id c' g') [
    | inr before ↦ omega (arith, v.labelled id k c' u before e)
    | inl (here, is) ↦ elim (Bool-cases (eqb t.id k)) [
      | inl hit ↦ ground (arith, here, is, hit, lookup-insert t.id k t c.tunnels)
      | inr miss ↦
          ground (
            arith,
            here,
            is,
            miss,
            lookup-insert t.id k t c.tunnels,
            v.labelled t.client_id k c u g,
          )
    ]
  ]

  added-Unique : (id : ℕ) (c' : Client) → get_client id s' ≡ some c' → Unique c'.tunnels
  added-Unique id c' g' = elim (tunnels_now id c' g') [
    | inr before ↦ v.unique id c' before
    | inl (here, is) ↦ rw is (insert-Unique t.id t c.tunnels (v.unique t.client_id c g))
  ]

  added-known : (id : ℕ) → contains s'.clients id ≡ true → id < s'.next_id
  added-known id e = omega (arith, v.known id (rw same_clients at e))

  -- The tunnels that were there before are there still.
  kept :
      (id k : ℕ) (c' : Client) (u : Tunnel)
      → get_client id s ≡ some c'
      → lookup k c'.tunnels ≡ some u
      → (d : Client) × (get_client id s' ≡ some d) × (lookup k d.tunnels ≡ some u)
  kept id k c' u b e = elim (Bool-cases (eqb t.client_id id)) [
    | inl same ↦ (
      with_tunnel t c,
      ground (arith, now id, same),
      ground (arith, same, g, b, e, fresh_id, lookup-insert t.id k t c.tunnels),
    )
    | inr other ↦ (c', ground (arith, now id, other, b), e)
  ]

  kept-Owned : (sub : Bytes) (u : Tunnel) → Owned s sub u → Owned s' sub u
  kept-Owned sub u (d, gd, e, h, l) =
      let (d', gd', e') = kept u.client_id u.id d u gd e in (d', gd', e', h, l)

  pub added_port-Inv : t.type ≢ http → s'.http_router ≡ s.http_router → Inv s'
  added_port-Inv not_http er = record {
    owned = λ sub u e. kept-Owned sub u (v.owned sub u (rw er at e));
    routed = λ id k c' u g' e h. rw er (elim (tunnels_now id c' g') [
      | inr before ↦ v.routed id k c' u before e h
      | inl (here, is) ↦ elim (Bool-cases (eqb t.id k)) [
        | inl hit ↦
            absurd (not_http (ground (arith, is, hit, e, h, lookup-insert t.id k t c.tunnels)))
        | inr miss ↦
            v.routed t.client_id k c u g
              (ground (arith, is, miss, e, lookup-insert t.id k t c.tunnels)) h
      ]
    ]);
    labelled = added-labelled;
    unique = added-Unique;
    known = added-known;
  }

  new-Owned : t.type ≡ http → Owned s' (to_lower t.subdomain) t
  new-Owned h = (
    with_tunnel t c,
    ground (arith, now t.client_id),
    ground (arith, lookup-insert t.id t.id t c.tunnels),
    h,
    refl,
  )

  still_routed :
      (u : Tunnel)
      → NewRoute t s s'
      → lookup (to_lower u.subdomain) s.http_router ≡ some u
      → lookup (to_lower u.subdomain) s'.http_router ≡ some u
  still_routed u (er, free, is_http) e = ground (
    arith,
    er (to_lower u.subdomain),
    free,
    e,
    bytes_beq_iff (to_lower t.subdomain) (to_lower u.subdomain),
  )

  now_routed :
      (u : Tunnel) → NewRoute t s s' → t ≡ u → lookup (to_lower u.subdomain) s'.http_router ≡ some u
  now_routed u (er, free, is_http) e = rw (← e) (
      ground (
        arith,
        er (to_lower t.subdomain),
        bytes_beq_iff (to_lower t.subdomain) (to_lower t.subdomain),
      ))

  pub added_http-Inv : NewRoute t s s' → Inv s'
  added_http-Inv a = record {
    owned = λ sub u e. elim (Bool-cases (bytes_beq (to_lower t.subdomain) sub)) [
      | inl same ↦
          let same_tunnel : t ≡ u = ground (arith, a.0 sub, same, e) in
          subst₂ (Owned s') ((bytes_beq_iff (to_lower t.subdomain) sub).0 same) same_tunnel
            (new-Owned a.2)
      | inr other ↦ kept-Owned sub u (v.owned sub u (ground (arith, a.0 sub, other, e)))
    ];
    routed = λ id k c' u g' e h. elim (tunnels_now id c' g') [
      | inr before ↦ still_routed u a (v.routed id k c' u before e h)
      | inl (here, is) ↦ elim (Bool-cases (eqb t.id k)) [
        | inl hit ↦ now_routed u a (ground (arith, is, hit, e, lookup-insert t.id k t c.tunnels))
        | inr miss ↦ still_routed u a (
            v.routed t.client_id k c u g
              (ground (arith, is, miss, e, lookup-insert t.id k t c.tunnels)) h)
      ]
    ];
    labelled = added-labelled;
    unique = added-Unique;
    known = added-known;
  }
