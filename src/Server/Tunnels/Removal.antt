-- ===== src/Server/Tunnels/Removal.antt =====
-- How the removal of a tunnel, the end of a client and a new client keep the invariant.
use fxtun_dev.Base.{
  ℕ, ◌≡◌, ◌≢◌, ◌↔◌, ◌⊎◌, inl, inr, Bool, true, false, ◌&&◌, ◌||◌, Option, none, some, [], ◌∷◌,
  arith, eqb, if◌then◌else◌, Bool-cases, Option-cases, nat_eq,
}
use fxtun_dev.Base.Bytes.{Bytes, bytes_eq, bytes_beq, bytes_beq_iff, to_lower}
use fxtun_dev.Base.Dict.{Dict, lookup, Unique}
use fxtun_dev.Base.Sets.{contains}
use fxtun_dev.Server.Tunnels.{http, tcp, udp, Tunnel, Client, Server, get_client}
use fxtun_dev.Server.Tunnels.Invariant.{Owned, Inv}

abbrev pub is_http : Tunnel → Bool
is_http t = elim t.type [ http ↦ true | tcp ↦ false | udp ↦ false ]

http_iff : (t : Tunnel) → (is_http t ≡ true) ↔ (t.type ≡ http)
http_iff t = ground arith

-- Some HTTP tunnel of the table has the subdomain.
abbrev pub covers : Dict ℕ Tunnel → Bytes → Bool
covers [] sub = false
covers ((k, t) ∷ ts) sub = (is_http t && bytes_beq (to_lower t.subdomain) sub) || covers ts sub

lookup→covers :
    (ts : Dict ℕ Tunnel) (k : ℕ) (t : Tunnel)
    → lookup k ts ≡ some t
    → t.type ≡ http
    → covers ts (to_lower t.subdomain) ≡ true
unfolding lookup
lookup→covers [] k t e h = cc
lookup→covers ((j, u) ∷ ts) k t e h =
    ground
      (arith, lookup→covers ts k t, bytes_beq_iff (to_lower u.subdomain) (to_lower t.subdomain))

covers→lookup :
    (ts : Dict ℕ Tunnel) (sub : Bytes)
    → Unique ts
    → covers ts sub ≡ true
    → (k : ℕ) × (t : Tunnel) × (lookup k ts ≡ some t)
      × (t.type ≡ http)
      × (to_lower t.subdomain ≡ sub)
unfolding lookup
covers→lookup [] sub u e = cc
covers→lookup ((j, t) ∷ ts) sub u e =
    elim (Bool-cases (is_http t && bytes_beq (to_lower t.subdomain) sub)) [
      | inl hit ↦ (
        j,
        t,
        ground arith,
        ground (arith, hit),
        (bytes_beq_iff (to_lower t.subdomain) sub).0 (ground (arith, hit)),
      )
      | inr miss ↦
          let (k, t', l, h, s) = covers→lookup ts sub u.1 (ground (arith, miss)) in
          (k, t', ground (arith, l, u.0), h, s)
    ]

-- A client loses the tunnels `gone`, and the table the routes of these.
module _ (id : ℕ) (c : Client) (s s' : Server) (v : Inv s) (g : get_client id s ≡ some c)
    (gone : Dict ℕ Tunnel)
    (part : (k : ℕ) (t : Tunnel) → lookup k gone ≡ some t → lookup k c.tunnels ≡ some t)
    (gone_unique : Unique gone)
    (routes : (sub : Bytes)
      → lookup sub s'.http_router
        ≡ (if covers gone sub then none else lookup sub s.http_router)) where
  -- The routes of other tunnels stay.
  spared :
      (j k : ℕ) (d : Client) (u : Tunnel)
      → get_client j s ≡ some d
      → lookup k d.tunnels ≡ some u
      → u.type ≡ http
      → ((lookup k gone ≡ some u) → (id ≡ j) → ⊥)
      → lookup (to_lower u.subdomain) s'.http_router ≡ some u
  spared j k d u gd e h other = elim (Bool-cases (covers gone (to_lower u.subdomain))) [
    | inr free ↦ ground (arith, free, routes (to_lower u.subdomain), v.routed j k d u gd e h)
    | inl hit ↦
        let (i, t, l, ht, same) = covers→lookup gone (to_lower u.subdomain) gone_unique hit in
        let route_t = v.routed id i c t g (part i t l) ht in
        let route_u = v.routed j k d u gd e h in
        let same_tunnel : t ≡ u = ground (arith, same, route_t, route_u) in
        absurd (
          other
            (ground
              (arith, same_tunnel, l, v.labelled id i c t g (part i t l), v.labelled j k d u gd e))
            (ground
              (arith, same_tunnel, v.labelled id i c t g (part i t l), v.labelled j k d u gd e)))
  ]

  module _ (left : Option Client)
      (now : (j : ℕ) → get_client j s' ≡ (if eqb id j then left else get_client j s))
      (keeps : (k : ℕ) (u : Tunnel)
        → lookup k c.tunnels ≡ some u
        → lookup k gone ≡ none
        → (d : Client) × (left ≡ some d) × (lookup k d.tunnels ≡ some u))
      (only : (d : Client)
        → left ≡ some d
        → Unique d.tunnels
          × ((k : ℕ) (u : Tunnel)
              → lookup k d.tunnels ≡ some u
              → (lookup k c.tunnels ≡ some u) × (lookup k gone ≡ none)))
      (fewer : (j : ℕ) → contains s'.clients j ≡ true → contains s.clients j ≡ true)
      (same_next : s'.next_id ≡ s.next_id) where
    -- Whose tunnels a client now has.
    tunnels_left :
        (j : ℕ) (d : Client)
        → get_client j s' ≡ some d
        → ((id ≡ j) × (left ≡ some d)) ⊎ ((id ≢ j) × (get_client j s ≡ some d))
    tunnels_left j d gd = elim (Bool-cases (eqb id j)) [
      | inl same ↦ inl (ground (arith, same), ground (arith, same, now j))
      | inr other ↦ inr (ground (arith, other), ground (arith, other, now j))
    ]

    still-Owned : (sub : Bytes) (u : Tunnel) → lookup sub s'.http_router ≡ some u → Owned s' sub u
    still-Owned sub u e =
        let before : lookup sub s.http_router ≡ some u = ground (arith, e, routes sub) in
        let (d, gd, l, h, same) = v.owned sub u before in
        let uncovered : covers gone sub ≡ false = ground (arith, e, routes sub) in
        elim (Bool-cases (eqb id u.client_id)) [
          | inr other ↦ (d, ground (arith, other, now u.client_id, gd), l, h, same)
          | inl mine ↦
              let is_c : c ≡ d = ground (arith, mine, g, gd) in
              let not_gone : lookup u.id gone ≡ none = elim (Option-cases (lookup u.id gone)) [
                | inl n ↦ n
                | inr (w, lw) ↦ absurd (
                    ground (
                      arith,
                      part u.id w lw,
                      l,
                      is_c,
                      lookup→covers gone u.id w lw,
                      h,
                      same,
                      uncovered,
                    ))
              ] in
              let (d', ld, ll) = keeps u.id u (ground (arith, is_c, l)) not_gone in
              (d', ground (arith, mine, now u.client_id, ld), ll, h, same)
        ]

    pub removed-Inv : Inv s'
    removed-Inv = record {
      owned = still-Owned;
      routed = λ j k d u gd e h. elim (tunnels_left j d gd) [
        | inr (other, before) ↦ spared j k d u before e h (λ l same. other same)
        | inl (same, ld) ↦
            let (l, n) = (only d ld).1 k u e in
            spared id k c u g l h (λ lg _. ground (arith, lg, n))
      ];
      labelled = λ j k d u gd e. elim (tunnels_left j d gd) [
        | inr (other, before) ↦ omega (arith, v.labelled j k d u before e, same_next)
        | inl (same, ld) ↦ omega (arith, v.labelled id k c u g ((only d ld).1 k u e).0, same_next)
      ];
      unique = λ j d gd. elim (tunnels_left j d gd) [
        | inr (other, before) ↦ v.unique j d before
        | inl (same, ld) ↦ (only d ld).0
      ];
      known = λ j e. omega (arith, v.known j (fewer j e), same_next);
    }
