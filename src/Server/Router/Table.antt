-- ===== src/Server/Router/Table.antt =====
-- The routing table: subdomains are case-insensitive, and have one tunnel each.
use fxtun_dev.Base.{◌≡◌, ◌↔◌, inl, inr, none, some, arith, if◌then◌else◌, Option-cases, nat_eq}
use fxtun_dev.Base.Bytes.{Bytes, bytes_eq, bytes_beq, to_lower}
use fxtun_dev.Base.Dict.{lookup, insert, lookup-insert, lookup-delete}
use fxtun_dev.Server.Router.{Routes, register_tunnel, unregister_tunnel, get_tunnel}

module _ {ℓ} {T : Type ℓ} where
  -- After a registration that succeeds, the subdomain in any spelling of its case leads to the tunnel, and
  -- every other subdomain where it led before.
  pub get_tunnel-register_tunnel :
      (s t : Bytes) (tunnel : T) (r r' : Routes T)
      → register_tunnel s tunnel r ≡ some r'
      → get_tunnel t r'
        ≡ (if bytes_beq (to_lower s) (to_lower t) then some tunnel else get_tunnel t r)
  unfolding register_tunnel get_tunnel
  get_tunnel-register_tunnel s t tunnel r r' e = elim (Option-cases (lookup (to_lower s) r)) [
    | inl free ↦ rw (← made free) (lookup-insert (to_lower s) (to_lower t) tunnel r)
    | inr (x, taken) ↦ absurd (ground (arith, taken))
  ]
    where
      made : lookup (to_lower s) r ≡ none → insert (to_lower s) tunnel r ≡ r'
      made free = ground (arith, free)

  pub get_tunnel-unregister_tunnel :
      (s t : Bytes) (r : Routes T)
      → get_tunnel t (unregister_tunnel s r)
        ≡ (if bytes_beq (to_lower s) (to_lower t) then none else get_tunnel t r)
  unfolding unregister_tunnel get_tunnel
  get_tunnel-unregister_tunnel s t r = lookup-delete (to_lower s) (to_lower t) r

  -- A registration is refused exactly when the subdomain, in any spelling of its case, has a tunnel.
  pub register_tunnel-none_iff :
      (s : Bytes) (tunnel : T) (r : Routes T)
      → (register_tunnel s tunnel r ≡ none) ↔ ((t : T) × (get_tunnel s r ≡ some t))
  unfolding register_tunnel get_tunnel
  register_tunnel-none_iff s tunnel r = elim (Option-cases (lookup (to_lower s) r)) [
    | inl free ↦ (λ h. absurd (ground (arith, free)), λ h. absurd (ground (arith, free)))
    | inr (x, taken) ↦ (λ h. (x, taken), λ h. ground (arith, taken))
  ]

  pub register_tunnel-some :
      (s : Bytes) (tunnel : T) (r r' : Routes T)
      → register_tunnel s tunnel r ≡ some r'
      → (lookup (to_lower s) r ≡ none) × (r' ≡ insert (to_lower s) tunnel r)
  unfolding register_tunnel
  register_tunnel-some s tunnel r r' e = ground arith
