-- ===== src/Server/Router.antt =====
-- internal/server/http_router.go: the table of the routed subdomains. Subdomains are ASCII.
pub mod Table
use fxtun_dev.Base.{
  ℕ, zero, suc, ◌+◌, ◌-◌, ◌*◌, ◌/◌, ◌%◌, ◌^◌, ◌≤◌, ◌<◌, ◌≡◌, refl, sym, ap, ◌∙◌, ◌≢◌, ◌↔◌, ◌⊎◌, inl,
  inr, Bool, true, false, not, ◌&&◌, ◌||◌, Option, none, some, List, [], ◌∷◌, ◌++◌, map, arith, ltb,
  leb, eqb, if◌then◌else◌, ltb→lt, lt→ltb, leb→le, eqb_iff, Bool-cases, Option-cases, is_some, Eq,
  nat_eq, ◌==◌, length, get_elem?, set, take, drop, replicate, All, length-append, length-take,
  length-drop,
}
use fxtun_dev.Base.Bytes.{Bytes, bytes_eq, codes, to_lower}
use fxtun_dev.Base.Dict.{Dict, lookup, insert, delete}

-- `tunnels`, from subdomains in lower case.
abbrev pub Routes {ℓ} : Type ℓ → Type ℓ
Routes T = Dict Bytes T

module _ {ℓ} {T : Type ℓ} where
  -- `none` is the error "subdomain already in use".
  unfoldable pub register_tunnel : Bytes → T → Routes T → Option (Routes T)
  register_tunnel subdomain tunnel r = elim (lookup (to_lower subdomain) r) [
    | some t ↦ none
    | none ↦ some (insert (to_lower subdomain) tunnel r)
  ]

  unfoldable pub unregister_tunnel : Bytes → Routes T → Routes T
  unregister_tunnel subdomain r = delete (to_lower subdomain) r

  unfoldable pub get_tunnel : Bytes → Routes T → Option T
  get_tunnel subdomain r = lookup (to_lower subdomain) r
