-- ===== src/Access/Tests.antt =====
-- The patterns of tokens, run, and their theorems at concrete inputs.
use fxtun_dev.Base.{◌≡◌, refl, ◌↔◌, ◌⊎◌, true, false, none, some, [], ◌∷◌, ◌++◌, nat_eq}
use fxtun_dev.Base.Bytes.{Bytes, bytes_eq, codes}
use fxtun_dev.Base.Int.{pos}
use fxtun_dev.Access.{
  split_star, TokenConfig, allows_pattern, can_use_subdomain, api_allows_pattern, find_token,
  is_ip_allowed,
}
use fxtun_dev.Access.Patterns.{allows_pattern_iff}

abbrev dev_token : TokenConfig
dev_token = record {
  token = codes "secret";
  allowed_subdomains = codes "dev-*-eu" ∷ codes "app" ∷ [];
  max_tunnels = pos 2;
}

dev_allowed : can_use_subdomain dev_token (codes "dev-1-eu") ≡ true
unfolding can_use_subdomain
dev_allowed = refl

overlap_refused : can_use_subdomain dev_token (codes "dev-eu") ≡ false
unfolding can_use_subdomain
overlap_refused = refl

token_found : find_token (dev_token ∷ []) (codes "secret") ≡ some dev_token
unfolding find_token
token_found = refl

-- A '*' in the middle is no wildcard for a token of the database.
middle_literal : api_allows_pattern (codes "dev-*-eu") (codes "dev-1-eu") ≡ false
unfolding api_allows_pattern
middle_literal = refl

ip_refused :
    is_ip_allowed
      (λ ip. none)
      (record { allowed_subdomains = []; max_tunnels = pos 0; allowed_ips = codes "10.0.0.1" ∷ [] })
      (codes "10.0.0.2")
    ≡ false
unfolding is_ip_allowed
ip_refused = refl

allows_pattern_iff_example :
    ((pre post : Bytes) × (split_star (codes "a*b") ≡ some (pre, post))
      × ((allows_pattern (codes "a*b") (codes "axb") ≡ true)
          ↔ ((mid : Bytes) × (codes "axb" ≡ pre ++ (mid ++ post)))))
    ⊎ ((split_star (codes "a*b") ≡ none)
        × ((allows_pattern (codes "a*b") (codes "axb") ≡ true) ↔ (codes "a*b" ≡ codes "axb")))
allows_pattern_iff_example = allows_pattern_iff (codes "a*b") (codes "axb")
