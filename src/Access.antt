-- ===== src/Access.antt =====
-- internal/config/server.go and internal/database/models.go: which subdomains and addresses a token may use.
-- Strings are their bytes.
pub mod Patterns
mod Tests
use fxtun_dev.Base.{
  ℕ, zero, suc, ◌+◌, ◌-◌, ◌*◌, ◌/◌, ◌%◌, ◌^◌, ◌≤◌, ◌<◌, ◌≡◌, refl, sym, ap, ◌∙◌, ◌≢◌, ◌↔◌, ◌⊎◌, inl,
  inr, Bool, true, false, not, ◌&&◌, ◌||◌, Option, none, some, List, [], ◌∷◌, ◌++◌, map, arith, ltb,
  leb, eqb, if◌then◌else◌, ltb→lt, lt→ltb, leb→le, eqb_iff, Bool-cases, Option-cases, is_some, Eq,
  nat_eq, ◌==◌, length, get_elem?, set, take, drop, replicate, All, length-append, length-take,
  length-drop,
}
use fxtun_dev.Base.Bytes.{Bytes, bytes_eq}
use fxtun_dev.Base.Int.{ℤ, pos, negsuc}

-- strings.HasPrefix and strings.HasSuffix.
abbrev pub has_prefix : Bytes → Bytes → Bool
has_prefix [] s = true
has_prefix (b ∷ p) [] = false
has_prefix (b ∷ p) (c ∷ s) = eqb b c && has_prefix p s

unfoldable pub has_suffix : Bytes → Bytes → Bool
has_suffix suffix s =
    leb (length suffix) (length s) && (drop (length s - length suffix) s == suffix)

-- '*'.
abbrev pub star : ℕ
star = 42

abbrev cons_first : ℕ → Option (Bytes × Bytes) → Option (Bytes × Bytes)
cons_first b none = none
cons_first b (some (pre, post)) = some (b ∷ pre, post)

-- strings.SplitN(pattern, "*", 2) of a pattern with a '*', and `none` without one.
abbrev pub split_star : Bytes → Option (Bytes × Bytes)
split_star [] = none
split_star (b ∷ s) = if eqb b star then some ([], s) else cons_first b (split_star s)

-- config.TokenConfig.
pub record TokenConfig : Type 0 where
  pub token : Bytes
  pub allowed_subdomains : List Bytes
  pub max_tunnels : ℤ

-- One round of the loop of TokenConfig.CanUseSubdomain.
unfoldable pub allows_pattern : Bytes → Bytes → Bool
unfolding has_suffix
allows_pattern pattern subdomain =
    if pattern == (star ∷ []) then true else elim (split_star pattern) [
      | none ↦ pattern == subdomain
      | some (pre, post) ↦
          (has_prefix pre subdomain && has_suffix post subdomain)
          && leb (length pre + length post) (length subdomain)
    ]

abbrev pub any_pattern : (Bytes → Bytes → Bool) → List Bytes → Bytes → Bool
any_pattern f [] subdomain = false
any_pattern f (pattern ∷ patterns) subdomain =
    f pattern subdomain || any_pattern f patterns subdomain

unfoldable pub can_use_subdomain : TokenConfig → Bytes → Bool
unfolding allows_pattern
can_use_subdomain t subdomain = any_pattern allows_pattern t.allowed_subdomains subdomain

find_in : List TokenConfig → Bytes → Option TokenConfig
find_in [] token = none
find_in (t ∷ ts) token = if t.token == token then some t else find_in ts token

-- ServerConfig.FindToken, on the tokens of the configuration.
unfoldable pub find_token : List TokenConfig → Bytes → Option TokenConfig
unfolding find_in
find_token tokens token = find_in tokens token

-- database.APIToken.
pub record ApiToken : Type 0 where
  pub allowed_subdomains : List Bytes
  pub max_tunnels : ℤ
  pub allowed_ips : List Bytes

-- The last byte of b ∷ s.
abbrev pub last_byte : ℕ → Bytes → ℕ
last_byte b [] = b
last_byte b (c ∷ s) = last_byte c s

-- matchWildcard.
unfoldable pub match_wildcard : Bytes → Bytes → Bool
unfolding has_suffix
match_wildcard [] subdomain = eqb (length subdomain) 0
match_wildcard (b ∷ p) subdomain =
    if eqb (last_byte b p) star
    then has_prefix (take (length p) (b ∷ p)) subdomain
    else if eqb b star
    then has_suffix p subdomain
    else (b ∷ p) == subdomain

-- One round of the loop of APIToken.CanUseSubdomain.
unfoldable pub api_allows_pattern : Bytes → Bytes → Bool
unfolding match_wildcard
api_allows_pattern pattern subdomain = (pattern == (star ∷ [])) || match_wildcard pattern subdomain

-- APIToken.CanUseSubdomain.
unfoldable pub api_can_use_subdomain : ApiToken → Bytes → Bool
unfolding api_allows_pattern
api_can_use_subdomain t subdomain = any_pattern api_allows_pattern t.allowed_subdomains subdomain

-- `host_of` is the host of net.SplitHostPort, and `none` is its error.
unfoldable pub is_ip_allowed : (Bytes → Option Bytes) → ApiToken → Bytes → Bool
is_ip_allowed host_of t ip = elim t.allowed_ips [
  | [] ↦ true
  | a ∷ rest ↦
      any_pattern (λ allowed host. allowed == host) (a ∷ rest)
        (elim (host_of ip) [ none ↦ ip | some host ↦ host ])
]
