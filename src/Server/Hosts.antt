-- ===== src/Server/Hosts.antt =====
-- internal/server/http_router.go and server.go: from the host of a request to a subdomain or to a custom
-- domain, and the writer that bounds what is captured. Strings are their bytes, and host names are ASCII.
pub mod Names
mod Tests
use fxtun_dev.Base.{
  ℕ, zero, suc, ◌+◌, ◌-◌, ◌*◌, ◌/◌, ◌%◌, ◌^◌, ◌≤◌, ◌<◌, ◌≡◌, refl, sym, ap, ◌∙◌, ◌≢◌, ◌↔◌, ◌⊎◌, inl,
  inr, Bool, true, false, not, ◌&&◌, ◌||◌, Option, none, some, List, [], ◌∷◌, ◌++◌, map, arith, ltb,
  leb, eqb, if◌then◌else◌, ltb→lt, lt→ltb, leb→le, eqb_iff, Bool-cases, Option-cases, is_some, Eq,
  nat_eq, ◌==◌, length, get_elem?, set, take, drop, replicate, All, length-append, length-take,
  length-drop,
}
use fxtun_dev.Base.Bytes.{Bytes, bytes_eq, codes, to_lower}
use fxtun_dev.Base.Dict.{Dict, lookup, insert, delete}
use fxtun_dev.Protocol.Io.{Writer, write}
use fxtun_dev.Access.{has_prefix, has_suffix}

-- ':' and '.'.
abbrev pub colon : ℕ
colon = 58

abbrev pub dot : ℕ
dot = 46

abbrev pub has_colon : Bytes → Bool
has_colon [] = false
has_colon (b ∷ s) = eqb b colon || has_colon s

-- `if idx := strings.LastIndex(host, ":"); idx != -1 { host = host[:idx] }`.
abbrev pub cut_port : Bytes → Bytes
cut_port [] = []
cut_port (b ∷ s) = if not (has_colon s) && eqb b colon then [] else b ∷ cut_port s

-- strings.TrimPrefix(host, "www.").
unfoldable pub trim_www : Bytes → Bytes
trim_www host = if has_prefix (codes "www.") host then drop 4 host else host

-- One base domain in the loop of extractSubdomain, after the test of the suffix.
abbrev pub before_suffix : Bytes → Bytes → Bytes
before_suffix suffix host = take (length host - length suffix) host

-- The loop over the domains.
unfoldable pub search_domains : List Bytes → Bytes → Bytes
search_domains [] host = []
search_domains (base ∷ domains) host =
    let rest = search_domains domains host in
    let subdomain = before_suffix (dot ∷ base) host in
    if has_suffix (dot ∷ base) host && not (subdomain == []) && not (subdomain == codes "www")
    then to_lower subdomain
    else rest

-- `base` and `aliases` are of the configuration; the empty string is "no subdomain".
unfoldable pub extract_subdomain : Bytes → List Bytes → Bytes → Bytes
unfolding search_domains trim_www
extract_subdomain base aliases host = search_domains (base ∷ aliases) (trim_www (cut_port host))

-- `customDomains`.
abbrev pub CustomDomains {ℓ} : Type ℓ → Type ℓ
CustomDomains D = Dict Bytes D

module _ {ℓ} {D : Type ℓ} where
  unfoldable pub lookup_custom_domain : Bytes → CustomDomains D → Option D
  lookup_custom_domain host m = lookup (cut_port (to_lower host)) m

  -- `AddCustomDomain` of a domain with its name.
  unfoldable pub add_custom_domain : Bytes → D → CustomDomains D → CustomDomains D
  add_custom_domain domain d m = insert (to_lower domain) d m

  unfoldable pub remove_custom_domain : Bytes → CustomDomains D → CustomDomains D
  remove_custom_domain domain m = delete (to_lower domain) m

pub record LimitedWriter : Type 0 where
  pub w : Writer
  pub remaining : ℕ

-- After the inner write of n bytes: what is reported, and whether there is an error.
limited : ℕ → ℕ → LimitedWriter → Writer × Bool → LimitedWriter × ℕ × Bool
limited n len lw (w', true) = (record { w = w'; remaining = lw.remaining - n }, len, true)
limited n len lw (w', false) =
    (record { w = w'; remaining = lw.remaining - lw.w.room }, lw.w.room, false)

-- The number of bytes it reports, and whether there is no error.
unfoldable pub write_limited : Bytes → LimitedWriter → LimitedWriter × ℕ × Bool
unfolding limited write
write_limited p lw =
    if eqb lw.remaining 0
    then (lw, length p, true)
    else let n = if ltb lw.remaining (length p) then lw.remaining else length p in
      limited n (length p) lw (write (take n p) lw.w)
