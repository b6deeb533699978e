-- ===== src/Config.antt =====
-- internal/config/server.go: the checks of a loaded configuration. Strings are their bytes.
mod Tests
use fxtun_dev.Base.{
  ℕ, zero, suc, ◌+◌, ◌-◌, ◌*◌, ◌/◌, ◌%◌, ◌^◌, ◌≤◌, ◌<◌, ◌≡◌, refl, sym, ap, ◌∙◌, ◌≢◌, ◌↔◌, ◌⊎◌, inl,
  inr, Bool, true, false, not, ◌&&◌, ◌||◌, Option, none, some, List, [], ◌∷◌, ◌++◌, map, arith, ltb,
  leb, eqb, if◌then◌else◌, ltb→lt, lt→ltb, leb→le, eqb_iff, Bool-cases, Option-cases, is_some, Eq,
  nat_eq, ◌==◌, length, get_elem?, set, take, drop, replicate, All, length-append, length-take,
  length-drop,
}
use fxtun_dev.Base.Bytes.{Bytes, bytes_eq, bytes_beq, bytes_beq_iff}
use fxtun_dev.Base.Int.{ℤ, pos, negsuc}
use fxtun_dev.Server.Ports.{PortRange}

-- The settings that Validate reads.
pub record ServerConfig : Type 0 where
  pub control_port : ℤ
  pub http_port : ℤ
  pub tcp_port_range : PortRange
  pub udp_port_range : PortRange
  pub tls_enabled : Bool
  pub cert_file : Bytes
  pub key_file : Bytes
  pub custom_domains_enabled : Bool
  pub web_enabled : Bool
  pub jwt_secret : Bytes
  pub encryption_key : Bytes

pub data ConfigError : Type 0 where
  invalid_control_port invalid_http_port invalid_tcp_range invalid_udp_range : ConfigError
  no_certificate no_jwt_secret short_jwt_secret no_encryption_key short_encryption_key : ConfigError

unfoldable pub valid_port : ℤ → Bool
valid_port (pos n) = leb 1 n && leb n 65535
valid_port (negsuc n) = false

abbrev or_else : Option ConfigError → Option ConfigError → Option ConfigError
or_else none e = e
or_else (some e) _ = some e

-- One `if` that returns an error.
abbrev fails : Bool → ConfigError → Option ConfigError
fails bad e = if bad then some e else none

check_ports : ServerConfig → Option ConfigError
unfolding valid_port
check_ports c = or_else (fails (not (valid_port c.control_port)) invalid_control_port) (
    or_else (fails (not (valid_port c.http_port)) invalid_http_port) (
      or_else (fails (ltb c.tcp_port_range.max c.tcp_port_range.min) invalid_tcp_range)
        (fails (ltb c.udp_port_range.max c.udp_port_range.min) invalid_udp_range)))

check_tls : ServerConfig → Option ConfigError
check_tls c =
    let has_static_certs = not (c.cert_file == []) && not (c.key_file == []) in
    fails (c.tls_enabled && not has_static_certs && not c.custom_domains_enabled) no_certificate

check_web : ServerConfig → Option ConfigError
check_web c =
    if not c.web_enabled
    then none
    else or_else (fails (c.jwt_secret == []) no_jwt_secret) (
        or_else (fails (ltb (length c.jwt_secret) 32) short_jwt_secret) (
          or_else (fails (c.encryption_key == []) no_encryption_key)
            (fails (ltb (length c.encryption_key) 16) short_encryption_key)))

-- `none` is a configuration that passes.
unfoldable pub validate : ServerConfig → Option ConfigError
unfolding check_ports check_tls check_web
validate c = or_else (check_ports c) (or_else (check_tls c) (check_web c))

-- What the server relies on.
abbrev pub Usable : ServerConfig → Type 0
Usable c =
    (valid_port c.control_port ≡ true)
    × (valid_port c.http_port ≡ true)
    × (c.tcp_port_range.min ≤ c.tcp_port_range.max)
    × (c.udp_port_range.min ≤ c.udp_port_range.max)
    × ((c.tls_enabled ≡ false)
        ⊎ (c.custom_domains_enabled ≡ true)
        ⊎ ((c.cert_file ≢ []) × (c.key_file ≢ [])))
    × ((c.web_enabled ≡ false) ⊎ ((32 ≤ length c.jwt_secret) × (16 ≤ length c.encryption_key)))

long_enough : (n : ℕ) (s : Bytes) → 0 < n → n ≤ length s → bytes_beq s [] ≡ false
long_enough n [] h l = absurd (omega arith)
long_enough n (b ∷ s) h l = refl

-- A configuration passes exactly when both ports lie between 1 and 65535, no port range is empty, TLS has static
-- certificates or custom domains when it is on, and the web panel has secrets of 32 and 16 bytes when it is on.
pub validate_iff : (c : ServerConfig) → (validate c ≡ none) ↔ Usable c
unfolding validate check_ports check_tls check_web
validate_iff c = (
  λ e. ground (arith, bytes_beq_iff c.cert_file [], bytes_beq_iff c.key_file []),
  λ e. ground (
    arith,
    bytes_beq_iff c.cert_file [],
    bytes_beq_iff c.key_file [],
    long_enough 32 c.jwt_secret,
    long_enough 16 c.encryption_key,
  ),
)
