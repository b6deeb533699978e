-- ===== src/Config/Tests.antt =====
-- The checks of a configuration, run, and their theorem at a concrete input.
use fxtun_dev.Base.{◌≡◌, refl, true, false, none, some, [], nat_eq}
use fxtun_dev.Base.Bytes.{bytes_eq, codes}
use fxtun_dev.Base.Int.{pos}
use fxtun_dev.Config.{ServerConfig, short_jwt_secret, validate}

abbrev good : ServerConfig
good = record {
  control_port = pos 4443;
  http_port = pos 80;
  tcp_port_range = record { min = 10; max = 20 };
  udp_port_range = record { min = 30; max = 30 };
  tls_enabled = false;
  cert_file = [];
  key_file = [];
  custom_domains_enabled = false;
  web_enabled = true;
  jwt_secret = codes "0123456789abcdef0123456789abcdef";
  encryption_key = codes "0123456789abcdef";
}

passes : validate good ≡ none
unfolding validate
passes = refl

short_secret : validate (record good { jwt_secret = codes "short" }) ≡ some short_jwt_secret
unfolding validate
short_secret = refl
