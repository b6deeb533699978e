-- ===== src/Server/Hosts/Tests.antt =====
-- Runs of the host functions and of the bounded capture, and their theorems at concrete inputs.
use fxtun_dev.Base.{ℕ, ◌≡◌, refl, List, [], ◌∷◌}
use fxtun_dev.Base.Bytes.{Bytes, codes, to_lower}
use fxtun_dev.Access.{has_suffix}
use fxtun_dev.Server.Hosts.{extract_subdomain, LimitedWriter}

www_stripped : extract_subdomain (codes "fx.dev") [] (codes "www.App.fx.dev:443") ≡ codes "app"
unfolding extract_subdomain to_lower has_suffix
www_stripped = refl

alias_found :
    extract_subdomain (codes "fx.dev") (codes "fx.io" ∷ []) (codes "app.fx.io") ≡ codes "app"
unfolding extract_subdomain to_lower has_suffix
alias_found = refl

base_alone : extract_subdomain (codes "fx.dev") [] (codes "www.fx.dev") ≡ []
unfolding extract_subdomain has_suffix
base_alone = refl

abbrev four : ℕ
four = 4

abbrev three_bytes_left : LimitedWriter
three_bytes_left = record { w = record { sent = []; room = 10 }; remaining = 3 }

abbrev two_writes : List Bytes
two_writes = (1 ∷ 2 ∷ []) ∷ (3 ∷ 4 ∷ []) ∷ []
