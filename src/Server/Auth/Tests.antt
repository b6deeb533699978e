-- ===== src/Server/Auth/Tests.antt =====
-- Authentication at concrete inputs.
use fxtun_dev.Server.Auth.{
  db_max_tunnels, build_capabilities, plan_of_user, user_if, admin_of, with_jwt,
}
use fxtun_dev.Access.{is_ip_allowed}
use fxtun_dev.Base.{ℕ, ◌≡◌, refl, true, none, some, [], ◌∷◌, if◌then◌else◌, nat_eq, ◌==◌}
use fxtun_dev.Base.Bytes.{bytes_eq, codes}
use fxtun_dev.Base.Int.{pos}
use fxtun_dev.Access.{TokenConfig}
use fxtun_dev.Server.Ports.{PortAllocator}
use fxtun_dev.Server.Tunnels.Steps.{new_server}
use fxtun_dev.Server.Auth.{
  Env, DbToken, expired_jwt, AuthState, refused, token_expired, is_jwt, authenticate,
  authenticate_db, welcome,
}
use fxtun_dev.Server.Auth.Credentials.{Credential, user_of, authenticate-Credential}

abbrev configured : TokenConfig
configured = record { token = codes "a.b.c"; allowed_subdomains = []; max_tunnels = pos 3 }

abbrev row : DbToken
row = record {
  id = 9;
  user_id = 7;
  api_token = record { allowed_subdomains = []; max_tunnels = pos 5; allowed_ips = [] };
}

abbrev env : Env
env = record {
  token_by_hash = λ t. if t == codes "sk_1" then some row else none;
  user_by_id = λ u. none;
  plan_by_id = λ p. none;
  has_auth_service = true;
  validate = λ t. expired_jwt;
  auth_enabled = true;
  tokens = configured ∷ [];
  host_of = λ a. none;
  remote_addr = codes "1.2.3.4:5";
  sent = true;
}

abbrev no_ports : PortAllocator
no_ports = record { port_range = record { min = 10; max = 12 }; used_ports = [] }

abbrev fresh : AuthState
fresh = record { server = new_server no_ports no_ports true; last_used = [] }

let_in :
    (user : ℕ) × Credential env (codes "sk_1") user
    × (user_of 1 (authenticate env (codes "sk_1") fresh).0.server ≡ some user)
unfolding authenticate authenticate_db welcome new_server is_ip_allowed db_max_tunnels
    build_capabilities plan_of_user user_if admin_of
let_in = authenticate-Credential env (codes "sk_1") fresh refl 1 (pos 5) none refl

-- An expired JWT is refused also where the configuration has the same token.
expired_is_refused : (authenticate env (codes "a.b.c") fresh).1 ≡ refused token_expired
unfolding authenticate is_jwt with_jwt
expired_is_refused = refl
