-- ===== src/Server/Auth.antt =====
-- authenticate of internal/server/auth_handler.go: the three kinds of token in their order, and the
-- client that is made. SHA-256 and the look-up by the hash, the validation of a JWT and net.SplitHostPort
-- are parameters; an error of a query counts as a missing row, as in the source.
pub mod Credentials
pub mod Keeping
mod Tests
use fxtun_dev.Base.{
  ℕ, zero, suc, ◌+◌, ◌-◌, ◌*◌, ◌/◌, ◌%◌, ◌^◌, ◌≤◌, ◌<◌, ◌≡◌, refl, sym, ap, ◌∙◌, ◌≢◌, ◌↔◌, ◌⊎◌, inl,
  inr, Bool, true, false, not, ◌&&◌, ◌||◌, Option, none, some, List, [], ◌∷◌, ◌++◌, map, arith, ltb,
  leb, eqb, if◌then◌else◌, ltb→lt, lt→ltb, leb→le, eqb_iff, Bool-cases, Option-cases, is_some, Eq,
  nat_eq, ◌==◌, length, get_elem?, set, take, drop, replicate, All, length-append, length-take,
  length-drop,
}
use fxtun_dev.Base.Bytes.{Bytes, bytes_eq, codes}
use fxtun_dev.Base.Int.{ℤ, pos, negsuc}
use fxtun_dev.Access.{
  TokenConfig, can_use_subdomain, find_token, ApiToken, api_can_use_subdomain, is_ip_allowed,
  has_prefix,
}
use fxtun_dev.Server.Tunnels.{Token, Client, Server, connect}
use fxtun_dev.Server.Tunnels.Closing.{close_client}

pub record AuthPlan : Type 0 where
  pub max_tunnels : ℤ
  pub inspector_enabled : Bool

pub record AuthUser : Type 0 where
  pub is_admin : Bool
  pub plan_id : ℕ

pub record DbToken : Type 0 where
  pub id : ℕ
  pub user_id : ℕ
  pub api_token : ApiToken

-- What ValidateAccessToken comes to: the user and whether it is an administrator.
pub data Jwt : Type 0 where
  expired_jwt invalid_jwt : Jwt
  claims : ℕ → Bool → Jwt

-- `token_by_hash` is `none` for every token where there is no database.
pub record Env : Type 0 where
  pub token_by_hash : Bytes → Option DbToken
  pub user_by_id : ℕ → Option AuthUser
  pub plan_by_id : ℕ → Option AuthPlan
  pub has_auth_service : Bool
  pub validate : Bytes → Jwt
  pub auth_enabled : Bool
  pub tokens : List TokenConfig
  pub host_of : Bytes → Option Bytes
  pub remote_addr : Bytes
  -- Whether the answer reaches the client.
  pub sent : Bool

pub data Refusal : Type 0 where
  ip_not_allowed token_expired invalid_token : Refusal

-- `granted` has the client's id, the limit that it is told, and its capabilities, if any.
pub data AuthResult : Type 0 where
  refused : Refusal → AuthResult
  send_failed : AuthResult
  granted : ℕ → ℤ → Option Bool → AuthResult

pub record AuthState : Type 0 where
  pub server : Server
  -- The tokens whose last use was noted.
  pub last_used : List ℕ

count_dots : Bytes → ℕ
count_dots [] = 0
count_dots (c ∷ s) = if c == b'.' then suc (count_dots s) else count_dots s

unfoldable pub is_jwt : Bytes → Bool
unfolding count_dots
is_jwt token = if has_prefix (codes "sk_") token then false else count_dots token == 2

-- `IsUnlimited`.
abbrev pub is_unlimited : ℤ → Bool
is_unlimited (pos n) = false
is_unlimited (negsuc n) = true

abbrev pub ltb_ℤ : ℤ → ℤ → Bool
ltb_ℤ (pos a) (pos b) = ltb a b
ltb_ℤ (pos a) (negsuc b) = false
ltb_ℤ (negsuc a) (pos b) = true
ltb_ℤ (negsuc a) (negsuc b) = ltb b a

-- buildCapabilities: whether the inspector is enabled.
unfoldable pub build_capabilities : Option AuthPlan → Bool → Option Bool
build_capabilities none admin = if admin then some true else none
build_capabilities (some p) admin = some (p.inspector_enabled || admin)

unfoldable pub plan_of_user : Env → Option AuthUser → Option AuthPlan
plan_of_user env none = none
plan_of_user env (some u) = if ltb 0 u.plan_id then env.plan_by_id u.plan_id else none

unfoldable pub admin_of : Option AuthUser → Bool
admin_of none = false
admin_of (some u) = u.is_admin

unfoldable pub user_if : Bool → Option AuthUser → Option AuthUser
user_if b r = if b then r else none

abbrev limit_of : Option AuthPlan → Option ℤ
limit_of none = none
limit_of (some p) = some p.max_tunnels

unfoldable pub db_max_tunnels : ℤ → Option AuthPlan → ℤ
db_max_tunnels limit none = limit
db_max_tunnels limit (some p) =
    if not (is_unlimited p.max_tunnels) && ltb_ℤ p.max_tunnels limit then p.max_tunnels else limit

unfoldable pub jwt_max_tunnels : Option AuthPlan → ℤ
jwt_max_tunnels none = pos 10
jwt_max_tunnels (some p) = if is_unlimited p.max_tunnels then negsuc 0 else p.max_tunnels

-- The client is registered and linked to its user; if the answer cannot be sent, it is closed.
unfoldable pub welcome : Env → Client → ℤ → Option Bool → AuthState → AuthState × AuthResult
welcome env c limit caps st =
    let id = st.server.next_id in
    let server = connect c st.server in
    if env.sent
    then (record st { server = server }, granted id limit caps)
    else (record st { server = close_client id server }, send_failed)

unfoldable pub db_client : DbToken → Option AuthPlan → Client
db_client t plan = record {
  token = none;
  db_token = some (record {
    max_tunnels = t.api_token.max_tunnels;
    allows = api_can_use_subdomain t.api_token;
  });
  plan = limit_of plan;
  user_id = t.user_id;
  tunnels = [];
}

unfoldable pub authenticate_db : Env → DbToken → AuthState → AuthState × AuthResult
authenticate_db env t st =
    if not (is_ip_allowed env.host_of t.api_token env.remote_addr)
    then (st, refused ip_not_allowed)
    else let user = user_if (ltb 0 t.user_id) (env.user_by_id t.user_id) in
      let plan = plan_of_user env user in
      welcome env (db_client t plan) (db_max_tunnels t.api_token.max_tunnels plan)
        (build_capabilities plan (admin_of user)) (record st { last_used = t.id ∷ st.last_used })

unfoldable pub jwt_client : ℕ → Option AuthPlan → Client
jwt_client user plan = record {
  token = none;
  db_token = none;
  plan = limit_of plan;
  user_id = user;
  tunnels = [];
}

unfoldable pub authenticate_jwt : Env → ℕ → Bool → AuthState → AuthState × AuthResult
authenticate_jwt env user admin st =
    let plan = plan_of_user env (env.user_by_id user) in
    welcome env (jwt_client user plan) (jwt_max_tunnels plan) (build_capabilities plan admin) st

unfoldable pub legacy_client : Option TokenConfig → Client
legacy_client none = record {
  token = none;
  db_token = none;
  plan = none;
  user_id = 0;
  tunnels = [];
}
legacy_client (some t) = record {
  token = some (record { max_tunnels = t.max_tunnels; allows = can_use_subdomain t });
  db_token = none;
  plan = none;
  user_id = 0;
  tunnels = [];
}

unfoldable pub authenticate_legacy : Env → Bytes → AuthState → AuthState × AuthResult
authenticate_legacy env token st =
    if env.auth_enabled
    then elim (find_token env.tokens token) [
      | none ↦ (st, refused invalid_token)
      | some t ↦ welcome env (legacy_client (some t)) t.max_tunnels none st
    ]
    else welcome env (legacy_client none) (pos 10) none st

unfoldable pub with_jwt : Env → Bytes → Jwt → AuthState → AuthState × AuthResult
with_jwt env token expired_jwt st = (st, refused token_expired)
with_jwt env token invalid_jwt st = authenticate_legacy env token st
with_jwt env token (claims user admin) st = authenticate_jwt env user admin st

unfoldable pub authenticate : Env → Bytes → AuthState → AuthState × AuthResult
authenticate env token st = elim (env.token_by_hash token) [
  | some t ↦ authenticate_db env t st
  | none ↦
      if env.has_auth_service && is_jwt token
      then with_jwt env token (env.validate token) st
      else authenticate_legacy env token st
]
