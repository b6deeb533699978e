-- ===== src/Server/Auth/Credentials.antt =====
-- Whom authenticate of internal/server/auth_handler.go lets in, and what it does to the server.
use fxtun_dev.Base.{
  ℕ, ◌≡◌, refl, inl, inr, Bool, true, ◌&&◌, Option, none, some, [], ◌∷◌, arith, ltb, Bool-cases,
  Option-cases, nat_eq,
}
use mathlib.Core.Option
use fxtun_dev.Base.Bytes.{Bytes, bytes_eq}
use fxtun_dev.Base.Int.{ℤ}
use fxtun_dev.Base.Dict.{lookup-insert}
use fxtun_dev.Access.{TokenConfig, find_token, is_ip_allowed}
use fxtun_dev.Server.Tunnels.{Client, Server, connect, get_client}
use fxtun_dev.Server.Auth.{
  Refusal, AuthPlan, invalid_token, token_expired, ip_not_allowed, user_if, plan_of_user, admin_of,
  db_max_tunnels, jwt_max_tunnels, build_capabilities, DbToken, Jwt, expired_jwt, invalid_jwt,
  claims, Env, AuthResult, refused, send_failed, granted, AuthState, is_jwt, welcome, db_client,
  authenticate_db, jwt_client, authenticate_jwt, legacy_client, authenticate_legacy, with_jwt,
  authenticate,
}

-- The user of a registered client.
abbrev pub user_of : ℕ → Server → Option ℕ
user_of id s = Option.map (λ (c : Client). c.user_id) (get_client id s)

user_of-connect : (c : Client) (s : Server) → user_of s.next_id (connect c s) ≡ some c.user_id
unfolding connect get_client
user_of-connect c s = ground (
  arith,
  lookup-insert s.next_id s.next_id (record c { tunnels = [] }) s.objects,
  nat_eq.beq_iff s.next_id s.next_id,
)

-- What lets a client in, and the user that it gets.
pub data Credential (env : Env) (token : Bytes) : ℕ → Type 0 where
  db_credential :
      (t : DbToken)
      → env.token_by_hash token ≡ some t
      → is_ip_allowed env.host_of t.api_token env.remote_addr ≡ true
      → Credential env token t.user_id
  jwt_credential :
      (user : ℕ) (admin : Bool)
      → env.has_auth_service ≡ true
      → is_jwt token ≡ true
      → env.validate token ≡ claims user admin
      → Credential env token user
  legacy_credential :
      (t : TokenConfig) → find_token env.tokens token ≡ some t → Credential env token 0

abbrev Lets : Env → Bytes → AuthState × AuthResult → Type 0
Lets env token r =
    (id : ℕ) (limit : ℤ) (caps : Option Bool)
    → r.1 ≡ granted id limit caps
    → (user : ℕ) × Credential env token user × (user_of id r.0.server ≡ some user)

module _ (env : Env) (token : Bytes) where
  legacy_user :
      (t : TokenConfig)
      → find_token env.tokens token ≡ some t
      → Credential env token (legacy_client (some t)).user_id
  unfolding legacy_client
  legacy_user t h = legacy_credential t h

  jwt_user :
      (user : ℕ) (plan : Option AuthPlan)
      → Credential env token user
      → Credential env token (jwt_client user plan).user_id
  unfolding jwt_client
  jwt_user user plan h = h

  db_user :
      (t : DbToken) (plan : Option AuthPlan)
      → Credential env token t.user_id
      → Credential env token (db_client t plan).user_id
  unfolding db_client
  db_user t plan h = h

  welcome-Lets :
      (c : Client) (l : ℤ) (k : Option Bool) (st : AuthState)
      → Credential env token c.user_id
      → Lets env token (welcome env c l k st)
  unfolding welcome
  welcome-Lets c l k st h id limit caps e = elim (Bool-cases env.sent) [
    | inl s ↦
        let same : st.server.next_id ≡ id = ground arith in
        (c.user_id, h, rw s (rw (← same) (user_of-connect c st.server)))
    | inr s ↦ cc (let clash : send_failed ≡ granted id limit caps = ground arith in clash)
  ]

  refused-Lets : (st : AuthState) (r : Refusal) → Lets env token (st, refused r)
  refused-Lets st r id limit caps e = cc

  Lets-eq : (r r' : AuthState × AuthResult) → r ≡ r' → Lets env token r' → Lets env token r
  Lets-eq r r' e h = rw e h

  legacy-Lets :
      env.auth_enabled ≡ true → (st : AuthState) → Lets env token (authenticate_legacy env token st)
  unfolding authenticate_legacy
  legacy-Lets on st = elim (Option-cases (find_token env.tokens token)) [
    | inl h ↦
        Lets-eq (authenticate_legacy env token st) (st, refused invalid_token) (ground arith)
          (refused-Lets st invalid_token)
    | inr (t, h) ↦
        Lets-eq (authenticate_legacy env token st)
          (welcome env (legacy_client (some t)) t.max_tunnels none st) (ground arith)
          (welcome-Lets (legacy_client (some t)) t.max_tunnels none st (legacy_user t h))
  ]

  jwt-Lets :
      (user : ℕ) (admin : Bool) (st : AuthState)
      → Credential env token user
      → Lets env token (authenticate_jwt env user admin st)
  unfolding authenticate_jwt
  jwt-Lets user admin st h =
      let plan = plan_of_user env (env.user_by_id user) in
      welcome-Lets (jwt_client user plan) (jwt_max_tunnels plan) (build_capabilities plan admin) st
        (jwt_user user plan h)

  with_jwt-Lets :
      env.auth_enabled ≡ true
      → env.has_auth_service ≡ true
      → is_jwt token ≡ true
      → (st : AuthState) (v : Jwt) → env.validate token ≡ v
      → Lets env token (with_jwt env token v st)
  unfolding with_jwt
  with_jwt-Lets on service jwt st expired_jwt e = refused-Lets st token_expired
  with_jwt-Lets on service jwt st invalid_jwt e = legacy-Lets on st
  with_jwt-Lets on service jwt st (claims user admin) e =
      jwt-Lets user admin st (jwt_credential user admin service jwt e)

  db-Lets :
      (t : DbToken) (st : AuthState)
      → env.token_by_hash token ≡ some t
      → Lets env token (authenticate_db env t st)
  unfolding authenticate_db
  db-Lets t st e =
      let st' = record st { last_used = t.id ∷ st.last_used } in
      let user = user_if (ltb 0 t.user_id) (env.user_by_id t.user_id) in
      let plan = plan_of_user env user in
      let limit = db_max_tunnels t.api_token.max_tunnels plan in
      let caps = build_capabilities plan (admin_of user) in
      elim (Bool-cases (is_ip_allowed env.host_of t.api_token env.remote_addr)) [
        | inl h ↦
            Lets-eq (authenticate_db env t st) (welcome env (db_client t plan) limit caps st')
              (ground arith)
              (welcome-Lets (db_client t plan) limit caps st'
                (db_user t plan (db_credential t e h)))
        | inr h ↦
            Lets-eq (authenticate_db env t st) (st, refused ip_not_allowed) (ground arith)
              (refused-Lets st ip_not_allowed)
      ]

-- Where the configuration asks for a token, every client that is let in has shown one: a token of the
-- database from an allowed address, a JWT that is valid, or a token of the configuration. The new client
-- is registered for the credential's user.
pub authenticate-Credential :
    (env : Env) (token : Bytes) (st : AuthState)
    → env.auth_enabled ≡ true
    → (id : ℕ) (limit : ℤ) (caps : Option Bool)
    → (authenticate env token st).1 ≡ granted id limit caps
    → (user : ℕ) × Credential env token user
      × (user_of id (authenticate env token st).0.server ≡ some user)
unfolding authenticate
authenticate-Credential env token st on = elim (Option-cases (env.token_by_hash token)) [
  | inr (t, h) ↦
      Lets-eq env token (authenticate env token st) (authenticate_db env t st) (ground arith)
        (db-Lets env token t st h)
  | inl h ↦ elim (Bool-cases (env.has_auth_service && is_jwt token)) [
    | inl j ↦
        Lets-eq env token (authenticate env token st) (with_jwt env token (env.validate token) st)
          (ground arith)
          (with_jwt-Lets env token on (ground arith) (ground arith) st (env.validate token) refl)
    | inr j ↦
        Lets-eq env token (authenticate env token st) (authenticate_legacy env token st)
          (ground arith) (legacy-Lets env token on st)
  ]
]
