-- ===== src/Server/Auth/Keeping.antt =====
-- What authenticate of internal/server/auth_handler.go keeps of the server, in every outcome.
use fxtun_dev.Base.{
  inl, inr, Bool, true, false, not, ◌&&◌, Option, none, some, ◌∷◌, ltb, if◌then◌else◌, Option-cases,
  nat_eq,
}
use fxtun_dev.Base.Bytes.{Bytes, bytes_eq}
use fxtun_dev.Base.Int.{ℤ, pos}
use fxtun_dev.Access.{find_token, is_ip_allowed}
use fxtun_dev.Server.Tunnels.{Client, connect}
use fxtun_dev.Server.Tunnels.Invariant.{Inv}
use fxtun_dev.Server.Tunnels.Creation.{connect-Inv}
use fxtun_dev.Server.Tunnels.Ending.{close_client-Inv}
use fxtun_dev.Server.Auth.{
  user_if, plan_of_user, admin_of, db_max_tunnels, jwt_max_tunnels, build_capabilities, DbToken,
  Jwt, expired_jwt, invalid_jwt, claims, Env, AuthResult, AuthState, is_jwt, welcome, db_client,
  authenticate_db, jwt_client, authenticate_jwt, legacy_client, authenticate_legacy, with_jwt,
  authenticate,
}

if_Inv :
    (b : Bool) (x y : AuthState × AuthResult)
    → Inv x.0.server
    → Inv y.0.server
    → Inv (if b then x else y).0.server
if_Inv true x y h k = h
if_Inv false x y h k = k

module _ (env : Env) (token : Bytes) where
  welcome-Inv :
      (c : Client) (l : ℤ) (k : Option Bool) (st : AuthState)
      → Inv st.server
      → Inv (welcome env c l k st).0.server
  unfolding welcome
  welcome-Inv c l k st v =
      let v' = connect-Inv c st.server v in
      if_Inv env.sent _ _ v' (close_client-Inv st.server.next_id (connect c st.server) v')

  legacy-Inv : (st : AuthState) → Inv st.server → Inv (authenticate_legacy env token st).0.server
  unfolding authenticate_legacy
  legacy-Inv st v = elim (Option-cases (find_token env.tokens token)) [
    | inl h ↦
        rw h (if_Inv env.auth_enabled _ _ v (welcome-Inv (legacy_client none) (pos 10) none st v))
    | inr (t, h) ↦ rw h (
        if_Inv env.auth_enabled _ _ (welcome-Inv (legacy_client (some t)) t.max_tunnels none st v)
          (welcome-Inv (legacy_client none) (pos 10) none st v))
  ]

  with_jwt-Inv : (st : AuthState) (j : Jwt) → Inv st.server → Inv (with_jwt env token j st).0.server
  unfolding with_jwt authenticate_jwt
  with_jwt-Inv st expired_jwt v = v
  with_jwt-Inv st invalid_jwt v = legacy-Inv st v
  with_jwt-Inv st (claims user admin) v =
      let plan = plan_of_user env (env.user_by_id user) in
      welcome-Inv (jwt_client user plan) (jwt_max_tunnels plan) (build_capabilities plan admin) st v

  db-Inv : (t : DbToken) (st : AuthState) → Inv st.server → Inv (authenticate_db env t st).0.server
  unfolding authenticate_db
  db-Inv t st v =
      let user = user_if (ltb 0 t.user_id) (env.user_by_id t.user_id) in
      let plan = plan_of_user env user in
      if_Inv (not (is_ip_allowed env.host_of t.api_token env.remote_addr)) _ _ v (
        welcome-Inv (db_client t plan) (db_max_tunnels t.api_token.max_tunnels plan)
          (build_capabilities plan (admin_of user)) (record st { last_used = t.id ∷ st.last_used })
          v)

-- Whatever the token and whether or not the answer arrives, the server's invariant is kept.
pub authenticate-Inv :
    (env : Env) (token : Bytes) (st : AuthState)
    → Inv st.server
    → Inv (authenticate env token st).0.server
unfolding authenticate
authenticate-Inv env token st v = elim (Option-cases (env.token_by_hash token)) [
  | inr (t, h) ↦ rw (h, authenticate) (db-Inv env token t st v)
  | inl h ↦
      rw (h, authenticate)
        (if_Inv (env.has_auth_service && is_jwt token) _ _
          (with_jwt-Inv env token st (env.validate token) v) (legacy-Inv env token st v))
]
