-- ===== src/Accounts/Service/Entering.antt =====
-- What a login has proved.
use fxtun_dev.Base.{
  ℕ, ◌<◌, ◌≡◌, refl, ap, ◌⊎◌, inl, inr, true, false, some, arith, if◌then◌else◌, Bool-cases,
  Option-cases, nat_eq,
}
use fxtun_dev.Base.Bytes.{Bytes}
use fxtun_dev.Base.Dict.{lookup}
use fxtun_dev.Accounts.BackupCodes.{validate_backup_code, count_matches, validate_backup_code_lem}
use fxtun_dev.Accounts.Rows.{
  Account, TotpSecret, AccountDb, create_session, totp_enabled, update_last_login,
}
use fxtun_dev.Accounts.Service.{
  Crypto, World, TokenPair, ServiceError, signed_in, Checked, wrong, passed, write_user,
  user_identifier, find_user, new_session, grant, use_backup_code, check_totp, login_user, login,
  get_user,
}

Checked-cases :
    (r : Checked) → ((e : ServiceError) × (r ≡ wrong e)) ⊎ ((db : AccountDb) × (r ≡ passed db))
Checked-cases (wrong e) = inl (e, refl)
Checked-cases (passed db) = inr (db, refl)

module _ (c : Crypto) where
  -- A code of the user's generator or one of its backup codes, if the second factor is on.
  abbrev pub SecondFactor : World → ℕ → Bytes → AccountDb → Type 0
  SecondFactor o i code db =
      (totp_enabled i db ≡ false)
      ⊎ ((t : TotpSecret) × (secret : Bytes) × (lookup i db.totps ≡ some t)
          × (c.decrypt t.secret_encrypted ≡ some secret)
          × ((c.validate_code o.now secret code ≡ true)
              ⊎ (0 < count_matches c.sha c.upper code t.backup_codes)))

  -- The user is the one that the identifier names, is active, and both factors fit.
  abbrev pub Proven : World → Bytes → Bytes → Bytes → ℕ → AccountDb → Type 0
  Proven o identifier password code i db =
      (u : Account) × (find_user identifier db ≡ some (i, u))
      × (u.is_active ≡ true)
      × (c.check_password password u.password_hash ≡ true)
      × SecondFactor o i code db

  use_backup_code-count :
      (o : World) (i : ℕ) (t : TotpSecret) (code : Bytes) (db db' : AccountDb)
      → use_backup_code c o i t code db ≡ passed db'
      → 0 < count_matches c.sha c.upper code t.backup_codes
  unfolding use_backup_code
  use_backup_code-count o i t code db db' e =
      elim (validate_backup_code_lem c.sha c.upper code t.backup_codes) [
        | inl (v, n, l) ↦ omega (arith, n)
        | inr (r, n) ↦
            let unused : (validate_backup_code c.sha c.upper code t.backup_codes).1 ≡ false =
              ap (λ x. x.1) r in
            absurd (ground arith)
      ]

  check_totp-SecondFactor :
      (o : World) (i : ℕ) (code : Bytes) (db db' : AccountDb)
      → check_totp c o i code db ≡ passed db'
      → SecondFactor o i code db
  unfolding check_totp
  check_totp-SecondFactor o i code db db' e = elim (Bool-cases (totp_enabled i db)) [
    | inr off ↦ inl off
    | inl on ↦ elim (Option-cases (lookup i db.totps)) [
      | inl gone ↦ absurd (ground arith)
      | inr (t, l) ↦ elim (Option-cases (c.decrypt t.secret_encrypted)) [
        | inl bad ↦ absurd (ground arith)
        | inr (secret, d) ↦ elim (Bool-cases (c.validate_code o.now secret code)) [
          | inl v ↦ inr (t, secret, l, d, inl v)
          | inr v ↦
              let used : use_backup_code c o i t code db ≡ passed db' = ground arith in
              inr (t, secret, l, d, inr (use_backup_code-count o i t code db db' used))
        ]
      ]
    ]
  ]

  -- A grant that succeeds stores a session for the refresh token that it hands out.
  pub grant-signed_in :
      (o : World) (after : AccountDb → AccountDb) (i : ℕ) (u : Account) (agent ip : Bytes)
      (db : AccountDb) (j : ℕ) (pair : TokenPair)
      → (grant c o after i u agent ip db).1 ≡ signed_in j pair
      → (j ≡ i)
        × ((grant c o after i u agent ip db).0
            ≡ after (create_session (new_session c o i agent ip pair.refresh_token) db))
  unfolding grant
  grant-signed_in o after i u agent ip db j pair e =
      elim (Option-cases (o.new_pair i (user_identifier u) u.is_admin)) [
        | inl n ↦ absurd (ground arith)
        | inr (p, n) ↦ ground arith
      ]

  -- What follows a login.
  abbrev pub seen : World → ℕ → AccountDb → AccountDb
  seen o i = if o.fails write_user then (λ d. d) else update_last_login o.now i

  pub login_user-signed_in :
      (o : World) (password code agent ip : Bytes) (db : AccountDb) (i j : ℕ) (u : Account)
      (pair : TokenPair)
      → (login_user c o j u password code agent ip db).1 ≡ signed_in i pair
      → (u.is_active ≡ true)
        × (c.check_password password u.password_hash ≡ true)
        × (i ≡ j)
        × ((db' : AccountDb) × (check_totp c o j code db ≡ passed db')
            × ((login_user c o j u password code agent ip db).0
                ≡ seen o j (create_session (new_session c o j agent ip pair.refresh_token) db')))
  unfolding login_user
  login_user-signed_in o password code agent ip db i j u pair e =
      elim (Checked-cases (check_totp c o j code db)) [
        | inl (x, w) ↦ absurd (ground arith)
        | inr (db', w) ↦
            let active : u.is_active ≡ true = ground arith in
            let fits : c.check_password password u.password_hash ≡ true = ground arith in
            let granted : (grant c o (seen o j) j u agent ip db').1 ≡ signed_in i pair =
              ground arith in
            let (same, stored) = grant-signed_in o (seen o j) j u agent ip db' i pair granted in
            (active, fits, same, (db', w, rw (login_user, active, fits, w) stored))
      ]

  -- A login that succeeds has passed the second factor, and has stored a session for its token.
  pub login-signed_in :
      (o : World) (identifier password code agent ip : Bytes) (db : AccountDb) (i : ℕ)
      (pair : TokenPair)
      → (login c o identifier password code agent ip db).1 ≡ signed_in i pair
      → (u : Account) × (find_user identifier db ≡ some (i, u))
        × (u.is_active ≡ true)
        × (c.check_password password u.password_hash ≡ true)
        × ((db' : AccountDb) × (check_totp c o i code db ≡ passed db')
            × ((login c o identifier password code agent ip db).0
                ≡ seen o i (create_session (new_session c o i agent ip pair.refresh_token) db')))
  unfolding login
  login-signed_in o identifier password code agent ip db i pair e =
      elim (Option-cases (find_user identifier db)) [
        | inl n ↦ absurd (ground arith)
        | inr ((j, u), f) ↦
            let entered : (login_user c o j u password code agent ip db).1 ≡ signed_in i pair =
              ground arith in
            let up : o.fails get_user ≡ false = ground arith in
            let (active, fits, same, (db', w, stored)) =
              login_user-signed_in o password code agent ip db i j u pair entered in
            (u, rw same f, active, fits, (db', rw same w, rw (login, up, f) (rw same stored)))
      ]

  -- Who logs in has proved it: the identifier names an active user, the password is its password, and
  -- where the second factor is on, the code is one of its generator or of its backup codes.
  pub login-Proven :
      (o : World) (identifier password code agent ip : Bytes) (db : AccountDb) (i : ℕ)
      (pair : TokenPair)
      → (login c o identifier password code agent ip db).1 ≡ signed_in i pair
      → Proven o identifier password code i db
  login-Proven o identifier password code agent ip db i pair e =
      let (u, f, active, fits, (db', w, stored)) =
        login-signed_in o identifier password code agent ip db i pair e in
      (u, f, active, fits, check_totp-SecondFactor o i code db db' w)
