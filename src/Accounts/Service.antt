-- ===== src/Accounts/Service.antt =====
-- The service of internal/auth/auth.go. The hash of a token, bcrypt, the cipher of the secrets, the
-- six-digit codes and the upper case are parameters; so are the clock, the token pair that is generated
-- and which statements fail. The audit log is left out.
mod Entering
mod Rotation
mod Passwords
mod Kept
mod Histories
mod Staying
mod SecondFactor
mod Tests
use fxtun_dev.Base.{
  ℕ, ◌+◌, Bool, true, false, not, ◌&&◌, ◌||◌, Option, none, some, List, [], ◌∷◌, leb, eqb,
  if◌then◌else◌, is_some, nat_eq, ◌==◌,
}
use fxtun_dev.Base.Bytes.{Bytes, bytes_eq}
use fxtun_dev.Base.Dict.{lookup}
use fxtun_dev.Accounts.BackupCodes.{validate_backup_code, hash_backup_codes}
use fxtun_dev.Accounts.Rows.{
  Account, AuthSession, TotpSecret, AccountDb, is_expired, get_by_phone, get_by_email,
  update_password, update_last_login, create_session, get_by_token_hash, delete_session,
  delete_by_token_hash, delete_by_user_id, totp_enabled, put_totp, delete_totp, update_backup_codes,
}

pub record Crypto : Type 0 where
  pub hash_token : Bytes → Bytes
  pub check_password : Bytes → Bytes → Bool
  pub decrypt : Bytes → Option Bytes
  -- At a time, for a secret and a code.
  pub validate_code : ℕ → Bytes → Bytes → Bool
  pub sha : Bytes → Bytes
  pub upper : Bytes → Bytes

pub record TokenPair : Type 0 where
  pub access_token : Bytes
  pub refresh_token : Bytes

pub data Statement : Type 0 where
  get_user get_session get_totp get_totp_enabled : Statement
  write_session remove_session write_user write_totp write_codes : Statement

pub record World : Type 0 where
  pub now : ℕ
  pub refresh_ttl : ℕ
  pub fails : Statement → Bool
  -- GenerateTokenPair for a user, its identifier and whether it is an administrator.
  pub new_pair : ℕ → Bytes → Bool → Option TokenPair

pub data ServiceError : Type 0 where
  invalid_credentials user_not_active totp_needed invalid_totp_code : ServiceError
  bad_token old_token other_error : ServiceError

pub data Reply : Type 0 where
  signed_in : ℕ → TokenPair → Reply
  done : Reply
  error : ServiceError → Reply

unfoldable pub user_identifier : Account → Bytes
user_identifier u = if u.phone == [] then u.email else u.phone

-- '0' to '9', and '+'.
abbrev pub is_digit : ℕ → Bool
is_digit b = leb 48 b && leb b 57

abbrev pub plus : ℕ
plus = 43

-- The loop of normalizePhone, with whether something has been kept.
unfoldable pub normalize_from : Bool → Bytes → Bytes
normalize_from kept [] = []
normalize_from kept (b ∷ s) =
    let rest = normalize_from true s in
    let skipped = normalize_from kept s in
    if is_digit b || (eqb b plus && not kept) then b ∷ rest else skipped

unfoldable pub normalize_phone : Bytes → Bytes
normalize_phone s = normalize_from false s

-- '@'.
abbrev pub contains_at : Bytes → Bool
contains_at [] = false
contains_at (b ∷ s) = eqb b 64 || contains_at s

unfoldable pub find_user : Bytes → AccountDb → Option (ℕ × Account)
find_user identifier db =
    if contains_at identifier
    then get_by_email identifier db
    else get_by_phone (normalize_phone identifier) db

pub data Checked : Type 0 where
  wrong : ServiceError → Checked
  passed : AccountDb → Checked

module _ (c : Crypto) where
  abbrev pub new_session : World → ℕ → Bytes → Bytes → Bytes → AuthSession
  new_session o i agent ip token = record {
    user_id = i;
    refresh_token_hash = c.hash_token token;
    user_agent = agent;
    ip_address = ip;
    expires_at = o.now + o.refresh_ttl;
    created_at = o.now;
  }

  -- The end of Login and RefreshTokens: new tokens, a session for them, and what follows.
  unfoldable pub grant :
      World → (AccountDb → AccountDb) → ℕ → Account → Bytes → Bytes → AccountDb → AccountDb × Reply
  grant o after i u agent ip db = elim (o.new_pair i (user_identifier u) u.is_admin) [
    | none ↦ (db, error other_error)
    | some pair ↦ if o.fails write_session then (db, error other_error) else (
      after (create_session (new_session o i agent ip pair.refresh_token) db),
      signed_in i pair,
    )
  ]

  -- A backup code where the six digits do not fit.
  unfoldable pub use_backup_code : World → ℕ → TotpSecret → Bytes → AccountDb → Checked
  use_backup_code o i t code db =
      let tried = validate_backup_code c.sha c.upper code t.backup_codes in
      if not tried.1
      then wrong invalid_totp_code
      else passed (if o.fails write_codes then db else update_backup_codes i tried.0 db)

  -- The second factor of Login.
  unfoldable pub check_totp : World → ℕ → Bytes → AccountDb → Checked
  check_totp o i code db =
      if o.fails get_totp_enabled
      then wrong other_error
      else if not (totp_enabled i db)
      then passed db
      else if code == []
      then wrong totp_needed
      else if o.fails get_totp
      then wrong other_error
      else elim (lookup i db.totps) [
        | none ↦ wrong other_error
        | some t ↦ elim (c.decrypt t.secret_encrypted) [
          | none ↦ wrong other_error
          | some secret ↦
              if c.validate_code o.now secret code then passed db else use_backup_code o i t code db
        ]
      ]

  -- Login from the user that was found on.
  unfoldable pub login_user :
      World → ℕ → Account → Bytes → Bytes → Bytes → Bytes → AccountDb → AccountDb × Reply
  login_user o i u password code agent ip db =
      if not u.is_active
      then (db, error user_not_active)
      else if not (c.check_password password u.password_hash)
      then (db, error invalid_credentials)
      else elim (check_totp o i code db) [
        | wrong e ↦ (db, error e)
        | passed db' ↦
            grant o (if o.fails write_user then (λ d. d) else update_last_login o.now i) i u agent
              ip db'
      ]

  unfoldable pub login :
      World → Bytes → Bytes → Bytes → Bytes → Bytes → AccountDb → AccountDb × Reply
  login o identifier password code agent ip db =
      if o.fails get_user then (db, error other_error) else elim (find_user identifier db) [
        | none ↦ (db, error invalid_credentials)
        | some (i, u) ↦ login_user o i u password code agent ip db
      ]

  unfoldable pub logout : World → Bytes → AccountDb → AccountDb × Reply
  logout o token db =
      if o.fails remove_session
      then (db, error other_error)
      else (delete_by_token_hash (c.hash_token token) db, done)

  -- An error of this deletion is ignored.
  unfoldable pub drop_session : World → ℕ → AccountDb → AccountDb
  drop_session o k db = if o.fails remove_session then db else delete_session k db

  unfoldable pub refresh_tokens : World → Bytes → Bytes → Bytes → AccountDb → AccountDb × Reply
  refresh_tokens o token agent ip db =
      if o.fails get_session
      then (db, error other_error)
      else elim (get_by_token_hash (c.hash_token token) db) [
        | none ↦ (db, error bad_token)
        | some (k, s) ↦
            if is_expired o.now s
            then (drop_session o k db, error old_token)
            else if o.fails get_user
            then (db, error other_error)
            else elim (lookup s.user_id db.users) [
              | none ↦ (db, error other_error)
              | some u ↦
                  if not u.is_active
                  then (db, error user_not_active)
                  else grant o (λ d. d) s.user_id u agent ip (drop_session o k db)
            ]
      ]

  -- The hash of the new password is `none` where bcrypt fails.
  unfoldable pub change_password : World → ℕ → Bytes → Option Bytes → AccountDb → AccountDb × Reply
  change_password o i old_password new_hash db =
      if o.fails get_user then (db, error other_error) else elim (lookup i db.users) [
        | none ↦ (db, error other_error)
        | some u ↦
            if not (c.check_password old_password u.password_hash)
            then (db, error invalid_credentials)
            else elim new_hash [
              | none ↦ (db, error other_error)
              | some hash ↦ if o.fails write_user then (db, error other_error) else (
                (if o.fails remove_session
                    then update_password i hash db
                    else delete_by_user_id i (update_password i hash db)),
                done,
              )
            ]
      ]

  -- EnableTOTP; the encrypted secret and the backup codes are `none` where their generation fails. A
  -- failing query counts as a missing row, and then the insertion fails if there is one.
  unfoldable pub enable_totp :
      World → ℕ → Option (Bytes × List Bytes) → AccountDb → AccountDb × Reply
  enable_totp o i none db = (db, error other_error)
  enable_totp o i (some (secret, fresh)) db =
      if o.fails write_totp || (o.fails get_totp && is_some (lookup i db.totps))
      then (db, error other_error)
      else (
        put_totp i
            (record {
              secret_encrypted = secret;
              is_enabled = false;
              backup_codes = hash_backup_codes c.sha c.upper fresh;
            })
            db,
        done,
      )

  unfoldable pub verify_totp : World → ℕ → Bytes → AccountDb → AccountDb × Reply
  verify_totp o i code db =
      if o.fails get_totp then (db, error other_error) else elim (lookup i db.totps) [
        | none ↦ (db, error other_error)
        | some t ↦ elim (c.decrypt t.secret_encrypted) [
          | none ↦ (db, error other_error)
          | some secret ↦
              if not (c.validate_code o.now secret code)
              then (db, error invalid_totp_code)
              else if o.fails write_totp
              then (db, error other_error)
              else (put_totp i (record t { is_enabled = true }) db, done)
        ]
      ]

  unfoldable pub disable_totp : World → ℕ → Bytes → AccountDb → AccountDb × Reply
  disable_totp o i code db =
      if o.fails get_totp then (db, error other_error) else elim (lookup i db.totps) [
        | none ↦ (db, error other_error)
        | some t ↦ elim (c.decrypt t.secret_encrypted) [
          | none ↦ (db, error other_error)
          | some secret ↦
              if not (c.validate_code o.now secret code)
                && not (validate_backup_code c.sha c.upper code t.backup_codes).1
              then (db, error invalid_totp_code)
              else if o.fails write_totp
              then (db, error other_error)
              else (delete_totp i db, done)
        ]
      ]
