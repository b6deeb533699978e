-- ===== src/Accounts/Rows.antt =====
-- The rows of internal/database/models.go that the accounts use, and the statements of user_repo.go,
-- session_repo.go and totp_repo.go on them.
use fxtun_dev.Base.{ℕ, suc, Bool, false, not, Option, none, some, List, ltb, nat_eq, ◌==◌}
use fxtun_dev.Base.Bytes.{Bytes, bytes_eq}
use fxtun_dev.Base.Dict.{Dict, lookup, insert, delete}
use fxtun_dev.Base.Tables.{select}
use fxtun_dev.Base.Queries.{query_row}

pub record Account : Type 0 where
  pub phone : Bytes
  pub password_hash : Bytes
  pub display_name : Bytes
  pub is_admin : Bool
  pub is_active : Bool
  pub last_login_at : Option ℕ
  pub email : Bytes
  pub plan_id : ℕ

pub record AuthSession : Type 0 where
  pub user_id : ℕ
  pub refresh_token_hash : Bytes
  pub user_agent : Bytes
  pub ip_address : Bytes
  pub expires_at : ℕ
  pub created_at : ℕ

pub record TotpSecret : Type 0 where
  pub secret_encrypted : Bytes
  pub is_enabled : Bool
  pub backup_codes : List Bytes

-- `users` and `sessions` have AUTOINCREMENT ids; `totp_secrets` has one row for each user.
pub record AccountDb : Type 0 where
  pub users : Dict ℕ Account
  pub next_user : ℕ
  pub sessions : Dict ℕ AuthSession
  pub next_session : ℕ
  pub totps : Dict ℕ TotpSecret

-- `time.Now().After(s.ExpiresAt)`.
abbrev pub is_expired : ℕ → AuthSession → Bool
is_expired now s = ltb s.expires_at now

unfoldable pub get_by_phone : Bytes → AccountDb → Option (ℕ × Account)
get_by_phone number db = query_row (λ u. u.phone == number) db.users

unfoldable pub get_by_email : Bytes → AccountDb → Option (ℕ × Account)
get_by_email address db = query_row (λ u. u.email == address) db.users

unfoldable pub update_password : ℕ → Bytes → AccountDb → AccountDb
update_password i hash db = elim (lookup i db.users) [
  | none ↦ db
  | some u ↦ record db { users = insert i (record u { password_hash = hash }) db.users }
]

unfoldable pub update_last_login : ℕ → ℕ → AccountDb → AccountDb
update_last_login now i db = elim (lookup i db.users) [
  | none ↦ db
  | some u ↦ record db { users = insert i (record u { last_login_at = some now }) db.users }
]

-- SessionRepository.Create.
unfoldable pub create_session : AuthSession → AccountDb → AccountDb
create_session s db = record db {
  sessions = insert db.next_session s db.sessions;
  next_session = suc db.next_session;
}

unfoldable pub get_by_token_hash : Bytes → AccountDb → Option (ℕ × AuthSession)
get_by_token_hash hash db = query_row (λ s. s.refresh_token_hash == hash) db.sessions

unfoldable pub delete_session : ℕ → AccountDb → AccountDb
delete_session k db = record db { sessions = delete k db.sessions }

unfoldable pub delete_by_token_hash : Bytes → AccountDb → AccountDb
delete_by_token_hash hash db = record db {
  sessions = select (λ s. not (s.refresh_token_hash == hash)) db.sessions;
}

unfoldable pub delete_by_user_id : ℕ → AccountDb → AccountDb
delete_by_user_id i db = record db { sessions = select (λ s. not (s.user_id == i)) db.sessions }

-- SessionRepository.DeleteExpired.
unfoldable pub delete_expired : ℕ → AccountDb → AccountDb
delete_expired now db = record db {
  sessions = select (λ s. not (ltb s.expires_at now)) db.sessions;
}

-- TOTPRepository.IsEnabled.
unfoldable pub totp_enabled : ℕ → AccountDb → Bool
totp_enabled i db = elim (lookup i db.totps) [ none ↦ false | some t ↦ t.is_enabled ]

-- Create of a secret, or Update of the one that there is.
unfoldable pub put_totp : ℕ → TotpSecret → AccountDb → AccountDb
put_totp i t db = record db { totps = insert i t db.totps }

-- TOTPRepository.Delete.
unfoldable pub delete_totp : ℕ → AccountDb → AccountDb
delete_totp i db = record db { totps = delete i db.totps }

unfoldable pub update_backup_codes : ℕ → List Bytes → AccountDb → AccountDb
update_backup_codes i codes db = elim (lookup i db.totps) [
  | none ↦ db
  | some t ↦ record db { totps = insert i (record t { backup_codes = codes }) db.totps }
]
