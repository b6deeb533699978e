-- ===== src/Accounts/Service/Tests.antt =====
-- The service at concrete inputs: a hash is its text, a password its own hash, and the six digits of a
-- secret are the secret.
use fxtun_dev.Base.{
  ℕ, ◌≡◌, ◌≢◌, refl, Bool, true, false, none, some, List, [], ◌∷◌, arith, nat_eq, ◌==◌,
}
use fxtun_dev.Base.Bytes.{Bytes, bytes_eq, codes}
use fxtun_dev.Base.Dict.{lookup, insert}
use fxtun_dev.Base.Tables.{select}
use fxtun_dev.Accounts.BackupCodes.{validate_backup_code, match_idx, matches, hash_backup_code}
use fxtun_dev.Accounts.Rows.{
  Account, AuthSession, TotpSecret, AccountDb, create_session, get_by_token_hash, get_by_phone,
  get_by_email, update_last_login, update_backup_codes, totp_enabled,
}
use fxtun_dev.Accounts.Service.{
  Crypto, TokenPair, Statement, World, signed_in, error, bad_token, write_session, passed,
  find_user, normalize_phone, normalize_from, user_identifier, login, login_user, check_totp,
  use_backup_code, grant, refresh_tokens, change_password, enable_totp,
}
use fxtun_dev.Accounts.Service.Entering.{Proven, login-Proven}
use fxtun_dev.Accounts.Service.SecondFactor.{login-login}
use fxtun_dev.Accounts.Service.Rotation.{refresh_tokens-refresh_tokens}
use fxtun_dev.Accounts.Service.Passwords.{of, change_password_lem}
use fxtun_dev.Accounts.Service.Kept.{SessionInv}
use fxtun_dev.Accounts.Service.Histories.{
  Call, logs_in, verifies, all_called, check_totp-enable_totp,
}
use fxtun_dev.Accounts.Service.Staying.{refresh_tokens-login}

abbrev plain : Crypto
plain = record {
  hash_token = λ t. t;
  check_password = λ p h. p == h;
  decrypt = λ s. some s;
  validate_code = λ now s code. code == s;
  sha = λ t. t;
  upper = λ t. t;
}

abbrev all_well : Statement → Bool
all_well s = false

abbrev no_insert : Statement → Bool
no_insert write_session = true
no_insert s = false

-- A time at which the next refresh token is known.
abbrev world : ℕ → Bytes → World
world t token = record {
  now = t;
  refresh_ttl = 100;
  fails = all_well;
  new_pair = λ j name admin. some (record { access_token = codes "79"; refresh_token = token });
}

abbrev pair : Bytes → TokenPair
pair token = record { access_token = codes "79"; refresh_token = token }

abbrev ann : Account
ann = record {
  phone = codes "79";
  password_hash = codes "pw";
  display_name = codes "Ann";
  is_admin = false;
  is_active = true;
  last_login_at = none;
  email = codes "a@b";
  plan_id = 1;
}

abbrev factor : TotpSecret
factor = record {
  secret_encrypted = codes "123456";
  is_enabled = true;
  backup_codes = codes "B1" ∷ codes "B2" ∷ [];
}

abbrev start : AccountDb
start = record {
  users = (1, ann) ∷ [];
  next_user = 2;
  sessions = [];
  next_session = 1;
  totps = (1, factor) ∷ [];
}

abbrev agent : Bytes
agent = codes "cli"

abbrev row : AuthSession
row = record {
  user_id = 1;
  refresh_token_hash = codes "r1";
  user_agent = agent;
  ip_address = agent;
  expires_at = 105;
  created_at = 5;
}

abbrev with_row : AccountDb
with_row = record start { sessions = (1, row) ∷ []; next_session = 2 }

-- The first login, with a backup code.
enters :
    (login plain
      (world 5 (codes "r1"))
      (codes "7 9x")
      (codes "pw")
      (codes "B1")
      agent
      agent
      start).1
    ≡ signed_in 1 (pair (codes "r1"))
unfolding login login_user find_user get_by_phone get_by_email select normalize_phone normalize_from
    check_totp totp_enabled use_backup_code validate_backup_code match_idx matches hash_backup_code
    update_backup_codes grant create_session update_last_login lookup insert user_identifier
enters = refl

entered : Proven plain (world 5 (codes "r1")) (codes "7 9x") (codes "pw") (codes "B1") 1 start
entered =
    login-Proven plain (world 5 (codes "r1")) (codes "7 9x") (codes "pw") (codes "B1") agent agent
      start 1 (pair (codes "r1")) enters

not_again :
    (login plain
      (world 9 (codes "r2"))
      (codes "a@b")
      (codes "pw")
      (codes "B1")
      agent
      agent
      (login plain
        (world 5 (codes "r1"))
        (codes "7 9x")
        (codes "pw")
        (codes "B1")
        agent
        agent
        start).0).1
    ≢ signed_in 1 (pair (codes "r2"))
unfolding lookup matches
not_again =
    login-login plain (world 5 (codes "r1")) (world 9 (codes "r2")) (codes "7 9x") (codes "a@b")
      (codes "pw") (codes "pw") (codes "B1") agent agent agent agent start 1 (pair (codes "r1"))
      (pair (codes "r2")) factor refl refl (codes "123456", refl, refl) (codes "123456", refl, refl)
      refl refl enters

-- The user signs in, and another user verifies a factor.
abbrev between : List Call
between =
    logs_in (world 6 (codes "r1")) (codes "79") (codes "pw") [] agent agent
    ∷ verifies (world 6 (codes "r1")) 2 (codes "1")
    ∷ []

no_code_asked :
    check_totp plain (world 7 (codes "r1")) 1 [] (
      all_called plain
        (enable_totp plain (world 5 (codes "r1")) 1 (some (codes "s", [])) start).0
        between)
    ≡ passed (
        all_called plain
          (enable_totp plain (world 5 (codes "r1")) 1 (some (codes "s", [])) start).0
          between)
unfolding enable_totp
no_code_asked =
    check_totp-enable_totp plain 1 (world 5 (codes "r1")) (world 7 (codes "r1"))
      (some (codes "s", [])) between [] start refl (tt, ((λ e. absurd (omega (arith, e))), tt)) refl

refreshed :
    (refresh_tokens plain (world 7 (codes "r2")) (codes "r1") agent agent with_row).1
    ≡ signed_in 1 (pair (codes "r2"))
unfolding refresh_tokens get_by_token_hash select lookup grant user_identifier
refreshed = refl

with_row-SessionInv : SessionInv with_row
unfolding lookup
with_row-SessionInv = (
  ((refl, tt), λ k s l. ground (arith, nat_eq.beq_iff 1 k)),
  λ k s l. ground (arith, nat_eq.beq_iff 1 k),
)

refused_then :
    (refresh_tokens plain
      (world 8 (codes "r3"))
      (codes "r1")
      agent
      agent
      (refresh_tokens plain (world 7 (codes "r2")) (codes "r1") agent agent with_row).0).1
    ≡ error bad_token
unfolding select
refused_then =
    refresh_tokens-refresh_tokens plain (world 7 (codes "r2")) (world 8 (codes "r3")) (codes "r1")
      agent agent agent agent with_row 1 (pair (codes "r2")) 1 row with_row-SessionInv.0 refl
      (λ e. cc ((bytes_eq.beq_iff (codes "r2") (codes "r1")).1 e)) refl refl refreshed

nobody_else :
    ((refresh_tokens plain
        (world 8 (codes "r3"))
        (codes "r1")
        agent
        agent
        (change_password plain
          (world 7 (codes "r2"))
          1
          (codes "pw")
          (some (codes "new"))
          with_row).0).1
      ≢ signed_in 1 (pair (codes "r3")))
    × (select
          (of plain 2)
          (change_password plain
            (world 7 (codes "r2"))
            1
            (codes "pw")
            (some (codes "new"))
            with_row).0.sessions
        ≡ select (of plain 2) with_row.sessions)
unfolding change_password lookup
nobody_else =
    change_password_lem plain (world 7 (codes "r2")) (world 8 (codes "r3")) 1 2 (codes "pw")
      (codes "r1") agent agent (some (codes "new")) (pair (codes "r3")) with_row refl refl
      (omega arith)

start-SessionInv : SessionInv start
unfolding lookup
start-SessionInv = ((tt, λ k s l. cc), λ k s l. cc)

stays :
    (refresh_tokens plain
      (world 90 (codes "r2"))
      (codes "r1")
      agent
      agent
      (login plain
        (world 5 (codes "r1"))
        (codes "7 9x")
        (codes "pw")
        (codes "B1")
        agent
        agent
        start).0).1
    ≡ signed_in 1 (pair (codes "r2"))
unfolding lookup get_by_token_hash select
stays =
    refresh_tokens-login plain (world 5 (codes "r1")) (world 90 (codes "r2")) (codes "7 9x")
      (codes "pw") (codes "B1") agent agent agent agent start 1 (pair (codes "r1"))
      (pair (codes "r2")) start-SessionInv (refl, tt) refl (omega arith) refl refl refl
      (λ j n a. refl) enters
