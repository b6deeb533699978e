-- ===== src/Accounts/OneTime.antt =====
-- The states and codes of a login through another service: internal/api/oauth_store.go. Each operation
-- runs under the lock of the store; the random text of a nonce is given, and `none` where rand.Read fails.
mod Once
mod Tests
use fxtun_dev.Base.{ℕ, ◌-◌, ◌*◌, Bool, not, Option, none, some, [], ltb, if◌then◌else◌}
use fxtun_dev.Base.Bytes.{Bytes, bytes_eq}
use fxtun_dev.Base.Dict.{Dict, lookup, insert, delete}
use fxtun_dev.Base.Sweeping.{sweep}

pub data Purpose : Type 0 where
  login link : Purpose

pub record StateEntry : Type 0 where
  pub purpose : Purpose
  pub user_id : ℕ
  pub desktop_redirect : Bytes
  pub created_at : ℕ

pub record CodeEntry : Type 0 where
  pub access_token : Bytes
  pub refresh_token : Bytes
  pub expires_in : ℕ
  pub created_at : ℕ

pub record OauthStore : Type 0 where
  pub states : Dict Bytes StateEntry
  pub codes : Dict Bytes CodeEntry

-- Nanoseconds.
unfoldable pub state_ttl : ℕ
state_ttl = 600000000000

unfoldable pub code_ttl : ℕ
code_ttl = 120000000000

-- `time.Since(created) > ttl`; the monotonic clock does not run backwards.
abbrev pub outlived : ℕ → ℕ → ℕ → Bool
outlived ttl now created = ltb ttl (now - created)

unfoldable pub new_oauth_store : OauthStore
new_oauth_store = record { states = []; codes = [] }

unfoldable pub create_state : ℕ → Option Bytes → StateEntry → OauthStore → OauthStore × Option Bytes
create_state now none entry s = (s, none)
create_state now (some text) entry s =
    (record s { states = insert text (record entry { created_at = now }) s.states }, some text)

unfoldable pub consume_state : ℕ → Bytes → OauthStore → OauthStore × Option StateEntry
consume_state now text s = elim (lookup text s.states) [
  | none ↦ (s, none)
  | some entry ↦ (
    record s { states = delete text s.states },
    if outlived state_ttl now entry.created_at then none else some entry,
  )
]

unfoldable pub create_code :
    ℕ → Option Bytes → Bytes → Bytes → ℕ → OauthStore → OauthStore × Option Bytes
create_code now none access refresh expires s = (s, none)
create_code now (some code) access refresh expires s = (
  record s {
    codes =
        insert code
          (record {
            access_token = access;
            refresh_token = refresh;
            expires_in = expires;
            created_at = now;
          })
          s.codes;
  },
  some code,
)

unfoldable pub exchange_code : ℕ → Bytes → OauthStore → OauthStore × Option CodeEntry
exchange_code now code s = elim (lookup code s.codes) [
  | none ↦ (s, none)
  | some entry ↦ (
    record s { codes = delete code s.codes },
    if outlived code_ttl now entry.created_at then none else some entry,
  )
]

-- One tick of Cleanup.
unfoldable pub cleanup : ℕ → OauthStore → OauthStore
cleanup now s = record {
  states = sweep (λ e. not (outlived (state_ttl * 2) now e.created_at)) s.states;
  codes = sweep (λ e. not (outlived (code_ttl * 2) now e.created_at)) s.codes;
}
