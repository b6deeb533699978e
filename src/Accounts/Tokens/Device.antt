-- ===== src/Accounts/Tokens/Device.antt =====
-- A token for a device that a browser signs in: internal/api/device_store.go, each operation under its lock,
-- and the handlers of internal/api/handlers_device.go.
use fxtun_dev.Base.{
  ℕ, ◌-◌, ◌*◌, Bool, true, false, not, Option, none, some, [], ◌∷◌, ltb, if◌then◌else◌,
}
use fxtun_dev.Base.Bytes.{Bytes, bytes_eq, codes}
use fxtun_dev.Base.Int.{pos}
use fxtun_dev.Base.Dict.{lookup, insert, delete}
use fxtun_dev.Base.Sweeping.{sweep}
use fxtun_dev.Access.{star}
use fxtun_dev.Accounts.Tokens.{
  pending, authorized, expired, DeviceSession, TokenRow, TokenServer, Caller, Outside, Answer,
  unauthorized, bad_request, failed, no_session, session_made, polled, device_authorized,
  create_token,
}

-- Nanoseconds.
unfoldable pub session_ttl : ℕ
session_ttl = 300000000000

-- `time.Since(created) > ttl`.
abbrev pub older : ℕ → ℕ → ℕ → Bool
older ttl now at = ltb ttl (now - at)

-- deviceStore.
unfoldable pub create_device : ℕ → Bytes → TokenServer → TokenServer
create_device now id st = record st {
  sessions = insert id (record { status = pending; token = []; created_at = now }) st.sessions;
}

unfoldable pub get_device : ℕ → Bytes → TokenServer → Option DeviceSession
get_device now id st = elim (lookup id st.sessions) [
  | none ↦ none
  | some d ↦ some (
      if older session_ttl now d.created_at
      then record { status = expired; token = []; created_at = 0 }
      else d)
]

unfoldable pub authorize_device : ℕ → Bytes → Bytes → TokenServer → TokenServer
authorize_device now id token st = elim (lookup id st.sessions) [
  | none ↦ st
  | some d ↦ if older session_ttl now d.created_at then st else record st {
    sessions = insert id (record d { status = authorized; token = token }) st.sessions;
  }
]

unfoldable pub delete_device : Bytes → TokenServer → TokenServer
delete_device id st = record st { sessions = delete id st.sessions }

-- One tick of Cleanup.
unfoldable pub cleanup_devices : ℕ → TokenServer → TokenServer
cleanup_devices now st = record st {
  sessions = sweep (λ d. not (older (session_ttl * 2) now d.created_at)) st.sessions;
}

-- handleDeviceCode, with the random id of the session.
unfoldable pub handle_device_code : ℕ → Option Bytes → TokenServer → TokenServer × Answer
handle_device_code now none st = (st, failed)
handle_device_code now (some id) st = (create_device now id st, session_made id)

-- handleDevicePoll up to its Get, and what it does with the session that it has.
unfoldable pub poll_session : Bytes → Option DeviceSession → TokenServer → TokenServer × Answer
poll_session id none st = (st, no_session)
poll_session id (some d) st = elim d.status [
  | pending ↦ (st, polled pending none)
  | authorized ↦ (delete_device id st, polled authorized (some d.token))
  | expired ↦ (st, polled expired none)
]

unfoldable pub handle_device_poll : ℕ → Bytes → TokenServer → TokenServer × Answer
handle_device_poll now [] st = (st, bad_request)
handle_device_poll now (b ∷ id) st = poll_session (b ∷ id) (get_device now (b ∷ id) st) st

abbrev pub still_pending : Option DeviceSession → Bool
still_pending none = false
still_pending (some d) = elim d.status [ pending ↦ true | authorized ↦ false | expired ↦ false ]

abbrev pub device_row : Outside → Caller → Bytes → TokenRow
device_row o u plain = record {
  user_id = u.id;
  token_hash = o.hash_token plain;
  name = codes "CLI (device flow)";
  granted = record {
    allowed_subdomains = (star ∷ []) ∷ [];
    max_tunnels = pos 10;
    allowed_ips = [];
  };
  created_at = o.now;
}

-- handleDeviceAuthorize; the request is `none` where decodeJSON fails. `later` is the clock at Authorize.
unfoldable pub handle_device_authorize :
    Outside → ℕ → Option Caller → Option Bytes → TokenServer → TokenServer × Answer
handle_device_authorize o later none request st = (st, unauthorized)
handle_device_authorize o later (some u) none st = (st, bad_request)
handle_device_authorize o later (some u) (some []) st = (st, bad_request)
handle_device_authorize o later (some u) (some (b ∷ id)) st =
    if not (still_pending (get_device o.now (b ∷ id) st))
    then (st, bad_request)
    else elim o.new_token [
      | none ↦ (st, failed)
      | some plain ↦ if o.write_fails then (st, failed) else (
        authorize_device later (b ∷ id) plain (create_token (device_row o u plain) st),
        device_authorized,
      )
    ]
