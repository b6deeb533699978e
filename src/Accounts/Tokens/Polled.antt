-- ===== src/Accounts/Tokens/Polled.antt =====
-- When a device gets its token.
use fxtun_dev.Base.{
  ℕ, ◌*◌, ◌≡◌, ◌≢◌, refl, ap, inl, inr, false, not, none, some, List, [], ◌∷◌, arith, Bool-cases,
  ◌==◌, All,
}
use fxtun_dev.Base.Bytes.{Bytes, bytes_eq}
use fxtun_dev.Base.Dict.{lookup, lookup-insert, lookup-delete}
use fxtun_dev.Base.Sweeping.{lookup-sweep}
use fxtun_dev.Base.Branches.{if_P, option_P}
use fxtun_dev.Base.Histories.{run, run_inv}
use fxtun_dev.Accounts.Tokens.{
  pending, authorized, DeviceSession, TokenRow, TokenServer, no_session, polled, create_token,
}
use fxtun_dev.Accounts.Tokens.Device.{
  create_device, get_device, authorize_device, delete_device, cleanup_devices, poll_session,
  handle_device_poll, session_ttl, older,
}

-- An operation of the store under its lock, and what else the handlers do between these; the handlers of any
-- number of requests at once are some sequence of them. Get changes nothing.
pub data StoreOp : Type 0 where
  creates : ℕ → Bytes → StoreOp
  authorizes : ℕ → Bytes → Bytes → StoreOp
  deletes : Bytes → StoreOp
  cleans_up : ℕ → StoreOp
  makes_token : TokenRow → StoreOp

unfoldable pub store_step : StoreOp → TokenServer → TokenServer
store_step (creates now id) st = create_device now id st
store_step (authorizes now id token) st = authorize_device now id token st
store_step (deletes id) st = delete_device id st
store_step (cleans_up now) st = cleanup_devices now st
store_step (makes_token t) st = create_token t st

-- Every operation but the creation of a session with this id.
abbrev pub NotAgain : Bytes → StoreOp → Type 0
NotAgain id (creates now i) = i ≢ id
NotAgain id (authorizes now i token) = Unit
NotAgain id (deletes i) = Unit
NotAgain id (cleans_up now) = Unit
NotAgain id (makes_token t) = Unit

abbrev Gone : Bytes → TokenServer → Type 0
Gone id st = lookup id st.sessions ≡ none

other_id : (a b : Bytes) → a ≢ b → (a == b) ≡ false
other_id a b n = elim (Bool-cases (a == b)) [
  | inl e ↦ absurd (n ((bytes_eq.beq_iff a b).0 e))
  | inr e ↦ e
]

authorize_device-Gone :
    (now : ℕ) (i id token : Bytes) (st : TokenServer)
    → Gone id st
    → Gone id (authorize_device now i token st)
unfolding authorize_device
authorize_device-Gone now i id token st gone =
    option_P (Gone id) (lookup i st.sessions) _ _ gone (λ d q.
      if_P (Gone id) (older session_ttl now d.created_at) _ _ gone (
        ground (
          arith,
          q,
          lookup-insert i id (record d { status = authorized; token = token }) st.sessions,
          bytes_eq.beq_iff i id,
        )))

store_step-Gone :
    (id : Bytes) (op : StoreOp) (st : TokenServer)
    → NotAgain id op
    → Gone id st
    → Gone id (store_step op st)
unfolding store_step create_device delete_device cleanup_devices create_token
store_step-Gone id (creates now i) st n gone = ground (
  arith,
  lookup-insert i id (record { status = pending; token = []; created_at = now }) st.sessions,
  other_id i id n,
)
store_step-Gone id (authorizes now i token) st n gone = authorize_device-Gone now i id token st gone
store_step-Gone id (deletes i) st n gone = ground (arith, lookup-delete i id st.sessions)
store_step-Gone id (cleans_up now) st n gone =
    ground
      (arith, lookup-sweep (λ d. not (older (session_ttl * 2) now d.created_at)) id st.sessions)
store_step-Gone id (makes_token t) st n gone = gone

poll_session-Gone :
    (id : Bytes) (d : DeviceSession) (st : TokenServer)
    → d.status ≡ authorized
    → Gone id (poll_session id (some d) st).0
unfolding poll_session delete_device
poll_session-Gone id d st a =
    ground (arith, a, lookup-delete id id st.sessions, bytes_eq.beq_iff id id)

missing_session :
    (now b : ℕ) (id : Bytes) (st : TokenServer)
    → Gone (b ∷ id) st
    → handle_device_poll now (b ∷ id) st ≡ (st, no_session)
unfolding handle_device_poll get_device poll_session
missing_session now b id st gone = rw (gone, get_device) refl

-- After a poll that got a token has ended, no poll that begins later gets one for this session, whatever the
-- handlers of other requests do to the store in between, unless a session with its id is created again.
pub handle_device_poll-poll_session :
    (now b : ℕ) (id : Bytes) (d : DeviceSession) (ops : List StoreOp) (st : TokenServer)
    → d.status ≡ authorized
    → All (NotAgain (b ∷ id)) ops
    → (handle_device_poll now (b ∷ id) (run store_step ops (poll_session (b ∷ id) (some d) st).0)).1
      ≡ no_session
handle_device_poll-poll_session now b id d ops st a other =
    ap (λ r. r.1)
      (missing_session now b id (run store_step ops (poll_session (b ∷ id) (some d) st).0) (
        run_inv store_step (Gone (b ∷ id)) (NotAgain (b ∷ id)) (store_step-Gone (b ∷ id)) ops other
          _ (poll_session-Gone (b ∷ id) d st a)))

-- The end of a poll runs on the session that its beginning has read. A second poll that begins before the
-- first has deleted the session gets the same token.
pub poll_session_twice :
    (now later : ℕ) (id : Bytes) (d : DeviceSession) (st : TokenServer)
    → lookup id st.sessions ≡ some d
    → d.status ≡ authorized
    → older session_ttl now d.created_at ≡ false
    → older session_ttl later d.created_at ≡ false
    → ((poll_session id (get_device now id st) st).1 ≡ polled authorized (some d.token))
      × ((poll_session id (get_device later id st) (poll_session id (get_device now id st) st).0).1
          ≡ polled authorized (some d.token))
unfolding poll_session get_device
poll_session_twice now later id d st e a fresh fresh' = ground (arith, e, a)
