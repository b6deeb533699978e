-- ===== src/Accounts/Tokens/Tests.antt =====
-- The tokens and the devices at concrete inputs: the hash of a token is its text.
use fxtun_dev.Base.{nat_eq, ◌+◌, ◌≡◌, refl, false, some, none, [], ◌∷◌}
use fxtun_dev.Base.Bytes.{bytes_eq, codes}
use fxtun_dev.Base.Int.{pos}
use fxtun_dev.Base.Dict.{lookup, insert}
use fxtun_dev.Base.Tables.{select}
use fxtun_dev.Base.Histories.{run}
use fxtun_dev.Accounts.Tokens.{
  authorized, DeviceSession, TokenServer, TokenPlan, TokenRequest, Caller, Outside, created,
  no_session, count, handle_create_token,
}
use fxtun_dev.Accounts.Tokens.Device.{
  get_device, poll_session, handle_device_authorize, session_ttl, handle_device_code, create_device,
  handle_device_poll,
}
use fxtun_dev.Accounts.Tokens.Rows.{creates, step, no_tokens, Within, run-no_tokens-Within}
use fxtun_dev.Accounts.Tokens.Granted.{
  Created, handle_create_token-created, count-handle_device_authorize,
}
use fxtun_dev.Accounts.Tokens.Polled.{
  authorizes, deletes, store_step, handle_device_poll-poll_session,
}

abbrev free : TokenPlan
free = record { max_tokens = pos 1; max_tunnels_per_token = pos 0 }

abbrev ann : Caller
ann = record { id = 7; is_admin = false; plan = some free }

abbrev well : Outside
well = record {
  now = 5;
  count_fails = false;
  read_fails = false;
  write_fails = false;
  new_token = some (codes "sk_1");
  hash_token = λ t. t;
}

abbrev wish : TokenRequest
wish = record {
  token_name = codes "laptop";
  wanted = record { allowed_subdomains = []; max_tunnels = pos 3; allowed_ips = [] };
}

makes_token :
    (handle_create_token well (some ann) (some wish) no_tokens).1 ≡ created 1 (codes "sk_1")
unfolding handle_create_token no_tokens count select
makes_token = refl

token_made :
    Created well ann 1
      (codes "sk_1")
      none
      (handle_create_token well (some ann) (some wish) no_tokens).0
token_made = handle_create_token-created well ann wish no_tokens 1 (codes "sk_1") none makes_token

-- Two requests of a user with one token.
two_requests : Within (some free) (
    count 7 (
      run step
        (creates well (some ann) (some wish) ∷ creates well (some ann) (some wish) ∷ [])
        no_tokens))
two_requests =
    run-no_tokens-Within (λ u. some free)
      (creates well (some ann) (some wish) ∷ creates well (some ann) (some wish) ∷ []) 7
      ((refl, refl), ((refl, refl), tt))

abbrev device : TokenServer
device = (handle_device_code 4 (some (codes "d")) no_tokens).0

over_plan :
    count 7 (handle_device_authorize well 6 (some ann) (some (codes "d")) device).0
    ≡ count 7 device + 1
unfolding handle_device_code create_device no_tokens lookup get_device session_ttl insert
over_plan =
    count-handle_device_authorize well 6 ann 100 [] (codes "sk_1") device refl refl refl refl

abbrev signed : DeviceSession
signed = record { status = authorized; token = codes "sk_1"; created_at = 4 }

abbrev signed_server : TokenServer
signed_server = record { rows = []; next_id = 1; sessions = (codes "d", signed) ∷ [] }

-- Two polls that have read the session, and a third one.
not_found :
    (handle_device_poll 9 (codes "d") (
      run store_step
        (authorizes 8 (codes "d") (codes "sk_2") ∷ deletes (codes "d") ∷ [])
        (poll_session (codes "d") (some signed) signed_server).0)).1
    ≡ no_session
not_found =
    handle_device_poll-poll_session 9 100 [] signed
      (authorizes 8 (codes "d") (codes "sk_2") ∷ deletes (codes "d") ∷ []) signed_server refl
      (tt, (tt, tt))
