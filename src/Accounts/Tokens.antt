-- ===== src/Accounts/Tokens.antt =====
-- The API tokens of a user: the handlers of internal/api/handlers_tokens.go over the statements of internal/database/token_repo.go.
mod Device
mod Rows
mod Granted
mod Polled
mod Tests
use fxtun_dev.Base.{
  ℕ, zero, suc, Bool, false, not, ◌&&◌, Option, none, some, List, [], ◌∷◌, ltb, leb, if◌then◌else◌,
  nat_eq, ◌==◌, length,
}
use fxtun_dev.Base.Bytes.{Bytes, bytes_eq}
use fxtun_dev.Base.Int.{ℤ, pos, negsuc}
use fxtun_dev.Base.Dict.{Dict, lookup, insert, delete}
use fxtun_dev.Base.Tables.{select}
use fxtun_dev.Access.{ApiToken, star}

pub data DeviceStatus : Type 0 where
  pending authorized expired : DeviceStatus

-- The id is the key; a session that Get has replaced as expired has no token and the time 0.
pub record DeviceSession : Type 0 where
  pub status : DeviceStatus
  pub token : Bytes
  pub created_at : ℕ

-- The id is the key of the row; `granted` is what it allows.
pub record TokenRow : Type 0 where
  pub user_id : ℕ
  pub token_hash : Bytes
  pub name : Bytes
  pub granted : ApiToken
  pub created_at : ℕ

-- `api_tokens`, with the next id of AUTOINCREMENT, and the device store.
pub record TokenServer : Type 0 where
  pub rows : Dict ℕ TokenRow
  pub next_id : ℕ
  pub sessions : Dict Bytes DeviceSession

pub record TokenPlan : Type 0 where
  pub max_tokens : ℤ
  pub max_tunnels_per_token : ℤ

-- The user of a request.
pub record Caller : Type 0 where
  pub id : ℕ
  pub is_admin : Bool
  pub plan : Option TokenPlan

-- The clock, which statements fail, and GenerateAPIToken with its hash.
pub record Outside : Type 0 where
  pub now : ℕ
  pub count_fails : Bool
  pub read_fails : Bool
  pub write_fails : Bool
  pub new_token : Option Bytes
  pub hash_token : Bytes → Bytes

pub data Answer : Type 0 where
  unauthorized bad_request failed limit_reached no_token no_session denied deleted : Answer
  created : ℕ → Bytes → Answer
  session_made : Bytes → Answer
  polled : DeviceStatus → Option Bytes → Answer
  device_authorized : Answer

-- APITokenRepository.
unfoldable pub create_token : TokenRow → TokenServer → TokenServer
create_token t st = record st { rows = insert st.next_id t st.rows; next_id = suc st.next_id }

unfoldable pub delete_token : ℕ → TokenServer → TokenServer
delete_token i st = record st { rows = delete i st.rows }

unfoldable pub count : ℕ → TokenServer → ℕ
count user st = length (select (λ t. t.user_id == user) st.rows)

-- `tokenCount, _ := Count(…)`: 0 where the query fails.
abbrev pub counted : Outside → ℕ → TokenServer → ℕ
counted o user st = if o.count_fails then 0 else count user st

-- Whether the plan lets no further token be.
abbrev pub token_limit_reached : Option TokenPlan → ℕ → Bool
token_limit_reached none n = false
token_limit_reached (some p) n = elim p.max_tokens [ pos k ↦ leb k n | negsuc k ↦ false ]

abbrev pub tunnels_wanted : ℤ → ℕ
tunnels_wanted (pos zero) = 10
tunnels_wanted (pos (suc n)) = suc n
tunnels_wanted (negsuc n) = 10

abbrev pub at_most : ℕ → ℕ → ℕ
at_most k n = if ltb k n then k else n

-- The number of tunnels of a new token.
unfoldable pub granted_tunnels : Option TokenPlan → ℤ → ℕ
granted_tunnels none wanted = at_most 100 (tunnels_wanted wanted)
granted_tunnels (some p) wanted = elim p.max_tunnels_per_token [
  | pos k ↦ at_most k (at_most 100 (tunnels_wanted wanted))
  | negsuc k ↦ at_most 100 (tunnels_wanted wanted)
]

abbrev pub or_any : List Bytes → List Bytes
or_any [] = (star ∷ []) ∷ []
or_any (a ∷ rest) = a ∷ rest

-- CreateTokenRequest.
pub record TokenRequest : Type 0 where
  pub token_name : Bytes
  pub wanted : ApiToken

-- handleCreateToken; the request is `none` where decodeAndValidate has answered it.
unfoldable pub handle_create_token :
    Outside → Option Caller → Option TokenRequest → TokenServer → TokenServer × Answer
handle_create_token o none request st = (st, unauthorized)
handle_create_token o (some u) none st = (st, bad_request)
handle_create_token o (some u) (some r) st =
    if token_limit_reached u.plan (counted o u.id st)
    then (st, limit_reached)
    else elim o.new_token [
      | none ↦ (st, failed)
      | some plain ↦ if o.write_fails then (st, failed) else (
        create_token
            (record {
              user_id = u.id;
              token_hash = o.hash_token plain;
              name = r.token_name;
              granted = record {
                allowed_subdomains = or_any r.wanted.allowed_subdomains;
                max_tunnels = pos (granted_tunnels u.plan r.wanted.max_tunnels);
                allowed_ips = r.wanted.allowed_ips;
              };
              created_at = o.now;
            })
            st,
        created st.next_id plain,
      )
    ]

abbrev pub may_not_delete : Caller → TokenRow → Bool
may_not_delete u t = not (t.user_id == u.id) && not u.is_admin

-- handleDeleteToken; the id is `none` where ParseInt fails.
unfoldable pub handle_delete_token :
    Outside → Option Caller → Option ℤ → TokenServer → TokenServer × Answer
handle_delete_token o none request st = (st, unauthorized)
handle_delete_token o (some u) none st = (st, bad_request)
handle_delete_token o (some u) (some (negsuc k)) st =
    (st, if o.read_fails then failed else no_token)
handle_delete_token o (some u) (some (pos i)) st =
    if o.read_fails then (st, failed) else elim (lookup i st.rows) [
      | none ↦ (st, no_token)
      | some t ↦
          if may_not_delete u t
          then (st, denied)
          else if o.write_fails
          then (st, failed)
          else (delete_token i st, deleted)
    ]
