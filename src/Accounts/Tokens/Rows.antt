-- ===== src/Accounts/Tokens/Rows.antt =====
-- Histories of requests about tokens and devices, and what they keep of the table of tokens.
use fxtun_dev.Base.{
  ℕ, ◌+◌, ◌≤◌, ◌<◌, ◌≡◌, refl, inl, inr, false, Option, none, some, List, [], ◌∷◌, ◌++◌, arith,
  Option-cases, nat_eq, ◌==◌, if◌then◌else◌, length, length-append, All,
}
use fxtun_dev.Base.Bytes.{Bytes}
use fxtun_dev.Base.Int.{ℤ, pos, negsuc}
use fxtun_dev.Base.Dict.{Dict, lookup, insert, delete, lookup-insert, lookup-delete}
use fxtun_dev.Base.Tables.{select}
use fxtun_dev.Base.Queries.{select-insert, select-delete}
use fxtun_dev.Base.Branches.{if_P, if_cases_P, option_P}
use fxtun_dev.Base.Histories.{run, run_inv}
use fxtun_dev.Accounts.Tokens.{
  TokenRow, TokenServer, TokenPlan, TokenRequest, Caller, Outside, Answer, DeviceSession,
  create_token, delete_token, count, counted, token_limit_reached, handle_create_token,
  handle_delete_token, may_not_delete,
}
use fxtun_dev.Accounts.Tokens.Device.{
  handle_device_code, handle_device_authorize, cleanup_devices, poll_session, create_device,
  delete_device,
}

pub data Op : Type 0 where
  creates : Outside → Option Caller → Option TokenRequest → Op
  deletes : Outside → Option Caller → Option ℤ → Op
  asks_code : ℕ → Option Bytes → Op
  -- The end of a poll, with the session that it has read.
  polls : Bytes → Option DeviceSession → Op
  authorizes : Outside → ℕ → Option Caller → Option Bytes → Op
  cleans_up : ℕ → Op

unfoldable pub step : Op → TokenServer → TokenServer
step (creates o u request) st = (handle_create_token o u request st).0
step (deletes o u request) st = (handle_delete_token o u request st).0
step (asks_code now id) st = (handle_device_code now id st).0
step (polls id d) st = (poll_session id d st).0
step (authorizes o later u request) st = (handle_device_authorize o later u request st).0
step (cleans_up now) st = cleanup_devices now st

unfoldable pub no_tokens : TokenServer
no_tokens = record { rows = []; next_id = 1; sessions = [] }

-- A number of tokens that a plan lets be.
abbrev pub Within : Option TokenPlan → ℕ → Type 0
Within none n = Unit
Within (some p) n = elim p.max_tokens [ pos k ↦ n ≤ k | negsuc k ↦ Unit ]

-- The callers have the plans of their users, the count works, and no device is authorized.
abbrev pub Lawful : (ℕ → Option TokenPlan) → Op → Type 0
Lawful plan (creates o none request) = Unit
Lawful plan (creates o (some u) request) = (u.plan ≡ plan u.id) × (o.count_fails ≡ false)
Lawful plan (deletes o u request) = Unit
Lawful plan (asks_code now id) = Unit
Lawful plan (polls id d) = Unit
Lawful plan (authorizes o later u request) = ⊥
Lawful plan (cleans_up now) = Unit

-- Ids are below the next one, and every user is within its plan.
abbrev Keeps : (ℕ → Option TokenPlan) → TokenServer → Type 0
Keeps plan st =
    ((i : ℕ) (t : TokenRow) → lookup i st.rows ≡ some t → i < st.next_id)
    × ((user : ℕ) → Within (plan user) (count user st))

grown :
    (p : Option TokenPlan) (n : ℕ) → Within p n → token_limit_reached p n ≡ false → Within p (n + 1)
grown none n w b = tt
grown (some p) n w b = ground arith

shrunk : (p : Option TokenPlan) (n m : ℕ) → m ≤ n → Within p n → Within p m
shrunk none n m l w = tt
shrunk (some p) n m l w = ground arith

length-delete_le : (i : ℕ) (m : Dict ℕ TokenRow) → length (delete i m) ≤ length m
unfolding delete
length-delete_le i [] = omega arith
length-delete_le i ((j, v) ∷ m) = ground (arith, length-delete_le i m)

pub fresh_id :
    (rows : Dict ℕ TokenRow) (next : ℕ)
    → ((i : ℕ) (t : TokenRow) → lookup i rows ≡ some t → i < next)
    → lookup next rows ≡ none
fresh_id rows next below = elim (Option-cases (lookup next rows)) [
  | inl e ↦ e
  | inr (t, e) ↦ let low : next < next = below next t e in absurd (omega arith)
]

-- The tokens of a user after one is made.
pub count-create_token :
    (t : TokenRow) (st : TokenServer) (user : ℕ)
    → lookup st.next_id st.rows ≡ none
    → count user (create_token t st)
      ≡ (if t.user_id == user then count user st + 1 else count user st)
unfolding count create_token
count-create_token t st user e =
    let one : select (λ r. r.user_id == user) (insert st.next_id t st.rows)
        ≡ select (λ r. r.user_id == user) st.rows
          ++ (if t.user_id == user then (st.next_id, t) ∷ [] else []) =
      select-insert (λ r. r.user_id == user) st.next_id t st.rows e in
    rw
      (
        one,
        length-append (select (λ r. r.user_id == user) st.rows)
            (if t.user_id == user then (st.next_id, t) ∷ [] else []),
      )
      (ground arith)

create_token_below :
    (t : TokenRow) (st : TokenServer) (i : ℕ) (r : TokenRow)
    → ((j : ℕ) (t' : TokenRow) → lookup j st.rows ≡ some t' → j < st.next_id)
    → lookup i (create_token t st).rows ≡ some r
    → i < (create_token t st).next_id
unfolding create_token
create_token_below t st i r below l =
    ground (arith, lookup-insert st.next_id i t st.rows, below i r, nat_eq.beq_iff st.next_id i)

create_token-Keeps :
    (plan : ℕ → Option TokenPlan) (t : TokenRow) (st : TokenServer)
    → Keeps plan st
    → token_limit_reached (plan t.user_id) (count t.user_id st) ≡ false
    → Keeps plan (create_token t st)
create_token-Keeps plan t st (below, within) b = (
  (λ i r l. create_token_below t st i r below l),
  λ user. rw (count-create_token t st user (fresh_id st.rows st.next_id below)) (
      if_cases_P (Within (plan user)) (t.user_id == user) (count user st + 1) (count user st)
        (λ e.
          let eu : t.user_id ≡ user = (nat_eq.beq_iff t.user_id user).0 e in
          grown (plan user) (count user st) (within user) (rw eu at b))
        (λ e. within user)),
)

delete_token-Keeps :
    (plan : ℕ → Option TokenPlan) (i : ℕ) (st : TokenServer)
    → Keeps plan st
    → Keeps plan (delete_token i st)
unfolding delete_token count
delete_token-Keeps plan i st (below, within) = (
  (λ j t l. below j t (ground (arith, lookup-delete i j st.rows))),
  λ user. rw (select-delete (λ t. t.user_id == user) i st.rows) (
      shrunk (plan user) (count user st)
        (length (delete i (select (λ t. t.user_id == user) st.rows)))
        (length-delete_le i (select (λ t. t.user_id == user) st.rows)) (within user)),
)

handle_create_token-Keeps :
    (plan : ℕ → Option TokenPlan) (o : Outside) (u : Caller) (r : TokenRequest) (st : TokenServer)
    → u.plan ≡ plan u.id
    → o.count_fails ≡ false
    → Keeps plan st
    → Keeps plan (handle_create_token o (some u) (some r) st).0
unfolding handle_create_token
handle_create_token-Keeps plan o u r st e c inv =
    if_cases_P P (token_limit_reached u.plan (counted o u.id st)) _ _ (λ b. inv)
      (λ b. option_P P o.new_token _ _ inv (λ plain q.
        if_P P o.write_fails _ _ inv (create_token-Keeps plan _ st inv (rw (c, e) at b))))
  where
    P : TokenServer × Answer → Type 0
    P x = Keeps plan x.0

handle_delete_token-Keeps :
    (plan : ℕ → Option TokenPlan) (o : Outside) (u : Option Caller) (request : Option ℤ)
    (st : TokenServer)
    → Keeps plan st
    → Keeps plan (handle_delete_token o u request st).0
unfolding handle_delete_token
handle_delete_token-Keeps plan o none request st inv = inv
handle_delete_token-Keeps plan o (some u) none st inv = inv
handle_delete_token-Keeps plan o (some u) (some (negsuc k)) st inv = inv
handle_delete_token-Keeps plan o (some u) (some (pos i)) st inv = if_P P o.read_fails _ _ inv (
    option_P P (lookup i st.rows) _ _ inv (λ t q.
      if_P P (may_not_delete u t) _ _ inv
        (if_P P o.write_fails _ _ inv (delete_token-Keeps plan i st inv))))
  where
    P : TokenServer × Answer → Type 0
    P x = Keeps plan x.0

-- A poll changes no token.
rows-poll_session :
    (id : Bytes) (d : Option DeviceSession) (st : TokenServer)
    → ((poll_session id d st).0.rows ≡ st.rows) × ((poll_session id d st).0.next_id ≡ st.next_id)
unfolding poll_session delete_device
rows-poll_session id none st = (refl, refl)
rows-poll_session id (some d) st = ground arith

step-Keeps :
    (plan : ℕ → Option TokenPlan) (op : Op) (st : TokenServer)
    → Lawful plan op
    → Keeps plan st
    → Keeps plan (step op st)
unfolding step count handle_create_token handle_device_code create_device cleanup_devices
step-Keeps plan (creates o none request) st q inv = inv
step-Keeps plan (creates o (some u) none) st q inv = inv
step-Keeps plan (creates o (some u) (some r)) st (e, c) inv =
    handle_create_token-Keeps plan o u r st e c inv
step-Keeps plan (deletes o u request) st q inv = handle_delete_token-Keeps plan o u request st inv
step-Keeps plan (asks_code now none) st q inv = inv
step-Keeps plan (asks_code now (some id)) st q inv = inv
step-Keeps plan (polls id d) st q inv =
    let same : _ = rows-poll_session id d st in rw (same.0, same.1) inv
step-Keeps plan (authorizes o later u request) st q inv = elim q [ ]
step-Keeps plan (cleans_up now) st q inv = inv

no_token_fits : (p : Option TokenPlan) → Within p 0
no_token_fits none = tt
no_token_fits (some p) = ground arith

-- After any history of requests from an empty table in which no device is authorized, every user has no
-- more tokens than its plan allows, if a user's requests carry its plan and the count of its tokens works.
pub run-no_tokens-Within :
    (plan : ℕ → Option TokenPlan) (ops : List Op) (user : ℕ)
    → All (Lawful plan) ops
    → Within (plan user) (count user (run step ops no_tokens))
unfolding count no_tokens lookup select
run-no_tokens-Within plan ops user q =
    (run_inv step (Keeps plan) (Lawful plan) (step-Keeps plan) ops q no_tokens
        ((λ i t l. cc), λ v. no_token_fits (plan v))).1
      user
