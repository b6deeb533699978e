-- ===== src/Accounts/Tokens/Granted.antt =====
-- What a new token allows its client, and what the device flow does to the limit of a plan.
use fxtun_dev.Base.{
  ℕ, zero, suc, ◌+◌, ◌≤◌, ◌<◌, ◌≡◌, refl, ◌⊎◌, inl, inr, true, false, Option, none, some, ◌∷◌,
  arith, Option-cases, nat_eq, ◌∙◌, sym,
}
use fxtun_dev.Base.Bytes.{Bytes, bytes_eq}
use fxtun_dev.Base.Int.{ℤ, pos, negsuc}
use fxtun_dev.Base.Dict.{lookup, lookup-insert}
use fxtun_dev.Server.Tunnels.Requests.{token_max, token_max_db, reached}
use fxtun_dev.Base.Branches.{if_P, option_P}
use fxtun_dev.Server.Auth.{DbToken, AuthPlan, db_client}
use fxtun_dev.Accounts.Tokens.{
  TokenRow, TokenServer, TokenPlan, TokenRequest, Caller, Outside, Answer, created, create_token,
  count, counted, token_limit_reached, at_most, tunnels_wanted, granted_tunnels,
  handle_create_token,
}
use fxtun_dev.Accounts.Tokens.Device.{
  handle_device_authorize, authorize_device, get_device, still_pending, device_row,
}
use fxtun_dev.Accounts.Tokens.Rows.{count-create_token}

-- A number of tunnels that suits the plan: 1 to 100, and no more than the plan has for a token.
abbrev pub Suits : Option TokenPlan → ℕ → Type 0
Suits none n = (0 < n) × (n ≤ 100)
Suits (some p) n = elim p.max_tunnels_per_token [
  | pos k ↦ (n ≤ k) × (n ≤ 100) × ((0 < n) ⊎ (k ≡ 0))
  | negsuc k ↦ (0 < n) × (n ≤ 100)
]

-- The row of a token, as the authentication of a client reads it.
abbrev pub read_row : ℕ → TokenRow → DbToken
read_row i t = record { id = i; user_id = t.user_id; api_token = t.granted }

tunnels_wanted_range :
    (wanted : ℤ)
    → (0 < at_most 100 (tunnels_wanted wanted)) × (at_most 100 (tunnels_wanted wanted) ≤ 100)
tunnels_wanted_range (pos zero) = ground arith
tunnels_wanted_range (pos (suc n)) = ground arith
tunnels_wanted_range (negsuc n) = ground arith

granted_tunnels-Suits : (p : Option TokenPlan) (wanted : ℤ) → Suits p (granted_tunnels p wanted)
unfolding granted_tunnels
granted_tunnels-Suits none wanted = tunnels_wanted_range wanted
granted_tunnels-Suits (some p) wanted = ground (arith, tunnels_wanted_range wanted)

-- What a created token is: a row of its caller, under the hash of the text that the answer shows.
abbrev pub Created : Outside → Caller → ℕ → Bytes → Option AuthPlan → TokenServer → Type 0
Created o u i plain plan st =
    (t : TokenRow) × (lookup i st.rows ≡ some t)
    × (t.user_id ≡ u.id)
    × (t.token_hash ≡ o.hash_token plain)
    × Suits u.plan (token_max (db_client (read_row i t) plan))

max_tunnels-row :
    (i : ℕ) (t : TokenRow) (plan : Option AuthPlan) (n : ℕ)
    → t.granted.max_tunnels ≡ pos n
    → token_max (db_client (read_row i t) plan) ≡ n
unfolding db_client
max_tunnels-row i t plan n e = token_max_db (db_client (read_row i t) plan) _ n refl refl e

create_token-Created :
    (o : Outside) (u : Caller) (plain : Bytes) (plan : Option AuthPlan) (wanted : ℤ) (t : TokenRow)
    (st : TokenServer)
    → t.user_id ≡ u.id
    → t.token_hash ≡ o.hash_token plain
    → t.granted.max_tunnels ≡ pos (granted_tunnels u.plan wanted)
    → Created o u st.next_id plain plan (create_token t st)
unfolding create_token
create_token-Created o u plain plan wanted t st eu eh em = (
  t,
  ground
      (arith, lookup-insert st.next_id st.next_id t st.rows, nat_eq.beq_iff st.next_id st.next_id),
  eu,
  eh,
  rw (max_tunnels-row st.next_id t plan (granted_tunnels u.plan wanted) em)
      (granted_tunnels-Suits u.plan wanted),
)

-- An answer with a new token tells its text, and the row of its id is the caller's, under the hash of that
-- text. A client that authenticates with it has a limit of tunnels of 1 to 100, and of no more than the
-- plan has for a token; 0, if the plan has 0.
pub handle_create_token-created :
    (o : Outside) (u : Caller) (r : TokenRequest) (st : TokenServer) (i : ℕ) (plain : Bytes)
    (plan : Option AuthPlan)
    → (handle_create_token o (some u) (some r) st).1 ≡ created i plain
    → Created o u i plain plan (handle_create_token o (some u) (some r) st).0
unfolding handle_create_token
handle_create_token-created o u r st i plain plan =
    if_P P (token_limit_reached u.plan (counted o u.id st)) _ _ (λ e. cc)
      (option_P P o.new_token _ _ (λ e. cc)
        (λ text q.
          if_P P o.write_fails _ _ (λ e. cc)
            (λ e.
              let ei : st.next_id ≡ i = cc in
              let et : text ≡ plain = cc in
              rw (sym ei, sym et)
                (create_token-Created o u text plan r.wanted.max_tunnels _ st refl refl refl))))
  where
    P : TokenServer × Answer → Type 0
    P x = x.1 ≡ created i plain → Created o u i plain plan x.0

-- A token that is made under a plan with no tunnel for a token is under no limit of tunnels at all.
pub handle_create_token_unlimited :
    (o : Outside) (u : Caller) (p : TokenPlan) (r : TokenRequest) (st : TokenServer) (i n : ℕ)
    (plain : Bytes) (plan : Option AuthPlan)
    → u.plan ≡ some p
    → p.max_tunnels_per_token ≡ pos 0
    → (handle_create_token o (some u) (some r) st).1 ≡ created i plain
    → (t : TokenRow) × (lookup i (handle_create_token o (some u) (some r) st).0.rows ≡ some t)
      × (reached (token_max (db_client (read_row i t) plan)) n ≡ false)
handle_create_token_unlimited o u p r st i n plain plan ep ek e =
    let made : Created o u i plain plan (handle_create_token o (some u) (some r) st).0 =
      handle_create_token-created o u r st i plain plan e in
    let suits : Suits (some p) (token_max (db_client (read_row i made.0) plan)) = rw ep at made.4 in
    (made.0, made.1, ground (arith, suits, ek))

count-authorize_device :
    (later user : ℕ) (id plain : Bytes) (st : TokenServer)
    → count user (authorize_device later id plain st) ≡ count user st
unfolding authorize_device count
count-authorize_device later user id plain st = elim (Option-cases (lookup id st.sessions)) [
  | inl e ↦ rw (e, authorize_device) refl
  | inr (d, e) ↦ rw (e, authorize_device) (ground arith)
]

-- An authorization of a device makes a token whatever the plan of its user allows, if the session is pending
-- and nothing fails.
pub count-handle_device_authorize :
    (o : Outside) (later : ℕ) (u : Caller) (b : ℕ) (id plain : Bytes) (st : TokenServer)
    → lookup st.next_id st.rows ≡ none
    → still_pending (get_device o.now (b ∷ id) st) ≡ true
    → o.new_token ≡ some plain
    → o.write_fails ≡ false
    → count u.id (handle_device_authorize o later (some u) (some (b ∷ id)) st).0 ≡ count u.id st + 1
unfolding handle_device_authorize
count-handle_device_authorize o later u b id plain st fresh p e w =
    rw (p, e, w)
      (count-authorize_device later u.id (b ∷ id) plain (create_token (device_row o u plain) st)
        ∙ count-create_token (device_row o u plain) st u.id fresh
        ∙ ground (arith, nat_eq.beq_iff u.id u.id))
