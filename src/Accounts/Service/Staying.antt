-- ===== src/Accounts/Service/Staying.antt =====
-- A login hands out a refresh token that signs in.
use fxtun_dev.Base.{
  ℕ, ◌+◌, ◌≤◌, ◌≡◌, refl, ap, ◌∙◌, inl, inr, Bool, true, false, not, none, some, List, [], arith,
  Bool-cases, nat_eq, ◌==◌,
}
use fxtun_dev.Base.Bytes.{Bytes, bytes_eq}
use fxtun_dev.Base.Dict.{lookup, Unique, lookup-insert}
use fxtun_dev.Base.Queries.{query_row-lookup}
use fxtun_dev.Accounts.Rows.{
  Account, AuthSession, get_by_phone, get_by_email, AccountDb, is_expired, update_backup_codes,
  totp_enabled, create_session, get_by_token_hash, update_last_login,
}
use fxtun_dev.Accounts.Service.{
  Crypto, World, TokenPair, signed_in, write_session, get_session, get_user, write_user,
  new_session, grant, use_backup_code, check_totp, Checked, wrong, passed, get_totp,
  get_totp_enabled, write_codes, contains_at, normalize_phone, find_user, refresh_tokens, login,
  user_identifier,
}
use fxtun_dev.Accounts.BackupCodes.{validate_backup_code}
use fxtun_dev.Accounts.Service.Entering.{login-signed_in, seen}
use fxtun_dev.Accounts.Service.Rotation.{Ids, next_unused, get_by_token_hash-create_session}
use fxtun_dev.Base.Branches.{if_P, option_P}
use fxtun_dev.Accounts.Service.Kept.{SessionInv}

-- The same users and sessions.
abbrev Alike : AccountDb → AccountDb → Type 0
Alike db d = (d.users ≡ db.users) × (d.sessions ≡ db.sessions) × (d.next_session ≡ db.next_session)

abbrev PassedAlike : AccountDb → Checked → Type 0
PassedAlike db (wrong e) = Unit {0}
PassedAlike db (passed d) = Alike db d

update_backup_codes-Alike :
    (i : ℕ) (codes : List Bytes) (db : AccountDb) → Alike db (update_backup_codes i codes db)
unfolding update_backup_codes
update_backup_codes-Alike i codes db = (ground arith, ground arith, ground arith)

stored_session :
    (h : Bytes) (s : AuthSession) (db d : AccountDb)
    → Alike db d
    → Ids db
    → get_by_token_hash h db ≡ none
    → s.refresh_token_hash ≡ h
    → get_by_token_hash h (create_session s d) ≡ some (d.next_session, s)
unfolding get_by_token_hash
stored_session h s db d (users, sessions, next) ids new same =
    let free : lookup d.next_session d.sessions ≡ none = rw (sessions, next) (next_unused db ids) in
    let old : get_by_token_hash h d ≡ none = rw sessions new in
    ground (
      arith,
      get_by_token_hash-create_session h s d free old,
      bytes_eq.beq_iff s.refresh_token_hash h,
    )

created-users : (s : AuthSession) (db : AccountDb) → (create_session s db).users ≡ db.users
unfolding create_session
created-users s db = refl

module _ (c : Crypto) where
  check_totp-PassedAlike :
      (o : World) (i : ℕ) (code : Bytes) (db : AccountDb)
      → PassedAlike db (check_totp c o i code db)
  unfolding check_totp use_backup_code
  check_totp-PassedAlike o i code db = if_P (PassedAlike db) (o.fails get_totp_enabled) _ _ tt (
      if_P (PassedAlike db) (not (totp_enabled i db)) _ _ (refl, refl, refl)
        (if_P (PassedAlike db) (code == []) _ _ tt (
          if_P (PassedAlike db) (o.fails get_totp) _ _ tt (
            option_P (PassedAlike db) (lookup i db.totps) _ _ tt λ t l.
              option_P (PassedAlike db) (c.decrypt t.secret_encrypted) _ _ tt λ secret d.
                if_P (PassedAlike db) (c.validate_code o.now secret code) _ _ (refl, refl, refl)
                  (if_P (PassedAlike db)
                    (not (validate_backup_code c.sha c.upper code t.backup_codes).1) _ _ tt
                    (if_P (Alike db) (o.fails write_codes) _ _ (refl, refl, refl)
                      (update_backup_codes-Alike i
                        (validate_backup_code c.sha c.upper code t.backup_codes).0 db)))))))

  -- A refresh with nothing in its way.
  refresh_tokens-succeeds :
      (o : World) (token agent ip : Bytes) (db : AccountDb) (k : ℕ) (s : AuthSession) (u : Account)
      (pair : TokenPair)
      → get_by_token_hash (c.hash_token token) db ≡ some (k, s)
      → lookup s.user_id db.users ≡ some u
      → u.is_active ≡ true
      → is_expired o.now s ≡ false
      → o.fails get_session ≡ false
      → o.fails get_user ≡ false
      → o.fails write_session ≡ false
      → o.new_pair s.user_id (user_identifier u) u.is_admin ≡ some pair
      → (refresh_tokens c o token agent ip db).1 ≡ signed_in s.user_id pair
  unfolding refresh_tokens grant
  refresh_tokens-succeeds o token agent ip db k s u pair g l active live r1 r2 w n = ground arith

  seen-sessions :
      (o : World) (i : ℕ) (h : Bytes) (db : AccountDb)
      → get_by_token_hash h (seen c o i db) ≡ get_by_token_hash h db
  unfolding update_last_login get_by_token_hash
  seen-sessions o i h db = ground arith

  seen-active :
      (o : World) (i : ℕ) (u : Account) (db : AccountDb)
      → lookup i db.users ≡ some u
      → u.is_active ≡ true
      → (v : Account) × (lookup i (seen c o i db).users ≡ some v) × (v.is_active ≡ true)
  unfolding update_last_login
  seen-active o i u db l active = elim (Bool-cases (o.fails write_user)) [
    | inl f ↦ (u, ground arith, active)
    | inr f ↦ (
      record u { last_login_at = some o.now },
      ground (
        arith,
        lookup-insert i i (record u { last_login_at = some o.now }) db.users,
        nat_eq.beq_iff i i,
      ),
      active,
    )
  ]

  find_user-lookup :
      (identifier : Bytes) (db : AccountDb) (i : ℕ) (u : Account)
      → Unique db.users
      → find_user identifier db ≡ some (i, u)
      → lookup i db.users ≡ some u
  unfolding find_user get_by_email get_by_phone
  find_user-lookup identifier db i u uniq e = elim (Bool-cases (contains_at identifier)) [
    | inl h ↦ (query_row-lookup (λ v. v.email == identifier) db.users i u uniq (rw h at e)).0
    | inr h ↦
        (query_row-lookup (λ v. v.phone == normalize_phone identifier) db.users i u uniq
          (rw h at e)).0
  ]

  -- The refresh token of a login signs its user in until it expires, if its hash is new and the
  -- statements of the refresh work.
  pub refresh_tokens-login :
      (o o' : World) (identifier password code agent agent' ip ip' : Bytes) (db : AccountDb) (i : ℕ)
      (pair pair' : TokenPair)
      → SessionInv db
      → Unique db.users
      → get_by_token_hash (c.hash_token pair.refresh_token) db ≡ none
      → o'.now ≤ o.now + o.refresh_ttl
      → o'.fails get_session ≡ false
      → o'.fails get_user ≡ false
      → o'.fails write_session ≡ false
      → ((j : ℕ) (name : Bytes) (admin : Bool) → o'.new_pair j name admin ≡ some pair')
      → (login c o identifier password code agent ip db).1 ≡ signed_in i pair
      → (refresh_tokens c o' pair.refresh_token agent' ip'
          (login c o identifier password code agent ip db).0).1
        ≡ signed_in i pair'
  refresh_tokens-login o o' identifier password code agent agent' ip ip' db i pair pair' inv uniq
        new time r1 r2 w gen e =
      let (u, f, active, fits, (d, passes, stored)) =
        login-signed_in c o identifier password code agent ip db i pair e in
      let h : Bytes = c.hash_token pair.refresh_token in
      let s : AuthSession = new_session c o i agent ip pair.refresh_token in
      let alike : Alike db d = rw passes at (check_totp-PassedAlike o i code db) in
      let after : AccountDb = seen c o i (create_session s d) in
      let row : get_by_token_hash h after ≡ some (d.next_session, s) =
        seen-sessions o i h (create_session s d) ∙ stored_session h s db d alike inv.0 new refl in
      let there : lookup i (create_session s d).users ≡ some u =
        ap (lookup i) (created-users s d ∙ alike.0) ∙ find_user-lookup identifier db i u uniq f in
      let (v, l, active') = seen-active o i u (create_session s d) there active in
      ap (λ x. (refresh_tokens c o' pair.refresh_token agent' ip' x).1) stored
      ∙ refresh_tokens-succeeds o' pair.refresh_token agent' ip' after d.next_session s v pair' row
          l active' (ground arith) r1 r2 w (gen i (user_identifier v) v.is_admin)
