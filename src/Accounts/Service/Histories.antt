-- ===== src/Accounts/Service/Histories.antt =====
-- The histories of calls of the service, and what they do to a second factor that is off.
use fxtun_dev.Base.{
  ℕ, ◌≡◌, refl, inl, inr, false, not, ◌&&◌, ◌||◌, ◌≢◌, Option, none, some, List, [], ◌∷◌, arith,
  Bool-cases, is_some, nat_eq, ◌==◌, All,
}
use fxtun_dev.Base.Bytes.{Bytes, bytes_eq}
use fxtun_dev.Base.Dict.{lookup, lookup-insert, lookup-delete}
use fxtun_dev.Base.Branches.{if_P, option_P}
use fxtun_dev.Accounts.BackupCodes.{validate_backup_code}
use fxtun_dev.Accounts.Rows.{
  Account, TotpSecret, AccountDb, is_expired, create_session, put_totp, delete_totp,
  update_backup_codes, totp_enabled, get_by_token_hash, delete_session, delete_by_token_hash,
  delete_expired, delete_by_user_id, update_password, update_last_login,
}
use fxtun_dev.Accounts.Service.{
  Crypto, World, Reply, ServiceError, done, write_session, get_session, get_user, remove_session,
  write_user, new_session, grant, use_backup_code, check_totp, Checked, wrong, passed, get_totp,
  get_totp_enabled, write_totp, write_codes, enable_totp, verify_totp, disable_totp, login_user,
  find_user, drop_session, refresh_tokens, logout, login, change_password, user_identifier,
}
use fxtun_dev.Accounts.Service.SecondFactor.{check_totp_off, enable_totp-off}

-- A call of the service, or the clean-up of expired sessions at a time.
pub data Call : Type 0 where
  logs_in : World → Bytes → Bytes → Bytes → Bytes → Bytes → Call
  logs_out : World → Bytes → Call
  refreshes : World → Bytes → Bytes → Bytes → Call
  changes_password : World → ℕ → Bytes → Option Bytes → Call
  enables : World → ℕ → Option (Bytes × List Bytes) → Call
  verifies disables : World → ℕ → Bytes → Call
  cleans_up : ℕ → Call

module _ (c : Crypto) where
  unfoldable pub called : AccountDb → Call → AccountDb
  called db (logs_in o identifier password code agent ip) =
      (login c o identifier password code agent ip db).0
  called db (logs_out o token) = (logout c o token db).0
  called db (refreshes o token agent ip) = (refresh_tokens c o token agent ip db).0
  called db (changes_password o i old_password new_hash) =
      (change_password c o i old_password new_hash db).0
  called db (enables o i fresh) = (enable_totp c o i fresh db).0
  called db (verifies o i code) = (verify_totp c o i code db).0
  called db (disables o i code) = (disable_totp c o i code db).0
  called db (cleans_up now) = delete_expired now db

  unfoldable pub all_called : AccountDb → List Call → AccountDb
  all_called db [] = db
  all_called db (x ∷ xs) = all_called (called db x) xs

-- Every call but a verification of the second factor of this user.
abbrev pub NotVerified : ℕ → Call → Type 0
NotVerified i (verifies o j code) = j ≢ i
NotVerified i (logs_in o identifier password code agent ip) = Unit
NotVerified i (logs_out o token) = Unit
NotVerified i (refreshes o token agent ip) = Unit
NotVerified i (changes_password o j old_password new_hash) = Unit
NotVerified i (enables o j fresh) = Unit
NotVerified i (disables o j code) = Unit
NotVerified i (cleans_up now) = Unit

-- The second factor of the user is off.
abbrev Off : ℕ → AccountDb → Type 0
Off i db = totp_enabled i db ≡ false

abbrev After : ℕ → AccountDb × Reply → Type 0
After i r = Off i r.0

-- A row that is put for this user is off, or for another user.
put_totp-Off :
    (i j : ℕ) (t : TotpSecret) (db : AccountDb)
    → (j ≡ i → t.is_enabled ≡ false)
    → Off i db
    → Off i (put_totp j t db)
unfolding totp_enabled put_totp
put_totp-Off i j t db own off = elim (Bool-cases (j == i)) [
  | inl e ↦
      let ej : j ≡ i = (nat_eq.beq_iff j i).0 e in
      ground (arith, lookup-insert j i t db.totps, own ej)
  | inr e ↦ ground (arith, lookup-insert j i t db.totps)
]

delete_totp-Off : (i j : ℕ) (db : AccountDb) → Off i db → Off i (delete_totp j db)
unfolding totp_enabled delete_totp
delete_totp-Off i j db off = ground (arith, lookup-delete j i db.totps)

row-Off :
    (i j : ℕ) (t : TotpSecret) (db : AccountDb)
    → lookup j db.totps ≡ some t
    → Off i db
    → j ≡ i
    → t.is_enabled ≡ false
unfolding totp_enabled
row-Off i j t db l off e = let l' : lookup i db.totps ≡ some t = rw e at l in ground arith

update_backup_codes-Off :
    (i j : ℕ) (codes : List Bytes) (db : AccountDb)
    → Off i db
    → Off i (update_backup_codes j codes db)
unfolding update_backup_codes put_totp
update_backup_codes-Off i j codes db off =
    option_P (Off i) (lookup j db.totps) _ _ off
      λ t l. put_totp-Off i j (record t { backup_codes = codes }) db (row-Off i j t db l off) off

update_last_login-Off :
    (i now j : ℕ) (db : AccountDb) → Off i db → Off i (update_last_login now j db)
unfolding update_last_login totp_enabled
update_last_login-Off i now j db off = option_P (Off i) (lookup j db.users) _ _ off λ u l. off

update_password-Off :
    (i j : ℕ) (hash : Bytes) (db : AccountDb) → Off i db → Off i (update_password j hash db)
unfolding update_password totp_enabled
update_password-Off i j hash db off = option_P (Off i) (lookup j db.users) _ _ off λ u l. off

delete_by_user_id-Off : (i j : ℕ) (db : AccountDb) → Off i db → Off i (delete_by_user_id j db)
unfolding delete_by_user_id totp_enabled
delete_by_user_id-Off i j db off = off

module _ (c : Crypto) (i : ℕ) where
  grant-Off :
      (o : World) (after : AccountDb → AccountDb) (j : ℕ) (u : Account) (agent ip : Bytes)
      (db : AccountDb)
      → ((d : AccountDb) → Off i d → Off i (after d))
      → Off i db
      → After i (grant c o after j u agent ip db)
  unfolding grant create_session totp_enabled
  grant-Off o after j u agent ip db keeps off =
      option_P (After i) (o.new_pair j (user_identifier u) u.is_admin) _ _ off λ pair e.
        if_P (After i) (o.fails write_session) _ _ off
          (keeps (create_session (new_session c o j agent ip pair.refresh_token) db) off)

  drop_session-Off : (o : World) (k : ℕ) (db : AccountDb) → Off i db → Off i (drop_session c o k db)
  unfolding drop_session delete_session totp_enabled
  drop_session-Off o k db off = if_P (Off i) (o.fails remove_session) _ _ off off

  refresh_tokens-Off :
      (o : World) (token agent ip : Bytes) (db : AccountDb)
      → Off i db
      → After i (refresh_tokens c o token agent ip db)
  unfolding refresh_tokens
  refresh_tokens-Off o token agent ip db off = if_P (After i) (o.fails get_session) _ _ off (
      option_P (After i) (get_by_token_hash (c.hash_token token) db) _ _ off λ row e.
        if_P (After i) (is_expired o.now row.1) _ _ (drop_session-Off o row.0 db off) (
          if_P (After i) (o.fails get_user) _ _ off (
            option_P (After i) (lookup row.1.user_id db.users) _ _ off λ u l.
              if_P (After i) (not u.is_active) _ _ off (
                grant-Off o (λ d. d) row.1.user_id u agent ip (drop_session c o row.0 db) (λ d f. f)
                  (drop_session-Off o row.0 db off)))))

  change_password-Off :
      (o : World) (j : ℕ) (old_password : Bytes) (new_hash : Option Bytes) (db : AccountDb)
      → Off i db
      → After i (change_password c o j old_password new_hash db)
  unfolding change_password
  change_password-Off o j old_password new_hash db off = if_P (After i) (o.fails get_user) _ _ off (
      option_P (After i) (lookup j db.users) _ _ off λ u l.
        if_P (After i) (not (c.check_password old_password u.password_hash)) _ _ off (
          option_P (After i) new_hash _ _ off λ hash e.
            if_P (After i) (o.fails write_user) _ _ off (
              if_P (Off i) (o.fails remove_session) _ _ (update_password-Off i j hash db off) (
                delete_by_user_id-Off i j (update_password j hash db)
                  (update_password-Off i j hash db off)))))

  abbrev PassedOff : Checked → Type 0
  PassedOff (wrong e) = Unit
  PassedOff (passed db) = Off i db

  check_totp-PassedOff :
      (o : World) (j : ℕ) (code : Bytes) (db : AccountDb)
      → Off i db
      → PassedOff (check_totp c o j code db)
  unfolding check_totp use_backup_code
  check_totp-PassedOff o j code db off = if_P PassedOff (o.fails get_totp_enabled) _ _ tt (
      if_P PassedOff (not (totp_enabled j db)) _ _ off (
        if_P PassedOff (code == []) _ _ tt (
          if_P PassedOff (o.fails get_totp) _ _ tt (
            option_P PassedOff (lookup j db.totps) _ _ tt λ t l.
              option_P PassedOff (c.decrypt t.secret_encrypted) _ _ tt λ secret d.
                if_P PassedOff (c.validate_code o.now secret code) _ _ off (
                  if_P PassedOff (not (validate_backup_code c.sha c.upper code t.backup_codes).1) _
                    _ tt
                    (if_P (Off i) (o.fails write_codes) _ _ off (
                      update_backup_codes-Off i j
                        (validate_backup_code c.sha c.upper code t.backup_codes).0 db off)))))))

  checked_P :
      (r : Checked) (x : ServiceError → AccountDb × Reply) (f : AccountDb → AccountDb × Reply)
      → PassedOff r
      → ((e : ServiceError) → After i (x e))
      → ((d : AccountDb) → Off i d → After i (f d))
      → After i (elim r as (λ _. AccountDb × Reply) [ wrong e ↦ x e | passed d ↦ f d ])
  checked_P (wrong e) x f p q r = q e
  checked_P (passed d) x f p q r = r d p

  login-Off :
      (o : World) (identifier password code agent ip : Bytes) (db : AccountDb)
      → Off i db
      → After i (login c o identifier password code agent ip db)
  unfolding login login_user
  login-Off o identifier password code agent ip db off = if_P (After i) (o.fails get_user) _ _ off (
      option_P (After i) (find_user identifier db) _ _ off λ row e.
        if_P (After i) (not row.1.is_active) _ _ off (
          if_P (After i) (not (c.check_password password row.1.password_hash)) _ _ off (
            checked_P (check_totp c o row.0 code db) _ _ (check_totp-PassedOff o row.0 code db off)
              (λ e. off)
              λ d off'.
                grant-Off o _ row.0 row.1 agent ip d
                  (if_P (λ (f : AccountDb → AccountDb). (x : AccountDb) → Off i x → Off i (f x))
                    (o.fails write_user) _ _ (λ x v. v) (update_last_login-Off i o.now row.0))
                  off')))

  enable_totp-Off :
      (o : World) (j : ℕ) (fresh : Option (Bytes × List Bytes)) (db : AccountDb)
      → Off i db
      → After i (enable_totp c o j fresh db)
  unfolding enable_totp
  enable_totp-Off o j none db off = off
  enable_totp-Off o j (some (secret, fresh)) db off =
      if_P (After i) (o.fails write_totp || (o.fails get_totp && is_some (lookup j db.totps))) _ _
        off (put_totp-Off i j _ db (λ e. refl) off)

  verify_totp-Off :
      (o : World) (j : ℕ) (code : Bytes) (db : AccountDb)
      → j ≢ i
      → Off i db
      → After i (verify_totp c o j code db)
  unfolding verify_totp
  verify_totp-Off o j code db other off = if_P (After i) (o.fails get_totp) _ _ off (
      option_P (After i) (lookup j db.totps) _ _ off λ t l.
        option_P (After i) (c.decrypt t.secret_encrypted) _ _ off λ secret d.
          if_P (After i) (not (c.validate_code o.now secret code)) _ _ off (
            if_P (After i) (o.fails write_totp) _ _ off
              (put_totp-Off i j _ db (λ e. absurd (other e)) off)))

  disable_totp-Off :
      (o : World) (j : ℕ) (code : Bytes) (db : AccountDb)
      → Off i db
      → After i (disable_totp c o j code db)
  unfolding disable_totp
  disable_totp-Off o j code db off = if_P (After i) (o.fails get_totp) _ _ off (
      option_P (After i) (lookup j db.totps) _ _ off λ t l.
        option_P (After i) (c.decrypt t.secret_encrypted) _ _ off λ secret d.
          if_P (After i)
            (not (c.validate_code o.now secret code)
              && not (validate_backup_code c.sha c.upper code t.backup_codes).1)
            _ _ off (if_P (After i) (o.fails write_totp) _ _ off (delete_totp-Off i j db off)))

  called-Off : (x : Call) (db : AccountDb) → NotVerified i x → Off i db → Off i (called c db x)
  unfolding called logout delete_by_token_hash delete_expired totp_enabled
  called-Off (logs_in o identifier password code agent ip) db n off =
      login-Off o identifier password code agent ip db off
  called-Off (logs_out o token) db n off = if_P (After i) (o.fails remove_session) _ _ off off
  called-Off (refreshes o token agent ip) db n off = refresh_tokens-Off o token agent ip db off
  called-Off (changes_password o j old_password new_hash) db n off =
      change_password-Off o j old_password new_hash db off
  called-Off (enables o j fresh) db n off = enable_totp-Off o j fresh db off
  called-Off (verifies o j code) db n off = verify_totp-Off o j code db n off
  called-Off (disables o j code) db n off = disable_totp-Off o j code db off
  called-Off (cleans_up now) db n off = off

  all_called-Off :
      (xs : List Call) (db : AccountDb)
      → All (NotVerified i) xs
      → Off i db
      → Off i (all_called c db xs)
  unfolding all_called
  all_called-Off [] db n off = off
  all_called-Off (x ∷ xs) db (n, ns) off =
      all_called-Off xs (called c db x) ns (called-Off x db n off)

  -- A new enrolment asks for no code and switches the second factor off: after it has succeeded and then any
  -- history of calls of the service in which the user verifies nothing, the check of the second factor
  -- passes with any code and changes nothing, if the state of the factor can be read.
  pub check_totp-enable_totp :
      (o o' : World) (fresh : Option (Bytes × List Bytes)) (xs : List Call) (code : Bytes)
      (db : AccountDb)
      → (enable_totp c o i fresh db).1 ≡ done
      → All (NotVerified i) xs
      → o'.fails get_totp_enabled ≡ false
      → check_totp c o' i code (all_called c (enable_totp c o i fresh db).0 xs)
        ≡ passed (all_called c (enable_totp c o i fresh db).0 xs)
  check_totp-enable_totp o o' fresh xs code db e n r =
      check_totp_off c o' i code (all_called c (enable_totp c o i fresh db).0 xs)
        (all_called-Off xs (enable_totp c o i fresh db).0 n (enable_totp-off c o i fresh db e)) r
