-- ===== src/Accounts/Service/SecondFactor.antt =====
-- The life of a second factor: its enrolment, its backup codes, and a check where it is off.
use fxtun_dev.Base.{
  ℕ, ◌<◌, ◌≡◌, refl, ap, ◌∙◌, ◌≢◌, inl, inr, true, false, Option, none, some, List, arith, nat_eq,
}
use fxtun_dev.Base.Bytes.{Bytes}
use fxtun_dev.Base.Dict.{lookup, insert, lookup-insert}
use fxtun_dev.Accounts.BackupCodes.{
  validate_backup_code, hash_backup_codes, count_matches, validate_backup_code_lem,
}
use fxtun_dev.Accounts.Rows.{
  AuthSession, TotpSecret, AccountDb, create_session, totp_enabled, update_last_login,
  update_backup_codes, put_totp,
}
use fxtun_dev.Accounts.Service.{
  Crypto, World, TokenPair, done, signed_in, passed, write_codes, new_session, use_backup_code,
  check_totp, login, enable_totp, get_totp_enabled,
}
use fxtun_dev.Accounts.Service.Entering.{SecondFactor, seen, login-signed_in, login-Proven}

enabled :
    (i : ℕ) (db : AccountDb) (t : TotpSecret)
    → lookup i db.totps ≡ some t
    → t.is_enabled ≡ true
    → totp_enabled i db ≡ true
unfolding totp_enabled
enabled i db t l on = ground arith

created :
    (i : ℕ) (s : AuthSession) (db : AccountDb)
    → lookup i (create_session s db).totps ≡ lookup i db.totps
unfolding create_session
created i s db = refl

module _ (c : Crypto) where
  seen-totps : (o : World) (i : ℕ) (db : AccountDb) → (seen c o i db).totps ≡ db.totps
  unfolding update_last_login
  seen-totps o i db = ground arith

  -- The user has the second factor t, whose six digits the code is not.
  abbrev pub NotDigits : World → ℕ → Bytes → TotpSecret → Type 0
  NotDigits o i code t =
      (secret : Bytes) × (c.decrypt t.secret_encrypted ≡ some secret)
      × (c.validate_code o.now secret code ≡ false)

  use_backup_code-totps :
      (o : World) (i : ℕ) (code : Bytes) (db db' : AccountDb) (t : TotpSecret)
      → lookup i db.totps ≡ some t
      → count_matches c.sha c.upper code t.backup_codes ≡ 1
      → o.fails write_codes ≡ false
      → use_backup_code c o i t code db ≡ passed db'
      → (rest : List Bytes) × (lookup i db'.totps ≡ some (record t { backup_codes = rest }))
        × (count_matches c.sha c.upper code rest ≡ 0)
  unfolding use_backup_code update_backup_codes
  use_backup_code-totps o i code db db' t l once w e =
      elim (validate_backup_code_lem c.sha c.upper code t.backup_codes) [
        | inl (v, n, k) ↦
            let rest : List Bytes = (validate_backup_code c.sha c.upper code t.backup_codes).0 in
            let stored : db'
                ≡ record db { totps = insert i (record t { backup_codes = rest }) db.totps } =
              ground arith in
            (
              rest,
              ap (λ (d : AccountDb). lookup i d.totps) stored
                  ∙ ground (
                    arith,
                    lookup-insert i i (record t { backup_codes = rest }) db.totps,
                    nat_eq.beq_iff i i,
                  ),
              omega (arith, n, once),
            )
        | inr (r, n) ↦ absurd (omega (arith, n, once))
      ]

  check_totp-totps :
      (o : World) (i : ℕ) (code : Bytes) (db db' : AccountDb) (t : TotpSecret)
      → totp_enabled i db ≡ true
      → lookup i db.totps ≡ some t
      → NotDigits o i code t
      → count_matches c.sha c.upper code t.backup_codes ≡ 1
      → o.fails write_codes ≡ false
      → check_totp c o i code db ≡ passed db'
      → (rest : List Bytes) × (lookup i db'.totps ≡ some (record t { backup_codes = rest }))
        × (count_matches c.sha c.upper code rest ≡ 0)
  unfolding check_totp
  check_totp-totps o i code db db' t on l (secret, d, v) once w e =
      use_backup_code-totps o i code db db' t l once w (ground arith)

  -- A user whose codes are none of the given one does not get in with it.
  spent :
      (o : World) (i : ℕ) (code : Bytes) (db : AccountDb) (t : TotpSecret) (rest : List Bytes)
      → lookup i db.totps ≡ some (record t { backup_codes = rest })
      → t.is_enabled ≡ true
      → NotDigits o i code t
      → count_matches c.sha c.upper code rest ≡ 0
      → SecondFactor c o i code db
      → ⊥
  unfolding totp_enabled
  spent o i code db t rest l on other none_left (inl off) = ground arith
  spent o i code db t rest l on (secret, d, v) none_left (inr (t', secret', l', d', inl v')) =
      ground arith
  spent o i code db t rest l on (secret, d, v) none_left (inr (t', secret', l', d', inr n)) =
      let same : rest ≡ t'.backup_codes = ground arith in
      let left : 0 < count_matches c.sha c.upper code rest = rw same n in
      omega (arith, left, none_left)

  -- A backup code that one login has used up opens no second one, if the codes that are left could be
  -- stored, it stood only once among the codes, and at neither time it is the six digits.
  pub login-login :
      (o o' : World) (identifier identifier' password password' code agent agent' ip ip' : Bytes)
      (db : AccountDb) (i : ℕ) (pair pair' : TokenPair) (t : TotpSecret)
      → lookup i db.totps ≡ some t
      → t.is_enabled ≡ true
      → NotDigits o i code t
      → NotDigits o' i code t
      → count_matches c.sha c.upper code t.backup_codes ≡ 1
      → o.fails write_codes ≡ false
      → (login c o identifier password code agent ip db).1 ≡ signed_in i pair
      → (login c o' identifier' password' code agent' ip'
          (login c o identifier password code agent ip db).0).1
        ≢ signed_in i pair'
  login-login o o' id id' pw pw' code agent agent' ip ip' db i pair pair' t l on not1 not2 once w e
        e' =
      let (u, f, active, fits, (d, w', stored)) =
        login-signed_in c o id pw code agent ip db i pair e in
      let (rest, l', left) =
        check_totp-totps o i code db d t (enabled i db t l on) l not1 once w w' in
      let kept : lookup i (login c o id pw code agent ip db).0.totps
          ≡ some (record t { backup_codes = rest }) =
        ap (λ (x : AccountDb). lookup i x.totps) stored
        ∙ ap (lookup i)
            (seen-totps o i (create_session (new_session c o i agent ip pair.refresh_token) d))
        ∙ created i (new_session c o i agent ip pair.refresh_token) d
        ∙ l' in
      let (u', f', active', fits', second) =
        login-Proven c o' id' pw' code agent' ip' (login c o id pw code agent ip db).0 i pair' e' in
      spent o' i code (login c o id pw code agent ip db).0 t rest kept on not2 left second

  pub check_totp_off :
      (o : World) (i : ℕ) (code : Bytes) (db : AccountDb)
      → totp_enabled i db ≡ false
      → o.fails get_totp_enabled ≡ false
      → check_totp c o i code db ≡ passed db
  unfolding check_totp
  check_totp_off o i code db off r = ground arith

  pub enable_totp-off :
      (o : World) (i : ℕ) (fresh : Option (Bytes × List Bytes)) (db : AccountDb)
      → (enable_totp c o i fresh db).1 ≡ done
      → totp_enabled i (enable_totp c o i fresh db).0 ≡ false
  unfolding enable_totp totp_enabled put_totp
  enable_totp-off o i none db e = absurd (ground arith)
  enable_totp-off o i (some (secret, fresh)) db e = ground (
    arith,
    lookup-insert i i
        (record {
          secret_encrypted = secret;
          is_enabled = false;
          backup_codes = hash_backup_codes c.sha c.upper fresh;
        })
        db.totps,
    nat_eq.beq_iff i i,
  )
