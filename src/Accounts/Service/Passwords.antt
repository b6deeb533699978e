-- ===== src/Accounts/Service/Passwords.antt =====
-- What a change of the password ends.
use fxtun_dev.Base.{
  ℕ, ◌≡◌, refl, ap, ◌∙◌, ◌≢◌, inl, inr, Bool, true, false, not, Option, none, some, [], arith,
  Option-cases, nat_eq, ◌==◌,
}
use fxtun_dev.Base.Bytes.{Bytes, bytes_eq}
use fxtun_dev.Base.Dict.{lookup}
use fxtun_dev.Base.Tables.{select}
use fxtun_dev.Base.Queries.{select-select_none, select-select_same, query_row-select_none}
use fxtun_dev.Accounts.Rows.{
  Account, AuthSession, AccountDb, get_by_token_hash, delete_by_user_id, update_password,
}
use fxtun_dev.Accounts.Service.{
  Crypto, World, TokenPair, done, signed_in, remove_session, refresh_tokens, change_password,
}
use fxtun_dev.Accounts.Service.Rotation.{refresh_tokens-signed_in}

module _ (c : Crypto) where
  -- The sessions of a user, and the others.
  abbrev pub of : ℕ → AuthSession → Bool
  of i s = s.user_id == i

  pub change_password-done :
      (o : World) (i : ℕ) (old_password : Bytes) (new_hash : Option Bytes) (db : AccountDb)
      → o.fails remove_session ≡ false
      → (change_password c o i old_password new_hash db).1 ≡ done
      → (u : Account) × (hash : Bytes) × (lookup i db.users ≡ some u)
        × (c.check_password old_password u.password_hash ≡ true)
        × (new_hash ≡ some hash)
        × ((change_password c o i old_password new_hash db).0
            ≡ delete_by_user_id i (update_password i hash db))
  unfolding change_password
  change_password-done o i old_password none db r e = elim (Option-cases (lookup i db.users)) [
    | inl n ↦ absurd (ground arith)
    | inr (u, l) ↦ absurd (ground arith)
  ]
  change_password-done o i old_password (some hash) db r e =
      elim (Option-cases (lookup i db.users)) [
        | inl n ↦ absurd (ground arith)
        | inr (u, l) ↦ (u, hash, l, ground arith, refl, ground arith)
      ]

  update_password-sessions :
      (i : ℕ) (hash : Bytes) (db : AccountDb) → (update_password i hash db).sessions ≡ db.sessions
  unfolding update_password
  update_password-sessions i hash db = ground arith

  delete_by_user_id-none :
      (i : ℕ) (db : AccountDb) → select (of i) (delete_by_user_id i db).sessions ≡ []
  unfolding delete_by_user_id
  delete_by_user_id-none i db =
      select-select_none (of i) (λ s. not (of i s)) db.sessions (λ s h. ground arith)

  delete_by_user_id-others :
      (i j : ℕ) (db : AccountDb)
      → j ≢ i
      → select (of j) (delete_by_user_id i db).sessions ≡ select (of j) db.sessions
  unfolding delete_by_user_id
  delete_by_user_id-others i j db other =
      select-select_same (of j) (λ s. not (of i s)) db.sessions
        (λ s h. ground (arith, nat_eq.beq_iff s.user_id j, nat_eq.beq_iff s.user_id i))

  signed_out :
      (o : World) (token agent ip : Bytes) (db : AccountDb) (i : ℕ) (pair : TokenPair)
      → select (of i) db.sessions ≡ []
      → (refresh_tokens c o token agent ip db).1 ≢ signed_in i pair
  unfolding get_by_token_hash
  signed_out o token agent ip db i pair n e =
      let (k, s, g, same, live, owner, stored) =
        refresh_tokens-signed_in c o token agent ip db i pair e in
      let other : of i s ≡ false =
        query_row-select_none (λ r. r.refresh_token_hash == c.hash_token token) (of i) db.sessions k
          s g n in
      ground (arith, nat_eq.beq_iff s.user_id i)

  -- After a change of the password no refresh token signs the user in, and the sessions of every other
  -- user are as they were, if the deletion of the sessions works.
  pub change_password_lem :
      (o o' : World) (i j : ℕ) (old_password token agent ip : Bytes) (new_hash : Option Bytes)
      (pair : TokenPair) (db : AccountDb)
      → o.fails remove_session ≡ false
      → (change_password c o i old_password new_hash db).1 ≡ done
      → j ≢ i
      → ((refresh_tokens c o' token agent ip (change_password c o i old_password new_hash db).0).1
          ≢ signed_in i pair)
        × (select (of j) (change_password c o i old_password new_hash db).0.sessions
            ≡ select (of j) db.sessions)
  change_password_lem o o' i j old_password token agent ip new_hash pair db r e other =
      let (u, hash, l, fits, given, after) =
        change_password-done o i old_password new_hash db r e in
      let written : AccountDb = update_password i hash db in
      (
        signed_out o' token agent ip _ i pair (
            ap (λ (x : AccountDb). select (of i) x.sessions) after
            ∙ delete_by_user_id-none i written),
        ap (λ (x : AccountDb). select (of j) x.sessions) after
            ∙ delete_by_user_id-others i j written other
            ∙ ap (select (of j)) (update_password-sessions i hash db),
      )
