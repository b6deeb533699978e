-- ===== src/Accounts/Service/Rotation.antt =====
-- The life of a refresh token: each one signs in once.
use fxtun_dev.Base.{
  ℕ, ◌<◌, ◌≡◌, sym, ap, ◌∙◌, ◌≢◌, inl, inr, true, false, none, some, [], ◌∷◌, arith, if◌then◌else◌,
  Option-cases, nat_eq, ◌==◌,
}
use fxtun_dev.Base.Bytes.{Bytes, bytes_eq}
use fxtun_dev.Base.Dict.{lookup, delete, Unique, lookup-delete}
use fxtun_dev.Base.Tables.{select}
use fxtun_dev.Base.Queries.{head, head-none, select-delete, select-insert}
use fxtun_dev.Accounts.Rows.{
  Account, AuthSession, AccountDb, is_expired, create_session, get_by_token_hash, delete_session,
}
use fxtun_dev.Accounts.Service.{
  Crypto, World, TokenPair, Reply, signed_in, error, bad_token, other_error, write_session,
  get_session, get_user, remove_session, new_session, grant, drop_session, refresh_tokens,
}
use fxtun_dev.Accounts.Service.Entering.{grant-signed_in}

-- The ids of the sessions are below the next one, and stand once.
abbrev pub Ids : AccountDb → Type 0
Ids db =
    Unique db.sessions
    × ((k : ℕ) (s : AuthSession) → lookup k db.sessions ≡ some s → k < db.next_session)

pub next_unused : (db : AccountDb) → Ids db → lookup db.next_session db.sessions ≡ none
next_unused db (u, below) = elim (Option-cases (lookup db.next_session db.sessions)) [
  | inl e ↦ e
  | inr (s, e) ↦
      let low : db.next_session < db.next_session = below db.next_session s e in
      absurd (omega arith)
]

-- Of the sessions with a hash, those that are there after one is created.
pub get_by_token_hash-create_session :
    (h : Bytes) (s : AuthSession) (db : AccountDb)
    → lookup db.next_session db.sessions ≡ none
    → get_by_token_hash h db ≡ none
    → get_by_token_hash h (create_session s db)
      ≡ (if s.refresh_token_hash == h then some (db.next_session, s) else none)
unfolding get_by_token_hash create_session
get_by_token_hash-create_session h s db free old =
    let gone : select (λ (r : AuthSession). r.refresh_token_hash == h) db.sessions ≡ [] =
      head-none (select (λ r. r.refresh_token_hash == h) db.sessions) old in
    ground (
      arith,
      gone,
      select-insert (λ r. r.refresh_token_hash == h) db.next_session s db.sessions free,
    )

-- The one session with a hash, deleted.
get_by_token_hash-delete_session :
    (h : Bytes) (k : ℕ) (s : AuthSession) (db : AccountDb)
    → select (λ (r : AuthSession). r.refresh_token_hash == h) db.sessions ≡ (k, s) ∷ []
    → get_by_token_hash h (delete_session k db) ≡ none
unfolding get_by_token_hash delete_session delete
get_by_token_hash-delete_session h k s db one =
    ground
      (arith, select-delete (λ r. r.refresh_token_hash == h) k db.sessions, one, nat_eq.beq_iff k k)

delete_session-next :
    (k : ℕ) (db : AccountDb)
    → Ids db
    → lookup (delete_session k db).next_session (delete_session k db).sessions ≡ none
unfolding delete_session
delete_session-next k db ids =
    ground (arith, lookup-delete k db.next_session db.sessions, next_unused db ids)

found :
    (h : Bytes) (k : ℕ) (s : AuthSession) (db : AccountDb)
    → select (λ (r : AuthSession). r.refresh_token_hash == h) db.sessions ≡ (k, s) ∷ []
    → get_by_token_hash h db ≡ some (k, s)
unfolding get_by_token_hash
found h k s db one = ap head one

module _ (c : Crypto) where
  drop_session_lem :
      (o : World) (k : ℕ) (db : AccountDb)
      → o.fails remove_session ≡ false
      → drop_session c o k db ≡ delete_session k db
  unfolding drop_session
  drop_session_lem o k db e = ground arith

  pub refresh_tokens_unknown :
      (o : World) (token agent ip : Bytes) (db : AccountDb)
      → o.fails get_session ≡ false
      → get_by_token_hash (c.hash_token token) db ≡ none
      → (refresh_tokens c o token agent ip db).1 ≡ error bad_token
  unfolding refresh_tokens
  refresh_tokens_unknown o token agent ip db r n = ground arith

  grant_broken :
      (o : World) (after : AccountDb → AccountDb) (i : ℕ) (u : Account) (agent ip : Bytes)
      (db : AccountDb)
      → o.fails write_session ≡ true
      → grant c o after i u agent ip db ≡ (db, error other_error)
  unfolding grant
  grant_broken o after i u agent ip db w = ground arith

  -- The session behind a refresh token, of an active user, not expired.
  abbrev pub Holds : World → Bytes → ℕ → AccountDb → Type 0
  Holds o token i db =
      (k : ℕ) × (s : AuthSession) × (get_by_token_hash (c.hash_token token) db ≡ some (k, s))
      × (s.user_id ≡ i)
      × (is_expired o.now s ≡ false)
      × ((u : Account) × (lookup i db.users ≡ some u) × (u.is_active ≡ true))

  -- A refresh that succeeds had a live session of an active user; it has deleted that one, if it could,
  -- and stored one for the new token.
  pub refresh_tokens-signed_in :
      (o : World) (token agent ip : Bytes) (db : AccountDb) (i : ℕ) (pair : TokenPair)
      → (refresh_tokens c o token agent ip db).1 ≡ signed_in i pair
      → (k : ℕ) × (s : AuthSession) × (get_by_token_hash (c.hash_token token) db ≡ some (k, s))
        × (s.user_id ≡ i)
        × (is_expired o.now s ≡ false)
        × ((u : Account) × (lookup i db.users ≡ some u) × (u.is_active ≡ true))
        × ((refresh_tokens c o token agent ip db).0
            ≡ create_session
                (new_session c o i agent ip pair.refresh_token)
                (drop_session c o k db))
  unfolding refresh_tokens
  refresh_tokens-signed_in o token agent ip db i pair e =
      elim (Option-cases (get_by_token_hash (c.hash_token token) db)) [
        | inl n ↦ absurd (ground arith)
        | inr ((k, s), g) ↦ elim (Option-cases (lookup s.user_id db.users)) [
          | inl n ↦ absurd (ground arith)
          | inr (u, l) ↦
              let read : o.fails get_session ≡ false = ground arith in
              let live : is_expired o.now s ≡ false = ground arith in
              let read' : o.fails get_user ≡ false = ground arith in
              let active : u.is_active ≡ true = ground arith in
              let granted : (grant c o (λ d. d) s.user_id u agent ip (drop_session c o k db)).1
                  ≡ signed_in i pair =
                ground arith in
              let (same, stored) =
                grant-signed_in c o (λ d. d) s.user_id u agent ip (drop_session c o k db) i pair
                  granted in
              let whole : (refresh_tokens c o token agent ip db).0
                  ≡ (grant c o (λ d. d) s.user_id u agent ip (drop_session c o k db)).0 =
                ground arith in
              (k, s, g, sym same, live, (u, rw same l, active), whole ∙ rw same stored)
        ]
      ]

  -- A refresh token signs in once: after a refresh it is refused, if the deletion worked, no other
  -- session had its hash, and the new token has another.
  pub refresh_tokens-refresh_tokens :
      (o o' : World) (token agent agent' ip ip' : Bytes) (db : AccountDb) (i : ℕ) (pair : TokenPair)
      (k : ℕ) (s : AuthSession)
      → Ids db
      → select (λ (r : AuthSession). r.refresh_token_hash == c.hash_token token) db.sessions
        ≡ (k, s) ∷ []
      → c.hash_token pair.refresh_token ≢ c.hash_token token
      → o.fails remove_session ≡ false
      → o'.fails get_session ≡ false
      → (refresh_tokens c o token agent ip db).1 ≡ signed_in i pair
      → (refresh_tokens c o' token agent' ip' (refresh_tokens c o token agent ip db).0).1
        ≡ error bad_token
  refresh_tokens-refresh_tokens o o' token agent agent' ip ip' db i pair k s ids one other removed
        read e =
      let (k', s', g, same, live, owner, stored) =
        refresh_tokens-signed_in o token agent ip db i pair e in
      let h : Bytes = c.hash_token token in
      let same_row : k' ≡ k = ground (arith, found h k s db one) in
      let fresh : AuthSession = new_session c o i agent ip pair.refresh_token in
      let after : (refresh_tokens c o token agent ip db).0
          ≡ create_session fresh (delete_session k db) =
        stored
        ∙ ap (create_session fresh)
            (drop_session_lem o k' db removed ∙ ap (λ x. delete_session x db) same_row) in
      let gone : get_by_token_hash h (create_session fresh (delete_session k db)) ≡ none = ground (
        arith,
        get_by_token_hash-create_session h fresh (delete_session k db)
            (delete_session-next k db ids) (get_by_token_hash-delete_session h k s db one),
        bytes_eq.beq_iff (c.hash_token pair.refresh_token) h,
      ) in
      refresh_tokens_unknown o' token agent' ip' _ read (ap (get_by_token_hash h) after ∙ gone)

  -- A refresh whose insertion fails has deleted the session that it came from: the user is signed out.
  pub refresh_tokens_lost :
      (o : World) (token agent ip : Bytes) (db : AccountDb) (i : ℕ) (k : ℕ) (s : AuthSession)
      → select (λ (r : AuthSession). r.refresh_token_hash == c.hash_token token) db.sessions
        ≡ (k, s) ∷ []
      → Holds o token i db
      → o.fails get_session ≡ false
      → o.fails get_user ≡ false
      → o.fails remove_session ≡ false
      → o.fails write_session ≡ true
      → ((refresh_tokens c o token agent ip db).1 ≡ error other_error)
        × (get_by_token_hash (c.hash_token token) (refresh_tokens c o token agent ip db).0 ≡ none)
  unfolding refresh_tokens
  refresh_tokens_lost o token agent ip db i k s one holds read read' removed broken =
      let (k', s', g, same, live, (u, l, active)) = holds in
      let h : Bytes = c.hash_token token in
      let same_row : k' ≡ k = ground (arith, found h k s db one) in
      let owner : lookup s'.user_id db.users ≡ some u = ap (λ x. lookup x db.users) same ∙ l in
      let whole : refresh_tokens c o token agent ip db
          ≡ grant c o (λ d. d) s'.user_id u agent ip (drop_session c o k' db) =
        ground arith in
      let failed : refresh_tokens c o token agent ip db
          ≡ (drop_session c o k' db, error other_error) =
        whole ∙ grant_broken o (λ d. d) s'.user_id u agent ip (drop_session c o k' db) broken in
      let dropped : drop_session c o k' db ≡ delete_session k db =
        drop_session_lem o k' db removed ∙ ap (λ x. delete_session x db) same_row in
      (
        ap (λ x. x.1) failed,
        ap (λ (x : AccountDb × Reply). get_by_token_hash h x.0) failed
            ∙ ap (get_by_token_hash h) dropped
            ∙ get_by_token_hash-delete_session h k s db one,
      )
