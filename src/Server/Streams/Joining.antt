-- ===== src/Server/Streams/Joining.antt =====
-- Sessions that join a client: handleJoinSession of internal/server/server.go.
use fxtun_dev.Base.{Bool}
use fxtun_dev.Base.{
  suc, ◌+◌, ◌%◌, ◌^◌, ◌<◌, ◌≡◌, refl, ap, ◌≢◌, ◌⊎◌, inl, inr, true, false, Option, none, some, List,
  [], ◌∷◌, ◌++◌, arith, if◌then◌else◌, Option-cases, nat_eq, ◌==◌, length, get_elem?, length-append,
}
use fxtun_dev.Base.Bytes.{Bytes, bytes_eq}
use fxtun_dev.Base.Dict.{Dict, lookup, lookup-insert}
use fxtun_dev.Server.Streams.{
  Session, Link, all_sessions, if_secret, open_stream_round_robin, find_client_by_secret,
  handle_join_session,
}
use fxtun_dev.Server.Streams.Finding.{open_stream_round_robin-finds}

abbrev pub joined : Session → Link → Link
joined session c = record c { data_sessions = c.data_sessions ++ (session ∷ []) }

if_secret-some :
    (secret : Bytes) (r : Option Link) (c : Link)
    → if_secret secret r ≡ some c
    → (r ≡ some c) × (c.secret ≡ secret) × (c.secret ≢ [])
if_secret-some secret none c e = cc
if_secret-some secret (some d) c e =
    let eq : d ≡ c = ground arith in
    (
      ap some eq,
      rw (← eq) (ground (arith, bytes_eq.beq_iff d.secret secret)),
      rw (← eq) (λ z. ground (arith, bytes_eq.beq_iff d.secret [])),
    )

-- What a request to join comes to: a success, for the client that is added to, or a refusal.
abbrev pub Joins : Bytes → Bytes → Session → Dict Bytes Link → Dict Bytes Link × Bool → Type 0
Joins id secret session clients r =
    ((r.1 ≡ true)
      × ((c : Link) × (lookup id clients ≡ some c)
          × (c.secret ≡ secret)
          × (c.secret ≢ [])
          × ((other : Bytes)
              → lookup other r.0
                ≡ (if id == other then some (joined session c) else lookup other clients))))
    ⊎ ((r ≡ (clients, false))
        × ((c : Link) → lookup id clients ≡ some c → c.secret ≡ secret → c.secret ≡ []))

-- A session joins a client exactly if the client is registered and has this secret, which is not empty;
-- then it is added behind the client's sessions, and no other client changes. A refused session changes
-- nothing.
pub handle_join_session_lem :
    (id secret : Bytes) (session : Session) (clients : Dict Bytes Link)
    → Joins id secret session clients (handle_join_session id secret session clients)
unfolding handle_join_session find_client_by_secret
handle_join_session_lem id secret session clients =
    elim (Option-cases (if_secret secret (lookup id clients))) [
      | inl k ↦ inr (
        ground arith,
        λ c e q. ground (arith, bytes_eq.beq_iff c.secret secret, bytes_eq.beq_iff c.secret []),
      )
      | inr (c, k) ↦
          let f = if_secret-some secret (lookup id clients) c k in
          inl (
            ground arith,
            (
              c,
              f.0,
              f.1,
              f.2,
              λ other. ground (arith, lookup-insert id other (joined session c) clients),
            ),
          )
    ]

last-elem : (ss : List Session) (s : Session) → get_elem? (ss ++ (s ∷ [])) (length ss) ≡ some s
last-elem [] s = refl
last-elem (x ∷ ss) s = last-elem ss s

-- Streams can be opened on a client that a usable session has joined, also where all its other sessions
-- are closed, if the counter of 32 bits does not wrap around during the search.
pub open_stream-joined :
    (c : Link) (session : Session)
    → session.closed ≡ false
    → session.opens ≡ true
    → (c.session_idx + 1) % 2 ^ 32 + (length c.data_sessions + 2) < 2 ^ 32
    → (t : Session) × ((open_stream_round_robin (joined session c)).1 ≡ some t)
      × (t.closed ≡ false)
      × (t.opens ≡ true)
unfolding all_sessions
open_stream-joined c session h k b =
    open_stream_round_robin-finds (joined session c) (suc (length c.data_sessions)) session
      (omega (arith, length-append c.data_sessions (session ∷ [])))
      (last-elem c.data_sessions session) h k
