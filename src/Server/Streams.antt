-- ===== src/Server/Streams.antt =====
-- The sessions of a client: handleJoinSession and findClientBySecret of internal/server/server.go, and the
-- streams that internal/server/stream_pool.go opens on them. A session of yamux is what it does at the
-- moment: whether it is closed, and whether Open succeeds.
pub mod Finding
pub mod Joining
mod Tests
use fxtun_dev.Base.{
  ℕ, zero, suc, ◌+◌, ◌-◌, ◌*◌, ◌/◌, ◌%◌, ◌^◌, ◌≤◌, ◌<◌, ◌≡◌, refl, sym, ap, ◌∙◌, ◌≢◌, ◌↔◌, ◌⊎◌, inl,
  inr, Bool, true, false, not, ◌&&◌, ◌||◌, Option, none, some, List, [], ◌∷◌, ◌++◌, map, arith, ltb,
  leb, eqb, if◌then◌else◌, ltb→lt, lt→ltb, leb→le, eqb_iff, Bool-cases, Option-cases, is_some, Eq,
  nat_eq, ◌==◌, length, get_elem?, set, take, drop, replicate, All, length-append, length-take,
  length-drop,
}
use fxtun_dev.Base.Bytes.{Bytes, bytes_eq, codes}
use fxtun_dev.Base.Dict.{Dict, lookup, insert, delete}

pub record Session : Type 0 where
  pub id : ℕ
  pub closed : Bool
  pub opens : Bool

-- The fields of a Client that its sessions depend on. `stream_pool` holds the sessions of the streams
-- that were opened in advance.
pub record Link : Type 0 where
  pub secret : Bytes
  pub primary : Session
  pub data_sessions : List Session
  pub session_idx : ℕ
  pub stream_pool : List Session

-- `sessions = append(sessions, c.Session)`, then the data sessions.
unfoldable pub all_sessions : Link → List Session
all_sessions c = c.primary ∷ c.data_sessions

abbrev pub usable : Option Session → Option Session
usable none = none
usable (some s) = if s.closed then none else (if s.opens then some s else none)

-- The loop, with the rounds that are left; `pos` is `idx + i` in uint32.
unfoldable pub try_sessions : ℕ → ℕ → List Session → Option Session
try_sessions zero pos ss = none
try_sessions (suc k) pos ss =
    let rest = try_sessions k ((pos + 1) % 2 ^ 32) ss in
    elim (usable (get_elem? ss (pos % length ss))) [ some s ↦ some s | none ↦ rest ]

-- `c.Session.Open()`.
abbrev pub or_primary : Option Session → Session → Option Session
or_primary (some s) primary = some s
or_primary none primary = if primary.opens then some primary else none

-- The session of the new stream, or an error.
unfoldable pub open_stream_round_robin : Link → Link × Option Session
open_stream_round_robin c =
    let idx = (c.session_idx + 1) % 2 ^ 32 in
    let ss = all_sessions c in
    (
      record c { session_idx = idx },
      or_primary (try_sessions (length ss % 2 ^ 32) idx ss) c.primary,
    )

take_pooled : List Session → Link → Link × Option Session
take_pooled [] c = open_stream_round_robin c
take_pooled (s ∷ pool) c = (record c { stream_pool = pool }, some s)

unfoldable pub open_stream : Link → Link × Option Session
unfolding take_pooled
open_stream c = take_pooled c.stream_pool c

-- One round of refillStreamPool, while the pool has room.
unfoldable pub refill : Link → Link
refill c =
    if leb 256 (length c.stream_pool)
    then c
    else let (c', s) = open_stream_round_robin c in
      elim s [ none ↦ c' | some s' ↦ record c' { stream_pool = c'.stream_pool ++ (s' ∷ []) } ]

abbrev if_secret : Bytes → Option Link → Option Link
if_secret secret none = none
if_secret secret (some c) = if (c.secret == []) || not (c.secret == secret) then none else some c

unfoldable pub find_client_by_secret : Bytes → Bytes → Dict Bytes Link → Option Link
find_client_by_secret client_id secret clients = if_secret secret (lookup client_id clients)

-- The clients, and whether the answer is a success; a session that is not joined is closed.
unfoldable pub handle_join_session :
    Bytes → Bytes → Session → Dict Bytes Link → Dict Bytes Link × Bool
handle_join_session client_id secret session clients =
    elim (find_client_by_secret client_id secret clients) [
      | none ↦ (clients, false)
      | some c ↦ (
        insert client_id (record c { data_sessions = c.data_sessions ++ (session ∷ []) }) clients,
        true,
      )
    ]
