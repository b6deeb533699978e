-- ===== src/Server/Streams/Tests.antt =====
-- Sessions at concrete inputs.
use fxtun_dev.Server.Streams.Finding.{open_stream_round_robin-finds}
use fxtun_dev.Server.Streams.{handle_join_session, find_client_by_secret}
use fxtun_dev.Base.Dict.{Dict, lookup}
use fxtun_dev.Base.Bytes.{Bytes, bytes_eq}
use fxtun_dev.Base.{true, false}
use fxtun_dev.Base.{ℕ, ◌-◌, ◌^◌, ◌≡◌, refl, true, false, none, some, [], ◌∷◌, arith, nat_eq}
use fxtun_dev.Base.Bytes.{bytes_eq, codes}
use fxtun_dev.Server.Streams.{Session, Link, all_sessions, try_sessions, open_stream_round_robin}
use fxtun_dev.Server.Streams.Joining.{joined}

abbrev dead : Session
dead = record { id = 1; closed = true; opens = false }

abbrev alive : Session
alive = record { id = 3; closed = false; opens = true }

abbrev link : ℕ → Link
link idx = record {
  secret = codes "s";
  primary = dead;
  data_sessions = dead ∷ [];
  session_idx = idx;
  stream_pool = [];
}

finds_the_joined :
    (t : Session) × ((open_stream_round_robin (joined alive (link 5))).1 ≡ some t)
    × (t.closed ≡ false)
    × (t.opens ≡ true)
unfolding all_sessions
finds_the_joined =
    open_stream_round_robin-finds (joined alive (link 5)) 2 alive (omega arith) refl refl refl

abbrev clients : Dict Bytes Link
clients = (codes "c1", link 5) ∷ []

wrong_secret : handle_join_session (codes "c1") [] alive clients ≡ (clients, false)
unfolding handle_join_session find_client_by_secret lookup
wrong_secret = refl

-- Where the counter wraps around, the search misses the only session that is open.
misses_at_the_wrap : (open_stream_round_robin (joined alive (link (2 ^ 32 - 2)))).1 ≡ none
unfolding open_stream_round_robin all_sessions try_sessions
misses_at_the_wrap = refl
