-- ===== src/Inspect/Tests.antt =====
-- Runs of the capture's functions, and its theorems at concrete inputs.
use fxtun_dev.Base.{
  ℕ, zero, suc, ◌+◌, ◌<◌, ◌≡◌, refl, true, false, none, some, List, [], ◌∷◌, arith, nat_eq,
  get_elem?,
}
use fxtun_dev.Base.Bytes.{Bytes, codes}
use fxtun_dev.Base.Dict.{lookup}
use fxtun_dev.Base.Int.{pos}
use fxtun_dev.Inspect.Manager.{Manager, enabled, get_buffer, add_and_persist}
use fxtun_dev.Inspect.Manager.Rings.{Captures, add_and_persist-Captures}
use fxtun_dev.Inspect.Exchange.{CapturedExchange}
use fxtun_dev.Inspect.Channels.{Channels}
use fxtun_dev.Inspect.Buffer.{RingBuffer, new_ring_buffer, add_locked, list, slot}
use fxtun_dev.Inspect.Buffer.Index.{back}
use fxtun_dev.Inspect.Buffer.Refinement.{Holds, list-Holds, add_all, add_all-Holds}
use fxtun_dev.Inspect.Buffer.Subscribers.{Open}

-- Five entries in a ring of three.
abbrev five : List Bytes
five = codes "a" ∷ codes "b" ∷ codes "c" ∷ codes "d" ∷ codes "e" ∷ []

abbrev three : List Bytes
three = codes "e" ∷ codes "d" ∷ codes "c" ∷ []

add_all-Holds_example :
    (rb : RingBuffer Bytes) × (add_all five (new_ring_buffer 3) ≡ some rb) × Holds rb three
add_all-Holds_example = add_all-Holds five 3 (ground arith)

abbrev full : RingBuffer Bytes
full = record {
  entries = some (codes "d") ∷ some (codes "e") ∷ some (codes "c") ∷ [];
  capacity = 3;
  write_idx = 2;
  count = 3;
  subscribers = [];
  closed = false;
}

full_run : add_all five (new_ring_buffer 3) ≡ some full
unfolding new_ring_buffer add_locked
full_run = refl

full-Holds : Holds full three
full-Holds = record {
  positive = ground arith;
  slots = refl;
  writing = ground arith;
  counted = refl;
  bounded = ground arith;
  stored = λ i h. stored_at i h;
}
  where
    stored_at : (i : ℕ) → i < 3 → slot full.entries (back 2 3 i) ≡ get_elem? three i
    stored_at zero h = refl
    stored_at (suc zero) h = refl
    stored_at (suc (suc zero)) h = refl
    stored_at (suc (suc (suc i))) h = absurd (omega arith)

list-Holds_example : list 1 5 full ≡ some (codes "d") ∷ some (codes "c") ∷ []
list-Holds_example = list-Holds full three 1 5 full-Holds

abbrev exchange : CapturedExchange
exchange = record {
  id = codes "x";
  tunnel_id = codes "1";
  trace_id = [];
  replay_ref = [];
  timestamp = 0;
  duration = 1;
  method = codes "GET";
  path = codes "/";
  host = codes "h";
  request_headers = [];
  request_body = [];
  request_body_size = 0;
  remote_addr = [];
  status_code = 200;
  response_headers = [];
  response_body = [];
  response_body_size = 0;
}

abbrev watched : RingBuffer CapturedExchange
watched = record {
  entries = none ∷ [];
  capacity = 1;
  write_idx = 0;
  count = 0;
  subscribers = 4 ∷ [];
  closed = false;
}

abbrev stored : RingBuffer CapturedExchange
stored = record {
  entries = some exchange ∷ [];
  capacity = 1;
  write_idx = 0;
  count = 1;
  subscribers = 4 ∷ [];
  closed = false;
}

abbrev feed : Channels CapturedExchange
feed = (4, record { queue = []; buffer = 64; closed = false }) ∷ []

feed-Open : Open feed 4
unfolding lookup
feed-Open = (record { queue = []; buffer = 64; closed = false }, refl, refl)

stored_run : add_locked exchange watched ≡ some (stored, 4 ∷ [])
unfolding add_locked
stored_run = refl

-- A manager with the ring of tunnel 2, and a store that counts.

abbrev manager : Manager CapturedExchange
manager = record {
  buffers = (2, watched) ∷ [];
  user_ids = (2, 7) ∷ [];
  capacity = pos 1;
  max_body_size = 10;
}

abbrev save : CapturedExchange → ℕ → ℕ → ℕ
save ex user_id n = n + user_id

watched-Holds : Holds watched []
watched-Holds = record {
  positive = ground arith;
  slots = refl;
  writing = ground arith;
  counted = refl;
  bounded = ground arith;
  stored = λ i h. absurd (omega arith);
}

manager_user : lookup 2 manager.user_ids ≡ some 7
unfolding lookup
manager_user = refl

manager-Captures : Captures manager feed 2 []
unfolding get_buffer lookup
manager-Captures = (watched, refl, watched-Holds, (feed-Open, tt), refl)

add_and_persist-Captures_example :
    (m' : Manager CapturedExchange) × (cs' : Channels CapturedExchange) × (add_and_persist save 2
        exchange manager feed
        (some 100)
      ≡ some (m', cs', some 107))
    × Captures m' cs' 2 (exchange ∷ [])
add_and_persist-Captures_example =
    add_and_persist-Captures save 2 exchange manager feed 100 [] 7 manager-Captures manager_user

manager_on : enabled manager ≡ true
unfolding enabled
manager_on = refl

no_ring : get_buffer 3 manager ≡ none
unfolding get_buffer lookup
no_ring = refl
