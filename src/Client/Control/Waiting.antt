-- ===== src/Client/Control/Waiting.antt =====
-- What a request for a tunnel waits for.
use fxtun_dev.Base.{
  ℕ, ◌≡◌, refl, sym, ap, ◌∙◌, ◌⊎◌, inl, inr, Bool, true, false, ◌||◌, Option, none, some, List, [],
  ◌∷◌, arith, if◌then◌else◌, Bool-cases, nat_eq, ◌==◌,
}
use fxtun_dev.Base.Bytes.{Bytes, bytes_eq}
use fxtun_dev.Base.Dict.{lookup, lookup-insert}
use fxtun_dev.Client.Control.{
  TunnelCreated, FromServer, tunnel_created, tunnel_error, tunnel_closed, ping, pong,
  server_shutdown, server_error, unparsed, Control, register_request, finish_request,
  request_tunnel, handle_tunnel_created, handle_message, read_on, read_open, handle_messages,
  Outcome, created, closed, timed_out,
}

-- The first message that creates the tunnel of a request.
abbrev pub first_created : Bytes → List FromServer → Option TunnelCreated
first_created id [] = none
first_created id (tunnel_created r ∷ xs) =
    if r.request_id == id then some r else first_created id xs
first_created id (tunnel_error e ∷ xs) = first_created id xs
first_created id (tunnel_closed t ∷ xs) = first_created id xs
first_created id (ping ∷ xs) = first_created id xs
first_created id (pong ∷ xs) = first_created id xs
first_created id (server_shutdown ∷ xs) = first_created id xs
first_created id (server_error f ∷ xs) = first_created id xs
first_created id (unparsed ∷ xs) = first_created id xs

-- The answer that is there already, or the next one.
abbrev or_else : Option TunnelCreated → Option TunnelCreated → Option TunnelCreated
or_else none next = next
or_else (some r) next = some r

or_else-none : (a : Option TunnelCreated) → a ≡ or_else a none
or_else-none none = refl
or_else-none (some r) = refl

registered : (id : Bytes) (st : Control) → lookup id (register_request id st).pending ≡ some none
unfolding register_request
registered id st = ground (arith, lookup-insert id id none st.pending, bytes_eq.beq_iff id id)

-- The messages that are read: a fatal error is the last one.
abbrev pub heard : List FromServer → List FromServer
heard [] = []
heard (server_error true ∷ xs) = server_error true ∷ []
heard (server_error false ∷ xs) = server_error false ∷ heard xs
heard (tunnel_created r ∷ xs) = tunnel_created r ∷ heard xs
heard (tunnel_error e ∷ xs) = tunnel_error e ∷ heard xs
heard (tunnel_closed t ∷ xs) = tunnel_closed t ∷ heard xs
heard (ping ∷ xs) = ping ∷ heard xs
heard (pong ∷ xs) = pong ∷ heard xs
heard (server_shutdown ∷ xs) = server_shutdown ∷ heard xs
heard (unparsed ∷ xs) = unparsed ∷ heard xs

abbrev pub is_fatal : FromServer → Bool
is_fatal (server_error f) = f
is_fatal (tunnel_created r) = false
is_fatal (tunnel_error e) = false
is_fatal (tunnel_closed t) = false
is_fatal ping = false
is_fatal pong = false
is_fatal server_shutdown = false
is_fatal unparsed = false

abbrev pub any_fatal : List FromServer → Bool
any_fatal [] = false
any_fatal (x ∷ xs) = is_fatal x || any_fatal xs

heard-cons :
    (x : FromServer) (xs : List FromServer)
    → heard (x ∷ xs) ≡ x ∷ (if is_fatal x then [] else heard xs)
heard-cons (server_error true) xs = refl
heard-cons (server_error false) xs = refl
heard-cons (tunnel_created r) xs = refl
heard-cons (tunnel_error e) xs = refl
heard-cons (tunnel_closed t) xs = refl
heard-cons ping xs = refl
heard-cons pong xs = refl
heard-cons server_shutdown xs = refl
heard-cons unparsed xs = refl

-- A loop that waits for ever, or whose client is closed, reads nothing.
read_open_done :
    (now : ℕ) (x : FromServer) (st : Control)
    → (st.stuck ≡ true) ⊎ (st.client_closed ≡ true)
    → read_open now x st ≡ st
unfolding read_open read_on
read_open_done now x st h = ground (arith, h)

read_open-free :
    (now : ℕ) (x : FromServer) (st : Control)
    → st.stuck ≡ false
    → st.client_closed ≡ false
    → read_open now x st ≡ handle_message now x st
unfolding read_open read_on
read_open-free now x st h k = ground arith

handle_messages_done :
    (now : ℕ) (xs : List FromServer) (st : Control)
    → (st.stuck ≡ true) ⊎ (st.client_closed ≡ true)
    → handle_messages now xs st ≡ st
unfolding handle_messages
handle_messages_done now [] st h = refl
handle_messages_done now (x ∷ xs) st h =
    ap (handle_messages now xs) (read_open_done now x st h) ∙ handle_messages_done now xs st h

-- An answer to this request or to another one.
handle_tunnel_created-pending :
    (r : TunnelCreated) (st : Control) (id : Bytes) (answer : Option TunnelCreated)
    → lookup id st.pending ≡ some answer
    → (handle_tunnel_created r st).stuck ≡ false
    → lookup id (handle_tunnel_created r st).pending
      ≡ some (or_else answer (if r.request_id == id then some r else none))
unfolding handle_tunnel_created
handle_tunnel_created-pending r st id none l free = elim (Bool-cases (r.request_id == id)) [
  | inl same ↦
      let e : r.request_id ≡ id = (bytes_eq.beq_iff r.request_id id).0 same in
      let l' : lookup r.request_id st.pending ≡ some none = rw e l in
      ground (arith, lookup-insert r.request_id id (some r) st.pending)
  | inr other ↦ ground (arith, lookup-insert r.request_id id (some r) st.pending)
]
handle_tunnel_created-pending r st id (some a) l free = elim (Bool-cases (r.request_id == id)) [
  | inl same ↦
      let e : r.request_id ≡ id = (bytes_eq.beq_iff r.request_id id).0 same in
      let l' : lookup r.request_id st.pending ≡ some (some a) = rw e l in absurd (ground arith)
  | inr other ↦ ground (arith, lookup-insert r.request_id id (some r) st.pending)
]

handle_message-pending :
    (now : ℕ) (x : FromServer) (st : Control) (id : Bytes) (answer : Option TunnelCreated)
    → lookup id st.pending ≡ some answer
    → (handle_message now x st).stuck ≡ false
    → lookup id (handle_message now x st).pending
      ≡ some (or_else answer (first_created id (x ∷ [])))
unfolding handle_message
handle_message-pending now (tunnel_created r) st id answer l free =
    handle_tunnel_created-pending r st id answer l free
handle_message-pending now (tunnel_error e) st id answer l free = l ∙ ap some (or_else-none answer)
handle_message-pending now (tunnel_closed t) st id answer l free = l ∙ ap some (or_else-none answer)
handle_message-pending now ping st id answer l free = l ∙ ap some (or_else-none answer)
handle_message-pending now pong st id answer l free = l ∙ ap some (or_else-none answer)
handle_message-pending now server_shutdown st id answer l free = l ∙ ap some (or_else-none answer)
handle_message-pending now (server_error true) st id answer l free =
    l ∙ ap some (or_else-none answer)
handle_message-pending now (server_error false) st id answer l free =
    l ∙ ap some (or_else-none answer)
handle_message-pending now unparsed st id answer l free = l ∙ ap some (or_else-none answer)

first_created-cons :
    (id : Bytes) (x : FromServer) (xs : List FromServer)
    → first_created id (x ∷ xs) ≡ or_else (first_created id (x ∷ [])) (first_created id xs)
first_created-cons id (tunnel_created r) xs = ground arith
first_created-cons id (tunnel_error e) xs = refl
first_created-cons id (tunnel_closed t) xs = refl
first_created-cons id ping xs = refl
first_created-cons id pong xs = refl
first_created-cons id server_shutdown xs = refl
first_created-cons id (server_error f) xs = refl
first_created-cons id unparsed xs = refl

or_else_assoc : (a b c : Option TunnelCreated) → or_else (or_else a b) c ≡ or_else a (or_else b c)
or_else_assoc none b c = refl
or_else_assoc (some r) b c = refl

handle_message-client_closed :
    (now : ℕ) (x : FromServer) (st : Control)
    → st.client_closed ≡ false
    → (handle_message now x st).client_closed ≡ is_fatal x
unfolding handle_message handle_tunnel_created
handle_message-client_closed now (tunnel_created r) st h = ground arith
handle_message-client_closed now (tunnel_error e) st h = h
handle_message-client_closed now (tunnel_closed t) st h = h
handle_message-client_closed now ping st h = h
handle_message-client_closed now pong st h = h
handle_message-client_closed now server_shutdown st h = h
handle_message-client_closed now (server_error true) st h = refl
handle_message-client_closed now (server_error false) st h = h
handle_message-client_closed now unparsed st h = h

-- What the loop has made of the request and of the client, if it was not stuck.
abbrev Read : Bytes → Option TunnelCreated → List FromServer → Control → Type 0
Read id answer xs st =
    (lookup id st.pending ≡ some (or_else answer (first_created id (heard xs))))
    × (st.client_closed ≡ any_fatal xs)

Read-cons :
    (id : Bytes) (answer : Option TunnelCreated) (x : FromServer) (xs : List FromServer)
    (st : Control)
    → is_fatal x ≡ false
    → Read id (or_else answer (first_created id (x ∷ []))) xs st
    → Read id answer (x ∷ xs) st
Read-cons id answer x xs st mild (l, c) =
    let whole : heard (x ∷ xs) ≡ x ∷ heard xs = heard-cons x xs ∙ rw mild refl in
    (
      l
          ∙ ap some (
              or_else_assoc answer (first_created id (x ∷ [])) (first_created id (heard xs))
              ∙ ap (or_else answer)
                  (sym (first_created-cons id x (heard xs)) ∙ sym (ap (first_created id) whole))),
      c ∙ rw mild refl,
    )

Read-fatal :
    (id : Bytes) (answer : Option TunnelCreated) (x : FromServer) (xs : List FromServer)
    (st : Control)
    → is_fatal x ≡ true
    → lookup id st.pending ≡ some (or_else answer (first_created id (x ∷ [])))
    → st.client_closed ≡ true
    → Read id answer (x ∷ xs) st
Read-fatal id answer x xs st fatal l c =
    let whole : heard (x ∷ xs) ≡ x ∷ [] = heard-cons x xs ∙ rw fatal refl in
    (l ∙ ap (λ m. some (or_else answer (first_created id m))) (sym whole), c ∙ rw fatal refl)

handle_messages-Read :
    (now : ℕ) (xs : List FromServer) (st : Control) (id : Bytes) (answer : Option TunnelCreated)
    → lookup id st.pending ≡ some answer
    → st.client_closed ≡ false
    → (handle_messages now xs st).stuck ≡ false
    → Read id answer xs (handle_messages now xs st)
unfolding handle_messages
handle_messages-Read now [] st id answer l up free = (l ∙ ap some (or_else-none answer), up)
handle_messages-Read now (x ∷ xs) st id answer l up free = elim (Bool-cases st.stuck) [
  | inl h ↦
      let same : handle_messages now (x ∷ xs) st ≡ st =
        handle_messages_done now (x ∷ xs) st (inl h) in
      absurd (ground arith)
  | inr h ↦
      let st1 : Control = handle_message now x st in
      let read : handle_messages now (x ∷ xs) st ≡ handle_messages now xs st1 =
        ap (handle_messages now xs) (read_open-free now x st h up) in
      elim (Bool-cases st1.stuck) [
        | inl h' ↦
            let same : handle_messages now xs st1 ≡ st1 =
              handle_messages_done now xs st1 (inl h') in
            absurd (ground arith)
        | inr h' ↦
            let first = handle_message-pending now x st id answer l h' in
            let shut = handle_message-client_closed now x st up in
            elim (Bool-cases (is_fatal x)) [
              | inl fatal ↦
                  rw (read ∙ handle_messages_done now xs st1 (inr (shut ∙ fatal)))
                    (Read-fatal id answer x xs st1 fatal first (shut ∙ fatal))
              | inr mild ↦ rw read (
                  Read-cons id answer x xs (handle_messages now xs st1) mild (
                    handle_messages-Read now xs st1 id (or_else answer (first_created id (x ∷ [])))
                      first (shut ∙ mild) (rw read at free)))
            ]
      ]
]

-- What comes of a request, by its answer and by whether the client is closed.
abbrev pub outcome : Bool → Option TunnelCreated → Bool → Outcome
outcome takes_answer none true = closed
outcome takes_answer none false = timed_out
outcome takes_answer (some r) true = if takes_answer then created else closed
outcome takes_answer (some r) false = created

finish_request_lem :
    (takes_answer : Bool) (id name : Bytes) (st : Control) (answer : Option TunnelCreated)
    (shut : Bool)
    → lookup id st.pending ≡ some answer
    → st.client_closed ≡ shut
    → (finish_request takes_answer id name st).1 ≡ outcome takes_answer answer shut
unfolding finish_request
finish_request_lem true id name st none true l c = ground arith
finish_request_lem true id name st none false l c = ground arith
finish_request_lem true id name st (some r) true l c = ground arith
finish_request_lem true id name st (some r) false l c = ground arith
finish_request_lem false id name st none true l c = ground arith
finish_request_lem false id name st none false l c = ground arith
finish_request_lem false id name st (some r) true l c = ground arith
finish_request_lem false id name st (some r) false l c = ground arith

pub request_tunnel_lem :
    (takes_answer : Bool) (now : ℕ) (id name : Bytes) (xs : List FromServer) (st : Control)
    → st.client_closed ≡ false
    → (handle_messages now xs (register_request id st)).stuck ≡ false
    → (request_tunnel true takes_answer now id name xs st).1
      ≡ outcome takes_answer (first_created id (heard xs)) (any_fatal xs)
unfolding request_tunnel register_request
request_tunnel_lem takes_answer now id name xs st up free =
    let done =
      handle_messages-Read now xs (register_request id st) id none (registered id st) up free in
    finish_request_lem takes_answer id name (handle_messages now xs (register_request id st))
      (first_created id (heard xs)) (any_fatal xs) done.0 done.1
