-- ===== src/Protocol/Messages.antt =====
-- internal/protocol/messages.go and ParseMessage of codec.go: the types of control messages and the
-- choice of the structure that a message is decoded into. JSON (encoding/json) is a parameter.
use fxtun_dev.Base.{
  ◌≡◌, refl, ap, ◌∙◌, ◌↔◌, inl, inr, Bool, Option, none, some, List, [], ◌∷◌, arith, if◌then◌else◌,
  Bool-cases, Option-cases, ◌==◌,
}
use fxtun_dev.Base.Bytes.{Bytes, codes, bytes_eq, bytes_beq, bytes_beq_iff}

pub data MessageType : Type 0 where
  auth auth_result : MessageType
  tunnel_request tunnel_created tunnel_close tunnel_closed tunnel_error : MessageType
  new_connection connection_accept connection_close : MessageType
  ping pong server_shutdown join_session join_session_result error : MessageType

-- The constants of type MessageType.
unfoldable pub tag : MessageType → Bytes
tag auth = codes "auth"
tag auth_result = codes "auth_result"
tag tunnel_request = codes "tunnel_request"
tag tunnel_created = codes "tunnel_created"
tag tunnel_close = codes "tunnel_close"
tag tunnel_closed = codes "tunnel_closed"
tag tunnel_error = codes "tunnel_error"
tag new_connection = codes "new_connection"
tag connection_accept = codes "connection_accept"
tag connection_close = codes "connection_close"
tag ping = codes "ping"
tag pong = codes "pong"
tag server_shutdown = codes "server_shutdown"
tag join_session = codes "join_session"
tag join_session_result = codes "join_session_result"
tag error = codes "error"

-- A switch over the constants ks, tried in order.
switch : List MessageType → Bytes → Option MessageType
switch [] t = none
switch (k ∷ ks) t = if t == tag k then some k else switch ks t

-- The cases of `ParseMessage`, in its order.
abbrev cases : List MessageType
cases =
    auth ∷ auth_result ∷ tunnel_request ∷ tunnel_created ∷ tunnel_close ∷ tunnel_closed
    ∷ tunnel_error ∷ new_connection ∷ connection_accept ∷ connection_close ∷ ping ∷ pong ∷ error
    ∷ server_shutdown ∷ join_session ∷ join_session_result ∷ []

-- Which structure the switch of `ParseMessage` allocates.
unfoldable pub select : Bytes → Option MessageType
unfolding switch
select t = switch cases t

pub data Parsed {ℓ} (M : Type ℓ) : Type ℓ where
  message : MessageType → M → Parsed M
  unknown_message_type : Parsed M
  unmarshal_failed : MessageType → Parsed M

-- `unmarshal k` is `json.Unmarshal` into the structure of the messages of type k.
module _ {ℓ} {M : Type ℓ} (unmarshal : MessageType → Bytes → Option M) where
  unfoldable pub parse_message : Bytes → Bytes → Parsed M
  unfolding select
  parse_message d t = elim (select t) [
    | none ↦ unknown_message_type
    | some k ↦ elim (unmarshal k d) [ none ↦ unmarshal_failed k | some m ↦ message k m ]
  ]

pub select-tag : (k : MessageType) → select (tag k) ≡ some k
unfolding select tag
select-tag auth = refl
select-tag _ = refl

switch_sound :
    (ks : List MessageType) (t : Bytes) (k : MessageType) → switch ks t ≡ some k → t ≡ tag k
unfolding switch
switch_sound [] t k e = cc
switch_sound (j ∷ ks) t k e = elim (Bool-cases (bytes_beq t (tag j))) [
  | inl hit ↦
      (bytes_beq_iff t (tag j)).0 hit
      ∙ ap tag (cc (ap (λ (b : Bool). if b then some j else switch ks t) hit))
  | inr miss ↦ switch_sound ks t k (cc (ap (λ (b : Bool). if b then some j else switch ks t) miss))
]

select_iff : (t : Bytes) (k : MessageType) → (select t ≡ some k) ↔ (t ≡ tag k)
unfolding select
select_iff t k = (λ e. switch_sound cases t k e, λ h. rw h (select-tag k))

-- `ParseMessage` decodes into the structure of type k exactly when the type is spelled as k's
-- constant and the JSON decoder accepts the data; the message is then the decoder's.
pub parse_message_iff {ℓ} :
    {M : Type ℓ} (unmarshal : MessageType → Bytes → Option M) (d t : Bytes) (k : MessageType)
    (m : M)
    → (parse_message unmarshal d t ≡ message k m) ↔ ((t ≡ tag k) × (unmarshal k d ≡ some m))
unfolding parse_message
parse_message_iff unmarshal d t k m = elim (Option-cases (select t)) [
  | inl e ↦ ground (arith, e, (select_iff t k).1)
  | inr (j, e) ↦ ground (arith, e, (select_iff t j).0 e, (select_iff t k).1, (select_iff t k).0)
]
