-- ===== src/TvControl.antt =====
-- examples/tv-control/direct_av.py: the television's websocket and the receiver's HTTP interface. A
-- call of the network is answered by the next entry of a list: what it returns, or the exception it
-- raises. The end of the list of messages, and a `timeout_error` in it, is the end of the wait that
-- the call stands in.
pub mod Waiting
pub mod Replies
pub mod Registered
pub mod Standby
pub mod Quiet
pub mod Target
pub mod Guarded
pub mod Attempt
pub mod Allowed
pub mod Wol
pub mod Wake
pub mod Packet
pub mod Statuses
pub mod Supervisor
pub mod Pairing
mod Examples
mod WakeExamples
use bazzite_k.Common.{
  ℕ, ◌+◌, Bool, true, false, ◌&&◌, not, Option, none, some, List, [], ◌∷◌, ◌++◌, String, Result,
  if◌then◌else◌, text_append, decimal,
}
use bazzite_k.Common.Json.{Json, Fields, get, is_text, truthy}
use bazzite_k.Common.Xml.{Element, children, descend, at, first_text}

-- The exceptions, by the class; a RuntimeError also by its argument. `cancelled` is not an
-- `Exception`: it ends an await when the timeout of a caller is over.
pub data Error : Type 0 where
  tv_error : Json → Error  -- RuntimeError
  tv_rejected : String → Json → Error  -- RuntimeError
  pairing_required not_paired no_key_returned : Error  -- RuntimeError
  timeout_error client_error os_error parse_error value_error : Error
  json_error : String → Error  -- AttributeError, KeyError or TypeError of a value that is no dict
  cancelled : Error

pub data Outcome (A : Type 0) : Type 0 where
  ok : A → Outcome A
  raised : Error → Outcome A

-- The calls, in their order.
pub data Call : Type 0 where
  ws_connect : Call
  send_json : Json → Call
  ws_close : Call
  http_get : String → Call  -- the command of the receiver
  http_post : Call

pub record Response : Type 0 where
  pub is_error : Bool  -- `raise_for_status` raises
  pub root : Outcome Element  -- of the text that is parsed

-- A TVConnection (`ws`, `key`, `counter`), the answers still to come, and the calls so far.
pub record Link : Type 0 where
  pub has_ws : Bool
  pub key : Json
  pub counter : ℕ
  pub connecting : Outcome (Unit {0})
  pub sends : List (Outcome (Unit {0}))  -- at the end of the list, sending succeeds
  pub inbox : List (Outcome Json)
  pub closing : Outcome (Unit {0})
  pub posts : List (Outcome Response)  -- at the end, a timeout
  pub gets : List (Outcome Response)  -- at the end, a timeout
  pub calls : List Call

abbrev pub Io : Type 0 → Type 0
Io A = Link → Outcome A × Link

abbrev pub return : {A : Type 0} → A → Io A
return a l = (ok a, l)

abbrev pub raise : {A : Type 0} → Error → Io A
raise e l = (raised e, l)

abbrev pub bound : {A B : Type 0} → Outcome A × Link → (A → Io B) → Outcome B × Link
bound (ok a, l) f = f a l
bound (raised e, l) f = (raised e, l)

infixl 5 ◌>>=◌
abbrev pub ◌>>=◌ : {A B : Type 0} → Io A → (A → Io B) → Io B
(m >>= f) l = bound (m l) f

abbrev pub lift : {A : Type 0} → Result A → Outcome A
lift (Result.ok a) = ok a
lift (Result.err e) = raised (json_error e)

infixl 5 ◌>>◌
abbrev pub ◌>>◌ : {A B : Type 0} → Outcome A → (A → Outcome B) → Outcome B
ok a >> f = f a
raised e >> f = raised e

abbrev pub or_else : Json → Option Json → Json
or_else d none = d
or_else d (some j) = j

-- `j.get(key, d)`
abbrev pub get_or : String → Json → Json → Outcome Json
get_or name d j = lift (get name j) >> λ found. ok (or_else d found)

abbrev pub empty : Json
empty = Json.obj Fields.end

abbrev next_send : List (Outcome (Unit {0})) → Outcome (Unit {0})
next_send [] = ok tt
next_send (o ∷ os) = o

abbrev pub rest {ℓ} : {A : Type ℓ} → List A → List A
rest [] = []
rest (x ∷ xs) = xs

abbrev next_response : List (Outcome Response) → Outcome Response
next_response [] = raised timeout_error
next_response (o ∷ os) = o

abbrev pub sent : Json → Link → Link
sent j l = record l { sends = rest l.sends; calls = l.calls ++ (send_json j ∷ []) }

abbrev pub ws_send : Json → Io (Unit {0})
ws_send j l = (next_send l.sends, sent j l)

-- `while True` round `receive_json`: the turn that ends the loop returns `some`.
unfoldable pub receive_until :
    {A : Type 0}
    → (Json → Outcome (Option A))
    → List (Outcome Json)
    → Outcome A × List (Outcome Json)
receive_until turn [] = (raised timeout_error, [])
receive_until turn (raised e ∷ js) = (raised e, js)
receive_until turn (ok j ∷ js) = elim (turn j) [
  | raised e ↦ (raised e, js)
  | ok none ↦ receive_until turn js
  | ok (some a) ↦ (ok a, js)
]

abbrev pub receive : {A : Type 0} → (Json → Outcome (Option A)) → Io A
receive turn l =
    let answer = receive_until turn l.inbox in (answer.0, record l { inbox = answer.1 })

-- A message that does not end the loop in `connect`, except that a prompt does without `pair`.
abbrev pub waiting : Bool → Json → Outcome (Option Json)
waiting pair response = get_or "payload" empty response >> λ payload.
    get_or "pairingType" Json.null payload >> λ pairing.
    if is_text "PROMPT" pairing && not pair then raised pairing_required else ok none

abbrev pub refused : Json → Outcome (Option Json)
refused response =
    get_or "error" (Json.str "TV registration error") response >> λ e. raised (tv_error e)

-- The key of `registered`, else the one that is there.
abbrev pub registered_key : Json → Json → Outcome (Option Json)
registered_key key response = get_or "payload" empty response >> λ payload.
    get_or "client-key" key payload >> λ new_key. ok (some new_key)

-- One turn of the loop in `connect`.
unfoldable pub registration : Bool → Json → Json → Outcome (Option Json)
registration pair key response = get_or "type" Json.null response >> λ kind.
    if is_text "registered" kind
    then registered_key key response
    else if is_text "error" kind
    then refused response
    else waiting pair response

abbrev pub with_key : Json → Io (Unit {0})
with_key k l = (ok tt, record l { key = k })

abbrev pub dialled : Link → Link
dialled l = record l { calls = l.calls ++ (ws_connect ∷ []) }

abbrev pub opened : Outcome (Unit {0}) → Link → Outcome (Unit {0}) × Link
opened (ok u) l = (ok tt, record l { has_ws = true })
opened (raised e) l = (raised e, l)

-- `session.ws_connect`; `self.ws` is set if it succeeds.
abbrev pub open_ws : Io (Unit {0})
open_ws l = opened l.connecting (dialled l)

abbrev pub await_registration : Bool → Json → Io (Unit {0})
await_registration pair key l = (receive (registration pair key) >>= with_key) l

-- `registration_msg` makes the message of the client library out of the key.
unfoldable pub connect : (Json → Json) → Bool → Io (Unit {0})
connect registration_msg pair l =
    (open_ws >>= λ u. ws_send (registration_msg l.key) >>= λ v. await_registration pair l.key) l

abbrev pub uid_of : ℕ → String
uid_of n = text_append "moonmachine-" (decimal n)

-- `payload or {}`
abbrev pub payload_or_empty : Json → Json
payload_or_empty payload = if truthy payload then payload else empty

abbrev pub request_message : String → String → Json → Json
request_message uid uri payload = Json.obj (
    Fields.field "id" (Json.str uid) (
      Fields.field "type" (Json.str "request") (
        Fields.field "uri" (Json.str (text_append "ssap://" uri))
          (Fields.field "payload" (payload_or_empty payload) Fields.end))))

abbrev pub is_false : Json → Bool
is_false (Json.bool b) = not b
is_false j = false

-- `raise RuntimeError(f'TV rejected …')`
abbrev pub rejection : String → Json → Outcome (Option Json)
rejection uri result = get_or "errorCode" Json.null result >> λ code.
    get_or "errorText" code result >> λ text. raised (tv_rejected uri text)

-- The reply to this request.
unfoldable pub accepted : String → Json → Outcome (Option Json)
accepted uri reply = get_or "type" Json.null reply >> λ kind.
    if is_text "error" kind
    then (get_or "error" (Json.str "TV command error") reply >> λ e. raised (tv_error e))
    else (get_or "payload" empty reply >> λ result.
        get_or "returnValue" Json.null result >> λ value.
        if is_false value then rejection uri result else ok (some result))

-- One turn of the loop in `request`.
unfoldable pub answer_to : String → String → Json → Outcome (Option Json)
answer_to uid uri reply = get_or "id" Json.null reply >> λ id.
    if not (is_text uid id) then ok none else accepted uri reply

abbrev pub counted : Link → Link
counted l = record l { counter = l.counter + 1 }

unfoldable pub request : String → Json → Io Json
request uri payload l =
    let uid = uid_of (l.counter + 1) in
    (ws_send (request_message uid uri payload) >>= λ _. receive (answer_to uid uri)) (counted l)

abbrev pub closed : Link → Outcome (Unit {0}) → Outcome (Unit {0}) × Link
closed l (raised e) = (raised e, l)
closed l (ok u) = (ok tt, record l { has_ws = false })

unfoldable pub close : Io (Unit {0})
close l =
    if l.has_ws
    then closed (record l { calls = l.calls ++ (ws_close ∷ []) }) l.closing
    else (ok tt, l)

abbrev checked : {A : Type 0} → (Response → Outcome A) → Outcome Response → Outcome A
checked f (raised e) = raised e
checked f (ok r) = if r.is_error then raised client_error else f r

unfoldable pub avr_command : String → Io (Unit {0})
avr_command command l = (
  checked (λ r. ok tt) (next_response l.gets),
  record l { gets = rest l.gets; calls = l.calls ++ (http_get command ∷ []) },
)

abbrev pub AvrState : Type 0
AvrState = Option String × Option String

unfoldable pub zone_state : Element → AvrState
zone_state root = (
  first_text (descend "zone1" (at 1 (children "cmd" root))),
  first_text (descend "source" (descend "zone1" (at 2 (children "cmd" root)))),
)

unfoldable pub avr_state : Io AvrState
avr_state l = (
  checked (λ r. r.root >> λ e. ok (zone_state e)) (next_response l.posts),
  record l { posts = rest l.posts; calls = l.calls ++ (http_post ∷ []) },
)
