-- ===== src/TvControl/Replies.antt =====
-- examples/tv-control/direct_av.py: what `request` makes of the messages of the television.
use bazzite_k.Common.{
  ◌+◌, ◌≡◌, ◌≢◌, ap, sym, true, false, Bool-cases, not, Option, none, some, List, [], ◌∷◌, ◌++◌,
  map, String, All, inl, inr, if◌then◌else◌,
}
use bazzite_k.Common.Json.{Json, is_text}
use bazzite_k.TvControl.{
  Outcome, ok, Call, Link, answer_to, request, rejection, accepted, is_false, tv_error, get_or,
  empty, uid_of, request_message, next_send, sent, counted, receive, ws_send,
}
use bazzite_k.TvControl.Waiting.{
  Found, receive_until-found, receive_until-finds, >>-ok, if-ne, raises_last, not-false, bound-ok,
}

-- A message with another id, or with none.
abbrev pub IsOther : String → Json → Type 0
IsOther uid j = (id : Json) × (get_or "id" Json.null j ≡ ok id) × (is_text uid id ≡ false)

-- A message that is no error, with the payload `v`, which does not say that it failed.
abbrev pub IsAccepted : Json → Json → Type 0
IsAccepted v j =
    ((kind : Json) × (get_or "type" Json.null j ≡ ok kind) × (is_text "error" kind ≡ false))
    × (get_or "payload" empty j ≡ ok v)
    × ((value : Json) × (get_or "returnValue" Json.null v ≡ ok value) × (is_false value ≡ false))

-- An accepted message with this id.
abbrev pub IsReply : String → Json → Json → Type 0
IsReply uid v j =
    ((id : Json) × (get_or "id" Json.null j ≡ ok id) × (is_text uid id ≡ true)) × IsAccepted v j

rejection-ne : (uri : String) (result : Json) (v : Option Json) → rejection uri result ≢ ok v
rejection-ne uri result v h =
    let (code, is_code, h1) = >>-ok {A = Json} (get_or "errorCode" Json.null result) _ v h in
    raises_last {A = Json} _ _ v h1

accepted-IsAccepted :
    (uri : String) (v : Option Json) (reply : Json)
    → accepted uri reply ≡ ok v
    → (result : Json) × (v ≡ some result) × IsAccepted result reply
unfolding accepted
accepted-IsAccepted uri v reply h =
    let (kind, is_kind, h1) = >>-ok {A = Json} _ _ v h in
    let (t1, h2) = if-ne _ _ _ (ok v) (raises_last {A = Json} _ tv_error v) h1 in
    let (result, is_result, h3) = >>-ok {A = Json} _ _ v h2 in
    let (value, is_value, h4) = >>-ok {A = Json} _ _ v h3 in
    let (t2, h5) = if-ne _ _ _ (ok v) (rejection-ne uri result v) h4 in
    let same : v ≡ some result = cc in
    (result, same, ((kind, is_kind, t1), is_result, (value, is_value, t2)))

none-ne : {A : Type 0} (a : A) → Option.none ≢ Option.some a
none-ne a h = cc

answer_to-IsOther : (uid uri : String) (j : Json) → answer_to uid uri j ≡ ok none → IsOther uid j
unfolding answer_to
answer_to-IsOther uid uri j h =
    let (id, is_id, h1) =
      >>-ok (get_or "id" Json.null j)
        (λ id. if not (is_text uid id) then ok none else accepted uri j) _ h in
    elim (Bool-cases (is_text uid id)) [
      | inr f ↦ (id, is_id, f)
      | inl t ↦
          let last : accepted uri j ≡ ok none = rw t at h1 in
          let (r, bad, more) = accepted-IsAccepted uri none j last in absurd (none-ne r bad)
    ]

answer_to-IsReply :
    (uid uri : String) (v j : Json) → answer_to uid uri j ≡ ok (some v) → IsReply uid v j
unfolding answer_to
answer_to-IsReply uid uri v j h =
    let (id, is_id, h1) = >>-ok {A = Json} _ _ (some v) h in
    let (t, h2) = if-ne {A = Outcome (Option Json)} _ (ok none) _ (ok (some v)) (λ q. cc) h1 in
    let (r, same, more) = accepted-IsAccepted uri (some v) j h2 in
    let eq : r ≡ v = cc in ((id, is_id, not-false _ t), rw eq at more)

-- The messages of a wait that returned `v`: others, then the reply, then those still unread.
pub data Answered (uid : String) (v : Json) (js : List (Outcome Json)) (later : List (Outcome Json))
    : Type 0 where
  answered :
      (before : List Json) (reply : Json)
      → js ≡ map ok before ++ (ok reply ∷ later)
      → All (IsOther uid) before
      → IsReply uid v reply
      → Answered uid v js later

others :
    (uid uri : String) (js : List Json)
    → All (λ k. answer_to uid uri k ≡ ok none) js
    → All (IsOther uid) js
others uid uri [] h = tt
others uid uri (j ∷ js) h = (answer_to-IsOther uid uri j h.0, others uid uri js h.1)

found-Answered :
    (uid uri : String) (v : Json) (js later : List (Outcome Json))
    → Found (answer_to uid uri) v js later
    → Answered uid v js later
found-Answered uid uri v js later (Found.found before j e s t) =
    Answered.answered before j e (others uid uri before s) (answer_to-IsReply uid uri v j t)

-- If `request` returns a value, it has sent one message with a fresh id and then read messages up to
-- the first one with that id, which was not an error and whose payload is the value.
pub request-Answered :
    (uri : String) (payload v : Json) (l m : Link)
    → request uri payload l ≡ (ok v, m)
    → Answered (uid_of (l.counter + 1)) v l.inbox m.inbox
      × (m.counter ≡ l.counter + 1)
      × (m.calls
          ≡ l.calls ++ (Call.send_json (request_message (uid_of (l.counter + 1)) uri payload) ∷ []))
unfolding request
request-Answered uri payload v l m h =
    let uid = uid_of (l.counter + 1) in
    let (u, k, first, second) =
      bound-ok (ws_send (request_message uid uri payload)) (λ _. receive (answer_to uid uri)) v
        (counted l) m h in
    let is_sent : sent (request_message uid uri payload) (counted l) ≡ k = ap (λ p. p.1) first in
    let whole : receive (answer_to uid uri) (sent (request_message uid uri payload) (counted l))
        ≡ (ok v, m) =
      rw (sym is_sent) at second in
    (
      found-Answered uid uri v l.inbox m.inbox (
          receive_until-found (answer_to uid uri) v l.inbox m.inbox
            (λ i. ((whole i).0, (whole i).1.inbox))),
      sym (ap (λ p. p.1.counter) whole),
      sym (ap (λ p. p.1.calls) whole),
    )

IsOther-answer_to : (uid uri : String) (j : Json) → IsOther uid j → answer_to uid uri j ≡ ok none
unfolding answer_to
IsOther-answer_to uid uri j (id, is_id, f) = rw (is_id, f)

IsReply-answer_to :
    (uid uri : String) (v j : Json) → IsReply uid v j → answer_to uid uri j ≡ ok (some v)
unfolding answer_to accepted
IsReply-answer_to uid uri v j ((id, is_id, t), ((kind, is_kind, f), is_v, (value, is_value, g))) =
    rw (is_id, t, is_kind, f, is_v, is_value, g)

IsOther-all :
    (uid uri : String) (js : List Json)
    → All (IsOther uid) js
    → All (λ k. answer_to uid uri k ≡ ok none) js
IsOther-all uid uri [] h = tt
IsOther-all uid uri (j ∷ js) h = (IsOther-answer_to uid uri j h.0, IsOther-all uid uri js h.1)

-- If sending succeeds and, before the timeout, the television answers with this id, no error and a
-- payload that does not say that it failed, `request` returns this payload, whatever messages with
-- other ids come before.
pub request_returns :
    (uri : String) (payload v : Json) (l : Link) (later : List (Outcome Json))
    → next_send l.sends ≡ ok tt
    → Answered (uid_of (l.counter + 1)) v l.inbox later
    → (request uri payload l).0 ≡ ok v
unfolding request
request_returns uri payload v l later s (Answered.answered before reply e others r) =
    let uid = uid_of (l.counter + 1) in
    rw (
      s,
      e,
      receive_until-finds (answer_to uid uri) v before reply later
          (IsOther-all uid uri before others) (IsReply-answer_to uid uri v reply r),
    )
