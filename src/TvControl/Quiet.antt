-- ===== src/TvControl/Quiet.antt =====
-- examples/tv-control/sleep_av.py: the calls that put a device in standby, and the actions that make
-- none.
use bazzite_k.Common.{
  zero, suc, ℕ, ◌+◌, ◌≡◌, refl, ap, ◌∙◌, Bool, true, false, Option, none, some, List, [], ◌∷◌, ◌++◌,
  String, if◌then◌else◌, text_eq, arith,
}
use mathlib.Core.List.{append_assoc}
use bazzite_k.Common.Json.{Fields, Json, is_text, lookup}
use bazzite_k.TvControl.{
  Outcome, ok, raised, Link, Io, return, ◌>>=◌, request, Call, avr_command, avr_state, next_send,
  bound, receive, answer_to, counted, request_message, uid_of, sent, empty, opened,
}
use bazzite_k.TvControl.Standby.{Config, tv_state, snapshot, is_target, matches, standby}

abbrev has_uri : String → Option Json → Bool
has_uri uri none = false
has_uri uri (some j) = is_text uri j

-- A call that puts the television or the receiver in standby.
abbrev pub is_standby : Call → ℕ
is_standby (Call.send_json (Json.obj fs)) =
    if has_uri "ssap://system/turnOff" (lookup "uri" fs) then 1 else 0
is_standby (Call.http_get command) = if text_eq command "PWSTANDBY" then 1 else 0
is_standby c = 0

abbrev pub standbys : List Call → ℕ
standbys [] = 0
standbys (c ∷ cs) = is_standby c + standbys cs

pub standbys-append : (cs ds : List Call) → standbys (cs ++ ds) ≡ standbys cs + standbys ds
standbys-append [] ds = omega arith
standbys-append (c ∷ cs) ds = omega (arith, standbys-append cs ds)

-- An action that sends no such call.
abbrev pub Quiet : {A : Type 0} → Io A → Type 0
Quiet m = (l : Link) → standbys (m l).1.calls ≡ standbys l.calls

bound-Quiet :
    {A B : Type 0} (o : Outcome A × Link) (f : A → Io B)
    → ((a : A) → Quiet (f a))
    → standbys (bound o f).1.calls ≡ standbys o.1.calls
bound-Quiet (ok a, l) f h = h a l
bound-Quiet (raised e, l) f h = refl

pub >>=-Quiet :
    {A B : Type 0} (m : Io A) (f : A → Io B) → Quiet m → ((a : A) → Quiet (f a)) → Quiet (m >>= f)
>>=-Quiet m f hm hf l = rw (bound-Quiet (m l) f hf) (hm l)

-- `request` sends one message, whatever comes of it.
request-calls :
    (uri : String) (payload : Json) (l : Link)
    → (request uri payload l).1.calls
      ≡ l.calls ++ (Call.send_json (request_message (uid_of (l.counter + 1)) uri payload) ∷ [])
unfolding request
request-calls uri payload l = step (next_send l.sends)
  where
    step :
        (o : Outcome (Unit {0}))
        → (bound
            (o, sent (request_message (uid_of (l.counter + 1)) uri payload) (counted l))
            (λ u. receive (answer_to (uid_of (l.counter + 1)) uri))).1.calls
          ≡ l.calls ++ (Call.send_json (request_message (uid_of (l.counter + 1)) uri payload) ∷ [])
    step (ok u) = refl
    step (raised e) = refl

power-Quiet : Quiet (request "com.webos.service.tvpower/power/getPowerState" empty)
power-Quiet l =
    rw (request-calls "com.webos.service.tvpower/power/getPowerState" empty l, standbys-append)
      (omega arith)

app-Quiet : Quiet (request "com.webos.applicationManager/getForegroundAppInfo" empty)
app-Quiet l =
    rw (request-calls "com.webos.applicationManager/getForegroundAppInfo" empty l, standbys-append)
      (omega arith)

tv_state-Quiet : Quiet tv_state
unfolding tv_state
tv_state-Quiet l =
    >>=-Quiet (request "com.webos.service.tvpower/power/getPowerState" empty) _ power-Quiet
      (λ power.
        >>=-Quiet (request "com.webos.applicationManager/getForegroundAppInfo" empty) _ app-Quiet
          (λ app k. refl))
      l

avr_state-Quiet : Quiet avr_state
unfolding avr_state
avr_state-Quiet l = rw standbys-append (omega arith)

snapshot-Quiet : Quiet snapshot
unfolding snapshot
snapshot-Quiet l = rw (avr_state-Quiet (tv_state l).1) (tv_state-Quiet l)

pub if-Quiet : {A : Type 0} (t : Bool) (m n : Io A) → Quiet m → Quiet n → Quiet (if t then m else n)
if-Quiet true m n hm hn = hm
if-Quiet false m n hm hn = hn

pub matches-Quiet : (c : Config) (n : ℕ) → Quiet (matches c n)
unfolding matches
matches-Quiet c zero l = refl
matches-Quiet c (suc n) l =
    >>=-Quiet snapshot (λ s. if is_target c s then matches c n else return false) snapshot-Quiet
      (λ s. if-Quiet (is_target c s) (matches c n) (return false) (matches-Quiet c n) (λ k. refl)) l

pub opened-Quiet :
    (o : Outcome (Unit {0})) (l : Link) → standbys (opened o l).1.calls ≡ standbys l.calls
opened-Quiet (ok u) l = refl
opened-Quiet (raised e) l = refl

-- The message that turns the television off.
abbrev pub turn_off : ℕ → Call
turn_off n = Call.send_json (
    Json.obj (
      Fields.field "id" (Json.str (uid_of n)) (
        Fields.field "type" (Json.str "request") (
          Fields.field "uri" (Json.str "ssap://system/turnOff")
            (Fields.field "payload" (Json.obj Fields.end) Fields.end)))))

-- Both commands are sent, whatever comes of the first one.
pub standby-calls :
    (l : Link)
    → (standby l).1.calls ≡ l.calls ++ (turn_off (l.counter + 1) ∷ Call.http_get "PWSTANDBY" ∷ [])
unfolding standby avr_command
standby-calls l =
    ap (λ cs. cs ++ (Call.http_get "PWSTANDBY" ∷ [])) (request-calls "system/turnOff" empty l)
    ∙ append_assoc l.calls _ _
