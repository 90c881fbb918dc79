-- ===== src/TvControl/Examples.antt =====
-- examples/tv-control: concrete connections, and the theorems at them.
use bazzite_k.Common.{
  ◌≡◌, refl, ◌+◌, Bool, true, false, Option, none, some, [], ◌∷◌, ◌++◌, String, arith, decimal,
}
use bazzite_k.Common.Json.{Json, Fields}
use bazzite_k.Common.Xml.{Element, Elements}
use bazzite_k.TvControl.{
  Error, Outcome, ok, raised, Link, Response, Call, request, connect, receive_until, registration,
  answer_to, accepted, close, avr_state, avr_command, zone_state, empty, uid_of, request_message,
}
use bazzite_k.TvControl.Replies.{Answered, request-Answered}
use bazzite_k.TvControl.Registered.{Registered, connect_registered}
use bazzite_k.TvControl.Standby.{
  Config, Snapshot, snapshot, tv_state, is_target, matches, standby, guarded_off, attempt, run, new,
}
use bazzite_k.TvControl.Quiet.{standbys, turn_off}
use bazzite_k.TvControl.Target.{Approved}
use bazzite_k.TvControl.Guarded.{guarded_off_both}
use bazzite_k.TvControl.Attempt.{run_returns}
use bazzite_k.TvControl.Allowed.{run_standby, IsAllowed}

abbrev pub one : String → Json → Json
one k v = Json.obj (Fields.field k v Fields.end)

abbrev pub reply : String → Json → Outcome Json
reply uid payload = ok (
    Json.obj (
      Fields.field "id" (Json.str uid)
        (Fields.field "type" (Json.str "response") (Fields.field "payload" payload Fields.end))))

abbrev pub registered_message : Outcome Json
registered_message = ok (
    Json.obj (
      Fields.field "type" (Json.str "registered")
        (Fields.field "payload" (one "client-key" (Json.str "secret")) Fields.end)))

abbrev pub power : Json
power = one "state" (Json.str "Active")

abbrev pub app : Json
app = one "appId" (Json.str "hdmi1")

abbrev done : Json
done = one "returnValue" (Json.bool true)

abbrev pub cmd : Elements → Element
cmd es = Element.element "cmd" "" es

-- The receiver is on, at the input GAME.
abbrev pub zones : Response
zones = record {
  is_error = false;
  root = ok (
      Element.element "rx" "" (
        Elements.cons (cmd (Elements.cons (Element.element "zone1" "ON" Elements.nil) Elements.nil))
          (Elements.cons
            (cmd (
              Elements.cons
                (Element.element "zone1" ""
                  (Elements.cons (Element.element "source" "GAME" Elements.nil) Elements.nil))
                Elements.nil))
            Elements.nil)));
}

abbrev pub settings : Config
settings = record { tv_app = "hdmi1"; tv_input = "HDMI_1"; avr_input = "GAME" }

-- Before `run`.
abbrev pub idle : Link
idle = record {
  has_ws = false;
  key = Json.null;
  counter = 0;
  connecting = ok tt;
  sends = [];
  inbox =
      registered_message
      ∷ reply "moonmachine-1" power
      ∷ reply "moonmachine-2" app
      ∷ reply "moonmachine-3" power
      ∷ reply "moonmachine-4" app
      ∷ reply "moonmachine-5" done
      ∷ [];
  closing = ok tt;
  posts = ok zones ∷ ok zones ∷ [];
  gets = ok zones ∷ [];
  calls = [];
}

abbrev pub registration_msg : Json → Json
registration_msg key = one "type" (Json.str "register")

abbrev ready : Link
ready = (connect registration_msg false (new (Json.str "secret") idle)).1

abbrev middle : Link
middle = (snapshot ready).1

abbrev checked : Link
checked = (snapshot middle).1

abbrev on_target : Snapshot
on_target = ((Json.str "Active", Json.str "hdmi1"), (some "ON", some "GAME"))

abbrev stored : Option Json
stored = some (one "client_key" (Json.str "secret"))

-- The whole run: both devices are put in standby.
whole_run :
    ((run settings registration_msg false stored idle).0 ≡ ok true)
    × (standbys (run settings registration_msg false stored idle).1.calls ≡ 2)
    × (standbys (run settings registration_msg true stored idle).1.calls ≡ 0)
unfolding run attempt connect request receive_until registration answer_to accepted guarded_off
    matches standby snapshot tv_state avr_state zone_state is_target avr_command close decimal
whole_run = (refl, refl, refl)

run_standby_example : IsAllowed settings registration_msg false stored idle
run_standby_example =
    run_standby settings registration_msg false stored idle (λ key. refl)
      (λ e. omega (arith, e, whole_run.1))

run_returns_example : (b : Bool) × ((run settings registration_msg false none idle).0 ≡ ok b)
run_returns_example = run_returns settings registration_msg false none idle

abbrev stuck : Link
stuck = record idle { inbox = []; closing = raised Error.client_error }

two_snapshots : Approved settings ready checked
unfolding connect request receive_until registration answer_to accepted snapshot tv_state avr_state
    zone_state decimal
two_snapshots = (on_target, middle, on_target, refl, refl, refl, refl)

both_off : standbys (guarded_off settings false ready).1.calls ≡ 2
unfolding connect request receive_until registration answer_to accepted guarded_off matches standby
    snapshot tv_state avr_state zone_state is_target avr_command decimal
both_off = refl

none_yet : standbys ready.calls ≡ 0
unfolding connect request receive_until registration answer_to accepted
none_yet = refl

guarded_off_both_example :
    (standbys checked.calls ≡ standbys ready.calls)
    × ((guarded_off settings false ready).1.calls
        ≡ checked.calls ++ (turn_off (checked.counter + 1) ∷ Call.http_get "PWSTANDBY" ∷ []))
guarded_off_both_example = guarded_off_both settings ready checked two_snapshots

-- A message with another id comes before the reply.
abbrev two_messages : Link
two_messages = record idle { inbox = reply "other" empty ∷ reply "moonmachine-1" power ∷ [] }

request-Answered_example :
    Answered (uid_of 1) power two_messages.inbox []
    × (1 ≡ two_messages.counter + 1)
    × ((request "x" empty two_messages).1.calls
        ≡ Call.send_json (request_message (uid_of 1) "x" empty) ∷ [])
unfolding request receive_until answer_to accepted decimal
request-Answered_example =
    request-Answered "x" empty power two_messages (request "x" empty two_messages).1 refl

connect_registered_example :
    Registered false idle.key (Json.str "secret") idle.inbox ready.inbox × (true ≡ true)
unfolding connect receive_until registration
connect_registered_example =
    connect_registered registration_msg false idle (connect registration_msg false idle).1 refl
