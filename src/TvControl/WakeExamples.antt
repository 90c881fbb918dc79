-- ===== src/TvControl/WakeExamples.antt =====
-- examples/tv-control/direct_av.py: a wake, and the theorems at it.
use bazzite_k.Common.{ℕ, ◌≡◌, refl, ◌+◌, Bool, true, false, none, List, [], ◌∷◌, ◌++◌, All, arith}
use bazzite_k.Common.Bytes.{bytes}
use bazzite_k.Common.Hex.{from_hex}
use bazzite_k.Common.Json.{Json, Fields}
use bazzite_k.TvControl.{Outcome, Error, ok, raised, Link}
use bazzite_k.TvControl.Wol.{Network, Host, Wol, sendto, neigh_replace, magic, tv_wol, wol_target}
use bazzite_k.TvControl.Wake.{Ready}
use bazzite_k.TvControl.Packet.{IsSound, tv_wol-IsSound}
use bazzite_k.TvControl.Supervisor.{
  Sample, supervise, Settled, Ends, supervise_returns, supervise-Ends,
}
use bazzite_k.TvControl.Examples.{registered_message, idle, reply, power, app, one}

abbrev network : Network
network = record {
  tv_mac = bytes "0a:1b:2c:3d:4e:5f";
  tv_address = "10.0.0.5";
  broadcast_address = "10.0.0.255";
  unicast_wake = true;
}

abbrev host : Host
host = record { route = ok (one "dev" (Json.str "wlan0")); neigh = ok tt; socket = ok tt }

abbrev routed : Host
routed = record host { route = ok (one "gateway" (Json.str "10.0.0.1")) }

abbrev mac : List ℕ
mac = 0x0a ∷ 0x1b ∷ 0x2c ∷ 0x3d ∷ 0x4e ∷ 0x5f ∷ []

-- On the own subnet, and through a router.
two_wakes :
    ((tv_wol network host).1
      ≡ Wol.route_get ∷ neigh_replace (Json.str "wlan0") ∷ sendto (magic mac) "10.0.0.5" ∷ [])
    × (tv_wol network routed ≡ (raised Error.value_error, Wol.route_get ∷ []))
unfolding tv_wol wol_target from_hex
two_wakes = (refl, refl)

tv_wol-IsSound_example : All (IsSound network host) (tv_wol network host).1
tv_wol-IsSound_example = tv_wol-IsSound network host

abbrev broadcast : Network
broadcast = record network { unicast_wake = false }

abbrev waiting : Ready
waiting = record { receiver_ready = false; tv_ready = false; tv = false; avr = false }

abbrev playing : Link
playing = record idle { inbox = reply "moonmachine-1" power ∷ reply "moonmachine-2" app ∷ [] }

abbrev turn : ℕ → Bool → Sample
turn t b = record { now = t; later = t + 1; failure = none; tv = true; avr = b }

-- The receiver falls back once, and then both stay for five seconds.
abbrev turns : List Sample
turns = turn 0 true ∷ turn 2000 false ∷ turn 3000 true ∷ turn 5000 true ∷ turn 8000 true ∷ []

supervise_returns_example : Settled 90000 turns
unfolding supervise
supervise_returns_example = supervise_returns 90000 turns refl

supervise-Ends_example : Ends (supervise 90000 none (turns ++ (turn 90000 false ∷ [])))
supervise-Ends_example = supervise-Ends 90000 none turns (turn 90000 false) [] (omega arith)

abbrev prompt : Outcome Json
prompt = ok (
    Json.obj (
      Fields.field "type" (Json.str "response")
        (Fields.field "payload" (one "pairingType" (Json.str "PROMPT")) Fields.end)))

abbrev pairing : Link
pairing = record idle { inbox = prompt ∷ registered_message ∷ [] }
