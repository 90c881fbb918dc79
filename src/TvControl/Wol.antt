-- ===== src/TvControl/Wol.antt =====
-- examples/tv-control/direct_av.py: `tv_wol`, and the task that calls it.
use bazzite_k.Common.{
  ℕ, ◌==◌, zero, suc, Bool, true, false, not, Option, none, some, List, [], ◌∷◌, ◌++◌, String,
  if◌then◌else◌, length,
}
use bazzite_k.Common.Json.{Json, index, contains_key}
use bazzite_k.Common.Hex.{from_hex}
use bazzite_k.TvControl.{Outcome, ok, raised, lift, value_error}

-- The commands and packets of `tv_wol`.
pub data Wol : Type 0 where
  route_get : Wol
  neigh_replace : Json → Wol  -- the device
  sendto : List ℕ → String → Wol

abbrev pub Sent : Type 0
Sent = Outcome (Unit {0}) × List Wol

-- `text.replace(c, '')`
abbrev pub remove : ℕ → List ℕ → List ℕ
remove c [] = []
remove c (x ∷ xs) = let others = remove c xs in if x == c then others else x ∷ others

abbrev pub repeat : ℕ → List ℕ → List ℕ
repeat zero b = []
repeat (suc n) b = b ++ repeat n b

abbrev pub magic : List ℕ → List ℕ
magic mac = repeat 6 (255 ∷ []) ++ repeat 16 mac

-- What the network and the commands answer: the first route, the second command, the socket.
pub record Host : Type 0 where
  pub route : Outcome Json
  pub neigh : Outcome (Unit {0})
  pub socket : Outcome (Unit {0})

-- The settings of the television's network.
pub record Network : Type 0 where
  pub tv_mac : List ℕ
  pub tv_address : String
  pub broadcast_address : String
  pub unicast_wake : Bool

-- Everything up to the socket; the text is the target.
abbrev pub Target : Type 0
Target = Outcome String × List Wol

abbrev pub replaced : Network → Json → Outcome (Unit {0}) → Target
replaced n dev (raised e) = (raised e, route_get ∷ neigh_replace dev ∷ [])
replaced n dev (ok u) = (ok n.tv_address, route_get ∷ neigh_replace dev ∷ [])

abbrev pub pin : Network → Host → Outcome Json → Target
pin n host (raised e) = (raised e, route_get ∷ [])
pin n host (ok dev) = replaced n dev host.neigh

abbrev pub routed : Network → Host → Json → Outcome Bool → Target
routed n host route (raised e) = (raised e, route_get ∷ [])
routed n host route (ok true) = (raised value_error, route_get ∷ [])
routed n host route (ok false) = pin n host (lift (index "dev" route))

abbrev pub unicast : Network → Host → Outcome Json → Target
unicast n host (raised e) = (raised e, route_get ∷ [])
unicast n host (ok route) = routed n host route (lift (contains_key "gateway" route))

unfoldable pub wol_target : Network → Host → Target
wol_target n host =
    if n.unicast_wake then unicast n host host.route else (ok n.broadcast_address, [])

abbrev pub send_magic : List ℕ → Host → Target → Sent
send_magic mac host (raised e, before) = (raised e, before)
send_magic mac host (ok target, before) = (host.socket, before ++ (sendto (magic mac) target ∷ []))

abbrev pub with_mac : Network → Host → Option (List ℕ) → Sent
with_mac n host none = (raised value_error, [])
with_mac n host (some mac) =
    if not (length mac == 6)
    then (raised value_error, [])
    else send_magic mac host (wol_target n host)

unfoldable pub tv_wol : Network → Host → Sent
tv_wol n host = with_mac n host (from_hex (remove b'-' (remove b':' n.tv_mac)))

abbrev then_sent : Sent → Sent → Sent
then_sent (raised e, ws) later = (raised e, ws)
then_sent (ok u, ws) later = (later.0, ws ++ later.1)

-- The task `wol` after the receiver has answered: at each turn, whether the television is ready, and
-- what the commands answer.
unfoldable pub wol : Network → List (Bool × Host) → Sent
wol n [] = (ok tt, [])
wol n ((is_ready, host) ∷ turns) =
    let later = wol n turns in if is_ready then (ok tt, []) else then_sent (tv_wol n host) later
