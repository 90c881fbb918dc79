-- ===== src/TvControl/Wake.antt =====
-- examples/tv-control/direct_av.py: the wake. The log lines, and the `previous` states that only they
-- need, are left out; of each loop with a deadline, a number is how often its test still holds.
use bazzite_k.Common.{ℕ, zero, suc, Bool, true, false, ◌&&◌, ◌||◌, not, if◌then◌else◌, text_append}
use bazzite_k.Common.Json.{Json, Fields, is_text}
use bazzite_k.TvControl.{
  Error, Outcome, ok, raised, Link, Io, request, connect, close, avr_command, avr_state, AvrState,
  timeout_error, client_error, os_error, parse_error, value_error, tv_error, tv_rejected,
  pairing_required, not_paired, no_key_returned,
}
use bazzite_k.TvControl.Standby.{Config, tv_state, is_some_text, new, closed_after}

-- What the tasks share: two events and the two entries of `status`.
pub record Ready : Type 0 where
  pub receiver_ready : Bool
  pub tv_ready : Bool
  pub tv : Bool
  pub avr : Bool

abbrev pub Task : Type 0
Task = Outcome (Unit {0}) × (Ready × Link)

abbrev pub is_on : AvrState → Bool
is_on (power, source) = is_some_text "ON" power

abbrev pub has_input : Config → AvrState → Bool
has_input c (power, source) = is_some_text c.avr_input source

abbrev pub when : Bool → Io (Unit {0}) → Io (Unit {0})
when t m l = if t then m l else (ok tt, l)

abbrev pub set_avr : Bool → Ready → Ready
set_avr b r = record r { avr = b }

abbrev pub switched : Config → AvrState → Ready → Outcome (Unit {0}) × Link → Task
switched c s r (raised e, l) = (raised e, (r, l))
switched c s r (ok u, l) = (ok tt, (set_avr (is_on s && has_input c s) r, l))

abbrev pub powered : Config → AvrState → Ready → Outcome (Unit {0}) × Link → Task
powered c s r (raised e, l) = (raised e, (r, l))
powered c s r (ok u, l) =
    switched c s (record r { receiver_ready = true })
      (when (is_on s && not (has_input c s)) (avr_command (text_append "SI" c.avr_input)) l)

abbrev pub polled : Config → Ready → Outcome AvrState × Link → Task
polled c r (raised e, l) = (raised e, (r, l))
polled c r (ok s, l) = powered c s r (when (not (is_on s)) (avr_command "PWON") l)

-- `except (aiohttp.ClientError, TimeoutError, ET.ParseError, OSError)`
abbrev pub is_network : Error → Bool
is_network client_error = true
is_network timeout_error = true
is_network parse_error = true
is_network os_error = true
is_network _ = false

abbrev pub retried : (Error → Bool) → (Ready → Ready) → Task → Task
retried f g (raised e, (r, l)) = if f e then (ok tt, (g r, l)) else (raised e, (r, l))
retried f g (ok u, (r, l)) = (ok tt, (r, l))

-- One turn of `receiver`.
unfoldable pub receiver_turn : Config → Ready → Link → Task
receiver_turn c r l = retried is_network (set_avr false) (polled c r (avr_state l))

-- `receiver`, for this many turns.
unfoldable pub receiver : Config → ℕ → Ready → Link → Task
receiver c zero r l = (ok tt, (r, l))
receiver c (suc n) r l =
    let turn = receiver_turn c r l in
    elim turn.0 [ ok u ↦ receiver c n turn.1.0 turn.1.1 | raised e ↦ turn ]

abbrev pub switch_input : Config → Io Json
switch_input c l =
    request "tv/switchInput" (Json.obj (Fields.field "inputId" (Json.str c.tv_input) Fields.end)) l

abbrev pub is_active : Json × Json → Bool
is_active (power, app) = is_text "Active" power

abbrev pub shows : Config → Json × Json → Bool
shows c (power, app) = is_text c.tv_app app

abbrev pub dropped : Ready → Outcome Json × Link → Task
dropped r (raised e, l) = (raised e, (r, l))
dropped r (ok j, l) = (ok tt, (r, l))

abbrev pub with_tv : Config → Json × Json → Ready → Ready
with_tv c s r = record r { tv_ready = r.tv_ready || is_active s; tv = is_active s && shows c s }

abbrev pub seen : Config → Ready → Outcome (Json × Json) × Link → Task
seen c r (raised e, l) = (raised e, (r, l))
seen c r (ok s, l) =
    if is_active s && not (shows c s)
    then dropped (with_tv c s r) (switch_input c l)
    else (ok tt, (with_tv c s r, l))

-- One turn of the inner loop of `television`.
unfoldable pub television_turn : Config → Ready → Link → Task
television_turn c r l = seen c r (tv_state l)

unfoldable pub television_turns : Config → ℕ → Ready → Link → Task
television_turns c zero r l = (ok tt, (r, l))
television_turns c (suc n) r l =
    let turn = television_turn c r l in
    elim turn.0 [ ok u ↦ television_turns c n turn.1.0 turn.1.1 | raised e ↦ turn ]

abbrev pub is_runtime : Error → Bool
is_runtime (tv_error j) = true
is_runtime (tv_rejected uri j) = true
is_runtime pairing_required = true
is_runtime not_paired = true
is_runtime no_key_returned = true
is_runtime _ = false

-- `except (RuntimeError, TimeoutError)`
abbrev pub is_early : Error → Bool
is_early timeout_error = true
is_early e = is_runtime e

-- `except (aiohttp.ClientError, TimeoutError, RuntimeError, ValueError, OSError)`
abbrev pub is_retry : Error → Bool
is_retry client_error = true
is_retry timeout_error = true
is_retry value_error = true
is_retry os_error = true
is_retry e = is_runtime e

abbrev pub early : Outcome Json → Outcome (Unit {0})
early (ok j) = ok tt
early (raised e) = if is_early e then ok tt else raised e

abbrev pub begun : Config → ℕ → Ready → Outcome (Unit {0}) × Link → Task
begun c n r (raised e, l) = (raised e, (r, l))
begun c n r (ok u, l) = television_turns c n r l

abbrev pub connected : Config → ℕ → Ready → Outcome (Unit {0}) × Link → Task
connected c n r (raised e, l) = (raised e, (r, l))
connected c n r (ok u, l) = let first = switch_input c l in begun c n r (early first.0, first.1)

abbrev pub set_tv : Bool → Ready → Ready
set_tv b r = record r { tv = b }

-- `finally: await tv.close()`
abbrev pub and_closed : Task → Task
and_closed (o, (r, l)) = let done = closed_after o (close l) in (done.0, (r, done.1))

-- One turn of the outer loop of `television`: a connection with this many polls.
unfoldable pub television_session : Config → (Json → Json) → Json → ℕ → Ready → Link → Task
television_session c registration_msg key n r l =
    and_closed (
      retried is_retry (set_tv false)
        (connected c n r (connect registration_msg false (new key l))))
