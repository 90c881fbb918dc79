-- ===== src/TvControl/Standby.antt =====
-- examples/tv-control/sleep_av.py: standby of the television and the receiver before the PC sleeps.
-- Of two calls that `gather` runs at the same time, the television's is written first; they share
-- nothing but the list of calls. If both fail, the exception here is the television's.
use bazzite_k.Common.{
  zero, suc, ℕ, Bool, true, false, ◌&&◌, ◌||◌, not, Option, none, some, String, if◌then◌else◌,
  text_eq,
}
use bazzite_k.Common.Json.{Json, is_text, index, truthy}
use bazzite_k.TvControl.{
  Outcome, ok, raised, Link, Io, return, ◌>>=◌, ◌>>◌, get_or, lift, empty, request, connect, close,
  avr_command, avr_state, AvrState, cancelled, timeout_error, os_error, value_error,
}

-- The settings of /etc/moonmachine/av.json.
pub record Config : Type 0 where
  pub tv_app : String
  pub tv_input : String
  pub avr_input : String

abbrev pub Snapshot : Type 0
Snapshot = (Json × Json) × AvrState

abbrev pub both : {A B : Type 0} → Outcome A → Outcome B → Outcome (A × B)
both (raised e) o = raised e
both (ok a) (raised e) = raised e
both (ok a) (ok b) = ok (a, b)

-- `asyncio.gather`
abbrev pub gather : {A B : Type 0} → Io A → Io B → Io (A × B)
gather m n l = let first = m l in let second = n first.1 in (both first.0 second.0, second.1)

unfoldable pub tv_state : Io (Json × Json)
tv_state l =
    (request "com.webos.service.tvpower/power/getPowerState" empty >>= λ power.
    request "com.webos.applicationManager/getForegroundAppInfo" empty >>= λ app. λ k. (
      (get_or "state" Json.null power >> λ state.
          get_or "appId" Json.null app >> λ id. ok (state, id)),
      k,
    ))
      l

unfoldable pub snapshot : Io Snapshot
snapshot l = gather tv_state avr_state l

abbrev pub is_some_text : String → Option String → Bool
is_some_text t none = false
is_some_text t (some s) = text_eq s t

-- `state == TARGET`
unfoldable pub is_target : Config → Snapshot → Bool
is_target c ((power, app), (avr_zone, source)) =
    is_text "Active" power
    && (is_text c.tv_app app && (is_some_text "ON" avr_zone && is_some_text c.avr_input source))

-- The loop over the snapshots: false is its early return.
unfoldable pub matches : Config → ℕ → Io Bool
matches c zero l = (ok true, l)
matches c (suc n) l = (snapshot >>= λ s. if is_target c s then matches c n else return false) l

abbrev pub is_ok : {A : Type 0} → Outcome A → Bool
is_ok (ok a) = true
is_ok (raised e) = false

abbrev pub is_cancelled : {A : Type 0} → Outcome A → Bool
is_cancelled (raised cancelled) = true
is_cancelled o = false

-- `gather` with `return_exceptions`: only the end of the time budget ends it.
abbrev pub settled : {A B : Type 0} → Outcome A → Outcome B → Outcome Bool
settled o p = if is_cancelled o || is_cancelled p then raised cancelled else ok (is_ok o && is_ok p)

unfoldable pub standby : Io Bool
standby l =
    let tv = request "system/turnOff" empty l in
    let receiver = avr_command "PWSTANDBY" tv.1 in (settled tv.0 receiver.0, receiver.1)

unfoldable pub guarded_off : Config → Bool → Io Bool
guarded_off c check_only l =
    (matches c 2 >>= λ same.
    if not same then return false else if check_only then return true else standby)
      l

abbrev pub closed_after : {A : Type 0} → Outcome A → Outcome (Unit {0}) × Link → Outcome A × Link
closed_after o (ok u, l) = (o, l)
closed_after o (raised e, l) = (raised e, l)

-- `try … finally: await tv.close()`
abbrev pub closing : {A : Type 0} → Io A → Io A
closing m l = let done = m l in closed_after done.0 (close done.1)

-- `async with asyncio.timeout(CHECK_BUDGET)`
abbrev pub budget : {A : Type 0} → Outcome A → Outcome A
budget o = if is_cancelled o then raised timeout_error else o

abbrev pub or_false : Outcome Bool → Outcome Bool
or_false (raised e) = ok false
or_false (ok b) = ok b

-- `except Exception`
abbrev pub except_false : Outcome Bool → Outcome Bool
except_false o = if is_cancelled o then o else or_false o

-- The key of the file, which is none if it cannot be read or parsed.
abbrev pub stored_key : Option Json → Outcome Json
stored_key none = raised os_error
stored_key (some j) =
    lift (index "client_key" j) >> λ key. if truthy key then ok key else raised value_error

-- A new TVConnection.
abbrev pub new : Json → Link → Link
new key l = record l { has_ws = false; key = key; counter = 0 }

unfoldable pub attempt : Config → (Json → Json) → Bool → Outcome Json → Io Bool
attempt c registration_msg check_only (raised e) l = (raised e, l)
attempt c registration_msg check_only (ok key) l =
    let done =
      closing (connect registration_msg false >>= λ u. guarded_off c check_only) (new key l) in
    (budget done.0, done.1)

unfoldable pub run : Config → (Json → Json) → Bool → Option Json → Io Bool
run c registration_msg check_only stored l =
    let done = attempt c registration_msg check_only (stored_key stored) l in
    (except_false done.0, done.1)
