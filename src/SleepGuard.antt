-- ===== src/SleepGuard.antt =====
-- files/usr/libexec/steam-inhibitor-guard.py: `class Guard`. A method returns the new fields and
-- the calls that it makes to GLib, libsoup and logging, in order. What those libraries answer is
-- an argument: a Result where the call may raise, and `is_open` for the state of a websocket.
pub mod World
pub mod Invariant
pub mod Reachable
pub mod Progress
pub mod Reports
pub mod Stale
pub mod Page
mod Examples
use bazzite_k.Common.{
  ℕ, ◌+◌, Bool, true, false, ◌&&◌, ◌||◌, not, Option, none, some, List, [], ◌∷◌, ◌++◌, String, ◌==◌,
  if◌then◌else◌, Result, ok, err, ◌>>=◌, text_eq, text_append, split, has_part,
}
use bazzite_k.Common.Bytes.{bytes}
use bazzite_k.Common.Json.{
  Json, Items, null, str, arr, obj, nil, cons, end, get, index, contains_key, is_text, is_one,
  truthy, quoted, type_name,
}

pub record Guard : Type 0 where
  pub busy : Bool
  pub generation : ℕ
  pub resync : Bool
  pub socket : Option ℕ  -- a websocket, by its number
  pub last_report : Option String

-- The fields that `__init__` sets.
unfoldable pub new : Guard
new = record { busy = false; generation = 0; resync = false; socket = none; last_report = none }

pub data Effect : Type 0 where
  http_get : ℕ → Effect  -- send_and_read_async, then `targets` for this generation
  start_timer : ℕ → Effect  -- timeout_add_seconds(4, self.timeout, generation)
  idle_sync : Effect  -- idle_add(self.sync)
  websocket_connect : Json → ℕ → Effect  -- to this address, then `connected`
  attach : ℕ → ℕ → Effect  -- "message" and "error" of this websocket go to this generation
  evaluate : ℕ → Bool → Effect  -- the script, with BLOCKED replaced, as request 1 to the websocket
  close : ℕ → String → Effect  -- close(1000, reason)
  info : String → Effect  -- logging.info

abbrev pub Outcome : Type 0
Outcome = Guard × List Effect

-- The value of BlockInhibited, as characters, holds "sleep" among its parts.
unfoldable pub blocked : List ℕ → Bool
blocked value = has_part (bytes "sleep") (split b':' value)

unfoldable pub sync : Guard → Outcome
sync g = if g.busy then (record g { resync = true }, []) else (
  record g { busy = true; generation = g.generation + 1 },
  http_get (g.generation + 1) ∷ start_timer (g.generation + 1) ∷ [],
)

-- `generation != self.generation or not self.busy`
unfoldable pub is_stale : ℕ → Guard → Bool
is_stale generation g = not (generation == g.generation) || not g.busy

close_open : (ℕ → Bool) → Option ℕ → List Effect
close_open is_open none = []
close_open is_open (some ws) = if is_open ws then close ws "complete" ∷ [] else []

-- `report != self.last_report`
is_news : String → Option String → Bool
is_news report none = true
is_news report (some last) = not (text_eq report last)

unfoldable pub finish : (ℕ → Bool) → ℕ → String → Guard → Outcome
unfolding is_stale close_open is_news
finish is_open generation report g = if is_stale generation g then (g, []) else (
  record {
    busy = false;
    generation = g.generation;
    resync = false;
    socket = none;
    last_report = if is_news report g.last_report then some report else g.last_report;
  },
  close_open is_open g.socket
      ++ ((if is_news report g.last_report then info report ∷ [] else [])
          ++ (if g.resync then idle_sync ∷ [] else [])),
)

unfoldable pub timeout : (ℕ → Bool) → ℕ → Guard → Outcome
timeout is_open generation g =
    if g.busy && generation == g.generation
    then finish is_open generation "Steam connection timed out" g
    else (g, [])

abbrev has_title : Option Json → Bool
has_title none = false
has_title (some j) = is_text "SharedJSContext" j

-- The generator in `targets`: the first target of that title, or StopIteration, which has no text.
unfoldable pub find_target : Items → Result Json
find_target nil = err ""
find_target (cons t ts) =
    let rest = find_target ts in get "title" t >>= λ title. if has_title title then ok t else rest

-- `for t in targets`: a dict gives its keys and a text its characters, which have no `get`.
unfoldable pub shared_context : Json → Result Json
unfolding find_target
shared_context (arr ts) = find_target ts
shared_context (obj end) = err ""
shared_context (obj fs) = get "title" (str "") >>= λ title. err ""
shared_context (str s) = if text_eq s "" then err "" else (get "title" (str s) >>= λ title. err "")
shared_context j = err (text_append (quoted (type_name j)) " object is not iterable")

-- The `try` in `targets`: the address that the websocket is opened to. `start` is what
-- `Soup.Message.new` and `websocket_connect_async` do with it.
unfoldable pub target_address : Result Json → (Json → Result (Unit {0})) → Result Json
unfolding shared_context
target_address reply start = reply >>= λ ts.
    shared_context ts >>= λ t. index "webSocketDebuggerUrl" t >>= λ url. start url >>= λ _. ok url

unfoldable pub open_socket : (ℕ → Bool) → ℕ → Guard → Result Json → Outcome
open_socket is_open generation g (ok url) = (g, websocket_connect url generation ∷ [])
open_socket is_open generation g (err e) =
    finish is_open generation (text_append "Steam unavailable: " e) g

-- `reply` is the parsed answer of the targets request.
unfoldable pub targets : (ℕ → Bool) → Result Json → (Json → Result (Unit {0})) → ℕ → Guard → Outcome
targets is_open reply start generation g =
    if is_stale generation g
    then (g, [])
    else open_socket is_open generation g (target_address reply start)

-- The socket is taken and its signals are attached before `self.blocked()` is called, which may
-- raise.
unfoldable pub take_socket : (ℕ → Bool) → ℕ → Result (List ℕ) → ℕ → Guard → Outcome
take_socket is_open ws (ok value) generation g =
    (record g { socket = some ws }, attach ws generation ∷ evaluate ws (blocked value) ∷ [])
take_socket is_open ws (err e) generation g =
    let (g', effects) = finish is_open generation e (record g { socket = some ws }) in
    (g', attach ws generation ∷ effects)

-- `opened` is what `websocket_connect_finish` returns, and `inhibited` the value of BlockInhibited.
unfoldable pub connected : (ℕ → Bool) → Result ℕ → Result (List ℕ) → ℕ → Guard → Outcome
connected is_open (err e) inhibited generation g = finish is_open generation e g
connected is_open (ok ws) inhibited generation g =
    if is_stale generation g
    then (g, close ws "stale request" ∷ [])
    else take_socket is_open ws inhibited generation g

abbrev or_default : Option Json → Json → Json
or_default none d = d
or_default (some j) d = j

-- `"error" in reply or "exceptionDetails" in result`, in order
abbrev rejected : Json → Json → Result Bool
rejected reply result = contains_key "error" reply >>= λ failed.
    if failed then ok true else contains_key "exceptionDetails" result

abbrev verdict : Json → Result (Option String)
verdict result = index "result" result >>= λ value. index "value" value >>= λ v.
    index "blocked" v >>= λ b.
    ok (some (if truthy b then "Steam sleep guard active" else "Steam sleep guard released"))

abbrev judge : Json → Json → Result (Option String)
judge reply result = rejected reply result >>= λ bad.
    if bad then err "Steam rejected suspend guard" else verdict result

-- The body of the `try` in `message`: what to report, or none for a message that is no answer to
-- request 1.
unfoldable pub reply_report : Json → Result (Option String)
reply_report reply = get "id" reply >>= λ id.
    if not (is_one (or_default id null))
    then ok none
    else (get "result" reply >>= λ result. judge reply (or_default result (obj end)))

unfoldable pub end_by : (ℕ → Bool) → ℕ → Guard → Result (Option String) → Outcome
end_by is_open generation g (ok none) = (g, [])
end_by is_open generation g (ok (some report)) = finish is_open generation report g
end_by is_open generation g (err e) = finish is_open generation e g

unfoldable pub message : (ℕ → Bool) → Result Json → ℕ → Guard → Outcome
message is_open reply generation g =
    if is_stale generation g then (g, []) else end_by is_open generation g (reply >>= reply_report)
