-- ===== src/SleepGuard/World.antt =====
-- The GLib main loop round the guard: the callbacks that are registered, and any one of them that
-- comes next, with any answer of the libraries. Sources that return False, and completions of
-- asynchronous calls, are gone once they have run; the signals of a websocket stay.
use bazzite_k.Common.{
  arith, ℕ, ◌+◌, ◌≡◌, Bool, true, false, List, [], ◌∷◌, ◌++◌, String, Result, ltb, ◌==◌,
}
use bazzite_k.Common.Json.{Json}
use bazzite_k.SleepGuard.{
  Guard, Effect, Outcome, new, sync, timeout, targets, connected, message, finish,
}

pub data Callback : Type 0 where
  http_reply : ℕ → Callback  -- `targets`
  opened : ℕ → Callback  -- `connected`
  timer : ℕ → Callback  -- `timeout`
  idle : Callback  -- `sync`
  on_message : ℕ → ℕ → Callback  -- of a websocket, `message`
  on_error : ℕ → ℕ → Callback  -- of a websocket, `finish`

-- What the libraries answer during one callback.
pub record Answers : Type 0 where
  pub is_open : ℕ → Bool
  pub targets_reply : Result Json
  pub start : Json → Result (Unit {0})
  pub socket : Result ℕ
  pub inhibited : Result (List ℕ)
  pub ws_message : Result Json
  pub ws_error : String

unfoldable pub run : Callback → Answers → Guard → Outcome
run (Callback.http_reply n) a g = targets a.is_open a.targets_reply a.start n g
run (Callback.opened n) a g = connected a.is_open a.socket a.inhibited n g
run (Callback.timer n) a g = timeout a.is_open n g
run Callback.idle a g = sync g
run (Callback.on_message ws n) a g = message a.is_open a.ws_message n g
run (Callback.on_error ws n) a g = finish a.is_open n a.ws_error g

abbrev pub registers : Effect → List Callback
registers (Effect.http_get n) = Callback.http_reply n ∷ []
registers (Effect.start_timer n) = Callback.timer n ∷ []
registers Effect.idle_sync = Callback.idle ∷ []
registers (Effect.websocket_connect url n) = Callback.opened n ∷ []
registers (Effect.attach ws n) = Callback.on_message ws n ∷ Callback.on_error ws n ∷ []
registers _ = []

abbrev pub registered : List Effect → List Callback
registered [] = []
registered (e ∷ es) = registers e ++ registered es

-- A signal handler stays after its call.
abbrev pub stays : Callback → List Callback
stays (Callback.on_message ws n) = Callback.on_message ws n ∷ []
stays (Callback.on_error ws n) = Callback.on_error ws n ∷ []
stays _ = []

pub record World : Type 0 where
  pub guard : Guard
  pub pending : List Callback
  pub trace : List Effect  -- all calls so far

unfoldable pub after : List Callback → List Effect → Outcome → World
after kept trace (g, effects) = record {
  guard = g;
  pending = kept ++ registered effects;
  trace = trace ++ effects;
}

-- `__init__` registers an idle `sync`.
unfoldable pub start_world : World
start_world = record { guard = new; pending = Callback.idle ∷ []; trace = [] }

-- `tick` runs every five seconds, and `g-properties-changed` at any time: both call `sync`.
pub data Step (w : World) (u : World) : Type 0 where
  tick : u ≡ after w.pending w.trace (sync w.guard) → Step w u
  changed : u ≡ after w.pending w.trace (sync w.guard) → Step w u
  fire :
      (before later : List Callback) (c : Callback) (a : Answers)
      → w.pending ≡ before ++ (c ∷ later)
      → u ≡ after (before ++ (stays c ++ later)) w.trace (run c a w.guard)
      → Step w u

pub data Reach (w : World) : World → Type 0 where
  here : Reach w w
  next : {u v : World} → Reach w u → Step u v → Reach w v

-- Counting callbacks.
abbrev pub weigh : (Callback → ℕ) → List Callback → ℕ
weigh f [] = 0
weigh f (c ∷ cs) = f c + weigh f cs

abbrev bit : Bool → ℕ
bit true = 1
bit false = 0

-- A timer of this generation.
abbrev pub is_timer : ℕ → Callback → ℕ
is_timer n (Callback.timer m) = bit (m == n)
is_timer n _ = 0

-- A request of this generation to Steam whose answer is still to come.
abbrev pub in_flight : ℕ → Callback → ℕ
in_flight n (Callback.http_reply m) = bit (m == n)
in_flight n (Callback.opened m) = bit (m == n)
in_flight n _ = 0

-- A callback of a generation after this one.
abbrev pub is_future : ℕ → Callback → ℕ
is_future n (Callback.http_reply m) = bit (ltb n m)
is_future n (Callback.opened m) = bit (ltb n m)
is_future n (Callback.timer m) = bit (ltb n m)
is_future n Callback.idle = 0
is_future n (Callback.on_message ws m) = bit (ltb n m)
is_future n (Callback.on_error ws m) = bit (ltb n m)

abbrev pub is_idle : Callback → ℕ
is_idle Callback.idle = 1
is_idle _ = 0

pub weigh-append :
    (f : Callback → ℕ) (cs ds : List Callback) → weigh f (cs ++ ds) ≡ weigh f cs + weigh f ds
weigh-append f [] ds = omega arith
weigh-append f (c ∷ cs) ds = omega (arith, weigh-append f cs ds)
