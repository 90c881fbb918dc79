-- ===== src/SleepGuard/Stale.antt =====
-- Callbacks that come too late.
use bazzite_k.Common.{ℕ, ◌≡◌, ◌≢◌, Bool, true, List, [], ◌∷◌, Result, ok, err, refl}
use bazzite_k.SleepGuard.{Guard, Effect, targets, connected, message, is_stale}
use bazzite_k.SleepGuard.World.{Callback, Answers, run}
use bazzite_k.SleepGuard.Invariant.{timeout_stale, finish_stale, generation_of}

-- The calls that a stale callback makes: none, but that a websocket which has just been opened is
-- closed again.
abbrev pub late_calls : Callback → Result ℕ → List Effect
late_calls (Callback.opened n) (ok ws) = Effect.close ws "stale request" ∷ []
late_calls _ _ = []

connected_stale :
    (o : ℕ → Bool) (r : Result ℕ) (i : Result (List ℕ)) (n : ℕ) (g : Guard)
    → is_stale n g ≡ true
    → connected o r i n g ≡ (g, late_calls (Callback.opened n) r)
unfolding connected
connected_stale o (err e) i n g s = finish_stale o n e g s
connected_stale o (ok ws) i n g s = rw s

-- A callback of a generation that is not the guard's, or of a round that has ended, changes no
-- field of the guard and starts nothing.
pub run_stale :
    (c : Callback) (a : Answers) (g : Guard)
    → c ≢ Callback.idle
    → is_stale (generation_of c) g ≡ true
    → run c a g ≡ (g, late_calls c a.socket)
unfolding run targets message
run_stale (Callback.http_reply n) a g i s = rw s
run_stale (Callback.opened n) a g i s = connected_stale a.is_open a.socket a.inhibited n g s
run_stale (Callback.timer n) a g i s = timeout_stale a.is_open n g s
run_stale Callback.idle a g i s = absurd (i refl)
run_stale (Callback.on_message ws n) a g i s = rw s
run_stale (Callback.on_error ws n) a g i s = finish_stale a.is_open n a.ws_error g s
