-- ===== src/SleepGuard/Reachable.antt =====
-- The invariant of `Invariant`, from one callback to any sequence of them.
use bazzite_k.Common.{arith, ℕ, ◌≡◌, List, [], ◌∷◌, ◌++◌}
use bazzite_k.SleepGuard.{Guard, new}
use bazzite_k.SleepGuard.World.{
  Callback, Answers, run, registered, stays, World, after, start_world, Step, Reach, weigh,
  is_timer, in_flight, is_future, weigh-append,
}
use bazzite_k.SleepGuard.Invariant.{
  Inv, targets-Inv, connected-Inv, timeout-Inv, message-Inv, error-Inv, sync-Inv,
}

-- Running a callback, which is taken from the list unless it stays.
run-Inv :
    (c : Callback) (a : Answers) (g : Guard) (cs : List Callback)
    → Inv g (c ∷ cs)
    → Inv (run c a g).0 ((stays c ++ cs) ++ registered (run c a g).1)
unfolding run
run-Inv (Callback.http_reply n) a g cs h = targets-Inv g cs a.is_open a.targets_reply a.start n h
run-Inv (Callback.opened n) a g cs h = connected-Inv g cs a.is_open a.socket a.inhibited n h
run-Inv (Callback.timer n) a g cs h = timeout-Inv g cs a.is_open n h
run-Inv Callback.idle a g cs h = sync-Inv g cs (ground arith)
run-Inv (Callback.on_message ws n) a g cs h =
    message-Inv g (Callback.on_message ws n ∷ cs) a.is_open a.ws_message n h
run-Inv (Callback.on_error ws n) a g cs h =
    error-Inv g (Callback.on_error ws n ∷ cs) a.is_open a.ws_error n h

-- The invariant does not depend on the order of the callbacks.
Inv-reorder :
    (g : Guard) (cs ds : List Callback)
    → ((f : Callback → ℕ) → weigh f cs ≡ weigh f ds)
    → Inv g cs
    → Inv g ds
Inv-reorder g cs ds e h =
    ground
      (arith, e (is_timer g.generation), e (in_flight g.generation), e (is_future g.generation))

pub weigh_middle :
    (f : Callback → ℕ) (before mid later : List Callback)
    → weigh f (before ++ (mid ++ later)) ≡ weigh f (mid ++ (before ++ later))
weigh_middle f before mid later = omega (
  arith,
  weigh-append f before (mid ++ later),
  weigh-append f mid later,
  weigh-append f mid (before ++ later),
  weigh-append f before later,
)

weigh_put :
    (f : Callback → ℕ) (before mid later new : List Callback)
    → weigh f ((mid ++ (before ++ later)) ++ new) ≡ weigh f ((before ++ (mid ++ later)) ++ new)
weigh_put f before mid later new = omega (
  arith,
  weigh-append f (mid ++ (before ++ later)) new,
  weigh-append f (before ++ (mid ++ later)) new,
  weigh_middle f before mid later,
)

start-Inv : Inv start_world.guard start_world.pending
unfolding start_world new
start-Inv = ground arith

-- One callback, with any answer of the libraries, keeps the invariant.
pub Step-Inv : (w u : World) → Step w u → Inv w.guard w.pending → Inv u.guard u.pending
unfolding after
Step-Inv w u (Step.tick e) h = rw e (sync-Inv w.guard w.pending h)
Step-Inv w u (Step.changed e) h = rw e (sync-Inv w.guard w.pending h)
Step-Inv w u (Step.fire before later c a p e) h =
    let from =
      Inv-reorder w.guard _ (c ∷ (before ++ later)) (λ f. weigh_middle f before (c ∷ []) later)
        (rw p at h) in
    rw e (
      Inv-reorder _ ((stays c ++ (before ++ later)) ++ registered (run c a w.guard).1) _
        (λ f. weigh_put f before (stays c) later (registered (run c a w.guard).1))
        (run-Inv c a w.guard (before ++ later) from))

-- In every world that the main loop can reach: a busy guard has the timer of its generation to end
-- it, and at most one request to Steam or one open websocket; a wish for another round and a
-- socket are kept only while busy; and no callback is of a generation to come.
pub Reach-Inv : (w : World) → Reach start_world w → Inv w.guard w.pending
Reach-Inv w Reach.here = start-Inv
Reach-Inv w (Reach.next {u = u} r s) = Step-Inv u w s (Reach-Inv u r)
