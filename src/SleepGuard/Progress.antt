-- ===== src/SleepGuard/Progress.antt =====
-- What was asked for happens: a busy guard can always be freed by its timer, and a wish for another
-- round that came while it was busy is never dropped.
use bazzite_k.Common.{
  arith, ℕ, ◌+◌, ◌≤◌, ◌≡◌, ◌⊎◌, inl, inr, Bool, true, false, Option, none, some, List, [], ◌∷◌,
  ◌++◌, String, Result, ok, err, ◌>>=◌, refl, ap,
}
use bazzite_k.Common.Json.{Json}
use native.Mathlib.Decide.{dec_lt}
use bazzite_k.SleepGuard.{
  Guard, sync, timeout, targets, connected, open_socket, end_by, target_address, reply_report,
  take_socket, message, finish,
}
use bazzite_k.SleepGuard.World.{
  Callback, Answers, run, registered, World, stays, after, start_world, Step, Reach, weigh,
  is_timer, is_idle, weigh-append,
}
use bazzite_k.SleepGuard.Reachable.{Reach-Inv}

-- What the guard asked for is still there: the flag, or an idle `sync` among these callbacks.
abbrev pub IsWanted : Guard → List Callback → Type 0
IsWanted g cs = (g.resync ≡ true) ⊎ (1 ≤ weigh is_idle cs)

module _ (g : Guard) (r : g.resync ≡ true) where
  finish-IsWanted :
      (o : ℕ → Bool) (n : ℕ) (t : String)
      → IsWanted (finish o n t g).0 (registered (finish o n t g).1)
  unfolding finish
  finish-IsWanted o n t = ground arith

  open_socket-IsWanted :
      (o : ℕ → Bool) (n : ℕ) (t : Result Json)
      → IsWanted (open_socket o n g t).0 (registered (open_socket o n g t).1)
  unfolding open_socket
  open_socket-IsWanted o n (ok url) = inl r
  open_socket-IsWanted o n (err e) = finish-IsWanted o n _

  end_by-IsWanted :
      (o : ℕ → Bool) (n : ℕ) (t : Result (Option String))
      → IsWanted (end_by o n g t).0 (registered (end_by o n g t).1)
  unfolding end_by
  end_by-IsWanted o n (ok none) = inl r
  end_by-IsWanted o n (ok (some t)) = finish-IsWanted o n t
  end_by-IsWanted o n (err e) = finish-IsWanted o n e

take_socket-IsWanted :
    (g : Guard)
    → g.resync ≡ true
    → (o : ℕ → Bool) (ws : ℕ) (i : Result (List ℕ)) (n : ℕ)
    → IsWanted (take_socket o ws i n g).0 (registered (take_socket o ws i n g).1)
unfolding take_socket
take_socket-IsWanted g r o ws (ok value) n = inl r
take_socket-IsWanted g r o ws (err e) n =
    ground (arith, finish-IsWanted (record g { socket = some ws }) r o n e)

connected-IsWanted :
    (g : Guard)
    → g.resync ≡ true
    → (o : ℕ → Bool) (t : Result ℕ) (i : Result (List ℕ)) (n : ℕ)
    → IsWanted (connected o t i n g).0 (registered (connected o t i n g).1)
unfolding connected
connected-IsWanted g r o (err e) i n = finish-IsWanted g r o n e
connected-IsWanted g r o (ok ws) i n = ground (arith, take_socket-IsWanted g r o ws i n)

run-IsWanted :
    (c : Callback) (a : Answers) (g : Guard)
    → g.resync ≡ true
    → g.busy ≡ true
    → IsWanted (run c a g).0 (registered (run c a g).1)
unfolding run targets timeout message sync
run-IsWanted (Callback.http_reply n) a g r b =
    ground (arith, open_socket-IsWanted g r a.is_open n (target_address a.targets_reply a.start))
run-IsWanted (Callback.opened n) a g r b = connected-IsWanted g r a.is_open a.socket a.inhibited n
run-IsWanted (Callback.timer n) a g r b =
    ground (arith, finish-IsWanted g r a.is_open n "Steam connection timed out")
run-IsWanted Callback.idle a g r b = ground arith
run-IsWanted (Callback.on_message ws n) a g r b =
    ground (arith, end_by-IsWanted g r a.is_open n (a.ws_message >>= reply_report))
run-IsWanted (Callback.on_error ws n) a g r b = finish-IsWanted g r a.is_open n a.ws_error

sync-IsWanted : (g : Guard) → g.resync ≡ true → g.busy ≡ true → (sync g).0.resync ≡ true
unfolding sync
sync-IsWanted g r b = ground arith

IsWanted-append : (g : Guard) (cs ds : List Callback) → IsWanted g ds → IsWanted g (cs ++ ds)
IsWanted-append g cs ds (inl r) = inl r
IsWanted-append g cs ds (inr h) = inr (omega (arith, weigh-append is_idle cs ds))

-- No step of the main loop from a reachable world drops the wish for another round: the flag
-- stays, or an idle `sync` is registered.
pub Step-IsWanted :
    (w u : World)
    → Reach start_world w
    → w.guard.resync ≡ true
    → Step w u
    → IsWanted u.guard u.pending
unfolding after
Step-IsWanted w u reach r (Step.tick e) =
    rw e (inl (sync-IsWanted w.guard r ((Reach-Inv w reach).wanted r)))
Step-IsWanted w u reach r (Step.changed e) =
    rw e (inl (sync-IsWanted w.guard r ((Reach-Inv w reach).wanted r)))
Step-IsWanted w u reach r (Step.fire before later c a p e) = rw e (
    IsWanted-append (run c a w.guard).0 _ _
      (run-IsWanted c a w.guard r ((Reach-Inv w reach).wanted r)))

abbrev Found : Callback → List Callback → Type 0
Found c cs = (before : List Callback) × (later : List Callback) × (cs ≡ before ++ (c ∷ later))

-- A callback that is counted stands somewhere in the list.
find :
    (f : Callback → ℕ) (cs : List Callback)
    → 1 ≤ weigh f cs
    → (c : Callback) × (1 ≤ f c) × Found c cs
find f [] h = absurd (omega arith)
find f (c ∷ cs) h = elim (dec_lt 0 (f c)) [
  | yes p ↦ (c, p, ([], cs, refl))
  | no n ↦
      let (d, q, (before, later, e)) = find f cs (omega arith) in
      (d, q, (c ∷ before, later, ap (λ t. c ∷ t) e))
]

timer_of : (n : ℕ) (c : Callback) → 1 ≤ is_timer n c → c ≡ Callback.timer n
timer_of n c h = ground arith

idle_of : (c : Callback) → 1 ≤ is_idle c → c ≡ Callback.idle
idle_of c h = ground arith

find_timer : (n : ℕ) (cs : List Callback) → 1 ≤ weigh (is_timer n) cs → Found (Callback.timer n) cs
find_timer n cs h = let (c, p, found) = find (is_timer n) cs h in rw (timer_of n c p) at found

find_idle : (cs : List Callback) → 1 ≤ weigh is_idle cs → Found Callback.idle cs
find_idle cs h = let (c, p, found) = find is_idle cs h in rw (idle_of c p) at found

-- What the timer of a busy guard's own generation does.
timeout_frees :
    (g : Guard) (o : ℕ → Bool)
    → g.busy ≡ true
    → ((timeout o g.generation g).0.busy ≡ false)
      × ((timeout o g.generation g).0.generation ≡ g.generation)
      × (g.resync ≡ true → 1 ≤ weigh is_idle (registered (timeout o g.generation g).1))
unfolding timeout finish
timeout_frees g o b = ground arith

-- The main loop takes this callback, and no other.
pub data Fires (c : Callback) (w : World) (u : World) : Type 0 where
  fires :
      (before later : List Callback) (a : Answers)
      → w.pending ≡ before ++ (c ∷ later)
      → u ≡ after (before ++ (stays c ++ later)) w.trace (run c a w.guard)
      → Fires c w u

pub Fires-Step : (c : Callback) (w u : World) → Fires c w u → Step w u
Fires-Step c w u (Fires.fires before later a p e) = Step.fire before later c a p e

-- From any reachable world in which the guard is busy, its timer frees it, whatever the libraries
-- answered or failed to answer before; a wish for another round is then registered.
pub busy_ends :
    (w : World) (a : Answers)
    → Reach start_world w
    → w.guard.busy ≡ true
    → (u : World) × Fires (Callback.timer w.guard.generation) w u
      × (u.guard.busy ≡ false)
      × (u.guard.generation ≡ w.guard.generation)
      × (w.guard.resync ≡ true → 1 ≤ weigh is_idle u.pending)
unfolding after run
busy_ends w a reach b =
    let (before, later, p) =
      find_timer w.guard.generation w.pending ((Reach-Inv w reach).armed b) in
    let (free, same, again) = timeout_frees w.guard a.is_open b in
    (
      after (before ++ later) w.trace (run (Callback.timer w.guard.generation) a w.guard),
      Fires.fires before later a p refl,
      free,
      same,
      λ r. omega (
        arith,
        weigh-append is_idle (before ++ later)
            (registered (timeout a.is_open w.guard.generation w.guard).1),
        again r,
      ),
    )

-- A wish for another round that came while the guard was busy can be met in two steps: the timer of its
-- generation, which frees the guard, and then an idle `sync`, which is registered by then and opens a
-- round of the next generation.
pub resync_served :
    (w : World) (a : Answers)
    → Reach start_world w
    → w.guard.resync ≡ true
    → (u : World) × (v : World) × Fires (Callback.timer w.guard.generation) w u
      × (u.guard.busy ≡ false)
      × Fires Callback.idle u v
      × (v.guard.busy ≡ true)
      × (v.guard.generation ≡ w.guard.generation + 1)
unfolding after run sync
resync_served w a reach r =
    let (u, step, free, same, again) = busy_ends w a reach ((Reach-Inv w reach).wanted r) in
    let (before, later, p) = find_idle u.pending (again r) in
    (
      u,
      after (before ++ later) u.trace (run Callback.idle a u.guard),
      step,
      free,
      Fires.fires before later a p refl,
      ground arith,
      ground arith,
    )
