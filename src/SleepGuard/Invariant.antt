-- ===== src/SleepGuard/Invariant.antt =====
-- What holds of the guard and the registered callbacks between any two callbacks.
use bazzite_k.Common.{
  arith, ℕ, ◌+◌, ◌≤◌, ◌≡◌, Bool, true, false, Option, none, some, List, [], ◌∷◌, ◌++◌, String,
  Result, ok, err, ◌>>=◌, Bool-cases, inl, inr,
}
use mathlib.Core.List.{append-nil, append_assoc}
use bazzite_k.Common.Json.{Json}
use bazzite_k.SleepGuard.{
  Guard, Effect, sync, timeout, targets, connected, open_socket, end_by, target_address,
  reply_report, take_socket, message, finish, is_stale,
}
use bazzite_k.SleepGuard.World.{
  Callback, registered, weigh, is_timer, in_flight, is_future, weigh-append,
}

abbrev pub taken : Option ℕ → ℕ
taken none = 0
taken (some ws) = 1

pub record Inv (g : Guard) (cs : List Callback) : Type 0 where
  pub armed : g.busy ≡ true → 1 ≤ weigh (is_timer g.generation) cs
  pub wanted : g.resync ≡ true → g.busy ≡ true
  pub released : g.busy ≡ false → g.socket ≡ none
  pub known : weigh (is_future g.generation) cs ≡ 0
  pub single : g.busy ≡ true → weigh (in_flight g.generation) cs + taken g.socket ≤ 1

weigh-le :
    (f h : Callback → ℕ) (cs : List Callback)
    → ((c : Callback) → f c ≤ h c)
    → weigh f cs ≤ weigh h cs
weigh-le f h [] p = omega arith
weigh-le f h (c ∷ cs) p = omega (arith, p c, weigh-le f h cs p)

-- Callbacks of the next generation are none that is known.
in_flight-le-future : (n : ℕ) (c : Callback) → in_flight (n + 1) c ≤ is_future n c
in_flight-le-future n (Callback.http_reply m) = ground arith
in_flight-le-future n (Callback.opened m) = ground arith
in_flight-le-future n (Callback.timer m) = ground arith
in_flight-le-future n Callback.idle = ground arith
in_flight-le-future n (Callback.on_message ws m) = ground arith
in_flight-le-future n (Callback.on_error ws m) = ground arith

future-le-future : (n : ℕ) (c : Callback) → is_future (n + 1) c ≤ is_future n c
future-le-future n (Callback.http_reply m) = ground arith
future-le-future n (Callback.opened m) = ground arith
future-le-future n (Callback.timer m) = ground arith
future-le-future n Callback.idle = ground arith
future-le-future n (Callback.on_message ws m) = ground arith
future-le-future n (Callback.on_error ws m) = ground arith

-- The generation that a callback was registered for; `sync` has none and is never stale.
abbrev pub generation_of : Callback → ℕ
generation_of (Callback.http_reply n) = n
generation_of (Callback.opened n) = n
generation_of (Callback.timer n) = n
generation_of Callback.idle = 0
generation_of (Callback.on_message ws n) = n
generation_of (Callback.on_error ws n) = n

pub timeout_stale :
    (o : ℕ → Bool) (n : ℕ) (g : Guard) → is_stale n g ≡ true → timeout o n g ≡ (g, [])
unfolding timeout is_stale
timeout_stale o n g s = ground arith

pub timeout_fresh :
    (o : ℕ → Bool) (n : ℕ) (g : Guard)
    → is_stale n g ≡ false
    → timeout o n g ≡ finish o n "Steam connection timed out" g
unfolding timeout is_stale
timeout_fresh o n g s = ground arith

-- A request that ends leaves the guard free, whatever was still registered for it.
finish-Inv :
    (g : Guard) (cs : List Callback) (o : ℕ → Bool) (n : ℕ) (r : String)
    → is_stale n g ≡ false
    → weigh (is_future g.generation) cs ≡ 0
    → Inv (finish o n r g).0 (cs ++ registered (finish o n r g).1)
unfolding finish
finish-Inv g cs o n r fresh h =
    ground (arith, weigh-append (is_future g.generation) cs (registered (finish o n r g).1))

pub finish_stale :
    (o : ℕ → Bool) (n : ℕ) (r : String) (g : Guard) → is_stale n g ≡ true → finish o n r g ≡ (g, [])
unfolding finish
finish_stale o n r g s = ground arith

module _ (g : Guard) (cs : List Callback) where
  pub sync-Inv : Inv g cs → Inv (sync g).0 (cs ++ registered (sync g).1)
  unfolding sync
  sync-Inv h = ground (
    arith,
    weigh-append (is_timer (g.generation + 1)) cs (registered (sync g).1),
    weigh-append (in_flight (g.generation + 1)) cs (registered (sync g).1),
    weigh-append (is_future (g.generation + 1)) cs (registered (sync g).1),
    weigh-append (is_timer g.generation) cs (registered (sync g).1),
    weigh-append (in_flight g.generation) cs (registered (sync g).1),
    weigh-append (is_future g.generation) cs (registered (sync g).1),
    weigh-le (in_flight (g.generation + 1)) (is_future g.generation) cs
        (in_flight-le-future g.generation),
    weigh-le (is_future (g.generation + 1)) (is_future g.generation) cs
        (future-le-future g.generation),
  )

  rest_known : (c : Callback) → Inv g (c ∷ cs) → weigh (is_future g.generation) cs ≡ 0
  rest_known c h = omega (arith, h.known)

  stale-Inv : Inv g cs → Inv g (cs ++ [])
  stale-Inv h = rw append-nil h

  -- A stale callback is not missed.
  drop_stale : (c : Callback) → is_stale (generation_of c) g ≡ true → Inv g (c ∷ cs) → Inv g cs
  unfolding is_stale
  drop_stale (Callback.http_reply n) s h = ground arith
  drop_stale (Callback.opened n) s h = ground arith
  drop_stale (Callback.timer n) s h = ground arith
  drop_stale Callback.idle s h = ground arith
  drop_stale (Callback.on_message ws n) s h = ground arith
  drop_stale (Callback.on_error ws n) s h = ground arith

  -- Every callback but `sync` begins with such a test, or ends in `finish`, which does.
  pub timeout-Inv :
      (o : ℕ → Bool) (n : ℕ)
      → Inv g (Callback.timer n ∷ cs)
      → Inv (timeout o n g).0 (cs ++ registered (timeout o n g).1)
  unfolding timeout
  timeout-Inv o n h = elim (Bool-cases (is_stale n g)) [
    | inl s ↦ rw (timeout_stale o n g s) (stale-Inv (drop_stale (Callback.timer n) s h))
    | inr f ↦
        rw (timeout_fresh o n g f)
          (finish-Inv g cs o n "Steam connection timed out" f (rest_known (Callback.timer n) h))
  ]

  open_socket-Inv :
      (o : ℕ → Bool) (n : ℕ) (r : Result Json)
      → is_stale n g ≡ false
      → Inv g (Callback.http_reply n ∷ cs)
      → Inv (open_socket o n g r).0 (cs ++ registered (open_socket o n g r).1)
  unfolding open_socket is_stale
  open_socket-Inv o n (err e) f h = finish-Inv g cs o n _ f (rest_known (Callback.http_reply n) h)
  open_socket-Inv o n (ok url) f h = ground (
    arith,
    weigh-append (is_timer g.generation) cs (Callback.opened n ∷ []),
    weigh-append (in_flight g.generation) cs (Callback.opened n ∷ []),
    weigh-append (is_future g.generation) cs (Callback.opened n ∷ []),
  )

  pub targets-Inv :
      (o : ℕ → Bool) (reply : Result Json) (start : Json → Result (Unit {0})) (n : ℕ)
      → Inv g (Callback.http_reply n ∷ cs)
      → Inv (targets o reply start n g).0 (cs ++ registered (targets o reply start n g).1)
  unfolding targets
  targets-Inv o reply start n h = elim (Bool-cases (is_stale n g)) [
    | inl s ↦ rw s (stale-Inv (drop_stale (Callback.http_reply n) s h))
    | inr f ↦ rw f (open_socket-Inv o n (target_address reply start) f h)
  ]

  take_socket-Inv :
      (o : ℕ → Bool) (ws : ℕ) (i : Result (List ℕ)) (n : ℕ)
      → is_stale n g ≡ false
      → Inv g (Callback.opened n ∷ cs)
      → Inv (take_socket o ws i n g).0 (cs ++ registered (take_socket o ws i n g).1)
  unfolding take_socket is_stale
  take_socket-Inv o ws (ok value) n f h = ground (
    arith,
    weigh-append (is_timer g.generation) cs (registered (Effect.attach ws n ∷ [])),
    weigh-append (in_flight g.generation) cs (registered (Effect.attach ws n ∷ [])),
    weigh-append (is_future g.generation) cs (registered (Effect.attach ws n ∷ [])),
  )
  take_socket-Inv o ws (err e) n f h =
      let held : List Callback = registered (Effect.attach ws n ∷ []) in
      rw (← append_assoc cs held) (
        finish-Inv (record g { socket = some ws }) (cs ++ held) o n e f
          (ground (arith, weigh-append (is_future g.generation) cs held)))

  pub connected-Inv :
      (o : ℕ → Bool) (r : Result ℕ) (i : Result (List ℕ)) (n : ℕ)
      → Inv g (Callback.opened n ∷ cs)
      → Inv (connected o r i n g).0 (cs ++ registered (connected o r i n g).1)
  unfolding connected
  connected-Inv o (err e) i n h = elim (Bool-cases (is_stale n g)) [
    | inl s ↦ rw (finish_stale o n e g s) (stale-Inv (drop_stale (Callback.opened n) s h))
    | inr f ↦ finish-Inv g cs o n e f (rest_known (Callback.opened n) h)
  ]
  connected-Inv o (ok ws) i n h = elim (Bool-cases (is_stale n g)) [
    | inl s ↦ rw s (stale-Inv (drop_stale (Callback.opened n) s h))
    | inr f ↦ rw f (take_socket-Inv o ws i n f h)
  ]

  end_by-Inv :
      (o : ℕ → Bool) (n : ℕ) (r : Result (Option String))
      → is_stale n g ≡ false
      → Inv g cs
      → Inv (end_by o n g r).0 (cs ++ registered (end_by o n g r).1)
  unfolding end_by
  end_by-Inv o n (ok none) f h = stale-Inv h
  end_by-Inv o n (ok (some r)) f h = finish-Inv g cs o n r f h.known
  end_by-Inv o n (err e) f h = finish-Inv g cs o n e f h.known

  pub message-Inv :
      (o : ℕ → Bool) (r : Result Json) (n : ℕ)
      → Inv g cs
      → Inv (message o r n g).0 (cs ++ registered (message o r n g).1)
  unfolding message
  message-Inv o r n h = elim (Bool-cases (is_stale n g)) [
    | inl s ↦ rw s (stale-Inv h)
    | inr f ↦ rw f (end_by-Inv o n (r >>= reply_report) f h)
  ]

  pub error-Inv :
      (o : ℕ → Bool) (e : String) (n : ℕ)
      → Inv g cs
      → Inv (finish o n e g).0 (cs ++ registered (finish o n e g).1)
  error-Inv o e n h = elim (Bool-cases (is_stale n g)) [
    | inl s ↦ rw (finish_stale o n e g s) (stale-Inv h)
    | inr f ↦ finish-Inv g cs o n e f h.known
  ]
