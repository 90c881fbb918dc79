-- ===== src/TvControl/Statuses.antt =====
-- examples/tv-control/direct_av.py: what a turn of `receiver` and of `television` finds and sends.
use bazzite_k.Common.{
  inl, inr, ◌≡◌, ◌↔◌, refl, ap, sym, ◌∙◌, Bool, true, false, Bool-cases, ◌&&◌, not, some, List, [],
  ◌∷◌, ◌++◌, if◌then◌else◌, text_append, text_eq_iff,
}
use mathlib.Core.List.{append-nil}
use bazzite_k.Common.Json.{Json, is_text}
use bazzite_k.TvControl.{
  Outcome, ok, raised, Link, AvrState, avr_state, avr_command, Call, http_get, http_post,
}
use bazzite_k.TvControl.Standby.{tv_state, Config, is_some_text}
use bazzite_k.TvControl.Target.{is_text-str, &&-true, is_some_text-some}
use bazzite_k.TvControl.Wake.{
  seen, dropped, with_tv, is_active, shows, switch_input, television_turn, Ready, Task, is_on,
  has_input, when, set_avr, switched, powered, polled, is_network, retried, receiver_turn,
}

-- The commands that a state of the receiver calls for: power first, then the input.
abbrev pub commands : Config → Outcome AvrState → List Call
commands c (raised e) = []
commands c (ok s) =
    if not (is_on s)
    then http_get "PWON" ∷ []
    else if has_input c s
    then []
    else http_get (text_append "SI" c.avr_input) ∷ []

retried-calls : (g : Ready → Ready) (t : Task) → (retried is_network g t).1.1.calls ≡ t.1.1.calls
retried-calls g (ok u, (r, l)) = refl
retried-calls g (raised e, (r, l)) = step (is_network e)
  where
    step :
        (b : Bool)
        → (if◌then◌else◌ {A = Task} b (ok tt, (g r, l)) (raised e, (r, l))).1.1.calls ≡ l.calls
    step true = refl
    step false = refl

checked_power :
    (c : Config) (s : AvrState) (r : Ready) (o : Outcome (Unit {0})) (l : Link)
    → is_on s ≡ false
    → (powered c s r (o, l)).1.1.calls ≡ l.calls
checked_power c s r (raised e) l h = refl
checked_power c s r (ok u) l h = rw h refl

switched-calls :
    (c : Config) (s : AvrState) (r : Ready) (o : Outcome (Unit {0})) (l : Link)
    → (switched c s r (o, l)).1.1.calls ≡ l.calls
switched-calls c s r (raised e) l = refl
switched-calls c s r (ok u) l = refl

polled-calls :
    (c : Config) (r : Ready) (o : Outcome AvrState) (l : Link)
    → (polled c r (o, l)).1.1.calls ≡ l.calls ++ commands c o
unfolding avr_command
polled-calls c r (raised e) l = sym (append-nil l.calls)
polled-calls c r (ok s) l =
    let si = text_append "SI" c.avr_input in
    let next = when (is_on s && not (has_input c s)) (avr_command si) l in
    let done = switched-calls c s (record r { receiver_ready = true }) next.0 next.1 in
    elim (Bool-cases (is_on s)) [
      | inr f ↦ rw f (checked_power c s r (avr_command "PWON" l).0 (avr_command "PWON" l).1 f)
      | inl t ↦ elim (Bool-cases (has_input c s)) [
        | inl i ↦ rw t (done ∙ rw (t, i) (sym (append-nil l.calls)))
        | inr n ↦ rw t (done ∙ rw (t, n) refl)
      ]
    ]

-- A turn of `receiver` asks for the state and then sends at most one command: power if the receiver is
-- not on, else the input if it is another one, else nothing.
pub receiver_turn_calls :
    (c : Config) (r : Ready) (l : Link)
    → (receiver_turn c r l).1.1.calls ≡ (l.calls ++ (http_post ∷ [])) ++ commands c (avr_state l).0
unfolding receiver_turn avr_state
receiver_turn_calls c r l =
    retried-calls (set_avr false) (polled c r (avr_state l))
    ∙ polled-calls c r (avr_state l).0 (avr_state l).1

switched-avr :
    (c : Config) (s : AvrState) (r : Ready) (o : Outcome (Unit {0})) (l : Link)
    → (switched c s r (o, l)).0 ≡ ok tt
    → (switched c s r (o, l)).1.0.avr ≡ (is_on s && has_input c s)
switched-avr c s r (raised e) l h = cc
switched-avr c s r (ok u) l h = refl

powered-avr :
    (c : Config) (s : AvrState) (r : Ready) (o : Outcome (Unit {0})) (l : Link)
    → (powered c s r (o, l)).0 ≡ ok tt
    → (powered c s r (o, l)).1.0.avr ≡ (is_on s && has_input c s)
powered-avr c s r (raised e) l h = cc
powered-avr c s r (ok u) l h =
    let next =
      when (is_on s && not (has_input c s)) (avr_command (text_append "SI" c.avr_input)) l in
    switched-avr c s (record r { receiver_ready = true }) next.0 next.1 h

retried-avr :
    (t : Task)
    → (retried is_network (set_avr false) t).1.0.avr ≡ true
    → (retried is_network (set_avr false) t).0 ≡ ok tt
    → (t.0 ≡ ok tt) × (t.1.0.avr ≡ true)
retried-avr (ok u, (r, l)) h k = (refl, h)
retried-avr (raised e, (r, l)) h k = step (is_network e) h k
  where
    step :
        (b : Bool)
        → (if◌then◌else◌ {A = Task} b (ok tt, (set_avr false r, l)) (raised e, (r, l))).1.0.avr
          ≡ true
        → (if◌then◌else◌ {A = Task} b (ok tt, (set_avr false r, l)) (raised e, (r, l))).0 ≡ ok tt
        → (raised e ≡ ok tt) × (r.avr ≡ true)
    step true h k = absurd (cc h)
    step false h k = absurd (cc k)

on_target :
    (c : Config) (s : AvrState)
    → (is_on s && has_input c s) ≡ true
    → s ≡ (some "ON", some c.avr_input)
on_target c (power, source) h =
    let (x, y) = &&-true (is_some_text "ON" power) _ h in
    let p = is_some_text-some "ON" power x in
    let q = is_some_text-some c.avr_input source y in λ i. (p i, q i)

polled-avr :
    (c : Config) (r : Ready) (o : Outcome AvrState) (l : Link)
    → (polled c r (o, l)).0 ≡ ok tt
    → (polled c r (o, l)).1.0.avr ≡ true
    → o ≡ ok (some "ON", some c.avr_input)
polled-avr c r (raised e) l h k = absurd (cc h)
polled-avr c r (ok s) l h k =
    let next = when (not (is_on s)) (avr_command "PWON") l in
    ap ok (on_target c s (sym (powered-avr c s r next.0 next.1 h) ∙ k))

target-avr :
    (c : Config) (r : Ready) (s : AvrState) (l : Link)
    → is_on s ≡ true
    → has_input c s ≡ true
    → (retried is_network (set_avr false) (polled c r (ok s, l))).1.0.avr ≡ true
target-avr c r s l t i = simp (t, i)

-- After a turn of `receiver` that does not raise, its status is true exactly if the receiver has said
-- that it is on and shows the input of the PC.
pub receiver_turn_avr :
    (c : Config) (r : Ready) (l : Link)
    → (receiver_turn c r l).0 ≡ ok tt
    → ((receiver_turn c r l).1.0.avr ≡ true) ↔ ((avr_state l).0 ≡ ok (some "ON", some c.avr_input))
unfolding receiver_turn
receiver_turn_avr c r l h = (
  λ k.
      let (x, y) = retried-avr (polled c r (avr_state l)) k h in
      polled-avr c r (avr_state l).0 (avr_state l).1 x y,
  λ k. rw k (
      target-avr c r (some "ON", some c.avr_input) (avr_state l).1 refl
        ((text_eq_iff c.avr_input c.avr_input).1 refl)),
)

seen-tv :
    (c : Config) (r : Ready) (s : Json × Json) (l : Link)
    → (seen c r (ok s, l)).1.0.tv ≡ (is_active s && shows c s)
seen-tv c r s l = step (is_active s && not (shows c s)) (switch_input c l)
  where
    step :
        (b : Bool) (p : Outcome Json × Link)
        → (if◌then◌else◌ {A = Task} b
            (dropped (with_tv c s r) p)
            (ok tt, (with_tv c s r, l))).1.0.tv
          ≡ (is_active s && shows c s)
    step true (ok j, k) = refl
    step true (raised e, k) = refl
    step false p = refl

shown :
    (c : Config) (s : Json × Json)
    → s ≡ (Json.str "Active", Json.str c.tv_app)
    → (is_active s && shows c s) ≡ true
shown c s h = rw h ((text_eq_iff c.tv_app c.tv_app).1 refl)

seen-ok :
    (c : Config) (r : Ready) (o : Outcome (Json × Json)) (l : Link)
    → (seen c r (o, l)).0 ≡ ok tt
    → ((seen c r (o, l)).1.0.tv ≡ true) ↔ (o ≡ ok (Json.str "Active", Json.str c.tv_app))
seen-ok c r (raised e) l h = absurd (cc h)
seen-ok c r (ok (power, app)) l h = (
  λ k.
      let (x, y) = &&-true (is_text "Active" power) _ (sym (seen-tv c r (power, app) l) ∙ k) in
      let p = is_text-str "Active" power x in
      let q = is_text-str c.tv_app app y in λ i. ok (p i, q i),
  λ k. seen-tv c r (power, app) l ∙ shown c (power, app) (ok_inj k),
)
  where
    value : Outcome (Json × Json) → Json × Json
    value (ok s) = s
    value (raised e) = (power, app)

    ok_inj : {s : Json × Json} → ok (power, app) ≡ ok s → Path (Json × Json) (power, app) s
    ok_inj k = ap value k

-- After a poll of the television that does not raise, its status is true exactly if the television has
-- said that it is active and shows the PC's input.
pub television_turn_tv :
    (c : Config) (r : Ready) (l : Link)
    → (television_turn c r l).0 ≡ ok tt
    → ((television_turn c r l).1.0.tv ≡ true)
      ↔ ((tv_state l).0 ≡ ok (Json.str "Active", Json.str c.tv_app))
unfolding television_turn
television_turn_tv c r l h = seen-ok c r (tv_state l).0 (tv_state l).1 h
