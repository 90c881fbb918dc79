-- ===== src/TvControl/Attempt.antt =====
-- examples/tv-control/sleep_av.py: the whole of `run`.
use bazzite_k.Common.{
  ◌≡◌, refl, sym, ◌∙◌, Bool, true, false, Option, none, some, List, [], ◌∷◌, ◌++◌, if◌then◌else◌,
  Result,
}
use bazzite_k.Common.Json.{Json, index, truthy}
use bazzite_k.TvControl.{
  Outcome, ok, raised, Link, Io, ◌>>=◌, Call, connect, close, closed, lift, value_error,
  timeout_error, ◌>>◌,
}
use bazzite_k.TvControl.Standby.{
  Config, guarded_off, closed_after, is_cancelled, budget, except_false, stored_key, new, attempt,
  run,
}

budget-is_cancelled : {A : Type 0} (o : Outcome A) → is_cancelled (budget o) ≡ false
budget-is_cancelled o = step (is_cancelled o) refl
  where
    step :
        (t : Bool)
        → is_cancelled o ≡ t
        → is_cancelled (if t then raised timeout_error else o) ≡ false
    step true h = refl
    step false h = h

except_false-ok : (o : Outcome Bool) → is_cancelled o ≡ false → (b : Bool) × (except_false o ≡ ok b)
except_false-ok (ok b) h = (b, refl)
except_false-ok (raised e) h = (false, rw h refl)

stored_key-is_cancelled : (stored : Option Json) → is_cancelled (stored_key stored) ≡ false
stored_key-is_cancelled none = refl
stored_key-is_cancelled (some j) = step (index "client_key" j)
  where
    step :
        (r : Result Json)
        → is_cancelled (lift r >> λ key. if truthy key then ok key else raised value_error) ≡ false
    step (Result.ok key) = chosen key (truthy key)
      where
        chosen :
            (key : Json) (t : Bool)
            → is_cancelled (if t then ok key else raised value_error) ≡ false
        chosen key true = refl
        chosen key false = refl
    step (Result.err e) = refl

attempt-is_cancelled :
    (c : Config) (registration_msg : Json → Json) (check_only : Bool) (key : Outcome Json)
    (l : Link)
    → is_cancelled key ≡ false
    → is_cancelled (attempt c registration_msg check_only key l).0 ≡ false
unfolding attempt
attempt-is_cancelled c registration_msg check_only (raised e) l h = h
attempt-is_cancelled c registration_msg check_only (ok key) l h = budget-is_cancelled _

-- `run` always returns, and never raises, whatever the network does and whatever the key file holds.
pub run_returns :
    (c : Config) (registration_msg : Json → Json) (check_only : Bool) (stored : Option Json)
    (l : Link)
    → (b : Bool) × ((run c registration_msg check_only stored l).0 ≡ ok b)
unfolding run
run_returns c registration_msg check_only stored l = except_false-ok _ (
    attempt-is_cancelled c registration_msg check_only (stored_key stored) l
      (stored_key-is_cancelled stored))

EndsClosed : Link → Type 0
EndsClosed l = l.has_ws ≡ true → (before : List Call) × (l.calls ≡ before ++ (Call.ws_close ∷ []))

close-EndsClosed : (l : Link) → EndsClosed (close l).1
unfolding close EndsClosed
close-EndsClosed l = step l.has_ws l.closing refl
  where
    called : Link
    called = record l { calls = l.calls ++ (Call.ws_close ∷ []) }

    step :
        (t : Bool) (o : Outcome (Unit {0}))
        → l.has_ws ≡ t
        → EndsClosed (if t then closed called o else (ok tt, l)).1
    step true (ok u) e h = cc
    step true (raised x) e h = (l.calls, refl)
    step false o e h = absurd (let bad : false ≡ true = sym e ∙ h in cc)

closed_after-EndsClosed :
    {A : Type 0} (o : Outcome A) (p : Outcome (Unit {0}) × Link)
    → EndsClosed p.1
    → EndsClosed (closed_after o p).1
closed_after-EndsClosed o (ok u, k) h = h
closed_after-EndsClosed o (raised e, k) h = h

attempt-EndsClosed :
    (c : Config) (registration_msg : Json → Json) (check_only : Bool) (key : Outcome Json)
    (l : Link)
    → l.has_ws ≡ false
    → EndsClosed (attempt c registration_msg check_only key l).1
unfolding attempt EndsClosed
attempt-EndsClosed c registration_msg check_only (raised e) l n h =
    absurd (let bad : false ≡ true = sym n ∙ h in cc)
attempt-EndsClosed c registration_msg check_only (ok key) l n h =
    let body : Io Bool = connect registration_msg false >>= λ u. guarded_off c check_only in
    let done = body (new key l) in
    closed_after-EndsClosed done.0 (close done.1) (close-EndsClosed done.1) h

-- When `run` returns, no websocket is held, unless closing it has failed as the last call.
pub run_closes :
    (c : Config) (registration_msg : Json → Json) (check_only : Bool) (stored : Option Json)
    (l : Link)
    → l.has_ws ≡ false
    → (run c registration_msg check_only stored l).1.has_ws ≡ true
    → (before : List Call) × ((run c registration_msg check_only stored l).1.calls
        ≡ before ++ (Call.ws_close ∷ []))
unfolding run EndsClosed
run_closes c registration_msg check_only stored l n h =
    attempt-EndsClosed c registration_msg check_only (stored_key stored) l n h
