-- ===== src/TvControl/Allowed.antt =====
-- examples/tv-control/sleep_av.py: what `run` needs before it sends a standby command.
use bazzite_k.Common.{
  ◌≡◌, ◌≢◌, refl, ap, sym, ◌∙◌, Bool, true, false, arith, Option, [], ◌∷◌, ◌++◌, if◌then◌else◌,
}
use bazzite_k.Common.Json.{Json}
use bazzite_k.TvControl.{
  Outcome, ok, raised, Link, Io, ◌>>=◌, bound, Call, connect, close, closed, open_ws, dialled,
  ws_send, await_registration, receive, with_key, registration,
}
use bazzite_k.TvControl.Standby.{
  Config, guarded_off, closing, closed_after, stored_key, new, attempt, run,
}
use bazzite_k.TvControl.Quiet.{
  standbys, is_standby, Quiet, >>=-Quiet, opened-Quiet, standbys-append,
}
use bazzite_k.TvControl.Target.{Approved}
use bazzite_k.TvControl.Guarded.{guarded_off_standby}

close-Quiet : Quiet close
unfolding close
close-Quiet l = step l.has_ws l.closing
  where
    dialled_off : Link
    dialled_off = record l { calls = l.calls ++ (Call.ws_close ∷ []) }

    step :
        (t : Bool) (o : Outcome (Unit {0}))
        → standbys (if t then closed dialled_off o else (ok tt, l)).1.calls ≡ standbys l.calls
    step true (ok u) = rw standbys-append (omega arith)
    step true (raised e) = rw standbys-append (omega arith)
    step false o = refl

closed_after-standbys :
    {A : Type 0} (o : Outcome A) (p : Outcome (Unit {0}) × Link)
    → standbys (closed_after o p).1.calls ≡ standbys p.1.calls
closed_after-standbys o (ok u, k) = refl
closed_after-standbys o (raised e, k) = refl

closing-standbys :
    {A : Type 0} (m : Io A) (l : Link) → standbys (closing m l).1.calls ≡ standbys (m l).1.calls
closing-standbys m l = closed_after-standbys (m l).0 (close (m l).1) ∙ close-Quiet (m l).1

open_ws-Quiet : Quiet open_ws
open_ws-Quiet l = opened-Quiet l.connecting (dialled l) ∙ rw standbys-append (omega arith)

await_registration-Quiet : (pair : Bool) (key : Json) → Quiet (await_registration pair key)
await_registration-Quiet pair key =
    >>=-Quiet (receive (registration pair key)) with_key (λ l. refl) (λ k l. refl)

-- The message of the client library is not the command `turnOff`.
abbrev pub IsRegistration : (Json → Json) → Type 0
IsRegistration registration_msg =
    (key : Json) → is_standby (Call.send_json (registration_msg key)) ≡ 0

connect-Quiet :
    (registration_msg : Json → Json) (pair : Bool)
    → IsRegistration registration_msg
    → Quiet (connect registration_msg pair)
unfolding connect
connect-Quiet registration_msg pair h l =
    >>=-Quiet open_ws (λ u. ws_send (registration_msg l.key) >>= λ v. await_registration pair l.key)
      open_ws-Quiet
      (λ u.
        >>=-Quiet (ws_send (registration_msg l.key)) (λ v. await_registration pair l.key)
          (λ k. rw (standbys-append, h l.key) (omega arith))
          (λ v. await_registration-Quiet pair l.key))
      l

-- What a standby command needs.
abbrev pub IsAllowed : Config → (Json → Json) → Bool → Option Json → Link → Type 0
IsAllowed c registration_msg check_only stored l =
    (check_only ≡ false)
    × ((key : Json) × (registered : Link) × (k : Link) × (stored_key stored ≡ ok key)
        × (connect registration_msg false (new key l) ≡ (ok tt, registered))
        × Approved c registered k)

guarded_standby :
    (c : Config) (registration_msg : Json → Json) (check_only : Bool) (l : Link)
    → IsRegistration registration_msg
    → (p : Outcome (Unit {0}) × Link) → connect registration_msg false l ≡ p
    → standbys (bound p (λ u. guarded_off c check_only)).1.calls ≢ standbys l.calls
    → (check_only ≡ false)
      × ((registered : Link) × (k : Link) × (connect registration_msg false l ≡ (ok tt, registered))
          × Approved c registered k)
guarded_standby c registration_msg check_only l reg (raised e, m) h n =
    absurd (n (ap (λ q. standbys q.1.calls) (sym h) ∙ connect-Quiet registration_msg false reg l))
guarded_standby c registration_msg check_only l reg (ok u, m) h n =
    let kept = ap (λ q. standbys q.1.calls) (sym h) ∙ connect-Quiet registration_msg false reg l in
    let (off, (k, two)) = guarded_off_standby c check_only m (λ same. n (same ∙ kept)) in
    (off, (m, k, h, two))

attempt_standby :
    (c : Config) (registration_msg : Json → Json) (check_only : Bool) (stored : Option Json)
    (l : Link)
    → IsRegistration registration_msg
    → (key : Outcome Json) → stored_key stored ≡ key
    → standbys (attempt c registration_msg check_only key l).1.calls ≢ standbys l.calls
    → IsAllowed c registration_msg check_only stored l
unfolding attempt
attempt_standby c registration_msg check_only stored l reg (raised e) h n = absurd (n refl)
attempt_standby c registration_msg check_only stored l reg (ok key) h n =
    let body : Io Bool = connect registration_msg false >>= λ u. guarded_off c check_only in
    let (off, (m, k, is_connected, two)) =
      guarded_standby c registration_msg check_only (new key l) reg
        (connect registration_msg false (new key l)) refl
        (λ same. n (closing-standbys body (new key l) ∙ same)) in
    (off, (key, m, k, h, is_connected, two))

-- `run` sends a standby command only without `--check`, with a key from the key file, after the
-- television has accepted this key, and after two snapshots in a row that are both on target.
pub run_standby :
    (c : Config) (registration_msg : Json → Json) (check_only : Bool) (stored : Option Json)
    (l : Link)
    → IsRegistration registration_msg
    → standbys (run c registration_msg check_only stored l).1.calls ≢ standbys l.calls
    → IsAllowed c registration_msg check_only stored l
unfolding run
run_standby c registration_msg check_only stored l reg n =
    attempt_standby c registration_msg check_only stored l reg (stored_key stored) refl n
