-- ===== src/TvControl/Guarded.antt =====
-- examples/tv-control/sleep_av.py: when `guarded_off` sends the standby commands.
use bazzite_k.Common.{[], ◌∷◌, ◌++◌, ◌+◌, ◌≡◌, ◌≢◌, refl, ap, sym, ◌∙◌, Bool, true, false}
use bazzite_k.TvControl.{Call, Outcome, ok, raised, Link}
use bazzite_k.TvControl.Standby.{Config, matches, standby, guarded_off}
use bazzite_k.TvControl.Quiet.{standbys, matches-Quiet, standby-calls, turn_off}
use bazzite_k.TvControl.Target.{Approved, matches-Approved, Approved-matches}

-- What comes of the loop over the snapshots.
data Checked (c : Config) (check_only : Bool) (l : Link) : Type 0 where
  skipped :
      standbys (guarded_off c check_only l).1.calls ≡ standbys l.calls → Checked c check_only l
  approved : (k : Link) → check_only ≡ false → Approved c l k → Checked c check_only l

guarded_off-Checked : (c : Config) (check_only : Bool) (l : Link) → Checked c check_only l
unfolding guarded_off
guarded_off-Checked c check_only l = step (matches c 2 l) refl check_only refl
  where
    step :
        (p : Outcome Bool × Link)
        → matches c 2 l ≡ p
        → (b : Bool) → check_only ≡ b
        → Checked c check_only l
    step (raised e, k) h b is_b =
        skipped (rw h (ap (λ q. standbys q.1.calls) (sym h) ∙ matches-Quiet c 2 l))
    step (ok false, k) h b is_b =
        skipped (rw h (ap (λ q. standbys q.1.calls) (sym h) ∙ matches-Quiet c 2 l))
    step (ok true, k) h true is_b =
        skipped (rw (h, is_b) (ap (λ q. standbys q.1.calls) (sym h) ∙ matches-Quiet c 2 l))
    step (ok true, k) h false is_b = approved k is_b (matches-Approved c l k h)

-- A standby command is sent only without `check_only`, and after two snapshots in a row in which the
-- television and the receiver are on and both show the PC.
pub guarded_off_standby :
    (c : Config) (check_only : Bool) (l : Link)
    → standbys (guarded_off c check_only l).1.calls ≢ standbys l.calls
    → (check_only ≡ false) × ((k : Link) × Approved c l k)
guarded_off_standby c check_only l h = elim (guarded_off-Checked c check_only l) [
  | skipped same ↦ absurd (h same)
  | approved k off two ↦ (off, (k, two))
]

Approved-standby : (c : Config) (l k : Link) → Approved c l k → guarded_off c false l ≡ standby k
unfolding guarded_off
Approved-standby c l k two = rw (Approved-matches c l k two) refl

kept-standbys : (c : Config) (l k : Link) → Approved c l k → standbys k.calls ≡ standbys l.calls
kept-standbys c l k two =
    ap (λ q. standbys q.1.calls) (sym (Approved-matches c l k two)) ∙ matches-Quiet c 2 l

-- After two snapshots in a row that are on target, during which no standby command is sent, and without
-- `check_only`, `guarded_off` sends both commands, one to the television and one to the receiver, and
-- nothing else, whatever comes of the first one.
pub guarded_off_both :
    (c : Config) (l k : Link)
    → Approved c l k
    → (standbys k.calls ≡ standbys l.calls)
      × ((guarded_off c false l).1.calls
          ≡ k.calls ++ (turn_off (k.counter + 1) ∷ Call.http_get "PWSTANDBY" ∷ []))
guarded_off_both c l k two =
    (kept-standbys c l k two, rw (Approved-standby c l k two) (standby-calls k))
