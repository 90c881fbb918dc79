-- ===== src/Harness/FinishedBore.antt =====
-- What the programs of experimental/bore-thinlto have measured when they return, and what they leave.
use bazzite_k.Common.{
  ℕ, Bool, true, false, ◌≡◌, refl, ◌&&◌, ◌==◌, Option, none, some, List, [], ◌∷◌, ◌++◌,
}
use bazzite_k.Harness.{◌before◌, attempt, Child, is_running, Watch, watch, maximum}
use bazzite_k.Harness.Cool.{IsCool, AreCool, watch-AreCool, IsCoolMax, maximum-IsCoolMax}
use bazzite_k.Harness.Rows.{
  Added, Prints, AddedAll, Silent-before, attempt-Silent, in_turn-AddedAll,
}
use bazzite_k.Harness.Bore
use bazzite_k.Harness.Bore.{Bench, Trial, Row, compare_bore, compare_bore-is_running}

and_left : (x y : Bool) → x && y ≡ true → x ≡ true
and_left true y h = refl
and_left false y h = h

-- A row for this value of BORE, with no temperature at the limit.
abbrev pub IsRow : ℕ → Row → Type 0
IsRow mode row = (row.bore ≡ mode) × IsCool row.max_temp

abbrev pub rows : Bench → List Row
rows b = b.rows

judge-Prints :
    (mode : ℕ) (t : Trial) (w : Watch) → AreCool w → Prints rows IsRow mode (Bore.judge mode t w)
judge-Prints mode t Watch.unread k b ok = absurd (cc)
judge-Prints mode t Watch.hot k b ok = absurd (cc)
judge-Prints mode t (Watch.over ts) k b ok =
    go (maximum ts) (t.returncode == 0 && t.prints) (maximum-IsCoolMax ts k) ok
  where
    go :
        (o : Option ℕ) (good : Bool)
        → IsCoolMax o
        → let r : Bool × Bench = elim o [
          | none ↦ (false, record b { test = Child.ended })
          | some m ↦
              attempt good
                (λ c. record c {
                  rows = c.rows ++ (record { bore = mode; max_temp = m } ∷ []);
                  test = Child.absent;
                  load = Child.absent;
                })
                (record b { test = Child.ended })
        ] in
          r.0 ≡ true → Added rows IsRow mode b r.1
    go none good c ok = absurd (cc)
    go (some m) true c ok = (record { bore = mode; max_temp = m }, refl, (refl, c))
    go (some m) false c ok = absurd (cc)

trial-Prints : (mode : ℕ) (t : Trial) → Prints rows IsRow mode (Bore.trial mode t)
unfolding Bore.trial
trial-Prints mode t =
    let last = Bore.judge mode t (watch (Bore.readings t.temps)) in
    let tested = Bore.start_test t before last in
    let loaded = Bore.start_load t before tested in
    Silent-before rows IsRow mode (Bore.set_bore mode t) loaded
      (attempt-Silent rows t.bore_writes _ (λ b. refl))
      (Silent-before rows IsRow mode (Bore.start_load t) tested
        (attempt-Silent rows t.load_starts _ (λ b. refl))
        (Silent-before rows IsRow mode (Bore.start_test t) last
          (attempt-Silent rows t.test_starts _ (λ b. refl))
          (judge-Prints mode t (watch (Bore.readings t.temps))
            (watch-AreCool (Bore.readings t.temps)))))

-- If `compare-bore.py` ends without an exception, it has printed one row for BORE off, on, on and off,
-- has read no largest temperature of 95 degrees or more, and leaves BORE as it was, and no load and no
-- benchmark running.
pub compare_bore-AddedAll :
    (disabled : Bool) (ts : List Trial) (b : Bench)
    → is_running b.load ≡ false
    → is_running b.test ≡ false
    → (compare_bore disabled true ts b).0 ≡ true
    → let r = (compare_bore disabled true ts b).1 in
      AddedAll rows IsRow (0 ∷ 1 ∷ 1 ∷ 0 ∷ []) b r
      × (r.bore ≡ b.bore)
      × (is_running r.load ≡ false)
      × (is_running r.test ≡ false)
unfolding compare_bore Bore.restore Bore.trials
compare_bore-AddedAll true ts b l k ok =
    let (bore, load, test) = compare_bore-is_running true true ts b refl l k in
    (
      in_turn-AddedAll rows IsRow Bore.trial trial-Prints (0 ∷ 1 ∷ 1 ∷ 0 ∷ []) ts b
          (and_left (Bore.trials Bore.modes ts b).0 _ ok),
      bore,
      load,
      test,
    )
compare_bore-AddedAll false ts b l k ok = absurd (let bad : false ≡ true = ok in cc)
