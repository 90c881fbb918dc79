-- ===== src/Harness/Finished.antt =====
-- What experimental/tuning/compare.py has measured when it returns.
use bazzite_k.Common.{
  refl, ◌&&◌, ◌==◌, ℕ, true, ◌≡◌, ◌∙◌, inl, inr, Option, some, none, List, [], ◌∷◌, ◌++◌, String,
  Bool-cases, false, Bool, ◌==◌,
}
use bazzite_k.Harness.{◌before◌, Watch, watch, maximum, Child, attempt}
use bazzite_k.Harness.Compare.{
  Undo, end_all, reset_preempt, reset_epp, Bench, Trial, Row, restore, compare, trials, trial,
  order, measure, judge, set_preempt, set_epp, start_sched, start_load, start_test, forget_load,
  forget_sched, is_scx,
}
use bazzite_k.Harness.Cool.{IsCool, AreCool, watch-AreCool, IsCoolMax, maximum-IsCoolMax}
use bazzite_k.Harness.Rows.{
  Added, Silent, Prints, AddedAll, before-Silent, Silent-before, before-Silent_last, attempt-Silent,
  in_turn-AddedAll,
}

-- A row for this configuration, with no temperature at the limit.
abbrev pub IsRow : String → Row → Type 0
IsRow conf row = (row.config ≡ conf) × IsCool row.max_temp

abbrev pub rows : Bench → List Row
rows b = b.rows

start_sched-Silent : (conf : String) (t : Trial) → Silent rows (start_sched conf t)
start_sched-Silent conf t b = elim (Bool-cases (is_scx conf)) [
  | inl h ↦ rw h refl
  | inr h ↦ rw h refl
]

judge-Prints :
    (conf : String) (t : Trial) (w : Watch) → AreCool w → Prints rows IsRow conf (judge conf t w)
judge-Prints conf t Watch.unread k b ok = absurd (cc)
judge-Prints conf t Watch.hot k b ok = absurd (cc)
judge-Prints conf t (Watch.over ts) k b ok =
    go (maximum ts) (t.returncode == 0 && t.prints) (maximum-IsCoolMax ts k) ok
  where
    go :
        (o : Option ℕ) (good : Bool)
        → IsCoolMax o
        → let r : Bool × Bench = elim o [
          | none ↦ (false, record b { test = Child.ended })
          | some m ↦
              attempt good
                (λ c. record c { rows = c.rows ++ (record { config = conf; max_temp = m } ∷ []) })
                (record b { test = Child.ended })
        ] in
          r.0 ≡ true → Added rows IsRow conf b r.1
    go none good c ok = absurd (cc)
    go (some m) true c ok = (record { config = conf; max_temp = m }, refl, (refl, c))
    go (some m) false c ok = absurd (cc)

measure-Prints : (conf : String) (t : Trial) → Prints rows IsRow conf (measure conf t)
measure-Prints conf t b ok = elim (Bool-cases t.energy_reads) [
  | inl h ↦
      let judged : (judge conf t (watch t.temps) b).0 ≡ true = rw h at ok in
      rw h (judge-Prints conf t (watch t.temps) (watch-AreCool t.temps) b judged)
  | inr h ↦ absurd (let bad : false ≡ true = rw h at ok in cc)
]

trial-Prints :
    (original : List String) (conf : String) (t : Trial)
    → Prints rows IsRow conf (trial original conf t)
unfolding trial
trial-Prints original conf t =
    let end = forget_load before forget_sched t.sched_stops in
    let last = measure conf t before end in
    let tested = start_test t before last in
    let loaded = start_load t before tested in
    let scheduled = start_sched conf t before loaded in
    let set = set_epp original conf t before scheduled in
    let last_Prints : Prints rows IsRow conf last =
      before-Silent_last rows IsRow conf (measure conf t) end (measure-Prints conf t)
        (before-Silent rows forget_load (forget_sched t.sched_stops) (λ b. refl) (λ b. refl)) in
    let loaded_Prints : Prints rows IsRow conf loaded =
      Silent-before rows IsRow conf (start_load t) tested
        (attempt-Silent rows t.load_starts _ (λ b. refl))
        (Silent-before rows IsRow conf (start_test t) last
          (attempt-Silent rows t.test_starts _ (λ b. refl)) last_Prints) in
    let set_Prints : Prints rows IsRow conf set =
      Silent-before rows IsRow conf (set_epp original conf t) scheduled (λ b. refl)
        (Silent-before rows IsRow conf (start_sched conf t) loaded (start_sched-Silent conf t)
          loaded_Prints) in
    Silent-before rows IsRow conf (set_preempt conf t) set
      (attempt-Silent rows t.preempt_writes _ (λ b. refl)) set_Prints

restore-rows : (original : List String) (u : Undo) → Silent rows (restore original u)
unfolding restore
restore-rows original u =
    let kept =
      before-Silent rows (reset_preempt u) (reset_epp original u)
        (attempt-Silent rows u.preempt_writes _ (λ b. refl)) (λ b. refl) in
    before-Silent rows (end_all u) (reset_preempt u before reset_epp original u) (λ b. refl) kept

-- If `compare.py` ends without an exception, it has printed one row for each configuration of both
-- rounds, in order, and has read no largest temperature of 95 degrees or more.
pub compare-AddedAll :
    (u : Undo) (ts : List Trial) (b : Bench)
    → (compare u ts b).0 ≡ true
    → AddedAll rows IsRow order b (compare u ts b).1
unfolding compare trials
compare-AddedAll u ts b ok =
    let done = trials b.epp order ts b in
    let (more, here, all) =
      in_turn-AddedAll rows IsRow (trial b.epp) (trial-Prints b.epp) order ts b
        (and_left done.0 _ ok) in
    (more, restore-rows b.epp u done.1 ∙ here, all)
  where
    and_left : (x y : Bool) → x && y ≡ true → x ≡ true
    and_left true y h = refl
    and_left false y h = h
