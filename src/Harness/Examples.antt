-- ===== src/Harness/Examples.antt =====
-- Runs of the measuring programs on concrete machines.
use bazzite_k.Common.{false, true, false, ◌≡◌, refl, ◌⊎◌, Option, some, List, [], ◌∷◌}
use bazzite_k.Harness.{is_running, Child, watch}
use bazzite_k.Harness.Bore
use bazzite_k.Harness.FinishedBore
use bazzite_k.Harness.Compare.{Undo, Bench, Trial, compare, trials, trial, order, restore}
use bazzite_k.Harness.Restored.{IsCutShort, IsRestored, compare-IsRestored}
use bazzite_k.Harness.Finished.{IsRow, rows, compare-AddedAll}
use bazzite_k.Harness.Rows.{AddedAll}
use bazzite_k.Harness.Thermal.{Sample}

abbrev machine : Bench
machine = record {
  preempt = "lazy";
  epp = "balance_performance" ∷ "power" ∷ [];
  sched = Child.absent;
  load = Child.absent;
  test = Child.absent;
  rows = [];
}

abbrev good : Trial
good = record {
  preempt_writes = true;
  epp_writes = 2;
  sched_starts = true;
  sched_lives = true;
  load_starts = true;
  test_starts = true;
  energy_reads = true;
  temps = some 61000 ∷ some 72000 ∷ [];
  returncode = 0;
  prints = true;
  sched_stops = true;
}

-- Both rounds.
abbrev whole : List Trial
whole = good ∷ good ∷ good ∷ good ∷ good ∷ good ∷ good ∷ good ∷ good ∷ good ∷ []

-- The third configuration is too warm, while its scheduler runs.
abbrev too_warm : List Trial
too_warm = good ∷ good ∷ record good { temps = some 94000 ∷ some 95000 ∷ [] } ∷ []

abbrev undo : Undo
undo = record { sched_stops = true; preempt_writes = true; epp_writes = 2 }

whole-ok : (compare undo whole machine).0 ≡ true
unfolding compare trials trial watch restore
whole-ok = refl

-- A scheduler that does not stop.
stuck : (compare (record undo { sched_stops = false }) too_warm machine).1.sched ≡ Child.running
unfolding compare trials trial watch restore
stuck = refl

-- The second policy cannot be written, after a run that has changed both.
abbrev half : Undo
half = record undo { epp_writes = 1 }

abbrev changed : List Trial
changed = good ∷ good ∷ good ∷ good ∷ record good { test_starts = false } ∷ []

half-epp : (compare half changed machine).1.epp ≡ "balance_performance" ∷ "performance" ∷ []
unfolding compare trials trial watch restore
half-epp = refl

compare-IsRestored_example :
    (is_running (compare half changed machine).1.load ≡ false)
    × (IsRestored machine.epp (compare half changed machine).1
        ⊎ ((compare half changed machine).0 ≡ false)
          × IsCutShort machine.epp half (compare half changed machine).1)
compare-IsRestored_example = compare-IsRestored half changed machine

compare-AddedAll_example : AddedAll rows IsRow order machine (compare undo whole machine).1
compare-AddedAll_example = compare-AddedAll undo whole machine whole-ok

abbrev samples : List (Option Sample)
samples =
    some (record { energy = 500; temp = 80000; freqs = [] })
    ∷ some (record { energy = 20; temp = 95000; freqs = [] })
    ∷ []

abbrev bore_machine : Bore.Bench
bore_machine = record { bore = "1"; load = Child.absent; test = Child.absent; rows = [] }

abbrev bore_trial : Bore.Trial
bore_trial = record {
  bore_writes = true;
  load_starts = true;
  test_starts = true;
  temps = (some 60000 ∷ some 71000 ∷ []) ∷ (some 62000 ∷ some 70000 ∷ []) ∷ [];
  returncode = 0;
  prints = true;
}

abbrev bore_trials : List Bore.Trial
bore_trials = bore_trial ∷ bore_trial ∷ bore_trial ∷ bore_trial ∷ []

bore_trials-ok : (Bore.compare_bore true true bore_trials bore_machine).0 ≡ true
unfolding Bore.compare_bore Bore.trials Bore.trial Bore.restore watch
bore_trials-ok = refl

compare_bore-AddedAll_example :
    let r = (Bore.compare_bore true true bore_trials bore_machine).1 in
    AddedAll FinishedBore.rows FinishedBore.IsRow (0 ∷ 1 ∷ 1 ∷ 0 ∷ []) bore_machine r
    × (r.bore ≡ "1")
    × (is_running r.load ≡ false)
    × (is_running r.test ≡ false)
compare_bore-AddedAll_example =
    FinishedBore.compare_bore-AddedAll true bore_trials bore_machine refl refl bore_trials-ok
