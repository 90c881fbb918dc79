-- ===== src/Harness/Compare.antt =====
-- experimental/tuning/compare.py: benchmarks under each scheduler, twice, the second time in reverse.
use bazzite_k.Common.{
  zero, suc, ℕ, Bool, true, false, ◌&&◌, ◌||◌, ◌==◌, Option, some, none, List, [], ◌∷◌, ◌++◌,
  String, if◌then◌else◌, text_eq, map,
}
use mathlib.Core.List.{reverse}
use bazzite_k.Harness.{
  in_turn, Action, ◌before◌, ◌finally◌, attempt, Child, stopped, Watch, watch, maximum,
}

-- What a row of the output says: the configuration, and the largest temperature.
pub record Row : Type 0 where
  pub config : String
  pub max_temp : ℕ

-- The machine, the child processes that the variables hold, and what has been printed.
pub record Bench : Type 0 where
  pub preempt : String
  pub epp : List String  -- one for each policy of the processor
  pub sched : Child
  pub load : Child
  pub test : Child
  pub rows : List Row

-- What the machine answers in one turn of the inner loop.
pub record Trial : Type 0 where
  pub preempt_writes : Bool
  pub epp_writes : ℕ  -- the number of the policies that are written before one fails
  pub sched_starts : Bool
  pub sched_lives : Bool
  pub load_starts : Bool
  pub test_starts : Bool
  pub energy_reads : Bool
  pub temps : List (Option ℕ)
  pub returncode : ℕ
  pub prints : Bool  -- the result is JSON, and what else the row needs can be read
  pub sched_stops : Bool  -- in ten seconds

abbrev pub configs : List String
configs = "default" ∷ "full" ∷ "lavd" ∷ "bpfland" ∷ "epp-performance" ∷ []

abbrev pub order : List String
order = configs ++ reverse configs

abbrev pub is_scx : String → Bool
is_scx conf = text_eq conf "lavd" || text_eq conf "bpfland"

abbrev pub set_preempt : String → Trial → Action Bench
set_preempt conf t =
    attempt t.preempt_writes
      (λ b. record b { preempt = if text_eq conf "full" then "full" else "lazy" })

abbrev pub wanted_epp : String → List String → List String
wanted_epp conf original =
    map (λ v. if text_eq conf "epp-performance" then "performance" else v) original

-- The policies are written one by one, until a write fails after `n` of them.
abbrev pub write_each : ℕ → List String → List String → Bool × List String
write_each n [] old = (true, old)
write_each n (v ∷ vs) [] = (true, [])
write_each zero (v ∷ vs) (o ∷ old) = (false, o ∷ old)
write_each (suc n) (v ∷ vs) (o ∷ old) = let rest = write_each n vs old in (rest.0, v ∷ rest.1)

abbrev pub set_epp : List String → String → Trial → Action Bench
set_epp original conf t b =
    let written = write_each t.epp_writes (wanted_epp conf original) b.epp in
    (written.0, record b { epp = written.1 })

abbrev pub start_sched : String → Trial → Action Bench
start_sched conf t b =
    if is_scx conf
    then (
      t.sched_starts && t.sched_lives,
      record b {
        sched =
            if t.sched_starts
            then (if t.sched_lives then Child.running else Child.ended)
            else b.sched;
      },
    )
    else (true, b)

abbrev pub start_load : Trial → Action Bench
start_load t = attempt t.load_starts (λ b. record b { load = Child.running })

abbrev pub start_test : Trial → Action Bench
start_test t = attempt t.test_starts (λ b. record b { test = Child.running })

-- From the first look at the temperature to the printed row.
abbrev pub judge : String → Trial → Watch → Action Bench
judge conf t Watch.unread b = (false, b)
judge conf t Watch.hot b = (false, record b { test = Child.ended })
judge conf t (Watch.over ts) b =
    let after = record b { test = Child.ended } in
    elim (maximum ts) [
      | none ↦ (false, after)
      | some m ↦
          attempt (t.returncode == 0 && t.prints)
            (λ c. record c { rows = c.rows ++ (record { config = conf; max_temp = m } ∷ []) }) after
    ]

abbrev pub measure : String → Trial → Action Bench
measure conf t b = if t.energy_reads then judge conf t (watch t.temps) b else (false, b)

abbrev pub forget_load : Action Bench
forget_load b = (true, record b { load = Child.absent })

-- `terminate` and `wait(timeout=10)`, which raises if the scheduler goes on.
abbrev pub end_sched : Bool → Child → Bool × Child
end_sched stops Child.absent = (true, Child.absent)
end_sched stops Child.running = if stops then (true, Child.ended) else (false, Child.running)
end_sched stops Child.ended = (true, Child.ended)

abbrev pub forget_sched : Bool → Action Bench
forget_sched stops b =
    let last = end_sched stops b.sched in
    (last.0, record b { sched = if last.0 then Child.absent else last.1 })

-- One turn of the inner loop.
unfoldable pub trial : List String → String → Trial → Action Bench
trial original conf t =
    set_preempt conf t
    before set_epp original conf t
    before start_sched conf t
    before start_load t
    before start_test t
    before measure conf t
    before forget_load
    before forget_sched t.sched_stops

-- The loops.
unfoldable pub trials : List String → List String → List Trial → Action Bench
trials original = in_turn (trial original)

-- What the machine answers in the `finally`.
pub record Undo : Type 0 where
  pub sched_stops : Bool  -- in ten seconds
  pub preempt_writes : Bool
  pub epp_writes : ℕ  -- the number of the policies that are written before one fails

abbrev pub end_all : Undo → Action Bench
end_all u b =
    let last = end_sched u.sched_stops b.sched in
    (last.0, record b { load = stopped b.load; sched = last.1 })

abbrev pub reset_preempt : Undo → Action Bench
reset_preempt u = attempt u.preempt_writes (λ b. record b { preempt = "lazy" })

abbrev pub reset_epp : List String → Undo → Action Bench
reset_epp original u b =
    let written = write_each u.epp_writes original b.epp in
    (written.0, record b { epp = written.1 })

-- The `finally`.
unfoldable pub restore : List String → Undo → Action Bench
restore original u = end_all u before reset_preempt u before reset_epp original u

unfoldable pub compare : Undo → List Trial → Action Bench
compare u ts b = (trials b.epp order ts finally restore b.epp u) b
