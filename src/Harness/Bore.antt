-- ===== src/Harness/Bore.antt =====
-- experimental/bore-thinlto/compare-bore.py: the benchmark with BORE off, on, on and off.
use bazzite_k.Common.{
  ℕ, Bool, true, false, ◌≡◌, refl, ◌&&◌, ◌==◌, Option, some, none, List, [], ◌∷◌, ◌++◌, String,
  if◌then◌else◌,
}
use bazzite_k.Harness.{
  in_turn, stopped-is_running, Action, ◌before◌, ◌finally◌, attempt, Child, stopped, is_running,
  Watch, watch, maximum, larger,
}

pub record Row : Type 0 where
  pub bore : ℕ
  pub max_temp : ℕ

pub record Bench : Type 0 where
  pub bore : String  -- /proc/sys/kernel/sched_bore
  pub load : Child
  pub test : Child
  pub rows : List Row

-- What the machine answers in one turn. Each reading is of all sensors.
pub record Trial : Type 0 where
  pub bore_writes : Bool
  pub load_starts : Bool
  pub test_starts : Bool
  pub temps : List (List (Option ℕ))
  pub returncode : ℕ
  pub prints : Bool

abbrev pub modes : List ℕ
modes = 0 ∷ 1 ∷ 1 ∷ 0 ∷ []

abbrev mode_text : ℕ → String
mode_text m = if m == 0 then "0" else "1"

abbrev with_sensor : Option ℕ → Option ℕ → Option ℕ
with_sensor (some a) (some b) = some (larger a b)
with_sensor _ _ = none

-- The largest of the sensors; none if one cannot be read, or if there is none.
abbrev warmest : List (Option ℕ) → Option ℕ
warmest [] = none
warmest (t ∷ []) = t
warmest (t ∷ u ∷ ts) = with_sensor t (warmest (u ∷ ts))

abbrev pub readings : List (List (Option ℕ)) → List (Option ℕ)
readings [] = []
readings (ts ∷ rest) = warmest ts ∷ readings rest

abbrev pub set_bore : ℕ → Trial → Action Bench
set_bore mode t = attempt t.bore_writes (λ b. record b { bore = mode_text mode })

abbrev pub start_load : Trial → Action Bench
start_load t = attempt t.load_starts (λ b. record b { load = Child.running })

abbrev pub start_test : Trial → Action Bench
start_test t = attempt t.test_starts (λ b. record b { test = Child.running })

-- The limit leaves the benchmark to the `finally`.
abbrev pub judge : ℕ → Trial → Watch → Action Bench
judge mode t Watch.unread b = (false, b)
judge mode t Watch.hot b = (false, b)
judge mode t (Watch.over ts) b =
    let after = record b { test = Child.ended } in
    elim (maximum ts) [
      | none ↦ (false, after)
      | some m ↦
          attempt (t.returncode == 0 && t.prints)
            (λ c. record c {
              rows = c.rows ++ (record { bore = mode; max_temp = m } ∷ []);
              test = Child.absent;
              load = Child.absent;
            })
            after
    ]

unfoldable pub trial : ℕ → Trial → Action Bench
trial mode t =
    set_bore mode t
    before start_load t
    before start_test t
    before judge mode t (watch (readings t.temps))

unfoldable pub trials : List ℕ → List Trial → Action Bench
trials = in_turn trial

unfoldable pub restore : String → Bool → Action Bench
restore original writes b =
    let after = record b { test = stopped b.test; load = stopped b.load } in
    attempt writes (λ c. record c { bore = original }) after

-- `disabled` tells that no other scheduler is loaded, `writes` that the old value can be written back.
unfoldable pub compare_bore : Bool → Bool → List Trial → Action Bench
compare_bore disabled writes ts b =
    if disabled then (trials modes ts finally restore b.bore writes) b else (false, b)

-- Whatever happens, and wherever `compare-bore.py` is interrupted, BORE is as it was if it can be
-- written, and neither the load nor the benchmark runs, if neither ran before.
pub compare_bore-is_running :
    (disabled writes : Bool) (ts : List Trial) (b : Bench)
    → writes ≡ true
    → is_running b.load ≡ false
    → is_running b.test ≡ false
    → let r = (compare_bore disabled writes ts b).1 in
      (r.bore ≡ b.bore) × (is_running r.load ≡ false) × (is_running r.test ≡ false)
unfolding compare_bore restore
compare_bore-is_running true writes ts b w l k =
    let c = (trials modes ts b).1 in
    rw w (refl, stopped-is_running c.load, stopped-is_running c.test)
compare_bore-is_running false writes ts b w l k = (refl, l, k)
