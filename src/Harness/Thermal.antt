-- ===== src/Harness/Thermal.antt =====
-- experimental/tuning/thermal-test.py: three minutes of load, and a line every two seconds.
use bazzite_k.Common.{
  refl, ℕ, Bool, true, false, leb, Option, some, none, List, [], ◌∷◌, ◌++◌, if◌then◌else◌, ◌-◌, ◌%◌,
  ltb, All, ◌≡◌, ◌⊎◌, inl, sym, ◌∙◌, inr, Bool-cases, arith,
}
use mathlib.Core.List.{append-nil, append_assoc}
use bazzite_k.Harness.{is_running, stopped-is_running, Child, stopped}

-- What is read in a turn of the loop: the energy in millionths of a joule, the temperature in
-- thousandths of a degree, and the frequencies in kilohertz.
pub record Sample : Type 0 where
  pub energy : ℕ
  pub temp : ℕ
  pub freqs : List ℕ

pub record Line : Type 0 where
  pub temp : ℕ
  pub joules : ℕ  -- in millionths, since the line before
  pub freqs : List ℕ

pub record Thermal : Type 0 where
  pub p : Child
  pub prev_e : ℕ
  pub lines : List Line
  pub stopped_hot : Bool  -- `STOP` has been printed

-- The counter of the energy begins anew at `limit`.
abbrev spent : ℕ → ℕ → ℕ → ℕ
spent limit prev e = if leb prev e then (e - prev) % limit else (limit - (prev - e) % limit) % limit

abbrev print_line : ℕ → Sample → Thermal → Thermal
print_line limit s w = record w {
  lines =
      w.lines
      ++ (record { temp = s.temp; joules = spent limit w.prev_e s.energy; freqs = s.freqs } ∷ []);
  prev_e = s.energy;
}

-- One sample for each time that `p.poll()` is `None`; none is an exception in the reading.
unfoldable pub sample_loop : ℕ → List (Option Sample) → Thermal → Bool × Thermal
sample_loop limit [] w = (true, record w { p = Child.ended })
sample_loop limit (none ∷ ss) w = (false, w)
sample_loop limit (some s ∷ ss) w =
    let after = print_line limit s w in
    let rest = sample_loop limit ss after in
    if leb 95000 s.temp then (true, record after { p = Child.ended; stopped_hot = true }) else rest

unfoldable pub thermal_test : ℕ → ℕ → List (Option Sample) → Bool × Thermal
thermal_test limit energy ss =
    let start : Thermal = record {
      p = Child.running;
      prev_e = energy;
      lines = [];
      stopped_hot = false;
    } in
    let left = sample_loop limit ss start in (left.0, record left.1 { p = stopped left.1.p })

-- Below the limit.
abbrev IsCool : Line → Type 0
IsCool l = ltb l.temp 95000 ≡ true

-- What the loop prints: only the last line can be of 95 degrees or more, and exactly then the load is
-- stopped early.
abbrev pub IsStopped : List Line → Thermal → Type 0
IsStopped earlier w =
    (cool : List Line) × All IsCool cool
    × ((w.stopped_hot ≡ false) × (w.lines ≡ earlier ++ cool)
        ⊎ (last : Line) × (w.stopped_hot ≡ true)
          × (leb 95000 last.temp ≡ true)
          × (w.lines ≡ earlier ++ (cool ++ (last ∷ []))))

sample_loop-IsStopped :
    (limit : ℕ) (ss : List (Option Sample)) (w : Thermal)
    → w.stopped_hot ≡ false
    → IsStopped w.lines (sample_loop limit ss w).1
unfolding sample_loop
sample_loop-IsStopped limit [] w n = ([], tt, inl (n, sym (append-nil w.lines)))
sample_loop-IsStopped limit (none ∷ ss) w n = ([], tt, inl (n, sym (append-nil w.lines)))
sample_loop-IsStopped limit (some s ∷ ss) w n = elim (Bool-cases (leb 95000 s.temp)) [
  | inl h ↦ rw h (
    [],
    tt,
    inr (
      record { temp = s.temp; joules = spent limit w.prev_e s.energy; freqs = s.freqs },
      refl,
      h,
      refl,
    ),
  )
  | inr c ↦ rw c (
      later _ (sample_loop limit ss (print_line limit s w)).1
        (sample_loop-IsStopped limit ss (print_line limit s w) n) (ground arith))
]
  where
    later :
        (l : Line) (e : Thermal)
        → IsStopped (w.lines ++ (l ∷ [])) e
        → IsCool l
        → IsStopped w.lines e
    later l e (cool, all, inl (f, q)) k =
        (l ∷ cool, (k, all), inl (f, q ∙ append_assoc w.lines (l ∷ []) cool))
    later l e (cool, all, inr (last, t, h, q)) k = (
      l ∷ cool,
      (k, all),
      inr (last, t, h, q ∙ append_assoc w.lines (l ∷ []) (cool ++ (last ∷ []))),
    )

-- Whatever is read, and whether or not a reading raises, the load has ended after `thermal-test.py`, and
-- only the last line that it prints can be of 95 degrees or more: it is exactly if `STOP` is printed.
pub thermal_test-IsStopped :
    (limit energy : ℕ) (ss : List (Option Sample))
    → let r = (thermal_test limit energy ss).1 in (is_running r.p ≡ false) × IsStopped [] r
unfolding thermal_test
thermal_test-IsStopped limit energy ss =
    let start : Thermal = record {
      p = Child.running;
      prev_e = energy;
      lines = [];
      stopped_hot = false;
    } in
    (stopped-is_running (sample_loop limit ss start).1.p, sample_loop-IsStopped limit ss start refl)
