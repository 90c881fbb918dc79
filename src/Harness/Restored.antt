-- ===== src/Harness/Restored.antt =====
-- What experimental/tuning/compare.py leaves behind.
use bazzite_k.Common.{
  zero, suc, ℕ, ◌&&◌, ◌==◌, Bool, true, false, ◌≡◌, refl, ap, ◌⊎◌, inl, inr, Option, some, none,
  List, [], ◌∷◌, ◌++◌, String, length, Bool-cases, ◌<◌, arith,
}
use bazzite_k.Harness.{
  stopped-is_running, Child, is_running, ◌before◌, attempt, Watch, watch, maximum,
}
use bazzite_k.Harness.Rows.{Silent, before-Silent, attempt-Silent, in_turn-Silent}
use bazzite_k.Harness.Compare.{
  Bench, restore, end_sched, compare, Trial, trials, trial, order, Undo, write_each, end_all,
  reset_preempt, reset_epp, set_preempt, set_epp, wanted_epp, start_sched, start_load, start_test,
  measure, judge, forget_load, forget_sched, is_scx,
}

-- The policies of the machine: as many as before, whatever the program writes to them.
abbrev policies : Bench → ℕ
policies b = length b.epp

write_each-length : (n : ℕ) (vs old : List String) → length (write_each n vs old).1 ≡ length old
write_each-length n [] old = refl
write_each-length n (v ∷ vs) [] = refl
write_each-length zero (v ∷ vs) (o ∷ old) = refl
write_each-length (suc n) (v ∷ vs) (o ∷ old) = ap suc (write_each-length n vs old)

start_sched-policies : (conf : String) (t : Trial) → Silent policies (start_sched conf t)
start_sched-policies conf t b = elim (Bool-cases (is_scx conf)) [
  | inl h ↦ rw h refl
  | inr h ↦ rw h refl
]

judge-policies : (conf : String) (t : Trial) (w : Watch) → Silent policies (judge conf t w)
judge-policies conf t Watch.unread b = refl
judge-policies conf t Watch.hot b = refl
judge-policies conf t (Watch.over ts) b = go (maximum ts) (t.returncode == 0 && t.prints)
  where
    go :
        (o : Option ℕ) (good : Bool)
        → let r : Bool × Bench = elim o [
          | none ↦ (false, record b { test = Child.ended })
          | some m ↦
              attempt good
                (λ c. record c { rows = c.rows ++ (record { config = conf; max_temp = m } ∷ []) })
                (record b { test = Child.ended })
        ] in
          policies r.1 ≡ policies b
    go none good = refl
    go (some m) true = refl
    go (some m) false = refl

measure-policies : (conf : String) (t : Trial) → Silent policies (measure conf t)
measure-policies conf t b = elim (Bool-cases t.energy_reads) [
  | inl h ↦ rw h (judge-policies conf t (watch t.temps) b)
  | inr h ↦ rw h refl
]

trial-policies :
    (original : List String) (conf : String) (t : Trial) → Silent policies (trial original conf t)
unfolding trial
trial-policies original conf t =
    let end = forget_load before forget_sched t.sched_stops in
    let last = measure conf t before end in
    let tested = start_test t before last in
    let loaded = start_load t before tested in
    let scheduled = start_sched conf t before loaded in
    let set = set_epp original conf t before scheduled in
    let last_kept : Silent policies last =
      before-Silent policies (measure conf t) end (measure-policies conf t)
        (before-Silent policies forget_load (forget_sched t.sched_stops) (λ b. refl) (λ b. refl)) in
    let loaded_kept : Silent policies loaded =
      before-Silent policies (start_load t) tested
        (attempt-Silent policies t.load_starts _ (λ b. refl))
        (before-Silent policies (start_test t) last
          (attempt-Silent policies t.test_starts _ (λ b. refl)) last_kept) in
    let set_kept : Silent policies set =
      before-Silent policies (set_epp original conf t) scheduled
        (λ b. write_each-length t.epp_writes (wanted_epp conf original) b.epp)
        (before-Silent policies (start_sched conf t) loaded (start_sched-policies conf t)
          loaded_kept) in
    before-Silent policies (set_preempt conf t) set
      (attempt-Silent policies t.preempt_writes _ (λ b. refl)) set_kept

trials-policies :
    (original : List String) (ts : List Trial) → Silent policies (trials original order ts)
unfolding trials
trials-policies original ts =
    in_turn-Silent policies (trial original) (trial-policies original) order ts

-- All policies are written, or one write fails.
write_each-written :
    (n : ℕ) (vs old : List String)
    → length old ≡ length vs
    → let r = write_each n vs old in (r.0 ≡ true) × (r.1 ≡ vs) ⊎ (r.0 ≡ false) × (n < length vs)
write_each-written n [] [] h = inl (refl, refl)
write_each-written n [] (o ∷ old) h = absurd (omega (arith, h))
write_each-written n (v ∷ vs) [] h = absurd (omega (arith, h))
write_each-written zero (v ∷ vs) (o ∷ old) h = inr (refl, omega arith)
write_each-written (suc n) (v ∷ vs) (o ∷ old) h =
    elim (write_each-written n vs old (omega (arith, h))) [
      | inl (t, same) ↦ inl (t, ap (λ r. v ∷ r) same)
      | inr (f, less) ↦ inr (f, omega (arith, less))
    ]

-- No load and no scheduler runs, the preemption is `lazy`, and each policy is what it was.
pub record IsRestored (original : List String) (b : Bench) : Type 0 where
  pub preempt : b.preempt ≡ "lazy"
  pub epp : b.epp ≡ original
  pub load : is_running b.load ≡ false
  pub sched : is_running b.sched ≡ false

-- What the `finally` has raised for, and what it has undone before.
pub data IsCutShort (original : List String) (u : Undo) (b : Bench) : Type 0 where
  scheduler : u.sched_stops ≡ false → b.sched ≡ Child.running → IsCutShort original u b
  preemption : u.preempt_writes ≡ false → is_running b.sched ≡ false → IsCutShort original u b
  policy :
      u.epp_writes < length original
      → b.preempt ≡ "lazy"
      → is_running b.sched ≡ false
      → IsCutShort original u b

end_sched-cases :
    (stops : Bool) (c : Child)
    → let last = end_sched stops c in
      (last.0 ≡ true) × (is_running last.1 ≡ false)
      ⊎ (last.0 ≡ false) × (last.1 ≡ Child.running) × (stops ≡ false)
end_sched-cases stops Child.absent = inl (refl, refl)
end_sched-cases stops Child.ended = inl (refl, refl)
end_sched-cases true Child.running = inl (refl, refl)
end_sched-cases false Child.running = inr (refl, refl, refl)

abbrev Undone : List String → Undo → Bool × Bench → Type 0
Undone original u r =
    (is_running r.1.load ≡ false)
    × ((r.0 ≡ true) × IsRestored original r.1 ⊎ (r.0 ≡ false) × IsCutShort original u r.1)

resets-Undone :
    (original : List String) (u : Undo) (b : Bench)
    → length b.epp ≡ length original
    → is_running b.load ≡ false
    → is_running b.sched ≡ false
    → Undone original u ((reset_preempt u before reset_epp original u) b)
resets-Undone original u b h l s = elim (Bool-cases u.preempt_writes) [
  | inr f ↦ rw f (l, inr (refl, IsCutShort.preemption refl s))
  | inl t ↦ rw t (elim (write_each-written u.epp_writes original b.epp h) [
    | inl (w, same) ↦ (l, inl (w, record { preempt = refl; epp = same; load = l; sched = s }))
    | inr (w, less) ↦ (l, inr (w, IsCutShort.policy less refl s))
  ])
]

restore-Undone :
    (original : List String) (u : Undo) (b : Bench)
    → length b.epp ≡ length original
    → Undone original u (restore original u b)
unfolding restore
restore-Undone original u b h = elim (end_sched-cases u.sched_stops b.sched) [
  | inr (f, r, s) ↦ rw f (stopped-is_running b.load, inr (refl, IsCutShort.scheduler s r))
  | inl (t, s) ↦ rw t (resets-Undone original u (end_all u b).1 h (stopped-is_running b.load) s)
]

-- Whatever happens, and wherever `compare.py` is interrupted in its `try`, no load runs afterwards. And its
-- `finally` has ended the scheduler, set the preemption to `lazy` and each policy to what it was, or the
-- program has raised: a scheduler did not stop in time, and still runs; or the preemption could not be
-- written, and no scheduler runs; or a policy could not be written, the preemption is `lazy`, and no
-- scheduler runs.
pub compare-IsRestored :
    (u : Undo) (ts : List Trial) (b : Bench)
    → let r = compare u ts b in
      (is_running r.1.load ≡ false)
      × (IsRestored b.epp r.1 ⊎ (r.0 ≡ false) × IsCutShort b.epp u r.1)
unfolding compare
compare-IsRestored u ts b =
    let done = trials b.epp order ts b in
    let (load, undone) = restore-Undone b.epp u done.1 (trials-policies b.epp ts b) in
    (load, elim undone [ inl (t, k) ↦ inl k | inr (f, k) ↦ inr (and_false done.0 _ f, k) ])
  where
    and_false : (x y : Bool) → y ≡ false → x && y ≡ false
    and_false true y h = h
    and_false false y h = refl
