-- ===== src/Harness/RenderBore.antt =====
-- experimental/bore-thinlto/render-compare-bore.py: frame times of a test program with BORE off, on, on
-- and off.
use bazzite_k.Common.{
  ◌&&◌, ℕ, Bool, true, false, ◌≡◌, refl, ◌⊎◌, inl, inr, ◌==◌, List, [], ◌∷◌, ◌++◌, String,
  if◌then◌else◌,
}
use bazzite_k.Harness.{
  in_turn, Action, ◌before◌, ◌finally◌, attempt, Child, stopped, is_running, stopped-is_running,
}
use bazzite_k.Harness.Render.{Look, awaited}

pub record Bench : Type 0 where
  pub bore : String  -- /proc/sys/kernel/sched_bore
  pub main : List ℕ  -- VRRTest/main.lua
  pub load : Child
  pub rows : List ℕ  -- the values of BORE that have a row

pub record Trial : Type 0 where
  pub bore_writes : Bool
  pub load_starts : Bool
  pub steam_runs : Bool  -- `runuser` ends within ten seconds
  pub looks : List Look  -- until the result exists
  pub prints : Bool

abbrev pub modes : List ℕ
modes = 0 ∷ 1 ∷ 1 ∷ 0 ∷ []

abbrev mode_text : ℕ → String
mode_text m = if m == 0 then "0" else "1"

abbrev pub set_bore : ℕ → Trial → Action Bench
set_bore conf t = attempt t.bore_writes (λ b. record b { bore = mode_text conf })

abbrev pub start_load : Trial → Action Bench
start_load t = attempt t.load_starts (λ b. record b { load = Child.running })

abbrev pub await_result : Trial → Action Bench
await_result t = attempt t.steam_runs (λ b. b) before attempt (awaited t.looks) (λ b. b)

abbrev pub print_row : ℕ → Trial → Action Bench
print_row conf t =
    attempt t.prints (λ b. record b { rows = b.rows ++ (conf ∷ []); load = Child.absent })

-- No scheduler is ever started here, so that nothing follows the end of the load.
unfoldable pub trial : ℕ → Trial → Action Bench
trial conf t = set_bore conf t before start_load t before await_result t before print_row conf t

unfoldable pub trials : List ℕ → List Trial → Action Bench
trials = in_turn trial

-- What can be written in the `finally`.
pub record Undo : Type 0 where
  pub bore_writes : Bool
  pub main_writes : Bool

-- The `finally` writes BORE first, and then the program: if one raises, what is after it is not undone.
unfoldable pub restore : String → List ℕ → Undo → Action Bench
restore bore main u =
    attempt u.bore_writes (λ b. record b { bore = bore })
    before attempt u.main_writes (λ b. record b { main = main })
    before (λ b. (true, record b { load = stopped b.load }))

-- `disabled` tells that no other scheduler is loaded, and `writes` that the program can be written with
-- `instrument` after it.
unfoldable pub render_compare_bore : List ℕ → Bool → Bool → Undo → List Trial → Action Bench
render_compare_bore instrument disabled writes u ts b =
    if disabled
    then (attempt writes (λ c. record c { main = c.main ++ instrument }) before trials modes ts
          finally restore b.bore b.main u)
        b
    else (false, b)

pub record IsRestored (b r : Bench) : Type 0 where
  pub bore : r.bore ≡ b.bore
  pub main : r.main ≡ b.main
  pub load : is_running r.load ≡ false

-- What could not be written, and what has been undone before.
pub data IsCutShort (b : Bench) (u : Undo) (r : Bench) : Type 0 where
  bore : u.bore_writes ≡ false → IsCutShort b u r
  main : u.main_writes ≡ false → r.bore ≡ b.bore → IsCutShort b u r

restore-IsRestored :
    (b c : Bench) (bore_writes main_writes : Bool)
    → let u : Undo = record { bore_writes = bore_writes; main_writes = main_writes } in
      let r = restore b.bore b.main u c in IsRestored b r.1 ⊎ (r.0 ≡ false) × IsCutShort b u r.1
unfolding restore
restore-IsRestored b c true true =
    inl (record { bore = refl; main = refl; load = stopped-is_running c.load })
restore-IsRestored b c true false = inr (refl, IsCutShort.main refl refl)
restore-IsRestored b c false main_writes = inr (refl, IsCutShort.bore refl)

-- Whatever happens, and wherever `render-compare-bore.py` is interrupted in its `try`, BORE and the program
-- of the user are as they were and no load runs, or it has raised: BORE could not be written at the end, or
-- BORE is as it was and the program could not be written; so also where it does not begin, if no load
-- runs before.
pub render_compare_bore-IsRestored :
    (instrument : List ℕ) (disabled writes : Bool) (u : Undo) (ts : List Trial) (b : Bench)
    → is_running b.load ≡ false
    → let r = render_compare_bore instrument disabled writes u ts b in
      IsRestored b r.1 ⊎ (r.0 ≡ false) × IsCutShort b u r.1
unfolding render_compare_bore
render_compare_bore-IsRestored instrument true writes u ts b l =
    let body : Action Bench =
      attempt writes (λ c. record c { main = c.main ++ instrument }) before trials modes ts in
    elim (restore-IsRestored b (body b).1 u.bore_writes u.main_writes) [
      | inl k ↦ inl k
      | inr (f, w) ↦ inr (and_false (body b).0 _ f, w)
    ]
  where
    and_false : (x y : Bool) → y ≡ false → x && y ≡ false
    and_false true y h = h
    and_false false y h = refl
render_compare_bore-IsRestored instrument false writes u ts b l =
    inl (record { bore = refl; main = refl; load = l })
