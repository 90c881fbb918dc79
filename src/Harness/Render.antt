-- ===== src/Harness/Render.antt =====
-- experimental/tuning/render-compare.py: frame times of a test program, with and without a scheduler.
use bazzite_k.Common.{
  ℕ, Bool, true, false, ◌≡◌, refl, ◌&&◌, leb, List, [], ◌∷◌, ◌++◌, String, if◌then◌else◌, text_eq,
}
use bazzite_k.Harness.{
  in_turn, stopped-is_running, Action, ◌before◌, ◌finally◌, attempt, Child, stopped, is_running,
}
use bazzite_k.Harness.Compare.{end_sched}

pub record Bench : Type 0 where
  pub main : List ℕ  -- VRRTest/main.lua
  pub sched : Child
  pub load : Child
  pub rows : List String  -- the configurations that have a row

-- A look at whether the result exists, when it does not: the time is over, or what the sensor says.
pub data Look : Type 0 where
  late : Look
  reads : ℕ → Look
  unread : Look

pub record Trial : Type 0 where
  pub sched_starts : Bool
  pub sched_lives : Bool
  pub load_starts : Bool
  pub steam_runs : Bool  -- `runuser` ends within ten seconds
  pub looks : List Look  -- until the result exists
  pub prints : Bool
  pub sched_stops : Bool

abbrev configs : List String
configs = "default" ∷ "bpfland" ∷ "bpfland" ∷ "default" ∷ []

abbrev start_sched : String → Trial → Action Bench
start_sched conf t b =
    if text_eq conf "bpfland"
    then (
      t.sched_starts && t.sched_lives,
      record b {
        sched =
            if t.sched_starts
            then (if t.sched_lives then Child.running else Child.ended)
            else b.sched;
      },
    )
    else (true, b)

abbrev start_load : Trial → Action Bench
start_load t = attempt t.load_starts (λ b. record b { load = Child.running })

-- `while not result.exists()`
abbrev pub awaited : List Look → Bool
awaited [] = true
awaited (Look.late ∷ ls) = false
awaited (Look.reads t ∷ ls) = let rest = awaited ls in if leb 95000 t then false else rest
awaited (Look.unread ∷ ls) = false

abbrev print_row : String → Trial → Action Bench
print_row conf t =
    attempt t.prints (λ b. record b { rows = b.rows ++ (conf ∷ []); load = Child.absent })

abbrev forget_sched : Bool → Action Bench
forget_sched stops b =
    let last = end_sched stops b.sched in
    (last.0, record b { sched = if last.0 then Child.absent else last.1 })

unfoldable pub trial : String → Trial → Action Bench
trial conf t =
    start_sched conf t
    before start_load t
    before (λ b. (t.steam_runs && awaited t.looks, b))
    before print_row conf t
    before forget_sched t.sched_stops

unfoldable pub trials : List String → List Trial → Action Bench
trials = in_turn trial

-- The program is put back before the processes are ended. If it cannot be written, they go on.
unfoldable pub restore : List ℕ → Bool → Bool → Action Bench
restore original rewrites stops b =
    let last = end_sched stops b.sched in
    if rewrites
    then (last.0, record b { main = original; load = stopped b.load; sched = last.1 })
    else (false, b)

-- `writes` tells whether the program can be written with `instrument` after it, `rewrites` whether it
-- can be put back.
unfoldable pub render_compare : List ℕ → Bool → Bool → Bool → List Trial → Action Bench
render_compare instrument writes rewrites stops ts b =
    (attempt writes (λ c. record c { main = c.main ++ instrument }) before trials configs ts
        finally restore b.main rewrites stops)
      b

-- Whatever happens, and wherever `render-compare.py` is interrupted in its `try`: if the program of the user
-- can be put back, it is as it was, and no load runs.
pub render_compare-is_running :
    (instrument : List ℕ) (writes stops : Bool) (ts : List Trial) (b : Bench)
    → let r = (render_compare instrument writes true stops ts b).1 in
      (r.main ≡ b.main) × (is_running r.load ≡ false)
unfolding render_compare restore
render_compare-is_running instrument writes stops ts b = (refl, stopped-is_running _)
