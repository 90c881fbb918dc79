-- ===== src/Common/Processes.antt =====
-- The child processes that the variables of a program hold.
use mathlib.Core.Path.{◌≡◌, refl}
use mathlib.Core.Bool.{Bool, true, false, ◌&&◌}
use bazzite_k.Common.Tests.{if◌then◌else◌}

-- Not there, one that may be running, or one that has ended.
pub data Child : Type 0 where
  absent : Child
  running : Child
  ended : Child

-- `terminate` and `wait`, if the variable is not `None`.
abbrev pub stopped : Child → Child
stopped Child.absent = Child.absent
stopped Child.running = Child.ended
stopped Child.ended = Child.ended

abbrev pub is_running : Child → Bool
is_running Child.running = true
is_running _ = false

pub stopped-is_running : (c : Child) → is_running (stopped c) ≡ false
stopped-is_running Child.absent = refl
stopped-is_running Child.running = refl
stopped-is_running Child.ended = refl

-- Whether a process takes the line `X`, and ends in ten seconds.
pub record Goodbye : Type 0 where
  pub accepts : Bool
  pub ends : Bool

pub data Ending : Type 0 where
  none_there : Ending
  quit : Ending
  killed : Ending

-- A process is told to quit: it gets the line and is waited for, or else it is killed.
abbrev pub said_goodbye : Goodbye → Child → Child × Ending
said_goodbye g Child.absent = (Child.absent, Ending.none_there)
said_goodbye g _ = (Child.ended, if g.accepts && g.ends then Ending.quit else Ending.killed)

pub said_goodbye-is_running : (g : Goodbye) (c : Child) → is_running (said_goodbye g c).0 ≡ false
said_goodbye-is_running g Child.absent = refl
said_goodbye-is_running g Child.running = refl
said_goodbye-is_running g Child.ended = refl
