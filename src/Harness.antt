-- ===== src/Harness.antt =====
-- The measuring programs of experimental/tuning and experimental/bore-thinlto: what they share. Each
-- changes the machine, starts child processes and takes samples, in a `try` whose `finally` undoes this.
pub use bazzite_k.Common.Processes.{Child, stopped, is_running, stopped-is_running}
use bazzite_k.Common.{
  ◌≡◌, refl, ℕ, Bool, true, false, ◌&&◌, leb, Option, some, none, List, [], ◌∷◌, if◌then◌else◌,
}
pub mod Rows
pub mod Compare
pub mod Restored
pub mod Cool
pub mod Finished
pub mod Bore
pub mod Thermal
pub mod Render
pub mod RenderBore
pub mod FinishedBore
pub mod Examples

-- A part of a program: the flag tells that it has ended without an exception.
abbrev pub Action {ℓ} : Type ℓ → Type ℓ
Action S = S → Bool × S

infixr 30 ◌before◌
abbrev pub ◌before◌ {ℓ} : {S : Type ℓ} → Action S → Action S → Action S
(p before q) s = let first = p s in if first.0 then q first.1 else first

-- `try: … finally: …`
infix 20 ◌finally◌
abbrev pub ◌finally◌ {ℓ} : {S : Type ℓ} → Action S → Action S → Action S
(body finally cleanup) s =
    let left = body s in let undone = cleanup left.1 in (left.0 && undone.0, undone.1)

-- A step that fails with no effect, or has this effect.
abbrev pub attempt {ℓ} : {S : Type ℓ} → Bool → (S → S) → Action S
attempt ok effect s = if ok then (true, effect s) else (false, s)

-- A loop over `ks`. A list of answers that ends is an interrupt from the keyboard.
abbrev pub in_turn {ℓ} : {S K T : Type ℓ} → (K → T → Action S) → List K → List T → Action S
in_turn trial [] ts b = (true, b)
in_turn trial (k ∷ ks) [] b = (false, b)
in_turn trial (k ∷ ks) (t ∷ ts) b =
    let first = trial k t b in
    let rest = in_turn trial ks ts first.1 in if first.0 then rest else first

-- How the loop over the temperatures ends, in thousandths of a degree: the benchmark has ended, the
-- limit of 95 degrees is met, or a sensor cannot be read. The readings before are kept.
pub data Watch : Type 0 where
  over : List ℕ → Watch
  hot : Watch
  unread : Watch

abbrev pub kept : ℕ → Watch → Watch
kept t (Watch.over ts) = Watch.over (t ∷ ts)
kept t Watch.hot = Watch.hot
kept t Watch.unread = Watch.unread

-- One reading for each time that `test.poll()` is `None`.
unfoldable pub watch : List (Option ℕ) → Watch
watch [] = Watch.over []
watch (none ∷ ts) = Watch.unread
watch (some t ∷ ts) = let rest = watch ts in if leb 95000 t then Watch.hot else kept t rest

abbrev pub larger : ℕ → ℕ → ℕ
larger a b = if leb a b then b else a

-- `max(temps)`; none is ValueError
abbrev pub maximum : List ℕ → Option ℕ
maximum [] = none
maximum (t ∷ ts) = elim (maximum ts) [ none ↦ some t | some m ↦ some (larger t m) ]
