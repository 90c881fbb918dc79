-- ===== src/VrrDefaults.antt =====
-- files/usr/libexec/moonmachine-vrr-defaults: the loop over the lines of `xprop -spy`, which sets two
-- properties of the root window back to what the user has asked for.
pub mod Settled
pub mod Examples
use bazzite_k.Common.{
  ℕ, Bool, true, false, ◌==◌, Option, none, some, List, [], ◌∷◌, String, if◌then◌else◌, codes_eq,
  has_prefix,
}
use bazzite_k.Common.Bytes.{bytes}
use bazzite_k.Common.Parse.{strip, is_blank}

pub data Property : Type 0 where
  vrr_enabled fps_limit : Property

abbrev pub name_text : Property → List ℕ
name_text vrr_enabled = bytes "GAMESCOPE_VRR_ENABLED"
name_text fps_limit = bytes "GAMESCOPE_FPS_LIMIT"

-- `desired`
abbrev pub desired : Property → List ℕ
desired vrr_enabled = bytes "1"
desired fps_limit = bytes "0"

-- `line.split(c, 1)[0]`
abbrev pub before_char : ℕ → List ℕ → List ℕ
before_char c [] = []
before_char c (x ∷ xs) = let rest = before_char c xs in if x == c then [] else x ∷ rest

-- `line.partition(c)[2]`
abbrev pub after_char : ℕ → List ℕ → List ℕ
after_char c [] = []
after_char c (x ∷ xs) = let rest = after_char c xs in if x == c then xs else rest

-- The first of the two in the order of the dict.
abbrev pub first_with : (List ℕ → Bool) → Option Property
first_with test =
    if test (name_text vrr_enabled)
    then some vrr_enabled
    else if test (name_text fps_limit)
    then some fps_limit
    else none

abbrev or_else : Option Property → Option Property → Option Property
or_else none p = p
or_else (some p) q = some p

unfoldable pub name_of : List ℕ → Option Property
name_of line =
    or_else (first_with (codes_eq (strip is_blank (before_char b'(' line))))
      (first_with (λ key. has_prefix key line))

unfoldable pub value_of : List ℕ → List ℕ
value_of line = strip is_blank (after_char b'=' line)

-- A call of `xprop -set`.
pub record Set : Type 0 where
  pub property : Property
  pub value : List ℕ

abbrev pub corrected : List ℕ → Option Property → Option Set
corrected value none = none
corrected value (some p) =
    if codes_eq value (desired p) then none else some (record { property = p; value = desired p })

-- The body of the loop.
unfoldable pub reaction : List ℕ → Option Set
reaction line = corrected (value_of line) (name_of line)

pub data Ending : Type 0 where
  exited : Ending  -- `sys.exit(1)`, when xprop has ended
  raised : Ending  -- CalledProcessError

abbrev pub after_set : Bool → Option Set → List Set × Ending → List Set × Ending
after_set succeeds none rest = rest
after_set true (some s) rest = (s ∷ rest.0, rest.1)
after_set false (some s) rest = (s ∷ [], Ending.raised)

-- The calls, and the end. `succeeds` tells of each call.
unfoldable pub watch : (Set → Bool) → List (List ℕ) → List Set × Ending
watch succeeds [] = ([], Ending.exited)
watch succeeds (line ∷ lines) =
    let rest = watch succeeds lines in
    after_set (elim (reaction line) [ none ↦ true | some s ↦ succeeds s ]) (reaction line) rest
