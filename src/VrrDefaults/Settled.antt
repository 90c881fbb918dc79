-- ===== src/VrrDefaults/Settled.antt =====
-- The loop of moonmachine-vrr-defaults against a root window whose properties others change.
use bazzite_k.Common.{
  ℕ, Bool, true, ◌≡◌, refl, ap, ◌∙◌, inl, inr, Option, none, some, List, [], ◌∷◌, ◌++◌,
  if◌then◌else◌, codes_eq, Bool-cases, All,
}
use bazzite_k.Common.Bytes.{bytes}
use bazzite_k.Common.Parse.{strip, is_blank}
use bazzite_k.Common.Printed.{IsPrinted, strip-line, codes_eq_refl}
use bazzite_k.VrrDefaults.{
  Property, vrr_enabled, fps_limit, name_text, desired, name_of, value_of, Set, reaction, Ending,
  after_set, watch,
}

-- What xprop prints for a property that is a number.
abbrev pub IsSpy : (Property → List ℕ → List ℕ) → Type 0
IsSpy spy =
    (p : Property) (v : List ℕ)
    → spy p v ≡ name_text p ++ (bytes "(CARDINAL) = " ++ (v ++ (10 ∷ [])))

line-name_of :
    (p : Property) (rest : List ℕ)
    → name_of (name_text p ++ (bytes "(CARDINAL) = " ++ rest)) ≡ some p
unfolding name_of strip
line-name_of vrr_enabled rest = refl
line-name_of fps_limit rest = refl

strip-blank :
    (v : List ℕ) → strip is_blank (32 ∷ (v ++ (10 ∷ []))) ≡ strip is_blank (v ++ (10 ∷ []))
unfolding strip
strip-blank v = refl

line-value_of :
    (p : Property) (v : List ℕ)
    → IsPrinted v
    → value_of (name_text p ++ (bytes "(CARDINAL) = " ++ (v ++ (10 ∷ [])))) ≡ v
unfolding value_of
line-value_of vrr_enabled v k = strip-blank v ∙ strip-line v k
line-value_of fps_limit v k = strip-blank v ∙ strip-line v k

-- A line of xprop is reacted to exactly if the value is not the one that is wanted.
spy-reaction :
    (spy : Property → List ℕ → List ℕ) (p : Property) (v : List ℕ)
    → IsSpy spy
    → IsPrinted v
    → reaction (spy p v)
      ≡ (if codes_eq v (desired p) then none else some (record { property = p; value = desired p }))
unfolding reaction
spy-reaction spy p v is_spy k =
    ap reaction (is_spy p v) ∙ rw (line-name_of p (v ++ (10 ∷ [])), line-value_of p v k) refl

desired-IsPrinted : (p : Property) → IsPrinted (desired p)
desired-IsPrinted vrr_enabled = (refl, tt)
desired-IsPrinted fps_limit = (refl, tt)

-- Another program sets a property to a value.
pub record Change : Type 0 where
  pub property : Property
  pub value : List ℕ

abbrev pub is_wanted : Change → Bool
is_wanted c = codes_eq c.value (desired c.property)

-- What xprop prints: each change, and each correction of it.
abbrev pub printed : (Property → List ℕ → List ℕ) → List Change → List (List ℕ)
printed spy [] = []
printed spy (c ∷ cs) =
    spy c.property c.value
    ∷ (if is_wanted c then printed spy cs else spy c.property (desired c.property) ∷ printed spy cs)

-- One correction for each unwanted change.
abbrev pub corrections : List Change → List Set
corrections [] = []
corrections (c ∷ cs) =
    let rest = corrections cs in
    if is_wanted c
    then rest
    else record { property = c.property; value = desired c.property } ∷ rest

watch-line :
    (line : List ℕ) (lines : List (List ℕ)) (o : Option Set)
    → reaction line ≡ o
    → watch (λ s. true) (line ∷ lines) ≡ after_set true o (watch (λ s. true) lines)
unfolding watch
watch-line line lines none e = rw e refl
watch-line line lines (some s) e = rw e refl

watch-nil : watch (λ s. true) [] ≡ ([], Ending.exited)
unfolding watch
watch-nil = refl

-- If xprop prints a property as its name, `(CARDINAL) = `, the value and a line end, and each call of
-- `xprop -set` succeeds, then each change to a value that is not wanted is answered by exactly one call,
-- which sets the property back, and the line about that one, or about a wanted value, by none.
pub watch-corrections :
    (spy : Property → List ℕ → List ℕ) (cs : List Change)
    → IsSpy spy
    → All (λ c. IsPrinted c.value) cs
    → watch (λ s. true) (printed spy cs) ≡ (corrections cs, Ending.exited)
watch-corrections spy [] is_spy k = watch-nil
watch-corrections spy (c ∷ cs) is_spy k =
    let rest = watch-corrections spy cs is_spy k.1 in
    let own : reaction (spy c.property (desired c.property)) ≡ none =
      spy-reaction spy c.property (desired c.property) is_spy (desired-IsPrinted c.property)
      ∙ rw (codes_eq_refl (desired c.property)) refl in
    let first = spy-reaction spy c.property c.value is_spy k.0 in
    elim (Bool-cases (is_wanted c)) [
      | inl t ↦
          let quiet : reaction (spy c.property c.value) ≡ none = first ∙ rw t refl in
          rw t (watch-line (spy c.property c.value) (printed spy cs) none quiet ∙ rest)
      | inr f ↦
          let s : Set = record { property = c.property; value = desired c.property } in
          let loud : reaction (spy c.property c.value) ≡ some s = first ∙ rw f refl in
          let later = spy c.property (desired c.property) ∷ printed spy cs in
          rw f (
            watch-line (spy c.property c.value) later (some s) loud
            ∙ ap (after_set true (some s))
                (watch-line (spy c.property (desired c.property)) (printed spy cs) none own ∙ rest))
    ]
