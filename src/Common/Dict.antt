-- ===== src/Common/Dict.antt =====
-- The entries of a dict after `j[key] = v`.
use Prim.Native.String.{String}
use mathlib.Core.Path.{◌≡◌, refl, ap, ◌∙◌}
use mathlib.Core.Bool.{false}
use mathlib.Core.Logic.{inl, inr}
use mathlib.Core.Option.{some}
use bazzite_k.Common.Tests.{Bool-cases}
use bazzite_k.Common.Text.{text_eq, text_eq_iff}
use bazzite_k.Common.Json.{Json, Fields, lookup, set_field}

-- What an assignment to a key changes, and what it leaves.
pub lookup-set_field :
    (key : String) (v : Json) (fs : Fields) → lookup key (set_field key v fs) ≡ some v
lookup-set_field key v Fields.end = rw ((text_eq_iff key key).1 refl) refl
lookup-set_field key v (Fields.field k w fs) = elim (Bool-cases (text_eq k key)) [
  | inl t ↦ rw t (rw t refl)
  | inr f ↦ rw f (rw f (lookup-set_field key v fs))
]

pub lookup-set_field_other :
    (key other : String) (v : Json) (fs : Fields)
    → text_eq key other ≡ false
    → lookup other (set_field key v fs) ≡ lookup other fs
lookup-set_field_other key other v Fields.end n = rw n refl
lookup-set_field_other key other v (Fields.field k w fs) n = elim (Bool-cases (text_eq k key)) [
  | inl t ↦
      let same : k ≡ key = (text_eq_iff k key).0 t in
      let here : text_eq k other ≡ false = ap (λ x. text_eq x other) same ∙ n in rw t (rw here refl)
  | inr f ↦ elim (Bool-cases (text_eq k other)) [
    | inl s ↦ rw f (rw s refl)
    | inr g ↦ rw f (rw g (lookup-set_field_other key other v fs n))
  ]
]
