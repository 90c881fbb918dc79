-- ===== src/Common/Xml.antt =====
-- The elements that `ElementTree.fromstring` returns, and `findtext` along a path of tags.
use Prim.Native.Nat.{ℕ, zero, suc}
use Prim.Native.String.{String}
use mathlib.Core.Option.{Option, none, some}
use mathlib.Core.List.{List, [], ◌∷◌, ◌++◌}
use bazzite_k.Common.Tests.{if◌then◌else◌}
use bazzite_k.Common.Text.{text_eq}

-- A tag, the text before the first child, and the children.
mutual
  pub data Element : Type 0 where
    element : String → String → Elements → Element

  pub data Elements : Type 0 where
    nil : Elements
    cons : Element → Elements → Elements

abbrev tag : Element → String
tag (element t s es) = t

abbrev text : Element → String
text (element t s es) = s

abbrev tagged : String → Elements → List Element
tagged t nil = []
tagged t (cons e es) = if text_eq (tag e) t then e ∷ tagged t es else tagged t es

-- `./t`
abbrev pub children : String → Element → List Element
children t (element u s es) = tagged t es

-- `/t` after a step
abbrev pub descend : String → List Element → List Element
descend t [] = []
descend t (e ∷ es) = children t e ++ descend t es

-- `[i]`, counted from 1
abbrev pub at : ℕ → List Element → List Element
at i [] = []
at zero (e ∷ es) = []
at (suc zero) (e ∷ es) = e ∷ []
at (suc (suc i)) (e ∷ es) = at (suc i) es

-- `findtext`: none is None
abbrev pub first_text : List Element → Option String
first_text [] = none
first_text (e ∷ es) = some (text e)
