-- ===== src/Checkout/Inside.antt =====
-- apps/checkout.py: where the files of the archive go.
use bazzite_k.Common.{
  ==_iff, ℕ, ◌≡◌, ◌≢◌, sym, refl, ap, ◌∙◌, Bool, true, false, Bool-cases, ◌&&◌, ◌||◌, ◌==◌, List,
  [], ◌∷◌, ◌++◌, All, inl, inr, split, has_part, has_prefix, drop, length, arith,
}
use bazzite_k.Common.Bytes.{bytes}
use bazzite_k.Checkout.{
  PosixPath, Item, File, is_named, named, path, join, is_unsafe, prefix, suffix, externals,
  is_wanted, file, unpack,
}

split-cons : (c : ℕ) (xs : List ℕ) → (p : List ℕ) × (ps : List (List ℕ)) × (split c xs ≡ p ∷ ps)
unfolding split
split-cons c [] = ([], [], refl)
split-cons c (x ∷ xs) =
    let (p, ps, e) = split-cons c xs in
    elim (Bool-cases (x == c)) [
      | inl t ↦ ([], split c xs, rw t refl)
      | inr f ↦ (x ∷ p, ps, rw (f, e) refl)
    ]

-- A text is split at each of its separators.
split-append : (c : ℕ) (xs ys : List ℕ) → split c (xs ++ (c ∷ ys)) ≡ split c xs ++ split c ys
unfolding split
split-append c [] ys = rw ((==_iff c c).1 refl) refl
split-append c (x ∷ xs) ys =
    let (p, ps, e) = split-cons c xs in
    let h = split-append c xs ys in
    elim (Bool-cases (x == c)) [ inl t ↦ rw t (ap (λ r. [] ∷ r) h) | inr f ↦ rw (f, h, e) refl ]

and_true : (a b : Bool) → (a && b) ≡ true → (a ≡ true) × (b ≡ true)
and_true true b h = (refl, h)
and_true false b h = cc

or_false : (a b : Bool) → (a || b) ≡ false → b ≡ false
or_false true b h = cc
or_false false b h = h

named-append : (ps qs : List (List ℕ)) → named (ps ++ qs) ≡ named ps ++ named qs
named-append [] qs = refl
named-append (p ∷ ps) qs = elim (Bool-cases (is_named p)) [
  | inl t ↦ rw (t, named-append ps qs) refl
  | inr f ↦ rw (f, named-append ps qs) refl
]

has_part-append :
    (p : List ℕ) (qs rs : List (List ℕ)) → has_part p (qs ++ rs) ≡ false → has_part p rs ≡ false
has_part-append p [] rs h = h
has_part-append p (q ∷ qs) rs h = has_part-append p qs rs (ground arith)

has_prefix-drop : (p s : List ℕ) → has_prefix p s ≡ true → s ≡ p ++ drop (length p) s
has_prefix-drop [] s h = refl
has_prefix-drop (x ∷ p) [] h = cc
has_prefix-drop (x ∷ p) (y ∷ s) h =
    let (t, u) = and_true (x == y) (has_prefix p s) h in
    let same : x ≡ y = (==_iff x y).0 t in rw same (ap (λ r. y ∷ r) (has_prefix-drop p s u))

-- The parts of a wanted name are those of the prefix and then those of the rest.
wanted-parts :
    (item : Item)
    → has_prefix prefix item.filename ≡ true
    → (path item.filename).parts
      ≡ (bytes "moondeck" ∷ bytes "python" ∷ bytes "externals" ∷ []) ++ (path (suffix item)).parts
unfolding path split
wanted-parts item h =
    ap (λ n. named (split b'/' n)) (has_prefix-drop prefix item.filename h)
    ∙ (ap named (split-append b'/' (bytes "moondeck/python/externals") (suffix item))
        ∙ named-append (split b'/' (bytes "moondeck/python/externals")) (split b'/' (suffix item)))

-- A file that lies below `externals`, on a way that does not lead up.
abbrev pub IsInside : PosixPath → File → Type 0
IsInside root f =
    (below : List (List ℕ)) × (f.target
      ≡ record (externals root) { parts = (externals root).parts ++ below })
    × (has_part (bytes "..") below ≡ false)

-- No slash comes directly after the prefix; a name without the prefix may be any.
abbrev pub IsRelative : Item → Type 0
IsRelative item = (rest : List ℕ) → item.filename ≢ prefix ++ (b'/' ∷ rest)

absolute-slash :
    (s : List ℕ) → has_prefix (bytes "/") s ≡ true → (rest : List ℕ) × (s ≡ b'/' ∷ rest)
absolute-slash [] h = absurd (cc)
absolute-slash (x ∷ xs) h =
    let (t, u) = and_true (b'/' == x) true h in
    let same : b'/' ≡ x = (==_iff b'/' x).0 t in (xs, ap (λ c. c ∷ xs) (sym same))

IsRelative-suffix :
    (item : Item)
    → has_prefix prefix item.filename ≡ true
    → IsRelative item
    → (path (suffix item)).is_absolute ≡ false
unfolding path
IsRelative-suffix item w r = elim (Bool-cases (has_prefix (bytes "/") (suffix item))) [
  | inr f ↦ f
  | inl t ↦
      let (rest, e) = absolute-slash (suffix item) t in
      absurd (r rest (has_prefix-drop prefix item.filename w ∙ ap (λ s. prefix ++ s) e))
]

file-IsInside :
    (root : PosixPath) (item : Item)
    → is_unsafe item ≡ false
    → is_wanted item ≡ true
    → IsRelative item
    → IsInside root (file root item)
unfolding is_unsafe is_wanted join
file-IsInside root item u w r =
    let (w1, w2) = and_true (has_prefix prefix item.filename) _ w in
    let safe : has_part (bytes "..") (path item.filename).parts ≡ false = or_false _ _ u in
    (
      (path (suffix item)).parts,
      rw (IsRelative-suffix item w1 r) refl,
      has_part-append (bytes "..") (bytes "moondeck" ∷ bytes "python" ∷ bytes "externals" ∷ [])
          (path (suffix item)).parts (rw (wanted-parts item w1) at safe),
    )

-- The files written before `unpack` ends, with an error or without: each lies below the folder for
-- the externals, if no name in the archive has a slash directly after the prefix.
pub unpack-IsInside :
    (root : PosixPath) (items : List Item)
    → All IsRelative items
    → All (IsInside root) (unpack root items).1
unfolding unpack
unpack-IsInside root [] h = tt
unpack-IsInside root (item ∷ items) h = elim (Bool-cases (is_unsafe item)) [
  | inl t ↦ rw t tt
  | inr f ↦ elim (Bool-cases (is_wanted item)) [
    | inl t ↦ rw (f, t) (file-IsInside root item f t h.0, unpack-IsInside root items h.1)
    | inr g ↦ rw (f, g) (unpack-IsInside root items h.1)
  ]
]
