-- ===== src/Harness/Rows.antt =====
-- Programs that print one row for each turn of their loop.
use bazzite_k.Common.{
  Bool, true, false, ◌≡◌, refl, ap, sym, ◌∙◌, inl, inr, List, [], ◌∷◌, ◌++◌, Bool-cases,
}
use mathlib.Core.List.{append-nil, append_assoc}
use bazzite_k.Harness.{Action, ◌before◌, attempt, in_turn}

-- `look` is what is seen of the machine, such as the rows printed so far.
module _ {S X : Type 0} (look : S → X) where
  -- A part that changes nothing that is seen, such as one that prints no row.
  abbrev pub Silent : Action S → Type 0
  Silent p = (b : S) → look (p b).1 ≡ look b

  pub before-Silent : (p q : Action S) → Silent p → Silent q → Silent (p before q)
  before-Silent p q h k b = elim (Bool-cases (p b).0) [
    | inl t ↦ rw t (k (p b).1 ∙ h b)
    | inr f ↦ rw f (h b)
  ]

  pub attempt-Silent :
      (ok : Bool) (f : S → S) → ((b : S) → look (f b) ≡ look b) → Silent (attempt ok f)
  attempt-Silent true f h b = h b
  attempt-Silent false f h b = refl

  pub in_turn-Silent :
      {K T : Type 0} (trial : K → T → Action S)
      → ((k : K) (t : T) → Silent (trial k t))
      → (ks : List K) (ts : List T) → Silent (in_turn trial ks ts)
  in_turn-Silent trial h [] ts b = refl
  in_turn-Silent trial h (k ∷ ks) [] b = refl
  in_turn-Silent trial h (k ∷ ks) (t ∷ ts) b = elim (Bool-cases (trial k t b).0) [
    | inl g ↦ rw g (in_turn-Silent trial h ks ts (trial k t b).1 ∙ h k t b)
    | inr f ↦ rw f (h k t b)
  ]

-- `IsRow k` tells what a row of the turn `k` says.
module _ {S R K : Type 0} (rows : S → List R) (IsRow : K → R → Type 0) where
  -- One more row.
  abbrev pub Added : K → S → S → Type 0
  Added k b c = (row : R) × (rows c ≡ rows b ++ (row ∷ [])) × IsRow k row

  -- A part that prints one row if it does not raise.
  abbrev pub Prints : K → Action S → Type 0
  Prints k p = (b : S) → (p b).0 ≡ true → Added k b (p b).1

  abbrev pub Matches : List K → List R → Type 0
  Matches [] [] = Unit
  Matches (k ∷ ks) (row ∷ rest) = IsRow k row × Matches ks rest
  Matches _ _ = ⊥

  -- One row for each of these turns, in order.
  abbrev pub AddedAll : List K → S → S → Type 0
  AddedAll ks b c = (more : List R) × (rows c ≡ rows b ++ more) × Matches ks more

  pub Silent-before : (k : K) (p q : Action S) → Silent rows p → Prints k q → Prints k (p before q)
  Silent-before k p q h g b ok = elim (Bool-cases (p b).0) [
    | inl t ↦
        let later : (q (p b).1).0 ≡ true = rw t at ok in
        let (row, here, is) = g (p b).1 later in
        rw t (row, here ∙ ap (λ rs. rs ++ (row ∷ [])) (h b), is)
    | inr f ↦ absurd (let bad : false ≡ true = rw f at ok in cc)
  ]

  pub before-Silent_last :
      (k : K) (p q : Action S) → Prints k p → Silent rows q → Prints k (p before q)
  before-Silent_last k p q h g b ok = elim (Bool-cases (p b).0) [
    | inl t ↦ let (row, here, is) = h b t in rw t (row, g (p b).1 ∙ here, is)
    | inr f ↦ absurd (let bad : false ≡ true = rw f at ok in cc)
  ]

  pub in_turn-AddedAll :
      {T : Type 0} (trial : K → T → Action S)
      → ((k : K) (t : T) → Prints k (trial k t))
      → (ks : List K) (ts : List T) (b : S) → (in_turn trial ks ts b).0 ≡ true
      → AddedAll ks b (in_turn trial ks ts b).1
  in_turn-AddedAll trial h [] ts b ok = ([], sym (append-nil (rows b)), tt)
  in_turn-AddedAll trial h (k ∷ ks) [] b ok = absurd (cc)
  in_turn-AddedAll trial h (k ∷ ks) (t ∷ ts) b ok = elim (Bool-cases (trial k t b).0) [
    | inr f ↦ absurd (let bad : false ≡ true = rw f at ok in cc)
    | inl g ↦
        let c = (trial k t b).1 in
        let later : (in_turn trial ks ts c).0 ≡ true = rw g at ok in
        let (row, here, is) = h k t b g in
        let (more, there, all) = in_turn-AddedAll trial h ks ts c later in
        rw g (
          row ∷ more,
          there ∙ ap (λ rs. rs ++ more) here ∙ append_assoc (rows b) (row ∷ []) more,
          (is, all),
        )
  ]
