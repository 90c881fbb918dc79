-- ===== src/Setup/Named.antt =====
-- The unit that the setup writes for a home names that home.
use bazzite_k.Common.{
  ℕ, true, ◌≡◌, refl, ap, sym, ◌∙◌, inl, inr, List, [], ◌∷◌, ◌++◌, Bool-cases, has_prefix,
  has_infix, ==_iff,
}
use mathlib.Core.List.{append_assoc}
use bazzite_k.Common.Bytes.{bytes}
use bazzite_k.Setup.Seed.{Account, brew_text, unit_text}

has_prefix-append : (p s : List ℕ) → has_prefix p (p ++ s) ≡ true
has_prefix-append [] s = refl
has_prefix-append (x ∷ xs) s = rw ((==_iff x x).1 refl) (has_prefix-append xs s)

has_infix-here : (p s : List ℕ) → has_infix p (p ++ s) ≡ true
has_infix-here [] [] = refl
has_infix-here [] (y ∷ ys) = refl
has_infix-here (x ∷ xs) s = rw (has_prefix-append (x ∷ xs) s) refl

has_infix-skip : (p xs ys : List ℕ) → has_infix p ys ≡ true → has_infix p (xs ++ ys) ≡ true
has_infix-skip p [] ys h = h
has_infix-skip p (x ∷ xs) ys h = elim (Bool-cases (has_prefix p (x ∷ (xs ++ ys)))) [
  | inl t ↦ rw t refl
  | inr f ↦ rw f (has_infix-skip p xs ys h)
]

-- The unit that is written for a home names that home.
pub unit_text-adopts :
    (a : Account) → has_infix (bytes "UNPRIVILEGED_PATH=" ++ brew_text a) (unit_text a) ≡ true
unfolding unit_text
unit_text-adopts a =
    let p = bytes "UNPRIVILEGED_PATH=" ++ brew_text a in
    let tail =
      bytes "\nEnvironment=PRIVILEGED_PATH="
      ++ (brew_text a
          ++ bytes "\nEnvironment=LOG_LEVEL=INFO\n[Install]\nWantedBy=multi-user.target\n") in
    let named = bytes "UNPRIVILEGED_PATH=" ++ (brew_text a ++ tail) in
    let paths = bytes "/services\nEnvironment=" ++ named in
    let folder = bytes "/services/PluginLoader\nWorkingDirectory=" ++ (brew_text a ++ paths) in
    let here : has_infix p named ≡ true =
      ap (has_infix p) (sym (append_assoc (bytes "UNPRIVILEGED_PATH=") (brew_text a) tail))
      ∙ has_infix-here p tail in
    has_infix-skip p
      (bytes
        "[Unit]\nDescription=Steam Deck Plugin Loader\nAfter=network.target\n[Service]\nType=simple\nUser=root\nRestart=always\nKillMode=process\nTimeoutStopSec=15\nExecStart=")
      (brew_text a ++ folder)
      (has_infix-skip p (brew_text a) folder (
        has_infix-skip p (bytes "/services/PluginLoader\nWorkingDirectory=") (brew_text a ++ paths)
          (has_infix-skip p (brew_text a) paths
            (has_infix-skip p (bytes "/services\nEnvironment=") named here))))
