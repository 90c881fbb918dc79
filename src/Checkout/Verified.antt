-- ===== src/Checkout/Verified.antt =====
-- What has been verified when apps/checkout.py writes a file of the archive.
use bazzite_k.Common.{
  true, ◌≡◌, refl, ◌⊎◌, inl, inr, Option, none, some, Option-cases, List, [], ◌∷◌, String,
  Bool-cases, All,
}
use bazzite_k.Checkout.{PosixPath}
use bazzite_k.Checkout.Fetch.{
  fork_commands, run_pinned, after_forks, Source, Command, Tools, forks, run_all, and_then,
  is_pinned, fetch_fork, found_fork, fetch_forks, Outcome, is_intact, dependencies,
  found_dependencies, main,
}

-- The fork is named in sources.json, and stands at the revision that this gives.
abbrev pub IsPinned : Tools → (String → Option Source) → String → Type 0
IsPinned t sources name = (s : Source) × (sources name ≡ some s) × (is_pinned t name s ≡ true)

abbrev pub IsIntact : Tools → (String → Option Source) → Type 0
IsIntact t sources = (s : Source) × (sources "moondeck" ≡ some s) × (is_intact t s ≡ true)

and_then-none : (a b : Option String) → and_then a b ≡ none → (a ≡ none) × (b ≡ none)
and_then-none none b h = (refl, h)
and_then-none (some e) b h = absurd (let bad : some e ≡ none = h in cc)

run_pinned-is_pinned :
    (t : Tools) (name : String) (s : Source)
    → run_pinned t name s ≡ none
    → is_pinned t name s ≡ true
run_pinned-is_pinned t name s h = elim (Bool-cases (is_pinned t name s)) [
  | inl p ↦ p
  | inr f ↦ absurd (let bad : some "wrong source revision" ≡ none = rw f at h in cc)
]

fetch_fork-is_pinned :
    (t : Tools) (name : String) (s : Source)
    → fetch_fork t name s ≡ none
    → is_pinned t name s ≡ true
unfolding fetch_fork
fetch_fork-is_pinned t name s h =
    run_pinned-is_pinned t name s
      (and_then-none (run_all t (fork_commands name s)) (run_pinned t name s) h).1

found_fork-IsPinned :
    (t : Tools) (sources : String → Option Source) (name : String)
    → found_fork t name (sources name) ≡ none
    → IsPinned t sources name
found_fork-IsPinned t sources name h = elim (Option-cases (sources name)) [
  | inl n ↦ absurd (let bad : some "KeyError" ≡ none = rw n at h in cc)
  | inr (s, e) ↦
      let fetched : fetch_fork t name s ≡ none = rw e at h in
      (s, e, fetch_fork-is_pinned t name s fetched)
]

fetch_forks-IsPinned :
    (t : Tools) (sources : String → Option Source) (names : List String)
    → fetch_forks t sources names ≡ none
    → All (IsPinned t sources) names
fetch_forks-IsPinned t sources [] h = tt
fetch_forks-IsPinned t sources (name ∷ names) h =
    let (first, others) = and_then-none (found_fork t name (sources name)) _ h in
    (found_fork-IsPinned t sources name first, fetch_forks-IsPinned t sources names others)

-- Raised, with no file written.
abbrev pub IsStopped : Outcome → Type 0
IsStopped o = (e : String) × (o.error ≡ some e) × (o.files ≡ [])

dependencies-IsIntact :
    (t : Tools) (s : Source) (root : PosixPath)
    → (is_intact t s ≡ true) ⊎ IsStopped (dependencies t s root)
unfolding dependencies
dependencies-IsIntact t s root = elim (Bool-cases (t.succeeds (Command.curl s.url))) [
  | inr f ↦ inr (rw f ("CalledProcessError", refl, refl))
  | inl g ↦ elim (Bool-cases (is_intact t s)) [
    | inl p ↦ inl p
    | inr f ↦ inr (rw (g, f) ("MoonDeck dependency bundle checksum mismatch", refl, refl))
  ]
]

found_dependencies-IsIntact :
    (t : Tools) (sources : String → Option Source) (root : PosixPath)
    → IsIntact t sources ⊎ IsStopped (found_dependencies t root (sources "moondeck"))
found_dependencies-IsIntact t sources root = elim (Option-cases (sources "moondeck")) [
  | inl n ↦ inr (rw n ("KeyError", refl, refl))
  | inr (s, e) ↦ elim (dependencies-IsIntact t s root) [
    | inl p ↦ inl (s, e, p)
    | inr stop ↦ inr (rw e stop)
  ]
]

after_forks-IsPinned :
    (t : Tools) (sources : String → Option Source) (root : PosixPath) (o : Option String)
    → fetch_forks t sources forks ≡ o
    → All (IsPinned t sources) forks × IsIntact t sources ⊎ IsStopped (after_forks t sources root o)
after_forks-IsPinned t sources root (some e) h = inr (e, refl, refl)
after_forks-IsPinned t sources root none h = elim (found_dependencies-IsIntact t sources root) [
  | inl p ↦ inl (fetch_forks-IsPinned t sources forks h, p)
  | inr stop ↦ inr stop
]

-- Either each fork stands at the revision that sources.json gives and the archive has the checksum that
-- it gives, or the program raises and has taken no file from the archive.
pub main-IsPinned :
    (t : Tools) (sources : String → Option Source) (root : PosixPath)
    → All (IsPinned t sources) forks × IsIntact t sources ⊎ IsStopped (main t sources root)
unfolding main
main-IsPinned t sources root =
    after_forks-IsPinned t sources root (fetch_forks t sources forks) refl
