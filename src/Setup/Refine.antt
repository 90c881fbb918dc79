-- ===== src/Setup/Refine.antt =====
-- `seed` of files/usr/libexec/moonmachine-setup as a whole does to the plugin what is promised.
use bazzite_k.Common.{
  Bool, ◌≡◌, refl, ap, ◌∙◌, inl, inr, not, List, ◌∷◌, ◌++◌, if◌then◌else◌, Bool-cases, String, [],
}
use mathlib.Core.Path.{fun_ext}
use bazzite_k.Setup.Disk.{contents, entry, home, Disk, exists, subtree, down}
use bazzite_k.Setup.Seed.{
  Host, Account, perform, plugin, marker, unit, brew, seed_streaming, install_loader, seed_plugin,
  seed_settings, own_services, rest_of_seed, seed_loader, seed, seeded, adopts,
}
use bazzite_k.Setup.Steps.{All-Keeps, perform-Cut, perform-append}
use bazzite_k.Setup.View.{view, updated, IsSane, seed_plugin-view}
use bazzite_k.Setup.Safety.{managed-same}
use bazzite_k.Setup.Kept

-- Nothing of `homebrew` has changed.
abbrev IsUnchanged : Disk → Disk → Type 0
IsUnchanged d e =
    (r : List String) → e.node (home ("homebrew" ∷ r)) ≡ d.node (home ("homebrew" ∷ r))

view-same :
    (h : Host) (a : Account) (d e : Disk)
    → ((r : List String) → e.node (down plugin r) ≡ d.node (down plugin r))
    → e.node marker ≡ d.node marker
    → view h a e ≡ view h a d
unfolding view
view-same h a d e k m =
    let tree : subtree plugin e ≡ subtree plugin d = fun_ext k in
    let here : e.node plugin ≡ d.node plugin = k [] in
    rw here (rw (managed-same h a d e k m) (rw tree refl))

view-IsUnchanged : (h : Host) (a : Account) (d e : Disk) → IsUnchanged d e → view h a e ≡ view h a d
view-IsUnchanged h a d e k = view-same h a d e (λ r. k _) (k _)

rest_of_seed-view :
    (h : Host) (a : Account) (d : Disk)
    → IsSane h a
    → view h a (perform (rest_of_seed h a d) d) ≡ updated h a (view h a d)
rest_of_seed-view h a d k =
    let d1 = perform (seed_plugin h a d) d in
    let steps = seed_settings h a d1 in
    ap (view h a) (perform-append (seed_plugin h a d) steps d)
    ∙ view-IsUnchanged h a d1 (perform steps d1)
        (λ r. ap (λ p. p.0) (Kept.settings-brew h a d1 r _ (perform-Cut steps d1)))
    ∙ seed_plugin-view h a d k

installed-view :
    (h : Host) (a : Account) (d : Disk)
    → IsSane h a
    → let e = perform (install_loader h a) d in
      view h a (perform (install_loader h a ++ (rest_of_seed h a e ++ own_services a)) d)
      ≡ updated h a (view h a d)
installed-view h a d k =
    let e = perform (install_loader h a) d in
    let e1 = perform (rest_of_seed h a e) e in
    ap (view h a) (perform-append (install_loader h a) (rest_of_seed h a e ++ own_services a) d)
    ∙ ap (view h a) (perform-append (rest_of_seed h a e) (own_services a) e)
    ∙ view-IsUnchanged h a e1 (perform (own_services a) e1) (λ r.
      All-Keeps (contents _) (own_services a) e1 (Kept.own-brew a r) _
        (perform-Cut (own_services a) e1))
    ∙ rest_of_seed-view h a e k
    ∙ ap (updated h a) (
        view-same h a d e
          (λ r.
            ap (λ p. p.0)
              (All-Keeps (entry _) (install_loader h a) d (Kept.loader-plugin h a r) e
                (perform-Cut (install_loader h a) d)))
          (ap (λ p. p.0)
            (All-Keeps (entry _) (install_loader h a) d (Kept.loader-marker h a) e
              (perform-Cut (install_loader h a) d))))

-- The installation is not of this home.
unfoldable pub foreign : Account → Disk → Bool
foreign a d = if exists unit d then not (adopts a d) else exists brew d

pub seed_loader-view :
    (h : Host) (a : Account) (d : Disk)
    → IsSane h a
    → view h a (perform (seed_loader h a d).1 d)
      ≡ (if foreign a d then view h a d else updated h a (view h a d))
unfolding seed_loader foreign
seed_loader-view h a d k = elim (Bool-cases (exists unit d)) [
  | inl t ↦ elim (Bool-cases (adopts a d)) [
    | inl t' ↦ rw t (rw t' (rest_of_seed-view h a d k))
    | inr f' ↦ rw t (rw f' refl)
  ]
  | inr f ↦ elim (Bool-cases (exists brew d)) [
    | inl t' ↦ rw f (rw t' refl)
    | inr f' ↦ rw f (rw f' (installed-view h a d k))
  ]
]

foreign-same :
    (a : Account) (d e : Disk)
    → e.node unit ≡ d.node unit
    → e.node brew ≡ d.node brew
    → foreign a e ≡ foreign a d
unfolding foreign
foreign-same a d e u b = rw u (rw b refl)

-- If a digest has no white space, the bundle is a folder and the home is not in a folder named
-- `__pycache__`, `seed` refines its promise: a plugin of the user stays as it is, one that this setup
-- installed or that was not there is the one of the image afterwards, and an installation that is not of
-- this home keeps its plugin.
pub seed-view :
    (h : Host) (a : Account) (d : Disk)
    → IsSane h a
    → view h a (seeded h a d) ≡ (if foreign a d then view h a d else updated h a (view h a d))
unfolding seed
seed-view h a d k =
    let d1 = perform (seed_streaming a d) d in
    let end = perform-Cut (seed_streaming a d) d in
    let same : view h a d1 ≡ view h a d =
      view-IsUnchanged h a d d1 (λ r. ap (λ p. p.0) (Kept.streaming-brew a d r d1 end)) in
    let own : foreign a d1 ≡ foreign a d =
      foreign-same a d d1 (ap (λ p. p.0) (Kept.streaming-units a d _ d1 end))
        (ap (λ p. p.0) (Kept.streaming-brew a d _ d1 end)) in
    ap (view h a) (perform-append (seed_streaming a d) (seed_loader h a d1).1 d)
    ∙ seed_loader-view h a d1 k
    ∙ rw same (rw own refl)
