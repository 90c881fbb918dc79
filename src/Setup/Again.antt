-- ===== src/Setup/Again.antt =====
-- A second run of files/usr/libexec/moonmachine-setup on a machine that is set up.
use bazzite_k.Common.{
  true, ◌≡◌, refl, ap, sym, ◌∙◌, inl, inr, [], ◌∷◌, ◌++◌, if◌then◌else◌, Bool-cases, codes_eq,
  has_infix, false, ◌⊎◌, some,
}
use mathlib.Core.Path.{subst}
use bazzite_k.Common.Bytes.{bytes}
use bazzite_k.Setup.Disk.{Disk, exists, subtree, is_some, text_of, Node}
use bazzite_k.Setup.Seed.{
  Host, Account, perform, settings, plugin, seed_streaming, seed_plugin, seed_settings,
  rest_of_seed, seed_loader, seed, seeded, managed, brew_text, unit_text, marked, bundled,
  plugin_digest, plugin_folder, unit, install_loader, own_services, adopts, brew,
}
use bazzite_k.Setup.Steps.{perform-Cut, perform-append}
use bazzite_k.Common.Printed.{codes_eq_refl}
use bazzite_k.Setup.Folder.{plugin_digest-bundled}
use bazzite_k.Setup.View.{Plugin, view, updated, IsSane, managed-marked}
use bazzite_k.Setup.Refine.{foreign, seed_loader-view}
use bazzite_k.Setup.Named.{unit_text-adopts}
use bazzite_k.Setup.Written.{
  seed-streamed, seeded-streamed, seeded-config, rest-settings, rest-units,
}

-- A plugin that nothing is due for.
abbrev IsSettled : Host → Account → Plugin → Type 0
IsSettled h a Plugin.absent = ⊥
IsSettled h a (Plugin.ours t) = codes_eq (plugin_digest h (plugin_folder a) t) (bundled h) ≡ true
IsSettled h a (Plugin.users t) = Unit

updated-IsSettled :
    (h : Host) (a : Account) (p : Plugin) → IsSane h a → IsSettled h a (updated h a p)
unfolding updated
updated-IsSettled h a Plugin.absent k =
    rw (plugin_digest-bundled h a k.uncached) (codes_eq_refl (bundled h))
updated-IsSettled h a (Plugin.ours t) k =
    elim (Bool-cases (codes_eq (plugin_digest h (plugin_folder a) t) (bundled h))) [
      | inl e ↦ rw e e
      | inr e ↦ rw e (rw (plugin_digest-bundled h a k.uncached) (codes_eq_refl (bundled h)))
    ]
updated-IsSettled h a (Plugin.users t) k = tt

IsSettled-seed_plugin :
    (h : Host) (a : Account) (d : Disk) → IsSettled h a (view h a d) → seed_plugin h a d ≡ []
unfolding seed_plugin view
IsSettled-seed_plugin h a d s = elim (Bool-cases (exists plugin d)) [
  | inr f ↦ absurd (rw f at s)
  | inl t ↦ elim (Bool-cases (managed h a d)) [
    | inr f ↦ rw t (rw f refl)
    | inl m ↦
        let here : IsSettled h a (
            if managed h a d
            then Plugin.ours (subtree plugin d)
            else Plugin.users (subtree plugin d)) =
          rw t at s in
        let same : codes_eq (plugin_digest h (plugin_folder a) (subtree plugin d)) (bundled h)
            ≡ true =
          rw m at here in
        let marker_same : codes_eq (marked d) (bundled h) ≡ true =
          rw (managed-marked h a d m) at same in
        rw t (rw m (rw marker_same refl))
  ]
]

-- What a run from after `seed_streaming` leaves, where the installation is of this home.
IsReady : Host → Account → Disk → Type 0
IsReady h a d = (exists unit d ≡ true) × (adopts a d ≡ true) × (exists settings d ≡ true)

IsReady-seed_loader :
    (h : Host) (a : Account) (d : Disk)
    → IsReady h a d
    → seed_plugin h a d ≡ []
    → seed_loader h a d ≡ (false, [])
unfolding IsReady seed_loader seed_settings
IsReady-seed_loader h a d (u, ad, s) p = rw u (rw ad (rw p (rw s refl)))

adopted-IsReady :
    (h : Host) (a : Account) (d : Disk)
    → exists unit d ≡ true
    → adopts a d ≡ true
    → IsReady h a (perform (rest_of_seed h a d) d)
unfolding IsReady
adopted-IsReady h a d u ad =
    let same =
      ap (λ p. p.0)
        (rest-units h a d ("plugin_loader.service" ∷ []) _ (perform-Cut (rest_of_seed h a d) d)) in
    (
      ap is_some same ∙ u,
      ap (λ n. has_infix (bytes "UNPRIVILEGED_PATH=" ++ brew_text a) (text_of n)) same ∙ ad,
      rest-settings h a d,
    )

own-IsReady :
    (h : Host) (a : Account) (d : Disk) → IsReady h a d → IsReady h a (perform (own_services a) d)
unfolding IsReady own_services
own-IsReady h a d r = r

install_loader-unit :
    (h : Host) (a : Account) (d : Disk)
    → (perform (install_loader h a) d).node unit ≡ some (Node.file (unit_text a))
unfolding install_loader
install_loader-unit h a d = refl

installed-IsReady :
    (h : Host) (a : Account) (d : Disk)
    → let e = perform (install_loader h a) d in
      IsReady h a (perform (install_loader h a ++ (rest_of_seed h a e ++ own_services a)) d)
installed-IsReady h a d =
    let e = perform (install_loader h a) d in
    let e1 = perform (rest_of_seed h a e) e in
    let u = install_loader-unit h a d in
    let ready : IsReady h a (perform (own_services a) e1) = own-IsReady h a e1 (
      adopted-IsReady h a e (ap is_some u) (
        ap (λ n. has_infix (bytes "UNPRIVILEGED_PATH=" ++ brew_text a) (text_of n)) u
        ∙ unit_text-adopts a)) in
    subst (IsReady h a)
      (sym (
        perform-append (install_loader h a) (rest_of_seed h a e ++ own_services a) d
        ∙ perform-append (rest_of_seed h a e) (own_services a) e))
      ready

-- Either the installation is not of this home, and nothing is left to do, or it is ready.
seed_loader-IsReady :
    (h : Host) (a : Account) (d : Disk)
    → (seed_loader h a d ≡ (false, []))
      ⊎ ((foreign a d ≡ false) × IsReady h a (perform (seed_loader h a d).1 d))
unfolding seed_loader foreign
seed_loader-IsReady h a d = elim (Bool-cases (exists unit d)) [
  | inl t ↦ elim (Bool-cases (adopts a d)) [
    | inl t' ↦ inr (rw t (rw t' refl), rw t (rw t' (adopted-IsReady h a d t t')))
    | inr f' ↦ inl (rw t (rw f' refl))
  ]
  | inr f ↦ elim (Bool-cases (exists brew d)) [
    | inl t' ↦ inl (rw f (rw t' refl))
    | inr f' ↦ inr (rw f (rw f' refl), rw f (rw f' (installed-IsReady h a d)))
  ]
]

-- If a digest has no white space, the bundle is a folder and the home is not in a folder named
-- `__pycache__`, a run after a whole run has no steps and returns `False`.
pub seed-seeded :
    (h : Host) (a : Account) (d : Disk) → IsSane h a → seed h a (seeded h a d) ≡ (false, [])
seed-seeded h a d k =
    let d1 = perform (seed_streaming a d) d in
    seed-streamed h a (seeded h a d) (seeded-config h a d) ∙ elim (seed_loader-IsReady h a d1) [
      | inl n ↦
          let same : seeded h a d ≡ d1 = seeded-streamed h a d ∙ ap (λ s. perform s.1 d1) n in
          rw same n
      | inr (f, r) ↦
          let e = perform (seed_loader h a d1).1 d1 in
          let settled : IsSettled h a (view h a e) =
            rw (seed_loader-view h a d1 k) (rw f (updated-IsSettled h a (view h a d1) k)) in
          rw (seeded-streamed h a d)
            (IsReady-seed_loader h a e r (IsSettled-seed_plugin h a e settled))
    ]
