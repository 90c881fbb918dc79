-- ===== src/Setup/Reach.antt =====
-- `seed` of files/usr/libexec/moonmachine-setup, taken apart: what holds at each cut of its parts.
use bazzite_k.Common.{◌≡◌, ◌∙◌, inl, inr, ◌&&◌, ◌||◌, not, ◌++◌, All, Bool-cases, codes_eq}
use bazzite_k.Setup.Disk.{Disk, exists}
use bazzite_k.Setup.Seed.{
  Host, Account, Step, perform, brew, unit, plugin, seed_streaming, install_loader, update_plugin,
  seed_plugin, own_services, managed, marked, bundled, rest_of_seed, seed_loader, seed, adopts,
}
use bazzite_k.Setup.Steps.{
  Leaves, Keeps, All-Keeps, perform-Leaves, perform-Cut, Always, append-Always, nil-Always,
}

-- The disks at which the part of `seed` that is about the plugin may begin.
pub data Reached (h : Host) (a : Account) (d : Disk) : Disk → Type 0 where
  adopted : Reached h a d (perform (seed_streaming a d) d)
  installed : Reached h a d (perform (install_loader h a) (perform (seed_streaming a d) d))

pub Reached-same :
    {X : Type 0} (look : Disk → X) (h : Host) (a : Account) (d e : Disk)
    → Keeps look (seed_streaming a d) d
    → All (Leaves look) (install_loader h a)
    → Reached h a d e
    → look e ≡ look d
Reached-same look h a d e s l Reached.adopted = s _ (perform-Cut (seed_streaming a d) d)
Reached-same look h a d e s l Reached.installed =
    perform-Leaves look (install_loader h a) (perform (seed_streaming a d) d) l
    ∙ s _ (perform-Cut (seed_streaming a d) d)

pub seed_plugin-All :
    (P : Step → Type 0) (h : Host) (a : Account) (d : Disk)
    → All P (update_plugin h a)
    → All P (seed_plugin h a d)
unfolding seed_plugin
seed_plugin-All P h a d k =
    elim (Bool-cases
      (not (exists plugin d) || (managed h a d && not (codes_eq (marked d) (bundled h))))) [
        | inl t ↦ rw t k
        | inr f ↦ rw f tt
      ]

-- What holds at each cut of each part of `seed` holds at each cut of it.
pub seed-Always :
    (Q : Disk → Type 0) (h : Host) (a : Account) (d : Disk)
    → Always Q (seed_streaming a d) d
    → Always Q (install_loader h a) (perform (seed_streaming a d) d)
    → ((e : Disk) → Reached h a d e → Always Q (rest_of_seed h a e) e)
    → ((e : Disk) → Q e → Always Q (own_services a) e)
    → Always Q (seed h a d).1 d
unfolding seed seed_loader
seed-Always Q h a d s l r o =
    let d1 = perform (seed_streaming a d) d in
    let d2 = perform (install_loader h a) d1 in
    let d3 = perform (rest_of_seed h a d2) d2 in
    let none_here = nil-Always Q d1 (s d1 (perform-Cut (seed_streaming a d) d)) in
    append-Always Q (seed_streaming a d) (seed_loader h a d1).1 d s
      (elim (Bool-cases (exists unit d1)) [
        | inl t ↦ elim (Bool-cases (adopts a d1)) [
          | inl t' ↦ rw t (rw t' (r d1 Reached.adopted))
          | inr f' ↦ rw t (rw f' none_here)
        ]
        | inr f ↦ elim (Bool-cases (exists brew d1)) [
          | inl t' ↦ rw f (rw t' none_here)
          | inr f' ↦ rw f (
              rw f' (
                append-Always Q (install_loader h a) (rest_of_seed h a d2 ++ own_services a) d1 l (
                  append-Always Q (rest_of_seed h a d2) (own_services a) d2 (r d2 Reached.installed)
                    (o d3 (r d2 Reached.installed d3 (perform-Cut (rest_of_seed h a d2) d2))))))
        ]
      ])

-- What each part of `seed` leaves alone.
pub seed-Keeps :
    {X : Type 0} (look : Disk → X) (h : Host) (a : Account) (d : Disk)
    → Keeps look (seed_streaming a d) d
    → All (Leaves look) (install_loader h a)
    → ((e : Disk) → Reached h a d e → Keeps look (rest_of_seed h a e) e)
    → All (Leaves look) (own_services a)
    → Keeps look (seed h a d).1 d
seed-Keeps look h a d s l r o =
    seed-Always (λ e. look e ≡ look d) h a d s
      (λ e c.
        All-Keeps look (install_loader h a) _ l e c ∙ s _ (perform-Cut (seed_streaming a d) d))
      (λ x k e c. r x k e c ∙ Reached-same look h a d x s l k)
      (λ x q e c. All-Keeps look (own_services a) x o e c ∙ q)
