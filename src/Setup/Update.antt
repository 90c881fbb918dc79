-- ===== src/Setup/Update.antt =====
-- The update of the plugin in files/usr/libexec/moonmachine-setup, wherever it is interrupted.
use bazzite_k.Common.{
  true, ◌≡◌, refl, ap, ◌∙◌, ◌⊎◌, inl, inr, List, [], ◌∷◌, ◌++◌, All, String, Bool-cases, not, ◌||◌,
  ◌&&◌, codes_eq,
}
use bazzite_k.Setup.Disk.{
  contents, entry, FilePath, home, Disk, exists, down, is_some, mkdir, remove_tree, copy_tree,
  rename, write, chown, chown_tree,
}
use bazzite_k.Setup.Seed.{
  Host, Account, Step, perform, plugin, marker, staging, backup, update_plugin, owner_of, bundled,
  if_exists, seed_plugin, seed, managed, marked, install_loader, seed_settings, own_services,
  rest_of_seed,
}
use bazzite_k.Setup.Reach.{seed-Always, Reached-same, Reached}
use bazzite_k.Setup.Kept
use bazzite_k.Setup.Steps.{
  Cut, Leaves, Cut-Leaves, if_exists-Leaves, Always, append-Always, perform-Leaves, nil-Always,
  All-Keeps, perform-Cut,
}

-- Up to where the old plugin is still in its place.
abbrev prepare : Host → List Step
prepare h =
    mkdir (home ("homebrew" ∷ "plugins" ∷ []))
    ∷ if_exists staging (remove_tree staging)
    ∷ copy_tree h.moondeck staging
    ∷ mkdir (home ("homebrew" ∷ "moonmachine-backups" ∷ []))
    ∷ if_exists backup (remove_tree backup)
    ∷ []

-- From where it is the backup.
abbrev finish : Host → Account → List Step
finish h a =
    rename staging plugin
    ∷ write marker (bundled h ++ (10 ∷ []))
    ∷ chown (owner_of a) marker
    ∷ chown (owner_of a) (home ("homebrew" ∷ "plugins" ∷ []))
    ∷ chown_tree (owner_of a) plugin
    ∷ []

update_plugin-parts :
    (h : Host) (a : Account)
    → update_plugin h a ≡ prepare h ++ (if_exists plugin (rename plugin backup) ∷ finish h a)
unfolding update_plugin
update_plugin-parts h a = refl

-- All that stood below `p` on the first disk stands below `q` on the second one.
abbrev pub IsAt : FilePath → Disk → FilePath → Disk → Type 0
IsAt p d q e = (r : List String) → e.node (down q r) ≡ d.node (down p r)

prepare-plugin : (h : Host) (r : List String) → All (Leaves (contents (down plugin r))) (prepare h)
prepare-plugin h r = (
  (λ e. refl),
  (
    if_exists-Leaves (contents (down plugin r)) staging (remove_tree staging) (λ e. refl),
    (
      (λ e. refl),
      (
        (λ e. refl),
        (if_exists-Leaves (contents (down plugin r)) backup (remove_tree backup) (λ e. refl), tt),
      ),
    ),
  ),
)

finish-backup :
    (h : Host) (a : Account) (r : List String)
    → All (Leaves (contents (down backup r))) (finish h a)
finish-backup h a r = ((λ e. refl), ((λ e. refl), ((λ e. refl), ((λ e. refl), ((λ e. refl), tt)))))

-- The old plugin, as a whole, in its place or as the backup.
abbrev pub IsWhole : Disk → Disk → Type 0
IsWhole d e = IsAt plugin d plugin e ⊎ IsAt plugin d backup e

moved-IsAt :
    (d e : Disk)
    → exists plugin d ≡ true
    → IsAt plugin d plugin e
    → IsAt plugin d backup (if_exists plugin (rename plugin backup) e)
moved-IsAt d e t k r = let here : exists plugin e ≡ true = ap is_some (k []) ∙ t in rw here (k r)

update_plugin-IsWhole :
    (h : Host) (a : Account) (d e : Disk)
    → exists plugin d ≡ true
    → IsAt plugin d plugin e
    → Always (IsWhole d) (update_plugin h a) e
unfolding update_plugin
update_plugin-IsWhole h a d e t k =
    let e1 = perform (prepare h) e in
    let still : IsAt plugin d plugin e1 =
      λ r. perform-Leaves (contents (down plugin r)) (prepare h) e (prepare-plugin h r) ∙ k r in
    let after : Always (IsWhole d) (if_exists plugin (rename plugin backup) ∷ finish h a) e1 =
      λ x c. go x still c in
    append-Always (IsWhole d) (prepare h) (if_exists plugin (rename plugin backup) ∷ finish h a) e
      (λ x c.
        inl (λ r. Cut-Leaves (contents (down plugin r)) (prepare h) c (prepare-plugin h r) ∙ k r))
      after
  where
    go :
        {e1 : Disk} (x : Disk)
        → IsAt plugin d plugin e1
        → Cut (if_exists plugin (rename plugin backup) ∷ finish h a) e1 x
        → IsWhole d x
    go x s Cut.stop = inl s
    go {e1} x s (Cut.step c) = inr (λ r.
        Cut-Leaves (contents (down backup r)) (finish h a) c (finish-backup h a r)
        ∙ moved-IsAt d e1 t s r)

IsWhole-same :
    (d x e : Disk)
    → IsWhole d x
    → ((r : List String) → e.node (home ("homebrew" ∷ r)) ≡ x.node (home ("homebrew" ∷ r)))
    → IsWhole d e
IsWhole-same d x e (inl k) same = inl (λ r. same _ ∙ k r)
IsWhole-same d x e (inr k) same = inr (λ r. same _ ∙ k r)

seed_plugin-IsWhole :
    (h : Host) (a : Account) (d e : Disk)
    → exists plugin d ≡ true
    → IsAt plugin d plugin e
    → Always (IsWhole d) (seed_plugin h a e) e
unfolding seed_plugin
seed_plugin-IsWhole h a d e t k =
    elim (Bool-cases
      (not (exists plugin e) || (managed h a e && not (codes_eq (marked e) (bundled h))))) [
        | inl s ↦ rw s (update_plugin-IsWhole h a d e t k)
        | inr f ↦ rw f (nil-Always (IsWhole d) e (inl k))
      ]

rest_of_seed-IsWhole :
    (h : Host) (a : Account) (d e : Disk)
    → exists plugin d ≡ true
    → IsAt plugin d plugin e
    → Always (IsWhole d) (rest_of_seed h a e) e
rest_of_seed-IsWhole h a d e t k =
    let e1 = perform (seed_plugin h a e) e in
    let whole = seed_plugin-IsWhole h a d e t k in
    append-Always (IsWhole d) (seed_plugin h a e) (seed_settings h a e1) e whole (λ x c.
      IsWhole-same d e1 x (whole e1 (perform-Cut (seed_plugin h a e) e))
        (λ r. ap (λ p. p.0) (Kept.settings-brew h a e1 r x c)))

-- A plugin that exists is never lost: at whichever of its steps `seed` is cut off, the end included, all
-- of its files stand as they were, in its place or as the backup.
pub seed-IsWhole :
    (h : Host) (a : Account) (d e : Disk)
    → exists plugin d ≡ true
    → Cut (seed h a d).1 d e
    → IsWhole d e
seed-IsWhole h a d e t c =
    let before : (x : Disk) → Reached h a d x → IsAt plugin d plugin x = λ x k r.
      ap (λ p. p.0)
        (Reached-same (entry (down plugin r)) h a d x (Kept.streaming-brew a d _)
          (Kept.loader-plugin h a r) k) in
    seed-Always (IsWhole d) h a d (λ x k. inl (λ r. ap (λ p. p.0) (Kept.streaming-brew a d _ x k)))
      (λ x k. inl (λ r.
        ap (λ p. p.0)
          (All-Keeps (entry (down plugin r)) (install_loader h a) _ (Kept.loader-plugin h a r) x k)
        ∙ before _ Reached.adopted r))
      (λ x k. rest_of_seed-IsWhole h a d x t (before x k))
      (λ x q y i.
        IsWhole-same d x y q
          (λ r. All-Keeps (contents _) (own_services a) x (Kept.own-brew a r) y i))
      e c
