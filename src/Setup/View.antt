-- ===== src/Setup/View.antt =====
-- The plugin of files/usr/libexec/moonmachine-setup as its user sees it, and what `seed` makes of it.
use bazzite_k.Common.{
  Bool, true, false, ◌≡◌, refl, ap, ◌∙◌, inl, inr, ◌&&◌, ◌||◌, not, List, [], ◌∷◌, ◌++◌,
  if◌then◌else◌, Bool-cases, codes_eq, some, ℕ,
}
use mathlib.Core.Path.{fun_ext}
use bazzite_k.Common.Parse.{strip, is_blank}
use bazzite_k.Setup.Disk.{
  contents, home, Disk, Tree, Node, dir, exists, subtree, down, is_some, text_of, remove_tree,
  rename, mkdir, copy_tree,
}
use bazzite_k.Setup.Seed.{
  Host, Account, perform, plugin, marker, staging, backup, update_plugin, seed_plugin, bundled,
  managed, marked, plugin_digest, plugin_folder, bundle_folder, digested, has_name, if_exists,
}
use bazzite_k.Setup.Steps.{perform-Leaves, if_exists-Leaves}
use bazzite_k.Setup.Folder.{plugin_digest-bundled}
use bazzite_k.Common.Printed.{IsPrinted, strip-line, codes_eq_refl, codes_eq_only}

-- No plugin, one that this setup keeps up to date, or the user's own.
pub data Plugin : Type 0 where
  absent : Plugin
  ours : Tree → Plugin
  users : Tree → Plugin

unfoldable pub view : Host → Account → Disk → Plugin
view h a d =
    if not (exists plugin d)
    then Plugin.absent
    else if managed h a d
    then Plugin.ours (subtree plugin d)
    else Plugin.users (subtree plugin d)

-- What is promised: the user's own is kept, and any other is the one of the image afterwards.
unfoldable pub updated : Host → Account → Plugin → Plugin
updated h a Plugin.absent = Plugin.ours h.moondeck
updated h a (Plugin.ours t) =
    if codes_eq (plugin_digest h (plugin_folder a) t) (bundled h)
    then Plugin.ours t
    else Plugin.ours h.moondeck
updated h a (Plugin.users t) = Plugin.users t

-- What is relied on: a digest has no white space, the bundle is a folder, and the home is not in a cache
-- of Python's.
pub record IsSane (h : Host) (a : Account) : Type 0 where
  pub printed : (t : List ℕ) → IsPrinted (h.sha256 t)
  pub folder : h.moondeck [] ≡ some dir
  pub uncached : has_name "__pycache__" a.directory ≡ false

steps-here :
    (h : Host) (a : Account) (d : Disk)
    → (perform (update_plugin h a) d).node marker ≡ some (Node.file (bundled h ++ (10 ∷ [])))
unfolding update_plugin
steps-here h a d = refl

staged : (h : Host) (d : Disk) → Disk
staged h d =
    perform
      (mkdir (home ("homebrew" ∷ "plugins" ∷ []))
        ∷ if_exists staging (remove_tree staging)
        ∷ copy_tree h.moondeck staging
        ∷ [])
      d

-- After an update the bundle is the plugin, and the marker holds its digest.
update_plugin-subtree :
    (h : Host) (a : Account) (d : Disk)
    → subtree plugin (perform (update_plugin h a) d) ≡ h.moondeck
unfolding update_plugin
update_plugin-subtree h a d = fun_ext λ r.
    let d3 =
      copy_tree h.moondeck staging
        (if_exists staging (remove_tree staging) (mkdir (home ("homebrew" ∷ "plugins" ∷ [])) d)) in
    perform-Leaves (contents (down staging r))
      (mkdir (home ("homebrew" ∷ "moonmachine-backups" ∷ []))
        ∷ if_exists backup (remove_tree backup)
        ∷ if_exists plugin (rename plugin backup)
        ∷ [])
      d3
      (
        (λ e. refl),
        (
          if_exists-Leaves (contents (down staging r)) backup (remove_tree backup) (λ e. refl),
          (
            if_exists-Leaves (contents (down staging r)) plugin (rename plugin backup) (λ e. refl),
            tt,
          ),
        ),
      )

marked-update :
    (h : Host) (a : Account) (d : Disk)
    → IsSane h a
    → marked (perform (update_plugin h a) d) ≡ bundled h
unfolding bundled plugin_digest
marked-update h a d k =
    ap (λ n. strip is_blank (text_of n)) (steps-here h a d)
    ∙ strip-line (bundled h) (k.printed (digested bundle_folder h.moondeck (h.rglob h.moondeck)))

update_plugin-view :
    (h : Host) (a : Account) (d : Disk)
    → IsSane h a
    → view h a (perform (update_plugin h a) d) ≡ Plugin.ours h.moondeck
unfolding view managed
update_plugin-view h a d k =
    let e = perform (update_plugin h a) d in
    let tree : subtree plugin e ≡ h.moondeck = update_plugin-subtree h a d in
    let here : exists plugin e ≡ true = ap (λ t. is_some (t [])) tree ∙ ap is_some k.folder in
    let mark : exists marker e ≡ true = ap is_some (steps-here h a d) in
    let right : codes_eq (plugin_digest h (plugin_folder a) (subtree plugin e)) (marked e) ≡ true =
      rw tree (
        rw (marked-update h a d k)
          (rw (plugin_digest-bundled h a k.uncached) (codes_eq_refl (bundled h)))) in
    rw here (rw mark (rw right (ap Plugin.ours tree)))

-- What `managed` tells of the marker.
pub managed-marked :
    (h : Host) (a : Account) (d : Disk)
    → managed h a d ≡ true
    → plugin_digest h (plugin_folder a) (subtree plugin d) ≡ marked d
unfolding managed
managed-marked h a d m =
    let right : codes_eq (plugin_digest h (plugin_folder a) (subtree plugin d)) (marked d) ≡ true =
      and_right (exists marker d) _ (and_right (exists plugin d) _ m) in
    codes_eq_only _ _ right
  where
    and_right : (x y : Bool) → x && y ≡ true → y ≡ true
    and_right true y h = h
    and_right false y h = absurd (let bad : false ≡ true = h in cc)

-- An update that is due is the whole update.
seed_plugin-due :
    (h : Host) (a : Account) (d : Disk)
    → not (exists plugin d) || (managed h a d && not (codes_eq (marked d) (bundled h))) ≡ true
    → IsSane h a
    → view h a (perform (seed_plugin h a d) d) ≡ Plugin.ours h.moondeck
unfolding seed_plugin
seed_plugin-due h a d t k = rw t (update_plugin-view h a d k)

seed_plugin-rests :
    (h : Host) (a : Account) (d : Disk)
    → not (exists plugin d) || (managed h a d && not (codes_eq (marked d) (bundled h))) ≡ false
    → perform (seed_plugin h a d) d ≡ d
unfolding seed_plugin
seed_plugin-rests h a d f = rw f refl

-- The part of `seed` about the plugin does what `updated` says.
pub seed_plugin-view :
    (h : Host) (a : Account) (d : Disk)
    → IsSane h a
    → view h a (perform (seed_plugin h a d) d) ≡ updated h a (view h a d)
unfolding updated view
seed_plugin-view h a d k = elim (Bool-cases (exists plugin d)) [
  | inr f ↦ rw (seed_plugin-due h a d (rw f refl) k) (rw f refl)
  | inl t ↦ elim (Bool-cases (managed h a d)) [
    | inr f ↦ rw (seed_plugin-rests h a d (rw t (rw f refl))) (rw t (rw f refl))
    | inl m ↦ elim (Bool-cases (codes_eq (marked d) (bundled h))) [
      | inl c ↦
          rw (seed_plugin-rests h a d (rw t (rw m (rw c refl))))
            (rw t (rw m (rw (managed-marked h a d m) (rw c refl))))
      | inr c ↦
          rw (seed_plugin-due h a d (rw t (rw m (rw c refl))) k)
            (rw t (rw m (rw (managed-marked h a d m) (rw c refl))))
    ]
  ]
]
