-- ===== src/Setup/Safety.antt =====
-- What `seed` of files/usr/libexec/moonmachine-setup leaves alone, wherever it is interrupted.
use bazzite_k.Common.{true, false, ◌≡◌, refl, ap, sym, ◌∙◌, List, [], ◌∷◌, ◌++◌, String, has_infix}
use mathlib.Core.Path.{subst, fun_ext}
use bazzite_k.Common.Bytes.{bytes}
use bazzite_k.Setup.Disk.{FilePath, home, units, Disk, exists, subtree, down, is_some, text_of}
use bazzite_k.Setup.Seed.{
  Host, Account, perform, config, brew, unit, plugin, marker, settings, seed_streaming, seed_plugin,
  seed_settings, managed, seed_loader, seed, adopts,
}
use bazzite_k.Setup.Steps.{Cut, Leaves, Keeps, All-Keeps, append-Keeps, perform-Leaves, perform-Cut}
use bazzite_k.Setup.Reach.{Reached, Reached-same, seed_plugin-All, seed-Keeps}
use bazzite_k.Setup.Kept
use bazzite_k.Common.{none, some, ◌≢◌, Bool, ℕ, codes_eq, Bool-cases, inl, inr, ◌&&◌}
use bazzite_k.Common.Infix.{IsInfix, has_infix-IsInfix}
use bazzite_k.Common.Printed.{codes_eq_only}
use bazzite_k.Setup.Disk.{entry, Node, file}
use bazzite_k.Setup.Seed.{plugin_digest, plugin_folder, marked}

pub seed-config :
    (h : Host) (a : Account) (d : Disk)
    → exists config d ≡ true
    → Keeps (entry config) (seed h a d).1 d
seed-config h a d t =
    seed-Keeps (entry config) h a d (Kept.streaming-config a d t) (Kept.loader-config h a)
      (λ x k.
        append-Keeps (entry config) (seed_plugin h a x) (seed_settings h a _) x
          (All-Keeps (entry config) (seed_plugin h a x) x
            (seed_plugin-All (Leaves (entry config)) h a x (Kept.update-config h a)))
          (Kept.settings-config h a _))
      (Kept.own-config a)

seed-settings :
    (h : Host) (a : Account) (d : Disk)
    → exists settings d ≡ true
    → Keeps (entry settings) (seed h a d).1 d
seed-settings h a d t =
    let look = entry settings in
    seed-Keeps look h a d (Kept.streaming-settings a d) (Kept.loader-settings h a)
      (λ x k.
        let plugin_all = seed_plugin-All (Leaves look) h a x (Kept.update-settings h a) in
        let same =
          perform-Leaves look (seed_plugin h a x) x plugin_all
          ∙ Reached-same look h a d x (Kept.streaming-settings a d) (Kept.loader-settings h a) k in
        append-Keeps look (seed_plugin h a x) (seed_settings h a _) x
          (All-Keeps look (seed_plugin h a x) x plugin_all)
          (Kept.settings-settings h a _ (ap (λ p. is_some p.0) same ∙ t)))
      (Kept.own-settings a)

-- What the user may have configured: the streaming settings, and those of the plugin.
pub data IsUserFile : FilePath → Type 0 where
  moonlight : IsUserFile config
  moondeck : IsUserFile settings

-- A file of settings of the user that exists holds what it held, at whichever of its steps `seed` is cut
-- off, the end included.
pub seed-user_file :
    (h : Host) (a : Account) (d e : Disk) (p : FilePath)
    → IsUserFile p
    → exists p d ≡ true
    → Cut (seed h a d).1 d e
    → e.node p ≡ d.node p
seed-user_file h a d e p IsUserFile.moonlight t c = ap (λ x. x.0) (seed-config h a d t e c)
seed-user_file h a d e p IsUserFile.moondeck t c = ap (λ x. x.0) (seed-settings h a d t e c)

-- What `managed` reads.
pub managed-same :
    (h : Host) (a : Account) (d e : Disk)
    → ((r : List String) → e.node (down plugin r) ≡ d.node (down plugin r))
    → e.node marker ≡ d.node marker
    → managed h a e ≡ managed h a d
unfolding managed
managed-same h a d e k m =
    let tree : subtree plugin e ≡ subtree plugin d = fun_ext k in
    let here : e.node plugin ≡ d.node plugin = k [] in rw here (rw m (rw tree refl))

seed_plugin-unmanaged :
    (h : Host) (a : Account) (d : Disk)
    → exists plugin d ≡ true
    → managed h a d ≡ false
    → seed_plugin h a d ≡ []
unfolding seed_plugin
seed_plugin-unmanaged h a d t f = rw t (rw f refl)

-- There is no marker, or the plugin has another digest than the one that it records.
pub data IsOwn (h : Host) (a : Account) (d : Disk) : Type 0 where
  unmarked : d.node marker ≡ none → IsOwn h a d
  changed : plugin_digest h (plugin_folder a) (subtree plugin d) ≢ marked d → IsOwn h a d

IsOwn-managed : (h : Host) (a : Account) (d : Disk) → IsOwn h a d → managed h a d ≡ false
unfolding managed
IsOwn-managed h a d (IsOwn.unmarked e) = rw e (and_false (exists plugin d))
  where
    and_false : (b : Bool) → b && false ≡ false
    and_false true = refl
    and_false false = refl
IsOwn-managed h a d (IsOwn.changed differ) =
    not_all (exists plugin d) (exists marker d) _
      (codes_differ (plugin_digest h (plugin_folder a) (subtree plugin d)) (marked d) differ)
  where
    codes_differ : (x y : List ℕ) → x ≢ y → codes_eq x y ≡ false
    codes_differ x y differ = elim (Bool-cases (codes_eq x y)) [
      | inl t ↦ absurd (differ (codes_eq_only x y t))
      | inr f ↦ f
    ]

    not_all : (b c d : Bool) → d ≡ false → b && (c && d) ≡ false
    not_all true true d f = f
    not_all true false d f = refl
    not_all false c d f = refl

-- A plugin whose digest is not the one that a marker records, or that has no marker, is the user's own:
-- at whichever of its steps `seed` is cut off, the end included, what stands in its folder and who owns
-- it has not changed.
pub seed-unmanaged :
    (h : Host) (a : Account) (d e : Disk) (r : List String)
    → exists plugin d ≡ true
    → IsOwn h a d
    → Cut (seed h a d).1 d e
    → (e.node (down plugin r) ≡ d.node (down plugin r))
      × (e.owner (down plugin r) ≡ d.owner (down plugin r))
seed-unmanaged h a d e r t own c =
    let same : (x : Disk)
        → Reached h a d x
        → (q : List String) → entry (down plugin q) x ≡ entry (down plugin q) d =
      λ x k q.
        Reached-same (entry (down plugin q)) h a d x (Kept.streaming-brew a d _)
          (Kept.loader-plugin h a q) k in
    let kept =
      seed-Keeps (entry (down plugin r)) h a d (Kept.streaming-brew a d _)
        (Kept.loader-plugin h a r)
        (λ x k.
          let m =
            Reached-same (entry marker) h a d x (Kept.streaming-brew a d _) (Kept.loader-marker h a)
              k in
          let none_ = seed_plugin-unmanaged h a x (ap (λ p. is_some p.0) (same x k []) ∙ t) (
            managed-same h a d x (λ q. ap (λ p. p.0) (same x k q)) (ap (λ p. p.0) m)
            ∙ IsOwn-managed h a d own) in
          subst (λ ss. Keeps (entry (down plugin r)) (ss ++ seed_settings h a (perform ss x)) x)
            (sym none_) (Kept.settings-brew h a x _))
        (Kept.own-plugin a r) e c in
    (ap (λ p. p.0) kept, ap (λ p. p.1) kept)

-- The line of the unit that names the home of this account.
abbrev pub home_line : Account → List ℕ
home_line a = bytes "UNPRIVILEGED_PATH=" ++ (a.directory_text ++ bytes "/homebrew")

-- An installation that is not of this home: nowhere in the unit of the loader is this home named, or there
-- is a folder without the unit.
pub data IsForeign (a : Account) (d : Disk) : Type 0 where
  other_home :
      (t : List ℕ) → d.node unit ≡ some (file t) → ¬ IsInfix (home_line a) t → IsForeign a d
  no_unit : (n : Node) → d.node unit ≡ none → d.node brew ≡ some n → IsForeign a d

seed_loader-IsForeign :
    (h : Host) (a : Account) (d : Disk) → IsForeign a d → seed_loader h a d ≡ (false, [])
unfolding seed_loader
seed_loader-IsForeign h a d (IsForeign.other_home t u absent) =
    let here : exists unit d ≡ true = ap is_some u in
    let other : adopts a d ≡ false = elim (Bool-cases (has_infix (home_line a) t)) [
      | inl y ↦ absurd (absent (has_infix-IsInfix (home_line a) t y))
      | inr f ↦ ap (λ n. has_infix (home_line a) (text_of n)) u ∙ f
    ] in
    rw here (rw other refl)
seed_loader-IsForeign h a d (IsForeign.no_unit n u b) =
    let no_unit_here : exists unit d ≡ false = ap is_some u in
    let folder : exists brew d ≡ true = ap is_some b in rw no_unit_here (rw folder refl)

IsForeign-same :
    (a : Account) (d e : Disk)
    → e.node unit ≡ d.node unit
    → e.node brew ≡ d.node brew
    → IsForeign a d
    → IsForeign a e
IsForeign-same a d e u b (IsForeign.other_home t f absent) = IsForeign.other_home t (u ∙ f) absent
IsForeign-same a d e u b (IsForeign.no_unit n f t) = IsForeign.no_unit n (u ∙ f) (b ∙ t)

-- Where the installation is not of this home, `seed` returns `False`, and at whichever of its steps it
-- is cut off, the end included, nothing in the folder `homebrew` and no unit has changed, nor has the
-- owner of any of these.
pub seed-IsForeign :
    (h : Host) (a : Account) (d e : Disk)
    → IsForeign a d
    → Cut (seed h a d).1 d e
    → ((seed h a d).0 ≡ false)
      × ((r : List String) → entry (home ("homebrew" ∷ r)) e ≡ entry (home ("homebrew" ∷ r)) d)
      × ((r : List String) → entry (units r) e ≡ entry (units r) d)
unfolding seed
seed-IsForeign h a d e k c =
    let d1 = perform (seed_streaming a d) d in
    let end = perform-Cut (seed_streaming a d) d in
    let nothing : seed_loader h a d1 ≡ (false, []) = seed_loader-IsForeign h a d1 (
      IsForeign-same a d d1 (ap (λ p. p.0) (Kept.streaming-units a d _ d1 end))
        (ap (λ p. p.0) (Kept.streaming-brew a d _ d1 end)) k) in
    let only : (p : FilePath) → Keeps (entry p) (seed_streaming a d) d → entry p e ≡ entry p d =
      λ p s.
        append-Keeps (entry p) (seed_streaming a d) (seed_loader h a d1).1 d s
          (subst (λ l. Keeps (entry p) l.1 d1) (sym nothing) (All-Keeps (entry p) [] d1 tt)) e c in
    (
      ap (λ l. l.0) nothing,
      (λ r. only _ (Kept.streaming-brew a d r)),
      (λ r. only _ (Kept.streaming-units a d r)),
    )
