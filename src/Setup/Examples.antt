-- ===== src/Setup/Examples.antt =====
-- Runs of files/usr/libexec/moonmachine-setup on concrete disks.
use bazzite_k.Common.Parse.{strip}
use bazzite_k.Common.{
  ℕ, true, false, ◌≡◌, refl, inl, inr, Option, some, none, List, [], ◌∷◌, if◌then◌else◌, Bool-cases,
  String, text_eq, ltb, length, contains, ◌≢◌,
}
use bazzite_k.Common.Bytes.{bytes}
use bazzite_k.Common.Json.{Fields}
use bazzite_k.Common.{ap, ◌∙◌, codes_eq}
use bazzite_k.Common.Printed.{codes_eq_refl}
use bazzite_k.Common.Infix.{IsInfix, IsInfix-has_infix}
use bazzite_k.Setup.Disk.{
  FilePath, home, units, Node, dir, file, Tree, Disk, root, same, down, entry, subtree,
}
use bazzite_k.Setup.Seed.{
  Host, seed_loader, plugin_digest, seed_plugin, update_plugin, seed_settings, seed_loader, Account,
  config, settings, plugin, marker, unit, brew, seed, seeded, managed, bundled, unit_text,
  seed_streaming, plugin_folder, marked,
}
use bazzite_k.Setup.Steps.{Cut, perform-Cut}
use bazzite_k.Common.Printed.{IsPrinted}
use bazzite_k.Setup.View.{view, updated, IsSane}
use bazzite_k.Setup.Refine.{foreign, seed-view}
use bazzite_k.Setup.Safety.{
  IsUserFile, IsForeign, seed-user_file, seed-unmanaged, seed-IsForeign, IsOwn, home_line,
}
use bazzite_k.Setup.Update.{IsWhole, seed-IsWhole}
use bazzite_k.Setup.Again.{seed-seeded}
use bazzite_k.Setup.Main.{
  kept, eligible, sorted, insert, first, set_up, unsupported, run_all, Command, Result, chosen,
  main,
}
use bazzite_k.Setup.Chosen.{IsFirst, chosen-IsFirst}

abbrev bundle : Tree
bundle [] = some dir
bundle (x ∷ []) = if text_eq x "main.py" then some (file (bytes "a new text")) else none
bundle (x ∷ y ∷ p) = none

abbrev digest : List ℕ → List ℕ
digest t = if ltb (length t) 12 then bytes "1a" else bytes "2b"

digest-IsPrinted : (t : List ℕ) → IsPrinted (digest t)
digest-IsPrinted t = elim (Bool-cases (ltb (length t) 12)) [
  | inl s ↦ rw s (refl, (refl, tt))
  | inr s ↦ rw s (refl, (refl, tt))
]

abbrev image : Host
image = record {
  loader = bytes "loader";
  version = bytes "3.1.4";
  moondeck = bundle;
  defaults = Fields.end;
  sha256 = digest;
  rglob = λ t. ("main.py" ∷ []) ∷ [];
  dump = λ fs. bytes "{}";
  uuid = "7d";
}

abbrev user : Account
user = record {
  uid = 1000;
  gid = 1000;
  directory = "/" ∷ "home" ∷ "deck" ∷ [];
  directory_text = bytes "/home/deck";
  shell = "/bin/bash";
}

abbrev sane : IsSane image user
sane = record { printed = digest-IsPrinted; folder = refl; uncached = refl }

abbrev at : List (FilePath × Node) → FilePath → Option Node
at [] q = none
at ((p, n) ∷ rest) q = if same p q then some n else at rest q

abbrev disk : List (FilePath × Node) → Disk
disk files = record { node = at files; owner = λ q. root }

-- A new machine: the bundle is installed and marked.
new_machine : (seed image user (disk [])).0 ≡ true
unfolding seed seed_streaming seed_loader
new_machine = refl

abbrev main_file : FilePath
main_file = down plugin ("main.py" ∷ [])

-- This home, with a plugin of the user's.
abbrev modified : Disk
modified = disk (
    (unit, file (unit_text user))
    ∷ (brew, dir)
    ∷ (plugin, dir)
    ∷ (main_file, file (bytes "changed by hand"))
    ∷ (marker, file (bytes "1a\n"))
    ∷ (config, file (bytes "[General]"))
    ∷ (settings, file (bytes "{}"))
    ∷ [])

-- This home, with a plugin that an older image put there.
abbrev outdated : Disk
outdated = disk (
    (unit, file (unit_text user))
    ∷ (brew, dir)
    ∷ (plugin, dir)
    ∷ (main_file, file (bytes "old"))
    ∷ (marker, file (bytes "1a\n"))
    ∷ [])

-- The unit of another home.
abbrev elsewhere : Disk
elsewhere =
    disk ((unit, file (bytes "Environment=UNPRIVILEGED_PATH=/home/other")) ∷ (brew, dir) ∷ [])

abbrev end_of : (d : Disk) → Cut (seed image user d).1 d (seeded image user d)
end_of d = perform-Cut (seed image user d).1 d

outdated-managed : managed image user outdated ≡ true
unfolding managed plugin_digest strip
outdated-managed = refl

outdated-due : (seeded image user outdated).node main_file ≡ some (file (bytes "a new text"))
unfolding seed seed_streaming seed_loader seed_plugin managed plugin_digest bundled update_plugin
    seed_settings unit_text strip
outdated-due = refl

seed-user_file_example : (seeded image user modified).node config ≡ modified.node config
seed-user_file_example =
    seed-user_file image user modified (seeded image user modified) config IsUserFile.moonlight refl
      (end_of modified)

modified-digest :
    plugin_digest image (plugin_folder user) (subtree plugin modified) ≢ marked modified
unfolding plugin_digest strip
modified-digest h =
    let bad : false ≡ true =
      ap (λ x. codes_eq x (marked modified)) h ∙ codes_eq_refl (marked modified) in
    cc

seed-unmanaged_example :
    ((seeded image user modified).node main_file ≡ modified.node main_file)
    × ((seeded image user modified).owner main_file ≡ modified.owner main_file)
seed-unmanaged_example =
    seed-unmanaged image user modified (seeded image user modified) ("main.py" ∷ []) refl
      (IsOwn.changed modified-digest) (end_of modified)

elsewhere-home : ¬ IsInfix (home_line user) (bytes "Environment=UNPRIVILEGED_PATH=/home/other")
elsewhere-home h = let bad : false ≡ true = IsInfix-has_infix (home_line user) _ h in cc

seed-IsForeign_example :
    ((seed image user elsewhere).0 ≡ false)
    × ((r : List String)
        → entry (home ("homebrew" ∷ r)) (seeded image user elsewhere)
          ≡ entry (home ("homebrew" ∷ r)) elsewhere)
    × ((r : List String)
        → entry (units r) (seeded image user elsewhere) ≡ entry (units r) elsewhere)
seed-IsForeign_example =
    seed-IsForeign image user elsewhere (seeded image user elsewhere)
      (IsForeign.other_home (bytes "Environment=UNPRIVILEGED_PATH=/home/other") refl elsewhere-home)
      (end_of elsewhere)

seed-IsWhole_example : IsWhole outdated (seeded image user outdated)
seed-IsWhole_example =
    seed-IsWhole image user outdated (seeded image user outdated) refl (end_of outdated)

seed-view_example : view image user (seeded image user outdated) ≡ (
    if foreign user outdated
    then view image user outdated
    else updated image user (view image user outdated))
seed-view_example = seed-view image user outdated sane

seed-seeded_example : seed image user (seeded image user outdated) ≡ (false, [])
seed-seeded_example = seed-seeded image user outdated sane

abbrev service : Account
service = record user { uid = 999; gid = 999; shell = "/bin/sh" }

abbrev guest : Account
guest = record user { uid = 1001; gid = 1001; directory_text = bytes "/home/guest" }

abbrev accounts : List Account
accounts = service ∷ guest ∷ user ∷ []

chosen-user : chosen (λ t. true) accounts ≡ some user
unfolding chosen kept eligible sorted insert first
chosen-user = refl

chosen-IsFirst_example : IsFirst (λ t. true) accounts user
chosen-IsFirst_example = chosen-IsFirst (λ t. true) accounts user chosen-user

-- The commands end with the first that fails.
main_failed :
    (main image
      (λ t. true)
      (λ c. elim c [ Command.daemon_reload ↦ false | _ ↦ true ])
      accounts
      (disk [])).result
    ≡ Result.failed
unfolding main chosen kept eligible sorted insert first set_up unsupported run_all seed
    seed_streaming seed_loader contains
main_failed = refl
