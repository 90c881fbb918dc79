-- ===== src/Install/Examples.antt =====
-- An image with a loader that was changed, and a first boot with the defaults of the image.
use bazzite_k.Common.{true, ◌≡◌, refl, some, none, [], ◌∷◌}
use bazzite_k.Common.Bytes.{bytes}
use bazzite_k.Common.Json.{Json, Fields, lookup}
use bazzite_k.Install.{Tools, changed_defaults}
use bazzite_k.Install.Gated.{seed_settings-changed_defaults}
use bazzite_k.Setup.Disk.{Disk, Node, root}
use bazzite_k.Setup.Seed.{Host, Account, perform, settings, seed_settings}

abbrev shipped : Fields
shipped =
    Fields.field "clientId" (Json.str "developer")
      (Fields.field "sunshineApps" Json.null Fields.end)

abbrev tools : Tools
tools = record {
  succeeds = λ e. true;
  loader = bytes "ELF";
  sha256 = λ t. bytes "0a52";
  settings = shipped;
}

abbrev image : Host
image = record {
  loader = bytes "ELF";
  version = bytes "3.2.9";
  moondeck = λ p. none;
  defaults = changed_defaults shipped;
  sha256 = λ t. bytes "0a52";
  rglob = λ t. [];
  dump = λ fs. bytes "{}";
  uuid = "7d";
}

abbrev user : Account
user = record {
  uid = 1000;
  gid = 1000;
  directory = "/" ∷ "home" ∷ "deck" ∷ [];
  directory_text = bytes "/home/deck";
  shell = "/bin/bash";
}

abbrev empty : Disk
empty = record { node = λ p. none; owner = λ p. root }

seed_settings-changed_defaults_example :
    (fs : Fields) × ((perform (seed_settings image user empty) empty).node settings
      ≡ some (Node.file (bytes "{}")))
    × (lookup "clientId" fs ≡ some (Json.str "7d"))
    × (lookup "useMoonlightExec" fs ≡ some (Json.bool true))
    × (lookup "moonlightExecPath" fs ≡ some (Json.str "/usr/bin/moonlight"))
seed_settings-changed_defaults_example =
    seed_settings-changed_defaults image user empty shipped refl refl
