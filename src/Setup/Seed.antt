-- ===== src/Setup/Seed.antt =====
-- `seed_streaming` and `seed` of files/usr/libexec/moonmachine-setup. A run is a list of
-- steps, each of which changes the disk: an exception or a loss of power ends the list early.
use bazzite_k.Common.{
  ℕ, Bool, true, false, ◌&&◌, ◌||◌, not, List, [], ◌∷◌, ◌++◌, String, if◌then◌else◌, has_infix,
  codes_eq,
}
use bazzite_k.Common.Bytes.{bytes}
use bazzite_k.Common.Json.{Json, set_field}
use bazzite_k.Common.Parse.{strip, is_blank}
use bazzite_k.Setup.Disk.{
  FilePath, home, units, Disk, exists, subtree, text_of, mkdir, write, touch, remove_tree,
  copy_tree, rename, chown, chown_tree,
}
pub use bazzite_k.Setup.Host.{Host, Account, owner_of, has_name, counts, digested}
unfoldable pub use bazzite_k.Setup.Host.{plugin_digest}

abbrev pub Step : Type 0
Step = Disk → Disk

abbrev pub perform : List Step → Disk → Disk
perform [] d = d
perform (s ∷ ss) d = perform ss (s d)

abbrev pub config : FilePath
config = home (".config" ∷ "Moonlight Game Streaming Project" ∷ "Moonlight.conf" ∷ [])

abbrev pub config_text : List ℕ
config_text =
    bytes
      "[General]\nwidth=3840\nheight=2160\nfps=120\nbitrate=500000\nhdr=true\nyuv444=true\ndirectvideomode=1\nvsync=true\nframepacing=false\nvrrlatencymode=2\n"

unfoldable pub seed_streaming : Account → Disk → List Step
seed_streaming a d =
    let o = owner_of a in
    let folder = home (".config" ∷ "Moonlight Game Streaming Project" ∷ []) in
    if exists config d
    then []
    else mkdir folder
      ∷ write config config_text
      ∷ chown o (home (".config" ∷ []))
      ∷ chown o folder
      ∷ chown o config
      ∷ []

abbrev pub brew : FilePath
brew = home ("homebrew" ∷ [])

abbrev pub unit : FilePath
unit = units ("plugin_loader.service" ∷ [])

abbrev pub services : FilePath
services = home ("homebrew" ∷ "services" ∷ [])

abbrev pub brew_text : Account → List ℕ
brew_text a = a.directory_text ++ bytes "/homebrew"

unfoldable pub unit_text : Account → List ℕ
unit_text a =
    bytes
      "[Unit]\nDescription=Steam Deck Plugin Loader\nAfter=network.target\n[Service]\nType=simple\nUser=root\nRestart=always\nKillMode=process\nTimeoutStopSec=15\nExecStart="
    ++ (brew_text a
        ++ (bytes "/services/PluginLoader\nWorkingDirectory="
            ++ (brew_text a
                ++ (bytes "/services\nEnvironment=UNPRIVILEGED_PATH="
                    ++ (brew_text a
                        ++ (bytes "\nEnvironment=PRIVILEGED_PATH="
                            ++ (brew_text a
                                ++ bytes
                                    "\nEnvironment=LOG_LEVEL=INFO\n[Install]\nWantedBy=multi-user.target\n")))))))

abbrev pub steam : FilePath
steam = home (".local" ∷ "share" ∷ "Steam" ∷ [])

abbrev pub debugging : FilePath
debugging = home (".local" ∷ "share" ∷ "Steam" ∷ ".cef-enable-remote-debugging" ∷ [])

abbrev pub in_services : String → FilePath
in_services name = home ("homebrew" ∷ "services" ∷ name ∷ [])

-- The branch of a machine without the loader.
unfoldable pub install_loader : Host → Account → List Step
install_loader h a =
    let o = owner_of a in
    mkdir services
    ∷ write (in_services "PluginLoader") h.loader
    ∷ write (in_services ".loader.version") (b'v' ∷ (h.version ++ (10 ∷ [])))
    ∷ mkdir steam
    ∷ touch debugging
    ∷ chown o (home (".local" ∷ []))
    ∷ chown o (home (".local" ∷ "share" ∷ []))
    ∷ chown o steam
    ∷ chown o debugging
    ∷ mkdir (units [])
    ∷ write unit (unit_text a)
    ∷ []

abbrev pub plugin : FilePath
plugin = home ("homebrew" ∷ "plugins" ∷ "moondeck" ∷ [])

abbrev pub marker : FilePath
marker = home ("homebrew" ∷ ".moonmachine-moondeck-sha256" ∷ [])

abbrev pub staging : FilePath
staging = home ("homebrew" ∷ "plugins" ∷ ".moondeck-new" ∷ [])

abbrev pub backup : FilePath
backup = home ("homebrew" ∷ "moonmachine-backups" ∷ "moondeck-previous" ∷ [])

abbrev pub plugin_folder : Account → List String
plugin_folder a = a.directory ++ ("homebrew" ∷ "plugins" ∷ "moondeck" ∷ [])

abbrev pub bundle_folder : List String
bundle_folder = "usr" ∷ "share" ∷ "moonmachine" ∷ "moondeck" ∷ []

unfoldable pub bundled : Host → List ℕ
bundled h = plugin_digest h bundle_folder h.moondeck

abbrev pub marked : Disk → List ℕ
marked d = strip is_blank (text_of (d.node marker))

unfoldable pub managed : Host → Account → Disk → Bool
managed h a d =
    exists plugin d
    && (exists marker d
        && codes_eq (plugin_digest h (plugin_folder a) (subtree plugin d)) (marked d))

abbrev pub if_exists : FilePath → Step → Step
if_exists p s d = if exists p d then s d else d

-- The update, in its order: the new plugin is made ready beside, the old one becomes the backup.
unfoldable pub update_plugin : Host → Account → List Step
update_plugin h a =
    let o = owner_of a in
    mkdir (home ("homebrew" ∷ "plugins" ∷ []))
    ∷ if_exists staging (remove_tree staging)
    ∷ copy_tree h.moondeck staging
    ∷ mkdir (home ("homebrew" ∷ "moonmachine-backups" ∷ []))
    ∷ if_exists backup (remove_tree backup)
    ∷ if_exists plugin (rename plugin backup)
    ∷ rename staging plugin
    ∷ write marker (bundled h ++ (10 ∷ []))
    ∷ chown o marker
    ∷ chown o (home ("homebrew" ∷ "plugins" ∷ []))
    ∷ chown_tree o plugin
    ∷ []

unfoldable pub seed_plugin : Host → Account → Disk → List Step
seed_plugin h a d =
    if not (exists plugin d) || (managed h a d && not (codes_eq (marked d) (bundled h)))
    then update_plugin h a
    else []

abbrev pub settings : FilePath
settings = home (".config" ∷ "moondeck" ∷ "settings.json" ∷ [])

unfoldable pub seed_settings : Host → Account → Disk → List Step
seed_settings h a d =
    let o = owner_of a in
    let folder = home (".config" ∷ "moondeck" ∷ []) in
    if exists settings d
    then []
    else mkdir folder
      ∷ write settings (h.dump (set_field "clientId" (Json.str h.uuid) h.defaults))
      ∷ chown o (home (".config" ∷ []))
      ∷ chown o folder
      ∷ chown o settings
      ∷ []

-- The last loop: `services` was new, and holds these two files.
unfoldable pub own_services : Account → List Step
own_services a =
    let o = owner_of a in
    chown o brew
    ∷ chown o services
    ∷ chown o (in_services "PluginLoader")
    ∷ chown o (in_services ".loader.version")
    ∷ []

-- The parts of `seed` from the plugin on.
abbrev pub rest_of_seed : Host → Account → Disk → List Step
rest_of_seed h a d =
    let plugin_steps = seed_plugin h a d in
    plugin_steps ++ seed_settings h a (perform plugin_steps d)

-- The unit of the loader names this home.
abbrev pub adopts : Account → Disk → Bool
adopts a d = has_infix (bytes "UNPRIVILEGED_PATH=" ++ brew_text a) (text_of (d.node unit))

-- After `seed_streaming`.
unfoldable pub seed_loader : Host → Account → Disk → Bool × List Step
seed_loader h a d =
    if exists unit d
    then (if adopts a d then (false, rest_of_seed h a d) else (false, []))
    else if exists brew d
    then (false, [])
    else (let loader = install_loader h a in
        (true, loader ++ (rest_of_seed h a (perform loader d) ++ own_services a)))

-- What `seed` returns, and its steps.
unfoldable pub seed : Host → Account → Disk → Bool × List Step
seed h a d =
    let streaming = seed_streaming a d in
    let loaded = seed_loader h a (perform streaming d) in (loaded.0, streaming ++ loaded.1)

-- The disk after `seed`.
abbrev pub seeded : Host → Account → Disk → Disk
seeded h a d = perform (seed h a d).1 d
