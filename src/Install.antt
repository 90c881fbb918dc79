-- ===== src/Install.antt =====
-- apps/install.py: the applications that are put into the image, in order, each step of which may raise.
pub mod Gated
pub mod Examples
use bazzite_k.Common.{
  ℕ, Bool, true, false, Option, none, some, List, [], ◌∷◌, String, if◌then◌else◌, codes_eq,
}
use bazzite_k.Common.Json.{Json, Fields, set_field}

pub data Effect : Type 0 where
  make_share : Effect
  copy_sources : Effect
  copy_licenses : Effect
  curl : Effect  -- into a temporary folder
  put_loader : List ℕ → Effect  -- share / 'PluginLoader'
  make_executable : Effect
  put_gamescope : Effect
  put_moonlight : Effect
  put_moondeck : Effect
  put_sources : Effect
  load_settings : Effect  -- the import of MoonDeck's module, and the call of it
  write_defaults : Fields → Effect
  remove_built : Effect
  enable_setup : Effect

-- What the tools answer: the steps that succeed, what curl has stored, SHA-256 in hexadecimal, and the
-- default settings of MoonDeck.
pub record Tools : Type 0 where
  pub succeeds : Effect → Bool
  pub loader : List ℕ
  pub sha256 : List ℕ → List ℕ
  pub settings : Fields

-- `source['sha256']`
abbrev pub is_intact : Tools → List ℕ → Bool
is_intact t pinned = codes_eq (t.sha256 t.loader) pinned

unfoldable pub changed_defaults : Fields → Fields
changed_defaults d =
    set_field "moonlightExecPath" (Json.str "/usr/bin/moonlight")
      (set_field "useMoonlightExec" (Json.bool true) (set_field "clientId" (Json.str "") d))

abbrev pub before_check : List Effect
before_check = Effect.make_share ∷ Effect.copy_sources ∷ Effect.copy_licenses ∷ Effect.curl ∷ []

abbrev pub after_check : Tools → List Effect
after_check t =
    Effect.put_loader t.loader
    ∷ Effect.make_executable
    ∷ Effect.put_gamescope
    ∷ Effect.put_moonlight
    ∷ Effect.put_moondeck
    ∷ Effect.put_sources
    ∷ Effect.load_settings
    ∷ Effect.write_defaults (changed_defaults t.settings)
    ∷ Effect.remove_built
    ∷ Effect.enable_setup
    ∷ []

-- The steps that have been done, and the exception that ends them.
pub record Outcome : Type 0 where
  pub done : List Effect
  pub error : Option String

-- Steps in turn, and then `last`.
abbrev pub do_all : Tools → List Effect → Outcome → Outcome
do_all t [] last = last
do_all t (e ∷ es) last =
    let rest = do_all t es last in
    if t.succeeds e
    then record rest { done = e ∷ rest.done }
    else record { done = []; error = some "OSError" }

abbrev pub checked : Tools → List ℕ → Outcome
checked t pinned =
    let rest = do_all t (after_check t) (record { done = []; error = none }) in
    if is_intact t pinned
    then rest
    else record { done = []; error = some "Decky checksum mismatch" }

unfoldable pub install : Tools → List ℕ → Outcome
install t pinned = do_all t before_check (checked t pinned)
