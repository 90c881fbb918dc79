-- ===== src/Install/Gated.antt =====
-- What apps/install.py puts in place, and what the first boot makes of its defaults.
use bazzite_k.Common.{
  ℕ, true, false, ◌≡◌, refl, ap, ◌∙◌, inl, inr, some, List, [], ◌∷◌, String, Bool-cases, All,
}
use bazzite_k.Common.Json.{Json, Fields, lookup, set_field}
use bazzite_k.Common.Dict.{lookup-set_field, lookup-set_field_other}
use bazzite_k.Install.{
  Effect, Tools, is_intact, changed_defaults, before_check, Outcome, do_all, install,
}
use bazzite_k.Setup.Disk.{Disk, Node, exists}
use bazzite_k.Setup.Seed.{Host, Account, perform, settings, seed_settings}

-- A step that puts no application in place.
abbrev pub IsPreparation : Effect → Type 0
IsPreparation Effect.make_share = Unit
IsPreparation Effect.copy_sources = Unit
IsPreparation Effect.copy_licenses = Unit
IsPreparation Effect.curl = Unit
IsPreparation e = ⊥

do_all-All :
    (P : Effect → Type 0) (t : Tools) (es : List Effect) (last : Outcome)
    → All P es
    → All P last.done
    → All P (do_all t es last).done
do_all-All P t [] last h k = k
do_all-All P t (e ∷ es) last h k = elim (Bool-cases (t.succeeds e)) [
  | inl s ↦ rw s (h.0, do_all-All P t es last h.1 k)
  | inr f ↦ rw f tt
]

do_all-error :
    (t : Tools) (es : List Effect) (last : Outcome)
    → (e : String) × (last.error ≡ some e)
    → (e : String) × ((do_all t es last).error ≡ some e)
do_all-error t [] last h = h
do_all-error t (x ∷ es) last h = elim (Bool-cases (t.succeeds x)) [
  | inl s ↦ rw s (do_all-error t es last h)
  | inr f ↦ rw f ("OSError", refl)
]

-- If the loader has not the checksum of sources.json, `install.py` raises, and no application has been
-- put in place, whatever else fails.
pub install-IsPreparation :
    (t : Tools) (pinned : List ℕ)
    → is_intact t pinned ≡ false
    → All IsPreparation (install t pinned).done × (e : String) × ((install t pinned).error ≡ some e)
unfolding install
install-IsPreparation t pinned f =
    let stopped : Outcome = record { done = []; error = some "Decky checksum mismatch" } in
    let (e, raised) = do_all-error t before_check stopped ("Decky checksum mismatch", refl) in
    rw f (do_all-All IsPreparation t before_check stopped (tt, (tt, (tt, (tt, tt)))) tt, e, raised)

-- The settings of the plugin that the first boot writes, if there are none, from the defaults that
-- `install.py` has written: they start the installed Moonlight, and have the identity that the boot has
-- made.
pub seed_settings-changed_defaults :
    (h : Host) (a : Account) (d : Disk) (shipped : Fields)
    → h.defaults ≡ changed_defaults shipped
    → exists settings d ≡ false
    → (fs : Fields) × ((perform (seed_settings h a d) d).node settings
        ≡ some (Node.file (h.dump fs)))
      × (lookup "clientId" fs ≡ some (Json.str h.uuid))
      × (lookup "useMoonlightExec" fs ≡ some (Json.bool true))
      × (lookup "moonlightExecPath" fs ≡ some (Json.str "/usr/bin/moonlight"))
unfolding seed_settings changed_defaults
seed_settings-changed_defaults h a d shipped e f =
    let id = Json.str h.uuid in
    let moonlight = Json.str "/usr/bin/moonlight" in
    let named = set_field "clientId" (Json.str "") shipped in
    let used = set_field "useMoonlightExec" (Json.bool true) named in
    (
      set_field "clientId" id h.defaults,
      rw f refl,
      lookup-set_field "clientId" id h.defaults,
      lookup-set_field_other "clientId" "useMoonlightExec" id h.defaults refl
          ∙ ap (lookup "useMoonlightExec") e
          ∙ lookup-set_field_other "moonlightExecPath" "useMoonlightExec" moonlight used refl
          ∙ lookup-set_field "useMoonlightExec" (Json.bool true) named,
      lookup-set_field_other "clientId" "moonlightExecPath" id h.defaults refl
          ∙ ap (lookup "moonlightExecPath") e
          ∙ lookup-set_field "moonlightExecPath" moonlight used,
    )
