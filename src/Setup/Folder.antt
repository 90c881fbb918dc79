-- ===== src/Setup/Folder.antt =====
-- The digest of the plugin does not depend on the folder that it stands in.
use bazzite_k.Common.{
  true, false, ◌≡◌, refl, ap, inl, inr, List, [], ◌∷◌, ◌++◌, Bool-cases, String, text_eq,
}
use bazzite_k.Setup.Disk.{Tree}
use bazzite_k.Setup.Seed.{
  Host, Account, bundled, plugin_digest, plugin_folder, bundle_folder, digested, counts, has_name,
}

has_name-append :
    (n : String) (p q : List String) → has_name n p ≡ false → has_name n (p ++ q) ≡ has_name n q
has_name-append n [] q f = refl
has_name-append n (x ∷ p) q f = elim (Bool-cases (text_eq n x)) [
  | inl t ↦ absurd (let bad : true ≡ false = rw t at f in cc)
  | inr g ↦ let rest : has_name n p ≡ false = rw g at f in rw g (has_name-append n p q rest)
]

counts-folder :
    (a : Account) (t : Tree) (p : List String)
    → has_name "__pycache__" a.directory ≡ false
    → counts (plugin_folder a) t p ≡ counts bundle_folder t p
counts-folder a t p f = rw (plugin_name a p f) refl
  where
    plugin_name :
        (a : Account) (p : List String)
        → has_name "__pycache__" a.directory ≡ false
        → has_name "__pycache__" (plugin_folder a ++ p) ≡ has_name "__pycache__" p
    plugin_name a p f =
        has_name-append "__pycache__" (plugin_folder a) p
          (has_name-append "__pycache__" a.directory ("homebrew" ∷ "plugins" ∷ "moondeck" ∷ []) f)

digested-folder :
    (a : Account) (t : Tree) (ps : List (List String))
    → has_name "__pycache__" a.directory ≡ false
    → digested (plugin_folder a) t ps ≡ digested bundle_folder t ps
digested-folder a t [] f = refl
digested-folder a t (p ∷ ps) f = rw (counts-folder a t p f) (rw (digested-folder a t ps f) refl)

pub plugin_digest-bundled :
    (h : Host) (a : Account)
    → has_name "__pycache__" a.directory ≡ false
    → plugin_digest h (plugin_folder a) h.moondeck ≡ bundled h
unfolding plugin_digest bundled
plugin_digest-bundled h a f = ap h.sha256 (digested-folder a h.moondeck (h.rglob h.moondeck) f)
