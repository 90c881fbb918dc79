-- ===== src/Setup/Host.antt =====
-- What files/usr/libexec/moonmachine-setup is given, the accounts it looks at, and `plugin_digest`.
use bazzite_k.Common.{
  ℕ, Bool, true, false, ◌&&◌, ◌||◌, not, ltb, Option, some, List, [], ◌∷◌, ◌++◌, String,
  if◌then◌else◌, text_eq, has_prefix, length,
}
use mathlib.Core.List.{reverse}
use bazzite_k.Common.Bytes.{bytes}
use bazzite_k.Common.Json.{Fields}
use bazzite_k.Setup.Disk.{Node, file, Tree, Owner, text_of}

-- What the image and the libraries provide: the bundle under /usr/share/moonmachine, SHA-256 in
-- hexadecimal, the names of a folder in order, the text of `json.dump`, and a random UUID.
pub record Host : Type 0 where
  pub loader : List ℕ
  pub version : List ℕ
  pub moondeck : Tree
  pub defaults : Fields
  pub sha256 : List ℕ → List ℕ
  pub rglob : Tree → List (List String)
  pub dump : Fields → List ℕ
  pub uuid : String

pub record Account : Type 0 where
  pub uid : ℕ
  pub gid : ℕ
  pub directory : List String  -- the parts of `pw_dir`
  pub directory_text : List ℕ
  pub shell : String

abbrev pub owner_of : Account → Owner
owner_of a = record { uid = a.uid; gid = a.gid }

abbrev pub has_name : String → List String → Bool
has_name n [] = false
has_name n (x ∷ xs) = text_eq n x || has_name n xs

abbrev last_name : List String → List ℕ
last_name [] = []
last_name (x ∷ []) = bytes x
last_name (x ∷ y ∷ xs) = last_name (y ∷ xs)

abbrev has_suffix : List ℕ → List ℕ → Bool
has_suffix s t = has_prefix (reverse s) (reverse t)

-- `path.suffix == suffix`, for a suffix of four characters: a leading dot begins no suffix.
abbrev suffix_is : String → List String → Bool
suffix_is s p = has_suffix (bytes s) (last_name p) && ltb 4 (length (last_name p))

abbrev is_file : Option Node → Bool
is_file (some (file t)) = true
is_file n = false

-- The files that count: `folder` has the parts of the directory.
abbrev pub counts : List String → Tree → List String → Bool
counts folder t p =
    is_file (t p)
    && not (has_name "__pycache__" (folder ++ p) || suffix_is ".pyc" p || suffix_is ".pyo" p)

abbrev path_text : List String → List ℕ
path_text [] = []
path_text (x ∷ []) = bytes x
path_text (x ∷ y ∷ p) = bytes x ++ (b'/' ∷ path_text (y ∷ p))

-- All that `digest.update` is given.
abbrev pub digested : List String → Tree → List (List String) → List ℕ
digested folder t [] = []
digested folder t (p ∷ ps) =
    if counts folder t p
    then path_text p ++ (0 ∷ (text_of (t p) ++ digested folder t ps))
    else digested folder t ps

unfoldable pub plugin_digest : Host → List String → Tree → List ℕ
plugin_digest h folder t = h.sha256 (digested folder t (h.rglob t))
