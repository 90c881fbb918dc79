-- ===== src/Checkout.antt =====
-- apps/checkout.py: the files taken from the archive with the Python dependencies.
pub mod Inside
pub mod Fetch
pub mod Verified
mod Examples
use bazzite_k.Common.{
  ℕ, Bool, true, false, ◌&&◌, ◌||◌, not, List, [], ◌∷◌, ◌++◌, if◌then◌else◌, codes_eq, split,
  has_part, has_prefix, drop, length,
}
use bazzite_k.Common.Bytes.{bytes}

-- pathlib's Path: the parts between slashes, without those that are empty or a dot.
pub record PosixPath : Type 0 where
  pub is_absolute : Bool
  pub parts : List (List ℕ)

abbrev pub is_named : List ℕ → Bool
is_named [] = false
is_named (c ∷ cs) = not (codes_eq (c ∷ cs) (bytes "."))

abbrev pub named : List (List ℕ) → List (List ℕ)
named [] = []
named (p ∷ ps) = if is_named p then p ∷ named ps else named ps

abbrev pub starts_absolute : List ℕ → Bool
starts_absolute = has_prefix (bytes "/")

unfoldable pub path : List ℕ → PosixPath
path name = record { is_absolute = starts_absolute name; parts = named (split b'/' name) }

-- `p / q`
unfoldable pub join : PosixPath → PosixPath → PosixPath
join p q = if q.is_absolute then q else record p { parts = p.parts ++ q.parts }

-- An entry of the archive.
pub record Item : Type 0 where
  pub filename : List ℕ
  pub content : List ℕ

-- The last character is a slash.
abbrev pub is_dir : Item → Bool
is_dir item = ends item.filename
  where
    ends : List ℕ → Bool
    ends [] = false
    ends (c ∷ []) = codes_eq (c ∷ []) (bytes "/")
    ends (c ∷ d ∷ cs) = ends (d ∷ cs)

pub record File : Type 0 where
  pub target : PosixPath
  pub written : List ℕ

unfoldable pub is_unsafe : Item → Bool
is_unsafe item =
    (path item.filename).is_absolute || has_part (bytes "..") (path item.filename).parts

abbrev pub prefix : List ℕ
prefix = bytes "moondeck/python/externals/"

abbrev pub suffix : Item → List ℕ
suffix item = drop (length prefix) item.filename

unfoldable pub externals : PosixPath → PosixPath
externals root = join root (path (bytes "moondeck/defaults/python/externals"))

unfoldable pub is_wanted : Item → Bool
is_wanted item = has_prefix prefix item.filename && not (is_dir item)

abbrev pub file : PosixPath → Item → File
file root item = record {
  target = join (externals root) (path (suffix item));
  written = item.content;
}

-- The loop over the archive: whether it ends without ValueError, and the files written until then.
unfoldable pub unpack : PosixPath → List Item → Bool × List File
unpack root [] = (true, [])
unpack root (item ∷ items) =
    let others = unpack root items in
    if is_unsafe item
    then (false, [])
    else if is_wanted item
    then (others.0, file root item ∷ others.1)
    else others
