-- ===== src/Setup/Disk.antt =====
-- The files that files/usr/libexec/moonmachine-setup reads and writes: a function from a path to what
-- stands there, and its owner. Links are not told from what they lead to. The home of the account and
-- the folder of the service units are two trees that do not meet.
use bazzite_k.Common.{
  ℕ, Bool, true, false, ◌&&◌, not, Option, none, some, List, [], ◌∷◌, ◌++◌, String, if◌then◌else◌,
  text_eq,
}

pub data FilePath : Type 0 where
  home : List String → FilePath
  units : List String → FilePath

pub data Node : Type 0 where
  dir : Node
  file : List ℕ → Node

-- What stands below a folder, itself included.
abbrev pub Tree : Type 0
Tree = List String → Option Node

pub record Owner : Type 0 where
  pub uid : ℕ
  pub gid : ℕ

abbrev pub root : Owner
root = record { uid = 0; gid = 0 }

pub record Disk : Type 0 where
  pub node : FilePath → Option Node
  pub owner : FilePath → Owner

-- The way from the first path down to the second one.
abbrev pub below : List String → List String → Option (List String)
below [] q = some q
below (x ∷ p) [] = none
below (x ∷ p) (y ∷ q) = if text_eq x y then below p q else none

abbrev pub within : FilePath → FilePath → Option (List String)
within (home p) (home q) = below p q
within (units p) (units q) = below p q
within _ _ = none

abbrev pub down : FilePath → List String → FilePath
down (home p) r = home (p ++ r)
down (units p) r = units (p ++ r)

abbrev pub is_some {ℓ} : {A : Type ℓ} → Option A → Bool
is_some none = false
is_some (some a) = true

abbrev pub is_here : Option (List String) → Bool
is_here none = false
is_here (some []) = true
is_here (some (x ∷ r)) = false

abbrev pub same : FilePath → FilePath → Bool
same p q = is_here (within p q)

abbrev pub exists : FilePath → Disk → Bool
exists p d = is_some (d.node p)

-- What stands at a path, and with its owner.
abbrev pub contents : FilePath → Disk → Option Node
contents p d = d.node p

abbrev pub entry : FilePath → Disk → Option Node × Owner
entry p d = (d.node p, d.owner p)

abbrev pub subtree : FilePath → Disk → Tree
subtree p d r = d.node (down p r)

-- `read_text` of what exists.
abbrev pub text_of : Option Node → List ℕ
text_of (some (file t)) = t
text_of _ = []

abbrev or_node : Option Node → Option Node → Option Node
or_node none n = n
or_node (some m) n = some m

-- `mkdir(parents=True, exist_ok=True)`
abbrev pub mkdir : FilePath → Disk → Disk
mkdir p d = record d {
  node = λ q. if is_some (within q p) then or_node (d.node q) (some dir) else d.node q;
  owner = λ q. if is_some (within q p) && not (exists q d) then root else d.owner q;
}

-- A file that is written as a whole, and keeps its owner.
abbrev pub write : FilePath → List ℕ → Disk → Disk
write p t d = record d {
  node = λ q. if same p q then some (file t) else d.node q;
  owner = λ q. if same p q && not (exists p d) then root else d.owner q;
}

-- `touch`
abbrev pub touch : FilePath → Disk → Disk
touch p d = if exists p d then d else write p [] d

-- `shutil.rmtree`
abbrev pub remove_tree : FilePath → Disk → Disk
remove_tree p d = record d { node = λ q. if is_some (within p q) then none else d.node q }

abbrev pub copied : Option (List String) → Tree → Option Node → Option Node
copied none t n = n
copied (some r) t n = t r

-- `shutil.copytree` to where nothing stands.
abbrev pub copy_tree : Tree → FilePath → Disk → Disk
copy_tree t p d = record d {
  node = λ q. copied (within p q) t (d.node q);
  owner = λ q. if is_some (within p q) then root else d.owner q;
}

abbrev pub moved {ℓ} : {A : Type ℓ} → Option (List String) → (List String → A) → A → A
moved none f a = a
moved (some r) f a = f r

-- `rename` of a folder to where nothing stands.
abbrev pub rename : FilePath → FilePath → Disk → Disk
rename p q d = record {
  node = λ s. moved (within q s) (subtree p d) (if is_some (within p s) then none else d.node s);
  owner = λ s. moved (within q s) (λ r. d.owner (down p r)) (d.owner s);
}

-- `os.chown`
abbrev pub chown : Owner → FilePath → Disk → Disk
chown o p d = record d { owner = λ q. if same p q then o else d.owner q }

-- `os.chown` of a folder and of all that stands below it.
abbrev pub chown_tree : Owner → FilePath → Disk → Disk
chown_tree o p d = record d {
  owner = λ q. if is_some (within p q) && exists q d then o else d.owner q;
}
