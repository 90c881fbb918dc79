-- ===== src/Checkout/Fetch.antt =====
-- apps/checkout.py: the forks at their revisions, and the archive with its checksum.
use bazzite_k.Common.{ℕ, Bool, Option, none, some, List, [], ◌∷◌, String, if◌then◌else◌, codes_eq}
use bazzite_k.Common.Parse.{strip, is_blank}
use bazzite_k.Checkout.{PosixPath, Item, File, unpack}

-- An entry of sources.json with the keys that are used.
pub record Source : Type 0 where
  pub repository : List ℕ
  pub commit : List ℕ
  pub url : List ℕ
  pub sha256 : List ℕ

pub data Command : Type 0 where
  init : String → Command
  fetch : String → List ℕ → List ℕ → Command
  checkout : String → Command
  rev_parse : String → Command
  submodules : String → Command
  curl : List ℕ → Command

-- What the tools and the network answer: the commands that succeed, the output of `rev-parse HEAD` for
-- each fork, the archive that curl has stored, and what it holds if it is a zip file.
pub record Tools : Type 0 where
  pub succeeds : Command → Bool
  pub head : String → List ℕ
  pub archive : List ℕ
  pub infolist : Option (List Item)
  pub sha256 : List ℕ → List ℕ

abbrev pub forks : List String
forks = "moonlight" ∷ "moondeck" ∷ "gamescope" ∷ "libplacebo" ∷ []

-- `subprocess.run(…, check=True)` in turn: none, or the exception.
abbrev pub run_all : Tools → List Command → Option String
run_all t [] = none
run_all t (c ∷ cs) =
    let rest = run_all t cs in if t.succeeds c then rest else some "CalledProcessError"

abbrev pub and_then : Option String → Option String → Option String
and_then none next = next
and_then (some e) next = some e

abbrev pub is_pinned : Tools → String → Source → Bool
is_pinned t name s = codes_eq (strip is_blank (t.head name)) s.commit

abbrev pub run_pinned : Tools → String → Source → Option String
run_pinned t name s =
    let rest = run_all t (Command.submodules name ∷ []) in
    if is_pinned t name s then rest else some "wrong source revision"

abbrev pub fork_commands : String → Source → List Command
fork_commands name s =
    Command.init name
    ∷ Command.fetch name s.repository s.commit
    ∷ Command.checkout name
    ∷ Command.rev_parse name
    ∷ []

-- One turn of the loop over the forks.
unfoldable pub fetch_fork : Tools → String → Source → Option String
fetch_fork t name s = and_then (run_all t (fork_commands name s)) (run_pinned t name s)

abbrev pub found_fork : Tools → String → Option Source → Option String
found_fork t name none = some "KeyError"
found_fork t name (some s) = fetch_fork t name s

abbrev pub fetch_forks : Tools → (String → Option Source) → List String → Option String
fetch_forks t sources [] = none
fetch_forks t sources (name ∷ names) =
    and_then (found_fork t name (sources name)) (fetch_forks t sources names)

-- The exception that ends the program, if there is one, and the files taken from the archive.
pub record Outcome : Type 0 where
  pub error : Option String
  pub files : List File

abbrev pub unpacked : PosixPath → Option (List Item) → Outcome
unpacked root none = record { error = some "BadZipFile"; files = [] }
unpacked root (some items) =
    let r = unpack root items in
    record { error = if r.0 then none else some "Unsafe archive path"; files = r.1 }

abbrev pub is_intact : Tools → Source → Bool
is_intact t s = codes_eq (t.sha256 t.archive) s.sha256

unfoldable pub dependencies : Tools → Source → PosixPath → Outcome
dependencies t s root =
    if t.succeeds (Command.curl s.url)
    then (if is_intact t s
        then unpacked root t.infolist
        else record { error = some "MoonDeck dependency bundle checksum mismatch"; files = [] })
    else record { error = some "CalledProcessError"; files = [] }

abbrev pub found_dependencies : Tools → PosixPath → Option Source → Outcome
found_dependencies t root none = record { error = some "KeyError"; files = [] }
found_dependencies t root (some s) = dependencies t s root

abbrev pub after_forks : Tools → (String → Option Source) → PosixPath → Option String → Outcome
after_forks t sources root (some e) = record { error = some e; files = [] }
after_forks t sources root none = found_dependencies t root (sources "moondeck")

unfoldable pub main : Tools → (String → Option Source) → PosixPath → Outcome
main t sources root = after_forks t sources root (fetch_forks t sources forks)
