-- ===== src/Setup/Main.antt =====
-- `main` of files/usr/libexec/moonmachine-setup: the account that is set up, and the commands after it.
use bazzite_k.Common.{
  ℕ, Bool, false, ◌&&◌, ◌||◌, not, leb, ltb, Option, some, none, List, [], ◌∷◌, ◌++◌, if◌then◌else◌,
  text_eq, contains,
}
use bazzite_k.Common.Bytes.{bytes}
use bazzite_k.Setup.Disk.{Disk}
use bazzite_k.Setup.Seed.{Host, Account, perform, seed}

-- `is_dir` is the test of a home, by its text.
unfoldable pub eligible : (List ℕ → Bool) → Account → Bool
eligible is_dir p =
    (leb 1000 p.uid && ltb p.uid 60000)
    && (not (
          text_eq p.shell "/usr/sbin/nologin"
          || text_eq p.shell "/sbin/nologin"
          || text_eq p.shell "/bin/false")
        && is_dir p.directory_text)

unfoldable pub kept : (List ℕ → Bool) → List Account → List Account
kept is_dir [] = []
kept is_dir (p ∷ ps) = let rest = kept is_dir ps in if eligible is_dir p then p ∷ rest else rest

-- `sorted` is stable: an account goes before those of the same number that came after it.
unfoldable pub insert : Account → List Account → List Account
insert p [] = p ∷ []
insert p (q ∷ qs) = let rest = insert p qs in if leb p.uid q.uid then p ∷ (q ∷ qs) else q ∷ rest

unfoldable pub sorted : List Account → List Account
sorted [] = []
sorted (p ∷ ps) = insert p (sorted ps)

unfoldable pub first : List Account → Option Account
first [] = none
first (p ∷ ps) = some p

unfoldable pub chosen : (List ℕ → Bool) → List Account → Option Account
chosen is_dir ps = first (sorted (kept is_dir ps))

abbrev pub refused_chars : List ℕ
refused_chars = bytes "\n\r%\"\\ "

unfoldable pub unsupported : List ℕ → Bool
unsupported [] = false
unsupported (c ∷ cs) = contains refused_chars c || unsupported cs

pub data Command : Type 0 where
  restorecon : List ℕ → Command
  chcon : List ℕ → Command
  daemon_reload : Command
  enable : Command

pub data Result : Type 0 where
  returned : Result
  value_error : Result  -- the home is not supported
  failed : Result  -- CalledProcessError

-- What `main` leaves behind, and the commands that it has started.
pub record Outcome : Type 0 where
  pub result : Result
  pub disk : Disk
  pub commands : List Command

-- `subprocess.run(…, check=True)` in turn; `runs` tells which commands succeed.
unfoldable pub run_all : (Command → Bool) → List Command → Disk → Outcome
run_all runs [] d = record { result = Result.returned; disk = d; commands = [] }
run_all runs (c ∷ cs) d =
    let rest = run_all runs cs d in
    if runs c
    then record rest { commands = c ∷ rest.commands }
    else record { result = Result.failed; disk = d; commands = c ∷ [] }

abbrev pub commands_for : Account → List Command
commands_for a =
    Command.restorecon (a.directory_text ++ bytes "/homebrew")
    ∷ Command.chcon (a.directory_text ++ bytes "/homebrew/services/PluginLoader")
    ∷ Command.daemon_reload
    ∷ Command.enable
    ∷ []

unfoldable pub set_up : Host → (Command → Bool) → Account → Disk → Outcome
set_up h runs a d =
    let steps = seed h a d in
    let after = perform steps.1 d in
    if unsupported a.directory_text
    then record { result = Result.value_error; disk = d; commands = [] }
    else run_all runs (if steps.0 then commands_for a else []) after

abbrev pub set_up_first : Host → (Command → Bool) → Option Account → Disk → Outcome
set_up_first h runs none d = record { result = Result.returned; disk = d; commands = [] }
set_up_first h runs (some a) d = set_up h runs a d

unfoldable pub main : Host → (List ℕ → Bool) → (Command → Bool) → List Account → Disk → Outcome
main h is_dir runs ps d = set_up_first h runs (chosen is_dir ps) d
