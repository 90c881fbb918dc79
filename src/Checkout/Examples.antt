-- ===== src/Checkout/Examples.antt =====
-- apps/checkout.py: archives, and the theorems at them.
use bazzite_k.Common.{
  drop, has_prefix, ap, arith, String, Option, some, none, List, ℕ, ◌⊎◌, ◌≡◌, refl, true, false, [],
  ◌∷◌, All, split,
}
use bazzite_k.Common.Bytes.{bytes}
use bazzite_k.Common.Parse.{strip}
use bazzite_k.Checkout.Fetch
use bazzite_k.Checkout.Fetch.{Source, Tools, forks, fetch_fork, dependencies}
use bazzite_k.Checkout.Verified.{IsPinned, IsIntact, IsStopped, main-IsPinned}
use bazzite_k.Checkout.{
  prefix, PosixPath, Item, path, join, externals, is_unsafe, is_wanted, unpack,
}
use bazzite_k.Checkout.Inside.{IsInside, unpack-IsInside, IsRelative}

abbrev root : PosixPath
root = record { is_absolute = true; parts = bytes "src" ∷ [] }

abbrev module_file : Item
module_file = record { filename = bytes "moondeck/python/externals/a/b.py"; content = bytes "x" }

abbrev other_file : Item
other_file = record { filename = bytes "moondeck/main.py"; content = [] }

abbrev upward : Item
upward = record { filename = bytes "moondeck/python/externals/../b.py"; content = [] }

-- The first file is written, and the third one ends the loop.
an_archive : unpack root (module_file ∷ other_file ∷ upward ∷ module_file ∷ []) ≡ (
  false,
  record {
    target = record {
      is_absolute = true;
      parts =
          bytes "src"
          ∷ bytes "moondeck"
          ∷ bytes "defaults"
          ∷ bytes "python"
          ∷ bytes "externals"
          ∷ bytes "a"
          ∷ bytes "b.py"
          ∷ [];
    };
    written = bytes "x";
  }
      ∷ [],
)
unfolding unpack join path split externals is_unsafe is_wanted
an_archive = refl

-- Its eleven characters after the folder of the prefix begin with a slash, which does not matter.
abbrev unwanted : Item
unwanted = record { filename = bytes "moondeck/python/aaaaaaaaaa/x.py"; content = [] }

module_file-IsRelative : IsRelative module_file
module_file-IsRelative rest h =
    let bad : b'a' ≡ b'/' = ap (λ s. first (drop 26 s)) h in absurd (omega (arith, bad))
  where
    first : List ℕ → ℕ
    first [] = 0
    first (c ∷ cs) = c

unwanted-IsRelative : IsRelative unwanted
unwanted-IsRelative rest h = let bad : false ≡ true = ap (λ s. has_prefix prefix s) h in cc

unpack-IsInside_example : All (IsInside root) (unpack root (module_file ∷ unwanted ∷ [])).1
unpack-IsInside_example =
    unpack-IsInside root (module_file ∷ unwanted ∷ [])
      (module_file-IsRelative, (unwanted-IsRelative, tt))

-- It passes the test, and is written outside of the folder.
abbrev escaping : Item
escaping = record { filename = bytes "moondeck/python/externals//etc/passwd"; content = bytes "x" }

escaped : unpack root (escaping ∷ []) ≡ (
  true,
  record {
    target = record { is_absolute = true; parts = bytes "etc" ∷ bytes "passwd" ∷ [] };
    written = bytes "x";
  }
      ∷ [],
)
unfolding unpack join path split externals is_unsafe is_wanted
escaped = refl

abbrev pinned : String → Option Source
pinned name = some (record {
  repository = bytes "https://example.org/fork.git";
  commit = bytes "7808a1";
  url = bytes "https://example.org/moondeck.zip";
  sha256 = bytes "73f3";
})

-- All is as pinned, but for the archive.
abbrev tools : List ℕ → Tools
tools digest = record {
  succeeds = λ c. true;
  head = λ name. bytes "7808a1\n";
  archive = bytes "PK";
  infolist = some (module_file ∷ []);
  sha256 = λ t. digest;
}

intact-main : (Fetch.main (tools (bytes "73f3")) pinned root).error ≡ none
unfolding Fetch.main fetch_fork dependencies strip unpack path split is_unsafe is_wanted
intact-main = refl

changed-main : (Fetch.main (tools (bytes "0000")) pinned root).files ≡ []
unfolding Fetch.main fetch_fork dependencies strip
changed-main = refl

main-IsPinned_example :
    All (IsPinned (tools (bytes "0000")) pinned) forks × IsIntact (tools (bytes "0000")) pinned
    ⊎ IsStopped (Fetch.main (tools (bytes "0000")) pinned root)
main-IsPinned_example = main-IsPinned (tools (bytes "0000")) pinned root
