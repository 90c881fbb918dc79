-- ===== src/PerformanceDefault.antt =====
-- files/usr/libexec/moonmachine-performance-default: which tuned profile is selected, once. Files are
-- a function from a path to their text, as character codes; a directory is not told from a missing
-- path. `read_text` of a missing path raises FileNotFoundError.
pub mod Once
pub mod Selection
mod Examples
use bazzite_k.Common.{
  ℕ, Bool, true, false, ◌||◌, not, Option, none, some, List, [], text_eq, ◌∷◌, ◌++◌, String,
  if◌then◌else◌, codes_eq, text_append,
}
use bazzite_k.Common.Bytes.{bytes}
use bazzite_k.Common.Int.{ℤ, int_ltb}
use bazzite_k.Common.Parse.{strip, is_blank, parse_int}

abbrev pub Files : Type 0
Files = String → Option (List ℕ)

-- The exceptions, by their class.
pub data Error : Type 0 where
  file_not_found runtime_error value_error called_process_error : Error

pub data Outcome (A : Type 0) : Type 0 where
  ok : A → Outcome A
  raised : Error → Outcome A

infixl 5 ◌>>=◌
abbrev pub ◌>>=◌ : {A B : Type 0} → Outcome A → (A → Outcome B) → Outcome B
ok a >>= f = f a
raised e >>= f = raised e

abbrev pub read_text : Files → String → Outcome (List ℕ)
read_text files path = elim (files path) [ none ↦ raised file_not_found | some text ↦ ok text ]

abbrev pub exists : Files → String → Bool
exists files path = elim (files path) [ none ↦ false | some text ↦ true ]

-- `text.strip() == name`
abbrev pub reads : List ℕ → String → Bool
reads text name = codes_eq (strip is_blank text) (bytes name)

abbrev pub in_sysfs : String → String → String
in_sysfs sysfs path = text_append sysfs (text_append "/" path)

-- The expression in the `try`: the second file is read only if the first one fits.
unfoldable pub dmi_matches : Files → String → Outcome Bool
dmi_matches files sysfs = read_text files (in_sysfs sysfs "class/dmi/id/sys_vendor") >>= λ vendor.
    if reads vendor "GMKtec"
    then (read_text files (in_sysfs sysfs "class/dmi/id/product_name") >>= λ product.
        ok (reads product "NucBox K17"))
    else ok false

-- `except FileNotFoundError`
abbrev pub or_false : Outcome Bool → Outcome Bool
or_false (raised file_not_found) = ok false
or_false (raised e) = raised e
or_false (ok b) = ok b

abbrev pub gpu : String → String → String
gpu sysfs path = in_sysfs sysfs (text_append "bus/pci/devices/0000:00:02.0/" path)

abbrev or_value_error : Option ℤ → Outcome ℤ
or_value_error none = raised value_error
or_value_error (some n) = ok n

-- One turn of the loop over the two GTs.
unfoldable pub check_gt : Files → String → String → ℕ → Outcome (Unit {0})
check_gt files sysfs gt minimum =
    let freq = text_append (text_append "tile0/gt" gt) "/freq0/" in
    if not (exists files (gpu sysfs (text_append freq "min_freq")))
    then raised runtime_error
    else (read_text files (gpu sysfs (text_append freq "rp0_freq")) >>= λ text.
        or_value_error (parse_int text) >>= λ maximum.
        if int_ltb maximum minimum then raised runtime_error else ok tt)

unfoldable pub check_gpu : Files → String → Outcome String
check_gpu files sysfs = read_text files (gpu sysfs "vendor") >>= λ vendor.
    if not (reads vendor "0x8086")
    then raised runtime_error
    else (check_gt files sysfs "0" 1850 >>= λ _.
        check_gt files sysfs "1" 1200 >>= λ _. ok "moonmachine-k17-streaming")

unfoldable pub select_profile : Files → String → Outcome String
select_profile files sysfs = or_false (dmi_matches files sysfs) >>= λ is_k17.
    if is_k17 then check_gpu files sysfs else ok "moonmachine-streaming"

-- A call of `tuned-adm profile` with this profile.
pub data Action : Type 0 where
  tuned_adm : String → Action

-- `stamp.write_text(profile + '\n')`; its folder is made first.
abbrev pub stamped : String → String → Files → Files
stamped stamp profile files path =
    if text_eq path stamp then some (bytes profile ++ (10 ∷ [])) else files path

-- What a call returns or raises, the files after it, and the commands that it ran.
pub record Applied : Type 0 where
  pub result : Outcome (Unit {0})
  pub files : Files
  pub actions : List Action

-- `run` tells whether tuned-adm succeeds; with check=True a failure raises.
unfoldable pub set_profile : Files → String → (String → Bool) → Outcome String → Applied
set_profile files stamp run (raised e) = record { result = raised e; files = files; actions = [] }
set_profile files stamp run (ok profile) =
    if run profile
    then record {
      result = ok tt;
      files = stamped stamp profile files;
      actions = tuned_adm profile ∷ [];
    }
    else record {
      result = raised called_process_error;
      files = files;
      actions = tuned_adm profile ∷ [];
    }

unfoldable pub apply_default : Files → String → String → String → (String → Bool) → Applied
unfolding set_profile
apply_default files stamp opt_out sysfs run =
    if exists files stamp || exists files opt_out
    then record { result = ok tt; files = files; actions = [] }
    else set_profile files stamp run (select_profile files sysfs)
