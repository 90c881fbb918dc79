-- ===== src/Common/Json.antt =====
-- The values that `json.loads` returns, with the Python operations that the programs use on them
-- and the texts of the exceptions that these raise, as CPython words them.
use Prim.Native.Nat.{ℕ, ◌^◌}
use Prim.Native.String.{String}
use mathlib.Core.Bool.{Bool, true, false, ◌||◌, not}
use mathlib.Core.Option.{Option, none, some}
use text.Mathlib.Text.{find?}
use bazzite_k.Common.Int.{ℤ, int_eq}
use bazzite_k.Common.Results.{Result, ok, err}
use bazzite_k.Common.Tests.{◌==◌, if◌then◌else◌}
use bazzite_k.Common.Text.{text_eq, text_append}

-- A float is known by its 64 bits. The keys of a dict are distinct, and the first entry is found.
mutual
  pub data Json : Type 0 where
    null : Json
    bool : Bool → Json
    int : ℤ → Json
    float : ℕ → Json
    str : String → Json
    arr : Items → Json
    obj : Fields → Json

  pub data Items : Type 0 where
    nil : Items
    cons : Json → Items → Items

  pub data Fields : Type 0 where
    end : Fields
    field : String → Json → Fields → Fields

abbrev pub type_name : Json → String
type_name null = "NoneType"
type_name (bool b) = "bool"
type_name (int i) = "int"
type_name (float bits) = "float"
type_name (str s) = "str"
type_name (arr xs) = "list"
type_name (obj fs) = "dict"

abbrev pub quoted : String → String
quoted s = text_append "'" (text_append s "'")

abbrev pub lookup : String → Fields → Option Json
lookup key end = none
lookup key (field k v fs) = if text_eq k key then some v else lookup key fs

-- `j == "…"`
abbrev pub is_text : String → Json → Bool
is_text s (str t) = text_eq t s
is_text s _ = false

-- `j == 1`: the integer, the float and True
abbrev pub is_one : Json → Bool
is_one (int i) = int_eq i 1
is_one (float bits) = bits == 0x3ff0_0000_0000_0000
is_one (bool b) = b
is_one _ = false

-- `bool(j)`
abbrev pub truthy : Json → Bool
truthy null = false
truthy (bool b) = b
truthy (int i) = not (int_eq i 0)
truthy (float bits) = not (bits == 0 || bits == 2 ^ 63)
truthy (str s) = not (text_eq s "")
truthy (arr nil) = false
truthy (arr (cons x xs)) = true
truthy (obj end) = false
truthy (obj (field k v fs)) = true

-- `j.get(key)`: none stands for the default
abbrev pub get : String → Json → Result (Option Json)
get key (obj fs) = ok (lookup key fs)
get key j = err (text_append (quoted (type_name j)) " object has no attribute 'get'")

abbrev or_key_error : String → Option Json → Result Json
or_key_error key none = err (quoted key)
or_key_error key (some v) = ok v

-- `j[key]`
abbrev pub index : String → Json → Result Json
index key (obj fs) = or_key_error key (lookup key fs)
index key (arr xs) = err "list indices must be integers or slices, not str"
index key (str s) = err "string indices must be integers, not 'str'"
index key j = err (text_append (quoted (type_name j)) " object is not subscriptable")

abbrev is_some : Option Json → Bool
is_some none = false
is_some (some v) = true

abbrev any_text : String → Items → Bool
any_text key nil = false
any_text key (cons x xs) = is_text key x || any_text key xs

-- `key in j`
abbrev pub contains_key : String → Json → Result Bool
contains_key key (obj fs) = ok (is_some (lookup key fs))
contains_key key (arr xs) = ok (any_text key xs)
contains_key key (str s) = ok (elim (find? s key) [ none ↦ false | some n ↦ true ])
contains_key key j =
    err (text_append (text_append "argument of type " (quoted (type_name j))) " is not iterable")

-- `j[key] = v` on the entries of a dict
abbrev pub set_field : String → Json → Fields → Fields
set_field key v end = field key v end
set_field key v (field k w fs) =
    if text_eq k key then field k v fs else field k w (set_field key v fs)
