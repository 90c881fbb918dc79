-- ===== src/SignaturePolicy.antt =====
-- scripts/configure-signature-policy.py: the entry of this image in the policy of the container tools.
pub mod Merge
pub mod Examples
use bazzite_k.Common.{ok, err, Result, String, text_append, Option, none, some}
use bazzite_k.Common.Json.{Json, Items, Fields, lookup, set_field, type_name, quoted}

abbrev pub repository : String
repository = "ghcr.io/cynary/bazzite-k17"

abbrev pub requirement : Json
requirement = Json.arr (
    Items.cons
      (Json.obj (
        Fields.field "type" (Json.str "sigstoreSigned") (
          Fields.field "keyPath" (Json.str "/etc/pki/containers/cynary-k17.pub") (
            Fields.field "signedIdentity"
              (Json.obj (Fields.field "type" (Json.str "matchRepository") Fields.end))
              Fields.end))))
      Items.nil)

abbrev pub or_empty : Option Json → Json
or_empty none = Json.obj Fields.end
or_empty (some v) = v

abbrev put_back : String → Fields → Result Json → Result Json
put_back key fs (err e) = err e
put_back key fs (ok v) = ok (Json.obj (set_field key v fs))

-- `j.setdefault(key, {})`, and what `f` makes of the value, which stays in its place.
abbrev pub in_default : String → (Json → Result Json) → Json → Result Json
in_default key f (Json.obj fs) = put_back key fs (f (or_empty (lookup key fs)))
in_default key f j =
    err (text_append (quoted (type_name j)) " object has no attribute 'setdefault'")

-- `j[repository] = …`
abbrev pub assign : Json → Result Json
assign (Json.obj fs) = ok (Json.obj (set_field repository requirement fs))
assign (Json.arr xs) = err "list indices must be integers or slices, not str"
assign j = err (text_append (quoted (type_name j)) " object does not support item assignment")

-- The new policy, or the exception with which the old one stays.
unfoldable pub configure : Json → Result Json
configure data_read = in_default "transports" (in_default "docker" assign) data_read
