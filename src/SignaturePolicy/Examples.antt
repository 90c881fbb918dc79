-- ===== src/SignaturePolicy/Examples.antt =====
-- A policy with entries of its own.
use bazzite_k.Common.{◌≡◌, refl, ok, some, err}
use bazzite_k.Common.Json.{Json, Items, Fields, set_field}
use bazzite_k.SignaturePolicy.{repository, requirement, configure}
use bazzite_k.SignaturePolicy.Merge.{entry, docker_of, configure-entry}

abbrev reject : Json
reject =
    Json.arr (Items.cons (Json.obj (Fields.field "type" (Json.str "reject") Fields.end)) Items.nil)

abbrev registries : Fields
registries = Fields.field "ghcr.io/ublue-os" reject Fields.end

abbrev policy_of : Fields → Json
policy_of docker = Json.obj (
    Fields.field "default" reject (
      Fields.field "transports" (Json.obj (Fields.field "docker" (Json.obj docker) Fields.end))
        Fields.end))

abbrev policy : Json
policy = policy_of registries

abbrev written : Json
written = policy_of (set_field repository requirement registries)

policy-configure : configure policy ≡ ok written
unfolding configure
policy-configure = refl

-- A policy that is no dict is left.
list-configure : configure reject ≡ err "'list' object has no attribute 'setdefault'"
unfolding configure
list-configure = refl

configure-entry_example :
    (entry repository (docker_of written) ≡ some requirement)
    × (entry "default" (some written) ≡ entry "default" (some policy))
    × (entry "docker-daemon" (entry "transports" (some written))
        ≡ entry "docker-daemon" (entry "transports" (some policy)))
    × (entry "ghcr.io/ublue-os" (docker_of written) ≡ entry "ghcr.io/ublue-os" (docker_of policy))
configure-entry_example =
    configure-entry policy written "default" "docker-daemon" "ghcr.io/ublue-os" refl refl refl
      policy-configure
