-- ===== src/SignaturePolicy/Merge.antt =====
-- What the new policy requires, and what it keeps.
use bazzite_k.Common.{
  false, ◌≡◌, refl, inl, inr, String, text_eq, Option, none, some, Result, ok, ap, sym,
  Result-cases, ◌∙◌, err,
}
use bazzite_k.SignaturePolicy.{repository, requirement, or_empty, in_default, assign, configure}
use bazzite_k.Common.Dict.{lookup-set_field, lookup-set_field_other}
use bazzite_k.Common.Json.{Json, Fields, lookup, set_field}

-- `j.get(key)` of a dict; none for anything else.
abbrev pub entry : String → Option Json → Option Json
entry key (some (Json.obj fs)) = lookup key fs
entry key _ = none

entry-or_empty : (key : String) (o : Option Json) → entry key (some (or_empty o)) ≡ entry key o
entry-or_empty key none = refl
entry-or_empty key (some v) = refl

-- The dict that is changed, and what becomes of the value under the key.
abbrev Changed : String → (Json → Result Json) → Json → Json → Type 0
Changed key f j j' =
    (fs : Fields) × (v : Json) × (j ≡ Json.obj fs)
    × (f (or_empty (lookup key fs)) ≡ ok v)
    × (j' ≡ Json.obj (set_field key v fs))

ok_inj : {a b : Json} → ok a ≡ ok b → a ≡ b
ok_inj h = cc

in_default-Changed :
    (key : String) (f : Json → Result Json) (j j' : Json)
    → in_default key f j ≡ ok j'
    → Changed key f j j'
in_default-Changed key f (Json.obj fs) j' h = elim (Result-cases (f (or_empty (lookup key fs)))) [
  | inl (v, e) ↦
      let put : ok (Json.obj (set_field key v fs)) ≡ ok j' = rw e at h in
      (fs, v, refl, e, sym (ok_inj put))
  | inr (x, e) ↦ absurd (let bad : err x ≡ ok j' = rw e at h in cc)
]
in_default-Changed key f Json.null j' h = absurd (cc)
in_default-Changed key f (Json.bool b) j' h = absurd (cc)
in_default-Changed key f (Json.int i) j' h = absurd (cc)
in_default-Changed key f (Json.float i) j' h = absurd (cc)
in_default-Changed key f (Json.str i) j' h = absurd (cc)
in_default-Changed key f (Json.arr i) j' h = absurd (cc)

assign-dict :
    (j j' : Json)
    → assign j ≡ ok j'
    → (fs : Fields) × (j ≡ Json.obj fs) × (j' ≡ Json.obj (set_field repository requirement fs))
assign-dict (Json.obj fs) j' h = (fs, refl, sym (ok_inj h))
assign-dict Json.null j' h = absurd (cc)
assign-dict (Json.bool b) j' h = absurd (cc)
assign-dict (Json.int i) j' h = absurd (cc)
assign-dict (Json.float i) j' h = absurd (cc)
assign-dict (Json.str i) j' h = absurd (cc)
assign-dict (Json.arr i) j' h = absurd (cc)

-- The registries of docker in a policy.
abbrev pub docker_of : Json → Option Json
docker_of d = entry "docker" (entry "transports" (some d))

-- If the policy is written, it requires the key for this repository, and all else is what it was: the
-- other entries of the policy, the other transports, and the other registries of docker.
pub configure-entry :
    (d d' : Json) (top transport registry : String)
    → text_eq "transports" top ≡ false
    → text_eq "docker" transport ≡ false
    → text_eq repository registry ≡ false
    → configure d ≡ ok d'
    → (entry repository (docker_of d') ≡ some requirement)
      × (entry top (some d') ≡ entry top (some d))
      × (entry transport (entry "transports" (some d'))
          ≡ entry transport (entry "transports" (some d)))
      × (entry registry (docker_of d') ≡ entry registry (docker_of d))
unfolding configure
configure-entry d d' top transport registry nt nk nr h =
    let (fs, v, is_d, inner, is_d') =
      in_default-Changed "transports" (in_default "docker" assign) d d' h in
    let (ts, w, is_t, leaf, is_v) =
      in_default-Changed "docker" assign (or_empty (lookup "transports" fs)) v inner in
    let (ds, is_k, is_w) = assign-dict (or_empty (lookup "docker" ts)) w leaf in
    let new_transports : entry "transports" (some d') ≡ some v =
      rw is_d' (lookup-set_field "transports" v fs) in
    let new_docker : docker_of d' ≡ some w =
      rw (new_transports, is_v) (lookup-set_field "docker" w ts) in
    let old_transport : (k : String)
        → entry k (some (Json.obj ts)) ≡ entry k (entry "transports" (some d)) =
      λ k.
        ap (λ j. entry k (some j)) (sym is_t)
        ∙ entry-or_empty k (lookup "transports" fs)
        ∙ ap (λ j. entry k (entry "transports" (some j))) (sym is_d) in
    let old_registry : entry registry (some (Json.obj ds)) ≡ entry registry (docker_of d) =
      ap (λ j. entry registry (some j)) (sym is_k)
      ∙ entry-or_empty registry (lookup "docker" ts)
      ∙ ap (entry registry) (old_transport "docker") in
    (
      rw (new_docker, is_w) (lookup-set_field repository requirement ds),
      rw (is_d', is_d) (lookup-set_field_other "transports" top v fs nt),
      rw (new_transports, is_v) (lookup-set_field_other "docker" transport w ts nk)
          ∙ old_transport transport,
      rw (new_docker, is_w) (lookup-set_field_other repository registry requirement ds nr)
          ∙ old_registry,
    )
