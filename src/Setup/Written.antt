-- ===== src/Setup/Written.antt =====
-- What the parts of `seed` leave for a second run to find.
use bazzite_k.Common.{true, ◌≡◌, refl, ap, sym, ◌∙◌, inl, inr, List, [], Bool-cases, String}
use bazzite_k.Setup.Disk.{entry, units, Disk, exists, is_some}
use bazzite_k.Setup.Seed.{
  Host, Account, perform, config, settings, seed_streaming, seed_plugin, seed_settings,
  rest_of_seed, seed_loader, seed, seeded,
}
use bazzite_k.Setup.Steps.{Leaves, Keeps, All-Keeps, perform-Cut, perform-append, append-Keeps}
use bazzite_k.Setup.Reach.{seed_plugin-All}
use bazzite_k.Setup.Safety.{seed-config}
use bazzite_k.Setup.Kept

pub streamed : (a : Account) (d : Disk) → exists config (perform (seed_streaming a d) d) ≡ true
unfolding seed_streaming
streamed a d = elim (Bool-cases (exists config d)) [ inl t ↦ rw t t | inr f ↦ rw f refl ]

pub streaming-none : (a : Account) (d : Disk) → exists config d ≡ true → seed_streaming a d ≡ []
unfolding seed_streaming
streaming-none a d t = rw t refl

-- After its first part, `seed` goes on as if it began there.
pub seed-streamed :
    (h : Host) (a : Account) (d : Disk) → exists config d ≡ true → seed h a d ≡ seed_loader h a d
unfolding seed
seed-streamed h a d t = rw (streaming-none a d t) refl

pub seeded-streamed :
    (h : Host) (a : Account) (d : Disk)
    → let d1 = perform (seed_streaming a d) d in seeded h a d ≡ perform (seed_loader h a d1).1 d1
unfolding seed
seeded-streamed h a d =
    let d1 = perform (seed_streaming a d) d in
    perform-append (seed_streaming a d) (seed_loader h a d1).1 d

pub seeded-config : (h : Host) (a : Account) (d : Disk) → exists config (seeded h a d) ≡ true
seeded-config h a d =
    let d1 = perform (seed_streaming a d) d in
    let t = streamed a d in
    let same : seeded h a d ≡ seeded h a d1 =
      seeded-streamed h a d ∙ ap (λ s. perform s.1 d1) (sym (seed-streamed h a d1 t)) in
    rw same (
      ap (λ p. is_some p.0) (seed-config h a d1 t (seeded h a d1) (perform-Cut (seed h a d1).1 d1))
      ∙ t)

pub settled_settings :
    (h : Host) (a : Account) (d : Disk) → exists settings (perform (seed_settings h a d) d) ≡ true
unfolding seed_settings
settled_settings h a d = elim (Bool-cases (exists settings d)) [
  | inl t ↦ rw t t
  | inr f ↦ rw f refl
]

pub rest-settings :
    (h : Host) (a : Account) (d : Disk) → exists settings (perform (rest_of_seed h a d) d) ≡ true
rest-settings h a d =
    let d1 = perform (seed_plugin h a d) d in
    ap (exists settings) (perform-append (seed_plugin h a d) (seed_settings h a d1) d)
    ∙ settled_settings h a d1

pub rest-units :
    (h : Host) (a : Account) (d : Disk) (r : List String)
    → Keeps (entry (units r)) (rest_of_seed h a d) d
rest-units h a d r =
    append-Keeps (entry (units r)) (seed_plugin h a d) (seed_settings h a _) d
      (All-Keeps (entry (units r)) (seed_plugin h a d) d
        (seed_plugin-All (Leaves (entry (units r))) h a d (Kept.update-units h a r)))
      (Kept.settings-units h a _ r)
