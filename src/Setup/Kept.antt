-- ===== src/Setup/Kept.antt =====
-- Which paths the parts of `seed` leave alone.
use bazzite_k.Common.{true, ◌≡◌, refl, inl, inr, List, [], ◌∷◌, All, Bool-cases, String}
use bazzite_k.Setup.Disk.{entry, contents, home, units, Disk, exists, down, rename, remove_tree}
use bazzite_k.Setup.Seed.{
  Host, Account, config, plugin, marker, staging, backup, settings, debugging, seed_streaming,
  install_loader, update_plugin, seed_settings, own_services,
}
use bazzite_k.Setup.Steps.{Leaves, if_exists-Leaves, touch-Leaves, Keeps, All-Keeps}

pub streaming-brew :
    (a : Account) (d : Disk) (r : List String)
    → Keeps (entry (home ("homebrew" ∷ r))) (seed_streaming a d) d
unfolding seed_streaming
streaming-brew a d r = elim (Bool-cases (exists config d)) [
  | inl t ↦ rw t (All-Keeps (entry (home ("homebrew" ∷ r))) [] d tt)
  | inr f ↦ rw f (
      All-Keeps (entry (home ("homebrew" ∷ r))) _ d
        ((λ e. refl), ((λ e. refl), ((λ e. refl), ((λ e. refl), ((λ e. refl), tt))))))
]

pub streaming-units :
    (a : Account) (d : Disk) (r : List String) → Keeps (entry (units r)) (seed_streaming a d) d
unfolding seed_streaming
streaming-units a d r = elim (Bool-cases (exists config d)) [
  | inl t ↦ rw t (All-Keeps (entry (units r)) [] d tt)
  | inr f ↦ rw f (
      All-Keeps (entry (units r)) _ d
        ((λ e. refl), ((λ e. refl), ((λ e. refl), ((λ e. refl), ((λ e. refl), tt))))))
]

pub streaming-settings : (a : Account) (d : Disk) → Keeps (entry settings) (seed_streaming a d) d
unfolding seed_streaming
streaming-settings a d = elim (Bool-cases (exists config d)) [
  | inl t ↦ rw t (All-Keeps (entry settings) [] d tt)
  | inr f ↦ rw f (
      All-Keeps (entry settings) _ d
        ((λ e. refl), ((λ e. refl), ((λ e. refl), ((λ e. refl), ((λ e. refl), tt))))))
]

pub streaming-config :
    (a : Account) (d : Disk) → exists config d ≡ true → Keeps (entry config) (seed_streaming a d) d
unfolding seed_streaming
streaming-config a d t = rw t (All-Keeps (entry config) [] d tt)

pub loader-plugin :
    (h : Host) (a : Account) (r : List String)
    → All (Leaves (entry (down plugin r))) (install_loader h a)
unfolding install_loader
loader-plugin h a r = (
  (λ e. refl),
  (
    (λ e. refl),
    (
      (λ e. refl),
      (
        (λ e. refl),
        (
          touch-Leaves (entry (down plugin r)) debugging (λ e. refl),
          (
            (λ e. refl),
            ((λ e. refl), ((λ e. refl), ((λ e. refl), ((λ e. refl), ((λ e. refl), tt))))),
          ),
        ),
      ),
    ),
  ),
)

pub loader-marker : (h : Host) (a : Account) → All (Leaves (entry marker)) (install_loader h a)
unfolding install_loader
loader-marker h a = (
  (λ e. refl),
  (
    (λ e. refl),
    (
      (λ e. refl),
      (
        (λ e. refl),
        (
          touch-Leaves (entry marker) debugging (λ e. refl),
          (
            (λ e. refl),
            ((λ e. refl), ((λ e. refl), ((λ e. refl), ((λ e. refl), ((λ e. refl), tt))))),
          ),
        ),
      ),
    ),
  ),
)

pub loader-config : (h : Host) (a : Account) → All (Leaves (entry config)) (install_loader h a)
unfolding install_loader
loader-config h a = (
  (λ e. refl),
  (
    (λ e. refl),
    (
      (λ e. refl),
      (
        (λ e. refl),
        (
          touch-Leaves (entry config) debugging (λ e. refl),
          (
            (λ e. refl),
            ((λ e. refl), ((λ e. refl), ((λ e. refl), ((λ e. refl), ((λ e. refl), tt))))),
          ),
        ),
      ),
    ),
  ),
)

pub loader-settings : (h : Host) (a : Account) → All (Leaves (entry settings)) (install_loader h a)
unfolding install_loader
loader-settings h a = (
  (λ e. refl),
  (
    (λ e. refl),
    (
      (λ e. refl),
      (
        (λ e. refl),
        (
          touch-Leaves (entry settings) debugging (λ e. refl),
          (
            (λ e. refl),
            ((λ e. refl), ((λ e. refl), ((λ e. refl), ((λ e. refl), ((λ e. refl), tt))))),
          ),
        ),
      ),
    ),
  ),
)

pub update-config : (h : Host) (a : Account) → All (Leaves (entry config)) (update_plugin h a)
unfolding update_plugin
update-config h a = (
  (λ e. refl),
  (
    if_exists-Leaves (entry config) staging (remove_tree staging) (λ e. refl),
    (
      (λ e. refl),
      (
        (λ e. refl),
        (
          if_exists-Leaves (entry config) backup (remove_tree backup) (λ e. refl),
          (
            if_exists-Leaves (entry config) plugin (rename plugin backup) (λ e. refl),
            ((λ e. refl), ((λ e. refl), ((λ e. refl), ((λ e. refl), ((λ e. refl), tt))))),
          ),
        ),
      ),
    ),
  ),
)

pub update-settings : (h : Host) (a : Account) → All (Leaves (entry settings)) (update_plugin h a)
unfolding update_plugin
update-settings h a = (
  (λ e. refl),
  (
    if_exists-Leaves (entry settings) staging (remove_tree staging) (λ e. refl),
    (
      (λ e. refl),
      (
        (λ e. refl),
        (
          if_exists-Leaves (entry settings) backup (remove_tree backup) (λ e. refl),
          (
            if_exists-Leaves (entry settings) plugin (rename plugin backup) (λ e. refl),
            ((λ e. refl), ((λ e. refl), ((λ e. refl), ((λ e. refl), ((λ e. refl), tt))))),
          ),
        ),
      ),
    ),
  ),
)

pub own-plugin :
    (a : Account) (r : List String) → All (Leaves (entry (down plugin r))) (own_services a)
unfolding own_services
own-plugin a r = ((λ e. refl), ((λ e. refl), ((λ e. refl), ((λ e. refl), tt))))

pub own-brew :
    (a : Account) (r : List String)
    → All (Leaves (contents (home ("homebrew" ∷ r)))) (own_services a)
unfolding own_services
own-brew a r = ((λ e. refl), ((λ e. refl), ((λ e. refl), ((λ e. refl), tt))))

pub own-config : (a : Account) → All (Leaves (entry config)) (own_services a)
unfolding own_services
own-config a = ((λ e. refl), ((λ e. refl), ((λ e. refl), ((λ e. refl), tt))))

pub own-settings : (a : Account) → All (Leaves (entry settings)) (own_services a)
unfolding own_services
own-settings a = ((λ e. refl), ((λ e. refl), ((λ e. refl), ((λ e. refl), tt))))

pub settings-brew :
    (h : Host) (a : Account) (d : Disk) (r : List String)
    → Keeps (entry (home ("homebrew" ∷ r))) (seed_settings h a d) d
unfolding seed_settings
settings-brew h a d r = elim (Bool-cases (exists settings d)) [
  | inl t ↦ rw t (All-Keeps (entry (home ("homebrew" ∷ r))) [] d tt)
  | inr f ↦ rw f (
      All-Keeps (entry (home ("homebrew" ∷ r))) _ d
        ((λ e. refl), ((λ e. refl), ((λ e. refl), ((λ e. refl), ((λ e. refl), tt))))))
]

pub settings-config :
    (h : Host) (a : Account) (d : Disk) → Keeps (entry config) (seed_settings h a d) d
unfolding seed_settings
settings-config h a d = elim (Bool-cases (exists settings d)) [
  | inl t ↦ rw t (All-Keeps (entry config) [] d tt)
  | inr f ↦ rw f (
      All-Keeps (entry config) _ d
        ((λ e. refl), ((λ e. refl), ((λ e. refl), ((λ e. refl), ((λ e. refl), tt))))))
]

pub settings-settings :
    (h : Host) (a : Account) (d : Disk)
    → exists settings d ≡ true
    → Keeps (entry settings) (seed_settings h a d) d
unfolding seed_settings
settings-settings h a d t = rw t (All-Keeps (entry settings) [] d tt)

pub update-units :
    (h : Host) (a : Account) (r : List String) → All (Leaves (entry (units r))) (update_plugin h a)
unfolding update_plugin
update-units h a r = (
  (λ e. refl),
  (
    if_exists-Leaves (entry (units r)) staging (remove_tree staging) (λ e. refl),
    (
      (λ e. refl),
      (
        (λ e. refl),
        (
          if_exists-Leaves (entry (units r)) backup (remove_tree backup) (λ e. refl),
          (
            if_exists-Leaves (entry (units r)) plugin (rename plugin backup) (λ e. refl),
            ((λ e. refl), ((λ e. refl), ((λ e. refl), ((λ e. refl), ((λ e. refl), tt))))),
          ),
        ),
      ),
    ),
  ),
)

pub own-units : (a : Account) (r : List String) → All (Leaves (entry (units r))) (own_services a)
unfolding own_services
own-units a r = ((λ e. refl), ((λ e. refl), ((λ e. refl), ((λ e. refl), tt))))

pub settings-units :
    (h : Host) (a : Account) (d : Disk) (r : List String)
    → Keeps (entry (units r)) (seed_settings h a d) d
unfolding seed_settings
settings-units h a d r = elim (Bool-cases (exists settings d)) [
  | inl t ↦ rw t (All-Keeps (entry (units r)) [] d tt)
  | inr f ↦ rw f (
      All-Keeps (entry (units r)) _ d
        ((λ e. refl), ((λ e. refl), ((λ e. refl), ((λ e. refl), ((λ e. refl), tt))))))
]
