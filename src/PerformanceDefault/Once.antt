-- ===== src/PerformanceDefault/Once.antt =====
-- The default is applied once, and only as a whole.
use bazzite_k.Common.{
  arith, ◌≡◌, inl, inr, Bool, true, ◌||◌, [], String, text_eq_iff, Bool-cases, refl,
}
use bazzite_k.PerformanceDefault.{
  Files, Error, Outcome, ok, raised, exists, stamped, set_profile, select_profile, apply_default,
}

exists-stamped :
    (stamp profile : String) (files : Files) → exists (stamped stamp profile files) stamp ≡ true
exists-stamped stamp profile files = rw ((text_eq_iff stamp stamp).1 refl, exists)

set_profile-ok :
    (files : Files) (stamp : String) (run : String → Bool) (p : Outcome String)
    → (set_profile files stamp run p).result ≡ ok tt
    → exists (set_profile files stamp run p).files stamp ≡ true
unfolding set_profile
set_profile-ok files stamp run (raised e) h = cc
set_profile-ok files stamp run (ok p) h = elim (Bool-cases (run p)) [
  | inl r ↦ rw r (exists-stamped stamp p files)
  | inr r ↦ absurd (ground arith)
]

set_profile-raised :
    (files : Files) (stamp : String) (run : String → Bool) (p : Outcome String) (e : Error)
    → (set_profile files stamp run p).result ≡ raised e
    → (set_profile files stamp run p).files ≡ files
unfolding set_profile
set_profile-raised files stamp run (raised d) e h = refl
set_profile-raised files stamp run (ok p) e h = elim (Bool-cases (run p)) [
  | inl r ↦ absurd (ground arith)
  | inr r ↦ rw r
]

-- With a stamp or an opt-out nothing is done.
apply_default_seen :
    (files : Files) (stamp opt_out sysfs : String) (run : String → Bool)
    → exists files stamp || exists files opt_out ≡ true
    → apply_default files stamp opt_out sysfs run
      ≡ record { result = ok tt; files = files; actions = [] }
unfolding apply_default
apply_default_seen files stamp opt_out sysfs run h = rw h

or_true : (a b : Bool) → a ≡ true → a || b ≡ true
or_true a b h = rw h

module _ (files : Files) (stamp opt_out sysfs : String) (run : String → Bool) where
  leaves_stamp :
      (apply_default files stamp opt_out sysfs run).result ≡ ok tt
      → let after = (apply_default files stamp opt_out sysfs run).files in
        exists after stamp || exists after opt_out ≡ true
  unfolding apply_default
  leaves_stamp h = elim (Bool-cases (exists files stamp || exists files opt_out)) [
    | inl e ↦ rw e e
    | inr e ↦
        rw e (or_true _ _ (set_profile-ok files stamp run (select_profile files sysfs) (rw e at h)))
  ]

  -- After a call that returns, a later call runs no command and writes nothing, whatever its own
  -- arguments for the hardware are.
  pub apply_default_once :
      (sysfs' : String) (run' : String → Bool)
      → (apply_default files stamp opt_out sysfs run).result ≡ ok tt
      → let first = apply_default files stamp opt_out sysfs run in
        apply_default first.files stamp opt_out sysfs' run'
        ≡ record { result = ok tt; files = first.files; actions = [] }
  apply_default_once sysfs' run' h = apply_default_seen _ stamp opt_out sysfs' run' (leaves_stamp h)

  -- A call that raises, in the selection or because tuned-adm fails, leaves all files as they were:
  -- the stamp is not written.
  pub apply_default_raised :
      (e : Error)
      → (apply_default files stamp opt_out sysfs run).result ≡ raised e
      → (apply_default files stamp opt_out sysfs run).files ≡ files
  unfolding apply_default
  apply_default_raised e h = elim (Bool-cases (exists files stamp || exists files opt_out)) [
    | inl x ↦ rw x
    | inr x ↦ rw x (set_profile-raised files stamp run (select_profile files sysfs) e (rw x at h))
  ]
