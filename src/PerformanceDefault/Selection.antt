-- ===== src/PerformanceDefault/Selection.antt =====
-- Which hardware gets the K17's own profile.
use bazzite_k.Common.{
  arith, ℕ, ◌≡◌, ◌≢◌, inl, inr, Bool, true, false, not, Option, some, List, String, text_eq_iff,
  text_append, Bool-cases, refl, if◌then◌else◌,
}
use bazzite_k.Common.Int.{ℤ, int_ltb}
use bazzite_k.Common.Parse.{parse_int}
use bazzite_k.PerformanceDefault.{
  Files, Error, Outcome, ok, raised, ◌>>=◌, exists, reads, read_text, in_sysfs, gpu, dmi_matches,
  check_gt, check_gpu, select_profile, or_false, or_value_error, runtime_error,
}

-- A file that holds this text, but for blanks round it.
abbrev pub Reads : Files → String → String → Type 0
Reads files path name = (text : List ℕ) × (files path ≡ some text) × (reads text name ≡ true)

-- The clock controls of one GT are there, and its highest clock is the minimum asked for, or more.
abbrev pub HasClock : Files → String → String → ℕ → Type 0
HasClock files sysfs freq minimum =
    (exists files (gpu sysfs (text_append freq "min_freq")) ≡ true)
    × ((text : List ℕ) × (n : ℤ) × (files (gpu sysfs (text_append freq "rp0_freq")) ≡ some text)
        × (parse_int text ≡ some n)
        × (int_ltb n minimum ≡ false))

-- What a step of such a chain has returned, when the chain returns.
>>=-eq-ok :
    {A B : Type 0} (m : Outcome A) (f : A → Outcome B) {last : B}
    → (m >>= f) ≡ ok last
    → (first : A) × (m ≡ ok first) × (f first ≡ ok last)
>>=-eq-ok (raised e) f h = cc
>>=-eq-ok (ok first) f h = (first, refl, h)

-- A test that raises.
raise_if-eq-ok :
    {A : Type 0} (b : Bool) (e : Error) (m : Outcome A) {a : A}
    → (if b then raised e else m) ≡ ok a
    → (b ≡ false) × (m ≡ ok a)
raise_if-eq-ok true e m h = cc
raise_if-eq-ok false e m h = (refl, h)

read_text-eq-ok :
    (files : Files) (path : String) {text : List ℕ}
    → read_text files path ≡ ok text
    → files path ≡ some text
read_text-eq-ok files path h = ground arith

or_value_error-eq-ok : (n : Option ℤ) {i : ℤ} → or_value_error n ≡ ok i → n ≡ some i
or_value_error-eq-ok n h = ground arith

not-eq-false : (b : Bool) → not b ≡ false → b ≡ true
not-eq-false b h = ground arith

check_gt-HasClock :
    (files : Files) (sysfs gt : String) (m : ℕ)
    → check_gt files sysfs gt m ≡ ok tt
    → HasClock files sysfs (text_append (text_append "tile0/gt" gt) "/freq0/") m
unfolding check_gt
check_gt-HasClock files sysfs gt m h =
    let (present, chain) = raise_if-eq-ok _ runtime_error _ h in
    let (text, is_text, chain2) = >>=-eq-ok _ _ chain in
    let (n, is_number, last) = >>=-eq-ok _ _ chain2 in
    let (high, done) = raise_if-eq-ok _ runtime_error (ok tt) last in
    (
      not-eq-false _ present,
      (text, n, read_text-eq-ok files _ is_text, or_value_error-eq-ok _ is_number, high),
    )

dmi_matches-Reads :
    (files : Files) (sysfs : String)
    → dmi_matches files sysfs ≡ ok true
    → Reads files (in_sysfs sysfs "class/dmi/id/sys_vendor") "GMKtec"
      × Reads files (in_sysfs sysfs "class/dmi/id/product_name") "NucBox K17"
unfolding dmi_matches
dmi_matches-Reads files sysfs h =
    let (vendor, v, chain) = >>=-eq-ok _ _ h in
    elim (Bool-cases (reads vendor "GMKtec")) [
      | inr e ↦ absurd (let bad : ok false ≡ ok true = rw e at chain in cc)
      | inl e ↦
          let (product, p, last) = >>=-eq-ok _ _ (rw e at chain) in
          (
            (vendor, read_text-eq-ok files _ v, e),
            (product, read_text-eq-ok files _ p, ground arith),
          )
    ]

check_gpu-IsReady :
    (files : Files) (sysfs : String) {p : String}
    → check_gpu files sysfs ≡ ok p
    → Reads files (gpu sysfs "vendor") "0x8086"
      × HasClock files sysfs "tile0/gt0/freq0/" 1850
      × HasClock files sysfs "tile0/gt1/freq0/" 1200
unfolding check_gpu
check_gpu-IsReady files sysfs h =
    let (vendor, v, chain) = >>=-eq-ok _ _ h in
    let (intel, chain2) = raise_if-eq-ok _ runtime_error _ chain in
    let (u0, gt0, chain3) = >>=-eq-ok _ _ chain2 in
    let (u1, gt1, last) = >>=-eq-ok _ _ chain3 in
    (
      (vendor, read_text-eq-ok files _ v, not-eq-false _ intel),
      check_gt-HasClock files sysfs "0" 1850 gt0,
      check_gt-HasClock files sysfs "1" 1200 gt1,
    )

or_false-eq-ok_true : (m : Outcome Bool) → or_false m ≡ ok true → m ≡ ok true
or_false-eq-ok_true (ok b) h = h
or_false-eq-ok_true (raised e) h = ground arith

other_name : ◌≢◌ {A = String} "moonmachine-streaming" "moonmachine-k17-streaming"
other_name = ground (arith, text_eq_iff "moonmachine-streaming" "moonmachine-k17-streaming")

-- The K17's profile is selected only on a machine that says that it is GMKtec's NucBox K17, with
-- Intel's graphics, whose two GTs can be clocked at 1850 and 1200 MHz.
pub select_profile-k17 :
    (files : Files) (sysfs : String)
    → select_profile files sysfs ≡ ok "moonmachine-k17-streaming"
    → Reads files (in_sysfs sysfs "class/dmi/id/sys_vendor") "GMKtec"
      × Reads files (in_sysfs sysfs "class/dmi/id/product_name") "NucBox K17"
      × Reads files (gpu sysfs "vendor") "0x8086"
      × HasClock files sysfs "tile0/gt0/freq0/" 1850
      × HasClock files sysfs "tile0/gt1/freq0/" 1200
unfolding select_profile
select_profile-k17 files sysfs h =
    let (is_k17, k, chain) =
      >>=-eq-ok (or_false (dmi_matches files sysfs))
        (λ x. if x then check_gpu files sysfs else ok "moonmachine-streaming") h in
    elim (Bool-cases is_k17) [
      | inr e ↦ absurd (
          let bad : ok "moonmachine-streaming" ≡ ok "moonmachine-k17-streaming" = rw e at chain in
          other_name (cc))
      | inl e ↦
          let (vendor, product) =
            dmi_matches-Reads files sysfs (or_false-eq-ok_true _ (rw e at k)) in
          let (intel, gt0, gt1) = check_gpu-IsReady files sysfs (rw e at chain) in
          (vendor, product, intel, gt0, gt1)
    ]
