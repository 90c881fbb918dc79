-- ===== src/RunLab/Ended.antt =====
-- What run-lab.py starts, and that it ends it.
use bazzite_k.Common.{
  ℕ, Bool, true, false, ◌≡◌, refl, ap, inl, inr, ◌&&◌, ◌||◌, ◌==◌, ==_iff, Option, none, some, List,
  [], ◌∷◌, codes_eq, contains, Bool-cases, All,
}
use bazzite_k.Common.Bytes.{bytes}
use bazzite_k.Common.Processes.{is_running, said_goodbye-is_running, Goodbye}
use bazzite_k.RunLab.{Endpoint}
use bazzite_k.RunLab.Session.{
  is_letter, is_path_char, all_path_chars, valid_broker, Session, tried, run_lab,
}

-- What ssh hands to a shell at the host: no blank, no quote, and nothing that a shell expands.
abbrev pub IsPlain : List ℕ → Type 0
IsPlain = All (λ c. (is_path_char c || c == b':') ≡ true)

abbrev pub IsPlainOrNone : Option (List ℕ) → Type 0
IsPlainOrNone none = Unit
IsPlainOrNone (some cs) = IsPlain cs

all_path_chars-IsPlain : (cs : List ℕ) → all_path_chars cs ≡ true → IsPlain cs
all_path_chars-IsPlain [] h = tt
all_path_chars-IsPlain (c ∷ cs) h = elim (Bool-cases (is_path_char c)) [
  | inl t ↦
      let rest : all_path_chars cs ≡ true = rw t at h in (rw t refl, all_path_chars-IsPlain cs rest)
  | inr f ↦ absurd (let bad : false ≡ true = rw f at h in cc)
]

both : (x y : Bool) → x && y ≡ true → (x ≡ true) × (y ≡ true)
both true y h = (refl, h)
both false y h = absurd (let bad : false ≡ true = h in cc)

slash-is_path_char : (c : ℕ) → (c == b'/') ≡ true → is_path_char c || c == b':' ≡ true
unfolding contains
slash-is_path_char c h = ap (λ x. is_path_char x || x == b':') ((==_iff c b'/').0 h)

colon-is_plain : (c : ℕ) → (c == b':') ≡ true → is_path_char c || c == b':' ≡ true
unfolding contains
colon-is_plain c h = ap (λ x. is_path_char x || x == b':') ((==_iff c b':').0 h)

valid_broker-IsPlain : (cs : List ℕ) → valid_broker cs ≡ true → IsPlain cs
unfolding valid_broker
valid_broker-IsPlain [] h = absurd (cc)
valid_broker-IsPlain (a ∷ []) h = absurd (cc)
valid_broker-IsPlain (a ∷ b ∷ []) h = absurd (cc)
valid_broker-IsPlain (a ∷ b ∷ c ∷ []) h = absurd (cc)
valid_broker-IsPlain (drive ∷ colon ∷ slash ∷ c ∷ cs) h =
    let (d, after) = both (is_letter drive) _ h in
    let (k, last) = both (colon == b':') _ after in
    let (s, path) = both (slash == b'/') _ last in
    (
      rw d refl,
      (colon-is_plain colon k, (slash-is_path_char slash s, all_path_chars-IsPlain (c ∷ cs) path)),
    )

-- The broker is started only with a plain path.
abbrev IsPlainSession : Session → Type 0
IsPlainSession s = IsPlainOrNone s.started

tried-IsPlain :
    (greeting broker : List ℕ) (starts interrupted : Bool) (events : List (Endpoint × List ℕ))
    → IsPlainSession (tried greeting broker starts interrupted events)
unfolding tried
tried-IsPlain greeting broker starts interrupted events =
    elim (Bool-cases (codes_eq greeting (bytes "READY\n"))) [
      | inr f ↦ rw f tt
      | inl t ↦ elim (Bool-cases (valid_broker broker)) [
        | inr f ↦ rw (t, f) tt
        | inl v ↦ elim (Bool-cases starts) [
          | inr f ↦ rw (t, v, f) tt
          | inl s ↦ rw (t, v, s) (valid_broker-IsPlain broker v)
        ]
      ]
    ]

-- Whether `run-lab.py` raises, is interrupted in its loop or meets its time limit, neither process runs
-- afterwards, also where one does not take the line `X` or does not end in time; and a path that the
-- broker was started with has only letters, digits and the characters `_`, `.`, `/`, `-` and `:`.
pub run_lab-IsPlain :
    (greeting broker : List ℕ) (starts interrupted : Bool) (events : List (Endpoint × List ℕ))
    (w l : Goodbye)
    → let s = run_lab greeting broker starts interrupted events w l in
      (is_running s.windows ≡ false) × (is_running s.linux ≡ false) × IsPlainOrNone s.started
unfolding run_lab
run_lab-IsPlain greeting broker starts interrupted events w l =
    let s = tried greeting broker starts interrupted events in
    (
      said_goodbye-is_running w s.windows,
      said_goodbye-is_running l s.linux,
      tried-IsPlain greeting broker starts interrupted events,
    )
