-- ===== src/DiagnosticRelay/Counted.antt =====
-- The whole run of relay.py: what its last line says, and that it ends what it started.
use bazzite_k.Common.{
  true, false, ◌≡◌, refl, ◌∙◌, inl, inr, ◌⊎◌, Option, none, some, List, Bool-cases, codes_eq, ◌==◌,
  String, ℕ,
}
use bazzite_k.Common.Bytes.{bytes}
use bazzite_k.Common.Processes.{is_running, stopped-is_running, said_goodbye-is_running, Goodbye}
use bazzite_k.DiagnosticRelay.{
  Relay, Chunk, linux, windows, Probe, Result, checked, ended, goes_on, relay, new, tried, main,
}
use bazzite_k.DiagnosticRelay.Logged.{IsLogged, relay-IsLogged}
use bazzite_k.DiagnosticRelay.Lossless.{IsLossless, received, relay-IsLossless}

abbrev pub IsRaised : Result → Type 0
IsRaised x = (e : String) × (x ≡ Result.raised e)

abbrev pub IsCount : Relay → Result → Type 0
IsCount r x = x ≡ Result.printed r.inputs r.queries

checked-IsCount :
    (probe : Option Probe) (r : Relay) → IsRaised (checked probe r) ⊎ IsCount r (checked probe r)
checked-IsCount none r = inr refl
checked-IsCount (some p) r = elim (Bool-cases p.ends) [
  | inr f ↦ inl ("TimeoutExpired", rw f refl)
  | inl e ↦ elim (Bool-cases (p.returncode == 0)) [
    | inr f ↦ inl ("Windows native haptic probe failed", rw (e, f) refl)
    | inl z ↦ inr (rw (e, z) refl)
  ]
]

raises_or_goes_on :
    (x : Option String) (y : Result)
    → let z : Result = elim x [ none ↦ y | some e ↦ Result.raised e ] in
      IsRaised z ⊎ (goes_on x ≡ true) × (z ≡ y)
raises_or_goes_on none y = inr (refl, refl)
raises_or_goes_on (some e) y = inl (e, refl)

ended-IsCount :
    (probe : Option Probe) (r : Relay)
    → IsRaised (ended probe r) ⊎ (goes_on r.error ≡ true) × IsCount r (ended probe r)
ended-IsCount probe r = elim (raises_or_goes_on r.error (checked probe r)) [
  | inl raises ↦ inl raises
  | inr (on, same) ↦ elim (checked-IsCount probe r) [
    | inl (e, raises) ↦ inl (e, same ∙ raises)
    | inr counts ↦ inr (on, same ∙ counts)
  ]
]

tried-IsCount :
    (greeting : List ℕ) (probe : Option Probe) (chunks : List Chunk)
    → let x = (tried greeting probe chunks).0 in
      IsRaised x ⊎ (goes_on (relay chunks new).error ≡ true) × IsCount (relay chunks new) x
unfolding tried
tried-IsCount greeting probe chunks = elim (Bool-cases (codes_eq greeting (bytes "READY\n"))) [
  | inr f ↦ inl ("physical endpoint unavailable", rw f refl)
  | inl t ↦ rw t (ended-IsCount probe (relay chunks new))
]

-- However `relay.py` ends, no process that it has started runs afterwards, also where one does not
-- take the line `X` or does not end in time. Either it raises, or it prints the number of the inputs
-- and that of the queries, and has lost nothing and made nothing up: what it has sent to each side, and
-- what waits for the end of its line, is what it has received from the other side, byte by byte; the
-- inputs are the lines that it has sent with `I` and a blank at the beginning; the log has the other
-- lines, those to each side in their order; and the queries are those in the log with `Q` and a blank.
pub main-IsClosed :
    (greeting : List ℕ) (probe : Option Probe) (chunks : List Chunk) (w l : Goodbye)
    → let done = main greeting probe chunks w l in
      let r = relay chunks new in
      (is_running done.1.probe ≡ false)
      × (is_running done.1.windows ≡ false)
      × (is_running done.1.linux ≡ false)
      × (IsRaised done.0
          ⊎ IsCount r done.0
            × IsLossless (received linux chunks) (received windows chunks) r
            × IsLogged r)
unfolding main
main-IsClosed greeting probe chunks w l =
    let ps = (tried greeting probe chunks).1 in
    (
      stopped-is_running ps.probe,
      said_goodbye-is_running w ps.windows,
      said_goodbye-is_running l ps.linux,
      elim (tried-IsCount greeting probe chunks) [
        | inl raises ↦ inl raises
        | inr (on, counts) ↦ inr (counts, relay-IsLossless chunks on, relay-IsLogged chunks on)
      ],
    )
