-- ===== src/Gateway/Safety.antt =====
-- What reaches the device.
use bazzite_k.Common.{
  arith, ℕ, suc, ◌≤◌, ◌≡◌, ◌⊎◌, inl, inr, Bool, true, false, some, List, [], ◌∷◌, ◌++◌, ok, err,
  length, All, All-append, contains, Result-cases, Bool-cases, Option-cases, refl, String,
  if◌then◌else◌, codes_eq, ltb,
}
use bazzite_k.Common.Int.{ℤ, int_eq}
use bazzite_k.Common.Hex.{from_hex, is_space}
use bazzite_k.Common.Parse.{str_words, strip, parse_int}
use bazzite_k.Common.Utf8.{decodes}
use bazzite_k.Common.Bytes.{bytes}
use bazzite_k.Gateway.{
  Request, Device, Gateway, Event, allowed, input_kinds, output_length, byte_at, may_get, may_set,
  may_output, admit, perform, unpacked, serve_line, serve_lines, on_chunk, on_stdin, on_report,
  step, run, start, is_running, get_feature, set_feature, output,
}

-- The requests that the gateway is meant to let through: reads of report 1 and 2, writes of listed
-- settings only, and output reports of their own length or padded to 64.
abbrev pub IsAllowed : Request → Type 0
IsAllowed (get_feature b) = (length b ≡ 64) × ((byte_at b 0 ≡ 1) ⊎ (byte_at b 0 ≡ 2))
IsAllowed (set_feature b) =
    (length b ≡ 64)
    × ((byte_at b 0 ≡ 1) × (contains allowed (byte_at b 1) ≡ true) × (byte_at b 2 ≤ 61)
        ⊎ (byte_at b 0 ≡ 2)
          × (((byte_at b 1 ≡ 0xa3) ⊎ (byte_at b 1 ≡ 0xb4) ⊎ (byte_at b 1 ≡ 0x83))
                × (byte_at b 2 ≡ 0)
              ⊎ (byte_at b 1 ≡ 0xf3) × (byte_at b 2 ≤ 1)))
IsAllowed (output b) =
    (n : ℕ) × (output_length (byte_at b 0) ≡ some n) × ((length b ≡ n) ⊎ (length b ≡ 64))

contains_two : (x a b : ℕ) → contains (a ∷ b ∷ []) x ≡ true → (x ≡ a) ⊎ (x ≡ b)
unfolding contains
contains_two x a b h = ground arith

contains_three : (x a b c : ℕ) → contains (a ∷ b ∷ c ∷ []) x ≡ true → (x ≡ a) ⊎ (x ≡ b) ⊎ (x ≡ c)
unfolding contains
contains_three x a b c h = ground arith

may_get-IsAllowed : (b : List ℕ) → may_get b ≡ true → IsAllowed (get_feature b)
unfolding may_get
may_get-IsAllowed b h = ground (arith, contains_two (byte_at b 0) 1 2)

may_set-IsAllowed : (b : List ℕ) → may_set b ≡ true → IsAllowed (set_feature b)
unfolding may_set
may_set-IsAllowed b h = ground (arith, contains_three (byte_at b 1) 0xa3 0xb4 0x83)

may_output-IsAllowed : (b : List ℕ) → may_output b ≡ true → IsAllowed (output b)
unfolding may_output
may_output-IsAllowed [] h = cc
may_output-IsAllowed (kind ∷ rest) h = elim (Option-cases (output_length kind)) [
  | inl none_of ↦ absurd (ground arith)
  | inr (n, e) ↦ (n, e, contains_two (suc (length rest)) n 64 (ground arith))
]

-- A branch that lets `q` through only on its test.
tested :
    (t : Bool) (q r : Request) (e : String)
    → (t ≡ true → IsAllowed q)
    → (if t then ok q else err e) ≡ ok r
    → IsAllowed r
tested true q r e p h = let same : q ≡ r = cc in rw same at (p refl)
tested false q r e p h = cc

admit-IsAllowed : (op : ℤ) (b : List ℕ) (r : Request) → admit op b ≡ ok r → IsAllowed r
unfolding admit
admit-IsAllowed op b r h = elim (Bool-cases (int_eq op 1)) [
  | inl one ↦ tested (may_get b) _ r "bad get" (may_get-IsAllowed b) (rw one at h)
  | inr n1 ↦ elim (Bool-cases (int_eq op 2)) [
    | inl two ↦ tested (may_set b) _ r "blocked feature" (may_set-IsAllowed b) (rw (n1, two) at h)
    | inr n2 ↦ elim (Bool-cases (int_eq op 3)) [
      | inl three ↦
          tested (may_output b) _ r "bad output" (may_output-IsAllowed b) (rw (n1, n2, three) at h)
      | inr n3 ↦ absurd (ground arith)
    ]
  ]
]

abbrev pub AllAllowed : Gateway → Type 0
AllAllowed g = All IsAllowed g.calls

perform-AllAllowed :
    (dev : Device) (seq : List ℕ) (op : ℤ) (b : List ℕ) (g : Gateway)
    → AllAllowed g
    → AllAllowed (perform dev seq (admit op b) g)
unfolding perform
perform-AllAllowed dev seq op b g h = elim (Result-cases (admit op b)) [
  | inl (r, e) ↦ rw e (All-append IsAllowed g.calls (r ∷ []) h (admit-IsAllowed op b r e, tt))
  | inr (t, e) ↦ rw e h
]

unpacked-AllAllowed :
    (dev : Device) (ws : List (List ℕ)) (g : Gateway)
    → AllAllowed g
    → AllAllowed (unpacked dev ws g)
unpacked-AllAllowed dev [] g h = h
unpacked-AllAllowed dev (q ∷ []) g h = h
unpacked-AllAllowed dev (q ∷ s ∷ []) g h = h
unpacked-AllAllowed dev (q ∷ s ∷ o ∷ []) g h = h
unpacked-AllAllowed dev (q ∷ s ∷ o ∷ d ∷ x ∷ ws) g h = h
unpacked-AllAllowed dev (q ∷ s ∷ o ∷ d ∷ []) g h = elim (Option-cases (parse_int o)) [
  | inl e ↦ rw e h
  | inr (op, e) ↦ elim (Option-cases (from_hex d)) [
    | inl f ↦ rw (e, f) h
    | inr (b, f) ↦ rw (e, f) (perform-AllAllowed dev s op b g h)
  ]
]

serve_line-AllAllowed :
    (dev : Device) (line : List ℕ) (g : Gateway) → AllAllowed g → AllAllowed (serve_line dev line g)
unfolding serve_line
serve_line-AllAllowed dev line g h =
    elim (Bool-cases (codes_eq (strip is_space line) (bytes "X"))) [
      | inl e ↦ rw e h
      | inr e ↦ elim (Bool-cases (decodes line)) [
        | inl t ↦ rw (e, t) (unpacked-AllAllowed dev (str_words line) g h)
        | inr f ↦ rw (e, f) h
      ]
    ]

serve_lines-AllAllowed :
    (dev : Device) (ls : List (List ℕ)) (g : Gateway)
    → AllAllowed g
    → AllAllowed (serve_lines dev ls g)
unfolding serve_lines
serve_lines-AllAllowed dev [] g h = h
serve_lines-AllAllowed dev (l ∷ ls) g h = elim (Bool-cases (is_running g.status)) [
  | inl e ↦
      rw e (serve_lines-AllAllowed dev ls (serve_line dev l g) (serve_line-AllAllowed dev l g h))
  | inr e ↦ rw e h
]

on_chunk-AllAllowed :
    (dev : Device) (chunk : List ℕ) (g : Gateway) → AllAllowed g → AllAllowed (on_chunk dev chunk g)
unfolding on_chunk
on_chunk-AllAllowed dev chunk g h = elim (Bool-cases (ltb 65536 (length (g.pending ++ chunk)))) [
  | inl e ↦ rw e h
  | inr e ↦ rw e (serve_lines-AllAllowed dev _ _ h)
]

step-AllAllowed :
    (dev : Device) (e : Event) (g : Gateway) → AllAllowed g → AllAllowed (step dev e g)
unfolding step on_report on_stdin
step-AllAllowed dev (Event.report []) g h = h
step-AllAllowed dev (Event.report (k ∷ b)) g h = elim (Bool-cases (contains input_kinds k)) [
  | inl e ↦ rw e h
  | inr e ↦ rw e h
]
step-AllAllowed dev (Event.stdin []) g h = h
step-AllAllowed dev (Event.stdin (c ∷ cs)) g h = on_chunk-AllAllowed dev (c ∷ cs) g h

run-AllAllowed_from :
    (dev : Device) (es : List Event) (g : Gateway) → AllAllowed g → AllAllowed (run dev es g)
unfolding run
run-AllAllowed_from dev [] g h = h
run-AllAllowed_from dev (e ∷ es) g h = elim (Bool-cases (is_running g.status)) [
  | inl r ↦ rw r (run-AllAllowed_from dev es (step dev e g) (step-AllAllowed dev e g h))
  | inr r ↦ rw r h
]

-- Whatever bytes come over stdin, in whatever chunks, and whatever the device answers: each request
-- that reaches the device is an allowed one.
pub run-AllAllowed :
    (dev : Device) (es : List Event) (identity : List ℕ) (g : Gateway)
    → start identity ≡ some g
    → AllAllowed (run dev es g)
unfolding start
run-AllAllowed dev es identity g h = run-AllAllowed_from dev es g (ground arith)
