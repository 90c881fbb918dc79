-- ===== src/DiagnosticRelay/Answers.antt =====
-- What replay_test.py answers does not depend on how the stream of the broker is cut.
use bazzite_k.Common.{
  true, false, ◌≡◌, refl, ap, sym, ◌∙◌, inl, inr, Option, none, some, List, [], ◌∷◌, ◌++◌,
  if◌then◌else◌, codes_eq, Bool-cases, ℕ, ◌+◌,
}
use mathlib.Core.Path.{subst}
use mathlib.Core.List.{append_assoc, append-nil}
use bazzite_k.Common.Bytes.{bytes}
use bazzite_k.Common.Lines.{lines, lines-append}
use bazzite_k.Common.Utf8.{decodes}
use bazzite_k.DiagnosticRelay.Replay.{
  Replay, new, byte_words, refusal, answered, on_line, goes_on, on_lines, on_chunk, replay,
}

-- The refusals of the requests among these lines: those whose first word is `Q`, under their number.
abbrev pub refused : List (List ℕ) → List (List ℕ)
refused [] = []
refused (q ∷ []) = []
refused (q ∷ seq ∷ rest) = if codes_eq q (bytes "Q") then refusal seq ∷ [] else []

unfoldable pub refusals : List (List ℕ) → List (List ℕ)
refusals [] = []
refusals (line ∷ rest) = refused (byte_words line) ++ refusals rest

refusals-append : (a b : List (List ℕ)) → refusals (a ++ b) ≡ refusals a ++ refusals b
unfolding refusals
refusals-append [] b = refl
refusals-append (l ∷ ls) b =
    ap (λ t. refused (byte_words l) ++ t) (refusals-append ls b)
    ∙ sym (append_assoc (refused (byte_words l)) (refusals ls) (refusals b))

-- What a line adds, if it does not raise.
record IsAnswered (ls : List (List ℕ)) (r s : Replay) : Type 0 where
  answers : s.answers ≡ r.answers ++ refusals ls
  trace : s.trace ≡ r.trace ++ ls
  buf : s.buf ≡ r.buf

answered-words :
    (ws : List (List ℕ)) (r : Replay)
    → goes_on (answered ws r).error ≡ true
    → (answered ws r).answers ≡ r.answers ++ refused ws
answered-words [] r h = absurd (cc)
answered-words (q ∷ []) r h = elim (Bool-cases (codes_eq q (bytes "Q"))) [
  | inl t ↦ rw t (sym (append-nil r.answers))
  | inr f ↦ rw f (sym (append-nil r.answers))
]
answered-words (q ∷ seq ∷ rest) r h = elim (Bool-cases (codes_eq q (bytes "Q"))) [
  | inl t ↦ rw t refl
  | inr f ↦ rw f (sym (append-nil r.answers))
]

answered-trace : (ws : List (List ℕ)) (r : Replay) → (answered ws r).trace ≡ r.trace
answered-trace [] r = refl
answered-trace (q ∷ []) r = elim (Bool-cases (codes_eq q (bytes "Q"))) [
  | inl t ↦ rw t refl
  | inr f ↦ rw f refl
]
answered-trace (q ∷ seq ∷ rest) r = elim (Bool-cases (codes_eq q (bytes "Q"))) [
  | inl t ↦ rw t refl
  | inr f ↦ rw f refl
]

answered-buf : (ws : List (List ℕ)) (r : Replay) → (answered ws r).buf ≡ r.buf
answered-buf [] r = refl
answered-buf (q ∷ []) r = elim (Bool-cases (codes_eq q (bytes "Q"))) [
  | inl t ↦ rw t refl
  | inr f ↦ rw f refl
]
answered-buf (q ∷ seq ∷ rest) r = elim (Bool-cases (codes_eq q (bytes "Q"))) [
  | inl t ↦ rw t refl
  | inr f ↦ rw f refl
]

on_line-IsAnswered :
    (line : List ℕ) (r : Replay)
    → goes_on (on_line line r).error ≡ true
    → IsAnswered (line ∷ []) r (on_line line r)
unfolding on_line refusals
on_line-IsAnswered line r h = elim (Bool-cases (decodes line)) [
  | inr f ↦ absurd (let bad : false ≡ true = rw f at h in cc)
  | inl t ↦
      let traced : Replay = record r { trace = r.trace ++ (line ∷ []) } in
      let later : goes_on (answered (byte_words line) traced).error ≡ true = rw t at h in
      rw t (record {
        answers =
            answered-words (byte_words line) traced later
            ∙ ap (λ l. r.answers ++ l) (sym (append-nil (refused (byte_words line))));
        trace = answered-trace (byte_words line) traced;
        buf = answered-buf (byte_words line) traced;
      })
]

on_lines-IsAnswered :
    (ls : List (List ℕ)) (r : Replay)
    → goes_on (on_lines ls r).error ≡ true
    → IsAnswered ls r (on_lines ls r)
unfolding on_lines refusals
on_lines-IsAnswered [] r h = record {
  answers = sym (append-nil r.answers);
  trace = sym (append-nil r.trace);
  buf = refl;
}
on_lines-IsAnswered (l ∷ ls) r h = elim (Bool-cases (goes_on (on_line l r).error)) [
  | inr f ↦ absurd (let bad : goes_on (on_line l r).error ≡ true = rw f at h in cc)
  | inl t ↦
      let later : goes_on (on_lines ls (on_line l r)).error ≡ true = rw t at h in
      let one = on_line-IsAnswered l r t in
      let rest = on_lines-IsAnswered ls (on_line l r) later in
      rw t (record {
        answers =
            rest.answers
            ∙ ap (λ a. a ++ refusals ls) one.answers
            ∙ append_assoc r.answers (refusals (l ∷ [])) (refusals ls)
            ∙ ap (λ a. r.answers ++ a) (sym (refusals-append (l ∷ []) ls));
        trace = rest.trace ∙ ap (λ a. a ++ ls) one.trace ∙ append_assoc r.trace (l ∷ []) ls;
        buf = rest.buf ∙ one.buf;
      })
]

-- All that the broker has sent so far.
unfoldable pub read_in : List (Option (List ℕ)) → List ℕ
read_in [] = []
read_in (none ∷ ts) = read_in ts
read_in (some chunk ∷ ts) = chunk ++ read_in ts

-- After these bytes: the whole lines are in the trace, their requests are refused, the rest waits.
pub record IsServed (stream : List ℕ) (r : Replay) : Type 0 where
  pub answers : r.answers ≡ refusals (lines stream).0
  pub trace : r.trace ≡ (lines stream).0
  pub buf : r.buf ≡ (lines stream).1

on_chunk-IsServed :
    (chunk stream : List ℕ) (r : Replay)
    → IsServed stream r
    → goes_on (on_chunk chunk r).error ≡ true
    → IsServed (stream ++ chunk) (on_chunk chunk r)
unfolding on_chunk
on_chunk-IsServed [] stream r k h = absurd (cc)
on_chunk-IsServed (c ∷ cs) stream r k h =
    let found = lines (r.buf ++ (c ∷ cs)) in
    let same : lines (stream ++ (c ∷ cs)) ≡ ((lines stream).0 ++ found.0, found.1) =
      lines-append stream (c ∷ cs) ∙ rw k.buf refl in
    let s = on_lines-IsAnswered found.0 (record r { buf = found.1 }) h in
    record {
      answers =
          s.answers
          ∙ ap (λ a. a ++ refusals found.0) k.answers
          ∙ sym (refusals-append (lines stream).0 found.0)
          ∙ ap (λ p. refusals p.0) (sym same);
      trace = s.trace ∙ ap (λ a. a ++ found.0) k.trace ∙ ap (λ p. p.0) (sym same);
      buf = s.buf ∙ ap (λ p. p.1) (sym same);
    }

replay_all-IsServed :
    (ts : List (Option (List ℕ))) (stream : List ℕ) (r : Replay)
    → IsServed stream r
    → goes_on (replay ts r).error ≡ true
    → IsServed (stream ++ read_in ts) (replay ts r)
unfolding replay read_in
replay_all-IsServed [] stream r k h = rw (append-nil stream) k
replay_all-IsServed (none ∷ ts) stream r k h = elim (Bool-cases (goes_on r.error)) [
  | inl t ↦
      let r' : Replay = record r { inputs = r.inputs + 1 } in
      let later : goes_on (replay ts r').error ≡ true = rw t at h in
      rw t (
        replay_all-IsServed ts stream r'
          (record { answers = k.answers; trace = k.trace; buf = k.buf }) later)
  | inr f ↦ absurd (let bad : goes_on r.error ≡ true = rw f at h in cc)
]
replay_all-IsServed (some chunk ∷ ts) stream r k h =
    let r' : Replay = record r { inputs = r.inputs + 1 } in
    elim (Bool-cases (goes_on (on_chunk chunk r').error)) [
      | inl t ↦
          let later : goes_on (replay ts (on_chunk chunk r')).error ≡ true = rw t at h in
          let served =
            on_chunk-IsServed chunk stream r'
              (record { answers = k.answers; trace = k.trace; buf = k.buf }) t in
          rw t (
            subst (λ s. IsServed s (replay ts (on_chunk chunk r')))
              (append_assoc stream chunk (read_in ts))
              (replay_all-IsServed ts (stream ++ chunk) (on_chunk chunk r') served later))
      | inr f ↦ absurd (let bad : goes_on (on_chunk chunk r').error ≡ true = rw f at h in cc)
    ]

-- While the test runs, each request of the broker has had exactly one answer, a refusal under its
-- number, in the order of the requests, and the trace holds the lines of the broker, however its output
-- comes in and however often the report is sent in between.
pub replay-IsServed :
    (ts : List (Option (List ℕ)))
    → goes_on (replay ts new).error ≡ true
    → IsServed (read_in ts) (replay ts new)
unfolding new refusals lines
replay-IsServed ts h =
    replay_all-IsServed ts [] new (record { answers = refl; trace = refl; buf = refl }) h
