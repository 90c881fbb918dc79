-- ===== src/DiagnosticRelay/Forwarding.antt =====
-- What the inner loop of relay.py does with whole lines.
use bazzite_k.Common.{
  zero, ℕ, ◌+◌, ◌≡◌, refl, ap, sym, ◌∙◌, inl, inr, List, [], ◌∷◌, ◌++◌, Bool-cases, length, arith,
  true, false, length-append, suc,
}
use mathlib.Core.List.{append_assoc, append-nil}
use bazzite_k.Common.Utf8.{decodes}
use bazzite_k.DiagnosticRelay.{
  Endpoint, linux, windows, Relay, plus_one, goes_on, noted, is_query, sent, is_input, decodes,
  forward_all,
}

abbrev pub queries_in : List (List ℕ) → ℕ
queries_in [] = 0
queries_in (l ∷ ls) = plus_one (is_query l) (queries_in ls)

queries_in-append : (a b : List (List ℕ)) → queries_in (a ++ b) ≡ queries_in a + queries_in b
queries_in-append [] b = omega arith
queries_in-append (l ∷ ls) b = elim (Bool-cases (is_query l)) [
  | inl t ↦ rw t (omega (arith, queries_in-append ls b))
  | inr f ↦ rw f (queries_in-append ls b)
]

-- What is left as it was.
pub record IsKept (r s : Relay) : Type 0 where
  to_windows : s.to_windows ≡ r.to_windows
  to_linux : s.to_linux ≡ r.to_linux
  linux_buffer : s.linux_buffer ≡ r.linux_buffer
  windows_buffer : s.windows_buffer ≡ r.windows_buffer

abbrev pub Counted : Relay → Type 0
Counted r = r.queries ≡ queries_in r.transactions

-- After `n` more lines.
abbrev pub IsNoted : ℕ → Relay → Relay → Type 0
IsNoted n r s =
    (length s.transactions + s.inputs ≡ length r.transactions + r.inputs + n)
    × (Counted r → Counted s)

plus_one-queries : (line : List ℕ) (n : ℕ) → plus_one (is_query line) n ≡ n + queries_in (line ∷ [])
plus_one-queries line n = elim (Bool-cases (is_query line)) [
  | inl t ↦ rw t (omega arith)
  | inr f ↦ rw f (omega arith)
]

log-Counted :
    (line : List ℕ) (q : ℕ) (log : List (List ℕ))
    → q ≡ queries_in log
    → plus_one (is_query line) q ≡ queries_in (log ++ (line ∷ []))
log-Counted line q log h =
    rw h (plus_one-queries line (queries_in log) ∙ sym (queries_in-append log (line ∷ [])))

noted-IsKept : (line : List ℕ) (r : Relay) → IsKept r (noted line r)
noted-IsKept line r = elim (Bool-cases (is_input line)) [
  | inl t ↦
      rw t
        (record { to_windows = refl; to_linux = refl; linux_buffer = refl; windows_buffer = refl })
  | inr f ↦ elim (Bool-cases (decodes line)) [
    | inl t ↦
        rw (f, t)
          (record {
            to_windows = refl;
            to_linux = refl;
            linux_buffer = refl;
            windows_buffer = refl;
          })
    | inr g ↦
        rw (f, g)
          (record {
            to_windows = refl;
            to_linux = refl;
            linux_buffer = refl;
            windows_buffer = refl;
          })
  ]
]

noted-IsNoted :
    (line : List ℕ) (r : Relay) → goes_on (noted line r).error ≡ true → IsNoted 1 r (noted line r)
noted-IsNoted line r h = elim (Bool-cases (is_input line)) [
  | inl t ↦ rw t (omega arith, λ k. k)
  | inr f ↦ elim (Bool-cases (decodes line)) [
    | inl t ↦
        rw (f, t)
          (
            omega (arith, length-append r.transactions (line ∷ [])),
            log-Counted line r.queries r.transactions,
          )
    | inr g ↦ absurd (let bad : false ≡ true = rw (f, g) at h in cc)
  ]
]

-- After these lines of an endpoint.
abbrev pub IsForwarded : Endpoint → List (List ℕ) → Relay → Relay → Type 0
IsForwarded linux ls r s =
    (s.to_windows ≡ r.to_windows ++ ls)
    × (s.to_linux ≡ r.to_linux)
    × (s.linux_buffer ≡ r.linux_buffer)
    × (s.windows_buffer ≡ r.windows_buffer)
    × IsNoted (length ls) r s
IsForwarded windows ls r s =
    (s.to_windows ≡ r.to_windows)
    × (s.to_linux ≡ r.to_linux ++ ls)
    × (s.linux_buffer ≡ r.linux_buffer)
    × (s.windows_buffer ≡ r.windows_buffer)
    × IsNoted (length ls) r s

more-IsNoted : (n : ℕ) (r m s : Relay) → IsNoted 1 r m → IsNoted n m s → IsNoted (suc n) r s
more-IsNoted n r m s a b = (omega (arith, a.0, b.0), λ k. b.1 (a.1 k))

next-IsForwarded :
    (from : Endpoint) (line : List ℕ) (ls : List (List ℕ)) (r m s : Relay)
    → IsKept r m
    → IsNoted 1 r m
    → IsForwarded from ls (sent from line m) s
    → IsForwarded from (line ∷ ls) r s
next-IsForwarded linux line ls r m s k n (w, l, lb, wb, c) = (
  w ∙ append_assoc m.to_windows (line ∷ []) ls ∙ ap (λ t. t ++ (line ∷ ls)) k.to_windows,
  l ∙ k.to_linux,
  lb ∙ k.linux_buffer,
  wb ∙ k.windows_buffer,
  more-IsNoted (length ls) r m s n c,
)
next-IsForwarded windows line ls r m s k n (w, l, lb, wb, c) = (
  w ∙ k.to_windows,
  l ∙ append_assoc m.to_linux (line ∷ []) ls ∙ ap (λ t. t ++ (line ∷ ls)) k.to_linux,
  lb ∙ k.linux_buffer,
  wb ∙ k.windows_buffer,
  more-IsNoted (length ls) r m s n c,
)

none-IsForwarded : (from : Endpoint) (r : Relay) → IsForwarded from [] r r
none-IsForwarded linux r = (sym (append-nil r.to_windows), refl, refl, refl, (omega arith, λ k. k))
none-IsForwarded windows r = (refl, sym (append-nil r.to_linux), refl, refl, (omega arith, λ k. k))

pub forward_all-IsForwarded :
    (from : Endpoint) (n : ℕ) (ls : List (List ℕ)) (r : Relay)
    → goes_on (forward_all from n ls r).error ≡ true
    → IsForwarded from ls r (forward_all from n ls r)
unfolding forward_all
forward_all-IsForwarded from n [] r h = none-IsForwarded from r
forward_all-IsForwarded from zero (line ∷ ls) r h =
    elim (Bool-cases (goes_on (noted line r).error)) [
      | inl t ↦ absurd (let bad : false ≡ true = rw t at h in cc)
      | inr f ↦ absurd (let bad : goes_on (noted line r).error ≡ true = rw f at h in cc)
    ]
forward_all-IsForwarded from (suc n) (line ∷ ls) r h =
    elim (Bool-cases (goes_on (noted line r).error)) [
      | inl t ↦
          let later : goes_on (forward_all from n ls (sent from line (noted line r))).error ≡ true =
            rw t at h in
          rw t (
            next-IsForwarded from line ls r (noted line r) _ (noted-IsKept line r)
              (noted-IsNoted line r t)
              (forward_all-IsForwarded from n ls (sent from line (noted line r)) later))
      | inr f ↦ absurd (let bad : goes_on (noted line r).error ≡ true = rw f at h in cc)
    ]
