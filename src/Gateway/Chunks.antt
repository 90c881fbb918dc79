-- ===== src/Gateway/Chunks.antt =====
-- The stream on stdin: its cutting into chunks does not matter, and each line has its answer.
use mathlib.Core.List.{append_assoc}
use bazzite_k.Common.{
  arith, ℕ, ◌≤◌, ◌≡◌, inl, inr, false, List, [], ◌∷◌, ◌++◌, Result, ok, err, length, length-append,
  Bool-cases, Option-cases, refl, sym, ap, ◌∙◌, codes_eq, ltb,
}
use bazzite_k.Common.Hex.{from_hex, is_space}
use bazzite_k.Common.Parse.{str_words, strip, parse_int}
use bazzite_k.Common.Lines.{Lines, lines, lines-append, lines-rest_le}
use bazzite_k.Common.Utf8.{decodes}
use bazzite_k.Common.Bytes.{bytes}
use bazzite_k.Gateway.{
  Request, Device, Gateway, admit, perform, unpacked, serve_line, serve_lines, on_chunk, is_running,
}

abbrev pub with_pending : List ℕ → Gateway → Gateway
with_pending p g = record g { pending = p }

-- Serving lines neither reads nor writes what is pending.
perform-pending :
    (dev : Device) (seq p : List ℕ) (r : Result Request) (g : Gateway)
    → perform dev seq r (with_pending p g) ≡ with_pending p (perform dev seq r g)
unfolding perform
perform-pending dev seq p (ok r) g = refl
perform-pending dev seq p (err e) g = refl

unpacked-pending :
    (dev : Device) (ws : List (List ℕ)) (p : List ℕ) (g : Gateway)
    → unpacked dev ws (with_pending p g) ≡ with_pending p (unpacked dev ws g)
unpacked-pending dev [] p g = refl
unpacked-pending dev (q ∷ []) p g = refl
unpacked-pending dev (q ∷ s ∷ []) p g = refl
unpacked-pending dev (q ∷ s ∷ o ∷ []) p g = refl
unpacked-pending dev (q ∷ s ∷ o ∷ d ∷ x ∷ ws) p g = refl
unpacked-pending dev (q ∷ s ∷ o ∷ d ∷ []) p g = elim (Option-cases (parse_int o)) [
  | inl e ↦ rw e
  | inr (op, e) ↦ elim (Option-cases (from_hex d)) [
    | inl f ↦ rw (e, f)
    | inr (b, f) ↦ rw (e, f) (perform-pending dev s p (admit op b) g)
  ]
]

serve_line-pending :
    (dev : Device) (line p : List ℕ) (g : Gateway)
    → serve_line dev line (with_pending p g) ≡ with_pending p (serve_line dev line g)
unfolding serve_line
serve_line-pending dev line p g = elim (Bool-cases (codes_eq (strip is_space line) (bytes "X"))) [
  | inl e ↦ rw e
  | inr e ↦ elim (Bool-cases (decodes line)) [
    | inl t ↦ rw (e, t) (unpacked-pending dev (str_words line) p g)
    | inr f ↦ rw (e, f)
  ]
]

serve_lines-pending :
    (dev : Device) (ls : List (List ℕ)) (p : List ℕ) (g : Gateway)
    → serve_lines dev ls (with_pending p g) ≡ with_pending p (serve_lines dev ls g)
unfolding serve_lines
serve_lines-pending dev [] p g = refl
serve_lines-pending dev (l ∷ ls) p g = elim (Bool-cases (is_running g.status)) [
  | inl e ↦
      rw e (rw (serve_line-pending dev l p g) (serve_lines-pending dev ls p (serve_line dev l g)))
  | inr e ↦ rw e
]

serve_lines-stopped :
    (dev : Device) (ls : List (List ℕ)) (g : Gateway)
    → is_running g.status ≡ false
    → serve_lines dev ls g ≡ g
unfolding serve_lines
serve_lines-stopped dev [] g e = refl
serve_lines-stopped dev (l ∷ ls) g e = rw e

serve_lines-append :
    (dev : Device) (ls ms : List (List ℕ)) (g : Gateway)
    → serve_lines dev (ls ++ ms) g ≡ serve_lines dev ms (serve_lines dev ls g)
unfolding serve_lines
serve_lines-append dev [] ms g = refl
serve_lines-append dev (l ∷ ls) ms g = elim (Bool-cases (is_running g.status)) [
  | inl e ↦ rw e (serve_lines-append dev ls ms (serve_line dev l g))
  | inr e ↦ rw e (sym (serve_lines-stopped dev ms g e))
]

-- A chunk that keeps within the limit.
on_chunk-fits :
    (dev : Device) (chunk : List ℕ) (g : Gateway)
    → length (g.pending ++ chunk) ≤ 65536
    → on_chunk dev chunk g
      ≡ serve_lines dev
          (lines (g.pending ++ chunk)).0
          (with_pending (lines (g.pending ++ chunk)).1 g)
unfolding on_chunk
on_chunk-fits dev chunk g h =
    let e : ltb 65536 (length (g.pending ++ chunk)) ≡ false = ground arith in rw e

on_chunk-parts :
    (dev : Device) (p chunk : List ℕ) (g : Gateway)
    → length (p ++ chunk) ≤ 65536
    → on_chunk dev chunk (with_pending p g)
      ≡ with_pending (lines (p ++ chunk)).1 (serve_lines dev (lines (p ++ chunk)).0 g)
on_chunk-parts dev p chunk g h =
    on_chunk-fits dev chunk (with_pending p g) h ∙ serve_lines-pending dev _ _ g

lines_parts :
    (p a b : List ℕ)
    → lines (p ++ (a ++ b)) ≡ (
      (lines (p ++ a)).0 ++ (lines ((lines (p ++ a)).1 ++ b)).0,
      (lines ((lines (p ++ a)).1 ++ b)).1,
    )
lines_parts p a b = rw (← append_assoc p a b) (lines-append (p ++ a) b)

-- A stream gives the same requests, replies and end however it is cut into chunks, as long as the
-- bytes that wait fit in 65536.
pub on_chunk-append :
    (dev : Device) (a b : List ℕ) (g : Gateway)
    → length (g.pending ++ (a ++ b)) ≤ 65536
    → on_chunk dev b (on_chunk dev a g) ≡ on_chunk dev (a ++ b) g
on_chunk-append dev a b g h =
    let first : Lines = lines (g.pending ++ a) in
    let total = length-append g.pending (a ++ b) in
    let fits_a : length (g.pending ++ a) ≤ 65536 =
      omega (arith, total, length-append a b, length-append g.pending a) in
    let fits_b : length (first.1 ++ b) ≤ 65536 = omega (
      arith,
      total,
      length-append a b,
      length-append g.pending a,
      lines-rest_le (g.pending ++ a),
      length-append first.1 b,
    ) in
    let whole = on_chunk-parts dev g.pending (a ++ b) g h in
    let one = on_chunk-parts dev g.pending a g fits_a in
    let two = on_chunk-parts dev first.1 b (serve_lines dev first.0 g) fits_b in
    ap (on_chunk dev b) one ∙ two ∙ rw (whole, lines_parts g.pending a b, serve_lines-append)
