-- ===== src/DiagnosticRelay/Lossless.antt =====
-- What the relay of relay.py receives is what it sends on.
use bazzite_k.Common.{
  ℕ, ◌+◌, ◌≡◌, refl, ap, sym, ◌∙◌, inl, inr, List, [], ◌∷◌, ◌++◌, Bool-cases, length, arith, true,
  length-append,
}
use mathlib.Core.Path.{subst₂}
use mathlib.Core.List.{append_assoc, append-nil}
use bazzite_k.Common.Lines.{lines}
use bazzite_k.DiagnosticRelay.{
  Endpoint, linux, windows, Relay, Chunk, goes_on, buffer, on_data, with_buffer, relay, new,
}
use bazzite_k.DiagnosticRelay.Joined.{joined, joined-append, lines-whole}
use bazzite_k.DiagnosticRelay.Forwarding.{queries_in, IsForwarded, forward_all-IsForwarded}

-- What was read from an endpoint.
abbrev read_by : Endpoint → Endpoint → List ℕ → List ℕ
read_by linux linux x = x
read_by linux windows x = []
read_by windows linux x = []
read_by windows windows x = x

unfoldable pub received : Endpoint → List Chunk → List ℕ
received e [] = []
received e (c ∷ cs) = read_by e c.from c.data_read ++ received e cs

-- What has been read from `linux` and from `windows` has been sent on, or waits for the end of its
-- line; every line is counted as an input or is in the log, and the queries in the log are counted.
pub record IsLossless (a b : List ℕ) (r : Relay) : Type 0 where
  pub from_linux : joined r.to_windows ++ r.linux_buffer ≡ a
  pub from_windows : joined r.to_linux ++ r.windows_buffer ≡ b
  pub noted_lines : length r.transactions + r.inputs ≡ length r.to_windows + length r.to_linux
  pub counted_queries : r.queries ≡ queries_in r.transactions

-- The invariant, after a chunk that ends no loop.
forwarded-IsLossless :
    (from : Endpoint) (ls : List (List ℕ)) (rest x a b : List ℕ) (r s : Relay)
    → joined ls ++ rest ≡ buffer from r ++ x
    → IsLossless a b r
    → IsForwarded from ls (with_buffer from rest r) s
    → IsLossless
        (elim from [ linux ↦ a ++ x | windows ↦ a ])
        (elim from [ linux ↦ b | windows ↦ b ++ x ])
        s
forwarded-IsLossless linux ls rest x a b r s e k (w, l, lb, wb, c) = record {
  from_linux =
      rw (w, lb, joined-append r.to_windows ls)
        (append_assoc (joined r.to_windows) (joined ls) rest
          ∙ ap (λ t. joined r.to_windows ++ t) e
          ∙ sym (append_assoc (joined r.to_windows) r.linux_buffer x)
          ∙ ap (λ t. t ++ x) k.from_linux);
  from_windows = rw (l, wb) k.from_windows;
  noted_lines = rw (w, l) (omega (arith, length-append r.to_windows ls, c.0, k.noted_lines));
  counted_queries = c.1 k.counted_queries;
}
forwarded-IsLossless windows ls rest x a b r s e k (w, l, lb, wb, c) = record {
  from_linux = rw (w, lb) k.from_linux;
  from_windows =
      rw (l, wb, joined-append r.to_linux ls)
        (append_assoc (joined r.to_linux) (joined ls) rest
          ∙ ap (λ t. joined r.to_linux ++ t) e
          ∙ sym (append_assoc (joined r.to_linux) r.windows_buffer x)
          ∙ ap (λ t. t ++ x) k.from_windows);
  noted_lines = rw (w, l) (omega (arith, length-append r.to_linux ls, c.0, k.noted_lines));
  counted_queries = c.1 k.counted_queries;
}

on_data-IsLossless :
    (c : Chunk) (a b : List ℕ) (r : Relay)
    → IsLossless a b r
    → goes_on (on_data c r).error ≡ true
    → IsLossless
        (elim c.from [ linux ↦ a ++ c.data_read | windows ↦ a ])
        (elim c.from [ linux ↦ b | windows ↦ b ++ c.data_read ])
        (on_data c r)
unfolding on_data
on_data-IsLossless c a b r k h = go c.data_read h
  where
    go :
        (x : List ℕ)
        → let s = on_data (record c { data_read = x }) r in
          goes_on s.error ≡ true
          → IsLossless
              (elim c.from [ linux ↦ a ++ x | windows ↦ a ])
              (elim c.from [ linux ↦ b | windows ↦ b ++ x ])
              s
    go [] h = absurd (cc)
    go (x ∷ xs) h =
        let found = lines (buffer c.from r ++ (x ∷ xs)) in
        forwarded-IsLossless c.from found.0 found.1 (x ∷ xs) a b r _
          (lines-whole (buffer c.from r ++ (x ∷ xs))) k
          (forward_all-IsForwarded c.from c.accepts found.0 (with_buffer c.from found.1 r) h)

received-linux :
    (from : Endpoint) (x rest a : List ℕ)
    → (elim from [ linux ↦ a ++ x | windows ↦ a ]) ++ rest ≡ a ++ (read_by linux from x ++ rest)
received-linux linux x rest a = append_assoc a x rest
received-linux windows x rest a = refl

received-windows :
    (from : Endpoint) (x rest b : List ℕ)
    → (elim from [ linux ↦ b | windows ↦ b ++ x ]) ++ rest ≡ b ++ (read_by windows from x ++ rest)
received-windows linux x rest b = refl
received-windows windows x rest b = append_assoc b x rest

relay_all-IsLossless :
    (cs : List Chunk) (a b : List ℕ) (r : Relay)
    → IsLossless a b r
    → goes_on (relay cs r).error ≡ true
    → IsLossless (a ++ received linux cs) (b ++ received windows cs) (relay cs r)
unfolding relay received
relay_all-IsLossless [] a b r k h = rw (append-nil a, append-nil b) k
relay_all-IsLossless (c ∷ cs) a b r k h = elim (Bool-cases (goes_on (on_data c r).error)) [
  | inl t ↦
      let later : goes_on (relay cs (on_data c r)).error ≡ true = rw t at h in
      rw t (
        subst₂ (λ u v. IsLossless u v (relay cs (on_data c r)))
          (received-linux c.from c.data_read (received linux cs) a)
          (received-windows c.from c.data_read (received windows cs) b)
          (relay_all-IsLossless cs _ _ (on_data c r) (on_data-IsLossless c a b r k t) later))
  | inr f ↦ absurd (let bad : goes_on (on_data c r).error ≡ true = rw f at h in cc)
]

-- While the relay runs on, nothing is lost and nothing is made up, however the two streams come in:
-- what it has sent to each side, and what waits for the end of its line, is what it has received from
-- the other side, byte by byte; each line is counted as an input or is in the log, and so are the queries.
pub relay-IsLossless :
    (cs : List Chunk)
    → goes_on (relay cs new).error ≡ true
    → IsLossless (received linux cs) (received windows cs) (relay cs new)
unfolding new joined
relay-IsLossless cs h =
    relay_all-IsLossless cs [] [] new
      (record {
        from_linux = refl;
        from_windows = refl;
        noted_lines = refl;
        counted_queries = refl;
      })
      h
