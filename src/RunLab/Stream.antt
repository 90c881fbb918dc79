-- ===== src/RunLab/Stream.antt =====
-- What the gateway gets of the broker's output, however the pipe cuts it.
use mathlib.Core.List.{append_assoc, append-nil}
use native.Mathlib.Nat.{add-zero}
use bazzite_k.Common.{
  arith, ℕ, ◌+◌, ◌≤◌, ◌≡◌, true, false, none, List, [], ◌∷◌, ◌++◌, length, length-append, sym, ap,
  ◌∙◌, ltb,
}
use bazzite_k.Common.Lines.{Lines, lines, more, lines-append, lines-rest_le, lines-rest}
use bazzite_k.RunLab.{Relay, Endpoint, windows, on_data, relay, goes_on}
use bazzite_k.RunLab.Forwarding.{inputs, forward_all-windows, inputs-append}

-- The relay after these lines of the broker, with these bytes pending.
abbrev pub passed : Lines → Relay → Relay
passed (ls, rest) r = record r {
  windows_buffer = rest;
  count = r.count + inputs ls;
  to_linux = r.to_linux ++ ls;
}

on_data-windows :
    (c : ℕ) (cs : List ℕ) (r : Relay)
    → r.error ≡ none
    → length (r.windows_buffer ++ (c ∷ cs)) ≤ 131072
    → on_data windows (c ∷ cs) r ≡ passed (lines (r.windows_buffer ++ (c ∷ cs))) r
unfolding on_data
on_data-windows c cs r e h =
    let fits : ltb 131072 (length (r.windows_buffer ++ (c ∷ cs))) ≡ false = ground arith in
    rw fits (forward_all-windows _ _ e)

abbrev pub from_windows : List (ℕ × List ℕ) → List (Endpoint × List ℕ)
from_windows [] = []
from_windows ((c, cs) ∷ chunks) = (windows, c ∷ cs) ∷ from_windows chunks

abbrev pub joined : List (ℕ × List ℕ) → List ℕ
joined [] = []
joined ((c, cs) ∷ chunks) = (c ∷ cs) ++ joined chunks

passed-more :
    (found : Lines) (chunk : List ℕ) (r : Relay)
    → passed (lines (found.1 ++ chunk)) (passed found r) ≡ passed (more found chunk) r
passed-more (ls, rest) chunk r =
    let ms : List (List ℕ) = (lines (rest ++ chunk)).0 in
    let n : r.count + inputs ls + inputs ms ≡ r.count + inputs (ls ++ ms) =
      omega (arith, inputs-append ls ms) in
    rw (n, append_assoc r.to_linux)

relay-cons :
    (c : ℕ) (cs : List ℕ) (rest : List (Endpoint × List ℕ)) (r : Relay)
    → r.error ≡ none
    → relay ((windows, c ∷ cs) ∷ rest) r ≡ relay rest (on_data windows (c ∷ cs) r)
unfolding relay
relay-cons c cs rest r e = let go : goes_on r.error ≡ true = ap goes_on e in rw go

-- The broker's output, in chunks that are not empty and fit in the buffer together, reaches the
-- gateway as the lines of the whole, and what follows the last newline waits.
pub relay-windows :
    (chunks : List (ℕ × List ℕ)) (r : Relay)
    → r.error ≡ none
    → lines r.windows_buffer ≡ ([], r.windows_buffer)
    → length (r.windows_buffer ++ joined chunks) ≤ 131072
    → relay (from_windows chunks) r ≡ passed (lines (r.windows_buffer ++ joined chunks)) r
unfolding relay
relay-windows [] r e whole h = rw (append-nil, whole) (simp (append-nil, add-zero))
relay-windows ((c, cs) ∷ chunks) r e whole h =
    let read : List ℕ = r.windows_buffer ++ (c ∷ cs) in
    let total = length-append read (joined chunks) in
    let same = append_assoc r.windows_buffer (c ∷ cs) (joined chunks) in
    let all : length (read ++ joined chunks) ≤ 131072 = rw same h in
    let fits : length read ≤ 131072 = omega (arith, total, all) in
    let later : length ((lines read).1 ++ joined chunks) ≤ 131072 =
      omega (arith, total, all, lines-rest_le read, length-append (lines read).1 (joined chunks)) in
    relay-cons c cs (from_windows chunks) r e
    ∙ ap (relay (from_windows chunks)) (on_data-windows c cs r e fits)
    ∙ relay-windows chunks (passed (lines read) r) e (lines-rest read) later
    ∙ passed-more (lines read) (joined chunks) r
    ∙ ap (λ found. passed found r) (sym (lines-append read (joined chunks)) ∙ ap lines same)
