-- ===== src/RunLab/Forwarding.antt =====
-- What the relay passes on.
use mathlib.Core.List.{append_assoc, append-nil}
use native.Mathlib.Nat.{add-zero}
use bazzite_k.Common.{
  arith, ℕ, suc, ◌+◌, ◌≡◌, inl, inr, true, none, List, [], ◌∷◌, ◌++◌, map, length, Bool-cases, ap,
  ◌∙◌, All,
}
use bazzite_k.Common.Bytes.{bytes, AreBytes}
use bazzite_k.Common.Hex.{hex, from_hex-hex}
use bazzite_k.ImuClock.{normalize}
use bazzite_k.ImuClock.Stream.{normalize_all}
use bazzite_k.RunLab.{
  Relay, Endpoint, linux, windows, is_input, counted, forward, forward_all, goes_on,
}

-- The line that the gateway prints for a report.
abbrev pub input_line : List ℕ → List ℕ
input_line report = bytes "I " ++ hex report

-- A report that the gateway has printed.
forward-report :
    (b : List ℕ) (r : Relay)
    → AreBytes b
    → forward linux (input_line b) r ≡ record r {
      count = r.count + 1;
      imu_clock = (normalize r.imu_clock b).0;
      to_windows = r.to_windows ++ (input_line (normalize r.imu_clock b).1 ∷ []);
    }
unfolding forward
forward-report b r h = rw (from_hex-hex b h)

forward_all-cons :
    (from : Endpoint) (line : List ℕ) (ls : List (List ℕ)) (r : Relay)
    → r.error ≡ none
    → forward_all from (line ∷ ls) r ≡ forward_all from ls (forward from line r)
unfolding forward_all
forward_all-cons from line ls r e = let go : goes_on r.error ≡ true = ap goes_on e in rw go

-- The reports of the controller, as the gateway prints them, come to the host in order and none is
-- lost: each as `ImuClock` sends it, and each is counted.
pub forward_all-reports :
    (bs : List (List ℕ)) (r : Relay)
    → All AreBytes bs
    → r.error ≡ none
    → let (clock, outs) = normalize_all r.imu_clock bs in
      forward_all linux (map input_line bs) r ≡ record r {
        count = r.count + length bs;
        imu_clock = clock;
        to_windows = r.to_windows ++ map input_line outs;
      }
unfolding forward_all normalize_all
forward_all-reports [] r h e = simp (append-nil, add-zero)
forward_all-reports (b ∷ bs) r h e =
    let n : r.count + 1 + length bs ≡ r.count + suc (length bs) = omega arith in
    forward_all-cons linux (input_line b) (map input_line bs) r e
    ∙ ap (forward_all linux (map input_line bs)) (forward-report b r h.0)
    ∙ forward_all-reports bs _ h.1 e
    ∙ rw (n, append_assoc r.to_windows)

-- The lines that begin with "I ".
abbrev pub inputs : List (List ℕ) → ℕ
inputs [] = 0
inputs (l ∷ ls) = counted l 0 + inputs ls

counted-add : (l : List ℕ) (n : ℕ) → counted l n ≡ n + counted l 0
counted-add l n = elim (Bool-cases (is_input l)) [
  | inl e ↦ rw e (omega arith)
  | inr e ↦ rw e (omega arith)
]

-- The lines of the broker go to the gateway unchanged and in order.
pub forward_all-windows :
    (ls : List (List ℕ)) (r : Relay)
    → r.error ≡ none
    → forward_all windows ls r
      ≡ record r { count = r.count + inputs ls; to_linux = r.to_linux ++ ls }
unfolding forward_all forward
forward_all-windows [] r e = simp (append-nil, add-zero)
forward_all-windows (l ∷ ls) r e =
    let n : counted l r.count + inputs ls ≡ r.count + (counted l 0 + inputs ls) =
      omega (arith, counted-add l r.count) in
    forward_all-cons windows l ls r e
    ∙ forward_all-windows ls (forward windows l r) e
    ∙ rw (n, append_assoc r.to_linux)

pub inputs-append : (ls ms : List (List ℕ)) → inputs (ls ++ ms) ≡ inputs ls + inputs ms
inputs-append [] ms = omega arith
inputs-append (l ∷ ls) ms = omega (arith, inputs-append ls ms)
