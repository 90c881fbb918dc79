-- ===== src/RunLab/Examples.antt =====
-- A short relay, and the theorems at inputs that meet their hypotheses.
use bazzite_k.Common.{
  contains, some, true, false, arith, ℕ, ◌+◌, ◌≡◌, List, [], ◌∷◌, ◌++◌, map, refl,
}
use bazzite_k.Common.Bytes.{bytes}
use bazzite_k.Common.Hex.{hex, from_hex}
use bazzite_k.Common.Lines.{lines}
use bazzite_k.Common.Processes.{is_running, Goodbye}
use bazzite_k.RunLab.Session.{run_lab, tried, valid_broker}
use bazzite_k.RunLab.Ended.{IsPlainOrNone, run_lab-IsPlain}
use bazzite_k.ImuClock.{normalize, is_timed}
use bazzite_k.ImuClock.Stream.{normalize_all}
use bazzite_k.RunLab.{linux, windows, new, forward, forward_all, on_data, relay}
use bazzite_k.RunLab.Forwarding.{input_line, forward_all-reports}
use bazzite_k.RunLab.Stream.{passed, from_windows, joined, relay-windows}

-- A report with no time passes through; the broker's lines come in two pieces.
a_relay :
    let r =
      relay
        ((linux, bytes "READY\nI 43ff\n")
          ∷ (windows, bytes "Q 1 3")
          ∷ (windows, bytes " 82\nQ")
          ∷ [])
        new in
    (r.to_windows ≡ bytes "READY" ∷ bytes "I 43ff" ∷ [])
    × (r.to_linux ≡ bytes "Q 1 3 82" ∷ [])
    × (r.windows_buffer ≡ bytes "Q")
    × (r.count ≡ 1)
unfolding relay on_data forward_all forward new lines hex from_hex normalize is_timed
a_relay = (refl, refl, refl, refl)

abbrev reports : List (List ℕ)
reports = (0x43 ∷ 255 ∷ []) ∷ (0x42 ∷ []) ∷ []

forward_all-reports_example :
    let (clock, outs) = normalize_all new.imu_clock reports in
    forward_all linux (map input_line reports) new ≡ record new {
      count = new.count + 2;
      imu_clock = clock;
      to_windows = new.to_windows ++ map input_line outs;
    }
unfolding new
forward_all-reports_example = forward_all-reports reports new (omega arith) refl

abbrev pieces : List (ℕ × List ℕ)
pieces = (b'Q', bytes " 1") ∷ (b' ', bytes "3\nQ") ∷ []

relay-windows_example :
    relay (from_windows pieces) new ≡ passed (lines (new.windows_buffer ++ joined pieces)) new
unfolding new lines
relay-windows_example = relay-windows pieces new refl refl (omega arith)

abbrev lost : Goodbye
lost = record { accepts = false; ends = true }

abbrev slow : Goodbye
slow = record { accepts = true; ends = false }

abbrev broker : List ℕ
broker = bytes "C:/tools/broker.exe"

lab-started : (run_lab (bytes "READY\n") broker true false [] slow lost).started ≡ some broker
unfolding run_lab tried valid_broker contains
lab-started = refl

run_lab-IsPlain_example :
    let s = run_lab (bytes "READY\n") broker true false [] slow lost in
    (is_running s.windows ≡ false) × (is_running s.linux ≡ false) × IsPlainOrNone s.started
run_lab-IsPlain_example = run_lab-IsPlain (bytes "READY\n") broker true false [] slow lost
