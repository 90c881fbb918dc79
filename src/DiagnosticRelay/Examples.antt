-- ===== src/DiagnosticRelay/Examples.antt =====
-- A run of relay.py.
use bazzite_k.Common.{Option, some, none, true, ◌≡◌, refl, none, List, [], ◌∷◌, ℕ}
use bazzite_k.Common.Processes.{Goodbye}
use bazzite_k.Common.Bytes.{bytes}
use bazzite_k.Common.Lines.{lines}
use bazzite_k.Common.Utf8.{decodes}
use bazzite_k.DiagnosticRelay.Replay
use bazzite_k.DiagnosticRelay.Replay.{replay, on_chunk, on_lines, on_line, byte_words, fnv}
use bazzite_k.DiagnosticRelay.Answers.{IsServed, read_in, replay-IsServed}
use bazzite_k.DiagnosticRelay.{
  tried, Chunk, linux, windows, relay, new, goes_on, on_data, forward_all, main, Result,
}
use bazzite_k.DiagnosticRelay.Logged.{IsLogged}
use bazzite_k.DiagnosticRelay.Lossless.{IsLossless, received}
use bazzite_k.DiagnosticRelay.Counted.{IsRaised, IsCount, main-IsClosed}
use bazzite_k.Common.{false, ◌⊎◌}
use bazzite_k.Common.Processes.{is_running}
use bazzite_k.DiagnosticRelay.{Processes}

abbrev session : List Chunk
session =
    record { from = linux; data_read = bytes "I 42"; accepts = 9 }
    ∷ record { from = windows; data_read = bytes "Q 1 G 02\n"; accepts = 9 }
    ∷ record { from = linux; data_read = bytes "00\nR 1 0 0200\nI"; accepts = 9 }
    ∷ []

session-goes_on : goes_on (relay session new).error ≡ true
unfolding relay new on_data forward_all lines decodes
session-goes_on = refl

abbrev quick : Goodbye
quick = record { accepts = true; ends = true }

session-main : (main (bytes "READY\n") none session quick quick).0 ≡ Result.printed 1 1
unfolding main tried relay new on_data forward_all lines decodes
session-main = refl

abbrev stuck : Goodbye
stuck = record { accepts = true; ends = false }

abbrev done : Result × Processes
done = main (bytes "READY\n") none session quick stuck

main-IsClosed_example :
    (is_running done.1.probe ≡ false)
    × (is_running done.1.windows ≡ false)
    × (is_running done.1.linux ≡ false)
    × (IsRaised done.0
        ⊎ IsCount (relay session new) done.0
          × IsLossless (received linux session) (received windows session) (relay session new)
          × IsLogged (relay session new))
main-IsClosed_example = main-IsClosed (bytes "READY\n") none session quick stuck

abbrev turns : List (Option (List ℕ))
turns = none ∷ some (bytes "READY\nQ 1 3") ∷ none ∷ some (bytes " 82\nQ 2") ∷ []

turns-goes_on : Replay.goes_on (replay turns Replay.new).error ≡ true
unfolding replay Replay.new on_chunk on_lines on_line byte_words lines decodes
turns-goes_on = refl

turns-answers : (replay turns Replay.new).answers ≡ bytes "R 1 -1 -" ∷ []
unfolding replay Replay.new on_chunk on_lines on_line byte_words lines decodes
turns-answers = refl

-- The published value of FNV-1a for the text `a`.
fnv-a : fnv 14695981039346656037 (bytes "a") ≡ 0xaf63dc4c8601ec8c
unfolding fnv
fnv-a = refl

replay-IsServed_example : IsServed (read_in turns) (replay turns Replay.new)
replay-IsServed_example = replay-IsServed turns turns-goes_on
