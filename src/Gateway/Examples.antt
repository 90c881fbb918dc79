-- ===== src/Gateway/Examples.antt =====
-- A short session, and the theorems at inputs that meet their hypotheses.
use bazzite_k.Common.{arith, ℕ, ◌≡◌, some, List, [], ◌∷◌, ◌++◌, refl, contains, false}
use bazzite_k.Common.Bytes.{bytes}
use bazzite_k.Common.Hex.{from_hex}
use bazzite_k.Common.Utf8.{decodes}
use bazzite_k.Common.Parse.{words, str_words, strip, parse_int}
use bazzite_k.Common.Lines.{lines}
use bazzite_k.Gateway.{
  Device, Gateway, Event, running, start, run, step, on_chunk, on_stdin, serve_line, serve_lines,
  perform, admit, may_get, may_set, may_output,
}
use bazzite_k.Gateway.Safety.{AllAllowed, run-AllAllowed}
use bazzite_k.Gateway.Chunks.{on_chunk-append}
use bazzite_k.Gateway.Replies.{AreReplies, serve_lines-replies}

-- A device that answers each request with two bytes.
abbrev echo : Device
echo n = some (7 ∷ n ∷ [])

abbrev identity : List ℕ
identity = bytes "HID_ID=0003:000028DE:00001304"

abbrev opened : Gateway
opened = record { pending = []; calls = []; printed = bytes "READY" ∷ []; status = running }

start-opened : start identity ≡ some opened
unfolding start
start-opened = refl

-- An output report of its own length, one that is too short, and an unknown operation.
abbrev requests : List ℕ
requests = bytes "Q 5 3 82000000\nQ 6 3 820000\nQ 7 9 00\nQ"

session :
    (run echo (Event.stdin requests ∷ []) opened).printed
    ≡ bytes "READY" ∷ bytes "R 5 0 -" ∷ bytes "R 6 -1 -" ∷ bytes "R 7 -1 -" ∷ []
unfolding run step on_chunk on_stdin serve_lines serve_line perform admit may_get may_set may_output
    words str_words decodes strip parse_int from_hex lines contains
session = refl

run-AllAllowed_example : AllAllowed (run echo (Event.stdin requests ∷ []) opened)
run-AllAllowed_example =
    run-AllAllowed echo (Event.stdin requests ∷ []) identity opened start-opened

on_chunk-append_example :
    on_chunk echo requests (on_chunk echo requests opened)
    ≡ on_chunk echo (requests ++ requests) opened
on_chunk-append_example = on_chunk-append echo requests requests opened (omega arith)

serve_lines-replies_example :
    (outs : List (List ℕ)) × AreReplies (bytes "Q 5 3 82000000" ∷ bytes "Q 6 3 820000" ∷ []) outs
    × ((serve_lines echo (bytes "Q 5 3 82000000" ∷ bytes "Q 6 3 820000" ∷ []) opened).printed
        ≡ opened.printed ++ outs)
unfolding serve_lines serve_line perform admit may_get may_set may_output words str_words decodes
    strip parse_int from_hex contains
serve_lines-replies_example =
    serve_lines-replies echo (bytes "Q 5 3 82000000" ∷ bytes "Q 6 3 820000" ∷ []) opened refl

-- A no-break space separates words, and a broken character does not decode.
wide_blank :
    str_words (b'Q' ∷ 0xc2 ∷ 0xa0 ∷ b'7' ∷ 0xe2 ∷ 0x80 ∷ 0x89 ∷ b'1' ∷ [])
    ≡ bytes "Q" ∷ bytes "7" ∷ bytes "1" ∷ []
unfolding str_words words
wide_blank = refl

broken : decodes (b'Q' ∷ 0xc2 ∷ b' ' ∷ []) ≡ false
unfolding decodes
broken = refl
