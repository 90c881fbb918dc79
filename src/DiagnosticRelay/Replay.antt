-- ===== src/DiagnosticRelay/Replay.antt =====
-- experimental/steam-controller/windows-native/replay_test.py: one recorded report, sent again and again
-- to the broker, whose requests are all refused, and the hash that the probe has to print.
use Prim.Native.Nat.{bit_xor}
use bazzite_k.Common.{
  zero, suc, ℕ, ◌+◌, ◌*◌, ◌/◌, ◌%◌, ◌^◌, Bool, true, false, ◌&&◌, ◌==◌, Option, none, some, List,
  [], ◌∷◌, ◌++◌, String, if◌then◌else◌, codes_eq, has_infix, length,
}
use bazzite_k.Common.Bytes.{bytes}
use bazzite_k.Common.Hex.{hex, is_space}
use bazzite_k.Common.Lines.{lines}
use bazzite_k.Common.Utf8.{decodes}

-- `assert len(raw)==54 and raw[0]==0x42`
unfoldable pub valid_report : List ℕ → Bool
valid_report [] = false
valid_report (x ∷ xs) = length (x ∷ xs) == 54 && x == 0x42

abbrev start_word : ℕ → Bool → List (List ℕ) → List (List ℕ)
start_word c true ws = (c ∷ []) ∷ ws
start_word c false [] = (c ∷ []) ∷ []
start_word c false (w ∷ ws) = (c ∷ w) ∷ ws

abbrev begins_space : List ℕ → Bool
begins_space [] = true
begins_space (c ∷ cs) = is_space c

-- `line.split()` of bytes
unfoldable pub byte_words : List ℕ → List (List ℕ)
byte_words [] = []
byte_words (c ∷ cs) =
    let rest = byte_words cs in if is_space c then rest else start_word c (begins_space cs) rest

pub record Replay : Type 0 where
  pub buf : List ℕ
  pub inputs : ℕ  -- how often the report was sent
  pub answers : List (List ℕ)  -- sent to the broker, without their newlines
  pub trace : List (List ℕ)
  pub error : Option String

unfoldable pub new : Replay
new = record { buf = []; inputs = 0; answers = []; trace = []; error = none }

abbrev pub refusal : List ℕ → List ℕ
refusal seq = bytes "R " ++ (seq ++ bytes " -1 -")

abbrev pub answered : List (List ℕ) → Replay → Replay
answered [] r = record r { error = some "IndexError" }
answered (q ∷ []) r = if codes_eq q (bytes "Q") then record r { error = some "IndexError" } else r
answered (q ∷ seq ∷ rest) r =
    if codes_eq q (bytes "Q") then record r { answers = r.answers ++ (refusal seq ∷ []) } else r

unfoldable pub on_line : List ℕ → Replay → Replay
on_line line r =
    if decodes line
    then answered (byte_words line) (record r { trace = r.trace ++ (line ∷ []) })
    else record r { error = some "UnicodeDecodeError" }

abbrev pub goes_on : Option String → Bool
goes_on none = true
goes_on (some e) = false

unfoldable pub on_lines : List (List ℕ) → Replay → Replay
on_lines [] r = r
on_lines (line ∷ rest) r =
    let r' = on_line line r in let next = on_lines rest r' in if goes_on r'.error then next else r'

unfoldable pub on_chunk : List ℕ → Replay → Replay
on_chunk [] r = record r { error = some "broker exited" }
on_chunk (c ∷ cs) r =
    let pending = r.buf ++ (c ∷ cs) in
    on_lines (lines pending).0 (record r { buf = (lines pending).1 })

abbrev pub on_turn : Option (List ℕ) → Replay → Replay
on_turn none r = record r { inputs = r.inputs + 1 }
on_turn (some chunk) r = on_chunk chunk (record r { inputs = r.inputs + 1 })

-- A turn of the loop sends the report, and reads what has come in four milliseconds, if anything has.
unfoldable pub replay : List (Option (List ℕ)) → Replay → Replay
replay [] r = r
replay (t ∷ ts) r =
    let r' = on_turn t r in let next = replay ts r' in if goes_on r'.error then next else r'

-- FNV-1a in 64 bits.
unfoldable pub fnv : ℕ → List ℕ → ℕ
fnv h [] = h
fnv h (x ∷ xs) = fnv (bit_xor h x * 1099511628211 % 2 ^ 64) xs

abbrev pub repeated : ℕ → List ℕ → List ℕ
repeated zero xs = []
repeated (suc n) xs = xs ++ repeated n xs

-- `'%016x'%h`, for a number of 64 bits
abbrev pub sixteen_digits : ℕ → List ℕ
sixteen_digits h = hex (
    h / 256 ^ 7 % 256
    ∷ h / 256 ^ 6 % 256
    ∷ h / 256 ^ 5 % 256
    ∷ h / 256 ^ 4 % 256
    ∷ h / 256 ^ 3 % 256
    ∷ h / 256 ^ 2 % 256
    ∷ h / 256 % 256
    ∷ h % 256
    ∷ [])

abbrev pub expected : List ℕ → List ℕ
expected raw = bytes "fnv=" ++ sixteen_digits (fnv 14695981039346656037 (repeated 20 raw))

-- Whether the test passes: the code of the probe, and what it has printed.
unfoldable pub passes : List ℕ → ℕ → List ℕ → Bool
passes raw returncode out = returncode == 0 && has_infix (expected raw) out
