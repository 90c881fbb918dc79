-- ===== src/Gateway.antt =====
-- experimental/steam-controller/windows-native/gateway.py: the endpoint at the controller, which
-- forwards its reports and runs the requests that come over stdin. Of `int`, the
-- digits of other scripts are left out. The device answers by a function from the number of requests before.
pub mod Safety
pub mod Chunks
pub mod Replies
mod Examples
use bazzite_k.Common.{
  ℕ, Bool, true, false, ◌&&◌, ◌||◌, Option, none, some, List, [], ◌∷◌, ◌++◌, String, ◌==◌, leb, ltb,
  if◌then◌else◌, Result, ok, err, length, get_or, contains, codes_eq, has_infix,
}
use bazzite_k.Common.Bytes.{bytes}
use bazzite_k.Common.Hex.{hex, from_hex, is_space}
use bazzite_k.Common.Int.{ℤ, int_eq}
use bazzite_k.Common.Lines.{lines}
use bazzite_k.Common.Utf8.{decodes}
use bazzite_k.Common.Parse.{str_words, strip, parse_int}

-- What is done to the open hidraw device.
pub data Request : Type 0 where
  get_feature : List ℕ → Request  -- ioctl 0xc0404807
  set_feature : List ℕ → Request  -- ioctl 0xc0404806
  output : List ℕ → Request  -- write

-- None is OSError; a get gives the buffer that the device has filled.
abbrev pub Device : Type 0
Device = ℕ → Option (List ℕ)

abbrev pub allowed : List ℕ
allowed =
    0x81 ∷ 0x82 ∷ 0x83 ∷ 0x84 ∷ 0x85 ∷ 0x87 ∷ 0x89 ∷ 0x8a ∷ 0x8b ∷ 0x8c ∷ 0x8f ∷ 0xa1 ∷ 0xaa ∷ 0xab
    ∷ 0xae ∷ 0xba ∷ 0xc4 ∷ 0xed ∷ 0xf2 ∷ 0xc1 ∷ 0xe2 ∷ []

abbrev pub input_kinds : List ℕ
input_kinds = 0x42 ∷ 0x43 ∷ 0x44 ∷ 0x45 ∷ 0x79 ∷ 0x7b ∷ []

-- The dict `lengths`.
abbrev pub output_length : ℕ → Option ℕ
output_length kind =
    if kind == 0x80
    then some 10
    else if kind == 0x81
    then some 8
    else if kind == 0x82
    then some 4
    else if kind == 0x83
    then some 10
    else if kind == 0x84
    then some 9
    else if kind == 0x85
    then some 4
    else none

-- `b[i]`, where the length has been tested before
abbrev pub byte_at : List ℕ → ℕ → ℕ
byte_at b i = get_or b i 0

unfoldable pub may_get : List ℕ → Bool
may_get b = length b == 64 && contains (1 ∷ 2 ∷ []) (byte_at b 0)

unfoldable pub may_set : List ℕ → Bool
may_set b =
    length b == 64
    && ((byte_at b 0 == 1 && contains allowed (byte_at b 1) && leb (byte_at b 2) 61)
        || (byte_at b 0 == 2
            && ((contains (0xa3 ∷ 0xb4 ∷ 0x83 ∷ []) (byte_at b 1) && byte_at b 2 == 0)
                || (byte_at b 1 == 0xf3 && leb (byte_at b 2) 1))))

unfoldable pub may_output : List ℕ → Bool
may_output [] = false
may_output (kind ∷ rest) = elim (output_length kind) [
  | none ↦ false
  | some n ↦ contains (n ∷ 64 ∷ []) (length (kind ∷ rest))
]

-- The branches on `op`; an error is the text of a ValueError.
unfoldable pub admit : ℤ → List ℕ → Result Request
admit op b =
    if int_eq op 1
    then (if may_get b then ok (get_feature b) else err "bad get")
    else if int_eq op 2
    then (if may_set b then ok (set_feature b) else err "blocked feature")
    else if int_eq op 3
    then (if may_output b then ok (output b) else err "bad output")
    else err "blocked operation"

pub data Status : Type 0 where
  running : Status
  exited : Status
  raised : String → Status

pub record Gateway : Type 0 where
  pub pending : List ℕ
  pub calls : List Request  -- all that was done to the device
  pub printed : List (List ℕ)  -- the lines on stdout
  pub status : Status

-- `'R '+seq+' 0 '+(b.hex() if op==1 else '-')`, and the line of the handler
abbrev reply : List ℕ → Option (List ℕ) → List ℕ
reply seq none = bytes "R " ++ (seq ++ bytes " -1 -")
reply seq (some text) = bytes "R " ++ (seq ++ (bytes " 0 " ++ text))

abbrev answer_text : Request → Option (List ℕ) → Option (List ℕ)
answer_text r none = none
answer_text (get_feature b) (some buffer) = some (hex buffer)
answer_text (set_feature b) (some buffer) = some (bytes "-")
answer_text (output b) (some buffer) = some (bytes "-")

-- The `try` on one request.
unfoldable pub perform : Device → List ℕ → Result Request → Gateway → Gateway
perform dev seq (err e) g = record g { printed = g.printed ++ (reply seq none ∷ []) }
perform dev seq (ok r) g = record g {
  calls = g.calls ++ (r ∷ []);
  printed = g.printed ++ (reply seq (answer_text r (dev (length g.calls))) ∷ []);
}

abbrev fail : String → Gateway → Gateway
fail e g = record g { status = raised e }

abbrev parsed : Device → List ℕ → Option ℤ → Option (List ℕ) → Gateway → Gateway
parsed dev seq none b g = fail "invalid literal for int()" g
parsed dev seq (some op) none g = fail "non-hexadecimal number found in fromhex() arg" g
parsed dev seq (some op) (some b) g = perform dev seq (admit op b) g

-- `_,seq,op,hexdata=line.decode().split()`
abbrev unpacked : Device → List (List ℕ) → Gateway → Gateway
unpacked dev (q ∷ seq ∷ op ∷ hexdata ∷ []) g = parsed dev seq (parse_int op) (from_hex hexdata) g
unpacked dev _ g = fail "not enough or too many values to unpack" g

unfoldable pub serve_line : Device → List ℕ → Gateway → Gateway
unfolding perform
serve_line dev line g =
    if codes_eq (strip is_space line) (bytes "X")
    then record g { status = exited }
    else if decodes line
    then unpacked dev (str_words line) g
    else fail "UnicodeDecodeError" g

abbrev is_running : Status → Bool
is_running running = true
is_running _ = false

-- `while b'\n' in pending`, which an exit and an exception end.
unfoldable pub serve_lines : Device → List (List ℕ) → Gateway → Gateway
unfolding serve_line
serve_lines dev [] g = g
serve_lines dev (line ∷ rest) g =
    let next = serve_lines dev rest (serve_line dev line g) in
    if is_running g.status then next else g

unfoldable pub on_chunk : Device → List ℕ → Gateway → Gateway
unfolding serve_lines
on_chunk dev chunk g =
    let pending = g.pending ++ chunk in
    if ltb 65536 (length pending)
    then fail "control input too large" (record g { pending = pending })
    else serve_lines dev (lines pending).0 (record g { pending = (lines pending).1 })

-- `chunk=os.read(…)`, which is empty at the end of the input.
unfoldable pub on_stdin : Device → List ℕ → Gateway → Gateway
unfolding on_chunk
on_stdin dev [] g = record g { status = exited }
on_stdin dev (c ∷ cs) g = on_chunk dev (c ∷ cs) g

-- `b=os.read(fd,64)`
unfoldable pub on_report : List ℕ → Gateway → Gateway
on_report [] g = g
on_report (kind ∷ rest) g =
    if contains input_kinds kind
    then record g { printed = g.printed ++ ((bytes "I " ++ hex (kind ∷ rest)) ∷ []) }
    else g

-- The endpoint is opened only for the puck's identity.
unfoldable pub start : List ℕ → Option Gateway
start identity =
    if has_infix (bytes "HID_ID=0003:000028DE:00001304") identity
    then some (record { pending = []; calls = []; printed = bytes "READY" ∷ []; status = running })
    else none

pub data Event : Type 0 where
  report : List ℕ → Event
  stdin : List ℕ → Event

unfoldable pub step : Device → Event → Gateway → Gateway
unfolding on_report on_stdin
step dev (report b) g = on_report b g
step dev (stdin chunk) g = on_stdin dev chunk g

-- `while True`: the events that `select` returns, in order.
unfoldable pub run : Device → List Event → Gateway → Gateway
unfolding step
run dev [] g = g
run dev (e ∷ es) g = let next = run dev es (step dev e g) in if is_running g.status then next else g
