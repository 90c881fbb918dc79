-- ===== src/DiagnosticRelay/Logged.antt =====
-- What relay.py counts and what it logs, by the first two characters of a line.
use bazzite_k.Common.{
  zero, suc, ℕ, ◌+◌, ◌≡◌, refl, ap, sym, ◌∙◌, inl, inr, Bool, true, false, ◌&&◌, ◌==◌, List, [],
  ◌∷◌, ◌++◌, if◌then◌else◌, Bool-cases, arith,
}
use bazzite_k.Common.Utf8.{decodes}
use bazzite_k.Common.Lines.{lines}
use bazzite_k.DiagnosticRelay.{
  Endpoint, linux, windows, Relay, Chunk, plus_one, goes_on, noted, is_query, sent, is_input,
  forward_all, buffer, with_buffer, on_data, relay, new,
}

-- The line is this character, a blank, and anything else.
abbrev pub begins : ℕ → List ℕ → Bool
begins c [] = false
begins c (x ∷ []) = false
begins c (x ∷ y ∷ rest) = c == x && b' ' == y

abbrev pub number_of : ℕ → List (List ℕ) → ℕ
number_of c [] = 0
number_of c (l ∷ ls) = if begins c l then number_of c ls + 1 else number_of c ls

-- The lines that are no inputs.
abbrev pub others : List (List ℕ) → List (List ℕ)
others [] = []
others (l ∷ ls) = if begins b'I' l then others ls else l ∷ others ls

-- The third list has the lines of the first two, each list in its own order.
pub data Interleaved : List (List ℕ) → List (List ℕ) → List (List ℕ) → Type 0 where
  nothing : Interleaved [] [] []
  of_first :
      {xs ys zs : List (List ℕ)} (l : List ℕ)
      → Interleaved xs ys zs
      → Interleaved (xs ++ (l ∷ [])) ys (zs ++ (l ∷ []))
  of_second :
      {xs ys zs : List (List ℕ)} (l : List ℕ)
      → Interleaved xs ys zs
      → Interleaved xs (ys ++ (l ∷ [])) (zs ++ (l ∷ []))

-- Each line that was sent on is an input, and counted, or is in the log; and the queries there are counted.
pub record IsLogged (r : Relay) : Type 0 where
  pub inputs : r.inputs ≡ number_of b'I' r.to_windows + number_of b'I' r.to_linux
  pub log : Interleaved (others r.to_windows) (others r.to_linux) r.transactions
  pub queries : r.queries ≡ number_of b'Q' r.transactions

and_true : (b : Bool) → b && true ≡ b
and_true true = refl
and_true false = refl

false_and : (b : Bool) → b && false ≡ false
false_and true = refl
false_and false = refl

is_input-begins : (line : List ℕ) → is_input line ≡ begins b'I' line
is_input-begins [] = refl
is_input-begins (x ∷ []) = false_and (b'I' == x)
is_input-begins (x ∷ y ∷ rest) = ap (λ b. b'I' == x && b) (and_true (b' ' == y))

is_query-begins : (line : List ℕ) → is_query line ≡ begins b'Q' line
is_query-begins [] = refl
is_query-begins (x ∷ []) = false_and (b'Q' == x)
is_query-begins (x ∷ y ∷ rest) = ap (λ b. b'Q' == x && b) (and_true (b' ' == y))

number_of-snoc :
    (c : ℕ) (ls : List (List ℕ)) (l : List ℕ)
    → number_of c (ls ++ (l ∷ [])) ≡ plus_one (begins c l) (number_of c ls)
number_of-snoc c [] l = elim (Bool-cases (begins c l)) [ inl t ↦ rw t refl | inr f ↦ rw f refl ]
number_of-snoc c (k ∷ ls) l = elim (Bool-cases (begins c k)) [
  | inr f ↦ rw f (number_of-snoc c ls l)
  | inl t ↦ rw t (rw (number_of-snoc c ls l) (swap (begins c l) (number_of c ls)))
]
  where
    swap : (b : Bool) (n : ℕ) → plus_one b n + 1 ≡ plus_one b (n + 1)
    swap true n = refl
    swap false n = refl

others-input :
    (ls : List (List ℕ)) (l : List ℕ) → begins b'I' l ≡ true → others (ls ++ (l ∷ [])) ≡ others ls
others-input [] l t = rw t refl
others-input (k ∷ ls) l t = elim (Bool-cases (begins b'I' k)) [
  | inl h ↦ rw h (others-input ls l t)
  | inr f ↦ rw f (ap (λ r. k ∷ r) (others-input ls l t))
]

others-other :
    (ls : List (List ℕ)) (l : List ℕ)
    → begins b'I' l ≡ false
    → others (ls ++ (l ∷ [])) ≡ others ls ++ (l ∷ [])
others-other [] l f = rw f refl
others-other (k ∷ ls) l f = elim (Bool-cases (begins b'I' k)) [
  | inl h ↦ rw h (others-other ls l f)
  | inr g ↦ rw g (ap (λ r. k ∷ r) (others-other ls l f))
]

-- An input is counted and sent on.
input-IsLogged :
    (from : Endpoint) (line : List ℕ) (r : Relay)
    → begins b'I' line ≡ true
    → IsLogged r
    → IsLogged (sent from line (record r { inputs = r.inputs + 1 }))
input-IsLogged linux line r t k = record {
  inputs = rw (number_of-snoc b'I' r.to_windows line, t) (omega (arith, k.inputs));
  log = rw (others-input r.to_windows line t) k.log;
  queries = k.queries;
}
input-IsLogged windows line r t k = record {
  inputs = rw (number_of-snoc b'I' r.to_linux line, t) (omega (arith, k.inputs));
  log = rw (others-input r.to_linux line t) k.log;
  queries = k.queries;
}

abbrev logged : List ℕ → Relay → Relay
logged line r = record r {
  transactions = r.transactions ++ (line ∷ []);
  queries = plus_one (is_query line) r.queries;
}

logged-queries :
    (line : List ℕ) (r : Relay)
    → IsLogged r
    → plus_one (is_query line) r.queries ≡ number_of b'Q' (r.transactions ++ (line ∷ []))
logged-queries line r k =
    rw (is_query-begins line, k.queries) (sym (number_of-snoc b'Q' r.transactions line))

-- Any other line is logged and sent on.
other-IsLogged :
    (from : Endpoint) (line : List ℕ) (r : Relay)
    → begins b'I' line ≡ false
    → IsLogged r
    → IsLogged (sent from line (logged line r))
other-IsLogged linux line r f k = record {
  inputs = rw (number_of-snoc b'I' r.to_windows line, f) k.inputs;
  log = rw (others-other r.to_windows line f) (Interleaved.of_first line k.log);
  queries = logged-queries line r k;
}
other-IsLogged windows line r f k = record {
  inputs = rw (number_of-snoc b'I' r.to_linux line, f) k.inputs;
  log = rw (others-other r.to_linux line f) (Interleaved.of_second line k.log);
  queries = logged-queries line r k;
}

line-IsLogged :
    (from : Endpoint) (line : List ℕ) (r : Relay)
    → goes_on (noted line r).error ≡ true
    → IsLogged r
    → IsLogged (sent from line (noted line r))
line-IsLogged from line r h k = elim (Bool-cases (is_input line)) [
  | inl t ↦ rw t (input-IsLogged from line r (sym (is_input-begins line) ∙ t) k)
  | inr f ↦ elim (Bool-cases (decodes line)) [
    | inl t ↦ rw (f, t) (other-IsLogged from line r (sym (is_input-begins line) ∙ f) k)
    | inr g ↦ absurd (let bad : false ≡ true = rw (f, g) at h in cc)
  ]
]

pub forward_all-IsLogged :
    (from : Endpoint) (n : ℕ) (ls : List (List ℕ)) (r : Relay)
    → goes_on (forward_all from n ls r).error ≡ true
    → IsLogged r
    → IsLogged (forward_all from n ls r)
unfolding forward_all
forward_all-IsLogged from n [] r h k = k
forward_all-IsLogged from zero (line ∷ ls) r h k =
    elim (Bool-cases (goes_on (noted line r).error)) [
      | inl t ↦ absurd (let bad : false ≡ true = rw t at h in cc)
      | inr f ↦ absurd (let bad : goes_on (noted line r).error ≡ true = rw f at h in cc)
    ]
forward_all-IsLogged from (suc n) (line ∷ ls) r h k =
    elim (Bool-cases (goes_on (noted line r).error)) [
      | inl t ↦
          let later : goes_on (forward_all from n ls (sent from line (noted line r))).error ≡ true =
            rw t at h in
          rw t (
            forward_all-IsLogged from n ls (sent from line (noted line r)) later
              (line-IsLogged from line r t k))
      | inr f ↦ absurd (let bad : goes_on (noted line r).error ≡ true = rw f at h in cc)
    ]

with_buffer-IsLogged :
    (from : Endpoint) (b : List ℕ) (r : Relay) → IsLogged r → IsLogged (with_buffer from b r)
with_buffer-IsLogged linux b r k = record { inputs = k.inputs; log = k.log; queries = k.queries }
with_buffer-IsLogged windows b r k = record { inputs = k.inputs; log = k.log; queries = k.queries }

on_data-IsLogged :
    (c : Chunk) (r : Relay)
    → goes_on (on_data c r).error ≡ true
    → IsLogged r
    → IsLogged (on_data c r)
unfolding on_data
on_data-IsLogged c r h k = go c.data_read h
  where
    go :
        (x : List ℕ)
        → let s = on_data (record c { data_read = x }) r in goes_on s.error ≡ true → IsLogged s
    go [] h = absurd (cc)
    go (x ∷ xs) h =
        let found = lines (buffer c.from r ++ (x ∷ xs)) in
        forward_all-IsLogged c.from c.accepts found.0 (with_buffer c.from found.1 r) h
          (with_buffer-IsLogged c.from found.1 r k)

relay_all-IsLogged :
    (cs : List Chunk) (r : Relay)
    → goes_on (relay cs r).error ≡ true
    → IsLogged r
    → IsLogged (relay cs r)
unfolding relay
relay_all-IsLogged [] r h k = k
relay_all-IsLogged (c ∷ cs) r h k = elim (Bool-cases (goes_on (on_data c r).error)) [
  | inl t ↦
      let later : goes_on (relay cs (on_data c r)).error ≡ true = rw t at h in
      rw t (relay_all-IsLogged cs (on_data c r) later (on_data-IsLogged c r t k))
  | inr f ↦ absurd (let bad : goes_on (on_data c r).error ≡ true = rw f at h in cc)
]

-- While the relay runs on, each line that it has sent on is an input, and counted, or is in the log.
pub relay-IsLogged :
    (cs : List Chunk) → goes_on (relay cs new).error ≡ true → IsLogged (relay cs new)
unfolding new
relay-IsLogged cs h =
    relay_all-IsLogged cs new h
      (record { inputs = refl; log = Interleaved.nothing; queries = refl })
