-- ===== src/Gateway/Replies.antt =====
-- Each line on stdin is answered once, under the number that it carries.
use mathlib.Core.List.{append_assoc, append-nil}
use bazzite_k.Common.{
  ℕ, ◌≡◌, inl, inr, true, false, Option, none, some, List, [], ◌∷◌, ◌++◌, Result, ok, err,
  Bool-cases, refl, sym, ap, ◌∙◌, codes_eq,
}
use bazzite_k.Common.Int.{ℤ}
use bazzite_k.Common.Hex.{from_hex, is_space}
use bazzite_k.Common.Parse.{str_words, strip, parse_int}
use bazzite_k.Common.Utf8.{decodes}
use bazzite_k.Common.Bytes.{bytes}
use bazzite_k.Gateway.{
  Request, Device, Gateway, admit, perform, parsed, unpacked, serve_line, serve_lines, is_running,
  reply,
}

-- A reply to the request of a line: the line has four words, and the second one comes back.
abbrev pub IsReply : List (List ℕ) → List ℕ → Type 0
IsReply (q ∷ seq ∷ op ∷ hexdata ∷ []) out = (text : Option (List ℕ)) × (out ≡ reply seq text)
IsReply _ out = ⊥

abbrev pub AreReplies : List (List ℕ) → List (List ℕ) → Type 0
AreReplies [] [] = Unit
AreReplies (line ∷ ls) (out ∷ outs) = IsReply (str_words line) out × AreReplies ls outs
AreReplies _ _ = ⊥

perform-reply :
    (dev : Device) (seq : List ℕ) (r : Result Request) (g : Gateway)
    → (text : Option (List ℕ)) × ((perform dev seq r g).printed
        ≡ g.printed ++ (reply seq text ∷ []))
unfolding perform
perform-reply dev seq (err e) g = (none, refl)
perform-reply dev seq (ok r) g = (_, refl)

parsed-reply :
    (dev : Device) (seq : List ℕ) (op : Option ℤ) (b : Option (List ℕ)) (g : Gateway)
    → is_running (parsed dev seq op b g).status ≡ true
    → (out : List ℕ) × ((text : Option (List ℕ)) × (out ≡ reply seq text))
      × ((parsed dev seq op b g).printed ≡ g.printed ++ (out ∷ []))
parsed-reply dev seq none b g h = cc
parsed-reply dev seq (some op) none g h = cc
parsed-reply dev seq (some op) (some b) g h =
    let (text, p) = perform-reply dev seq (admit op b) g in (reply seq text, (text, refl), p)

unpacked-IsReply :
    (dev : Device) (ws : List (List ℕ)) (g : Gateway)
    → is_running (unpacked dev ws g).status ≡ true
    → (out : List ℕ) × IsReply ws out × ((unpacked dev ws g).printed ≡ g.printed ++ (out ∷ []))
unpacked-IsReply dev [] g h = cc
unpacked-IsReply dev (q ∷ []) g h = cc
unpacked-IsReply dev (q ∷ s ∷ []) g h = cc
unpacked-IsReply dev (q ∷ s ∷ o ∷ []) g h = cc
unpacked-IsReply dev (q ∷ s ∷ o ∷ d ∷ x ∷ ws) g h = cc
unpacked-IsReply dev (q ∷ s ∷ o ∷ d ∷ []) g h = parsed-reply dev s (parse_int o) (from_hex d) g h

serve_line-IsReply :
    (dev : Device) (line : List ℕ) (g : Gateway)
    → is_running (serve_line dev line g).status ≡ true
    → (out : List ℕ) × IsReply (str_words line) out
      × ((serve_line dev line g).printed ≡ g.printed ++ (out ∷ []))
unfolding serve_line
serve_line-IsReply dev line g h = elim (Bool-cases (codes_eq (strip is_space line) (bytes "X"))) [
  | inl e ↦ absurd (let x : false ≡ true = rw e at h in cc)
  | inr e ↦ elim (Bool-cases (decodes line)) [
    | inl t ↦ rw (e, t) (unpacked-IsReply dev (str_words line) g (rw (e, t) at h))
    | inr f ↦ absurd (let bad : false ≡ true = rw (e, f) at h in cc)
  ]
]

stopped :
    (dev : Device) (ls : List (List ℕ)) (g : Gateway)
    → is_running (serve_lines dev ls g).status ≡ true
    → is_running g.status ≡ true
unfolding serve_lines
stopped dev [] g h = h
stopped dev (l ∷ ls) g h = elim (Bool-cases (is_running g.status)) [ inl e ↦ e | inr e ↦ rw e at h ]

-- While the gateway runs on, every line that it has served is answered by one line on stdout, in
-- order, and under the number that the line carries.
pub serve_lines-replies :
    (dev : Device) (ls : List (List ℕ)) (g : Gateway)
    → is_running (serve_lines dev ls g).status ≡ true
    → (outs : List (List ℕ)) × AreReplies ls outs
      × ((serve_lines dev ls g).printed ≡ g.printed ++ outs)
unfolding serve_lines
serve_lines-replies dev [] g h = ([], tt, sym (append-nil g.printed))
serve_lines-replies dev (l ∷ ls) g h = elim (Bool-cases (is_running g.status)) [
  | inl e ↦
      let h' : is_running (serve_lines dev ls (serve_line dev l g)).status ≡ true = rw e at h in
      let (out, one, p) = serve_line-IsReply dev l g (stopped dev ls (serve_line dev l g) h') in
      let (outs, all, q) = serve_lines-replies dev ls (serve_line dev l g) h' in
      (
        out ∷ outs,
        (one, all),
        rw e (q ∙ ap (λ t. t ++ outs) p ∙ append_assoc g.printed (out ∷ []) outs),
      )
  | inr e ↦ cc (stopped dev (l ∷ ls) g h)
]
