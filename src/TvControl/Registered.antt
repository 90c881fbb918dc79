-- ===== src/TvControl/Registered.antt =====
-- examples/tv-control/direct_av.py: when `connect` returns.
use bazzite_k.Common.{
  ◌≢◌, ◌∙◌, ◌≡◌, ap, sym, Bool, true, false, Bool-cases, not, ◌&&◌, Option, none, some, List, [],
  ◌∷◌, ◌++◌, map, String, All, inl, inr, if◌then◌else◌,
}
use bazzite_k.Common.Json.{Json, is_text}
use bazzite_k.TvControl.{
  registered_key, waiting, refused, opened, dialled, await_registration, with_key, Outcome, ok,
  raised, Link, registration, connect, pairing_required, with_key, open_ws, tv_error, get_or, empty,
  receive, ws_send, ◌>>=◌,
}
use bazzite_k.TvControl.Waiting.{Found, receive_until-found, >>-ok, if-ne, raises_last, bound-ok}

-- A message of this type.
abbrev pub IsKind : String → Json → Type 0
IsKind name j = (kind : Json) × (get_or "type" Json.null j ≡ ok kind) × (is_text name kind ≡ true)

-- The message that ends the loop, with the key that it leaves.
abbrev pub IsRegistered : Json → Json → Json → Type 0
IsRegistered key new_key j =
    IsKind "registered" j
    × ((payload : Json) × (get_or "payload" empty j ≡ ok payload)
        × (get_or "client-key" key payload ≡ ok new_key))

-- A message before it: of another type, and a question to the viewer only while pairing.
abbrev pub IsPassed : Bool → Json → Type 0
IsPassed pair j =
    ((kind : Json) × (get_or "type" Json.null j ≡ ok kind)
      × (is_text "registered" kind ≡ false)
      × (is_text "error" kind ≡ false))
    × ((payload : Json) × (pairing : Json) × (get_or "payload" empty j ≡ ok payload)
        × (get_or "pairingType" Json.null payload ≡ ok pairing)
        × (is_text "PROMPT" pairing && not pair ≡ false))

waiting-ok :
    (pair : Bool) (j : Json) (v : Option Json)
    → waiting pair j ≡ ok v
    → (v ≡ none)
      × ((payload : Json) × (pairing : Json) × (get_or "payload" empty j ≡ ok payload)
          × (get_or "pairingType" Json.null payload ≡ ok pairing)
          × (is_text "PROMPT" pairing && not pair ≡ false))
waiting-ok pair j v h =
    let (payload, is_payload, h1) = >>-ok {A = Json} _ _ v h in
    let (pairing, is_pairing, h2) = >>-ok {A = Json} _ _ v h1 in
    let (t, h3) =
      if-ne {A = Outcome (Option Json)} (is_text "PROMPT" pairing && not pair)
        (raised pairing_required) (ok none) (ok v) (λ q. cc) h2 in
    (cc, (payload, pairing, is_payload, is_pairing, t))

registered_key-ok :
    (key j : Json) (v : Option Json)
    → registered_key key j ≡ ok v
    → (k : Json) × (v ≡ some k)
      × ((payload : Json) × (get_or "payload" empty j ≡ ok payload)
          × (get_or "client-key" key payload ≡ ok k))
registered_key-ok key j v h =
    let (payload, is_payload, h1) = >>-ok {A = Json} _ _ v h in
    let (k, is_new, h2) = >>-ok {A = Json} _ _ v h1 in (k, cc, (payload, is_payload, is_new))

some-ne : {A : Type 0} (a : A) → Option.some a ≢ Option.none
some-ne a h = cc

registration-IsRegistered :
    (pair : Bool) (key new_key j : Json)
    → registration pair key j ≡ ok (some new_key)
    → IsRegistered key new_key j
unfolding registration
registration-IsRegistered pair key new_key j h =
    let (kind, is_kind, h1) = >>-ok {A = Json} (get_or "type" Json.null j) _ _ h in
    elim (Bool-cases (is_text "registered" kind)) [
      | inl t ↦
          let h2 : registered_key key j ≡ ok (some new_key) = rw t at h1 in
          let (k, is_same, (payload, is_payload, is_new)) = registered_key-ok key j _ h2 in
          let same : k ≡ new_key = cc is_same in
          ((kind, is_kind, t), (payload, is_payload, rw same at is_new))
      | inr f ↦
          let h2 : (if is_text "error" kind then refused j else waiting pair j)
              ≡ ok (some new_key) =
            rw f at h1 in
          let (t, h3) = if-ne _ _ _ _ (raises_last {A = Json} _ tv_error _) h2 in
          let (is_none, more) = waiting-ok pair j (some new_key) h3 in
          absurd (some-ne new_key is_none)
    ]

registration-IsPassed :
    (pair : Bool) (key j : Json) → registration pair key j ≡ ok none → IsPassed pair j
unfolding registration
registration-IsPassed pair key j h =
    let (kind, is_kind, h1) = >>-ok {A = Json} (get_or "type" Json.null j) _ _ h in
    elim (Bool-cases (is_text "registered" kind)) [
      | inl t ↦
          let h2 : registered_key key j ≡ ok none = rw t at h1 in
          let (k, is_same, more) = registered_key-ok key j none h2 in
          absurd (some-ne k (sym is_same))
      | inr f ↦
          let h2 : (if is_text "error" kind then refused j else waiting pair j) ≡ ok none =
            rw f at h1 in
          let (t, h3) = if-ne _ _ _ _ (raises_last {A = Json} _ tv_error _) h2 in
          let (is_none, more) = waiting-ok pair j none h3 in ((kind, is_kind, f, t), more)
    ]

passed :
    (pair : Bool) (key : Json) (js : List Json)
    → All (λ k. registration pair key k ≡ ok none) js
    → All (IsPassed pair) js
passed pair key [] h = tt
passed pair key (j ∷ js) h = (registration-IsPassed pair key j h.0, passed pair key js h.1)

-- The messages of a wait that ended with the registration.
pub data Registered (pair : Bool) (key new_key : Json) (js later : List (Outcome Json))
    : Type 0 where
  registered :
      (before : List Json) (j : Json)
      → js ≡ map ok before ++ (ok j ∷ later)
      → All (IsPassed pair) before
      → IsRegistered key new_key j
      → Registered pair key new_key js later

found-Registered :
    (pair : Bool) (key new_key : Json) (js later : List (Outcome Json))
    → Found (registration pair key) new_key js later
    → Registered pair key new_key js later
found-Registered pair key new_key js later (Found.found before j e s t) =
    Registered.registered before j e (passed pair key before s)
      (registration-IsRegistered pair key new_key j t)

opened-ok :
    (o : Outcome (Unit {0})) (l k : Link)
    → opened o l ≡ (ok tt, k)
    → (k.has_ws ≡ true) × (k.inbox ≡ l.inbox)
opened-ok (ok u) l k h = (sym (ap (λ p. p.1.has_ws) h), sym (ap (λ p. p.1.inbox) h))
opened-ok (raised e) l k h = cc

await_registration-Registered :
    (pair : Bool) (key : Json) (l m : Link)
    → await_registration pair key l ≡ (ok tt, m)
    → Registered pair key m.key l.inbox m.inbox × (m.has_ws ≡ l.has_ws)
await_registration-Registered pair key l m h =
    let (new_key, k, first, second) =
      bound-ok (receive (registration pair key)) with_key tt l m h in
    let waited =
      receive_until-found (registration pair key) new_key l.inbox k.inbox
        (λ i. ((first i).0, (first i).1.inbox)) in
    let is_key : new_key ≡ m.key = ap (λ p. p.1.key) second in
    let same_inbox : k.inbox ≡ m.inbox = ap (λ p. p.1.inbox) second in
    (
      rw (sym is_key, sym same_inbox) (found-Registered pair key new_key l.inbox k.inbox waited),
      sym (ap (λ p. p.1.has_ws) second) ∙ sym (ap (λ p. p.1.has_ws) first),
    )

-- If `connect` returns, the television has sent `registered`, the connection holds the key that this
-- message carries, or else the one it had, and before it came no error and, without `pair`, no
-- question to the viewer.
pub connect_registered :
    (registration_msg : Json → Json) (pair : Bool) (l m : Link)
    → connect registration_msg pair l ≡ (ok tt, m)
    → Registered pair l.key m.key l.inbox m.inbox × (m.has_ws ≡ true)
unfolding connect
connect_registered registration_msg pair l m h =
    let msg = registration_msg l.key in
    let (u, k, first, h1) =
      bound-ok open_ws (λ u. ws_send msg >>= λ v. await_registration pair l.key) tt l m h in
    let (v, n, second, h2) =
      bound-ok (ws_send msg) (λ v. await_registration pair l.key) tt k m h1 in
    let (is_open, same) = opened-ok l.connecting (dialled l) k first in
    let same2 : n.inbox ≡ l.inbox = sym (ap (λ p. p.1.inbox) second) ∙ same in
    let still : n.has_ws ≡ true = sym (ap (λ p. p.1.has_ws) second) ∙ is_open in
    let (r, kept) = await_registration-Registered pair l.key n m h2 in (rw same2 at r, kept ∙ still)
