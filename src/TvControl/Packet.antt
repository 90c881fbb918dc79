-- ===== src/TvControl/Packet.antt =====
-- examples/tv-control/direct_av.py: what `tv_wol` does on the network.
use bazzite_k.Common.{
  ◌*◌, ◌/◌, ◌%◌, ◌<◌, ℕ, ◌+◌, ◌==◌, ==_iff, ◌≡◌, refl, ap, ◌∙◌, zero, suc, Bool, true, false, not,
  Option, none, some, List, [], ◌∷◌, ◌++◌, if◌then◌else◌, length, length-append, All, All-append,
  arith,
}
use bazzite_k.Common.Json.{Json, index, contains_key}
use bazzite_k.Common.Bytes.{AreBytes}
use bazzite_k.Common.Hex.{from_hex, hex, hex_digit, from_hex-hex}
use bazzite_k.TvControl.{Outcome, ok, raised, lift, value_error}
use bazzite_k.TvControl.Wol.{
  Wol, route_get, neigh_replace, sendto, Host, Network, remove, repeat, magic, wol_target, with_mac,
  send_magic, tv_wol, unicast, routed, pin, replaced, Target,
}

-- The neighbour is pinned only on the host's own subnet; a packet is six 255 and sixteen times the
-- six bytes of the setting.
abbrev pub IsSound : Network → Host → Wol → Type 0
IsSound n host route_get = n.unicast_wake ≡ true
IsSound n host (neigh_replace dev) =
    (n.unicast_wake ≡ true)
    × ((route : Json) × (host.route ≡ ok route)
        × (lift (contains_key "gateway" route) ≡ ok false)
        × (lift (index "dev" route) ≡ ok dev))
IsSound n host (sendto packet target) =
    (mac : List ℕ) × (from_hex (remove b'-' (remove b':' n.tv_mac)) ≡ some mac)
    × (length mac ≡ 6)
    × (packet ≡ magic mac)
    × (length packet ≡ 102)

AreSound : Network → Host → List Wol → Type 0
AreSound n host = All (IsSound n host)

length-repeat : (n : ℕ) (mac : List ℕ) → length mac ≡ 6 → length (repeat n mac) ≡ n * 6
length-repeat zero mac h = omega arith
length-repeat (suc n) mac h = rw length-append (omega (arith, length-repeat n mac h))

length-magic : (mac : List ℕ) → length mac ≡ 6 → length (magic mac) ≡ 102
length-magic mac h =
    length-append (repeat 6 (255 ∷ [])) (repeat 16 mac) ∙ ap (λ k. 6 + k) (length-repeat 16 mac h)

replaced-AreSound :
    (n : Network) (host : Host) (dev : Json) (o : Outcome (Unit {0}))
    → IsSound n host (neigh_replace dev)
    → AreSound n host (replaced n dev o).1
unfolding AreSound
replaced-AreSound n host dev (raised e) h = (h.0, (h, tt))
replaced-AreSound n host dev (ok u) h = (h.0, (h, tt))

wol_target-AreSound : (n : Network) (host : Host) → AreSound n host (wol_target n host).1
unfolding wol_target AreSound
wol_target-AreSound n host = step n.unicast_wake refl host.route refl
  where
    pinned :
        (route : Json)
        → n.unicast_wake ≡ true
        → host.route ≡ ok route
        → lift (contains_key "gateway" route) ≡ ok false
        → (o : Outcome Json) → lift (index "dev" route) ≡ o
        → AreSound n host (pin n host o).1
    pinned route w r g (raised e) h = (w, tt)
    pinned route w r g (ok dev) h = replaced-AreSound n host dev host.neigh (w, (route, r, g, h))

    found :
        (route : Json)
        → n.unicast_wake ≡ true
        → host.route ≡ ok route
        → (o : Outcome Bool) → lift (contains_key "gateway" route) ≡ o
        → AreSound n host (routed n host route o).1
    found route w r (raised e) g = (w, tt)
    found route w r (ok true) g = (w, tt)
    found route w r (ok false) g = pinned route w r g (lift (index "dev" route)) refl

    step :
        (t : Bool)
        → n.unicast_wake ≡ t
        → (o : Outcome Json) → host.route ≡ o
        → AreSound n host (if t then unicast n host o else (ok n.broadcast_address, [])).1
    step false w o r = tt
    step true w (raised e) r = (w, tt)
    step true w (ok route) r = found route w r (lift (contains_key "gateway" route)) refl

send_magic-AreSound :
    (n : Network) (host : Host) (mac : List ℕ) (t : Target)
    → from_hex (remove b'-' (remove b':' n.tv_mac)) ≡ some mac
    → length mac ≡ 6
    → AreSound n host t.1
    → AreSound n host (send_magic mac host t).1
unfolding AreSound
send_magic-AreSound n host mac (raised e, ws) m l h = h
send_magic-AreSound n host mac (ok target, ws) m l h =
    All-append (IsSound n host) ws (sendto (magic mac) target ∷ []) h
      ((mac, m, l, refl, length-magic mac l), tt)

-- Whatever the settings and the host: every packet is a wake packet of 102 bytes for the six bytes of
-- `tv_mac`, and a neighbour is pinned only if the settings ask for it and the route has no gateway.
pub tv_wol-IsSound : (n : Network) (host : Host) → All (IsSound n host) (tv_wol n host).1
unfolding tv_wol AreSound
tv_wol-IsSound n host = step (from_hex (remove b'-' (remove b':' n.tv_mac))) refl
  where
    sized :
        (mac : List ℕ)
        → from_hex (remove b'-' (remove b':' n.tv_mac)) ≡ some mac
        → (t : Bool) → (length mac == 6) ≡ t
        → All
            (IsSound n host)
            (if not t then (raised value_error, []) else send_magic mac host (wol_target n host)).1
    sized mac m true l =
        send_magic-AreSound n host mac (wol_target n host) m ((==_iff (length mac) 6).0 l)
          (wol_target-AreSound n host)
    sized mac m false l = tt

    step :
        (o : Option (List ℕ))
        → from_hex (remove b'-' (remove b':' n.tv_mac)) ≡ o
        → All (IsSound n host) (with_mac n host o).1
    step none m = tt
    step (some mac) m = sized mac m (length mac == 6) refl

-- A hardware address as it is usually written.
abbrev pub colons : List ℕ → List ℕ
colons [] = []
colons (x ∷ []) = hex (x ∷ [])
colons (x ∷ y ∷ xs) = hex (x ∷ []) ++ (b':' ∷ colons (y ∷ xs))

no_colon : (d : ℕ) → d < 16 → (hex_digit d == b':') ≡ false
no_colon d h = ground arith

no_dash : (d : ℕ) → d < 16 → (hex_digit d == b'-') ≡ false
no_dash d h = ground arith

remove-colons : (b : List ℕ) → AreBytes b → remove b'-' (remove b':' (colons b)) ≡ hex b
unfolding hex
remove-colons [] h = refl
remove-colons (x ∷ []) h =
    let hi : x / 16 < 16 = omega arith in
    let lo : x % 16 < 16 = omega arith in
    rw (no_colon _ hi, no_colon _ lo, no_dash _ hi, no_dash _ lo) refl
remove-colons (x ∷ y ∷ xs) h =
    let hi : x / 16 < 16 = omega arith in
    let lo : x % 16 < 16 = omega arith in
    rw (no_colon _ hi, no_colon _ lo, no_dash _ hi, no_dash _ lo)
      (ap (λ t. hex_digit (x / 16) ∷ hex_digit (x % 16) ∷ t) (remove-colons (y ∷ xs) h.1))

-- An address of six bytes, written in hexadecimal with colons, makes one wake packet for these bytes
-- to the broadcast address, unless `unicast_wake` is set.
pub tv_wol_wakes :
    (n : Network) (host : Host) (b : List ℕ)
    → n.tv_mac ≡ colons b
    → AreBytes b
    → length b ≡ 6
    → n.unicast_wake ≡ false
    → tv_wol n host ≡ (host.socket, sendto (magic b) n.broadcast_address ∷ [])
unfolding tv_wol wol_target
tv_wol_wakes n host b m h l w =
    rw (m, remove-colons b h, from_hex-hex b h, w, (==_iff (length b) 6).1 l) refl
