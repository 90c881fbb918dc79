-- ===== src/TvControl/Pairing.antt =====
-- examples/tv-control/direct_av.py: `main`, with `wake` as an argument.
use bazzite_k.Common.{◌≡◌, Bool, true, false, not, ◌&&◌, Option, none, some, if◌then◌else◌}
use bazzite_k.Common.Json.{Json, Fields, index, truthy}
use bazzite_k.TvControl.{
  Error, Outcome, ok, raised, Link, Io, ◌>>=◌, ◌>>◌, lift, request, connect, close, empty,
  avr_state, not_paired, no_key_returned,
}
use bazzite_k.TvControl.Standby.{new, closed_after, stored_key}

pub data Mode : Type 0 where
  pair status wake : Mode

abbrev pub is_pair : Mode → Bool
is_pair pair = true
is_pair m = false

-- The key of the file, which is None if there is no file.
abbrev pub known_key : Option (Outcome Json) → Outcome Json
known_key none = ok Json.null
known_key (some file) = file >> λ j. lift (index "client_key" j)

abbrev pub key_file : Json → Json
key_file key = Json.obj (Fields.field "client_key" key Fields.end)

-- The key file after a call: as it was, holding this value, or emptied by `O_TRUNC`, with no more than a
-- part of the text in it.
pub data KeyFile : Type 0 where
  kept : KeyFile
  cut_short : KeyFile
  holds : Json → KeyFile

-- Whether the key file can be opened, and then written.
pub data Saving : Type 0 where
  not_opened : Error → Saving
  not_written : Error → Saving
  written : Saving

-- What a call returns or raises, the key file, and the connection after it.
pub record Done : Type 0 where
  pub result : Outcome (Unit {0})
  pub saved : KeyFile
  pub link : Link

abbrev pub write_key : Saving → Link → Done
write_key (Saving.not_opened e) l = record { result = raised e; saved = KeyFile.kept; link = l }
write_key (Saving.not_written e) l = record {
  result = raised e;
  saved = KeyFile.cut_short;
  link = l;
}
write_key Saving.written l = record {
  result = ok tt;
  saved = KeyFile.holds (key_file l.key);
  link = l;
}

abbrev pub save_key : Saving → Link → Done
save_key saving l =
    if not (truthy l.key)
    then record { result = raised no_key_returned; saved = KeyFile.kept; link = l }
    else write_key saving l

abbrev pub paired : Saving → Outcome (Unit {0}) × Link → Done
paired saving (raised e, l) = record { result = raised e; saved = KeyFile.kept; link = l }
paired saving (ok u, l) = save_key saving l

unfoldable pub show_status : Io (Unit {0})
show_status l =
    (request "com.webos.service.tvpower/power/getPowerState" empty >>= λ power.
    request "com.webos.applicationManager/getForegroundAppInfo" empty >>= λ app.
    avr_state >>= λ state. λ k. (ok tt, k))
      l

-- `finally: await tv.close()`
abbrev pub ended : Done → Done
ended d =
    let done = closed_after d.result (close d.link) in
    record { result = done.0; saved = d.saved; link = done.1 }

abbrev pub unsaved : Outcome (Unit {0}) × Link → Done
unsaved (o, l) = record { result = o; saved = KeyFile.kept; link = l }

abbrev pub with_key_of : (Json → Json) → (Json → Io (Unit {0})) → Saving → Mode → Json → Link → Done
with_key_of registration_msg wakes saving pair key l =
    ended (paired saving (connect registration_msg true (new Json.null l)))
with_key_of registration_msg wakes saving status key l =
    ended (unsaved ((connect registration_msg false >>= λ u. show_status) (new key l)))
with_key_of registration_msg wakes saving wake key l = unsaved (wakes key l)

abbrev pub started :
    (Json → Json) → (Json → Io (Unit {0})) → Saving → Mode → Outcome Json → Link → Done
started registration_msg wakes saving mode (raised e) l = unsaved (raised e, l)
started registration_msg wakes saving mode (ok key) l =
    if not (is_pair mode) && not (truthy key)
    then unsaved (raised not_paired, l)
    else with_key_of registration_msg wakes saving mode key l

unfoldable pub main :
    (Json → Json) → (Json → Io (Unit {0})) → Saving → Mode → Option (Outcome Json) → Link → Done
main registration_msg wakes saving mode file l =
    started registration_msg wakes saving mode (known_key file) l

-- A key file that `main` can have written after such a connection.
abbrev pub IsSaved : (Json → Json) → Mode → Link → Json → Type 0
IsSaved registration_msg mode l j =
    (mode ≡ pair)
    × ((m : Link) × (connect registration_msg true (new Json.null l) ≡ (ok tt, m))
        × (stored_key (some j) ≡ ok m.key))
