-- ===== src/Db/Codec.antt =====
-- db/src/event.rs and db/src/db.rs: the forms in which an event is kept. JSON (serde) and the
-- archives (rkyv) are parameters; the code is that without the feature `zstd`.
use rnostr.Prelude.Order.{Bytes}
use rnostr.Prelude.{ℕ, Bool, true, false, ◌||◌, List, [], ◌∷◌, ◌==◌, if◌then◌else◌}
use rnostr.Db.Error.{Outcome, ok, err, panicked, invalid, message}
use rnostr.Db.Event.{EventIndex}
use rnostr.Db.Validate.{Event}

pub record Codec : Type 0 where
  pub to_json : Event → Outcome Bytes
  pub from_slice : Bytes → Outcome Event
  pub index_to_bytes : EventIndex → Outcome Bytes
  pub archived_index : Bytes → EventIndex
  pub words_to_bytes : List Bytes → Outcome Bytes
  pub archived_words : Bytes → List Bytes

-- The last byte, where it is 0 or 1, tells the form and is cut off; else the form is 0.
unfoldable pub parse_data_type : Bytes → ℕ × Bytes
parse_data_type [] = (0, [])
parse_data_type (b ∷ []) = if b == 0 || b == 1 then (b, []) else (0, b ∷ [])
parse_data_type (b ∷ c ∷ bs) = let (form, rest) = parse_data_type (c ∷ bs) in (form, b ∷ rest)

-- `FromEventData`: what is read of a stored event, from its id or from its data.
pub record FromEventData (R : Type 0) : Type 0 where
  pub only_id : Bool
  pub from_data : Bytes → Outcome R

unfoldable pub id_data : FromEventData Bytes
id_data = record { only_id = true; from_data = λ id. ok id }

unfoldable pub string_from_data : Bytes → Outcome Bytes
unfolding parse_data_type
string_from_data json =
    let (form, bytes) = parse_data_type json in
    if form == 1 then err (invalid "Need zstd feature") else ok bytes

unfoldable pub string_data : FromEventData Bytes
unfolding string_from_data
string_data = record { only_id = false; from_data = string_from_data }

unfoldable pub event_from_data : Codec → Bytes → Outcome Event
unfolding parse_data_type
event_from_data codec json =
    let (form, bytes) = parse_data_type json in
    if form == 1 then err (invalid "Need zstd feature") else codec.from_slice bytes

unfoldable pub event_data : Codec → FromEventData Event
unfolding event_from_data
event_data codec = record { only_id = false; from_data = event_from_data codec }

-- `map_err(|e| Error::Message(e.to_string()))`
unfoldable pub as_message : {A : Type 0} → Outcome A → Outcome A
as_message (ok a) = ok a
as_message (err x) = err (message "{}")
as_message panicked = panicked
