-- ===== src/Db/Store.antt =====
-- db/src/db.rs: what the store answers to an event, and the ranges of keys that it reads.
pub mod Ranges
use Prim.Native.String.{String}
use rnostr.Prelude.Order.{Bytes}
use rnostr.Prelude.{
  ℕ, ◌+◌, Bool, true, false, ◌&&◌, Option, none, some, [], ◌∷◌, ltb, ◌==◌, if◌then◌else◌,
}

-- What the store answers to an event; `stored` counts what was written or deleted.
pub data CheckEventResult : Type 0 where
  invalid : String → CheckEventResult
  duplicate deleted replace_ignored : CheckEventResult
  stored : ℕ → CheckEventResult

-- The last byte below 255 is raised by one and ends the key; there may be none.
unfoldable pub upper : Bytes → Option Bytes
upper [] = none
upper (x ∷ key) = elim (upper key) [
  | some u ↦ some (x ∷ u)
  | none ↦ if ltb x 255 then some ((x + 1) ∷ []) else none
]

-- `slice.starts_with`: the first argument is the prefix.
unfoldable pub starts_with : Bytes → Bytes → Bool
starts_with [] key = true
starts_with (p ∷ ps) [] = false
starts_with (p ∷ ps) (c ∷ cs) = (p == c) && starts_with ps cs
