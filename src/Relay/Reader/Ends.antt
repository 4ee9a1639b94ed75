-- ===== src/Relay/Reader/Ends.antt =====
-- What is sent for a request, by how the reading of its filters ends (relay/src/reader.rs).
use rnostr.Prelude.Order.{Bytes}
use rnostr.Prelude.{ℕ, ◌≡◌, refl, Option, none, some, List, ◌++◌, Bool}
use rnostr.Db.Error.{Outcome, ok}
use rnostr.Db.Codec.{Codec}
use rnostr.Kv.Lmdb.{Tree, Ffi}
use rnostr.Kv.Lmdb.Iter.{Cursor}
use rnostr.Relay.Reader.{
  ReadEvent, ReadEventResult, read_filters, read_sent, read, closing, on_read,
}

module _ (ffi : Ffi) (codec : Codec) (C : Cursor) (open_cursor : ffi.Txn → Tree → Outcome C.Cur)
    (steps : ℕ) (timeout : Option (ℕ → ℕ → Bool)) where
  -- What is sent, by how the reading ends.
  abbrev pub all_sent : ReadEvent → Outcome (Unit {0}) × List Bytes → List ReadEventResult
  all_sent msg m =
      let r = read_sent ffi codec C open_cursor steps timeout msg m in
      r.1 ++ closing ffi codec C open_cursor steps timeout msg r.0

  -- How the reading of all filters ends where it is answered.
  pub answered :
      (reader : ffi.Txn) (msg : ReadEvent) (sent : List ReadEventResult)
      → on_read ffi codec C open_cursor steps timeout (ok reader) msg ≡ some sent
      → (m : Outcome (Unit {0}) × List Bytes) × (read_filters ffi codec C open_cursor steps timeout
            reader msg.subscription.filters
          ≡ some m)
        × (all_sent msg m ≡ sent)
  unfolding on_read read
  answered reader msg sent e =
      split (read_filters ffi codec C open_cursor steps timeout reader msg.subscription.filters)
        refl e
    where
      split :
          (n : Option (Outcome (Unit {0}) × List Bytes))
          → read_filters ffi codec C open_cursor steps timeout reader msg.subscription.filters ≡ n
          → (elim (elim n as (λ _. Option (Outcome (Unit {0}) × List ReadEventResult)) [
            | none ↦ none
            | some r ↦ some (read_sent ffi codec C open_cursor steps timeout msg r)
          ])
              as (λ _. Option (List ReadEventResult)) [
                | none ↦ none
                | some (end, l) ↦ some (l ++ closing ffi codec C open_cursor steps timeout msg end)
              ])
            ≡ some sent
          → (m : Outcome (Unit {0}) × List Bytes) × (read_filters ffi codec C open_cursor steps
                timeout reader msg.subscription.filters
              ≡ some m)
            × (all_sent msg m ≡ sent)
      split none q p = absurd (cc p)
      split (some m) q p = (m, q, cc p)
