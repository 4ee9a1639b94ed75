-- ===== src/Db/Tables/Puts.antt =====
-- db/src/db.rs: `put`, `get`, `del` and the batches.
pub mod Reopened
pub mod RoundTrip
pub mod Marks
pub mod Deleted
pub mod Refused
use rnostr.Prelude.Order.{Bytes, Bytes-discrete, cmp_bytes, bytes_ord}
use rnostr.Prelude.{
  ℕ, ◌+◌, Ordering, Bool, true, false, not, ◌&&◌, ◌||◌, Option, none, some, List, [], ◌∷◌, length,
  holds, ltb, ◌==◌, if◌then◌else◌,
}
use rnostr.Std.Text.{codes, text_eq}
use rnostr.Db.Error.{Outcome, ok, err, panicked}
use rnostr.Db.Event.{EventIndex}
use rnostr.Db.Validate.{Event}
use rnostr.Db.Store.{CheckEventResult}
use rnostr.Db.Codec.{Codec, FromEventData, event_data}
use rnostr.Db.Key.{concat, encode_replace_key, u64_to_ver}
use rnostr.Kv.Lmdb.{Ffi, Act, pure, next, ◌>>=◌, get}
use rnostr.Db.Tables.{
  t_deletion, t_replacement, del_event, put_event, get_uid, get_event_by_uid, get_event,
}

-- The transaction, and the counter from which uids are taken.
pub record Store (Txn : Type 0) : Type 0 where
  pub txn : Txn
  pub seq : ℕ

abbrev pub max_tag_value_size : ℕ
max_tag_value_size = 255

abbrev pub on_txn : {Txn A : Type 0} → Act Txn A → Act (Store Txn) A
on_txn m s = let (r, w) = m s.txn in (r, record s { txn = w })

-- The author, or the one in whose name the author wrote, may delete; a deletion stays.
unfoldable pub may_delete : Event → Event → Bool
may_delete by e =
    (text_eq e.index.pubkey by.index.pubkey
      || (elim e.index.delegator [ none ↦ false | some d ↦ text_eq d by.index.pubkey ]))
    && not (e.index.kind == 5)

-- The stored event wins: it is newer, or as old and its id comes first.
unfoldable pub is_newer : EventIndex → EventIndex → Bool
is_newer old new =
    ltb new.created_at old.created_at
    || ((new.created_at == old.created_at)
        && (elim (cmp_bytes new.id old.id) [ Ordering.gt ↦ true | _ ↦ false ]))

-- An event goes on with the number of events deleted for it, or is answered at once.
pub data Step : Type 0 where
  goes_on : ℕ → Step
  answers : CheckEventResult → Step

module _ (ffi : Ffi) (codec : Codec) where
  unfoldable pub delete_found : Event → Option (Bytes × Event) → Act ffi.Txn ℕ
  unfolding may_delete del_event
  delete_found by none = pure 0
  delete_found by (some (uid, e)) =
      if may_delete by e then (del_event ffi codec e uid >>= λ _. pure 1) else pure 0

  -- The loop of a deletion event over its tags; the number of events that it deletes.
  unfoldable pub delete_tagged : Event → List (Bytes × Bytes) → Act ffi.Txn ℕ
  unfolding get_event delete_found event_data
  delete_tagged by [] = pure 0
  delete_tagged by ((key, v) ∷ tags) =
      if text_eq key (codes "e")
      then (get_event ffi codec (event_data codec) v >>= λ found.
          delete_found by found >>= λ n. delete_tagged by tags >>= λ m. pure (n + m))
      else delete_tagged by tags

  unfoldable pub replace_old : Event → ℕ → Bytes → Option Event → Act ffi.Txn Step
  unfolding is_newer del_event
  replace_old event count uid none = pure (goes_on count)
  replace_old event count uid (some e) =
      if is_newer e.index event.index
      then pure (answers CheckEventResult.replace_ignored)
      else (del_event ffi codec e uid >>= λ _. pure (goes_on (count + 1)))

  unfoldable pub find_old : Event → ℕ → Option Bytes → Act ffi.Txn Step
  unfolding get_event_by_uid replace_old event_data
  find_old event count none = pure (goes_on count)
  find_old event count (some uid) =
      get_event_by_uid ffi codec (event_data codec) uid >>= replace_old event count uid

  unfoldable pub check_replacement : Event → ℕ → Option Bytes → Act ffi.Txn Step
  unfolding find_old get
  check_replacement event count none = pure (goes_on count)
  check_replacement event count (some key) =
      if ltb (max_tag_value_size + 8 + 32) (length key)
      then pure (answers (CheckEventResult.invalid "invalid replace key"))
      else (get ffi t_replacement key >>= find_old event count)

  unfoldable pub take_seq : Act (Store ffi.Txn) ℕ
  take_seq s = (ok s.seq, record s { seq = s.seq + 1 })

  unfoldable pub store : Event → Step → Act (Store ffi.Txn) CheckEventResult
  unfolding take_seq put_event encode_replace_key
  store event (answers r) = pure r
  store event (goes_on count) = take_seq >>= λ seq.
      on_txn (
        put_event ffi codec event (u64_to_ver seq)
          (encode_replace_key event.index.kind event.index.pubkey event.tags))
      >>= λ _. pure (CheckEventResult.stored (count + 1))

  -- The changes before the new event is written.
  unfoldable pub prepare : Event → Act ffi.Txn Step
  unfolding delete_tagged check_replacement encode_replace_key
  prepare event =
      (if event.index.kind == 5 then delete_tagged event event.index.tags else pure 0) >>= λ count.
      check_replacement event count
        (encode_replace_key event.index.kind event.index.pubkey event.tags)

  unfoldable pub check_deleted : Event → Option Bytes → Act ffi.Txn Step
  unfolding prepare
  check_deleted event (some _) = pure (answers CheckEventResult.deleted)
  check_deleted event none = prepare event

  unfoldable pub check_duplicate : Event → Option Bytes → Act ffi.Txn Step
  unfolding check_deleted get
  check_duplicate event (some _) = pure (answers CheckEventResult.duplicate)
  check_duplicate event none =
      get ffi t_deletion (concat event.index.id event.index.pubkey) >>= check_deleted event

  unfoldable pub put : Event → Act (Store ffi.Txn) CheckEventResult
  unfolding get_uid check_duplicate store
  put event =
      if not (length event.index.id == 32) || not (length event.index.pubkey == 32)
      then pure (CheckEventResult.invalid "invalid event id or pubkey")
      else (on_txn (get_uid ffi codec event.index.id >>= check_duplicate event) >>= store event)

  unfoldable pub get_by_id : {R : Type 0} → FromEventData R → Bytes → Act ffi.Txn (Option R)
  unfolding get_event
  get_by_id r event_id = get_event ffi codec r event_id >>= λ found.
      pure (elim found [ none ↦ none | some (uid, e) ↦ some e ])

  unfoldable pub del_found : Option (Bytes × Event) → Act ffi.Txn Bool
  unfolding del_event
  del_found none = pure false
  del_found (some (uid, e)) = del_event ffi codec e uid >>= λ _. pure true

  unfoldable pub del : Bytes → Act ffi.Txn Bool
  unfolding get_event del_found event_data
  del event_id = get_event ffi codec (event_data codec) event_id >>= del_found
