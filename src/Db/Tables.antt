-- ===== src/Db/Tables.antt =====
-- db/src/db.rs: the trees of the store, and what an event writes to them.
pub mod Puts
pub mod Stored
pub mod Batches
pub mod Removed
use rnostr.Prelude.Order.{Bytes}
use rnostr.Prelude.{
  ℕ, Bool, true, false, ◌&&◌, Option, none, some, List, [], ◌∷◌, ◌++◌, map, is_empty, any, ◌==◌,
  if◌then◌else◌,
}
use rnostr.Std.Text.{codes, text_eq}
use rnostr.Std.Words.{to_be}
use rnostr.Db.Error.{Outcome, ok, err, panicked}
use rnostr.Db.Event.{EventIndex}
use rnostr.Db.Validate.{Event}
use rnostr.Db.Codec.{Codec, FromEventData, event_data, as_message}
use rnostr.Db.Key.{
  concat, encode_time, encode_id, encode_kind, encode_pubkey, encode_pubkey_kind, encode_tag,
  encode_word, encode_replace_key, u16_to_ver,
}
use rnostr.Kv.Lmdb.{Tree, Ffi, Act, pure, lift, next, ◌>>=◌, get, put, del, Entry}
use rnostr.Kv.Lmdb.Writes.{puts}

-- `Db::open`: the trees, numbered in the order in which they are opened.
abbrev pub tree : ℕ → Bool → Tree
tree inner dup = record { inner = inner; dup = dup }

abbrev pub t_data : Tree
t_data = tree 0 false

abbrev pub t_meta : Tree
t_meta = tree 1 false

abbrev pub t_index : Tree
t_index = tree 2 false

abbrev pub t_id_uid : Tree
t_id_uid = tree 3 false

abbrev pub t_uid_word : Tree
t_uid_word = tree 4 false

abbrev pub t_deletion : Tree
t_deletion = tree 5 false

abbrev pub t_replacement : Tree
t_replacement = tree 6 false

abbrev pub t_id : Tree
t_id = tree 7 false

abbrev pub t_pubkey : Tree
t_pubkey = tree 8 true

abbrev pub t_kind : Tree
t_kind = tree 9 true

abbrev pub t_pubkey_kind : Tree
t_pubkey_kind = tree 10 true

abbrev pub t_created_at : Tree
t_created_at = tree 11 true

abbrev pub t_tag : Tree
t_tag = tree 12 true

abbrev pub t_expiration : Tree
t_expiration = tree 13 true

abbrev pub t_word : Tree
t_word = tree 14 true

abbrev pub entry : Tree → Bytes → Bytes → Entry
entry tree key value = record { tree = tree; key = key; value = value }

-- A deletion that follows others: the tree, the key and perhaps the value.
abbrev pub Removal : Type 0
Removal = Tree × Bytes × Option Bytes

unfoldable pub delegator_entries : EventIndex → Bytes → List Entry
delegator_entries e uid = elim e.delegator [
  | none ↦ []
  | some d ↦
      entry t_pubkey (encode_pubkey d e.created_at) uid
      ∷ entry t_pubkey_kind (encode_pubkey_kind d e.kind e.created_at) uid
      ∷ []
]

-- `key[0] == 101`, for a key that has a first byte.
abbrev pub is_event_key : Bytes → Bool
is_event_key [] = false
is_event_key (c ∷ key) = c == 101

-- `key[0]` panics for an empty key, where the code comes to it; a panic loses the transaction.
unfoldable pub check_keys : ℕ → List (Bytes × Bytes) → Outcome (Unit {0})
check_keys kind tags = if kind == 5 && any (λ t. is_empty t.0) tags then panicked else ok tt

-- A tag, and before it the mark of a deletion: a tag of an event, by an event of kind 5.
unfoldable pub tag_entries : EventIndex → Bytes → List (Bytes × Bytes) → List Entry
tag_entries e uid [] = []
tag_entries e uid ((key, v) ∷ tags) =
    (if e.kind == 5 && is_event_key key then entry t_deletion (concat e.id v) uid ∷ [] else [])
    ++ (entry t_tag (encode_tag key v e.created_at) (concat uid (to_be 2 e.kind))
        ∷ tag_entries e uid tags)

unfoldable pub last_entries : EventIndex → Bytes → Option Bytes → List Entry
last_entries e uid replace_key =
    (elim replace_key [ none ↦ [] | some k ↦ entry t_replacement k uid ∷ [] ])
    ++ (elim e.expiration [ none ↦ [] | some t ↦ entry t_expiration (encode_time t) uid ∷ [] ])

-- What `put_event` writes between the index and the words.
unfoldable pub view_entries : EventIndex → Bytes → Option Bytes → List Entry
unfolding delegator_entries tag_entries last_entries
view_entries e uid replace_key =
    entry t_id_uid e.id uid
    ∷ entry t_id (encode_id e.id e.created_at) uid
    ∷ entry t_kind (encode_kind e.kind e.created_at) uid
    ∷ entry t_pubkey (encode_pubkey e.pubkey e.created_at) uid
    ∷ entry t_pubkey_kind (encode_pubkey_kind e.pubkey e.kind e.created_at) uid
    ∷ (delegator_entries e uid
        ++ (entry t_created_at (encode_time e.created_at) uid
            ∷ (tag_entries e uid e.tags ++ last_entries e uid replace_key)))

unfoldable pub tag_removals : EventIndex → Bytes → List (Bytes × Bytes) → List Removal
tag_removals e uid [] = []
tag_removals e uid ((key, v) ∷ tags) =
    (t_tag, encode_tag key v e.created_at, some (concat uid (to_be 2 e.kind)))
    ∷ tag_removals e uid tags

-- What `del_event` deletes behind the words.
unfoldable pub view_removals : Event → Bytes → List Removal
unfolding tag_removals encode_replace_key
view_removals event uid =
    let e = event.index in
    (t_data, uid, none)
    ∷ (t_index, uid, none)
    ∷ (t_id_uid, e.id, none)
    ∷ (t_id, encode_id e.id e.created_at, some uid)
    ∷ (t_kind, encode_kind e.kind e.created_at, some uid)
    ∷ (t_pubkey, encode_pubkey e.pubkey e.created_at, some uid)
    ∷ (t_pubkey_kind, encode_pubkey_kind e.pubkey e.kind e.created_at, some uid)
    ∷ ((elim e.delegator [
      | none ↦ []
      | some d ↦
          (t_pubkey, encode_pubkey d e.created_at, some uid)
          ∷ (t_pubkey_kind, encode_pubkey_kind d e.kind e.created_at, some uid)
          ∷ []
    ])
        ++ ((t_created_at, encode_time e.created_at, some uid)
            ∷ (tag_removals e uid e.tags
                ++ ((elim (encode_replace_key e.kind e.pubkey event.tags) [
                  | none ↦ []
                  | some k ↦ (t_replacement, k, none) ∷ []
                ])
                    ++ (elim e.expiration [
                      | none ↦ []
                      | some t ↦ (t_expiration, encode_time t, some uid) ∷ []
                    ])))))

module _ (ffi : Ffi) (codec : Codec) where
  unfoldable pub removals : List Removal → Act ffi.Txn (Unit {0})
  unfolding del
  removals [] w = pure tt w
  removals ((t, key, value) ∷ rs) w = next (del ffi t key value w) (λ _. removals rs)

  -- The words of an event, which are kept apart.
  unfoldable pub word_removals : ℕ → Bytes → List Bytes → List Removal
  word_removals time uid [] = []
  word_removals time uid (word ∷ words) =
      (t_word, encode_word word time, some uid) ∷ word_removals time uid words

  unfoldable pub del_words : ℕ → Bytes → Option Bytes → Act ffi.Txn (Unit {0})
  unfolding removals word_removals del
  del_words time uid none = pure tt
  del_words time uid (some bytes) = do
    _ ← del ffi t_uid_word uid none
    removals (word_removals time uid (codec.archived_words bytes))

  unfoldable pub del_event : Event → Bytes → Act ffi.Txn (Unit {0})
  unfolding del_words removals view_removals get
  del_event event uid = do
    bytes ← get ffi t_uid_word uid
    _ ← del_words event.index.created_at uid bytes
    removals (view_removals event uid)

  unfoldable pub word_entries : ℕ → Bytes → List Bytes → List Entry
  word_entries time uid [] = []
  word_entries time uid (word ∷ words) =
      entry t_word (encode_word word time) uid ∷ word_entries time uid words

  unfoldable pub put_words : Event → Bytes → Act ffi.Txn (Unit {0})
  unfolding puts word_entries
  put_words event uid =
      if is_empty event.words
      then pure tt
      else (lift (codec.words_to_bytes event.words) >>= λ bytes.
          puts ffi
            (entry t_uid_word uid bytes ∷ word_entries event.index.created_at uid event.words))

  unfoldable pub put_event : Event → Bytes → Option Bytes → Act ffi.Txn (Unit {0})
  unfolding puts view_entries check_keys put_words put
  put_event event uid replace_key = do
    json ← lift (codec.to_json event)
    _ ← put ffi t_data uid json
    bytes ← lift (codec.index_to_bytes event.index)
    _ ← put ffi t_index uid bytes
    _ ← lift (check_keys event.index.kind event.index.tags)
    _ ← puts ffi (view_entries event.index uid replace_key)
    put_words event uid

  unfoldable pub get_uid : Bytes → Act ffi.Txn (Option Bytes)
  unfolding get
  get_uid event_id = get ffi t_id_uid event_id

  unfoldable pub read_with :
      {R : Type 0} → (Bytes → Outcome R) → Option Bytes → Act ffi.Txn (Option R)
  unfolding as_message
  read_with from_data none = pure none
  read_with from_data (some bytes) = do a ← lift (as_message (from_data bytes)); pure (some a)

  -- What is read of an event: its archived id, or its data.
  unfoldable pub get_event_by_uid : {R : Type 0} → FromEventData R → Bytes → Act ffi.Txn (Option R)
  unfolding get read_with
  get_event_by_uid r uid =
      if r.only_id
      then get ffi t_index uid >>= read_with (λ bytes. r.from_data (codec.archived_index bytes).id)
      else (get ffi t_data uid >>= read_with r.from_data)

  unfoldable pub with_uid :
      {R : Type 0} → FromEventData R → Option Bytes → Act ffi.Txn (Option (Bytes × R))
  unfolding get_event_by_uid
  with_uid r none = pure none
  with_uid r (some uid) = do
    event ← get_event_by_uid r uid
    pure (elim event [ none ↦ none | some e ↦ some (uid, e) ])

  unfoldable pub get_event :
      {R : Type 0} → FromEventData R → Bytes → Act ffi.Txn (Option (Bytes × R))
  unfolding get_uid with_uid
  get_event r event_id = get_uid event_id >>= with_uid r
