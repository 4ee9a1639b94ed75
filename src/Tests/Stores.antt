-- ===== src/Tests/Stores.antt =====
-- Events put into trees that are kept in memory, and the theorems on the store applied to them.
use rnostr.Prelude.Order.{Bytes-discrete}
use rnostr.Prelude.{
  ℕ, true, ◌≡◌, ◌≢◌, refl, map, List, [], ◌∷◌, none, some, replicate, ℕ_discrete, arith,
}
use rnostr.Std.Text.{codes}
use rnostr.Db.Error.{ok, err, panicked, kv, invalid_length}
use rnostr.Db.Event.{EventIndex}
use rnostr.Db.Validate.{Event}
use rnostr.Db.Store.{CheckEventResult}
use rnostr.Db.Codec.{Codec, event_data, id_data, string_data, parse_data_type}
use rnostr.Db.Key.{
  encode_replace_key, u64_to_ver, encode_id, encode_kind, encode_pubkey, encode_pubkey_kind,
  encode_time, encode_tag, concat,
}
use rnostr.Std.Words.{to_be, from_be}
use rnostr.Kv.Lmdb.{Tree-discrete, Entry, success}
use rnostr.Kv.Lmdb.Iter.{Cursor}
use rnostr.Db.Tables.Puts.{Store, put, get_by_id}
use rnostr.Db.Tables.Puts.RoundTrip.{put-get_by_id}
use rnostr.Db.Tables.Puts.Reopened.{open_store, reopened_overwrites}
use rnostr.Db.Tables.{entry, t_data, t_index, t_deletion, view_entries, del_event}
use rnostr.Db.Tables.Removed.{Gone, del_event-Gone}
use rnostr.Relay.Writer.{Writer, Env, write_all, write}
use rnostr.Relay.Writer.Answers.{addressee, write-answers}
use rnostr.Db.Tables.Puts.Refused.{Change, puts, deletes, change_all, is_deletion, put-deletion}
use rnostr.Tests.Messages.{crates}
use rnostr.Tests.Trees.{memory, has-empty, without, memory-Documented, find_value}

abbrev stored_index : ℕ → EventIndex
stored_index id = record {
  id = replicate 32 id;
  pubkey = replicate 32 7;
  created_at = 100;
  kind = 1;
  tags = (codes "t", 9 ∷ []) ∷ [];
  expiration = none;
  delegator = none;
}

abbrev post : ℕ → Event
post id = record {
  tags = [];
  content = id ∷ 125 ∷ [];
  sig = [];
  index = stored_index id;
  words = [];
}

-- JSON that is the content and reads back as the event of its first byte; an archive that is the id.
abbrev pub plain : Codec
plain = record {
  to_json = λ e. ok e.content;
  from_slice = λ json. elim json [ [] ↦ err invalid_length | b ∷ _ ↦ ok (post b) ];
  index_to_bytes = λ e. ok e.id;
  archived_index = λ bytes. record (stored_index 0) { id = bytes };
  words_to_bytes = λ words. ok [];
  archived_words = λ bytes. [];
}

abbrev empty_store : Store (List Entry)
empty_store = record { txn = []; seq = 0 }

first_form : parse_data_type (1 ∷ 125 ∷ []) ≡ (0, 1 ∷ 125 ∷ [])
unfolding parse_data_type
first_form = refl

second_form : parse_data_type (2 ∷ 125 ∷ []) ≡ (0, 2 ∷ 125 ∷ [])
unfolding parse_data_type
second_form = refl

ids_differ : (post 1).index.id ≢ (post 2).index.id
ids_differ h = absurd (cc h)

no_key : encode_replace_key (post 2).index.kind (post 2).index.pubkey (post 2).tags ≡ none
unfolding encode_replace_key
no_key = refl

abbrev first_stored : Store (List Entry)
unfolding put find_value
first_stored = (put memory plain (post 1) empty_store).1

first_put : put memory plain (post 1) empty_store ≡ (ok (CheckEventResult.stored 1), first_stored)
unfolding put find_value
first_put = refl

put-get_by_id_example :
    (get_by_id memory plain (event_data plain) (post 1).index.id first_stored.txn
      ≡ (ok (some (post 1)), first_stored.txn))
    × (get_by_id memory plain id_data (post 1).index.id first_stored.txn
        ≡ (ok (some (post 1).index.id), first_stored.txn))
    × (get_by_id memory plain string_data (post 1).index.id first_stored.txn
        ≡ (ok (some (1 ∷ 125 ∷ [])), first_stored.txn))
put-get_by_id_example =
    put-get_by_id memory plain memory-Documented (post 1) (post 1) empty_store first_stored 1
      (1 ∷ 125 ∷ []) (post 1).index.id refl refl refl refl first_form first_put

-- A cursor that stands at the entry of the first event.
abbrev one_entry : Cursor
one_entry = record {
  Cur = Unit {0};
  mdb_cursor_get = λ c op key. (success (u64_to_ver 0, 1 ∷ 125 ∷ []), c);
}

abbrev reopened : Store (List Entry)
reopened = record { txn = first_stored.txn; seq = 0 }

abbrev second_stored : Store (List Entry)
unfolding put find_value Tree-discrete Bytes-discrete ℕ_discrete
second_stored = (put memory plain (post 2) reopened).1

second_put : put memory plain (post 2) reopened ≡ (ok (CheckEventResult.stored 1), second_stored)
unfolding put find_value Tree-discrete Bytes-discrete ℕ_discrete
second_put = refl

reopened_store : open_store one_entry (ok tt) first_stored.txn ≡ ok reopened
unfolding open_store u64_to_ver to_be from_be
reopened_store = refl

reopened_overwrites_example :
    get_by_id memory plain (event_data plain) (post 1).index.id second_stored.txn
    ≡ (ok (some (post 2)), second_stored.txn)
reopened_overwrites_example =
    reopened_overwrites memory plain memory-Documented one_entry (post 1) (post 2) (post 2)
      empty_store reopened first_stored second_stored 1 1 tt tt (1 ∷ 125 ∷ []) (2 ∷ 125 ∷ [])
      (omega arith) first_put refl reopened_store refl no_key ids_differ second_put refl second_form
      refl

abbrev first_deleted : List Entry
unfolding del_event find_value without Tree-discrete Bytes-discrete ℕ_discrete first_stored
    u64_to_ver to_be encode_id encode_kind encode_pubkey encode_pubkey_kind encode_time encode_tag
    concat
first_deleted = (del_event memory plain (post 1) (u64_to_ver 0) first_stored.txn).1

first_del : del_event memory plain (post 1) (u64_to_ver 0) first_stored.txn ≡ (ok tt, first_deleted)
unfolding del_event find_value without Tree-discrete Bytes-discrete ℕ_discrete first_stored
    u64_to_ver to_be encode_id encode_kind encode_pubkey encode_pubkey_kind encode_time encode_tag
    concat
first_del = refl

del_event-Gone_example : Gone memory plain memory-Documented first_deleted (
    entry t_data (u64_to_ver 0) (1 ∷ 125 ∷ [])
    ∷ entry t_index (u64_to_ver 0) (post 1).index.id
    ∷ view_entries
        (post 1).index
        (u64_to_ver 0)
        (encode_replace_key (post 1).index.kind (post 1).index.pubkey (post 1).tags))
del_event-Gone_example =
    del_event-Gone memory plain memory-Documented (post 1) (u64_to_ver 0) (1 ∷ 125 ∷ [])
      (post 1).index.id first_stored.txn first_deleted first_del

-- Two events wait, and the commit fails.
abbrev two_waiting : Writer
two_waiting = record {
  events = record { id = 5; event = post 2 } ∷ record { id = 4; event = post 1 } ∷ [];
  seq = 0;
}

abbrev full_disk : Env (List Entry)
full_disk = record { begin = ok []; commit = λ t. err kv }

two_calm :
    (write_all memory plain crates two_waiting.events (record { txn = []; seq = 0 })).0 ≢ panicked
unfolding write_all find_value Tree-discrete Bytes-discrete ℕ_discrete
two_calm h = cc

write-answers_example :
    ((write memory plain crates full_disk two_waiting).writer.events ≡ [])
    × (map addressee (write memory plain crates full_disk two_waiting).sent
        ≡ (5, post 2) ∷ (4, post 1) ∷ [])
write-answers_example = write-answers memory plain crates full_disk two_waiting [] refl two_calm

-- A deletion event that names its own author; it expires and is put again.
abbrev deletion : Event
deletion = record {
  tags = [];
  content = 3 ∷ 125 ∷ [];
  sig = [];
  index = record (stored_index 3) { kind = 5; tags = (codes "e", replicate 32 7) ∷ [] };
  words = [];
}

abbrev of_deletion : Codec
of_deletion = record plain { from_slice = λ json. ok deletion }

abbrev expired : List Change
expired = puts deletion ∷ deletes deletion.index.id ∷ []

abbrev refused : Store (List Entry)
unfolding put change_all find_value without Tree-discrete Bytes-discrete ℕ_discrete encode_id
    encode_kind encode_pubkey encode_pubkey_kind encode_time encode_tag concat u64_to_ver to_be
refused = (put memory of_deletion deletion (change_all memory of_deletion expired empty_store)).1

second_refused :
    put memory of_deletion deletion (change_all memory of_deletion expired empty_store)
    ≡ (ok CheckEventResult.deleted, refused)
unfolding put change_all find_value without Tree-discrete Bytes-discrete ℕ_discrete encode_id
    encode_kind encode_pubkey encode_pubkey_kind encode_time encode_tag concat u64_to_ver to_be
second_refused = refl

put-deletion_example : is_deletion expired deletion.index.id ≡ true
put-deletion_example =
    put-deletion memory of_deletion memory-Documented expired deletion empty_store refused
      (λ key uid. has-empty (entry t_deletion key uid)) second_refused
