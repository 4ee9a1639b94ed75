-- ===== src/Db/Tables/Puts/Reopened.antt =====
-- The counter of uids when a store is opened again (db/src/db.rs, `latest_seq` and `open`).
use rnostr.Prelude.Order.{Bytes}
use rnostr.Prelude.{
  ℕ, ◌<◌, ◌≡◌, ◌≢◌, refl, ◌∙◌, ap, subst, true, false, Option, none, some, [], length, ◌==◌,
  if◌then◌else◌, arith, sym,
}
use rnostr.Std.Words.{u64_mod, from_be, from_be-to_be, length-to_be}
use rnostr.Db.Error.{Outcome, ok, err, panicked, convert_u64}
use rnostr.Db.Validate.{Event}
use rnostr.Db.Store.{CheckEventResult}
use rnostr.Db.Codec.{Codec, event_data, parse_data_type}
use rnostr.Db.Key.{concat, encode_replace_key, u64_to_ver}
use rnostr.Kv.Lmdb.{success, Ffi, ◌>>=◌, get, Documented}
use rnostr.Kv.Lmdb.Writes.{next-eq-ok}
use rnostr.Kv.Lmdb.Iter.{Cursor, Item, last, unbounded, iter_from, iter_next}
use rnostr.Db.Tables.{t_data, t_id_uid, t_deletion, entry, get_uid}
use rnostr.Db.Tables.Stored.{put_event-Written, get_event-has}
use rnostr.Db.Tables.Puts.{
  Store, Step, goes_on, check_duplicate, check_deleted, prepare, check_replacement, put, get_by_id,
  goes_on,
}
use rnostr.Db.Tables.Puts.RoundTrip.{put-stored}

unfoldable pub u64_from_bytes : Bytes → Outcome ℕ
u64_from_bytes bytes = if length bytes == 8 then ok (from_be 0 bytes) else err convert_u64

unfoldable pub seq_of : Option (Outcome Item) → Outcome ℕ
unfolding u64_from_bytes
seq_of none = ok 0
seq_of (some (ok (k, v))) = u64_from_bytes k
seq_of (some (err x)) = err x
seq_of (some panicked) = panicked

-- The key of the last entry of `t_data`, by a cursor on that tree.
unfoldable pub latest_seq : (C : Cursor) → Outcome C.Cur → Outcome ℕ
unfolding seq_of iter_from iter_next
latest_seq C cursor = seq_of (iter_next C (iter_from C cursor t_data unbounded true)).0

-- `Db::open`, as far as it sets the counter.
unfoldable pub open_store : {Txn : Type 0} (C : Cursor) → Outcome C.Cur → Txn → Outcome (Store Txn)
unfolding latest_seq
open_store C cursor txn = elim (latest_seq C cursor) [
  | ok seq ↦ ok (record { txn = txn; seq = seq })
  | err x ↦ err x
  | panicked ↦ panicked
]

u64_from_bytes-to_ver : (n : ℕ) → n < u64_mod → u64_from_bytes (u64_to_ver n) ≡ ok n
unfolding u64_from_bytes u64_to_ver
u64_from_bytes-to_ver n h = rw (length-to_be 8 n) (ap ok (from_be-to_be 8 n h))

-- The store takes the last uid in use for the next.
pub open_store-last :
    {Txn : Type 0} (C : Cursor) (c d : C.Cur) (txn : Txn) (seq : ℕ) (v : Bytes)
    → seq < u64_mod
    → C.mdb_cursor_get c last [] ≡ (success (u64_to_ver seq, v), d)
    → open_store C (ok c) txn ≡ ok (record { txn = txn; seq = seq })
unfolding open_store seq_of
open_store-last C c d txn seq v b h = rw h (rw (u64_from_bytes-to_ver seq b) refl)

module _ (ffi : Ffi) (codec : Codec) where
  get-eq-ok :
      (t : _) (key : Bytes) (w s : ffi.Txn) (o : Option Bytes) → get ffi t key w ≡ (ok o, s) → s ≡ w
  unfolding get
  get-eq-ok t key w s o h = ground arith

  -- An event that deletes and replaces nothing changes nothing before it is written.
  prepare_plain :
      (event : Event) (w : ffi.Txn)
      → (event.index.kind == 5) ≡ false
      → encode_replace_key event.index.kind event.index.pubkey event.tags ≡ none
      → prepare ffi codec event w ≡ (ok (goes_on 0), w)
  unfolding prepare check_replacement
  prepare_plain event w k r = rw (k, r) refl

  module _ (event : Event) (kind_plain : (event.index.kind == 5) ≡ false)
      (no_key : encode_replace_key event.index.kind event.index.pubkey event.tags ≡ none) where
    deleted_plain :
        (o : Option Bytes) (w t : ffi.Txn) (step : Step)
        → check_deleted ffi codec event o w ≡ (ok step, t)
        → t ≡ w
    unfolding check_deleted
    deleted_plain none w t step h = cc (prepare_plain event w kind_plain no_key)
    deleted_plain (some b) w t step h = cc

    duplicate_plain :
        (o : Option Bytes) (w t : ffi.Txn) (step : Step)
        → check_duplicate ffi codec event o w ≡ (ok step, t)
        → t ≡ w
    unfolding check_duplicate
    duplicate_plain none w t step h =
        let (o, a, p, q) =
          next-eq-ok (get ffi t_deletion (concat event.index.id event.index.pubkey) w) _ h in
        deleted_plain o a t step q
        ∙ get-eq-ok t_deletion (concat event.index.id event.index.pubkey) w a o p
    duplicate_plain (some b) w t step h = cc

    checks_plain :
        (s w : ffi.Txn) (step : Step)
        → (get_uid ffi codec event.index.id >>= check_duplicate ffi codec event) s ≡ (ok step, w)
        → w ≡ s
    unfolding get_uid
    checks_plain s w step h =
        let (o, a, p, q) = next-eq-ok (get ffi t_id_uid event.index.id s) _ h in
        duplicate_plain o a w step q ∙ get-eq-ok t_id_uid event.index.id s a o p

  module _ (doc : Documented ffi) (C : Cursor) where
    -- An event was stored, the store is opened again while the last entry of the data is still that
    -- event's, and another event is stored, which is no deletion, replaces nothing and has another
    -- id: then the first event's id reads back as the second event, given that the second event's
    -- JSON is read back. Both have the same uid; uids are below the bound of a `u64`.
    pub reopened_overwrites :
        (old new read : Event) (s s' t u : Store ffi.Txn) (n m : ℕ) (c d : C.Cur) (v json : Bytes)
        → s.seq < u64_mod
        → put ffi codec old s ≡ (ok (CheckEventResult.stored n), t)
        → C.mdb_cursor_get c last [] ≡ (success (u64_to_ver s.seq, v), d)
        → open_store C (ok c) t.txn ≡ ok s'
        → (new.index.kind == 5) ≡ false
        → encode_replace_key new.index.kind new.index.pubkey new.tags ≡ none
        → old.index.id ≢ new.index.id
        → put ffi codec new s' ≡ (ok (CheckEventResult.stored m), u)
        → codec.to_json new ≡ ok json
        → parse_data_type json ≡ (0, json)
        → codec.from_slice json ≡ ok read
        → get_by_id ffi codec (event_data codec) old.index.id u.txn ≡ (ok (some read), u.txn)
    unfolding get_by_id event_data
    reopened_overwrites old new read s s' t u n m c d v json b stored at_end opened k r differ again
          to_json form from_slice =
        let (_, w, p, _, _) = put-stored ffi codec old s t n stored in
        let before = put_event-Written ffi codec doc old (u64_to_ver s.seq) _ w t.txn tt p in
        let (_, w', p', _, (step, q)) = put-stored ffi codec new s' u m again in
        let after = put_event-Written ffi codec doc new (u64_to_ver s'.seq) _ w' u.txn tt p' in
        let same : s' ≡ record { txn = t.txn; seq = s.seq } =
          cc (open_store-last C c d t.txn s.seq v b at_end) in
        let moved : w' ≡ t.txn = checks_plain new k r s'.txn w' step q ∙ ap (λ x. x.txn) same in
        let uid : s'.seq ≡ s.seq = ap (λ x. x.seq) same in
        let id_kept : doc.has u.txn (entry t_id_uid old.index.id (u64_to_ver s'.seq)) ≡ true =
          after.others_kept (entry t_id_uid old.index.id (u64_to_ver s'.seq)) refl differ (
            subst (λ x. doc.has x (entry t_id_uid old.index.id (u64_to_ver s'.seq)) ≡ true)
              (sym moved)
              (subst (λ x. doc.has t.txn (entry t_id_uid old.index.id (u64_to_ver x)) ≡ true)
                (sym uid) before.uid_kept)) in
        let data_new : doc.has u.txn (entry t_data (u64_to_ver s'.seq) json) ≡ true =
          subst (λ j. doc.has u.txn (entry t_data (u64_to_ver s'.seq) j) ≡ true) (cc after.to_json)
            after.data_kept in
        rw
          (get_event-has ffi codec doc (event_data codec) old.index.id (u64_to_ver s'.seq)
            after.bytes json u.txn id_kept after.index_kept data_new)
          (rw (form, from_slice) refl)
