-- ===== src/Db/Tables/Puts/RoundTrip.antt =====
-- What is put can be read back (db/src/db.rs, `put` and `get`).
use rnostr.Prelude.Order.{Bytes}
use rnostr.Prelude.{
  ℕ, ◌+◌, ◌≡◌, ◌≢◌, refl, ◌∙◌, ap, subst, true, Option, none, some, inl, inr, Bool-cases, not, ◌||◌,
  ◌==◌, length, if◌then◌else◌, arith,
}
use rnostr.Db.Error.{Outcome, ok, err, panicked}
use rnostr.Db.Validate.{Event}
use rnostr.Db.Store.{CheckEventResult}
use rnostr.Db.Codec.{Codec, event_data, id_data, string_data, parse_data_type}
use rnostr.Db.Key.{concat, encode_replace_key, u64_to_ver}
use rnostr.Kv.Lmdb.{Ffi, Act, pure, next, ◌>>=◌, Documented, get}
use rnostr.Db.Tables.{put_event, get_uid, t_deletion, t_data, t_index, entry}
use rnostr.Db.Tables.Stored.{put_event-Written, get_event-has}
use rnostr.Db.Tables.Puts.{
  Store, on_txn, Step, goes_on, answers, take_seq, store, delete_tagged, check_replacement,
  find_old, replace_old, prepare, check_deleted, check_duplicate, put, get_by_id,
}

-- What follows an action on the transaction that ended well; the counter is as before.
pub on_txn-next :
    {W A B : Type 0} (m : Act W A) (f : A → Act (Store W) B) (s t : Store W) {b : B}
    → next (on_txn m s) f ≡ (ok b, t)
    → (a : A) × (w : W) × (m s.txn ≡ (ok a, w)) × (f a (record s { txn = w }) ≡ (ok b, t))
on_txn-next {W} {A} {B} m f s t {b} h = split (m s.txn) refl h
  where
    split :
        (r : Outcome A × W)
        → m s.txn ≡ r
        → next (r.0, record s { txn = r.1 }) f ≡ (ok b, t)
        → (a : A) × (w : W) × (m s.txn ≡ (ok a, w)) × (f a (record s { txn = w }) ≡ (ok b, t))
    split (ok a, w) e p = (a, w, e, p)
    split (err x, w) e p = absurd (cc p)
    split (panicked, w) e p = absurd (cc p)

-- No change before the writing answers that the event is stored.
abbrev pub IsOpen : Outcome Step → Type 0
IsOpen (ok (answers (CheckEventResult.stored n))) = ⊥
IsOpen _ = Unit {0}

next-IsOpen :
    {W A : Type 0} (m : Outcome A × W) (f : A → Act W Step)
    → ((a : A) (w : W) → IsOpen (f a w).0)
    → IsOpen (next m f).0
next-IsOpen (ok a, w) f h = h a w
next-IsOpen (err x, w) f h = tt
next-IsOpen (panicked, w) f h = tt

module _ (ffi : Ffi) (codec : Codec) where
  -- Where the answer is `stored`, the event went into the trees under the next uid, in a
  -- transaction that the changes before it had led to.
  pub store-stored :
      (event : Event) (step : Step) (s t : Store ffi.Txn) (n : ℕ)
      → store ffi codec event step s ≡ (ok (CheckEventResult.stored n), t)
      → step ≢ answers (CheckEventResult.stored n)
      → (u : Unit {0}) × (put_event ffi codec event
            (u64_to_ver s.seq)
            (encode_replace_key event.index.kind event.index.pubkey event.tags)
            s.txn
          ≡ (ok u, t.txn))
        × (t.seq ≡ s.seq + 1)
  unfolding store take_seq
  store-stored event (answers r) s t n h never = absurd (never (cc h))
  store-stored event (goes_on count) s t n h never =
      let (u, w, p, q) =
        on_txn-next
          (put_event ffi codec event (u64_to_ver s.seq)
            (encode_replace_key event.index.kind event.index.pubkey event.tags))
          _ (record s { seq = s.seq + 1 }) t h in
      (u, cc, cc)

  -- What was asked first of the trees comes to nothing but a store that goes on.
  check_replacement-IsOpen :
      (event : Event) (n : ℕ) (key : Option Bytes) (w : ffi.Txn)
      → IsOpen (check_replacement ffi codec event n key w).0
  unfolding check_replacement find_old replace_old
  check_replacement-IsOpen event n none w = tt
  check_replacement-IsOpen event n (some key) w = ground arith

  prepare-IsOpen : (event : Event) (w : ffi.Txn) → IsOpen (prepare ffi codec event w).0
  unfolding prepare
  prepare-IsOpen event w =
      next-IsOpen
        ((if event.index.kind == 5 then delete_tagged ffi codec event event.index.tags else pure 0)
          w)
        _
        (λ n t.
          check_replacement-IsOpen event n
            (encode_replace_key event.index.kind event.index.pubkey event.tags) t)

  check_deleted-IsOpen :
      (event : Event) (o : Option Bytes) (w : ffi.Txn)
      → IsOpen (check_deleted ffi codec event o w).0
  unfolding check_deleted
  check_deleted-IsOpen event none w = prepare-IsOpen event w
  check_deleted-IsOpen event (some b) w = tt

  check_duplicate-IsOpen :
      (event : Event) (o : Option Bytes) (w : ffi.Txn)
      → IsOpen (check_duplicate ffi codec event o w).0
  unfolding check_duplicate
  check_duplicate-IsOpen event none w =
      next-IsOpen (get ffi t_deletion (concat event.index.id event.index.pubkey) w) _
        (check_deleted-IsOpen event)
  check_duplicate-IsOpen event (some b) w = tt

  -- An event that is stored was written under the next uid, after what the changes before it left.
  pub put-stored :
      (event : Event) (s t : Store ffi.Txn) (n : ℕ)
      → put ffi codec event s ≡ (ok (CheckEventResult.stored n), t)
      → (u : Unit {0}) × (w : ffi.Txn) × (put_event ffi codec event
            (u64_to_ver s.seq)
            (encode_replace_key event.index.kind event.index.pubkey event.tags)
            w
          ≡ (ok u, t.txn))
        × (t.seq ≡ s.seq + 1)
        × ((step : Step) × ((get_uid ffi codec event.index.id >>= check_duplicate ffi codec event)
                s.txn
              ≡ (ok step, w)))
  unfolding put
  put-stored event s t n h =
      elim (Bool-cases
        (not (length event.index.id == 32) || not (length event.index.pubkey == 32))) [
          | inl e ↦ absurd (cc (rw e at h))
          | inr e ↦
              let (step, w, p, q) =
                on_txn-next (get_uid ffi codec event.index.id >>= check_duplicate ffi codec event)
                  (store ffi codec event) s t (rw e at h) in
              let (u, a, b) =
                store-stored event step (record s { txn = w }) t n q
                  (λ k. subst IsOpen (ap (λ r. r.0) p ∙ ap ok k) (
                    next-IsOpen (get_uid ffi codec event.index.id s.txn) _
                      (check_duplicate-IsOpen event))) in
              (u, w, a, b, (step, p))
        ]

  module _ (doc : Documented ffi) where
    -- What was stored is what its id gives back: as an event where the JSON reads back as one, as
    -- its id, and as its JSON. The hypotheses are that the JSON is read back, that the archive
    -- keeps the id, and that the last byte of the JSON is not taken for the mark of a form.
    pub put-get_by_id :
        (event read : Event) (s t : Store ffi.Txn) (n : ℕ) (json bytes : Bytes)
        → codec.to_json event ≡ ok json
        → codec.index_to_bytes event.index ≡ ok bytes
        → codec.from_slice json ≡ ok read
        → (codec.archived_index bytes).id ≡ event.index.id
        → parse_data_type json ≡ (0, json)
        → put ffi codec event s ≡ (ok (CheckEventResult.stored n), t)
        → (get_by_id ffi codec (event_data codec) event.index.id t.txn ≡ (ok (some read), t.txn))
          × (get_by_id ffi codec id_data event.index.id t.txn ≡ (ok (some event.index.id), t.txn))
          × (get_by_id ffi codec string_data event.index.id t.txn ≡ (ok (some json), t.txn))
    unfolding get_by_id event_data id_data string_data
    put-get_by_id event read s t n json bytes to_json to_bytes from_slice id_kept form h =
        let (u, w, p, _, _) = put-stored event s t n h in
        let r = put_event-Written ffi codec doc event (u64_to_ver s.seq) _ w t.txn u p in
        let kept : doc.has t.txn (entry t_data (u64_to_ver s.seq) json) ≡ true =
          subst (λ j. doc.has t.txn (entry t_data (u64_to_ver s.seq) j) ≡ true) (cc r.to_json)
            r.data_kept in
        let indexed : doc.has t.txn (entry t_index (u64_to_ver s.seq) bytes) ≡ true =
          subst (λ b. doc.has t.txn (entry t_index (u64_to_ver s.seq) b) ≡ true) (cc r.to_bytes)
            r.index_kept in
        (
          rw
              (get_event-has ffi codec doc (event_data codec) event.index.id (u64_to_ver s.seq)
                bytes json t.txn r.uid_kept indexed kept)
              (rw (form, from_slice) refl),
          rw
              (get_event-has ffi codec doc id_data event.index.id (u64_to_ver s.seq) bytes json
                t.txn r.uid_kept indexed kept)
              (rw id_kept refl),
          rw
              (get_event-has ffi codec doc string_data event.index.id (u64_to_ver s.seq) bytes json
                t.txn r.uid_kept indexed kept)
              (rw form refl),
        )
