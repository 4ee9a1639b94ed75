-- ===== src/Db/Tables/Puts/Refused.antt =====
-- What `put` answers as deleted (db/src/db.rs) after a history of events.
use rnostr.Prelude.Order.{Bytes, Bytes-discrete}
use rnostr.Prelude.{
  ℕ, ◌+◌, ◌≡◌, refl, sym, ap, subst, ◌∙◌, Bool, true, false, not, ◌&&◌, ◌||◌, Option, none, some,
  List, [], ◌∷◌, ◌++◌, All, any, holds, inl, inr, Bool-cases, length, take-append, ◌==◌,
  if◌then◌else◌, arith,
}
use rnostr.Db.Error.{Outcome, ok, err, panicked, kv}
use rnostr.Db.Validate.{Event}
use rnostr.Db.Store.{CheckEventResult}
use rnostr.Db.Codec.{Codec, event_data}
use rnostr.Db.Key.{concat, encode_replace_key, u64_to_ver}
use rnostr.Kv.Lmdb.{Reply, success, not_found, failed, Ffi, Act, pure, next, ◌>>=◌, get, Documented}
use rnostr.Kv.Lmdb.Writes.{next-eq-ok}
use rnostr.Db.Tables.{entry, t_deletion, t_id_uid, put_event, get_uid, get_event, del_event}
use rnostr.Db.Tables.Puts.{
  Store, on_txn, Step, goes_on, answers, delete_tagged, check_replacement, find_old, replace_old,
  prepare, check_deleted, check_duplicate, store, put, del, del_found,
}
use rnostr.Db.Tables.Puts.RoundTrip.{on_txn-next}
use rnostr.Db.Tables.Puts.Marks.{Marks, Keeps, next-Keeps, get_event-Keeps, del_event-Keeps}
use rnostr.Db.Tables.Puts.Deleted.{put-Marks}

abbrev IsUndeleted : Outcome Step → Type 0
IsUndeleted (ok (answers CheckEventResult.deleted)) = ⊥
IsUndeleted _ = Unit {0}

next-IsUndeleted :
    {W A : Type 0} (m : Outcome A × W) (f : A → Act W Step)
    → ((a : A) (w : W) → IsUndeleted (f a w).0)
    → IsUndeleted (next m f).0
next-IsUndeleted (ok a, w) f h = h a w
next-IsUndeleted (err x, w) f h = tt
next-IsUndeleted (panicked, w) f h = tt

-- What changes the store in the course of time: events are put, and some are deleted by their id.
pub data Change : Type 0 where
  puts : Event → Change
  deletes : Bytes → Change

abbrev pub deletion_of : Change → Bytes → Bool
deletion_of (puts e) id = (e.index.kind == 5) && holds (Bytes-discrete e.index.id id)
deletion_of (deletes d) id = false

-- Whether the id is that of a deletion event of the history.
abbrev pub is_deletion : List Change → Bytes → Bool
is_deletion cs id = any (λ c. deletion_of c id) cs

abbrev Names : (Bytes → Type 0) → Change → Type 0
Names P (puts e) = (e.index.kind == 5) ≡ true → P e.index.id
Names P (deletes d) = Unit

Names-any :
    (x : Change) (cs xs : List Change)
    → All (Names (λ id. is_deletion cs id ≡ true)) xs
    → All (Names (λ id. is_deletion (x ∷ cs) id ≡ true)) xs
Names-any x cs [] a = tt
Names-any x cs (puts e ∷ xs) a = (λ h. ground (arith, a.0 h), Names-any x cs xs a.1)
Names-any x cs (deletes d ∷ xs) a = (tt, Names-any x cs xs a.1)

holds_refl : (id : Bytes) → holds (Bytes-discrete id id) ≡ true
holds_refl id = elim (Bytes-discrete id id) as (λ q. holds q ≡ true) [
  | yes p ↦ refl
  | no p ↦ absurd (p refl)
]

Names-self : (cs : List Change) → All (Names (λ id. is_deletion cs id ≡ true)) cs
Names-self [] = tt
Names-self (puts e ∷ cs) =
    (λ h. ground (arith, holds_refl e.index.id), Names-any (puts e) cs cs (Names-self cs))
Names-self (deletes d ∷ cs) = (tt, Names-any (deletes d) cs cs (Names-self cs))

module _ (ffi : Ffi) (codec : Codec) where
  check_replacement-IsUndeleted :
      (event : Event) (n : ℕ) (key : Option Bytes) (w : ffi.Txn)
      → IsUndeleted (check_replacement ffi codec event n key w).0
  unfolding check_replacement find_old replace_old
  check_replacement-IsUndeleted event n none w = tt
  check_replacement-IsUndeleted event n (some key) w = ground arith

  prepare-IsUndeleted : (event : Event) (w : ffi.Txn) → IsUndeleted (prepare ffi codec event w).0
  unfolding prepare
  prepare-IsUndeleted event w =
      next-IsUndeleted
        ((if event.index.kind == 5 then delete_tagged ffi codec event event.index.tags else pure 0)
          w)
        _
        (λ n.
          check_replacement-IsUndeleted event n
            (encode_replace_key event.index.kind event.index.pubkey event.tags))

  -- A history; an error leaves what was written.
  unfoldable pub change_all : List Change → Store ffi.Txn → Store ffi.Txn
  unfolding put del
  change_all [] s = s
  change_all (puts e ∷ cs) s = change_all cs (put ffi codec e s).1
  change_all (deletes id ∷ cs) s = change_all cs (on_txn (del ffi codec id) s).1

  module _ (doc : Documented ffi) where
    get-mark :
        (key : Bytes) (w t : ffi.Txn) (v : Bytes)
        → get ffi t_deletion key w ≡ (ok (some v), t)
        → doc.has w (entry t_deletion key v) ≡ true
    unfolding get
    get-mark key w t v h = split (ffi.mdb_get w t_deletion key) refl h
      where
        split :
            (r : Reply Bytes)
            → ffi.mdb_get w t_deletion key ≡ r
            → (elim r as (λ _. Outcome (Option Bytes) × ffi.Txn) [
              | success v ↦ (ok (some v), w)
              | not_found ↦ (ok none, w)
              | failed ↦ (err kv, w)
            ])
              ≡ (ok (some v), t)
            → doc.has w (entry t_deletion key v) ≡ true
        split (success u) p q =
            let same : u ≡ v = cc q in doc.mdb_get_has w t_deletion key v (p ∙ ap success same)
        split not_found p q = absurd (cc q)
        split failed p q = absurd (cc q)

    get-same :
        (key : Bytes) (w t : ffi.Txn) (o : Option Bytes)
        → get ffi t_id_uid key w ≡ (ok o, t)
        → t ≡ w
    unfolding get
    get-same key w t o h = ground arith

    deleted-mark :
        (event : Event) (o : Option Bytes) (w t : ffi.Txn)
        → check_duplicate ffi codec event o w ≡ (ok (answers CheckEventResult.deleted), t)
        → (v : Bytes) × (doc.has w (entry t_deletion (concat event.index.id event.index.pubkey) v)
            ≡ true)
    unfolding check_duplicate check_deleted
    deleted-mark event (some u) w t h = absurd (cc h)
    deleted-mark event none w t h =
        let (o, s, p, q) =
          next-eq-ok (get ffi t_deletion (concat event.index.id event.index.pubkey) w) _ h in
        split o s p q
      where
        split :
            (o : Option Bytes) (s : ffi.Txn)
            → get ffi t_deletion (concat event.index.id event.index.pubkey) w ≡ (ok o, s)
            → check_deleted ffi codec event o s ≡ (ok (answers CheckEventResult.deleted), t)
            → (v : Bytes) × (doc.has w
                  (entry t_deletion (concat event.index.id event.index.pubkey) v)
                ≡ true)
        split (some v) s p q = (v, get-mark (concat event.index.id event.index.pubkey) w s v p)
        split none s p q =
            absurd (subst IsUndeleted (ap (λ r. r.0) q) (prepare-IsUndeleted event s))

    store-deleted :
        (event : Event) (step : Step) (s t : Store ffi.Txn)
        → store ffi codec event step s ≡ (ok CheckEventResult.deleted, t)
        → step ≡ answers CheckEventResult.deleted
    unfolding store
    store-deleted event (answers r) s t h =
        let same : r ≡ CheckEventResult.deleted = cc h in ap answers same
    store-deleted event (goes_on n) s t h =
        let (u, w, p, q) =
          on_txn-next
            (put_event ffi codec event (u64_to_ver s.seq)
              (encode_replace_key event.index.kind event.index.pubkey event.tags))
            _ (record s { seq = s.seq + 1 }) t h in
        absurd (cc q)

    put-deleted :
        (P : Bytes → Type 0) (event : Event) (s t : Store ffi.Txn)
        → Marks ffi doc P s.txn
        → put ffi codec event s ≡ (ok CheckEventResult.deleted, t)
        → P event.index.id
    unfolding put concat get_uid
    put-deleted P event s t m h =
        elim (Bool-cases
          (not (length event.index.id == 32) || not (length event.index.pubkey == 32))) [
            | inl e ↦ absurd (cc (rw e at h))
            | inr e ↦
                let (step, w, p, q) =
                  on_txn-next (get_uid ffi codec event.index.id >>= check_duplicate ffi codec event)
                    (store ffi codec event) s t (rw e at h) in
                let (o, u, a, b) = next-eq-ok (get ffi t_id_uid event.index.id s.txn) _ p in
                let same : ◌≡◌ {A = Outcome Step × ffi.Txn} (ok step, w)
                    (ok (answers CheckEventResult.deleted), w) =
                  ap (λ x. (ok x, w)) (store-deleted event step (record s { txn = w }) t q) in
                let (v, marked) = deleted-mark event o u w (b ∙ same) in
                let here : u ≡ s.txn = get-same event.index.id s.txn u o a in
                subst P (take-append 32 event.index.id event.index.pubkey (ground arith)) (
                  m (event.index.id ++ event.index.pubkey) v (
                    subst
                      (λ x.
                        doc.has x (entry t_deletion (event.index.id ++ event.index.pubkey) v)
                        ≡ true)
                      here marked))
          ]

    del-Keeps : (P : Bytes → Type 0) (id : Bytes) → Keeps ffi doc P (del ffi codec id)
    unfolding del
    del-Keeps P id w m =
        next-Keeps ffi doc P (get_event ffi codec (event_data codec) id w) _
          (get_event-Keeps ffi doc P codec (event_data codec) id w m) found
      where
        found : (o : Option (Bytes × Event)) → Keeps ffi doc P (del_found ffi codec o)
        found none w m = m
        found (some (uid, e)) w m =
            next-Keeps ffi doc P (del_event ffi codec e uid w) _
              (del_event-Keeps ffi doc P codec e uid w m) (λ a t n. n)

    change_all-Marks :
        (P : Bytes → Type 0) (cs : List Change) (s : Store ffi.Txn)
        → All (Names P) cs
        → Marks ffi doc P s.txn
        → Marks ffi doc P (change_all cs s).txn
    unfolding change_all
    change_all-Marks P [] s a m = m
    change_all-Marks P (puts e ∷ cs) s a m =
        change_all-Marks P cs (put ffi codec e s).1 a.1 (put-Marks ffi doc P codec e s a.0 m)
    change_all-Marks P (deletes id ∷ cs) s a m =
        change_all-Marks P cs (on_txn (del ffi codec id) s).1 a.1 (del-Keeps P id s.txn m)

    -- After any history of events put and deleted, in a store that held no marks of deletions, an
    -- event is refused as deleted only if its own id is the id of a deletion event of the history:
    -- an event that a deletion took out, and that is no deletion itself, is not refused again.
    pub put-deletion :
        (cs : List Change) (event : Event) (s t : Store ffi.Txn)
        → ((key uid : Bytes) → doc.has s.txn (entry t_deletion key uid) ≡ false)
        → put ffi codec event (change_all cs s) ≡ (ok CheckEventResult.deleted, t)
        → is_deletion cs event.index.id ≡ true
    put-deletion cs event s t clean h =
        put-deleted (λ id. is_deletion cs id ≡ true) event (change_all cs s) t
          (change_all-Marks (λ id. is_deletion cs id ≡ true) cs s (Names-self cs)
            (λ key uid marked. absurd (cc (sym (clean key uid) ∙ marked))))
          h
