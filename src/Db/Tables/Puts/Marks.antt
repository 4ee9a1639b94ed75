-- ===== src/Db/Tables/Puts/Marks.antt =====
-- The marks of deletions (db/src/db.rs, the tree `t_deletion`): which of them are written, and
-- which events they keep out.
use rnostr.Prelude.Order.{Bytes}
use rnostr.Prelude.{
  ℕ, ◌+◌, ◌≡◌, refl, ap, subst, Bool, true, false, Option, none, some, List, [], ◌∷◌, All, length,
  take, ltb, if◌then◌else◌, arith,
}
use rnostr.Std.Text.{codes, text_eq}
use rnostr.Db.Error.{Outcome, ok, err, panicked, kv}
use rnostr.Db.Validate.{Event}
use rnostr.Db.Store.{CheckEventResult}
use rnostr.Db.Codec.{Codec, FromEventData, event_data, as_message}
use rnostr.Kv.Lmdb.{
  Tree, Reply, success, not_found, failed, Ffi, Act, pure, next, ◌>>=◌, get, put, del, Entry,
  Entry-discrete, Documented,
}
use rnostr.Kv.Lmdb.Writes.{puts}
use rnostr.Db.Tables.{
  Removal, entry, t_deletion, t_index, t_data, t_id_uid, t_uid_word, t_replacement, view_removals,
  word_removals, removals, del_words, del_event, get_uid, read_with, get_event_by_uid, with_uid,
  get_event,
}
use rnostr.Db.Tables.Puts.{
  goes_on, answers, may_delete, is_newer, max_tag_value_size, delete_found, delete_tagged,
  replace_old, find_old, check_replacement,
}

module _ (ffi : Ffi) (doc : Documented ffi) (P : Bytes → Type 0) where
  -- Every mark stands under a key that begins with an id of which the predicate holds.
  abbrev pub Marks : ffi.Txn → Type 0
  Marks w = (key uid : Bytes) → doc.has w (entry t_deletion key uid) ≡ true → P (take 32 key)

  abbrev pub Keeps : {A : Type 0} → Act ffi.Txn A → Type 0
  Keeps m = (w : ffi.Txn) → Marks w → Marks (m w).1

  pub next-Keeps :
      {A B : Type 0} (r : Outcome A × ffi.Txn) (f : A → Act ffi.Txn B)
      → Marks r.1
      → ((a : A) → Keeps (f a))
      → Marks (next r f).1
  next-Keeps (ok a, w) f m h = h a w m
  next-Keeps (err x, w) f m h = m
  next-Keeps (panicked, w) f m h = m

  abbrev pub Fits : Entry → Type 0
  Fits e = (e.tree.inner ≡ 5) → P (take 32 e.key)

  pub put-Keeps : (e : Entry) → Fits e → Keeps (put ffi e.tree e.key e.value)
  unfolding put
  put-Keeps e fits w m = split (ffi.mdb_put w e.tree e.key e.value) refl
    where
      split :
          (r : Reply ffi.Txn)
          → ffi.mdb_put w e.tree e.key e.value ≡ r
          → Marks
              (elim r as (λ _. Outcome (Unit {0}) × ffi.Txn) [
                | success t ↦ (ok tt, t)
                | not_found ↦ (err kv, w)
                | failed ↦ (err kv, w)
              ]).1
      split not_found p = m
      split failed p = m
      split (success t) p = λ key uid h. elim (Entry-discrete e (entry t_deletion key uid)) [
        | yes q ↦ subst (λ k. P (take 32 k)) (ap (λ x. x.key) q) (fits (ap (λ x. x.tree.inner) q))
        | no q ↦ m key uid (ground (arith, doc.mdb_put_has w t e (entry t_deletion key uid) p))
      ]

  pub puts-Keeps : (es : List Entry) → All Fits es → Keeps (puts ffi es)
  unfolding puts
  puts-Keeps [] a w m = m
  puts-Keeps (e ∷ es) a w m =
      next-Keeps (put ffi e.tree e.key e.value w) _ (put-Keeps e a.0 w m) (λ _. puts-Keeps es a.1)

  pub del-Keeps :
      (tree : Tree) (key : Bytes) (value : Option Bytes) → Keeps (del ffi tree key value)
  unfolding del
  del-Keeps tree key value w m = split (ffi.mdb_del w tree key value) refl
    where
      split :
          (r : Reply ffi.Txn)
          → ffi.mdb_del w tree key value ≡ r
          → Marks
              (elim r as (λ _. Outcome (Unit {0}) × ffi.Txn) [
                | success t ↦ (ok tt, t)
                | not_found ↦ (ok tt, w)
                | failed ↦ (err kv, w)
              ]).1
      split not_found p = m
      split failed p = m
      split (success t) p = λ k uid h.
          m k uid (ground (arith, doc.mdb_del_has w t tree key value (entry t_deletion k uid) p))

  pub get-Keeps : (tree : Tree) (key : Bytes) → Keeps (get ffi tree key)
  unfolding get
  get-Keeps tree key w m = split (ffi.mdb_get w tree key)
    where
      split :
          (r : Reply Bytes)
          → Marks
              (elim r as (λ _. Outcome (Option Bytes) × ffi.Txn) [
                | success v ↦ (ok (some v), w)
                | not_found ↦ (ok none, w)
                | failed ↦ (err kv, w)
              ]).1
      split (success v) = m
      split not_found = m
      split failed = m

  -- The next part of the code changes the trees by deletions and reads only.
  module _ (codec : Codec) where
    pub removals-Keeps : (rs : List Removal) → Keeps (removals ffi codec rs)
    unfolding removals
    removals-Keeps [] w m = m
    removals-Keeps ((tree, key, value) ∷ rs) w m =
        next-Keeps (del ffi tree key value w) _ (del-Keeps tree key value w m)
          (λ _. removals-Keeps rs)

    pub del_words-Keeps :
        (time : ℕ) (uid : Bytes) (o : Option Bytes) → Keeps (del_words ffi codec time uid o)
    unfolding del_words
    del_words-Keeps time uid none w m = m
    del_words-Keeps time uid (some bytes) w m =
        next-Keeps (del ffi t_uid_word uid none w) _ (del-Keeps t_uid_word uid none w m)
          (λ _. removals-Keeps (word_removals ffi codec time uid (codec.archived_words bytes)))

    pub del_event-Keeps : (e : Event) (uid : Bytes) → Keeps (del_event ffi codec e uid)
    unfolding del_event
    del_event-Keeps e uid w m =
        next-Keeps (get ffi t_uid_word uid w) _ (get-Keeps t_uid_word uid w m) (λ o t n.
          next-Keeps (del_words ffi codec e.index.created_at uid o t) _
            (del_words-Keeps e.index.created_at uid o t n)
            (λ _. removals-Keeps (view_removals e uid)))

    pub read_with-Keeps :
        {R : Type 0} (f : Bytes → Outcome R) (o : Option Bytes) → Keeps (read_with ffi codec f o)
    unfolding read_with
    read_with-Keeps f none w m = m
    read_with-Keeps f (some b) w m = next-Keeps (as_message (f b), w) _ m (λ a t n. n)

    pub get_event_by_uid-Keeps :
        {R : Type 0} (r : FromEventData R) (uid : Bytes) → Keeps (get_event_by_uid ffi codec r uid)
    unfolding get_event_by_uid
    get_event_by_uid-Keeps {R} r uid w m = split r.only_id
      where
        split :
            (b : Bool)
            → Marks
                ((if b
                    then get ffi t_index uid
                      >>= read_with ffi codec (λ bytes. r.from_data (codec.archived_index bytes).id)
                    else (get ffi t_data uid >>= read_with ffi codec r.from_data))
                  w).1
        split true =
            next-Keeps (get ffi t_index uid w) _ (get-Keeps t_index uid w m) (read_with-Keeps _)
        split false =
            next-Keeps (get ffi t_data uid w) _ (get-Keeps t_data uid w m) (read_with-Keeps _)

    pub with_uid-Keeps :
        {R : Type 0} (r : FromEventData R) (o : Option Bytes) → Keeps (with_uid ffi codec r o)
    unfolding with_uid
    with_uid-Keeps r none w m = m
    with_uid-Keeps r (some uid) w m =
        next-Keeps (get_event_by_uid ffi codec r uid w) _ (get_event_by_uid-Keeps r uid w m)
          (λ a t n. n)

    pub get_event-Keeps :
        {R : Type 0} (r : FromEventData R) (id : Bytes) → Keeps (get_event ffi codec r id)
    unfolding get_event get_uid
    get_event-Keeps r id w m =
        next-Keeps (get ffi t_id_uid id w) _ (get-Keeps t_id_uid id w m) (with_uid-Keeps r)

    pub delete_found-Keeps :
        (by : Event) (o : Option (Bytes × Event)) → Keeps (delete_found ffi codec by o)
    unfolding delete_found
    delete_found-Keeps by none w m = m
    delete_found-Keeps by (some (uid, e)) w m = split (may_delete by e)
      where
        split :
            (b : Bool)
            → Marks
                ((if b then (del_event ffi codec e uid >>= λ _. pure 1) else pure {A = ℕ} 0) w).1
        split true =
            next-Keeps (del_event ffi codec e uid w) _ (del_event-Keeps e uid w m) (λ a t n. n)
        split false = m

    pub delete_tagged-Keeps :
        (by : Event) (tags : List (Bytes × Bytes)) → Keeps (delete_tagged ffi codec by tags)
    unfolding delete_tagged
    delete_tagged-Keeps by [] w m = m
    delete_tagged-Keeps by ((key, v) ∷ tags) w m =
        split (delete_tagged-Keeps by tags) (text_eq key (codes "e"))
      where
        split :
            Keeps (delete_tagged ffi codec by tags)
            → (b : Bool)
            → Marks
                ((if b
                    then (get_event ffi codec (event_data codec) v >>= λ found.
                        delete_found ffi codec by found >>= λ n.
                        delete_tagged ffi codec by tags >>= λ k. pure (n + k))
                    else delete_tagged ffi codec by tags)
                  w).1
        split ih true =
            next-Keeps (get_event ffi codec (event_data codec) v w) _
              (get_event-Keeps (event_data codec) v w m)
              (λ found t n.
                next-Keeps (delete_found ffi codec by found t) _ (delete_found-Keeps by found t n)
                  (λ c u k. next-Keeps (delete_tagged ffi codec by tags u) _ (ih u k) (λ a t n. n)))
        split ih false = ih w m

    pub replace_old-Keeps :
        (event : Event) (n : ℕ) (uid : Bytes) (o : Option Event)
        → Keeps (replace_old ffi codec event n uid o)
    unfolding replace_old
    replace_old-Keeps event n uid none w m = m
    replace_old-Keeps event n uid (some e) w m = split (is_newer e.index event.index)
      where
        split :
            (b : Bool)
            → Marks
                ((if b
                    then pure (answers CheckEventResult.replace_ignored)
                    else (del_event ffi codec e uid >>= λ _. pure (goes_on (n + 1))))
                  w).1
        split true = m
        split false =
            next-Keeps (del_event ffi codec e uid w) _ (del_event-Keeps e uid w m) (λ a t n. n)

    pub find_old-Keeps :
        (event : Event) (n : ℕ) (o : Option Bytes) → Keeps (find_old ffi codec event n o)
    unfolding find_old
    find_old-Keeps event n none w m = m
    find_old-Keeps event n (some uid) w m =
        next-Keeps (get_event_by_uid ffi codec (event_data codec) uid w) _
          (get_event_by_uid-Keeps (event_data codec) uid w m) (replace_old-Keeps event n uid)

    pub check_replacement-Keeps :
        (event : Event) (n : ℕ) (o : Option Bytes) → Keeps (check_replacement ffi codec event n o)
    unfolding check_replacement
    check_replacement-Keeps event n none w m = m
    check_replacement-Keeps event n (some key) w m =
        split (ltb (max_tag_value_size + 8 + 32) (length key))
      where
        split :
            (b : Bool)
            → Marks
                ((if b
                    then pure (answers (CheckEventResult.invalid "invalid replace key"))
                    else (get ffi t_replacement key >>= find_old ffi codec event n))
                  w).1
        split true = m
        split false =
            next-Keeps (get ffi t_replacement key w) _ (get-Keeps t_replacement key w m)
              (find_old-Keeps event n)
