-- ===== src/Db/Tables/Puts/Deleted.antt =====
-- Which events are kept out as deleted (db/src/db.rs, `put`).
use rnostr.Prelude.Order.{Bytes}
use rnostr.Prelude.{
  ℕ, ◌+◌, ◌≡◌, refl, sym, subst, Bool, true, false, not, ◌&&◌, ◌||◌, Option, none, some, List, [],
  ◌∷◌, ◌++◌, All, inl, inr, Bool-cases, length, take-append, is_empty, ◌==◌, if◌then◌else◌, arith,
}
use rnostr.Db.Error.{Outcome, ok, err, panicked}
use rnostr.Db.Event.{EventIndex}
use rnostr.Db.Validate.{Event}
use rnostr.Db.Store.{CheckEventResult}
use rnostr.Db.Codec.{Codec}
use rnostr.Db.Key.{concat, encode_replace_key, u64_to_ver}
use rnostr.Kv.Lmdb
use rnostr.Kv.Lmdb.{
  lift, Reply, success, not_found, failed, Ffi, Act, pure, next, ◌>>=◌, get, Entry, Documented,
}
use rnostr.Kv.Lmdb.Writes.{puts}
use rnostr.Db.Tables.{
  entry, t_deletion, t_index, t_data, t_id_uid, t_uid_word, is_event_key, check_keys,
  delegator_entries, tag_entries, last_entries, view_entries, word_entries, put_words, put_event,
  get_uid,
}
use rnostr.Db.Tables.Puts.{
  Store, on_txn, Step, goes_on, answers, delete_tagged, prepare, check_deleted, check_duplicate,
  store, put,
}
use rnostr.Db.Tables.Puts.Marks.{
  Marks, Keeps, next-Keeps, Fits, put-Keeps, puts-Keeps, get-Keeps, delete_tagged-Keeps,
  check_replacement-Keeps,
}

All-append {ℓ} :
    {A : Type ℓ} (P : A → Type 0) (xs ys : List A) → All P xs → All P ys → All P (xs ++ ys)
All-append P [] ys p q = q
All-append P (x ∷ xs) ys p q = (p.0, All-append P xs ys p.1 q)

module _ (ffi : Ffi) (doc : Documented ffi) (P : Bytes → Type 0) where
  module _ (e : EventIndex) (marked : (e.kind == 5) ≡ true → P e.id) (size : length e.id ≡ 32) where
    tags-Fits :
        (uid : Bytes) (tags : List (Bytes × Bytes)) → All (Fits ffi doc P) (tag_entries e uid tags)
    unfolding tag_entries concat
    tags-Fits uid [] = tt
    tags-Fits uid ((key, v) ∷ tags) = elim (Bool-cases (e.kind == 5 && is_event_key key)) [
      | inl h ↦ rw h (
        λ _. subst P (sym (take-append 32 e.id v size)) (marked (ground arith)),
        ((λ q. absurd (omega arith)), tags-Fits uid tags),
      )
      | inr h ↦ rw h ((λ q. absurd (omega arith)), tags-Fits uid tags)
    ]

    optional-Fits :
        {A : Type 0} (f : A → List Entry) (o : Option A)
        → ((a : A) → All (Fits ffi doc P) (f a))
        → All (Fits ffi doc P) (elim o [ none ↦ [] | some a ↦ f a ])
    optional-Fits f none h = tt
    optional-Fits f (some a) h = h a

    views-Fits : (uid : Bytes) (key : Option Bytes) → All (Fits ffi doc P) (view_entries e uid key)
    unfolding view_entries delegator_entries last_entries
    views-Fits uid key =
        let delegated : All (Fits ffi doc P) (delegator_entries e uid) =
          optional-Fits _ e.delegator
            (λ d. ((λ q. absurd (omega arith)), ((λ q. absurd (omega arith)), tt))) in
        let lasts : All (Fits ffi doc P) (last_entries e uid key) =
          All-append (Fits ffi doc P) _ _
            (optional-Fits _ key (λ k. ((λ q. absurd (omega arith)), tt)))
            (optional-Fits _ e.expiration (λ t. ((λ q. absurd (omega arith)), tt))) in
        (
          (λ q. absurd (omega arith)),
          (
            (λ q. absurd (omega arith)),
            (
              (λ q. absurd (omega arith)),
              (
                (λ q. absurd (omega arith)),
                (
                  (λ q. absurd (omega arith)),
                  All-append (Fits ffi doc P) _ _ delegated (
                    (λ q. absurd (omega arith)),
                    All-append (Fits ffi doc P) _ _ (tags-Fits uid e.tags) lasts,
                  ),
                ),
              ),
            ),
          ),
        )

  words-Fits :
      (codec : Codec) (time : ℕ) (uid : Bytes) (words : List Bytes)
      → All (Fits ffi doc P) (word_entries ffi codec time uid words)
  unfolding word_entries
  words-Fits codec time uid [] = tt
  words-Fits codec time uid (w ∷ words) =
      ((λ q. absurd (omega arith)), words-Fits codec time uid words)

  module _ (codec : Codec) where
    put_words-Keeps :
        (event : Event) (uid : Bytes) → Keeps ffi doc P (put_words ffi codec event uid)
    unfolding put_words
    put_words-Keeps event uid w m = split (is_empty event.words)
      where
        split :
            (b : Bool)
            → Marks ffi doc P
                ((if b
                    then pure tt
                    else (lift (codec.words_to_bytes event.words) >>= λ bytes. puts ffi (
                        entry t_uid_word uid bytes
                        ∷ word_entries ffi codec event.index.created_at uid event.words)))
                  w).1
        split true = m
        split false =
            next-Keeps ffi doc P (codec.words_to_bytes event.words, w) _ m
              (λ bytes.
                puts-Keeps ffi doc P
                  (entry t_uid_word uid bytes
                    ∷ word_entries ffi codec event.index.created_at uid event.words)
                  (
                    (λ q. absurd (omega arith)),
                    words-Fits codec event.index.created_at uid event.words,
                  ))

    put_event-Keeps :
        (event : Event) (uid : Bytes) (key : Option Bytes)
        → ((event.index.kind == 5) ≡ true → P event.index.id)
        → length event.index.id ≡ 32
        → Keeps ffi doc P (put_event ffi codec event uid key)
    unfolding put_event
    put_event-Keeps event uid key marked size w m =
        next-Keeps ffi doc P (codec.to_json event, w) _ m
          (λ json w1 m1.
            next-Keeps ffi doc P (Lmdb.put ffi t_data uid json w1) _
              (put-Keeps ffi doc P (entry t_data uid json) (λ q. absurd (omega arith)) w1 m1)
              (λ _ w2 m2.
                next-Keeps ffi doc P (codec.index_to_bytes event.index, w2) _ m2
                  (λ bytes w3 m3.
                    next-Keeps ffi doc P (Lmdb.put ffi t_index uid bytes w3) _
                      (put-Keeps ffi doc P (entry t_index uid bytes) (λ q. absurd (omega arith)) w3
                        m3)
                      (λ _ w4 m4.
                        next-Keeps ffi doc P (check_keys event.index.kind event.index.tags, w4) _ m4
                          (λ _ w5 m5.
                            next-Keeps ffi doc P (puts ffi (view_entries event.index uid key) w5) _
                              (puts-Keeps ffi doc P (view_entries event.index uid key)
                                (views-Fits event.index marked size uid key) w5 m5)
                              (λ _. put_words-Keeps event uid))))))

    prepare-Keeps : (event : Event) → Keeps ffi doc P (prepare ffi codec event)
    unfolding prepare
    prepare-Keeps event w m =
        next-Keeps ffi doc P
          ((if event.index.kind == 5
              then delete_tagged ffi codec event event.index.tags
              else pure 0)
            w)
          _ (split (event.index.kind == 5))
          (λ n.
            check_replacement-Keeps ffi doc P codec event n
              (encode_replace_key event.index.kind event.index.pubkey event.tags))
      where
        split :
            (b : Bool)
            → Marks ffi doc P
                ((if b then delete_tagged ffi codec event event.index.tags else pure 0) w).1
        split true = delete_tagged-Keeps ffi doc P codec event event.index.tags w m
        split false = m

    check_deleted-Keeps :
        (event : Event) (o : Option Bytes) → Keeps ffi doc P (check_deleted ffi codec event o)
    unfolding check_deleted
    check_deleted-Keeps event none w m = prepare-Keeps event w m
    check_deleted-Keeps event (some b) w m = m

    check_duplicate-Keeps :
        (event : Event) (o : Option Bytes) → Keeps ffi doc P (check_duplicate ffi codec event o)
    unfolding check_duplicate
    check_duplicate-Keeps event none w m =
        next-Keeps ffi doc P (get ffi t_deletion (concat event.index.id event.index.pubkey) w) _
          (get-Keeps ffi doc P t_deletion (concat event.index.id event.index.pubkey) w m)
          (check_deleted-Keeps event)
    check_duplicate-Keeps event (some b) w m = m

    on_txn-Marks :
        {A B : Type 0} (m : Act ffi.Txn A) (f : A → Act (Store ffi.Txn) B) (s : Store ffi.Txn)
        → Marks ffi doc P (m s.txn).1
        → ((a : A) (u : Store ffi.Txn) → Marks ffi doc P u.txn → Marks ffi doc P (f a u).1.txn)
        → Marks ffi doc P (next (on_txn m s) f).1.txn
    on_txn-Marks {A} {B} m f s k h = split (m s.txn) k
      where
        split :
            (r : Outcome A × ffi.Txn)
            → Marks ffi doc P r.1
            → Marks ffi doc P (next (r.0, record s { txn = r.1 }) f).1.txn
        split (ok a, w) k = h a (record s { txn = w }) k
        split (err x, w) k = k
        split (panicked, w) k = k

    -- The marks stay under ids of deletions, whatever `put` answers, an error included.
    pub put-Marks :
        (event : Event) (s : Store ffi.Txn)
        → ((event.index.kind == 5) ≡ true → P event.index.id)
        → Marks ffi doc P s.txn
        → Marks ffi doc P (put ffi codec event s).1.txn
    unfolding put store get_uid
    put-Marks event s marked m =
        split (not (length event.index.id == 32) || not (length event.index.pubkey == 32)) refl
      where
        stored :
            length event.index.id ≡ 32
            → (step : Step) (u : Store ffi.Txn) → Marks ffi doc P u.txn
            → Marks ffi doc P (store ffi codec event step u).1.txn
        stored size (answers r) u k = k
        stored size (goes_on n) u k =
            on_txn-Marks
              (put_event ffi codec event (u64_to_ver u.seq)
                (encode_replace_key event.index.kind event.index.pubkey event.tags))
              _ (record u { seq = u.seq + 1 })
              (put_event-Keeps event (u64_to_ver u.seq)
                (encode_replace_key event.index.kind event.index.pubkey event.tags) marked size
                u.txn k)
              (λ a v l. l)

        split :
            (b : Bool)
            → (not (length event.index.id == 32) || not (length event.index.pubkey == 32)) ≡ b
            → Marks ffi doc P
                ((if b
                    then pure (CheckEventResult.invalid "invalid event id or pubkey")
                    else (on_txn
                          (get_uid ffi codec event.index.id >>= check_duplicate ffi codec event)
                        >>= store ffi codec event))
                  s).1.txn
        split true e = m
        split false e =
            on_txn-Marks (get_uid ffi codec event.index.id >>= check_duplicate ffi codec event)
              (store ffi codec event) s
              (next-Keeps ffi doc P (get ffi t_id_uid event.index.id s.txn) _
                (get-Keeps ffi doc P t_id_uid event.index.id s.txn m) (check_duplicate-Keeps event))
              (stored (ground arith))
