-- ===== src/Db/Tables/Removed.antt =====
-- Deleting an event (db/src/db.rs, `del_event`): what it takes out of the trees.
use rnostr.Prelude.Order.{Bytes, Bytes-discrete}
use rnostr.Prelude.{
  ℕ, ◌≡◌, refl, Bool, true, false, not, ◌&&◌, Option, none, some, List, [], map, drop, any-append,
  ◌∷◌, ◌++◌, All, any, inl, inr, Bool-cases, holds, ◌==◌, arith, any-append,
}
use rnostr.Std.Words.{to_be}
use rnostr.Db.Error.{ok}
use rnostr.Db.Event.{EventIndex}
use rnostr.Db.Validate.{Event}
use rnostr.Db.Error.{ok}
use rnostr.Db.Codec.{Codec}
use rnostr.Kv.Lmdb.{Reply, success, not_found, failed, Ffi, get, del, Documented}
use rnostr.Kv.Lmdb.Writes.{next-eq-ok}
use rnostr.Db.Key.{
  concat, encode_replace_key, encode_tag, encode_pubkey, encode_pubkey_kind, encode_time, encode_id,
  encode_kind, encode_word,
}
use rnostr.Kv.Lmdb.{
  Tree, Reply, success, not_found, failed, Ffi, get, del, Entry, takes, Tree-discrete, Documented,
}
use rnostr.Db.Tables.{
  Removal, entry, t_data, t_index, t_id, t_kind, t_id_uid, t_uid_word, t_created_at, t_tag,
  t_pubkey, t_pubkey_kind, t_replacement, t_expiration, t_word, tag_entries, view_entries,
  word_entries, is_event_key, tag_removals, view_removals, word_removals, del_words, removals,
  del_event,
}

-- Some removal of the list takes the entry.
abbrev pub is_taken : List Removal → Entry → Bool
is_taken rs x = any (λ r. takes r.0 r.1 r.2 x) rs

-- Every entry but a deletion mark is taken.
abbrev pub Covers : List Removal → List Entry → Type 0
Covers rs = All (λ x. (x.tree.inner == 5) ≡ false → is_taken rs x ≡ true)

-- A removal takes the entry of its tree and key whose value it names, if it names one.
abbrev pub of_entry : Entry → Removal
of_entry x = (x.tree, x.key, some x.value)

holds_refl {ℓ} : {A : Type ℓ} (d : Discrete A) (a : A) → holds (d a a) ≡ true
holds_refl d a = elim (d a a) as (λ q. holds q ≡ true) [ yes p ↦ refl | no p ↦ absurd (p refl) ]

takes-key : (x : Entry) → takes x.tree x.key none x ≡ true
takes-key x = ground (arith, holds_refl Tree-discrete x.tree, holds_refl Bytes-discrete x.key)

takes-value : (x : Entry) → takes x.tree x.key (some x.value) x ≡ true
takes-value x = ground (
  arith,
  holds_refl Tree-discrete x.tree,
  holds_refl Bytes-discrete x.key,
  holds_refl Bytes-discrete x.value,
)

Covers-weaken :
    (r : Removal) (rs : List Removal) (es : List Entry) → Covers rs es → Covers (r ∷ rs) es
Covers-weaken r rs [] c = tt
Covers-weaken r rs (e ∷ es) c = (λ h. ground (arith, c.0 h), Covers-weaken r rs es c.1)

Covers-weaken_append :
    (qs rs : List Removal) (es : List Entry) → Covers rs es → Covers (qs ++ rs) es
Covers-weaken_append [] rs es c = c
Covers-weaken_append (q ∷ qs) rs es c =
    Covers-weaken q (qs ++ rs) es (Covers-weaken_append qs rs es c)

Covers-both :
    (r : Removal) (rs : List Removal) (e : Entry) (es : List Entry)
    → takes r.0 r.1 r.2 e ≡ true
    → Covers rs es
    → Covers (r ∷ rs) (e ∷ es)
Covers-both r rs e es h c = (λ p. ground (arith, h), Covers-weaken r rs es c)

Covers-append :
    (rs qs : List Removal) (es fs : List Entry)
    → Covers rs es
    → Covers qs fs
    → Covers (rs ++ qs) (es ++ fs)
Covers-append rs qs [] fs c d = Covers-weaken_append rs qs fs d
Covers-append rs qs (e ∷ es) fs c d = (
  λ h. ground (arith, c.0 h, any-append (λ r. takes r.0 r.1 r.2 e) rs qs),
  Covers-append rs qs es fs c.1 d,
)

tags-Covers :
    (e : EventIndex) (uid : Bytes) (tags : List (Bytes × Bytes))
    → Covers (tag_removals e uid tags) (tag_entries e uid tags)
unfolding tag_removals tag_entries
tags-Covers e uid [] = tt
tags-Covers e uid ((key, v) ∷ tags) =
    let x : Entry = entry t_tag (encode_tag key v e.created_at) (concat uid (to_be 2 e.kind)) in
    let rest =
      Covers-both (of_entry x) (tag_removals e uid tags) x (tag_entries e uid tags) (takes-value x)
        (tags-Covers e uid tags) in
    elim (Bool-cases (e.kind == 5 && is_event_key key)) [
      | inl h ↦ rw h (λ p. absurd (cc p), rest)
      | inr h ↦ rw h rest
    ]

optional-Covers :
    {A : Type 0} (f : A → List Removal) (g : A → List Entry) (o : Option A)
    → ((a : A) → Covers (f a) (g a))
    → Covers (elim o [ none ↦ [] | some a ↦ f a ]) (elim o [ none ↦ [] | some a ↦ g a ])
optional-Covers f g none h = tt
optional-Covers f g (some a) h = h a

-- Removals that name each entry of the list.
named-Covers :
    (xs : List Entry) (rs : List Removal) (es : List Entry)
    → Covers rs es
    → Covers (map of_entry xs ++ rs) (xs ++ es)
named-Covers [] rs es c = c
named-Covers (x ∷ xs) rs es c =
    Covers-both (of_entry x) (map of_entry xs ++ rs) x (xs ++ es) (takes-value x)
      (named-Covers xs rs es c)

lasts-Covers :
    (uid : Bytes) (key : Option Bytes) (time : Option ℕ)
    → Covers
        ((elim key [ none ↦ [] | some k ↦ (t_replacement, k, none) ∷ [] ])
          ++ (elim time [ none ↦ [] | some t ↦ (t_expiration, encode_time t, some uid) ∷ [] ]))
        ((elim key [ none ↦ [] | some k ↦ entry t_replacement k uid ∷ [] ])
          ++ (elim time [ none ↦ [] | some t ↦ entry t_expiration (encode_time t) uid ∷ [] ]))
lasts-Covers uid key time =
    Covers-append _ _ _ _
      (optional-Covers (λ k. (t_replacement, k, none) ∷ []) (λ k. entry t_replacement k uid ∷ [])
        key
        (λ k.
          Covers-both (t_replacement, k, none) [] (entry t_replacement k uid) []
            (takes-key (entry t_replacement k uid)) tt))
      (optional-Covers (λ t. (t_expiration, encode_time t, some uid) ∷ [])
        (λ t. entry t_expiration (encode_time t) uid ∷ []) time
        (λ t. named-Covers (entry t_expiration (encode_time t) uid ∷ []) [] [] tt))

views-Covers :
    (event : Event) (uid : Bytes)
    → Covers (drop 2 (view_removals event uid)) (
        view_entries event.index uid
          (encode_replace_key event.index.kind event.index.pubkey event.tags))
unfolding view_removals view_entries
views-Covers event uid =
    let e = event.index in
    let key = encode_replace_key e.kind e.pubkey event.tags in
    let rs = view_removals event uid in
    let es = view_entries e uid key in
    let ids : List Entry =
      entry t_id (encode_id e.id e.created_at) uid
      ∷ entry t_kind (encode_kind e.kind e.created_at) uid
      ∷ entry t_pubkey (encode_pubkey e.pubkey e.created_at) uid
      ∷ entry t_pubkey_kind (encode_pubkey_kind e.pubkey e.kind e.created_at) uid
      ∷ [] in
    let created : List Entry = entry t_created_at (encode_time e.created_at) uid ∷ [] in
    Covers-both (t_id_uid, e.id, none) (drop 3 rs) (entry t_id_uid e.id uid) (drop 1 es)
      (takes-key (entry t_id_uid e.id uid))
      (named-Covers ids (drop 7 rs) (drop 5 es) (
        Covers-append _ _ _ _
          (optional-Covers _ (λ d. delegated d) e.delegator
            (λ d. named-Covers (delegated d) [] [] tt))
          (named-Covers created _ _ (
            Covers-append (tag_removals e uid e.tags) _ (tag_entries e uid e.tags) _
              (tags-Covers e uid e.tags) (lasts-Covers uid key e.expiration)))))
  where
    delegated : Bytes → List Entry
    delegated d =
        entry t_pubkey (encode_pubkey d event.index.created_at) uid
        ∷ entry t_pubkey_kind (encode_pubkey_kind d event.index.kind event.index.created_at) uid
        ∷ []

words-Covers :
    (ffi : Ffi) (codec : Codec) (time : ℕ) (uid : Bytes) (words : List Bytes)
    → Covers (word_removals ffi codec time uid words) (word_entries ffi codec time uid words)
unfolding word_removals word_entries
words-Covers ffi codec time uid [] = tt
words-Covers ffi codec time uid (word ∷ words) =
    named-Covers (entry t_word (encode_word word time) uid ∷ []) _ _
      (words-Covers ffi codec time uid words)

module _ (ffi : Ffi) (codec : Codec) (doc : Documented ffi) where
  del-has :
      (tree : Tree) (key : Bytes) (value : Option Bytes) (w t : ffi.Txn) (x : Entry) (u : Unit {0})
      → del ffi tree key value w ≡ (ok u, t)
      → doc.has t x ≡ (not (takes tree key value x) && doc.has w x)
  unfolding del
  del-has tree key value w t x u h = answered (ffi.mdb_del w tree key value) refl
    where
      answered :
          (r : Reply ffi.Txn)
          → ffi.mdb_del w tree key value ≡ r
          → doc.has t x ≡ (not (takes tree key value x) && doc.has w x)
      answered (success s) p = doc.mdb_del_has w t tree key value x (ground arith)
      answered not_found p = ground (arith, doc.mdb_del_none w tree key value x p)
      answered failed p = absurd (ground arith)

  -- What is there after some removals was there, and none of them takes it.
  removals-has :
      (rs : List Removal) (w t : ffi.Txn) (x : Entry) (u : Unit {0})
      → removals ffi codec rs w ≡ (ok u, t)
      → doc.has t x ≡ (not (is_taken rs x) && doc.has w x)
  unfolding removals
  removals-has [] w t x u h = ground arith
  removals-has ((tree, key, value) ∷ rs) w t x u h =
      let (v, s, p, q) = next-eq-ok (del ffi tree key value w) _ h in
      ground (arith, del-has tree key value w s x v p, removals-has rs s t x u q)

  abbrev pub Gone : ffi.Txn → List Entry → Type 0
  Gone t = All (λ x. (x.tree.inner == 5) ≡ false → doc.has t x ≡ false)

  Covers-Gone :
      (rs : List Removal) (es : List Entry) (w t : ffi.Txn) (u : Unit {0})
      → Covers rs es
      → removals ffi codec rs w ≡ (ok u, t)
      → Gone t es
  Covers-Gone rs [] w t u c h = tt
  Covers-Gone rs (e ∷ es) w t u c h =
      (λ p. ground (arith, c.0 p, removals-has rs w t e u h), Covers-Gone rs es w t u c.1 h)

  -- After an event was deleted under its uid, its data, its index and all entries are gone that
  -- writing it under that uid makes in the trees that are searched, those for its tags included,
  -- but for its words and for the marks of the deletions that it asked for.
  pub del_event-Gone :
      (event : Event) (uid json bytes : Bytes) (w t : ffi.Txn)
      → del_event ffi codec event uid w ≡ (ok tt, t)
      → Gone t (
          entry t_data uid json
          ∷ entry t_index uid bytes
          ∷ view_entries event.index uid
              (encode_replace_key event.index.kind event.index.pubkey event.tags))
  unfolding del_event
  del_event-Gone event uid json bytes w t h =
      let (o, w1, p, q) = next-eq-ok (get ffi t_uid_word uid w) _ h in
      let (_, w2, r, s) = next-eq-ok (del_words ffi codec event.index.created_at uid o w1) _ q in
      let rs = view_removals event uid in
      let es =
        view_entries event.index uid
          (encode_replace_key event.index.kind event.index.pubkey event.tags) in
      Covers-Gone rs (entry t_data uid json ∷ entry t_index uid bytes ∷ es) w2 t tt
        (Covers-both (t_data, uid, none) (drop 1 rs) (entry t_data uid json)
          (entry t_index uid bytes ∷ es) (takes-key (entry t_data uid json))
          (Covers-both (t_index, uid, none) (drop 2 rs) (entry t_index uid bytes) es
            (takes-key (entry t_index uid bytes)) (views-Covers event uid)))
        s
