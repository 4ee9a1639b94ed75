-- ===== src/Db/Tables/Stored.antt =====
-- Writing an event (db/src/db.rs, `put_event`) and reading it back by its id.
use rnostr.Prelude.Order.{Bytes, Bytes-discrete}
use rnostr.Prelude.{
  ℕ, ◌+◌, ◌≤◌, ◌≡◌, ◌≢◌, refl, sym, ap, ◌∙◌, true, false, ◌&&◌, Option, none, some, List, [], ◌∷◌,
  ◌++◌, All, inl, inr, Bool-cases, is_empty, ◌==◌, if◌then◌else◌, arith, ap, drop,
}
use rnostr.Db.Error.{Outcome, ok, err, panicked}
use rnostr.Db.Event.{EventIndex}
use rnostr.Db.Validate.{Event}
use rnostr.Db.Codec.{Codec, FromEventData, as_message}
use rnostr.Kv.Lmdb.{Ffi, pure, next, get, put, Entry, clashes, Tree-discrete, Documented}
use rnostr.Kv.Lmdb.Writes.{next-eq-ok, puts, put_self, puts-keeps, put-has}
use rnostr.Db.Tables.{
  entry, t_data, t_index, t_id_uid, t_uid_word, delegator_entries, tag_entries, last_entries,
  view_entries, word_entries, put_words, put_event, get_uid, get_event_by_uid, read_with, with_uid,
  get_event, check_keys, is_event_key,
}

-- Entries of another tree do not clash.
pub clashes-other : (e x : Entry) → e.tree.inner ≢ x.tree.inner → clashes e x ≡ false
clashes-other e x h = elim (Tree-discrete e.tree x.tree) [
  | yes p ↦ absurd (h (ap (λ t. t.inner) p))
  | no p ↦ ground arith
]

-- Entries of another key do not clash.
pub clashes-key : (e x : Entry) → x.key ≢ e.key → clashes e x ≡ false
clashes-key e x h = elim (Bytes-discrete e.key x.key) [
  | yes p ↦ absurd (h (sym p))
  | no p ↦ ground arith
]

-- The entries of trees from the given one on.
abbrev pub From : ℕ → List Entry → Type 0
From n = All (λ e. n ≤ e.tree.inner)

pub From-append : (n : ℕ) (xs ys : List Entry) → From n xs → From n ys → From n (xs ++ ys)
From-append n [] ys p q = q
From-append n (x ∷ xs) ys p q = (p.0, From-append n xs ys p.1 q)

pub From-clashes :
    (n : ℕ) (es : List Entry) (x : Entry)
    → x.tree.inner + 1 ≤ n
    → From n es
    → All (λ e. clashes e x ≡ false) es
From-clashes n [] x h p = tt
From-clashes n (e ∷ es) x h p =
    (clashes-other e x (λ q. omega (arith, p.0)), From-clashes n es x h p.1)

tag_entries-From :
    (e : EventIndex) (uid : Bytes) (tags : List (Bytes × Bytes)) → From 4 (tag_entries e uid tags)
unfolding tag_entries
tag_entries-From e uid [] = tt
tag_entries-From e uid ((key, v) ∷ tags) = elim (Bool-cases (e.kind == 5 && is_event_key key)) [
  | inl h ↦ rw h (omega arith, (omega arith, tag_entries-From e uid tags))
  | inr h ↦ rw h (omega arith, tag_entries-From e uid tags)
]

optional-From :
    {A : Type 0} (f : A → List Entry) (o : Option A)
    → ((a : A) → From 4 (f a))
    → From 4 (elim o [ none ↦ [] | some a ↦ f a ])
optional-From f none h = tt
optional-From f (some a) h = h a

-- What `put_event` writes behind the uid of the id.
views-From :
    (e : EventIndex) (uid : Bytes) (key : Option Bytes) → From 4 (drop 1 (view_entries e uid key))
unfolding view_entries delegator_entries last_entries
views-From e uid key =
    let delegated : From 4 (delegator_entries e uid) =
      optional-From _ e.delegator (λ d. (omega arith, (omega arith, tt))) in
    let lasts : From 4 (last_entries e uid key) =
      From-append 4 _ _ (optional-From _ key (λ k. (omega arith, tt)))
        (optional-From _ e.expiration (λ t. (omega arith, tt))) in
    (
      omega arith,
      (
        omega arith,
        (
          omega arith,
          (
            omega arith,
            From-append 4 _ _ delegated
                (omega arith, From-append 4 _ _ (tag_entries-From e uid e.tags) lasts),
          ),
        ),
      ),
    )

words-From :
    (ffi : Ffi) (codec : Codec) (time : ℕ) (uid : Bytes) (words : List Bytes)
    → From 4 (word_entries ffi codec time uid words)
unfolding word_entries
words-From ffi codec time uid [] = tt
words-From ffi codec time uid (w ∷ words) = (omega arith, words-From ffi codec time uid words)

module _ (ffi : Ffi) (codec : Codec) (doc : Documented ffi) where
  words-keeps :
      (event : Event) (uid : Bytes) (w t : ffi.Txn) (x : Entry) (u : Unit {0})
      → x.tree.inner ≤ 3
      → put_words ffi codec event uid w ≡ (ok u, t)
      → doc.has w x ≡ true
      → doc.has t x ≡ true
  unfolding put_words
  words-keeps event uid w t x u b h p = elim (Bool-cases (is_empty event.words)) [
    | inl e ↦ ground arith
    | inr e ↦
        let (bytes, s, q, r) = next-eq-ok (codec.words_to_bytes event.words, w) _ (rw e at h) in
        puts-keeps ffi doc
          (entry t_uid_word uid bytes
            ∷ word_entries ffi codec event.index.created_at uid event.words)
          s t x u
          (From-clashes 4
            (entry t_uid_word uid bytes
              ∷ word_entries ffi codec event.index.created_at uid event.words)
            x (omega arith)
            (omega arith, words-From ffi codec event.index.created_at uid event.words))
          r (ground arith)
  ]

  -- The first of several writes is kept, and what it does not replace.
  first-keeps :
      (e : Entry) (es : List Entry) (w t : ffi.Txn) (u : Unit {0})
      → e.tree.inner ≤ 3
      → From 4 es
      → puts ffi (e ∷ es) w ≡ (ok u, t)
      → (doc.has t e ≡ true)
        × ((x : Entry)
            → x.tree.inner ≤ 3
            → clashes e x ≡ false
            → doc.has w x ≡ true
            → doc.has t x ≡ true)
  unfolding puts
  first-keeps e es w t u b later h =
      let (v, s, q, r) = next-eq-ok (put ffi e.tree e.key e.value w) _ h in
      (
        puts-keeps ffi doc es s t e u (From-clashes 4 es e (omega arith) later) r
            (put_self ffi doc w s e v q),
        λ x c d p.
            puts-keeps ffi doc es s t x u (From-clashes 4 es x (omega arith) later) r
              (ground (arith, put-has ffi doc w s e x v q)),
      )

  views-keeps :
      (e : EventIndex) (uid : Bytes) (key : Option Bytes) (w t : ffi.Txn) (u : Unit {0})
      → puts ffi (view_entries e uid key) w ≡ (ok u, t)
      → (doc.has t (entry t_id_uid e.id uid) ≡ true)
        × ((x : Entry)
            → x.tree.inner ≤ 3
            → clashes (entry t_id_uid e.id uid) x ≡ false
            → doc.has w x ≡ true
            → doc.has t x ≡ true)
  unfolding view_entries
  views-keeps e uid key w t u h =
      first-keeps (entry t_id_uid e.id uid) (drop 1 (view_entries e uid key)) w t u (omega arith)
        (views-From e uid key) h

  -- What an event that is written leaves: its data, its index and its uid under its id, and
  -- every entry of the first four trees that was there and is none of these.
  pub record Written (event : Event) (uid : Bytes) (w t : ffi.Txn) : Type 0 where
    pub json : Bytes
    pub bytes : Bytes
    pub to_json : codec.to_json event ≡ ok json
    pub to_bytes : codec.index_to_bytes event.index ≡ ok bytes
    pub data_kept : doc.has t (entry t_data uid json) ≡ true
    pub index_kept : doc.has t (entry t_index uid bytes) ≡ true
    pub uid_kept : doc.has t (entry t_id_uid event.index.id uid) ≡ true
    pub others_kept :
        (x : Entry)
        → x.tree.inner ≡ 3
        → x.key ≢ event.index.id
        → doc.has w x ≡ true
        → doc.has t x ≡ true

  steps-Written :
      (event : Event) (uid json bytes : Bytes) (key : Option Bytes) (w w1 w3 w4 t : ffi.Txn)
      (u1 u3 u4 u : Unit {0})
      → codec.to_json event ≡ ok json
      → put ffi t_data uid json w ≡ (ok u1, w1)
      → codec.index_to_bytes event.index ≡ ok bytes
      → put ffi t_index uid bytes w1 ≡ (ok u3, w3)
      → puts ffi (view_entries event.index uid key) w3 ≡ (ok u4, w4)
      → put_words ffi codec event uid w4 ≡ (ok u, t)
      → Written event uid w t
  steps-Written event uid json bytes key w w1 w3 w4 t u1 u3 u4 u j p1 b p3 p4 r4 =
      let words : (x : Entry) → x.tree.inner ≤ 3 → doc.has w4 x ≡ true → doc.has t x ≡ true =
        λ x b p. words-keeps event uid w4 t x u b r4 p in
      let (uid_here, views) = views-keeps event.index uid key w3 w4 u4 p4 in
      let indexed : (x : Entry) → 2 ≢ x.tree.inner → doc.has w1 x ≡ true → doc.has w3 x ≡ true =
        λ x c p. ground (
          arith,
          put-has ffi doc w1 w3 (entry t_index uid bytes) x u3 p3,
          clashes-other (entry t_index uid bytes) x c,
        ) in
      let written : (x : Entry) → 0 ≢ x.tree.inner → doc.has w x ≡ true → doc.has w1 x ≡ true =
        λ x c p. ground (
          arith,
          put-has ffi doc w w1 (entry t_data uid json) x u1 p1,
          clashes-other (entry t_data uid json) x c,
        ) in
      let later : (x : Entry) → x.tree.inner ≤ 2 → doc.has w3 x ≡ true → doc.has t x ≡ true =
        λ x b p. words x (omega arith) (
          views x (omega arith)
            (clashes-other (entry t_id_uid event.index.id uid) x (λ q. omega arith)) p) in
      record {
        json = json;
        bytes = bytes;
        to_json = j;
        to_bytes = b;
        data_kept =
            later _ (omega arith)
              (indexed _ (λ q. omega arith) (put_self ffi doc w w1 (entry t_data uid json) u1 p1));
        index_kept = later _ (omega arith) (put_self ffi doc w1 w3 (entry t_index uid bytes) u3 p3);
        uid_kept = words _ (omega arith) uid_here;
        others_kept = λ x tree key p. words x (omega arith) (
            views x (omega arith) (clashes-key (entry t_id_uid event.index.id uid) x key)
              (indexed x (λ q. omega arith) (written x (λ q. omega arith) p)));
      }

  pub put_event-Written :
      (event : Event) (uid : Bytes) (key : Option Bytes) (w t : ffi.Txn) (u : Unit {0})
      → put_event ffi codec event uid key w ≡ (ok u, t)
      → Written event uid w t
  unfolding put_event
  put_event-Written event uid key w t u h =
      let (json, w0, p0, r0) = next-eq-ok (codec.to_json event, w) _ h in
      let (u1, w1, p1, r1) = next-eq-ok (put ffi t_data uid json w0) _ r0 in
      let (bytes, w2, p2, r2) = next-eq-ok (codec.index_to_bytes event.index, w1) _ r1 in
      let (u3, w3, p3, r3) = next-eq-ok (put ffi t_index uid bytes w2) _ r2 in
      let (_, w5, p5, r5) = next-eq-ok (check_keys event.index.kind event.index.tags, w3) _ r3 in
      let (u4, w4, p4, r4) = next-eq-ok (puts ffi (view_entries event.index uid key) w5) _ r5 in
      steps-Written event uid json bytes key w w1 w3 w4 t u1 u3 u4 u (cc p0)
        (ap (λ s. put ffi t_data uid json s) (ap (λ q. q.1) p0) ∙ p1) (cc p2)
        (ap (λ s. put ffi t_index uid bytes s) (ap (λ q. q.1) p2) ∙ p3)
        (ap (λ s. puts ffi (view_entries event.index uid key) s) (ap (λ q. q.1) p5) ∙ p4) r4

  get-has :
      (t : ffi.Txn) (e : Entry)
      → e.tree.dup ≡ false
      → doc.has t e ≡ true
      → get ffi e.tree e.key t ≡ (ok (some e.value), t)
  unfolding get
  get-has t e d h = rw (doc.mdb_get_some t e.tree e.key e.value d h, get)

  -- What is read of an id under which a uid is kept.
  pub get_event-has :
      {R : Type 0} (r : FromEventData R) (id uid bytes json : Bytes) (t : ffi.Txn)
      → doc.has t (entry t_id_uid id uid) ≡ true
      → doc.has t (entry t_index uid bytes) ≡ true
      → doc.has t (entry t_data uid json) ≡ true
      → get_event ffi codec r id t
        ≡ next
            (
              as_message (
                  if r.only_id
                  then r.from_data (codec.archived_index bytes).id
                  else r.from_data json),
              t,
            )
            (λ a. pure (some (uid, a)))
  unfolding get_event get_uid with_uid get_event_by_uid read_with
  get_event-has {R} r id uid bytes json t p q s = elim (Bool-cases r.only_id) [
    | inl e ↦ rw (get-has t (entry t_id_uid id uid) refl p) (
        rw (e, get-has t (entry t_index uid bytes) refl q)
          (found (as_message (r.from_data (codec.archived_index bytes).id))))
    | inr e ↦
        rw (get-has t (entry t_id_uid id uid) refl p)
          (rw (e, get-has t (entry t_data uid json) refl s) (found (as_message (r.from_data json))))
  ]
    where
      found :
          (o : Outcome R)
          → next {B = Option (Bytes × R)}
              (next {B = Option R} (o, t) (λ a. pure (some a)))
              (λ event. pure (elim event [ none ↦ none | some a ↦ some (uid, a) ]))
            ≡ next (o, t) (λ a. pure (some (uid, a)))
      found (ok a) = refl
      found (err x) = refl
      found panicked = refl
