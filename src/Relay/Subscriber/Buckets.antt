-- ===== src/Relay/Subscriber/Buckets.antt =====
-- The index maps (relay/src/subscriber.rs) seen as one family of buckets, one for each value that an
-- event can be looked up by.
use rnostr.Prelude.Order.{Bytes, Bytes-discrete}
use rnostr.Prelude.Maps.{
  Map, get, insert, remove, get-insert, get-remove, Distinct, insert-Distinct, remove-Distinct,
}
use rnostr.Prelude.{
  ◌≡◌, refl, sym, true, ◌&&◌, if◌then◌else◌, holds, none, some, List, [], ◌∷◌, ◌++◌, subst,
  is_empty, has, Option-cases, Bool-cases, inl, inr, arith,
}
use rnostr.Db.Filter.{SortList}
use rnostr.Relay.Subscriber.Keyed.{
  Key, Key-discrete, Rc, Entries, concat_tag, or_default, entry_insert, entry_remove, insert_keys,
  remove_keys, insert_values, insert_tags, remove_values, remove_tags,
}

module _ {T : Type 0} (dec : Discrete T) where
  -- The entries under a key of an index map.
  abbrev pub under : Map T Entries → T → Entries
  under m k = or_default (get dec k m)

  under-entry_insert :
      (m : Map T Entries) (k : T) (key : Key) (w : Rc) (k' : T)
      → under (entry_insert dec m k key w) k'
        ≡ (if holds (dec k k') then insert Key-discrete key w (under m k') else under m k')
  unfolding entry_insert
  under-entry_insert m k key w k' =
      ground (arith, get-insert dec k (insert Key-discrete key w (under m k)) k' m)

  emptied : (e : Entries) → is_empty e ≡ true → e ≡ []
  emptied [] h = refl
  emptied (x ∷ e) h = cc

  under-entry_remove :
      (m : Map T Entries) (k : T) (key : Key) (k' : T)
      → under (entry_remove dec m k key) k'
        ≡ (if holds (dec k k') then remove Key-discrete key (under m k') else under m k')
  under-entry_remove m k key k' = elim (Option-cases (get dec k m)) [
    | inl e ↦ unfold entry_remove remove in rw (e, entry_remove) (ground arith)
    | inr (entries, e) ↦ elim (Bool-cases (is_empty (remove Key-discrete key entries))) [
      | inl b ↦
          unfold entry_remove in
          ground (arith, get-remove dec k k' m, emptied (remove Key-discrete key entries) b)
      | inr b ↦
          unfold entry_remove in
          ground (arith, get-insert dec k (remove Key-discrete key entries) k' m)
    ]
  ]

  pub get-insert_keys :
      (m : Map T Entries) (ks : List T) (key : Key) (w : Rc) (k : T) (key' : Key)
      → get Key-discrete key' (under (insert_keys dec m ks key w) k) ≡ (
          if has dec k ks && holds (Key-discrete key key')
          then some w
          else get Key-discrete key' (under m k))
  unfolding insert_keys
  get-insert_keys m [] key w k key' = refl
  get-insert_keys m (j ∷ ks) key w k key' = ground (
    arith,
    get-insert_keys (entry_insert dec m j key w) ks key w k key',
    under-entry_insert m j key w k,
    get-insert Key-discrete key w key' (under m k),
  )

  pub get-remove_keys :
      (m : Map T Entries) (ks : List T) (key : Key) (k : T) (key' : Key)
      → get Key-discrete key' (under (remove_keys dec m ks key) k) ≡ (
          if has dec k ks && holds (Key-discrete key key')
          then none
          else get Key-discrete key' (under m k))
  unfolding remove_keys
  get-remove_keys m [] key k key' = refl
  get-remove_keys m (j ∷ ks) key k key' = ground (
    arith,
    get-remove_keys (entry_remove dec m j key) ks key k key',
    under-entry_remove m j key k,
    get-remove Key-discrete key key' (under m k),
  )

  pub entry_insert-Distinct :
      (m : Map T Entries) (k : T) (key : Key) (w : Rc)
      → ((q : T) → Distinct Key-discrete (under m q))
      → (q : T) → Distinct Key-discrete (under (entry_insert dec m k key w) q)
  entry_insert-Distinct m k key w d q =
      subst (Distinct Key-discrete) (sym (under-entry_insert m k key w q)) (pick (dec k q))
    where
      pick :
          (b : Dec (k ≡ q))
          → Distinct Key-discrete
              (if holds b then insert Key-discrete key w (under m q) else under m q)
      pick (yes _) = insert-Distinct Key-discrete key w (under m q) (d q)
      pick (no _) = d q

  pub entry_remove-Distinct :
      (m : Map T Entries) (k : T) (key : Key)
      → ((q : T) → Distinct Key-discrete (under m q))
      → (q : T) → Distinct Key-discrete (under (entry_remove dec m k key) q)
  entry_remove-Distinct m k key d q =
      subst (Distinct Key-discrete) (sym (under-entry_remove m k key q)) (pick (dec k q))
    where
      pick :
          (b : Dec (k ≡ q))
          → Distinct Key-discrete
              (if holds b then remove Key-discrete key (under m q) else under m q)
      pick (yes _) = remove-Distinct Key-discrete key (under m q) (d q)
      pick (no _) = d q

  pub insert_keys-Distinct :
      (m : Map T Entries) (ks : List T) (key : Key) (w : Rc)
      → ((q : T) → Distinct Key-discrete (under m q))
      → (q : T) → Distinct Key-discrete (under (insert_keys dec m ks key w) q)
  unfolding insert_keys
  insert_keys-Distinct m [] key w d = d
  insert_keys-Distinct m (k ∷ ks) key w d =
      insert_keys-Distinct (entry_insert dec m k key w) ks key w (entry_insert-Distinct m k key w d)

  pub remove_keys-Distinct :
      (m : Map T Entries) (ks : List T) (key : Key)
      → ((q : T) → Distinct Key-discrete (under m q))
      → (q : T) → Distinct Key-discrete (under (remove_keys dec m ks key) q)
  unfolding remove_keys
  remove_keys-Distinct m [] key d = d
  remove_keys-Distinct m (k ∷ ks) key d =
      remove_keys-Distinct (entry_remove dec m k key) ks key (entry_remove-Distinct m k key d)

-- The tag maps are changed at the joined keys.
unfoldable pub joined_values : Bytes → List Bytes → List Bytes
unfolding concat_tag
joined_values tag [] = []
joined_values tag (val ∷ vals) = concat_tag tag val ∷ joined_values tag vals

unfoldable pub joined : Map Bytes (SortList Bytes) → List Bytes
unfolding joined_values
joined [] = []
joined ((tag, values) ∷ tags) = joined_values tag values ++ joined tags

insert_keys-append :
    (m : Map Bytes Entries) (ks js : List Bytes) (key : Key) (w : Rc)
    → insert_keys Bytes-discrete m (ks ++ js) key w
      ≡ insert_keys Bytes-discrete (insert_keys Bytes-discrete m ks key w) js key w
unfolding insert_keys
insert_keys-append m [] js key w = refl
insert_keys-append m (k ∷ ks) js key w =
    insert_keys-append (entry_insert Bytes-discrete m k key w) ks js key w

remove_keys-append :
    (m : Map Bytes Entries) (ks js : List Bytes) (key : Key)
    → remove_keys Bytes-discrete m (ks ++ js) key
      ≡ remove_keys Bytes-discrete (remove_keys Bytes-discrete m ks key) js key
unfolding remove_keys
remove_keys-append m [] js key = refl
remove_keys-append m (k ∷ ks) js key =
    remove_keys-append (entry_remove Bytes-discrete m k key) ks js key

insert_values_lem :
    (m : Map Bytes Entries) (tag : Bytes) (vals : List Bytes) (key : Key) (w : Rc)
    → insert_values m tag vals key w ≡ insert_keys Bytes-discrete m (joined_values tag vals) key w
unfolding insert_values insert_keys joined_values
insert_values_lem m tag [] key w = refl
insert_values_lem m tag (v ∷ vals) key w =
    insert_values_lem (entry_insert Bytes-discrete m (concat_tag tag v) key w) tag vals key w

remove_values_lem :
    (m : Map Bytes Entries) (tag : Bytes) (vals : List Bytes) (key : Key)
    → remove_values m tag vals key ≡ remove_keys Bytes-discrete m (joined_values tag vals) key
unfolding remove_values remove_keys joined_values
remove_values_lem m tag [] key = refl
remove_values_lem m tag (v ∷ vals) key =
    remove_values_lem (entry_remove Bytes-discrete m (concat_tag tag v) key) tag vals key

pub insert_tags_lem :
    (m : Map Bytes Entries) (tags : Map Bytes (SortList Bytes)) (key : Key) (w : Rc)
    → insert_tags m tags key w ≡ insert_keys Bytes-discrete m (joined tags) key w
unfolding insert_tags joined
insert_tags_lem m [] key w = unfold insert_keys in refl
insert_tags_lem m ((tag, values) ∷ tags) key w = cc (
  insert_tags_lem (insert_values m tag values key w) tags key w,
  insert_values_lem m tag values key w,
  insert_keys-append m (joined_values tag values) (joined tags) key w,
)

pub remove_tags_lem :
    (m : Map Bytes Entries) (tags : Map Bytes (SortList Bytes)) (key : Key)
    → remove_tags m tags key ≡ remove_keys Bytes-discrete m (joined tags) key
unfolding remove_tags joined
remove_tags_lem m [] key = unfold remove_keys in refl
remove_tags_lem m ((tag, values) ∷ tags) key = cc (
  remove_tags_lem (remove_values m tag values key) tags key,
  remove_values_lem m tag values key,
  remove_keys-append m (joined_values tag values) (joined tags) key,
)
