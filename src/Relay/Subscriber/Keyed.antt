-- ===== src/Relay/Subscriber/Keyed.antt =====
-- relay/src/subscriber.rs: the keys of entries, the shared filters and the maps of entries.
use rnostr.Prelude.Order.{Bytes, Bytes-discrete}
use rnostr.Prelude.Maps.{Map, get, insert, remove}
use rnostr.Prelude.{ℕ, if◌then◌else◌, Option, none, some, List, [], ◌∷◌, ◌++◌, is_empty, ℕ_discrete}
use rnostr.Db.Filter.{SortList, Filter}

pub record Key : Type 0 where
  pub session_id : ℕ
  pub sub_id : Bytes
  pub index : ℕ

unfoldable pub Key-discrete : Discrete Key
Key-discrete = hlevel (ℕ_discrete, Bytes-discrete)

-- A session and a subscription of it.
abbrev pub Target : Type 0
Target = ℕ × Bytes

unfoldable pub Target-discrete : Discrete Target
Target-discrete = hlevel (ℕ_discrete, Bytes-discrete)

-- `Rc<Filter>`: the allocation and the filter in it. A `Weak` points to the same allocation.
pub record Rc : Type 0 where
  pub addr : ℕ
  pub value : Filter

unfoldable pub concat_tag : Bytes → Bytes → Bytes
concat_tag key val = key ++ val

abbrev pub Entries : Type 0
Entries = Map Key Rc

-- `unwrap_or_default` of a map's value that is itself a map or a list.
abbrev pub or_default {ℓ} : {A : Type ℓ} → Option (List A) → List A
or_default none = []
or_default (some l) = l

module _ {T : Type 0} (dec : Discrete T) where
  -- `map.entry(k).or_default().insert(key, weak)`
  unfoldable pub entry_insert : Map T Entries → T → Key → Rc → Map T Entries
  entry_insert m k key w = insert dec k (insert Key-discrete key w (or_default (get dec k m))) m

  -- `get_mut`, `remove`, and the map goes with its last entry.
  unfoldable pub entry_remove : Map T Entries → T → Key → Map T Entries
  entry_remove m k key = elim (get dec k m) [
    | none ↦ m
    | some entries ↦
        if is_empty (remove Key-discrete key entries)
        then remove dec k m
        else insert dec k (remove Key-discrete key entries) m
  ]

  unfoldable pub insert_keys : Map T Entries → List T → Key → Rc → Map T Entries
  insert_keys m [] key w = m
  insert_keys m (k ∷ ks) key w = insert_keys (entry_insert m k key w) ks key w

  unfoldable pub remove_keys : Map T Entries → List T → Key → Map T Entries
  remove_keys m [] key = m
  remove_keys m (k ∷ ks) key = remove_keys (entry_remove m k key) ks key

unfoldable pub insert_values : Map Bytes Entries → Bytes → List Bytes → Key → Rc → Map Bytes Entries
unfolding concat_tag entry_insert
insert_values m tag [] key w = m
insert_values m tag (val ∷ vals) key w =
    insert_values (entry_insert Bytes-discrete m (concat_tag tag val) key w) tag vals key w

unfoldable pub insert_tags :
    Map Bytes Entries → Map Bytes (SortList Bytes) → Key → Rc → Map Bytes Entries
unfolding insert_values
insert_tags m [] key w = m
insert_tags m ((tag, values) ∷ tags) key w =
    insert_tags (insert_values m tag values key w) tags key w

unfoldable pub remove_values : Map Bytes Entries → Bytes → List Bytes → Key → Map Bytes Entries
unfolding concat_tag entry_remove
remove_values m tag [] key = m
remove_values m tag (val ∷ vals) key =
    remove_values (entry_remove Bytes-discrete m (concat_tag tag val) key) tag vals key

unfoldable pub remove_tags :
    Map Bytes Entries → Map Bytes (SortList Bytes) → Key → Map Bytes Entries
unfolding remove_values
remove_tags m [] key = m
remove_tags m ((tag, values) ∷ tags) key = remove_tags (remove_values m tag values key) tags key
