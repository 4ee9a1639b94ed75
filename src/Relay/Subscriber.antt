-- ===== src/Relay/Subscriber.antt =====
-- relay/src/subscriber.rs: the index that finds the subscriptions an event is sent to.
pub mod Search
pub mod Keyed
pub mod Buckets
pub mod Install
pub mod Keeps
pub mod Invariant
pub mod Steps
pub mod Views
pub mod Lookup
pub mod Delivery
pub mod Agreement
use Keyed.{
  Entries, Key, Key-discrete, Rc, Target, Target-discrete, concat_tag, entry_insert, entry_remove,
  insert_keys, insert_tags, insert_values, or_default, remove_keys, remove_tags, remove_values,
}
use rnostr.Prelude.Order.{Bytes, Bytes-discrete}
use rnostr.Prelude.Maps.{Map, get, insert, remove}
use rnostr.Prelude.{
  ℕ, suc, ◌+◌, ◌≡◌, Bool, true, false, not, ◌&&◌, ◌||◌, ◌==◌, ltb, leb, if◌then◌else◌, holds,
  Option, none, some, List, [], ◌∷◌, ◌++◌, length, is_empty, any, has, ℕ_discrete,
}
use rnostr.Db.Event.{EventIndex}
use rnostr.Db.Filter.{SortList, Filter, match}

-- `subscriptions` owns the filters; the other maps point to them. `next_addr` is the allocator.
pub record SubscriberIndex : Type 0 where
  pub subscriptions : Map ℕ (Map Bytes (List Rc))
  pub ids : Map Bytes Entries
  pub authors : Map Bytes Entries
  pub tags : Map Bytes Entries
  pub kinds : Map ℕ Entries
  pub others : Entries
  pub next_addr : ℕ

unfoldable pub empty : SubscriberIndex
empty = record {
  subscriptions = [];
  ids = [];
  authors = [];
  tags = [];
  kinds = [];
  others = [];
  next_addr = 0;
}

-- A filter is indexed by the first of its lists that is not empty.
unfoldable pub install_filter : SubscriberIndex → Key → Rc → SubscriberIndex
unfolding insert_keys insert_tags
install_filter s key rc =
    if not (is_empty rc.value.ids)
    then record s { ids = insert_keys Bytes-discrete s.ids rc.value.ids key rc }
    else if not (is_empty rc.value.authors)
    then record s { authors = insert_keys Bytes-discrete s.authors rc.value.authors key rc }
    else if not (is_empty rc.value.tags)
    then record s { tags = insert_tags s.tags rc.value.tags key rc }
    else if not (is_empty rc.value.kinds)
    then record s { kinds = insert_keys ℕ_discrete s.kinds rc.value.kinds key rc }
    else record s { others = insert Key-discrete key rc s.others }

unfoldable pub uninstall_filter : SubscriberIndex → Key → Filter → SubscriberIndex
unfolding remove_keys remove_tags
uninstall_filter s key f =
    if not (is_empty f.ids)
    then record s { ids = remove_keys Bytes-discrete s.ids f.ids key }
    else if not (is_empty f.authors)
    then record s { authors = remove_keys Bytes-discrete s.authors f.authors key }
    else if not (is_empty f.tags)
    then record s { tags = remove_tags s.tags f.tags key }
    else if not (is_empty f.kinds)
    then record s { kinds = remove_keys ℕ_discrete s.kinds f.kinds key }
    else record s { others = remove Key-discrete key s.others }

abbrev pub key_of : ℕ → Bytes → ℕ → Key
key_of session_id sub_id index = record { session_id = session_id; sub_id = sub_id; index = index }

-- The loops over `filters.iter().enumerate()`, from the index `i` on.
unfoldable pub install_from : SubscriberIndex → ℕ → Bytes → ℕ → List Rc → SubscriberIndex
unfolding install_filter
install_from s sid sub i [] = s
install_from s sid sub i (rc ∷ rcs) =
    install_from (install_filter s (key_of sid sub i) rc) sid sub (suc i) rcs

unfoldable pub install_index : SubscriberIndex → ℕ → Bytes → List Rc → SubscriberIndex
unfolding install_from
install_index s sid sub filters = install_from s sid sub 0 filters

unfoldable pub uninstall_from : SubscriberIndex → ℕ → Bytes → ℕ → List Rc → SubscriberIndex
unfolding uninstall_filter
uninstall_from s sid sub i [] = s
uninstall_from s sid sub i (rc ∷ rcs) =
    uninstall_from (uninstall_filter s (key_of sid sub i) rc.value) sid sub (suc i) rcs

-- The test of `limit_sub_id`: without a limit every subscription of the session goes.
unfoldable pub is_limited_to : Option Bytes → Bytes → Bool
is_limited_to limit sub = elim limit [ none ↦ true | some l ↦ holds (Bytes-discrete l sub) ]

unfoldable pub uninstall_subs :
    SubscriberIndex → ℕ → Option Bytes → Map Bytes (List Rc) → SubscriberIndex
unfolding uninstall_from is_limited_to
uninstall_subs s sid limit [] = s
uninstall_subs s sid limit ((sub, filters) ∷ subs) =
    uninstall_subs (if is_limited_to limit sub then uninstall_from s sid sub 0 filters else s) sid
      limit subs

unfoldable pub uninstall_index : SubscriberIndex → ℕ → Option Bytes → SubscriberIndex
unfolding uninstall_subs
uninstall_index s sid limit = elim (get ℕ_discrete sid s.subscriptions) [
  | none ↦ s
  | some subs ↦ uninstall_subs s sid limit subs
]

pub data Subscribed : Type 0 where
  ok overlimit invalid_id_length : Subscribed

-- `Rc::new` for each filter.
unfoldable pub allocate : ℕ → List Filter → List Rc
allocate next [] = []
allocate next (f ∷ fs) = record { addr = next; value = f } ∷ allocate (suc next) fs

unfoldable pub is_over : Option (Map Bytes (List Rc)) → ℕ → Bool
is_over subs limit = elim subs [ none ↦ false | some m ↦ leb limit (length m) ]

-- What `add` does once its checks have passed.
unfoldable pub replace : SubscriberIndex → ℕ → Bytes → List Filter → SubscriberIndex
unfolding uninstall_index install_index allocate
replace s sid sub filters =
    let rcs = allocate s.next_addr filters in
    let t = install_index (uninstall_index s sid (some sub)) sid sub rcs in
    record t {
      subscriptions =
          insert ℕ_discrete sid
            (insert Bytes-discrete sub rcs (or_default (get ℕ_discrete sid t.subscriptions)))
            t.subscriptions;
      next_addr = s.next_addr + length filters;
    }

unfoldable pub add : SubscriberIndex → ℕ → Bytes → List Filter → ℕ → SubscriberIndex × Subscribed
unfolding replace is_over
add s sid sub filters limit =
    if is_empty sub || ltb 64 (length sub)
    then (s, invalid_id_length)
    else if is_over (get ℕ_discrete sid s.subscriptions) limit
    then (s, overlimit)
    else (replace s sid sub filters, ok)

-- The subscriptions that `remove` leaves.
unfoldable pub drop_sub :
    Map ℕ (Map Bytes (List Rc)) → ℕ → Option Bytes → Map ℕ (Map Bytes (List Rc))
drop_sub subscriptions sid none = remove ℕ_discrete sid subscriptions
drop_sub subscriptions sid (some sub) = elim (get ℕ_discrete sid subscriptions) [
  | none ↦ subscriptions
  | some m ↦
      if is_empty (remove Bytes-discrete sub m)
      then remove ℕ_discrete sid subscriptions
      else insert ℕ_discrete sid (remove Bytes-discrete sub m) subscriptions
]

unfoldable pub remove_sub : SubscriberIndex → ℕ → Option Bytes → SubscriberIndex
unfolding uninstall_index drop_sub
remove_sub s sid sub =
    let t = uninstall_index s sid sub in
    record t { subscriptions = drop_sub t.subscriptions sid sub }
