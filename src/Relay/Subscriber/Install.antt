-- ===== src/Relay/Subscriber/Install.antt =====
-- What installing and uninstalling filters (relay/src/subscriber.rs) does to every bucket.
use rnostr.Prelude.Order.{Bytes, Bytes-discrete}
use rnostr.Prelude.Maps.{Map, get, get-insert, get-remove}
use rnostr.Prelude.{
  ℕ, suc, ◌<◌, ◌≡◌, refl, Bool, true, false, ◌&&◌, ◌==◌, if◌then◌else◌, holds, Option, none, some,
  List, [], ◌∷◌, is_empty, any, has, ℕ_discrete, Bool-cases, inl, inr, arith,
}
use rnostr.Db.Filter.{SortList, Filter}
use rnostr.Relay.Subscriber.Buckets.{
  under, get-insert_keys, get-remove_keys, joined, insert_tags_lem, remove_tags_lem,
}
use rnostr.Relay.Subscriber.Keyed.{Key, Key-discrete, Rc, Entries}
use rnostr.Relay.Subscriber.{
  SubscriberIndex, key_of, install_filter, uninstall_filter, install_from, uninstall_from,
  is_limited_to, uninstall_subs,
}

-- The values that an event is looked up by.
pub data Slot : Type 0 where
  by_id by_author by_tag : Bytes → Slot
  by_kind : ℕ → Slot
  other : Slot

abbrev pub bucket : SubscriberIndex → Slot → Entries
bucket s (by_id b) = under Bytes-discrete s.ids b
bucket s (by_author b) = under Bytes-discrete s.authors b
bucket s (by_tag b) = under Bytes-discrete s.tags b
bucket s (by_kind n) = under ℕ_discrete s.kinds n
bucket s other = s.others

-- The filter stored for an entry key.
abbrev pub look : SubscriberIndex → Slot → Key → Option Rc
look s slot key = get Key-discrete key (bucket s slot)

-- The buckets that a filter belongs to: by the first of its lists that is not empty.
unfoldable pub covers : Filter → Slot → Bool
covers f (by_id b) = has Bytes-discrete b f.ids
covers f (by_author b) = is_empty f.ids && has Bytes-discrete b f.authors
covers f (by_tag b) = is_empty f.ids && (is_empty f.authors && has Bytes-discrete b (joined f.tags))
covers f (by_kind n) =
    is_empty f.ids && (is_empty f.authors && (is_empty f.tags && has ℕ_discrete n f.kinds))
covers f other = is_empty f.ids && (is_empty f.authors && (is_empty f.tags && is_empty f.kinds))

not-has-nil {ℓ} :
    {A : Type ℓ} (dec : Discrete A) (l : List A) (a : A) → is_empty l ≡ true → has dec a l ≡ false
not-has-nil dec [] a h = refl
not-has-nil dec (x ∷ l) a h = cc

no_tags :
    (tags : List (Bytes × SortList Bytes)) (b : Bytes)
    → is_empty tags ≡ true
    → has Bytes-discrete b (joined tags) ≡ false
unfolding joined
no_tags [] b h = refl
no_tags (x ∷ tags) b h = cc

module _ (s : SubscriberIndex) (key : Key) where
  pub look-install_filter :
      (rc : Rc) (slot : Slot) (key' : Key)
      → look (install_filter s key rc) slot key' ≡ (
          if covers rc.value slot && holds (Key-discrete key key')
          then some rc
          else look s slot key')
  unfolding install_filter covers
  look-install_filter rc (by_id b) key' = ground (
    arith,
    get-insert_keys Bytes-discrete s.ids rc.value.ids key rc b key',
    not-has-nil Bytes-discrete rc.value.ids b,
  )
  look-install_filter rc (by_author b) key' = ground (
    arith,
    get-insert_keys Bytes-discrete s.authors rc.value.authors key rc b key',
    not-has-nil Bytes-discrete rc.value.authors b,
  )
  look-install_filter rc (by_tag b) key' = ground (
    arith,
    insert_tags_lem s.tags rc.value.tags key rc,
    get-insert_keys Bytes-discrete s.tags (joined rc.value.tags) key rc b key',
    no_tags rc.value.tags b,
  )
  look-install_filter rc (by_kind n) key' = ground (
    arith,
    get-insert_keys ℕ_discrete s.kinds rc.value.kinds key rc n key',
    not-has-nil ℕ_discrete rc.value.kinds n,
  )
  look-install_filter rc other key' = ground (arith, get-insert Key-discrete key rc key' s.others)

  pub look-uninstall_filter :
      (f : Filter) (slot : Slot) (key' : Key)
      → look (uninstall_filter s key f) slot key'
        ≡ (if covers f slot && holds (Key-discrete key key') then none else look s slot key')
  unfolding uninstall_filter covers
  look-uninstall_filter f (by_id b) key' = ground (
    arith,
    get-remove_keys Bytes-discrete s.ids f.ids key b key',
    not-has-nil Bytes-discrete f.ids b,
  )
  look-uninstall_filter f (by_author b) key' = ground (
    arith,
    get-remove_keys Bytes-discrete s.authors f.authors key b key',
    not-has-nil Bytes-discrete f.authors b,
  )
  look-uninstall_filter f (by_tag b) key' = ground (
    arith,
    remove_tags_lem s.tags f.tags key,
    get-remove_keys Bytes-discrete s.tags (joined f.tags) key b key',
    no_tags f.tags b,
  )
  look-uninstall_filter f (by_kind n) key' = ground (
    arith,
    get-remove_keys ℕ_discrete s.kinds f.kinds key n key',
    not-has-nil ℕ_discrete f.kinds n,
  )
  look-uninstall_filter f other key' = ground (arith, get-remove Key-discrete key key' s.others)

-- The entries that a list of filters makes, from the index `i` on.
unfoldable pub placed : ℕ → List Rc → Slot → ℕ → Option Rc
placed i [] slot j = none
placed i (rc ∷ rcs) slot j =
    if i == j then (if covers rc.value slot then some rc else none) else placed (suc i) rcs slot j

pub placed-below :
    (i : ℕ) (rcs : List Rc) (slot : Slot) (j : ℕ) → j < i → placed i rcs slot j ≡ none
unfolding placed
placed-below i [] slot j h = refl
placed-below i (rc ∷ rcs) slot j h = ground (arith, placed-below (suc i) rcs slot j)

-- The entry keys of one subscription.
abbrev pub is_of : ℕ → Bytes → Key → Bool
is_of sid sub key = holds (ℕ_discrete sid key.session_id) && holds (Bytes-discrete sub key.sub_id)

abbrev pub or_else {ℓ} : {A : Type ℓ} → Option A → Option A → Option A
or_else none b = b
or_else (some a) b = some a

same_key :
    (sid : ℕ) (sub : Bytes) (i : ℕ) (key : Key)
    → holds (Key-discrete (key_of sid sub i) key) ≡ (is_of sid sub key && i == key.index)
same_key sid sub i key = ground arith

pub look-install_from :
    (s : SubscriberIndex) (sid : ℕ) (sub : Bytes) (i : ℕ) (rcs : List Rc) (slot : Slot) (key : Key)
    → look (install_from s sid sub i rcs) slot key
      ≡ or_else (if is_of sid sub key then placed i rcs slot key.index else none) (look s slot key)
unfolding install_from placed
look-install_from s sid sub i [] slot key = ground arith
look-install_from s sid sub i (rc ∷ rcs) slot key = ground (
  arith,
  look-install_from (install_filter s (key_of sid sub i) rc) sid sub (suc i) rcs slot key,
  look-install_filter s (key_of sid sub i) rc slot key,
  same_key sid sub i key,
  placed-below (suc i) rcs slot key.index,
)

abbrev pub is_placed : ℕ → List Rc → Slot → ℕ → Bool
is_placed i rcs slot j = elim (placed i rcs slot j) [ none ↦ false | some _ ↦ true ]

pub look-uninstall_from :
    (s : SubscriberIndex) (sid : ℕ) (sub : Bytes) (i : ℕ) (rcs : List Rc) (slot : Slot) (key : Key)
    → look (uninstall_from s sid sub i rcs) slot key
      ≡ (if is_of sid sub key && is_placed i rcs slot key.index then none else look s slot key)
unfolding uninstall_from placed
look-uninstall_from s sid sub i [] slot key = ground arith
look-uninstall_from s sid sub i (rc ∷ rcs) slot key = ground (
  arith,
  look-uninstall_from (uninstall_filter s (key_of sid sub i) rc.value) sid sub (suc i) rcs slot key,
  look-uninstall_filter s (key_of sid sub i) rc.value slot key,
  same_key sid sub i key,
  placed-below (suc i) rcs slot key.index,
)

-- Some subscription in the list of the key's name has the entry.
abbrev pub is_listed : Map Bytes (List Rc) → Slot → Key → Bool
is_listed subs slot key =
    any (λ e. holds (Bytes-discrete e.0 key.sub_id) && is_placed 0 e.1 slot key.index) subs

pub look-uninstall_subs :
    (s : SubscriberIndex) (sid : ℕ) (limit : Option Bytes) (subs : Map Bytes (List Rc))
    (slot : Slot) (key : Key)
    → look (uninstall_subs s sid limit subs) slot key ≡ (
        if holds (ℕ_discrete sid key.session_id)
          && (is_limited_to limit key.sub_id && is_listed subs slot key)
        then none
        else look s slot key)
unfolding uninstall_subs
look-uninstall_subs s sid limit [] slot key = ground arith
look-uninstall_subs s sid limit ((sub, filters) ∷ subs) slot key =
    elim (Bool-cases (is_limited_to limit sub)) [
      | inl e ↦ ground (
        arith,
        look-uninstall_subs (uninstall_from s sid sub 0 filters) sid limit subs slot key,
        look-uninstall_from s sid sub 0 filters slot key,
      )
      | inr e ↦ ground (arith, look-uninstall_subs s sid limit subs slot key)
    ]
