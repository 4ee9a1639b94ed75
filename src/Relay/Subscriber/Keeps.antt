-- ===== src/Relay/Subscriber/Keeps.antt =====
-- What the changes to the index (relay/src/subscriber.rs) leave alone: the owned filters, the
-- allocator, and that no key stands twice in a bucket.
use rnostr.Prelude.Order.{Bytes, Bytes-discrete}
use rnostr.Prelude.Maps.{Map, get, Distinct, insert-Distinct, remove-Distinct}
use rnostr.Prelude.{
  ℕ, suc, ◌≡◌, refl, ◌∙◌, Bool, true, false, not, Option-cases, if◌then◌else◌, Option, List, [],
  ◌∷◌, ℕ_discrete, is_empty, inl, inr,
}
use rnostr.Db.Filter.{Filter, SortList}
use rnostr.Relay.Subscriber.Buckets.{
  insert_keys-Distinct, remove_keys-Distinct, insert_tags_lem, remove_tags_lem, joined, under,
}
use rnostr.Relay.Subscriber.Install.{Slot, by_id, by_author, by_tag, by_kind, other, bucket}
use rnostr.Relay.Subscriber.Keyed.{Key, Key-discrete, Rc, Entries, insert_tags, remove_tags}
use rnostr.Relay.Subscriber.{
  SubscriberIndex, uninstall_index, key_of, install_filter, uninstall_filter, install_from,
  uninstall_from, install_index, is_limited_to, uninstall_subs,
}

-- What stays of `s` in `t`.
pub record Keeps (s t : SubscriberIndex) : Type 0 where
  pub subscriptions : t.subscriptions ≡ s.subscriptions
  pub distinct :
      ((slot : Slot) → Distinct Key-discrete (bucket s slot))
      → (slot : Slot) → Distinct Key-discrete (bucket t slot)

pub Keeps-refl : (s : SubscriberIndex) → Keeps s s
Keeps-refl s = record { subscriptions = refl; distinct = λ d. d }

pub Keeps-trans : {s t u : SubscriberIndex} → Keeps s t → Keeps t u → Keeps s u
Keeps-trans a b = record {
  subscriptions = b.subscriptions ∙ a.subscriptions;
  distinct = λ d. b.distinct (a.distinct d);
}

if-Keeps :
    (s t u : SubscriberIndex) (b : Bool) → Keeps s t → Keeps s u → Keeps s (if b then t else u)
if-Keeps s t u true a b = a
if-Keeps s t u false a b = b

abbrev Preserves : {T : Type 0} → Discrete T → Map T Entries → Map T Entries → Type 0
Preserves {T} dec m n =
    ((q : T) → Distinct Key-discrete (under dec m q))
    → (q : T) → Distinct Key-discrete (under dec n q)

-- A change of one of the maps.
module _ (s : SubscriberIndex) where
  ids-Keeps :
      (m : Map Bytes Entries) → Preserves Bytes-discrete s.ids m → Keeps s (record s { ids = m })
  ids-Keeps m h = record {
    subscriptions = refl;
    distinct = λ d. elim [
      | by_id b ↦ h (λ q. d (by_id q)) b
      | by_author b ↦ d (by_author b)
      | by_tag b ↦ d (by_tag b)
      | by_kind n ↦ d (by_kind n)
      | other ↦ d other
    ];
  }

  authors-Keeps :
      (m : Map Bytes Entries)
      → Preserves Bytes-discrete s.authors m
      → Keeps s (record s { authors = m })
  authors-Keeps m h = record {
    subscriptions = refl;
    distinct = λ d. elim [
      | by_id b ↦ d (by_id b)
      | by_author b ↦ h (λ q. d (by_author q)) b
      | by_tag b ↦ d (by_tag b)
      | by_kind n ↦ d (by_kind n)
      | other ↦ d other
    ];
  }

  tags-Keeps :
      (m : Map Bytes Entries) → Preserves Bytes-discrete s.tags m → Keeps s (record s { tags = m })
  tags-Keeps m h = record {
    subscriptions = refl;
    distinct = λ d. elim [
      | by_id b ↦ d (by_id b)
      | by_author b ↦ d (by_author b)
      | by_tag b ↦ h (λ q. d (by_tag q)) b
      | by_kind n ↦ d (by_kind n)
      | other ↦ d other
    ];
  }

  kinds-Keeps :
      (m : Map ℕ Entries) → Preserves ℕ_discrete s.kinds m → Keeps s (record s { kinds = m })
  kinds-Keeps m h = record {
    subscriptions = refl;
    distinct = λ d. elim [
      | by_id b ↦ d (by_id b)
      | by_author b ↦ d (by_author b)
      | by_tag b ↦ d (by_tag b)
      | by_kind n ↦ h (λ q. d (by_kind q)) n
      | other ↦ d other
    ];
  }

  others-Keeps :
      (m : Entries)
      → (Distinct Key-discrete s.others → Distinct Key-discrete m)
      → Keeps s (record s { others = m })
  others-Keeps m h = record {
    subscriptions = refl;
    distinct = λ d. elim [
      | by_id b ↦ d (by_id b)
      | by_author b ↦ d (by_author b)
      | by_tag b ↦ d (by_tag b)
      | by_kind n ↦ d (by_kind n)
      | other ↦ h (d other)
    ];
  }

module _ (s : SubscriberIndex) (key : Key) where
  insert_tags-Preserves :
      (tags : Map Bytes (SortList Bytes)) (w : Rc)
      → Preserves Bytes-discrete s.tags (insert_tags s.tags tags key w)
  insert_tags-Preserves tags w =
      rw (insert_tags_lem s.tags tags key w)
        (insert_keys-Distinct Bytes-discrete s.tags (joined tags) key w)

  remove_tags-Preserves :
      (tags : Map Bytes (SortList Bytes))
      → Preserves Bytes-discrete s.tags (remove_tags s.tags tags key)
  remove_tags-Preserves tags =
      rw (remove_tags_lem s.tags tags key)
        (remove_keys-Distinct Bytes-discrete s.tags (joined tags) key)

  install_filter-Keeps : (rc : Rc) → Keeps s (install_filter s key rc)
  unfolding install_filter
  install_filter-Keeps rc =
      if-Keeps s _ _ (not (is_empty rc.value.ids))
        (ids-Keeps s _ (insert_keys-Distinct Bytes-discrete s.ids rc.value.ids key rc))
        (if-Keeps s _ _ (not (is_empty rc.value.authors))
          (authors-Keeps s _
            (insert_keys-Distinct Bytes-discrete s.authors rc.value.authors key rc))
          (if-Keeps s _ _ (not (is_empty rc.value.tags))
            (tags-Keeps s _ (insert_tags-Preserves rc.value.tags rc))
            (if-Keeps s _ _ (not (is_empty rc.value.kinds))
              (kinds-Keeps s _ (insert_keys-Distinct ℕ_discrete s.kinds rc.value.kinds key rc))
              (others-Keeps s _ (insert-Distinct Key-discrete key rc s.others)))))

  uninstall_filter-Keeps : (f : Filter) → Keeps s (uninstall_filter s key f)
  unfolding uninstall_filter
  uninstall_filter-Keeps f =
      if-Keeps s _ _ (not (is_empty f.ids))
        (ids-Keeps s _ (remove_keys-Distinct Bytes-discrete s.ids f.ids key))
        (if-Keeps s _ _ (not (is_empty f.authors))
          (authors-Keeps s _ (remove_keys-Distinct Bytes-discrete s.authors f.authors key))
          (if-Keeps s _ _ (not (is_empty f.tags)) (tags-Keeps s _ (remove_tags-Preserves f.tags)) (
            if-Keeps s _ _ (not (is_empty f.kinds))
              (kinds-Keeps s _ (remove_keys-Distinct ℕ_discrete s.kinds f.kinds key))
              (others-Keeps s _ (remove-Distinct Key-discrete key s.others)))))

install_from-Keeps :
    (s : SubscriberIndex) (sid : ℕ) (sub : Bytes) (i : ℕ) (rcs : List Rc)
    → Keeps s (install_from s sid sub i rcs)
unfolding install_from
install_from-Keeps s sid sub i [] = Keeps-refl s
install_from-Keeps s sid sub i (rc ∷ rcs) =
    Keeps-trans (install_filter-Keeps s (key_of sid sub i) rc)
      (install_from-Keeps (install_filter s (key_of sid sub i) rc) sid sub (suc i) rcs)

pub install_index-Keeps :
    (s : SubscriberIndex) (sid : ℕ) (sub : Bytes) (rcs : List Rc)
    → Keeps s (install_index s sid sub rcs)
unfolding install_index
install_index-Keeps s sid sub rcs = install_from-Keeps s sid sub 0 rcs

uninstall_from-Keeps :
    (s : SubscriberIndex) (sid : ℕ) (sub : Bytes) (i : ℕ) (rcs : List Rc)
    → Keeps s (uninstall_from s sid sub i rcs)
unfolding uninstall_from
uninstall_from-Keeps s sid sub i [] = Keeps-refl s
uninstall_from-Keeps s sid sub i (rc ∷ rcs) =
    Keeps-trans (uninstall_filter-Keeps s (key_of sid sub i) rc.value)
      (uninstall_from-Keeps (uninstall_filter s (key_of sid sub i) rc.value) sid sub (suc i) rcs)

uninstall_subs-Keeps :
    (s : SubscriberIndex) (sid : ℕ) (limit : Option Bytes) (subs : Map Bytes (List Rc))
    → Keeps s (uninstall_subs s sid limit subs)
unfolding uninstall_subs
uninstall_subs-Keeps s sid limit [] = Keeps-refl s
uninstall_subs-Keeps s sid limit ((sub, filters) ∷ subs) =
    Keeps-trans
      (if-Keeps s _ _ (is_limited_to limit sub) (uninstall_from-Keeps s sid sub 0 filters)
        (Keeps-refl s))
      (uninstall_subs-Keeps
        (if is_limited_to limit sub then uninstall_from s sid sub 0 filters else s) sid limit subs)

pub uninstall_index-Keeps :
    (s : SubscriberIndex) (sid : ℕ) (limit : Option Bytes) → Keeps s (uninstall_index s sid limit)
uninstall_index-Keeps s sid limit = elim (Option-cases (get ℕ_discrete sid s.subscriptions)) [
  | inl e ↦ unfold uninstall_index in rw (e, uninstall_index) (Keeps-refl s)
  | inr (subs, e) ↦
      unfold uninstall_index in rw (e, uninstall_index) (uninstall_subs-Keeps s sid limit subs)
]
