-- ===== src/Relay/Subscriber/Steps.antt =====
-- Histories of the subscription index (relay/src/subscriber.rs): the handlers of `Subscribe` and
-- `Unsubscribe`, in any order.
use rnostr.Prelude.Order.{Bytes, Bytes-discrete}
use rnostr.Prelude.Maps.{
  Map, get, remove, get-insert, get-remove, Distinct, insert-Distinct, remove-Distinct,
}
use rnostr.Prelude.{
  ℕ, ◌≡◌, Option, none, some, List, [], ◌∷◌, is_empty, ℕ_discrete, Option-cases, Bool-cases, inl,
  inr, arith, ◌⊎◌,
}
use rnostr.Db.Filter.{Filter}
use rnostr.Relay.Subscriber.Install.{Slot, look}
use rnostr.Relay.Subscriber.Keeps.{Keeps, uninstall_index-Keeps}
use rnostr.Relay.Subscriber.Invariant.{
  Inv, wanted, empty-Inv, with_subs-Inv, look-uninstall_index, add-Inv, filters_of-drop_sub,
  none-placed,
}
use rnostr.Relay.Subscriber.Keyed.{Key, Rc, or_default}
use rnostr.Relay.Subscriber.{SubscriberIndex, empty, uninstall_index, add, drop_sub, remove_sub}

module _ (subs : Map ℕ (Map Bytes (List Rc))) (sid : ℕ) where
  drop_sub-Distinct :
      (limit : Option Bytes)
      → Distinct ℕ_discrete subs
      → Distinct ℕ_discrete (drop_sub subs sid limit)
  unfolding drop_sub
  drop_sub-Distinct none d = remove-Distinct ℕ_discrete sid subs d
  drop_sub-Distinct (some sub) d = elim (Option-cases (get ℕ_discrete sid subs)) [
    | inl e ↦ rw (e, drop_sub) d
    | inr (m, e) ↦ elim (Bool-cases (is_empty (remove Bytes-discrete sub m))) [
      | inl b ↦ rw (e, drop_sub, b) (remove-Distinct ℕ_discrete sid subs d)
      | inr b ↦
          rw (e, drop_sub, b) (insert-Distinct ℕ_discrete sid (remove Bytes-discrete sub m) subs d)
    ]
  ]

  -- What a session is left with is what it had, or less.
  pub drop_sub-get :
      (limit : Option Bytes) (q : ℕ)
      → let left = or_default (get ℕ_discrete q (drop_sub subs sid limit)) in
        let old = or_default (get ℕ_discrete q subs) in
        (left ≡ old) ⊎ (left ≡ []) ⊎ ((sub : Bytes) × (left ≡ remove Bytes-discrete sub old))
  unfolding drop_sub
  drop_sub-get none q = elim (ℕ_discrete sid q) [
    | yes e ↦ inr (inl (ground (arith, get-remove ℕ_discrete sid q subs)))
    | no n ↦ inl (ground (arith, get-remove ℕ_discrete sid q subs))
  ]
  drop_sub-get (some sub) q = elim (Option-cases (get ℕ_discrete sid subs)) [
    | inl e ↦ inl (ground arith)
    | inr (m, e) ↦ elim (ℕ_discrete sid q) [
      | yes h ↦ elim (Bool-cases (is_empty (remove Bytes-discrete sub m))) [
        | inl b ↦ inr (inl (ground (arith, get-remove ℕ_discrete sid q subs)))
        | inr b ↦ inr (
            inr
              (sub, ground (arith, get-insert ℕ_discrete sid (remove Bytes-discrete sub m) q subs)))
      ]
      | no n ↦ inl (
          ground (
            arith,
            get-remove ℕ_discrete sid q subs,
            get-insert ℕ_discrete sid (remove Bytes-discrete sub m) q subs,
          ))
    ]
  ]

  drop_sub_names :
      (limit : Option Bytes)
      → ((q : ℕ) → Distinct Bytes-discrete (or_default (get ℕ_discrete q subs)))
      → (q : ℕ) → Distinct Bytes-discrete (or_default (get ℕ_discrete q (drop_sub subs sid limit)))
  drop_sub_names limit d q = elim (drop_sub-get limit q) [
    | inl e ↦ rw e (d q)
    | inr (inl e) ↦ rw e tt
    | inr (inr (sub, e)) ↦ rw e (remove-Distinct Bytes-discrete sub _ (d q))
  ]

remove_sub-look :
    (s : SubscriberIndex) (sid : ℕ) (limit : Option Bytes) (slot : Slot) (key : Key)
    → Inv s
    → look (uninstall_index s sid limit) slot key
      ≡ wanted (drop_sub s.subscriptions sid limit) slot key
remove_sub-look s sid limit slot key v = ground (
  arith,
  look-uninstall_index s sid limit slot key v,
  filters_of-drop_sub s.subscriptions sid limit key.session_id key.sub_id,
  none-placed slot key.index,
)

remove_sub-Inv :
    (s : SubscriberIndex) (sid : ℕ) (limit : Option Bytes) → Inv s → Inv (remove_sub s sid limit)
unfolding remove_sub
remove_sub-Inv s sid limit v =
    let t = uninstall_index s sid limit in
    let k : Keeps s t = uninstall_index-Keeps s sid limit in
    with_subs-Inv s t _ t.next_addr v k
      (λ slot key. rw k.subscriptions (remove_sub-look s sid limit slot key v))
      (rw k.subscriptions (drop_sub-Distinct s.subscriptions sid limit v.sessions))
      (rw k.subscriptions (drop_sub_names s.subscriptions sid limit v.names))

-- A message to the subscriber.
pub data Op : Type 0 where
  subscribe : ℕ → Bytes → List Filter → Op
  unsubscribe : ℕ → Option Bytes → Op

-- The handlers, under the configured limit of subscriptions.
unfoldable pub step : ℕ → SubscriberIndex → Op → SubscriberIndex
step limit s (subscribe sid sub filters) = (add s sid sub filters limit).0
step limit s (unsubscribe sid sub) = remove_sub s sid sub

unfoldable pub run : ℕ → SubscriberIndex → List Op → SubscriberIndex
unfolding step
run limit s [] = s
run limit s (op ∷ ops) = run limit (step limit s op) ops

-- Every request keeps the index exact: each bucket holds, once, the entries of exactly those stored
-- filters that belong to it, and no session or subscription stands twice.
pub step-Inv : (limit : ℕ) (s : SubscriberIndex) (op : Op) → Inv s → Inv (step limit s op)
unfolding step
step-Inv limit s (subscribe sid sub filters) v = add-Inv s sid sub filters limit v
step-Inv limit s (unsubscribe sid sub) v = remove_sub-Inv s sid sub v

run-Inv : (limit : ℕ) (s : SubscriberIndex) (ops : List Op) → Inv s → Inv (run limit s ops)
unfolding run
run-Inv limit s [] v = v
run-Inv limit s (op ∷ ops) v = run-Inv limit (step limit s op) ops (step-Inv limit s op v)

-- After any requests to a new subscriber the index is exact: each bucket holds, once, the entries of
-- exactly those stored filters that belong to it, and no session or subscription stands twice.
pub run-empty-Inv : (limit : ℕ) (ops : List Op) → Inv (run limit empty ops)
run-empty-Inv limit ops = run-Inv limit empty ops empty-Inv
