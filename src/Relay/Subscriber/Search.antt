-- ===== src/Relay/Subscriber/Search.antt =====
-- relay/src/subscriber.rs: `lookup` and `lookup1`.
use rnostr.Relay.Subscriber.Keyed.{Entries, Key, Rc, Target, Target-discrete, concat_tag}
use rnostr.Prelude.Order.{Bytes, Bytes-discrete}
use rnostr.Prelude.Maps.{Map, get}
use rnostr.Prelude.{
  ℕ, Bool, ◌==◌, if◌then◌else◌, none, some, List, [], ◌∷◌, ◌++◌, any, has, ℕ_discrete,
}
use rnostr.Db.Event.{EventIndex}
use rnostr.Db.Filter.{match}
use rnostr.Relay.Subscriber.{SubscriberIndex}

-- `Weak::upgrade` succeeds while the allocation is owned.
unfoldable pub is_live : SubscriberIndex → Rc → Bool
is_live s w = any (λ e. any (λ d. any (λ rc. rc.addr == w.addr) d.1) e.1) s.subscriptions

-- `check`: the calls of `f` so far are also the keys of `dup`.
unfoldable pub check : SubscriberIndex → EventIndex → List Target → Key → Rc → List Target
unfolding is_live
check s event calls k filter =
    if is_live s filter
    then if match filter.value event
      then if has Target-discrete (k.session_id, k.sub_id) calls
        then calls
        else calls ++ (k.session_id, k.sub_id) ∷ []
      else calls
    else calls

unfoldable pub check_all : SubscriberIndex → EventIndex → List Target → Entries → List Target
unfolding check
check_all s event calls [] = calls
check_all s event calls ((k, filter) ∷ rest) = check_all s event (check s event calls k filter) rest

unfoldable pub scan :
    {T : Type 0}
    → Discrete T
    → SubscriberIndex
    → EventIndex
    → List Target
    → Map T Entries
    → T
    → List Target
unfolding check_all
scan dec s event calls m key = elim (get dec key m) [
  | none ↦ calls
  | some entries ↦ check_all s event calls entries
]

unfoldable pub scan_tags :
    SubscriberIndex → EventIndex → List Target → List (Bytes × Bytes) → List Target
unfolding scan concat_tag
scan_tags s event calls [] = calls
scan_tags s event calls ((key, val) ∷ tags) =
    scan_tags s event (scan Bytes-discrete s event calls s.tags (concat_tag key val)) tags

-- The targets that `f` is called for, in order.
unfoldable pub lookup : SubscriberIndex → EventIndex → List Target
unfolding scan_tags
lookup s event =
    let after_ids = scan Bytes-discrete s event [] s.ids event.id in
    let after_authors = scan Bytes-discrete s event after_ids s.authors event.pubkey in
    let after_kinds = scan ℕ_discrete s event after_authors s.kinds event.kind in
    let after_tags = scan_tags s event after_kinds event.tags in
    check_all s event after_tags s.others

-- The loop over the filters of one subscription ends at the first that matches.
unfoldable pub any_match : EventIndex → List Rc → Bool
any_match event filters = any (λ rc. match rc.value event) filters

unfoldable pub lookup1_subs : EventIndex → ℕ → Map Bytes (List Rc) → List Target
unfolding any_match
lookup1_subs event sid [] = []
lookup1_subs event sid ((sub, filters) ∷ subs) =
    (if any_match event filters then (sid, sub) ∷ [] else []) ++ lookup1_subs event sid subs

unfoldable pub lookup1_from : EventIndex → Map ℕ (Map Bytes (List Rc)) → List Target
unfolding lookup1_subs
lookup1_from event [] = []
lookup1_from event ((sid, subs) ∷ rest) = lookup1_subs event sid subs ++ lookup1_from event rest

-- The search without the index.
unfoldable pub lookup1 : SubscriberIndex → EventIndex → List Target
unfolding lookup1_from
lookup1 s event = lookup1_from event s.subscriptions
