-- ===== src/Tests/Subscriptions.antt =====
-- Requests to a subscription index, the searches in it, and its theorems applied to them.
use rnostr.Prelude.Order.{cmp_bytes, Bytes-discrete, bytes_ord, nat_ord}
use rnostr.Prelude.Maps.{get, insert, remove}
use rnostr.Prelude.{
  holds, if◌then◌else◌, ◌≤◌, ◌≡◌, refl, true, false, none, some, List, [], ◌∷◌, has, ℕ_discrete,
  arith, ◌&&◌,
}
use rnostr.Std.Text.{codes}
use rnostr.Db.Filter.{match}
use rnostr.Relay.Subscriber.{SubscriberIndex, empty, add, remove_sub, is_limited_to}
use rnostr.Relay.Subscriber.Keyed.{Key-discrete, Target-discrete}
use rnostr.Relay.Subscriber.Search.{lookup, lookup1}
use rnostr.Relay.Subscriber.Steps.{Op, step, step-Inv, subscribe, unsubscribe, run, run-empty-Inv}
use rnostr.Relay.Subscriber.Invariant.{Inv, filters_of}
use rnostr.Relay.Subscriber.Agreement.{
  lookup-lookup1, lookup_sound, lookup_misses_delegated, lookup-Once, Once,
}
use rnostr.Relay.Subscriber.Views.{
  AddOutcome, add_view, view, view-remove_sub, count, count-run-empty-le,
}
use rnostr.Tests.Data.{any_event, by_alice, by_kind_one, tagged, note, delegated}

abbrev requests : List Op
requests =
    subscribe 1 (codes "a") (by_alice ∷ [])
    ∷ subscribe 2 (codes "b") (by_kind_one ∷ tagged ∷ [])
    ∷ subscribe 2 (codes "c") (any_event ∷ [])
    ∷ unsubscribe 2 (some (codes "c"))
    ∷ []

abbrev state : SubscriberIndex
state = run 2 empty requests

lookup-state : lookup state note ≡ (2, codes "b") ∷ []
unfolding lookup run remove_sub get add empty insert remove ℕ_discrete Bytes-discrete Key-discrete
    Target-discrete match cmp_bytes
lookup-state = refl

filters_of_state :
    filters_of state.subscriptions 1 (codes "a") ≡ some (record { addr = 0; value = by_alice } ∷ [])
unfolding run remove_sub get add empty insert remove ℕ_discrete Bytes-discrete
filters_of_state = refl

lookup-lookup1_example :
    has Target-discrete (2, codes "b") (lookup state note)
    ≡ has Target-discrete (2, codes "b") (lookup1 state note)
lookup-lookup1_example = lookup-lookup1 state note (2, codes "b") (run-empty-Inv 2 requests) refl

has-lookup-state : has Target-discrete (2, codes "b") (lookup state note) ≡ true
unfolding Target-discrete ℕ_discrete Bytes-discrete
has-lookup-state = rw lookup-state refl

lookup_sound_example : has Target-discrete (2, codes "b") (lookup1 state note) ≡ true
lookup_sound_example =
    lookup_sound state note (2, codes "b") (run-empty-Inv 2 requests) has-lookup-state

match-delegated : match by_alice delegated ≡ true
unfolding match cmp_bytes Bytes-discrete
match-delegated = refl

lookup_misses_delegated_example :
    (has Target-discrete (1, codes "a") (lookup state delegated) ≡ false)
    × (has Target-discrete (1, codes "a") (lookup1 state delegated) ≡ true)
unfolding Bytes-discrete ℕ_discrete
lookup_misses_delegated_example =
    lookup_misses_delegated state delegated (1, codes "a") (run-empty-Inv 2 requests)
      (record { addr = 0; value = by_alice }) filters_of_state refl refl refl match-delegated

lookup-Once_example : Once (lookup state note)
lookup-Once_example = lookup-Once state note

step-Inv_example : Inv (step 2 state (unsubscribe 2 none))
step-Inv_example = step-Inv 2 state (unsubscribe 2 none) (run-empty-Inv 2 requests)

run-empty-Inv_example : Inv state
run-empty-Inv_example = run-empty-Inv 2 requests

add_view_example : AddOutcome state 2 (codes "d") (tagged ∷ []) 2
add_view_example = add_view state 2 (codes "d") (tagged ∷ []) 2

view-remove_sub_example : view (remove_sub state 2 none) 2 (codes "b") ≡ (
    if holds (ℕ_discrete 2 2) && is_limited_to none (codes "b")
    then none
    else view state 2 (codes "b"))
view-remove_sub_example = view-remove_sub state 2 none 2 (codes "b")

count-run-empty-le_example : count (run 2 empty requests) 2 ≤ 2
count-run-empty-le_example = count-run-empty-le 2 requests 2 (omega arith)
