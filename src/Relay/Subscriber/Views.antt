-- ===== src/Relay/Subscriber/Views.antt =====
-- What a client sees of its subscriptions (relay/src/subscriber.rs): the filters stored under a
-- name, and how many names a session may have.
use mathlib.Core.Option
use rnostr.Prelude.Order.{Bytes, Bytes-discrete}
use rnostr.Prelude.Maps.{get, insert, get-insert, length-insert-le, length-remove-le}
use rnostr.Prelude.{
  ℕ, suc, ◌≤◌, ◌<◌, ◌≡◌, refl, ◌⊎◌, inl, inr, true, false, ◌&&◌, ◌||◌, holds, if◌then◌else◌, Option,
  none, some, List, [], ◌∷◌, map, length, is_empty, ltb, Bool-cases, ℕ_discrete, arith,
}
use rnostr.Db.Filter.{Filter}
use rnostr.Relay.Subscriber.Keeps.{Keeps, Keeps-trans, install_index-Keeps, uninstall_index-Keeps}
use rnostr.Relay.Subscriber.Invariant.{filters_of, filters_of-insert, filters_of-drop_sub}
use rnostr.Relay.Subscriber.Steps.{Op, subscribe, unsubscribe, step, run, drop_sub-get}
use rnostr.Relay.Subscriber.Keyed.{or_default}
use rnostr.Relay.Subscriber.{
  SubscriberIndex, Subscribed, empty, is_limited_to, allocate, install_index, uninstall_index,
  is_over, replace, add, drop_sub, remove_sub,
}

-- The filters of a subscription, without their allocations.
abbrev pub view : SubscriberIndex → ℕ → Bytes → Option (List Filter)
view s sid sub = Option.map (map (λ rc. rc.value)) (filters_of s.subscriptions sid sub)

values-allocate : (n : ℕ) (fs : List Filter) → map (λ rc. rc.value) (allocate n fs) ≡ fs
unfolding allocate
values-allocate n [] = refl
values-allocate n (f ∷ fs) = ground (arith, values-allocate (suc n) fs)

replace-subscriptions :
    (s : SubscriberIndex) (sid : ℕ) (sub : Bytes) (filters : List Filter)
    → (replace s sid sub filters).subscriptions
      ≡ insert ℕ_discrete sid
          (insert Bytes-discrete sub
            (allocate s.next_addr filters)
            (or_default (get ℕ_discrete sid s.subscriptions)))
          s.subscriptions
unfolding replace
replace-subscriptions s sid sub filters =
    let rcs = allocate s.next_addr filters in
    let u = uninstall_index s sid (some sub) in
    let k : Keeps s (install_index u sid sub rcs) =
      Keeps-trans (uninstall_index-Keeps s sid (some sub)) (install_index-Keeps u sid sub rcs) in
    rw k.subscriptions

view-replace :
    (s : SubscriberIndex) (sid : ℕ) (sub : Bytes) (filters : List Filter) (sid' : ℕ) (sub' : Bytes)
    → view (replace s sid sub filters) sid' sub' ≡ (
        if holds (ℕ_discrete sid sid') && holds (Bytes-discrete sub sub')
        then some filters
        else view s sid' sub')
view-replace s sid sub filters sid' sub' = ground (
  arith,
  replace-subscriptions s sid sub filters,
  filters_of-insert s.subscriptions sid sub (allocate s.next_addr filters) sid' sub',
  values-allocate s.next_addr filters,
)

bad_length :
    (sub : Bytes)
    → (is_empty sub || ltb 64 (length sub)) ≡ true
    → (length sub ≡ 0) ⊎ (64 < length sub)
bad_length [] h = inl refl
bad_length (b ∷ sub) h = inr (ground arith)

good_length :
    (sub : Bytes)
    → (is_empty sub || ltb 64 (length sub)) ≡ false
    → (0 < length sub) × (length sub ≤ 64)
good_length [] h = absurd (ground arith)
good_length (b ∷ sub) h = (omega arith, ground arith)

-- The three ways in which `add` ends, with what is stored then.
abbrev pub AddOutcome : SubscriberIndex → ℕ → Bytes → List Filter → ℕ → Type 0
AddOutcome s sid sub filters limit =
    ((add s sid sub filters limit).1 ≡ Subscribed.ok)
      × (0 < length sub)
      × (length sub ≤ 64)
      × (is_over (get ℕ_discrete sid s.subscriptions) limit ≡ false)
      × ((sid' : ℕ) (sub' : Bytes)
          → view (add s sid sub filters limit).0 sid' sub' ≡ (
              if holds (ℕ_discrete sid sid') && holds (Bytes-discrete sub sub')
              then some filters
              else view s sid' sub'))
    ⊎ ((add s sid sub filters limit).1 ≡ Subscribed.invalid_id_length)
      × ((length sub ≡ 0) ⊎ (64 < length sub))
      × ((add s sid sub filters limit).0 ≡ s)
    ⊎ ((add s sid sub filters limit).1 ≡ Subscribed.overlimit)
      × (is_over (get ℕ_discrete sid s.subscriptions) limit ≡ true)
      × ((add s sid sub filters limit).0 ≡ s)

-- A subscription is accepted exactly if its id has 1 to 64 bytes and the session has none yet or
-- fewer than the limit (also where it would replace one); it is then stored under its name, in the
-- place of an older one, and nothing else that is stored changes. Otherwise the state is as it was.
pub add_view :
    (s : SubscriberIndex) (sid : ℕ) (sub : Bytes) (filters : List Filter) (limit : ℕ)
    → AddOutcome s sid sub filters limit
unfolding add
add_view s sid sub filters limit = elim (Bool-cases (is_empty sub || ltb 64 (length sub))) [
  | inl e ↦ rw e (inr (inl (refl, bad_length sub e, refl)))
  | inr e ↦ elim (Bool-cases (is_over (get ℕ_discrete sid s.subscriptions) limit)) [
    | inl o ↦ rw (e, o) (inr (inr (refl, refl, refl)))
    | inr o ↦
        rw (e, o)
          (inl (
            refl,
            (good_length sub e).0,
            (good_length sub e).1,
            refl,
            view-replace s sid sub filters,
          ))
  ]
]

-- `remove` takes away the named subscription, or all of the session, and nothing else.
pub view-remove_sub :
    (s : SubscriberIndex) (sid : ℕ) (limit : Option Bytes) (sid' : ℕ) (sub' : Bytes)
    → view (remove_sub s sid limit) sid' sub'
      ≡ (if holds (ℕ_discrete sid sid') && is_limited_to limit sub' then none else view s sid' sub')
unfolding remove_sub
view-remove_sub s sid limit sid' sub' =
    let k : Keeps s (uninstall_index s sid limit) = uninstall_index-Keeps s sid limit in
    ground (arith, k.subscriptions, filters_of-drop_sub s.subscriptions sid limit sid' sub')

-- The number of subscriptions of a session.
abbrev pub count : SubscriberIndex → ℕ → ℕ
count s sid = length (or_default (get ℕ_discrete sid s.subscriptions))

count-step :
    (limit : ℕ) (s : SubscriberIndex) (op : Op)
    → 1 ≤ limit
    → ((sid : ℕ) → count s sid ≤ limit)
    → (sid : ℕ) → count (step limit s op) sid ≤ limit
unfolding step add remove_sub is_over
count-step limit s (subscribe sid sub filters) h c q =
    let rcs = allocate s.next_addr filters in
    let old = or_default (get ℕ_discrete sid s.subscriptions) in
    ground (
      arith,
      c q,
      replace-subscriptions s sid sub filters,
      get-insert ℕ_discrete sid (insert Bytes-discrete sub rcs old) q s.subscriptions,
      length-insert-le Bytes-discrete sub rcs old,
    )
count-step limit s (unsubscribe sid sub) h c q =
    let k : Keeps s (uninstall_index s sid sub) = uninstall_index-Keeps s sid sub in
    rw k.subscriptions (left sub)
  where
    left :
        (l : Option Bytes)
        → length (or_default (get ℕ_discrete q (drop_sub s.subscriptions sid l))) ≤ limit
    left l = elim (drop_sub-get s.subscriptions sid l q) [
      | inl e ↦ rw e (c q)
      | inr (inl e) ↦ rw e (omega arith)
      | inr (inr (sub', e)) ↦ rw e (
          omega (
            arith,
            c q,
            length-remove-le Bytes-discrete sub' (or_default (get ℕ_discrete q s.subscriptions)),
          ))
    ]

count-run :
    (limit : ℕ) (s : SubscriberIndex) (ops : List Op)
    → 1 ≤ limit
    → ((sid : ℕ) → count s sid ≤ limit)
    → (sid : ℕ) → count (run limit s ops) sid ≤ limit
unfolding run
count-run limit s [] h c = c
count-run limit s (op ∷ ops) h c =
    count-run limit (step limit s op) ops h (count-step limit s op h c)

-- Under a limit of one or more, no session ever has more subscriptions than the limit.
pub count-run-empty-le :
    (limit : ℕ) (ops : List Op) (sid : ℕ) → 1 ≤ limit → count (run limit empty ops) sid ≤ limit
unfolding empty get
count-run-empty-le limit ops sid h = count-run limit empty ops h (λ q. omega arith) sid
