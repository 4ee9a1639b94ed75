-- ===== src/Relay/Subscriber/Invariant.antt =====
-- The invariant of the subscription index (relay/src/subscriber.rs): the index holds exactly the
-- entries that the subscriptions ask for, and every operation keeps it so.
use rnostr.Prelude.Order.{Bytes, Bytes-discrete}
use rnostr.Prelude.Maps.{
  Map, get, insert, remove, get-insert, get-remove, Distinct, insert-Distinct, any-get,
}
use rnostr.Prelude.{
  ℕ, ◌≡◌, refl, false, ◌&&◌, holds, if◌then◌else◌, Option, none, List, [], ℕ_discrete, Option-cases,
  inl, inr, arith, ite, some, is_empty, true, ◌∷◌,
}
use rnostr.Db.Filter.{Filter}
use rnostr.Relay.Subscriber.Install.{
  Slot, bucket, look, placed, is_placed, is_listed, look-uninstall_subs, look-install_from,
}
use rnostr.Relay.Subscriber.Keeps.{Keeps, Keeps-trans, install_index-Keeps, uninstall_index-Keeps}
use rnostr.Relay.Subscriber.Keyed.{Key, Key-discrete, Rc, or_default}
use rnostr.Relay.Subscriber.{
  SubscriberIndex, empty, is_limited_to, uninstall_index, add, drop_sub, install_index, replace,
  allocate,
}

-- The filters of a subscription.
abbrev pub filters_of : Map ℕ (Map Bytes (List Rc)) → ℕ → Bytes → Option (List Rc)
filters_of subs sid sub = get Bytes-discrete sub (or_default (get ℕ_discrete sid subs))

-- The entry that the subscriptions ask for.
abbrev pub wanted : Map ℕ (Map Bytes (List Rc)) → Slot → Key → Option Rc
wanted subs slot key =
    placed 0 (or_default (filters_of subs key.session_id key.sub_id)) slot key.index

pub record Inv (s : SubscriberIndex) : Type 0 where
  pub exact : (slot : Slot) (key : Key) → look s slot key ≡ wanted s.subscriptions slot key
  pub distinct : (slot : Slot) → Distinct Key-discrete (bucket s slot)
  pub sessions : Distinct ℕ_discrete s.subscriptions
  pub names : (sid : ℕ) → Distinct Bytes-discrete (or_default (get ℕ_discrete sid s.subscriptions))

pub empty-Inv : Inv empty
unfolding empty get placed
empty-Inv = record {
  exact = elim [
    | Slot.by_id b ↦ λ key. refl
    | Slot.by_author b ↦ λ key. refl
    | Slot.by_tag b ↦ λ key. refl
    | Slot.by_kind n ↦ λ key. refl
    | Slot.other ↦ λ key. refl
  ];
  distinct = elim [
    | Slot.by_id b ↦ tt
    | Slot.by_author b ↦ tt
    | Slot.by_tag b ↦ tt
    | Slot.by_kind n ↦ tt
    | Slot.other ↦ tt
  ];
  sessions = tt;
  names = λ sid. tt;
}

pub none-placed : (slot : Slot) (j : ℕ) → placed 0 [] slot j ≡ none
unfolding placed
none-placed slot j = refl

pub get_nil : (sub : Bytes) → get {V = List Rc} Bytes-discrete sub [] ≡ none
unfolding get
get_nil sub = refl

-- An entry that is asked for is met by the loop over the subscriptions.
listed :
    (subs : Map Bytes (List Rc)) (slot : Slot) (key : Key)
    → is_listed subs slot key ≡ false
    → placed 0 (or_default (get Bytes-discrete key.sub_id subs)) slot key.index ≡ none
listed subs slot key h = elim (Option-cases (get Bytes-discrete key.sub_id subs)) [
  | inl e ↦ ground (arith, none-placed slot key.index)
  | inr (rcs, e) ↦
      ground (
        arith,
        any-get Bytes-discrete key.sub_id (λ rcs. is_placed 0 rcs slot key.index) subs rcs e,
      )
]

-- After `uninstall_index` the entries of the named subscriptions are gone, and no others.
pub look-uninstall_index :
    (s : SubscriberIndex) (sid : ℕ) (limit : Option Bytes) (slot : Slot) (key : Key)
    → Inv s
    → look (uninstall_index s sid limit) slot key ≡ (
        if holds (ℕ_discrete sid key.session_id) && is_limited_to limit key.sub_id
        then none
        else wanted s.subscriptions slot key)
look-uninstall_index s sid limit slot key v =
    elim (Option-cases (get ℕ_discrete sid s.subscriptions)) [
      | inl e ↦
          unfold uninstall_index in
          ground (arith, v.exact slot key, none-placed slot key.index, get_nil key.sub_id)
      | inr (subs, e) ↦
          unfold uninstall_index in
          ground (
            arith,
            v.exact slot key,
            look-uninstall_subs s sid limit subs slot key,
            listed subs slot key,
            none-placed slot key.index,
          )
    ]

-- The buckets do not read the subscriptions.
bucket-subscriptions :
    (t : SubscriberIndex) (subs : Map ℕ (Map Bytes (List Rc))) (n : ℕ) (slot : Slot)
    → bucket (record t { subscriptions = subs; next_addr = n }) slot ≡ bucket t slot
bucket-subscriptions t subs n (Slot.by_id b) = refl
bucket-subscriptions t subs n (Slot.by_author b) = refl
bucket-subscriptions t subs n (Slot.by_tag b) = refl
bucket-subscriptions t subs n (Slot.by_kind k) = refl
bucket-subscriptions t subs n Slot.other = refl

-- A state with the buckets of `t` and the subscriptions given.
pub with_subs-Inv :
    (s t : SubscriberIndex) (subs : Map ℕ (Map Bytes (List Rc))) (n : ℕ)
    → Inv s
    → Keeps s t
    → ((slot : Slot) (key : Key) → look t slot key ≡ wanted subs slot key)
    → Distinct ℕ_discrete subs
    → ((sid : ℕ) → Distinct Bytes-discrete (or_default (get ℕ_discrete sid subs)))
    → Inv (record t { subscriptions = subs; next_addr = n })
with_subs-Inv s t subs n v k e d ds = record {
  exact = λ slot key. rw (bucket-subscriptions t subs n slot) (e slot key);
  distinct = λ slot. rw (bucket-subscriptions t subs n slot) (k.distinct v.distinct slot);
  sessions = d;
  names = ds;
}

pub filters_of-insert :
    (subs : Map ℕ (Map Bytes (List Rc))) (sid : ℕ) (sub : Bytes) (rcs : List Rc) (sid' : ℕ)
    (sub' : Bytes)
    → filters_of
        (insert ℕ_discrete sid
          (insert Bytes-discrete sub rcs (or_default (get ℕ_discrete sid subs)))
          subs)
        sid'
        sub'
      ≡ (if holds (ℕ_discrete sid sid') && holds (Bytes-discrete sub sub')
          then some rcs
          else filters_of subs sid' sub')
filters_of-insert subs sid sub rcs sid' sub' =
    let m = or_default (get ℕ_discrete sid subs) in
    ground (
      arith,
      get-insert ℕ_discrete sid (insert Bytes-discrete sub rcs m) sid' subs,
      get-insert Bytes-discrete sub rcs sub' m,
    )

insert_names :
    (subs : Map ℕ (Map Bytes (List Rc))) (sid : ℕ) (sub : Bytes) (rcs : List Rc)
    → ((q : ℕ) → Distinct Bytes-discrete (or_default (get ℕ_discrete q subs)))
    → (q : ℕ)
    → Distinct Bytes-discrete (
        or_default (
          get ℕ_discrete q (
            insert ℕ_discrete sid
              (insert Bytes-discrete sub rcs (or_default (get ℕ_discrete sid subs)))
              subs)))
insert_names subs sid sub rcs d q =
    rw
      (get-insert ℕ_discrete sid
        (insert Bytes-discrete sub rcs (or_default (get ℕ_discrete sid subs))) q subs)
      (pick (ℕ_discrete sid q))
  where
    m : Map Bytes (List Rc)
    m = insert Bytes-discrete sub rcs (or_default (get ℕ_discrete sid subs))

    pick :
        (b : Dec (sid ≡ q))
        → Distinct Bytes-discrete (or_default (ite b (some m) (get ℕ_discrete q subs)))
    pick (yes _) =
        insert-Distinct Bytes-discrete sub rcs (or_default (get ℕ_discrete sid subs)) (d sid)
    pick (no _) = d q

replace-look :
    (s : SubscriberIndex) (sid : ℕ) (sub : Bytes) (rcs : List Rc) (slot : Slot) (key : Key)
    → Inv s
    → look (install_index (uninstall_index s sid (some sub)) sid sub rcs) slot key
      ≡ wanted
          (insert ℕ_discrete sid
            (insert Bytes-discrete sub rcs (or_default (get ℕ_discrete sid s.subscriptions)))
            s.subscriptions)
          slot
          key
unfolding install_index is_limited_to
replace-look s sid sub rcs slot key v = ground (
  arith,
  look-install_from (uninstall_index s sid (some sub)) sid sub 0 rcs slot key,
  look-uninstall_index s sid (some sub) slot key v,
  filters_of-insert s.subscriptions sid sub rcs key.session_id key.sub_id,
)

pub replace-Inv :
    (s : SubscriberIndex) (sid : ℕ) (sub : Bytes) (filters : List Filter)
    → Inv s
    → Inv (replace s sid sub filters)
unfolding replace
replace-Inv s sid sub filters v =
    let rcs = allocate s.next_addr filters in
    let u = uninstall_index s sid (some sub) in
    let t = install_index u sid sub rcs in
    let k : Keeps s t =
      Keeps-trans (uninstall_index-Keeps s sid (some sub)) (install_index-Keeps u sid sub rcs) in
    with_subs-Inv s t _ _ v k
      (λ slot key. rw k.subscriptions (replace-look s sid sub rcs slot key v))
      (rw k.subscriptions (insert-Distinct ℕ_discrete sid _ s.subscriptions v.sessions))
      (rw k.subscriptions (insert_names s.subscriptions sid sub rcs v.names))

pub add-Inv :
    (s : SubscriberIndex) (sid : ℕ) (sub : Bytes) (filters : List Filter) (limit : ℕ)
    → Inv s
    → Inv (add s sid sub filters limit).0
unfolding add
add-Inv s sid sub filters limit v = ground (arith, replace-Inv s sid sub filters v)

nil_of_empty : (m : Map Bytes (List Rc)) → is_empty m ≡ true → m ≡ []
nil_of_empty [] h = refl
nil_of_empty (x ∷ m) h = cc

pub filters_of-drop_sub :
    (subs : Map ℕ (Map Bytes (List Rc))) (sid : ℕ) (limit : Option Bytes) (sid' : ℕ) (sub' : Bytes)
    → filters_of (drop_sub subs sid limit) sid' sub' ≡ (
        if holds (ℕ_discrete sid sid') && is_limited_to limit sub'
        then none
        else filters_of subs sid' sub')
unfolding drop_sub is_limited_to
filters_of-drop_sub subs sid none sid' sub' =
    ground (arith, get-remove ℕ_discrete sid sid' subs, get_nil sub')
filters_of-drop_sub subs sid (some sub) sid' sub' = elim (Option-cases (get ℕ_discrete sid subs)) [
  | inl e ↦ ground (arith, get_nil sub')
  | inr (m, e) ↦ ground (
    arith,
    get-remove ℕ_discrete sid sid' subs,
    get-insert ℕ_discrete sid (remove Bytes-discrete sub m) sid' subs,
    get-remove Bytes-discrete sub sub' m,
    get_nil sub',
    nil_of_empty (remove Bytes-discrete sub m),
  )
]
