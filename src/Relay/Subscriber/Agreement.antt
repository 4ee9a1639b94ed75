-- ===== src/Relay/Subscriber/Agreement.antt =====
-- When the indexed search (relay/src/subscriber.rs) gives what the search without the index gives,
-- and when it does not.
use rnostr.Prelude.Order.{Bytes, Bytes-discrete}
use rnostr.Prelude.Maps.{Map, get, read_of_any}
use rnostr.Prelude.{
  ℕ, ◌≡◌, refl, ◌∙◌, true, false, ◌||◌, holds, none, some, List, [], ◌∷◌, ◌++◌, is_empty, any,
  any-append, has, any-some, any_of_get, get_elem?, ℕ_discrete, Option-cases, Bool-cases, Bool-ext,
  inl, inr, arith,
}
use rnostr.Db.Event.{EventIndex}
use rnostr.Db.Filter.{match}
use rnostr.Relay.Subscriber.Install.{
  Slot, by_id, by_author, by_tag, by_kind, other, bucket, covers, placed,
}
use rnostr.Relay.Subscriber.Invariant.{Inv, filters_of}
use rnostr.Relay.Subscriber.Lookup.{delivers, has-lookup, Wants, lookup1→Wants, Wants→lookup1}
use rnostr.Relay.Subscriber.Delivery.{lookup→Wants, bucket-delivers, IsReached, match-IsReached}
use rnostr.Relay.Subscriber.Keyed.{
  Key, Key-discrete, Target, Target-discrete, Rc, Entries, concat_tag,
}
use rnostr.Relay.Subscriber.Search.{any_match, check, check_all, scan, scan_tags, lookup, lookup1}
use rnostr.Relay.Subscriber.{SubscriberIndex}

module _ (s : SubscriberIndex) (event : EventIndex) (p : Target) (v : Inv s) where
  Wants→lookup :
      event.delegator ≡ none → Wants s event p → has Target-discrete p (lookup s event) ≡ true
  unfolding any_match
  Wants→lookup d (fs, f, q) =
      let (rc, i, g, h) = any-some (λ rc. match rc.value event) fs q in
      has-lookup s event p ∙ reached rc i g h (match-IsReached rc.value event d h)
    where
      reached :
          (rc : Rc) (i : ℕ)
          → get_elem? fs i ≡ some rc
          → match rc.value event ≡ true
          → IsReached rc.value event
          → (any (delivers s event p) (bucket s (by_id event.id))
              || (any (delivers s event p) (bucket s (by_author event.pubkey))
                  || (any (delivers s event p) (bucket s (by_kind event.kind))
                      || (any
                            (λ t. any (delivers s event p) (bucket s (by_tag (concat_tag t.0 t.1))))
                            event.tags
                          || any (delivers s event p) (bucket s other)))))
            ≡ true
      reached rc i g h (inl c) =
          ground (arith, bucket-delivers s event p v fs i rc (by_id event.id) f g h c)
      reached rc i g h (inr (inl c)) =
          ground (arith, bucket-delivers s event p v fs i rc (by_author event.pubkey) f g h c)
      reached rc i g h (inr (inr (inl c))) =
          ground (arith, bucket-delivers s event p v fs i rc (by_kind event.kind) f g h c)
      reached rc i g h (inr (inr (inr (inl c)))) =
          let ((k, w), j, gt, ct) =
            any-some (λ t. covers rc.value (by_tag (concat_tag t.0 t.1))) event.tags c in
          let found =
            any_of_get (λ t. any (delivers s event p) (bucket s (by_tag (concat_tag t.0 t.1))))
              event.tags j (k, w) gt
              (bucket-delivers s event p v fs i rc (by_tag (concat_tag k w)) f g h ct) in
          ground arith
      reached rc i g h (inr (inr (inr (inr c)))) =
          ground (arith, bucket-delivers s event p v fs i rc other f g h c)

  -- On an exact index the indexed search calls no subscription that the plain search does not: each
  -- target has a stored filter that matches the event.
  pub lookup_sound :
      has Target-discrete p (lookup s event) ≡ true → has Target-discrete p (lookup1 s event) ≡ true
  lookup_sound h = Wants→lookup1 s event p (lookup→Wants s event p v h)

  -- On an exact index, for an event that names no delegator, the indexed search calls exactly the
  -- subscriptions that the search through all filters calls.
  pub lookup-lookup1 :
      event.delegator ≡ none
      → has Target-discrete p (lookup s event) ≡ has Target-discrete p (lookup1 s event)
  lookup-lookup1 d = Bool-ext _ _ lookup_sound (λ h. Wants→lookup d (lookup1→Wants s event p v h))

  -- A filter that does not belong to a bucket is not called through it.
  bucket_quiet :
      (rc : Rc) (slot : Slot)
      → filters_of s.subscriptions p.0 p.1 ≡ some (rc ∷ [])
      → covers rc.value slot ≡ false
      → any (delivers s event p) (bucket s slot) ≡ false
  unfolding delivers
  bucket_quiet rc slot f c = elim (Bool-cases (any (delivers s event p) (bucket s slot))) [
    | inr e ↦ e
    | inl e ↦
        let (k, w, g, q) =
          read_of_any Key-discrete (delivers s event p) (bucket s slot) (v.distinct slot) e in
        absurd (unfold placed in ground (arith, v.exact slot k))
  ]

  -- An event that a filter matches by the delegator alone is missed: the subscription whose one
  -- filter has authors, but no ids, and not the event's own author, is called by the plain search
  -- and not by the indexed one.
  pub lookup_misses_delegated :
      (rc : Rc)
      → filters_of s.subscriptions p.0 p.1 ≡ some (rc ∷ [])
      → rc.value.ids ≡ []
      → is_empty rc.value.authors ≡ false
      → has Bytes-discrete event.pubkey rc.value.authors ≡ false
      → match rc.value event ≡ true
      → (has Target-discrete p (lookup s event) ≡ false)
        × (has Target-discrete p (lookup1 s event) ≡ true)
  unfolding covers any_match
  lookup_misses_delegated rc f i a n h = (
    has-lookup s event p
        ∙ ground (
          arith,
          bucket_quiet rc (by_id event.id) f,
          bucket_quiet rc (by_author event.pubkey) f,
          bucket_quiet rc (by_kind event.kind) f,
          no_tags event.tags,
          bucket_quiet rc other f,
        ),
    Wants→lookup1 s event p (rc ∷ [], f, ground arith),
  )
    where
      no_tags :
          (tags : List (Bytes × Bytes))
          → any (λ t. any (delivers s event p) (bucket s (by_tag (concat_tag t.0 t.1)))) tags
            ≡ false
      no_tags [] = refl
      no_tags (t ∷ tags) =
          ground (arith, no_tags tags, bucket_quiet rc (by_tag (concat_tag t.0 t.1)) f)

-- No target stands twice in the list.
abbrev pub Once : List Target → Type 0
Once [] = Unit
Once (x ∷ xs) = (has Target-discrete x xs ≡ false) × Once xs

Once-snoc :
    (l : List Target) (x : Target) → has Target-discrete x l ≡ false → Once l → Once (l ++ x ∷ [])
Once-snoc [] x h o = (refl, tt)
Once-snoc (y ∷ l) x h o = (
  ground (arith, any-append (λ z. holds (Target-discrete z y)) l (x ∷ [])),
  Once-snoc l x (ground arith) o.1,
)

module _ (s : SubscriberIndex) (event : EventIndex) where
  check-Once :
      (calls : List Target) (k : Key) (w : Rc) → Once calls → Once (check s event calls k w)
  unfolding check
  check-Once calls k w o = ground (arith, Once-snoc calls (k.session_id, k.sub_id))

  check_all-Once :
      (calls : List Target) (m : Entries) → Once calls → Once (check_all s event calls m)
  unfolding check_all
  check_all-Once calls [] o = o
  check_all-Once calls ((k, w) ∷ m) o =
      check_all-Once (check s event calls k w) m (check-Once calls k w o)

  scan-Once :
      {T : Type 0} (dec : Discrete T) (calls : List Target) (m : Map T Entries) (key : T)
      → Once calls
      → Once (scan dec s event calls m key)
  unfolding scan
  scan-Once dec calls m key o = elim (Option-cases (get dec key m)) [
    | inl e ↦ rw (e, scan) o
    | inr (entries, e) ↦ rw (e, scan) (check_all-Once calls entries o)
  ]

  scan_tags-Once :
      (calls : List Target) (tags : List (Bytes × Bytes))
      → Once calls
      → Once (scan_tags s event calls tags)
  unfolding scan_tags
  scan_tags-Once calls [] o = o
  scan_tags-Once calls ((key, val) ∷ tags) o =
      scan_tags-Once (scan Bytes-discrete s event calls s.tags (concat_tag key val)) tags
        (scan-Once Bytes-discrete calls s.tags (concat_tag key val) o)

  -- In any state, a subscription is called at most once for an event, however many of its filters
  -- and buckets find it.
  pub lookup-Once : Once (lookup s event)
  unfolding lookup
  lookup-Once = check_all-Once _ s.others (
      scan_tags-Once _ event.tags (
        scan-Once ℕ_discrete _ s.kinds event.kind (
          scan-Once Bytes-discrete _ s.authors event.pubkey
            (scan-Once Bytes-discrete [] s.ids event.id tt))))
