-- ===== src/Relay/Subscriber/Lookup.antt =====
-- `lookup` and `lookup1` (relay/src/subscriber.rs) as searches: which targets they call.
use rnostr.Prelude.Order.{Bytes, Bytes-discrete}
use rnostr.Prelude.Maps.{Map, get, Distinct, any-get, get-any}
use rnostr.Prelude.{
  ℕ, ◌≡◌, refl, sym, ◌∙◌, Bool, true, ◌&&◌, ◌||◌, holds, if◌then◌else◌, some, List, [], ◌∷◌, any,
  any-append, has, ℕ_discrete, Option-cases, inl, inr, arith,
}
use rnostr.Db.Event.{EventIndex}
use rnostr.Db.Filter.{match}
use rnostr.Relay.Subscriber.Buckets.{under}
use rnostr.Relay.Subscriber.Install.{by_id, by_author, by_tag, by_kind, other, bucket}
use rnostr.Relay.Subscriber.Invariant.{Inv, filters_of, get_nil}
use rnostr.Relay.Subscriber.Keyed.{Key, Target, Target-discrete, Rc, Entries, concat_tag}
use rnostr.Relay.Subscriber.Search.{
  is_live, check, check_all, scan, scan_tags, lookup, any_match, lookup1_subs, lookup1_from,
  lookup1,
}
use rnostr.Relay.Subscriber.{SubscriberIndex}

module _ (s : SubscriberIndex) (event : EventIndex) (p : Target) where
  -- The entry calls the target.
  unfoldable pub delivers : Key × Rc → Bool
  delivers e =
      holds (Target-discrete (e.0.session_id, e.0.sub_id) p)
      && (is_live s e.1 && match e.1.value event)

  has-check :
      (calls : List Target) (k : Key) (w : Rc)
      → has Target-discrete p (check s event calls k w)
        ≡ (has Target-discrete p calls || delivers (k, w))
  unfolding check delivers
  has-check calls k w =
      ground
        (arith, any-append (λ x. holds (Target-discrete x p)) calls ((k.session_id, k.sub_id) ∷ []))

  has-check_all :
      (calls : List Target) (m : Entries)
      → has Target-discrete p (check_all s event calls m)
        ≡ (has Target-discrete p calls || any delivers m)
  unfolding check_all
  has-check_all calls [] = ground arith
  has-check_all calls ((k, w) ∷ m) =
      ground (arith, has-check_all (check s event calls k w) m, has-check calls k w)

  has-scan :
      {T : Type 0} (dec : Discrete T) (calls : List Target) (m : Map T Entries) (key : T)
      → has Target-discrete p (scan dec s event calls m key)
        ≡ (has Target-discrete p calls || any delivers (under dec m key))
  unfolding scan
  has-scan dec calls m key = elim (Option-cases (get dec key m)) [
    | inl e ↦ ground arith
    | inr (entries, e) ↦ ground (arith, has-check_all calls entries)
  ]

  -- The bucket of one tag of the event.
  abbrev tag_hit : Bytes × Bytes → Bool
  tag_hit t = any delivers (bucket s (by_tag (concat_tag t.0 t.1)))

  has-scan_tags :
      (calls : List Target) (tags : List (Bytes × Bytes))
      → has Target-discrete p (scan_tags s event calls tags)
        ≡ (has Target-discrete p calls || any tag_hit tags)
  unfolding scan_tags
  has-scan_tags calls [] = ground arith
  has-scan_tags calls ((key, val) ∷ tags) = ground (
    arith,
    has-scan_tags (scan Bytes-discrete s event calls s.tags (concat_tag key val)) tags,
    has-scan Bytes-discrete calls s.tags (concat_tag key val),
  )

  -- A target is called exactly if an entry of one of the buckets of the event calls it.
  pub has-lookup : has Target-discrete p (lookup s event) ≡ (
      any delivers (bucket s (by_id event.id))
      || (any delivers (bucket s (by_author event.pubkey))
          || (any delivers (bucket s (by_kind event.kind))
              || (any tag_hit event.tags || any delivers (bucket s other)))))
  unfolding lookup
  has-lookup =
      let l1 = scan Bytes-discrete s event [] s.ids event.id in
      let l2 = scan Bytes-discrete s event l1 s.authors event.pubkey in
      let l3 = scan ℕ_discrete s event l2 s.kinds event.kind in
      let l4 = scan_tags s event l3 event.tags in
      ground (
        arith,
        has-check_all l4 s.others,
        has-scan_tags l3 event.tags,
        has-scan ℕ_discrete l2 s.kinds event.kind,
        has-scan Bytes-discrete l1 s.authors event.pubkey,
        has-scan Bytes-discrete [] s.ids event.id,
      )

  abbrev sub_hit : Bytes × List Rc → Bool
  sub_hit e = holds (Bytes-discrete e.0 p.1) && any_match event e.1

  has-lookup1_subs :
      (sid : ℕ) (subs : Map Bytes (List Rc))
      → has Target-discrete p (lookup1_subs event sid subs)
        ≡ (holds (ℕ_discrete sid p.0) && any sub_hit subs)
  unfolding lookup1_subs
  has-lookup1_subs sid [] = ground arith
  has-lookup1_subs sid ((sub, filters) ∷ subs) = ground (
    arith,
    has-lookup1_subs sid subs,
    any-append (λ x. holds (Target-discrete x p))
        (if any_match event filters then (sid, sub) ∷ [] else []) (lookup1_subs event sid subs),
  )

  has-lookup1_from :
      (subs : Map ℕ (Map Bytes (List Rc)))
      → has Target-discrete p (lookup1_from event subs)
        ≡ any (λ e. holds (ℕ_discrete e.0 p.0) && any sub_hit e.1) subs
  unfolding lookup1_from
  has-lookup1_from [] = refl
  has-lookup1_from ((sid, m) ∷ subs) = ground (
    arith,
    has-lookup1_from subs,
    has-lookup1_subs sid m,
    any-append (λ x. holds (Target-discrete x p)) (lookup1_subs event sid m)
        (lookup1_from event subs),
  )

  -- A stored subscription has a filter that matches.
  abbrev pub Wants : Type 0
  Wants =
      (fs : List Rc) × (filters_of s.subscriptions p.0 p.1 ≡ some fs) × (any_match event fs ≡ true)

  -- The search without the index calls exactly the subscriptions with a matching filter.
  pub lookup1→Wants : Inv s → has Target-discrete p (lookup1 s event) ≡ true → Wants
  unfolding lookup1
  lookup1→Wants v h =
      let (m, g, q) =
        get-any ℕ_discrete p.0 (λ m. any sub_hit m) s.subscriptions v.sessions
          (sym (has-lookup1_from s.subscriptions) ∙ h) in
      let d : Distinct Bytes-discrete m = rw g at (v.names p.0) in
      let (fs, g', q') = get-any Bytes-discrete p.1 (any_match event) m d q in
      (fs, ground arith, q')

  pub Wants→lookup1 : Wants → has Target-discrete p (lookup1 s event) ≡ true
  unfolding lookup1
  Wants→lookup1 (fs, g, q) = elim (Option-cases (get ℕ_discrete p.0 s.subscriptions)) [
    | inl e ↦ absurd (ground (arith, get_nil p.1))
    | inr (m, e) ↦
        has-lookup1_from s.subscriptions
        ∙ any-get ℕ_discrete p.0 (λ m. any sub_hit m) s.subscriptions m e
            (any-get Bytes-discrete p.1 (any_match event) m fs (ground arith) q)
  ]
