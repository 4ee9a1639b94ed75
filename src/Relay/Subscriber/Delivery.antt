-- ===== src/Relay/Subscriber/Delivery.antt =====
-- The indexed search (relay/src/subscriber.rs) against the search without the index.
use rnostr.Prelude.Order.{Bytes, Bytes-discrete, bytes_ord, nat_ord}
use rnostr.Prelude.Maps.{Map, get, any_of_read, read_of_any}
use rnostr.Prelude.{
  ℕ, suc, zero, ◌+◌, ◌≡◌, sym, ◌∙◌, ◌⊎◌, true, false, ◌&&◌, holds, none, some, List, [], ◌∷◌,
  is_empty, any, any-append, has, any-some, any_of_get, get_elem?, ℕ_discrete, Option-cases,
  or-eq-true, and-eq-true, ◌==◌, inl, inr, arith,
}
use rnostr.Std.Text.{text_eq}
use rnostr.Db.Event.{EventIndex}
use rnostr.Db.Filter.Lists.{has-contains}
use rnostr.Db.Filter.Matching.{match_tag-all}
use rnostr.Db.Filter.{
  SortList, Filter, contains, match, match_except_tag, match_id, match_kind, match_author,
  match_tag, tag_contains,
}
use rnostr.Relay.Subscriber.Buckets.{joined, joined_values}
use rnostr.Relay.Subscriber.Install.{
  Slot, by_id, by_author, by_tag, by_kind, other, bucket, covers, placed,
}
use rnostr.Relay.Subscriber.Invariant.{Inv, filters_of, none-placed, get_nil}
use rnostr.Relay.Subscriber.Lookup.{delivers, has-lookup, Wants}
use rnostr.Relay.Subscriber.Keyed.{Key-discrete, Target, Target-discrete, Rc, concat_tag}
use rnostr.Relay.Subscriber.Search.{is_live, any_match, lookup}
use rnostr.Relay.Subscriber.{SubscriberIndex, key_of}

pub placed-match :
    (event : EventIndex) (i : ℕ) (rcs : List Rc) (slot : Slot) (j : ℕ) (w : Rc)
    → placed i rcs slot j ≡ some w
    → match w.value event ≡ true
    → any_match event rcs ≡ true
unfolding placed any_match
placed-match event i [] slot j w e h = absurd (ground arith)
placed-match event i (rc ∷ rcs) slot j w e h =
    ground (arith, placed-match event (suc i) rcs slot j w)

placed_of_get :
    (i : ℕ) (rcs : List Rc) (slot : Slot) (j : ℕ) (rc : Rc)
    → get_elem? rcs j ≡ some rc
    → covers rc.value slot ≡ true
    → placed i rcs slot (i + j) ≡ some rc
unfolding placed
placed_of_get i [] slot j rc e h = absurd (ground arith)
placed_of_get i (r ∷ rcs) slot zero rc e h = ground arith
placed_of_get i (r ∷ rcs) slot (suc j) rc e h = ground (arith, placed_of_get (suc i) rcs slot j rc)

module _ (s : SubscriberIndex) (event : EventIndex) (p : Target) (v : Inv s) where
  bucket-Wants : (slot : Slot) → any (delivers s event p) (bucket s slot) ≡ true → Wants s event p
  unfolding delivers
  bucket-Wants slot h =
      let (k, w, g, q) =
        read_of_any Key-discrete (delivers s event p) (bucket s slot) (v.distinct slot) h in
      elim (Option-cases (filters_of s.subscriptions k.session_id k.sub_id)) [
        | inl e ↦ absurd (ground (arith, v.exact slot k, none-placed slot k.index))
        | inr (fs, e) ↦ (
          fs,
          ground arith,
          ground (arith, v.exact slot k, placed-match event 0 fs slot k.index w),
        )
      ]

  pub lookup→Wants : has Target-discrete p (lookup s event) ≡ true → Wants s event p
  lookup→Wants h = elim (or-eq-true _ _ (sym (has-lookup s event p) ∙ h)) [
    | inl e ↦ bucket-Wants (by_id event.id) e
    | inr r ↦ elim (or-eq-true _ _ r) [
      | inl e ↦ bucket-Wants (by_author event.pubkey) e
      | inr r ↦ elim (or-eq-true _ _ r) [
        | inl e ↦ bucket-Wants (by_kind event.kind) e
        | inr r ↦ elim (or-eq-true _ _ r) [
          | inr e ↦ bucket-Wants other e
          | inl e ↦
              let (t, i, g, q) =
                any-some (λ t. any (delivers s event p) (bucket s (by_tag (concat_tag t.0 t.1))))
                  event.tags e in
              bucket-Wants (by_tag (concat_tag t.0 t.1)) q
        ]
      ]
    ]
  ]

  -- What is stored is owned.
  stored_live :
      (fs : List Rc) (i : ℕ) (rc : Rc)
      → filters_of s.subscriptions p.0 p.1 ≡ some fs
      → get_elem? fs i ≡ some rc
      → is_live s rc ≡ true
  unfolding is_live
  stored_live fs i rc f g = elim (Option-cases (get ℕ_discrete p.0 s.subscriptions)) [
    | inl e ↦ absurd (ground (arith, get_nil p.1))
    | inr (m, e) ↦
        any_of_read ℕ_discrete (λ e. any (λ d. any (λ r. r.addr == rc.addr) d.1) e.1)
          s.subscriptions p.0 m e
          (any_of_read Bytes-discrete (λ d. any (λ r. r.addr == rc.addr) d.1) m p.1 fs
            (ground arith) (any_of_get (λ r. r.addr == rc.addr) fs i rc g (ground arith)))
  ]

  -- A stored filter that matches is called through any bucket that it belongs to.
  pub bucket-delivers :
      (fs : List Rc) (i : ℕ) (rc : Rc) (slot : Slot)
      → filters_of s.subscriptions p.0 p.1 ≡ some fs
      → get_elem? fs i ≡ some rc
      → match rc.value event ≡ true
      → covers rc.value slot ≡ true
      → any (delivers s event p) (bucket s slot) ≡ true
  unfolding delivers
  bucket-delivers fs i rc slot f g h c =
      any_of_read Key-discrete (delivers s event p) (bucket s slot) (key_of p.0 p.1 i) rc
        (v.exact slot (key_of p.0 p.1 i) ∙ ground (arith, placed_of_get 0 fs slot i rc))
        (ground (arith, stored_live fs i rc f g))

-- An event that names no delegator is looked up by a value that indexes each filter it matches.
abbrev pub IsReached : Filter → EventIndex → Type 0
IsReached f event =
    (covers f (by_id event.id) ≡ true)
    ⊎ (covers f (by_author event.pubkey) ≡ true)
    ⊎ (covers f (by_kind event.kind) ≡ true)
    ⊎ (any (λ t. covers f (by_tag (concat_tag t.0 t.1))) event.tags ≡ true)
    ⊎ (covers f other ≡ true)

joined_has :
    (name v : Bytes) (vs : List Bytes)
    → has Bytes-discrete v vs ≡ true
    → has Bytes-discrete (concat_tag name v) (joined_values name vs) ≡ true
unfolding joined_values
joined_has name v [] h = absurd (ground arith)
joined_has name v (w ∷ vs) h = ground (arith, joined_has name v vs)

-- The first tag of the filter finds a tag of the event that it is indexed under.
tag_reached :
    (tags : Map Bytes (SortList Bytes)) (event_tags : List (Bytes × Bytes))
    → is_empty tags ≡ false
    → match_tag tags event_tags ≡ true
    → any (λ t. has Bytes-discrete (concat_tag t.0 t.1) (joined tags)) event_tags ≡ true
unfolding tag_contains joined
tag_reached [] event_tags e h = absurd (ground arith)
tag_reached ((name, vs) ∷ tags) event_tags e h =
    let all_true = sym (match_tag-all ((name, vs) ∷ tags) event_tags) ∙ h in
    let ((k, w), i, g, q) =
      any-some (λ tag. text_eq tag.0 name && contains vs tag.1) event_tags
        (and-eq-true _ _ all_true).0 in
    any_of_get (λ t. has Bytes-discrete (concat_tag t.0 t.1) (joined ((name, vs) ∷ tags)))
      event_tags i (k, w) g
      (ground (
        arith,
        has-contains Bytes-discrete vs w,
        joined_has name w vs,
        any-append (λ x. holds (Bytes-discrete x (concat_tag k w))) (joined_values name vs)
            (joined tags),
      ))

pub match-IsReached :
    (f : Filter) (event : EventIndex)
    → event.delegator ≡ none
    → match f event ≡ true
    → IsReached f event
unfolding match match_except_tag match_id match_kind match_author covers
match-IsReached f event d h = ground (
  arith,
  has-contains Bytes-discrete f.ids event.id,
  has-contains Bytes-discrete f.authors event.pubkey,
  has-contains ℕ_discrete f.kinds event.kind,
  tag_reached f.tags event.tags,
)
