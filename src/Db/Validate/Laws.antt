-- ===== src/Db/Validate/Laws.antt =====
-- What an event has shown when its checks (db/src/event.rs) pass.
use rnostr.Prelude.Order.{Bytes}
use rnostr.Prelude.{
  ℕ, ◌+◌, ◌≤◌, ◌<◌, ◌≡◌, ◌↔◌, ◌⊎◌, inl, inr, subst, true, false, Option, none, some, List, [], ◌∷◌,
  All, if◌then◌else◌, Bool-cases, Option-cases, arith,
}
use rnostr.Std.Text.{codes, text_eq}
use rnostr.Std.Words.{u64_mod}
use rnostr.Std.Parse.{split}
use rnostr.Db.Error.{ok, ◌>>=◌, >>=-eq-ok}
use rnostr.Db.Event.{decode, is_expired}
use rnostr.Db.Validate.{
  Event, Crates, sub_u64, add_u64, verify_time, hash, verify_id, check_sign, verify_sign, token,
  check_delegation, first_delegation, verify_delegation, validate,
}
use rnostr.Db.Validate.Conditions.{Condition, ok_bind, check_conditions-All}

-- The times that `verify_time` lets through, for bounds that do not wrap.
verify_time_iff :
    (e : Event) (now older newer : ℕ)
    → older ≤ now
    → now + newer < u64_mod
    → (verify_time e now older newer ≡ ok tt) ↔ (
        ((older ≡ 0) ⊎ (now ≤ e.index.created_at + older))
        × ((newer ≡ 0) ⊎ (e.index.created_at ≤ now + newer)))
unfolding verify_time sub_u64 add_u64
verify_time_iff e now older newer h k = (λ p. (ground arith, ground arith), λ p. ground arith)

is_expired_iff :
    (e : Event) (now : ℕ)
    → (is_expired e.index now ≡ false)
      ↔ ((e.index.expiration ≡ none) ⊎ ((x : ℕ) × (e.index.expiration ≡ some x) × (now ≤ x)))
unfolding is_expired
is_expired_iff e now = elim (Option-cases e.index.expiration) [
  | inl p ↦ (λ h. inl p, λ m. ground arith)
  | inr (x, p) ↦ (λ h. inr (x, p, ground arith), λ m. lasting x p m)
]
  where
    lasting :
        (x : ℕ)
        → e.index.expiration ≡ some x
        → (e.index.expiration ≡ none) ⊎ ((x : ℕ) × (e.index.expiration ≡ some x) × (now ≤ x))
        → is_expired e.index now ≡ false
    lasting x p (inl q) = absurd (ground arith)
    lasting x p (inr (y, q, r)) = unfold is_expired in ground arith

-- The first delegation tag of four items: the delegator, the conditions and the signature.
abbrev pub first_of_four : List (List Bytes) → Option (Bytes × Bytes × Bytes)
first_of_four [] = none
first_of_four ((name ∷ delegator ∷ conditions ∷ sig ∷ []) ∷ tags) =
    if text_eq name (codes "delegation")
    then some (delegator, conditions, sig)
    else first_of_four tags
first_of_four (tag ∷ tags) = first_of_four tags

module _ (crates : Crates) where
  -- The delegator has signed for the author, under conditions that the event meets.
  pub record Delegates (e : Event) (delegator conditions sig : Bytes) : Type 0 where
    pub key : Bytes
    pub signature : Bytes
    pub is_key : crates.hex_decode delegator ≡ some key
    pub is_signature : crates.hex_decode sig ≡ some signature
    pub signed : crates.verify_schnorr signature key (token crates e conditions) ≡ true
    pub met : All (Condition e) (split b'&' conditions)

  -- What the checks ask of an event.
  pub record Valid (e : Event) (now older newer : ℕ) : Type 0 where
    pub lasts : (e.index.expiration ≡ none) ⊎ ((x : ℕ) × (e.index.expiration ≡ some x) × (now ≤ x))
    pub recent : (older ≡ 0) ⊎ (now ≤ e.index.created_at + older)
    pub past : (newer ≡ 0) ⊎ (e.index.created_at ≤ now + newer)
    pub id : hash crates e ≡ e.index.id
    pub signed : crates.verify_schnorr e.sig e.index.pubkey e.index.id ≡ true
    pub delegated :
        (e.index.delegator ≡ none)
        ⊎ ((d c s : Bytes) × (first_of_four e.tags ≡ some (d, c, s)) × Delegates e d c s)

  verify_id_iff : (e : Event) → (verify_id crates e ≡ ok tt) ↔ (hash crates e ≡ e.index.id)
  unfolding verify_id
  verify_id_iff e = (λ h. ground arith, λ h. ground arith)

  verify_sign_iff :
      (e : Event)
      → (verify_sign crates e ≡ ok tt)
        ↔ (crates.verify_schnorr e.sig e.index.pubkey e.index.id ≡ true)
  unfolding verify_sign check_sign
  verify_sign_iff e = (λ h. ground arith, λ h. ground arith)

  decode_iff : (a b : Bytes) → (decode crates.hex_decode a ≡ ok b) ↔ (crates.hex_decode a ≡ some b)
  unfolding decode
  decode_iff a b = (λ h. ground arith, λ h. ground arith)

  check_sign_iff :
      (s k m : Bytes) → (check_sign crates s k m ≡ ok tt) ↔ (crates.verify_schnorr s k m ≡ true)
  unfolding check_sign
  check_sign_iff s k m = (λ h. ground arith, λ h. ground arith)

  check_delegation_iff :
      (e : Event) (d c s : Bytes) → (check_delegation crates e d c s ≡ ok tt) ↔ Delegates e d c s
  unfolding check_delegation
  check_delegation_iff e d c s = (
    λ h.
        let (sg, p, h1) = >>=-eq-ok (decode crates.hex_decode s) _ h in
        let (k, q, h2) = >>=-eq-ok (decode crates.hex_decode d) _ h1 in
        let (a, b) = (ok_bind _ _ tt).0 h2 in
        record {
          key = k;
          signature = sg;
          is_key = (decode_iff d k).0 q;
          is_signature = (decode_iff s sg).0 p;
          signed = (check_sign_iff sg k (token crates e c)).0 a;
          met = (check_conditions-All e (split b'&' c)).0 b;
        },
    λ m.
        rw ((decode_iff s m.signature).1 m.is_signature, (decode_iff d m.key).1 m.is_key)
          ((ok_bind _ _ tt).1 (
            (check_sign_iff m.signature m.key (token crates e c)).1 m.signed,
            (check_conditions-All e (split b'&' c)).1 m.met,
          )),
  )

  abbrev Delegated : Event → List (List Bytes) → Type 0
  Delegated e tags = (d c s : Bytes) × (first_of_four tags ≡ some (d, c, s)) × Delegates e d c s

  first_delegation_iff :
      (e : Event) (tags : List (List Bytes))
      → (first_delegation crates e tags ≡ ok tt) ↔ Delegated e tags
  unfolding first_delegation
  first_delegation_iff e [] = (λ h. absurd cc, λ m. absurd (ground arith))
  first_delegation_iff e ([] ∷ tags) = first_delegation_iff e tags
  first_delegation_iff e ((n ∷ []) ∷ tags) = first_delegation_iff e tags
  first_delegation_iff e ((n ∷ d ∷ []) ∷ tags) = first_delegation_iff e tags
  first_delegation_iff e ((n ∷ d ∷ c ∷ []) ∷ tags) = first_delegation_iff e tags
  first_delegation_iff e ((n ∷ d ∷ c ∷ s ∷ []) ∷ tags) =
      elim (Bool-cases (text_eq n (codes "delegation"))) [
        | inl b ↦ (
          λ h. (d, c, s, ground arith, (check_delegation_iff e d c s).0 (ground arith)),
          λ (d', c', s', p, q).
              let same : ◌≡◌ {A = Bytes × Bytes × Bytes} (d', c', s') (d, c, s) = ground arith in
              let here : Delegates e d c s = subst (λ t. Delegates e t.0 t.1 t.2) same q in
              ground (arith, (check_delegation_iff e d c s).1 here),
        )
        | inr b ↦ (
          λ h.
              let (d', c', s', p, q) = (first_delegation_iff e tags).0 (ground arith) in
              (d', c', s', ground arith, q),
          λ (d', c', s', p, q).
              let later : Delegated e tags = (d', c', s', ground arith, q) in
              ground (arith, (first_delegation_iff e tags).1 later),
        )
      ]
  first_delegation_iff e ((n ∷ d ∷ c ∷ s ∷ x ∷ more) ∷ tags) = first_delegation_iff e tags

  verify_delegation_iff :
      (e : Event)
      → (verify_delegation crates e ≡ ok tt) ↔ ((e.index.delegator ≡ none) ⊎ Delegated e e.tags)
  unfolding verify_delegation
  verify_delegation_iff e = elim (Option-cases e.index.delegator) [
    | inl p ↦ (λ h. inl p, λ m. ground arith)
    | inr (d, p) ↦ (
      λ h. inr ((first_delegation_iff e e.tags).0 (ground arith)),
      elim [
        | inl q ↦ absurd (ground arith)
        | inr m ↦ ground (arith, (first_delegation_iff e e.tags).1 m)
      ],
    )
  ]

  -- For time bounds that do not wrap, an event passes `validate` exactly if it has not expired, its
  -- time lies within the bounds that are set, its id is its hash, its author has signed the id,
  -- and, if its index names a delegator, the first delegation tag of four items names a key that
  -- signed for the author under conditions all of which the event meets.
  pub validate_iff :
      (e : Event) (now older newer : ℕ)
      → older ≤ now
      → now + newer < u64_mod
      → (validate crates e now older newer ≡ ok tt) ↔ Valid e now older newer
  unfolding validate
  validate_iff e now older newer h k =
      let time = verify_time_iff e now older newer h k in
      let lasts = is_expired_iff e now in
      (
        λ v.
            let alive : is_expired e.index now ≡ false = ground arith in
            let passed : (verify_time e now older newer >>= λ _.
            verify_id crates e >>= λ _. verify_sign crates e >>= λ _. verify_delegation crates e)
                ≡ ok tt =
              ground arith in
            let (a, b) = (ok_bind _ _ tt).0 passed in
            let (c, d) = (ok_bind _ _ tt).0 b in
            let (f, g) = (ok_bind _ _ tt).0 d in
            record {
              lasts = lasts.0 alive;
              recent = (time.0 a).0;
              past = (time.0 a).1;
              id = (verify_id_iff e).0 c;
              signed = (verify_sign_iff e).0 f;
              delegated = (verify_delegation_iff e).0 g;
            },
        λ v. rw (lasts.1 v.lasts) (
            (ok_bind _ _ tt).1 (
              time.1 (v.recent, v.past),
              (ok_bind _ _ tt).1 (
                (verify_id_iff e).1 v.id,
                (ok_bind _ _ tt).1
                    ((verify_sign_iff e).1 v.signed, (verify_delegation_iff e).1 v.delegated),
              ),
            )),
      )
