-- ===== src/Db/Event/Indexed.antt =====
-- What an index can hold of the tags of an event (db/src/event.rs).
use rnostr.Prelude.Order.{Bytes}
use rnostr.Prelude.{
  ℕ, ◌≤◌, ◌<◌, ◌≡◌, ◌≢◌, refl, subst, Bool, true, false, Option, none, some, List, [], ◌∷◌, ◌++◌,
  length, any, All, ◌==◌, arith,
}
use rnostr.Std.Words.{u64_mod}
use rnostr.Std.Parse.{parse_uint-lt}
use rnostr.Db.Error.{Outcome, ok, err, panicked, ok-injective, >>=-eq-ok}
use rnostr.Db.Event.{
  BuildTags, is_index_key, is_fixed_key, is_skipped, decode, decode_to_slice, note_field, index_tag,
  push_tag, index_value, index_tags, build_index_tags,
}

-- An entry that the index can hold: its key is one byte that is not the separator; its value is
-- 32 bytes for an `e` or `p` tag, else at most 255 bytes without the separator.
pub record IsEntry (p : Bytes × Bytes) : Type 0 where
  pub key : (b : ℕ) × (p.0 ≡ b ∷ []) × (b ≢ 0)
  pub fixed : is_fixed_key p.0 ≡ true → length p.1 ≡ 32
  pub free : is_fixed_key p.0 ≡ false → (any (λ b. b == 0) p.1 ≡ false) × (length p.1 ≤ 255)

pub record IsIndexed (b : BuildTags) : Type 0 where
  pub t : All IsEntry b.t
  pub expiration : (n : ℕ) → b.expiration ≡ some n → n < u64_mod
  pub delegator : (d : Bytes) → b.delegator ≡ some d → length d ≡ 32

is_index_key-byte : (name : Bytes) → is_index_key name ≡ true → (b : ℕ) × (name ≡ b ∷ []) × (b ≢ 0)
unfolding is_index_key
is_index_key-byte [] h = cc
is_index_key-byte (b ∷ []) h = (b, refl, ground arith)
is_index_key-byte (b ∷ c ∷ bs) h = cc

All-snoc :
    (P : Bytes × Bytes → Type 0) (l : List (Bytes × Bytes)) (x : Bytes × Bytes)
    → All P l
    → P x
    → All P (l ++ x ∷ [])
All-snoc P [] x h p = (p, tt)
All-snoc P (y ∷ l) x h p = (h.0, All-snoc P l x h.1 p)

module _ (hex_decode : Bytes → Option Bytes) where
  note_field-IsIndexed :
      (acc : BuildTags) (name value : Bytes) (b : BuildTags)
      → note_field hex_decode acc name value ≡ ok b
      → IsIndexed acc
      → IsIndexed b
  unfolding note_field decode_to_slice decode
  note_field-IsIndexed acc name value b e i = record {
    t = subst (All IsEntry) (ground arith) i.t;
    expiration = λ n h. ground (arith, i.expiration n, parse_uint-lt u64_mod value n);
    delegator = λ d h. ground (arith, i.delegator d);
  }

  index_value-some :
      (name value v : Bytes)
      → index_value hex_decode name value ≡ ok (some v)
      → (is_fixed_key name ≡ true → length v ≡ 32)
        × (is_fixed_key name ≡ false → is_skipped v ≡ false)
  unfolding index_value decode
  index_value-some name value v e = (λ h. ground arith, λ h. ground arith)

  snoc-IsIndexed :
      (acc : BuildTags) (name value v : Bytes)
      → is_index_key name ≡ true
      → index_value hex_decode name value ≡ ok (some v)
      → IsIndexed acc
      → IsIndexed (record acc { t = acc.t ++ (name, v) ∷ [] })
  unfolding is_skipped
  snoc-IsIndexed acc name value v k e i =
      let (fixed, free) = index_value-some name value v e in
      record {
        t =
            All-snoc IsEntry acc.t (name, v) i.t
              (record {
                key = is_index_key-byte name k;
                fixed = fixed;
                free = λ h. ground (arith, free h);
              });
        expiration = i.expiration;
        delegator = i.delegator;
      }

  push_tag-IsIndexed :
      (acc : BuildTags) (name value : Bytes) (b : BuildTags)
      → push_tag hex_decode acc name value ≡ ok b
      → IsIndexed acc
      → IsIndexed b
  unfolding push_tag
  push_tag-IsIndexed acc name value b e i =
      pushed (is_index_key name) (index_value hex_decode name value) refl refl
    where
      pushed :
          (k : Bool) (r : Outcome (Option Bytes))
          → is_index_key name ≡ k
          → index_value hex_decode name value ≡ r
          → IsIndexed b
      pushed false r p q = subst IsIndexed (ground arith) i
      pushed true (ok none) p q = subst IsIndexed (ground arith) i
      pushed true (ok (some v)) p q =
          subst IsIndexed (ground arith) (snoc-IsIndexed acc name value v p q i)
      pushed true (err x) p q = absurd (ground arith)
      pushed true panicked p q = absurd (ground arith)

  index_tags-IsIndexed :
      (acc : BuildTags) (tags : List (List Bytes)) (b : BuildTags)
      → index_tags hex_decode acc tags ≡ ok b
      → IsIndexed acc
      → IsIndexed b
  unfolding index_tags index_tag
  index_tags-IsIndexed acc [] b e i = subst IsIndexed (ok-injective e) i
  index_tags-IsIndexed acc ([] ∷ tags) b e i = index_tags-IsIndexed acc tags b e i
  index_tags-IsIndexed acc ((n ∷ []) ∷ tags) b e i = index_tags-IsIndexed acc tags b e i
  index_tags-IsIndexed acc ((n ∷ v ∷ more) ∷ tags) b e i =
      let (next, p, q) = >>=-eq-ok (index_tag hex_decode acc (n ∷ v ∷ more)) _ e in
      let (noted, r, s) = >>=-eq-ok (note_field hex_decode acc n v) _ p in
      index_tags-IsIndexed next tags b q
        (push_tag-IsIndexed noted n v next s (note_field-IsIndexed acc n v noted r i))

  -- When the tags of an event can be indexed, every entry of the index has a key of one byte other
  -- than the separator, and a value of 32 bytes for the tags `e` and `p` and of at most 255 bytes
  -- without the separator for all others; the expiration fits `u64` and the delegator has 32 bytes.
  pub build_index_tags-IsIndexed :
      (tags : List (List Bytes)) (b : BuildTags)
      → build_index_tags hex_decode tags ≡ ok b
      → IsIndexed b
  unfolding build_index_tags
  build_index_tags-IsIndexed tags b e =
      index_tags-IsIndexed _ tags b e
        (record { t = tt; expiration = λ n h. cc; delegator = λ d h. cc })
