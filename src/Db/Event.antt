-- ===== src/Db/Event.antt =====
-- db/src/event.rs: the index of an event.
pub mod Tags
pub mod Indexed
use rnostr.Prelude.Order.{Bytes}
use rnostr.Prelude.{
  ℕ, ◌<◌, ◌≡◌, Bool, true, false, not, ◌&&◌, ◌||◌, Option, none, some, List, [], ◌∷◌, ◌++◌, length,
  any, ltb, leb, ◌==◌, if◌then◌else◌,
}
use rnostr.Std.Text.{codes, text_eq}
use rnostr.Std.Words.{u64_mod}
use rnostr.Std.Parse.{parse_uint}
use rnostr.Db.Error.{Outcome, ok, err, ◌>>=◌, hex, invalid}

pub record EventIndex : Type 0 where
  pub id : Bytes
  pub pubkey : Bytes
  pub created_at : ℕ
  pub kind : ℕ
  pub tags : List (Bytes × Bytes)
  pub expiration : Option ℕ
  pub delegator : Option Bytes

-- What the loop over the tags gathers.
pub record BuildTags : Type 0 where
  pub t : List (Bytes × Bytes)
  pub expiration : Option ℕ
  pub delegator : Option Bytes

-- A key of one byte, which is not the separator.
unfoldable pub is_index_key : Bytes → Bool
is_index_key [] = false
is_index_key (b ∷ []) = not (b == 0)
is_index_key (b ∷ c ∷ bs) = false

-- `tag[0] == "e" || tag[0] == "p"`.
unfoldable pub is_fixed_key : Bytes → Bool
is_fixed_key name = text_eq name (codes "e") || text_eq name (codes "p")

-- A value that the index cannot hold.
unfoldable pub is_skipped : Bytes → Bool
is_skipped v = any (λ b. b == 0) v || ltb 255 (length v)

-- `hex::decode` is the crate's.
module _ (hex_decode : Bytes → Option Bytes) where
  unfoldable pub decode : Bytes → Outcome Bytes
  decode s = elim (hex_decode s) [ none ↦ err hex | some h ↦ ok h ]

  -- `hex::decode_to_slice` into 32 bytes: any other length is an error.
  unfoldable pub decode_to_slice : Bytes → Outcome Bytes
  unfolding decode
  decode_to_slice s = do h ← decode s; if length h == 32 then ok h else err hex

  -- The tags that are kept as fields of the index.
  unfoldable pub note_field : BuildTags → Bytes → Bytes → Outcome BuildTags
  unfolding decode_to_slice
  note_field acc name value =
      if text_eq name (codes "expiration")
      then elim (parse_uint u64_mod value) [
        | none ↦ err (invalid "invalid expiration")
        | some n ↦ ok (record acc { expiration = some n })
      ]
      else if text_eq name (codes "delegation")
      then (decode_to_slice value >>= λ h. ok (record acc { delegator = some h }))
      else ok acc

  -- The value that is indexed, or none.
  unfoldable pub index_value : Bytes → Bytes → Outcome (Option Bytes)
  unfolding is_fixed_key is_skipped decode
  index_value name value =
      if is_fixed_key name
      then (decode value >>= λ h.
          if length h == 32 then ok (some h) else err (invalid "invalid e or p tag value"))
      else if is_skipped value
      then ok none
      else ok (some value)

  unfoldable pub push_tag : BuildTags → Bytes → Bytes → Outcome BuildTags
  unfolding is_index_key index_value
  push_tag acc name value =
      if is_index_key name
      then (index_value name value >>= λ v. elim v [
        | none ↦ ok acc
        | some w ↦ ok (record acc { t = acc.t ++ (name, w) ∷ [] })
      ])
      else ok acc

  -- One round of the loop: a tag of one item or none is passed over.
  unfoldable pub index_tag : BuildTags → List Bytes → Outcome BuildTags
  unfolding note_field push_tag
  index_tag acc [] = ok acc
  index_tag acc (name ∷ []) = ok acc
  index_tag acc (name ∷ value ∷ more) = do
    noted ← note_field acc name value
    push_tag noted name value

  unfoldable pub index_tags : BuildTags → List (List Bytes) → Outcome BuildTags
  unfolding index_tag
  index_tags acc [] = ok acc
  index_tags acc (tag ∷ tags) = index_tag acc tag >>= λ acc'. index_tags acc' tags

  unfoldable pub build_index_tags : List (List Bytes) → Outcome BuildTags
  unfolding index_tags
  build_index_tags tags = index_tags (record { t = []; expiration = none; delegator = none }) tags

  -- `EventIndex::new`.
  unfoldable pub new_index : Bytes → Bytes → ℕ → ℕ → List (List Bytes) → Outcome EventIndex
  unfolding build_index_tags
  new_index id pubkey created_at kind tags = do
    b ← build_index_tags tags
    ok (record {
      id = id;
      pubkey = pubkey;
      created_at = created_at;
      kind = kind;
      tags = b.t;
      expiration = b.expiration;
      delegator = b.delegator;
    })

unfoldable pub is_ephemeral : EventIndex → Bool
is_ephemeral e = leb 20_000 e.kind && ltb e.kind 30_000

unfoldable pub is_expired : EventIndex → ℕ → Bool
is_expired e now = elim e.expiration [ none ↦ false | some exp ↦ ltb exp now ]
