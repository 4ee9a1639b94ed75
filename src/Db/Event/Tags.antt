-- ===== src/Db/Event/Tags.antt =====
-- `EventIndex::build_index_tags` (db/src/event.rs): what the index of an event holds of its tags.
use rnostr.Prelude.Order.{Bytes}
use mathlib.Core.List.{append-nil, append_assoc}
use rnostr.Prelude.{◌≡◌, Option, none, some, List, [], ◌∷◌, ◌++◌, if◌then◌else◌, arith}
use rnostr.Std.Text.{codes, text_eq}
use rnostr.Std.Words.{u64_mod}
use rnostr.Std.Parse.{parse_uint}
use rnostr.Db.Error.{ok, >>=-eq-ok}
use rnostr.Db.Event.{
  BuildTags, is_index_key, is_fixed_key, is_skipped, decode, decode_to_slice, note_field, index_tag,
  push_tag, index_value, index_tags, build_index_tags,
}

-- The value of a tag that has one and is called `name`.
abbrev pub value_of : Bytes → List Bytes → Option Bytes
value_of name [] = none
value_of name (n ∷ []) = none
value_of name (n ∷ v ∷ more) = if text_eq n name then some v else none

-- The value of the last tag that is called `name`.
abbrev pub last_value : Bytes → List (List Bytes) → Option Bytes
last_value name [] = none
last_value name (tag ∷ tags) = elim (last_value name tags) [
  | none ↦ value_of name tag
  | some v ↦ some v
]

abbrev pub read_or : {A : Type 0} → (Bytes → Option A) → Option A → Option Bytes → Option A
read_or read before none = before
read_or read before (some v) = read v

module _ (hex_decode : Bytes → Option Bytes) where
  -- The entry of the index that a tag makes, if any.
  abbrev pub entry : List Bytes → List (Bytes × Bytes)
  entry [] = []
  entry (name ∷ []) = []
  entry (name ∷ value ∷ more) =
      if is_index_key name
      then if is_fixed_key name
        then elim (hex_decode value) [ none ↦ [] | some h ↦ (name, h) ∷ [] ]
        else if is_skipped value
        then []
        else (name, value) ∷ []
      else []

  abbrev pub entries : List (List Bytes) → List (Bytes × Bytes)
  entries [] = []
  entries (tag ∷ tags) = entry tag ++ entries tags

  -- What one tag does to what is gathered.
  record Adds (acc : BuildTags) (tag : List Bytes) (b : BuildTags) : Type 0 where
    pub t : b.t ≡ acc.t ++ entry tag
    pub expiration :
        b.expiration
        ≡ read_or (parse_uint u64_mod) acc.expiration (value_of (codes "expiration") tag)
    pub delegator :
        b.delegator ≡ read_or hex_decode acc.delegator (value_of (codes "delegation") tag)

  note_field-eq :
      (acc : BuildTags) (name value : Bytes) (more : List Bytes) (b : BuildTags)
      → note_field hex_decode acc name value ≡ ok b
      → (b.t ≡ acc.t)
        × (b.expiration
            ≡ read_or
                (parse_uint u64_mod)
                acc.expiration
                (value_of (codes "expiration") (name ∷ value ∷ more)))
        × (b.delegator
            ≡ read_or hex_decode acc.delegator
                (value_of (codes "delegation") (name ∷ value ∷ more)))
  unfolding note_field decode_to_slice decode
  note_field-eq acc name value more b e = ground arith

  push_tag-eq :
      (acc : BuildTags) (name value : Bytes) (more : List Bytes) (b : BuildTags)
      → push_tag hex_decode acc name value ≡ ok b
      → (b.t ≡ acc.t ++ entry (name ∷ value ∷ more))
        × (b.expiration ≡ acc.expiration)
        × (b.delegator ≡ acc.delegator)
  unfolding push_tag index_value decode
  push_tag-eq acc name value more b e = ground (arith, append-nil acc.t)

  index_tag-Adds :
      (acc : BuildTags) (tag : List Bytes) (b : BuildTags)
      → index_tag hex_decode acc tag ≡ ok b
      → Adds acc tag b
  unfolding index_tag
  index_tag-Adds acc [] b e = record {
    t = ground (arith, append-nil acc.t);
    expiration = cc;
    delegator = cc;
  }
  index_tag-Adds acc (n ∷ []) b e = record {
    t = ground (arith, append-nil acc.t);
    expiration = cc;
    delegator = cc;
  }
  index_tag-Adds acc (n ∷ v ∷ more) b e =
      let (noted, p, q) = >>=-eq-ok (note_field hex_decode acc n v) _ e in
      let (t, x, d) = note_field-eq acc n v more noted p in
      let (t', x', d') = push_tag-eq noted n v more b q in
      record { t = cc; expiration = cc; delegator = cc }

  -- The fields of an index, and the tags they come from.
  pub record Describes (tags : List (List Bytes)) (acc b : BuildTags) : Type 0 where
    pub t : b.t ≡ acc.t ++ entries tags
    pub expiration :
        b.expiration
        ≡ read_or (parse_uint u64_mod) acc.expiration (last_value (codes "expiration") tags)
    pub delegator :
        b.delegator ≡ read_or hex_decode acc.delegator (last_value (codes "delegation") tags)

  read_or-last :
      {A : Type 0} (read : Bytes → Option A) (before : Option A) (name : Bytes) (tag : List Bytes)
      (tags : List (List Bytes))
      → read_or read (read_or read before (value_of name tag)) (last_value name tags)
        ≡ read_or read before (last_value name (tag ∷ tags))
  read_or-last read before name tag tags = ground arith

  index_tags-Describes :
      (acc : BuildTags) (tags : List (List Bytes)) (b : BuildTags)
      → index_tags hex_decode acc tags ≡ ok b
      → Describes tags acc b
  unfolding index_tags
  index_tags-Describes acc [] b e = record {
    t = ground (arith, append-nil acc.t);
    expiration = cc;
    delegator = cc;
  }
  index_tags-Describes acc (tag ∷ tags) b e =
      let (next, p, q) = >>=-eq-ok (index_tag hex_decode acc tag) _ e in
      let a = index_tag-Adds acc tag next p in
      let d = index_tags-Describes next tags b q in
      record {
        t = rw (d.t, a.t) (append_assoc acc.t (entry tag) (entries tags));
        expiration =
            rw (d.expiration, a.expiration)
              (read_or-last (parse_uint u64_mod) acc.expiration (codes "expiration") tag tags);
        delegator =
            rw (d.delegator, a.delegator)
              (read_or-last hex_decode acc.delegator (codes "delegation") tag tags);
      }

  -- When the tags of an event can be indexed, the index holds the entries of the tags in their
  -- order, one at most for each; its expiration and its delegator are read from the last tags
  -- called `expiration` and `delegation` that have a value.
  pub build_index_tags-eq :
      (tags : List (List Bytes)) (b : BuildTags)
      → build_index_tags hex_decode tags ≡ ok b
      → (b.t ≡ entries tags)
        × (b.expiration ≡ read_or (parse_uint u64_mod) none (last_value (codes "expiration") tags))
        × (b.delegator ≡ read_or hex_decode none (last_value (codes "delegation") tags))
  unfolding build_index_tags
  build_index_tags-eq tags b e =
      let d = index_tags-Describes _ tags b e in (d.t, d.expiration, d.delegator)
