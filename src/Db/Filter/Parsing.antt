-- ===== src/Db/Filter/Parsing.antt =====
-- Filters that are read or changed by the code are well formed.
use rnostr.Prelude.Order.{Bytes, Bytes-discrete, bytes_ord, nat_ord}
use rnostr.Prelude.Maps.{Map, get, insert, Distinct, get-insert, insert-Distinct}
use rnostr.Prelude.{
  ℕ, ◌≡◌, refl, ◌⊎◌, inl, inr, Bool, true, false, ◌&&◌, not, ◌==◌, if◌then◌else◌, Option, some,
  List, [], ◌∷◌, length, is_empty, has, ℕ_discrete, subst, Bool-cases, Option-cases, arith,
}
use rnostr.Std.Sort.{IsStrict}
use rnostr.Std.Text.{codes}
use rnostr.Std.Parse.{strip_prefix}
use rnostr.Db.Error.{Outcome, ok, err, panicked, ◌>>=◌, ok-injective, >>=-eq-ok}
use rnostr.Db.Filter.Lists.{from-IsStrict, has-from}
use rnostr.Db.Filter.Matching.{IsWellFormed}
use rnostr.Db.Filter.{
  is_some, SortList, Filter, RawFilter, from, short_values, put_tag, put_tags, set_tags, tag_values,
  read_tag, read_tags, try_from,
}

-- The part of a well-formed filter that its tags make.
pub record AreTags (t : Map Bytes (SortList Bytes)) : Type 0 where
  pub tags : Distinct Bytes-discrete t
  pub values : (k : Bytes) (vs : SortList Bytes) → get Bytes-discrete k t ≡ some vs → IsStrict vs

empty-AreTags : AreTags []
unfolding get
empty-AreTags = record { tags = tt; values = λ k vs e. cc }

insert-AreTags :
    (t : Map Bytes (SortList Bytes)) (key : Bytes) (l : List Bytes)
    → AreTags t
    → AreTags (insert Bytes-discrete key (from l) t)
insert-AreTags t key l a = record {
  tags = insert-Distinct Bytes-discrete key (from l) t a.tags;
  values = λ k vs e. elim (Bytes-discrete key k) [
    | yes p ↦
        subst IsStrict (ground (arith, get-insert Bytes-discrete key (from l) k t))
          (from-IsStrict Bytes-discrete l)
    | no n ↦ a.values k vs (ground (arith, get-insert Bytes-discrete key (from l) k t))
  ];
}

put_tags-AreTags :
    (t : Map Bytes (SortList Bytes)) (tags : List (Bytes × List Bytes))
    → AreTags t
    → AreTags (put_tags t tags)
unfolding put_tags
put_tags-AreTags t [] a = a
put_tags-AreTags t ((key, values) ∷ tags) a =
    put_tags-AreTags (put_tag t key values) tags
      (step (length key == 1 && not (is_empty (short_values values))) refl)
  where
    step :
        (b : Bool)
        → (length key == 1 && not (is_empty (short_values values))) ≡ b
        → AreTags (put_tag t key values)
    step true e = unfold put_tag in rw e (insert-AreTags t key (short_values values) a)
    step false e = unfold put_tag in rw e a

-- `set_tags` keeps a filter well formed, whatever tags it is given.
pub set_tags-IsWellFormed :
    (f : Filter) (tags : List (Bytes × List Bytes))
    → IsWellFormed f
    → IsWellFormed (set_tags f tags)
unfolding set_tags
set_tags-IsWellFormed f tags w =
    let a = put_tags-AreTags [] tags empty-AreTags in
    record { ids = w.ids; authors = w.authors; kinds = w.kinds; tags = a.tags; values = a.values }

-- What the reader of filters promises of its result.
pub record Mirrors {Value : Type 0} (raw : RawFilter Value) (f : Filter) : Type 0 where
  pub well_formed : IsWellFormed f
  pub ids : (a : Bytes) → has Bytes-discrete a f.ids ≡ has Bytes-discrete a raw.ids
  pub authors : (a : Bytes) → has Bytes-discrete a f.authors ≡ has Bytes-discrete a raw.authors
  pub kinds : (k : ℕ) → has ℕ_discrete k f.kinds ≡ has ℕ_discrete k raw.kinds
  pub limited : f.desc ≡ is_some f.limit

module _ {Value : Type 0} (strings : Value → Option (List Bytes))
    (hex_decode : Bytes → Option Bytes) where
  -- What one entry of the object does to the tags.
  abbrev Reads : Map Bytes (SortList Bytes) → Outcome (Map Bytes (SortList Bytes)) → Type 0
  Reads t (ok t') =
      (t' ≡ t) ⊎ ((key : Bytes) × (l : List Bytes) × (t' ≡ insert Bytes-discrete key (from l) t))
  Reads t (err e) = Unit
  Reads t panicked = Unit

  store-Reads :
      (t : Map Bytes (SortList Bytes)) (key : Bytes) (r : Outcome (List Bytes))
      → Reads t (
          r >>= λ list.
          if is_empty list then ok t else ok (insert Bytes-discrete key (from list) t))
  store-Reads t key (ok []) = inl refl
  store-Reads t key (ok (x ∷ l)) = inr (key, x ∷ l, refl)
  store-Reads t key (err e) = tt
  store-Reads t key panicked = tt

  read_tag-Reads :
      (t : Map Bytes (SortList Bytes)) (name : Bytes) (item : Value)
      → Reads t (read_tag strings hex_decode t name item)
  unfolding read_tag
  read_tag-Reads t name item = elim (Option-cases (strip_prefix (codes "#") name)) [
    | inl e ↦ rw (e, read_tag) (inl refl)
    | inr (key, e) ↦ elim (Bool-cases (length key == 1)) [
      | inr l ↦ rw (e, l, read_tag) (inl refl)
      | inl l ↦ elim (Option-cases (strings item)) [
        | inl s ↦ rw (e, l, s, read_tag) tt
        | inr (val, s) ↦
            rw (e, l, s, read_tag) (store-Reads t key (tag_values strings hex_decode key val))
      ]
    ]
  ]

  AreTags-of_Reads : (t t' : Map Bytes (SortList Bytes)) → Reads t (ok t') → AreTags t → AreTags t'
  AreTags-of_Reads t t' (inl e) a = rw e a
  AreTags-of_Reads t t' (inr (key, l, e)) a = rw e (insert-AreTags t key l a)

  read_tags-AreTags :
      (t : Map Bytes (SortList Bytes)) (rest : List (Bytes × Value))
      (t' : Map Bytes (SortList Bytes))
      → AreTags t
      → read_tags strings hex_decode t rest ≡ ok t'
      → AreTags t'
  unfolding read_tags
  read_tags-AreTags t [] t' a e = rw (ok-injective e) at a
  read_tags-AreTags t ((name, item) ∷ rest) t' a e =
      go (read_tag strings hex_decode t name item) (read_tag-Reads t name item) refl
        (λ u. read_tags-AreTags u rest t')
    where
      go :
          (r : Outcome (Map Bytes (SortList Bytes)))
          → Reads t r
          → read_tag strings hex_decode t name item ≡ r
          → ((u : Map Bytes (SortList Bytes))
              → AreTags u
              → read_tags strings hex_decode u rest ≡ ok t'
              → AreTags t')
          → AreTags t'
      go (ok u) s q rec = rec u (AreTags-of_Reads t u s a) (ground arith)
      go (err x) s q rec = absurd (ground arith)
      go panicked s q rec = absurd (ground arith)

  built-Mirrors :
      (raw : RawFilter Value) (f : Filter) (t : Map Bytes (SortList Bytes))
      → AreTags t
      → f.ids ≡ from raw.ids
      → f.authors ≡ from raw.authors
      → f.kinds ≡ from raw.kinds
      → f.limit ≡ raw.limit
      → f.desc ≡ is_some raw.limit
      → f.tags ≡ t
      → Mirrors raw f
  built-Mirrors raw f t a i au k l d e = record {
    well_formed = record {
      ids = rw i (from-IsStrict Bytes-discrete raw.ids);
      authors = rw au (from-IsStrict Bytes-discrete raw.authors);
      kinds = rw k (from-IsStrict ℕ_discrete raw.kinds);
      tags = rw e a.tags;
      values = λ k vs g. a.values k vs (ground arith);
    };
    ids = λ x. rw i (has-from Bytes-discrete raw.ids x);
    authors = λ x. rw au (has-from Bytes-discrete raw.authors x);
    kinds = λ x. rw k (has-from ℕ_discrete raw.kinds x);
    limited = ground arith;
  }

  -- A filter that is read from JSON is well formed; its lists hold the ids, authors and kinds that
  -- were given and no others; it is read in descending order exactly if it has a limit.
  pub try_from-Mirrors :
      (raw : RawFilter Value) (f : Filter) → try_from strings hex_decode raw ≡ ok f → Mirrors raw f
  unfolding try_from
  try_from-Mirrors raw f e =
      let (t, q, r) = >>=-eq-ok (read_tags strings hex_decode [] raw.tags) _ e in
      built-Mirrors raw f t (read_tags-AreTags [] raw.tags t empty-AreTags q) (cc r) (cc r) (cc r)
        (cc r) (cc r) (cc r)
