-- ===== src/Db/Filter/Tagged.antt =====
-- db/src/filter.rs, `set_tags`: which tags of a filter are set, and to which values.
use rnostr.Prelude.Order.{Bytes, Bytes-discrete, bytes_ord}
use rnostr.Prelude.Maps.{Map, get, insert, get-insert}
use rnostr.Prelude.{
  ◌≡◌, refl, sym, ap, ◌∙◌, Bool, true, false, ◌&&◌, ◌||◌, not, ◌==◌, if◌then◌else◌, Option, none,
  some, List, [], ◌∷◌, length, is_empty, has, any, holds, ltb, subst, arith,
}
use rnostr.Db.Filter.{is_some, SortList, Filter, from, short_values, put_tag, put_tags, set_tags}
use rnostr.Db.Filter.Lists.{has-from}
use rnostr.Db.Filter.Matching.{IsWellFormed}
use rnostr.Db.Filter.Parsing.{set_tags-IsWellFormed}

abbrev is_short : Bytes → Bool
is_short v = ltb (length v) 255

-- Whether an entry sets the tag `k`: its key is `k`, of one byte, and one of its values is short.
abbrev sets : Bytes → Bytes × List Bytes → Bool
sets k (key, values) = holds (Bytes-discrete key k) && ((length key == 1) && any is_short values)

-- Whether the last entry that sets the tag `k` has the short value `v`.
abbrev asks : Bytes → Bytes → List (Bytes × List Bytes) → Bool
asks k v [] = false
asks k v (t ∷ ts) =
    if any (sets k) ts then asks k v ts else sets k t && (is_short v && has Bytes-discrete v t.1)

abbrev has_value : Bytes → Option (SortList Bytes) → Bool
has_value v none = false
has_value v (some l) = has Bytes-discrete v l

short_values-any : (l : List Bytes) → not (is_empty (short_values l)) ≡ any is_short l
unfolding short_values
short_values-any [] = refl
short_values-any (s ∷ l) = ground (arith, short_values-any l)

has-short_values :
    (v : Bytes) (l : List Bytes)
    → has Bytes-discrete v (short_values l) ≡ (is_short v && has Bytes-discrete v l)
unfolding short_values
has-short_values v [] = ground arith
has-short_values v (s ∷ l) =
    split (Bytes-discrete s v) (is_short s) refl refl (has-short_values v l)
  where
    split :
        (d : Dec (s ≡ v)) (b : Bool)
        → Bytes-discrete s v ≡ d
        → is_short s ≡ b
        → has Bytes-discrete v (short_values l) ≡ (is_short v && has Bytes-discrete v l)
        → has Bytes-discrete v (if b then s ∷ short_values l else short_values l)
          ≡ (is_short v && (holds d || has Bytes-discrete v l))
    split (yes e) true q r ih =
        let v_short : is_short v ≡ true = subst (λ x. is_short x ≡ true) e r in
        ap (λ d. holds d || has Bytes-discrete v (short_values l)) q
        ∙ ap (λ b. b && true) (sym v_short)
    split (yes e) false q r ih =
        let v_long : is_short v ≡ false = subst (λ x. is_short x ≡ false) e r in
        rw (ih, v_long) refl
    split (no n) true q r ih = ap (λ d. holds d || has Bytes-discrete v (short_values l)) q ∙ ih
    split (no n) false q r ih = ih

module _ (t : Map Bytes (SortList Bytes)) (key : Bytes) (values : List Bytes) (k : Bytes) where
  -- What `put_tag` does to the values of a tag.
  put_tag-get :
      get Bytes-discrete k (put_tag t key values)
      ≡ (if sets k (key, values) then some (from (short_values values)) else get Bytes-discrete k t)
  unfolding put_tag
  put_tag-get =
      split (Bytes-discrete key k) ((length key == 1) && not (is_empty (short_values values))) refl
        refl
    where
      split :
          (d : Dec (key ≡ k)) (b : Bool)
          → Bytes-discrete key k ≡ d
          → ((length key == 1) && not (is_empty (short_values values))) ≡ b
          → get Bytes-discrete k
              (if b then insert Bytes-discrete key (from (short_values values)) t else t)
            ≡ (if holds d && ((length key == 1) && any is_short values)
                then some (from (short_values values))
                else get Bytes-discrete k t)
      split (yes e) true q r = ground (
        arith,
        get-insert Bytes-discrete key (from (short_values values)) k t,
        short_values-any values,
      )
      split (no n) true q r =
          ground (arith, get-insert Bytes-discrete key (from (short_values values)) k t)
      split (yes e) false q r = ground (arith, short_values-any values)
      split (no n) false q r = refl

put_tags-key :
    (t : Map Bytes (SortList Bytes)) (tags : List (Bytes × List Bytes)) (k : Bytes)
    → is_some (get Bytes-discrete k (put_tags t tags))
      ≡ (any (sets k) tags || is_some (get Bytes-discrete k t))
unfolding put_tags
put_tags-key t [] k = refl
put_tags-key t ((key, values) ∷ tags) k =
    put_tags-key (put_tag t key values) tags k ∙ ground (arith, put_tag-get t key values k)

put_tags-value :
    (t : Map Bytes (SortList Bytes)) (tags : List (Bytes × List Bytes)) (k v : Bytes)
    → has_value v (get Bytes-discrete k (put_tags t tags))
      ≡ (if any (sets k) tags then asks k v tags else has_value v (get Bytes-discrete k t))
unfolding put_tags
put_tags-value t [] k v = refl
put_tags-value t ((key, values) ∷ tags) k v =
    put_tags-value (put_tag t key values) tags k v
    ∙ later (any (sets k) tags) (sets k (key, values)) (put_tag-get t key values k)
  where
    later :
        (b c : Bool)
        → get Bytes-discrete k (put_tag t key values)
          ≡ (if c then some (from (short_values values)) else get Bytes-discrete k t)
        → (if b then asks k v tags else has_value v (get Bytes-discrete k (put_tag t key values)))
          ≡ (if c || b
              then (if b then asks k v tags else c && (is_short v && has Bytes-discrete v values))
              else has_value v (get Bytes-discrete k t))
    later true true e = refl
    later true false e = refl
    later false true e =
        ap (has_value v) e
        ∙ has-from Bytes-discrete (short_values values) v
        ∙ has-short_values v values
    later false false e = ap (has_value v) e

or_false : (b : Bool) → (b || false) ≡ b
or_false true = refl
or_false false = refl

asks-set :
    (k v : Bytes) (tags : List (Bytes × List Bytes))
    → (if any (sets k) tags then asks k v tags else false) ≡ asks k v tags
asks-set k v [] = refl
asks-set k v (t ∷ ts) =
    split (sets k t) (any (sets k) ts) (asks k v ts) (is_short v && has Bytes-discrete v t.1)
  where
    split :
        (c b x y : Bool)
        → (if c || b then (if b then x else c && y) else false) ≡ (if b then x else c && y)
    split true b x y = refl
    split false true x y = refl
    split false false x y = refl

-- What the tags of a filter promise that are set from a list of entries.
pub record TagsOf (tags : List (Bytes × List Bytes)) (f : Filter) : Type 0 where
  pub well_formed : IsWellFormed f
  pub keys : (k : Bytes) → is_some (get Bytes-discrete k f.tags) ≡ any (sets k) tags
  pub values : (k v : Bytes) → has_value v (get Bytes-discrete k f.tags) ≡ asks k v tags

-- `set_tags` keeps a filter well formed. A tag is then set exactly if an entry has its key, the key
-- is of one byte, and one of the values of the entry has fewer than 255 bytes; its values are
-- exactly those with fewer than 255 bytes of the last such entry.
pub set_tags-TagsOf :
    (f : Filter) (tags : List (Bytes × List Bytes)) → IsWellFormed f → TagsOf tags (set_tags f tags)
unfolding set_tags get
set_tags-TagsOf f tags w = record {
  well_formed = set_tags-IsWellFormed f tags w;
  keys = λ k. put_tags-key [] tags k ∙ or_false (any (sets k) tags);
  values = λ k v. put_tags-value [] tags k v ∙ asks-set k v tags;
}
