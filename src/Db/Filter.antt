-- ===== src/Db/Filter.antt =====
-- db/src/filter.rs: filters, and which events they match.
pub mod Lists
pub mod Matching
pub mod Parsing
pub mod Tagged
use rnostr.Prelude.Order.{Ord, Bytes, Bytes-discrete, bytes_ord, nat_ord}
use rnostr.Prelude.Maps.{Map, insert}
use rnostr.Prelude.{
  ℕ, ◌<◌, ◌≤◌, ◌≡◌, Bool, true, false, not, ◌&&◌, ◌||◌, Option, none, some, List, [], ◌∷◌, ◌++◌,
  map, length, any, all, is_empty, ltb, leb, ◌==◌, if◌then◌else◌,
}
use rnostr.Std.Sort.{sort, dedup}
use rnostr.Std.Search.{Searched, binary_search_by}
use rnostr.Std.Text.{codes, text_eq}
use rnostr.Std.Parse.{strip_prefix}
use rnostr.Db.Error.{Outcome, ok, err, ◌>>=◌, hex, json, invalid}
use rnostr.Db.Event.{EventIndex, decode}

-- A sorted list with no item twice.
abbrev pub SortList {ℓ} : Type ℓ → Type ℓ
SortList A = List A

abbrev pub is_ok : Searched → Bool
is_ok (Searched.ok i) = true
is_ok (Searched.err i) = false

module _ {ℓ} {A : Type ℓ} ⦃o : Ord A⦄ where
  -- `SortList::from`.
  unfoldable pub from : List A → SortList A
  unfolding sort dedup
  from value = dedup (sort value)

  -- `contains` and, for byte strings, `contains2`.
  unfoldable pub contains : SortList A → A → Bool
  unfolding binary_search_by
  contains l item = is_ok (binary_search_by (λ p. o.cmp p item) l)

pub record Filter : Type 0 where
  pub ids : SortList Bytes
  pub authors : SortList Bytes
  pub kinds : SortList ℕ
  pub since : Option ℕ
  pub until : Option ℕ
  pub limit : Option ℕ
  pub search : Option Bytes
  pub tags : Map Bytes (SortList Bytes)
  pub desc : Bool
  pub words : List Bytes

unfoldable pub match_id : SortList Bytes → Bytes → Bool
unfolding contains
match_id ids id = is_empty ids || contains ids id

unfoldable pub match_author : SortList Bytes → Bytes → Option Bytes → Bool
unfolding match_id
match_author authors pubkey delegator =
    is_empty authors
    || (match_id authors pubkey || (elim delegator [ none ↦ false | some d ↦ match_id authors d ]))

unfoldable pub match_kind : SortList ℕ → ℕ → Bool
unfolding contains
match_kind kinds kind = is_empty kinds || contains kinds kind

-- `tag_contains`: the loop finds a tag of the name with a value of the list.
unfoldable pub tag_contains : List (Bytes × Bytes) → Bytes → SortList Bytes → Bool
unfolding contains
tag_contains tags name list = any (λ tag. text_eq tag.0 name && contains list tag.1) tags

unfoldable pub match_tag : Map Bytes (SortList Bytes) → List (Bytes × Bytes) → Bool
unfolding tag_contains
match_tag tags event_tags =
    if is_empty tags
    then true
    else if is_empty event_tags
    then false
    else all (λ tag. tag_contains event_tags tag.0 tag.1) tags

unfoldable pub match_since : Option ℕ → ℕ → Bool
match_since since created_at = elim since [ none ↦ true | some t ↦ leb t created_at ]

unfoldable pub match_until : Option ℕ → ℕ → Bool
match_until until created_at = elim until [ none ↦ true | some t ↦ leb created_at t ]

-- The same code serves an event and its archived form.
unfoldable pub match_except_tag : Filter → EventIndex → Bool
unfolding match_id match_since match_until match_kind match_author
match_except_tag f event =
    match_id f.ids event.id
    && (match_since f.since event.created_at
        && (match_until f.until event.created_at
            && (match_kind f.kinds event.kind
                && match_author f.authors event.pubkey event.delegator)))

unfoldable pub match : Filter → EventIndex → Bool
unfolding match_except_tag match_tag
match f event = match_except_tag f event && match_tag f.tags event.tags

unfoldable pub default_limit : Filter → ℕ → Filter
default_limit f limit = elim f.limit [ none ↦ record f { limit = some limit } | some _ ↦ f ]

-- One entry of `set_tags`: only a key of one byte, and only values shorter than 255 bytes.
unfoldable pub short_values : List Bytes → List Bytes
short_values [] = []
short_values (s ∷ l) = if ltb (length s) 255 then s ∷ short_values l else short_values l

unfoldable pub put_tag :
    Map Bytes (SortList Bytes) → Bytes → List Bytes → Map Bytes (SortList Bytes)
unfolding from short_values insert
put_tag t key values =
    if length key == 1 && not (is_empty (short_values values))
    then insert Bytes-discrete key (from (short_values values)) t
    else t

unfoldable pub put_tags :
    Map Bytes (SortList Bytes) → List (Bytes × List Bytes) → Map Bytes (SortList Bytes)
unfolding put_tag
put_tags t [] = t
put_tags t ((key, values) ∷ tags) = put_tags (put_tag t key values) tags

unfoldable pub set_tags : Filter → List (Bytes × List Bytes) → Filter
unfolding put_tags
set_tags f tags = record f { tags = put_tags [] tags }

abbrev pub is_some {ℓ} : {A : Type ℓ} → Option A → Bool
is_some none = false
is_some (some a) = true

-- The form that a filter is read from; `Value` is the JSON value of `serde_json`.
pub record RawFilter (Value : Type 0) : Type 0 where
  pub ids : List Bytes
  pub authors : List Bytes
  pub kinds : List ℕ
  pub since : Option ℕ
  pub until : Option ℕ
  pub limit : Option ℕ
  pub keywords : List Bytes
  pub search : Option Bytes
  pub tags : List (Bytes × Value)

-- `join(" ")`.
unfoldable pub join : List Bytes → Bytes
join [] = []
join (w ∷ []) = w
join (w ∷ v ∷ ws) = w ++ (codes " " ++ join (v ∷ ws))

module _ {Value : Type 0} (strings : Value → Option (List Bytes))
    (hex_decode : Bytes → Option Bytes) where
  -- The values of an "e" or "p" tag are 32 bytes in hexadecimal.
  unfoldable pub tag_value : Bytes → Bytes → Outcome Bytes
  unfolding decode
  tag_value key s =
      if text_eq key (codes "e") || text_eq key (codes "p")
      then (decode hex_decode s >>= λ h.
          if length h == 32 then ok h else err (invalid "invalid e or p tag value"))
      else ok s

  unfoldable pub tag_values : Bytes → List Bytes → Outcome (List Bytes)
  unfolding tag_value
  tag_values key [] = ok []
  tag_values key (s ∷ val) = tag_value key s >>= λ h. tag_values key val >>= λ l. ok (h ∷ l)

  -- One entry of the object: only "#" and one byte is a tag, and an empty list is dropped.
  unfoldable pub read_tag :
      Map Bytes (SortList Bytes) → Bytes → Value → Outcome (Map Bytes (SortList Bytes))
  unfolding tag_values strip_prefix insert from
  read_tag t name item = elim (strip_prefix (codes "#") name) [
    | none ↦ ok t
    | some key ↦
        if length key == 1
        then elim (strings item) [
          | none ↦ err json
          | some val ↦
              (tag_values key val >>= λ list.
              if is_empty list then ok t else ok (insert Bytes-discrete key (from list) t))
        ]
        else ok t
  ]

  unfoldable pub read_tags :
      Map Bytes (SortList Bytes) → List (Bytes × Value) → Outcome (Map Bytes (SortList Bytes))
  unfolding read_tag
  read_tags t [] = ok t
  read_tags t ((name, item) ∷ rest) = read_tag t name item >>= λ t'. read_tags t' rest

  unfoldable pub read_search : RawFilter Value → Option Bytes
  unfolding join
  read_search raw = elim raw.search [
    | some s ↦ some s
    | none ↦ if is_empty raw.keywords then none else some (join raw.keywords)
  ]

  -- `Filter::try_from`.
  unfoldable pub try_from : RawFilter Value → Outcome Filter
  unfolding read_search read_tags from
  try_from raw = do
    tags ← read_tags [] raw.tags
    ok (record {
      ids = from raw.ids;
      authors = from raw.authors;
      kinds = from raw.kinds;
      since = raw.since;
      until = raw.until;
      limit = raw.limit;
      search = read_search raw;
      tags = tags;
      desc = is_some raw.limit;
      words = [];
    })
