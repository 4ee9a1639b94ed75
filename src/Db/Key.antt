-- ===== src/Db/Key.antt =====
-- db/src/key.rs: the keys of the index trees.
pub mod Laws
pub mod Replace
use rnostr.Prelude.Order.{Bytes, cmp_bytes}
use rnostr.Prelude.{
  ℕ, ◌+◌, ◌-◌, ◌<◌, compare, Ordering, ◌≡◌, refl, Bool, ◌||◌, ◌&&◌, List, [], ◌∷◌, ◌++◌, Option,
  none, some, length, take, drop, get_elem?, ltb, leb, ◌==◌, if◌then◌else◌,
}
use rnostr.Std.Words.{to_be, from_be}
use rnostr.Std.Text.{codes, text_eq}
use rnostr.Db.Error.{Outcome, ok, err, panicked, ◌>>=◌, convert_u64, invalid_length}

abbrev pub view_key_sep : Bytes
view_key_sep = 0 ∷ []

unfoldable pub concat_sep : Bytes → Bytes → Bytes
concat_sep one two = one ++ (view_key_sep ++ two)

unfoldable pub concat : Bytes → Bytes → Bytes
concat one two = one ++ two

pub record IndexKey : Type 0 where
  pub time : ℕ
  pub uid : ℕ

unfoldable pub u64_to_ver : ℕ → Bytes
u64_to_ver num = to_be 8 num

unfoldable pub u16_to_ver : ℕ → Bytes
u16_to_ver num = to_be 2 num

unfoldable pub encode_time : ℕ → Bytes
encode_time time = to_be 8 time

unfoldable pub encode_id : Bytes → ℕ → Bytes
encode_id id time = id ++ to_be 8 time

unfoldable pub encode_kind : ℕ → ℕ → Bytes
encode_kind kind time = to_be 2 kind ++ to_be 8 time

unfoldable pub encode_pubkey : Bytes → ℕ → Bytes
encode_pubkey pubkey time = pubkey ++ to_be 8 time

unfoldable pub encode_pubkey_kind : Bytes → ℕ → ℕ → Bytes
encode_pubkey_kind pubkey kind time = pubkey ++ (to_be 2 kind ++ to_be 8 time)

unfoldable pub encode_tag1 : Bytes → ℕ → Bytes
encode_tag1 tag time = tag ++ (view_key_sep ++ to_be 8 time)

unfoldable pub encode_tag : Bytes → Bytes → ℕ → Bytes
unfolding encode_tag1 concat_sep
encode_tag tag_key tag_val time = encode_tag1 (concat_sep tag_key tag_val) time

unfoldable pub encode_word : Bytes → ℕ → Bytes
encode_word word time = word ++ (view_key_sep ++ to_be 8 time)

-- `uN::from_be_bytes(bytes.try_into()?)`, for an integer of `w` bytes.
unfoldable pub from_be_bytes : ℕ → Bytes → Outcome ℕ
from_be_bytes w bytes = if length bytes == w then ok (from_be 0 bytes) else err convert_u64

-- `v[n..]` and `v[..n]`.
unfoldable pub slice_from : ℕ → Bytes → Outcome Bytes
slice_from n v = if leb n (length v) then ok (drop n v) else panicked

unfoldable pub slice_to : ℕ → Bytes → Outcome Bytes
slice_to n v = if leb n (length v) then ok (take n v) else panicked

-- The position 8 bytes before the end; `len() - 8` overflows on a shorter key.
unfoldable pub time_pos : Bytes → Outcome ℕ
time_pos key = if ltb (length key) 8 then panicked else ok (length key - 8)

unfoldable pub from : Bytes → Bytes → Outcome IndexKey
unfolding time_pos slice_from slice_to from_be_bytes
from key uid = do
  pos ← time_pos key
  tail ← slice_from pos key
  time ← from_be_bytes 8 tail
  head ← slice_to 8 uid
  num ← from_be_bytes 8 head
  ok (record { time = time; uid = num })

-- The order of index keys: by time, then by uid.
unfoldable pub cmp : IndexKey → IndexKey → Ordering
cmp a b = elim (compare a.time b.time) [
  | Ordering.lt ↦ Ordering.lt
  | Ordering.eq ↦ compare a.uid b.uid
  | Ordering.gt ↦ Ordering.gt
]

unfoldable pub change_time : Bytes → ℕ → Outcome Bytes
unfolding time_pos slice_to
change_time key time = do pos ← time_pos key; head ← slice_to pos key; ok (head ++ to_be 8 time)

-- The value of the "d" tag that a parameterized replaceable event is kept by.
unfoldable pub replace_tag : List (List Bytes) → Bytes
replace_tag [] = []
replace_tag ([] ∷ tags) = []
replace_tag ((name ∷ []) ∷ tags) = []
replace_tag ((name ∷ value ∷ more) ∷ tags) = if text_eq name (codes "d") then value else []

-- Kinds of which one event is kept for an author, and for an author and a tag.
unfoldable pub is_replaceable : ℕ → Bool
is_replaceable kind =
    kind == 0 || (kind == 3 || (kind == 41 || (leb 10_000 kind && ltb kind 20_000)))

unfoldable pub is_parameterized : ℕ → Bool
is_parameterized kind = leb 30_000 kind && ltb kind 40_000

unfoldable pub encode_replace_key : ℕ → Bytes → List (List Bytes) → Option Bytes
unfolding is_replaceable is_parameterized replace_tag u16_to_ver
encode_replace_key kind pubkey tags =
    if is_replaceable kind
    then some (pubkey ++ u16_to_ver kind)
    else if is_parameterized kind
    then some (pubkey ++ (u16_to_ver kind ++ replace_tag tags))
    else none

pub record ReplaceKey : Type 0 where
  pub pubkey : Bytes
  pub kind : ℕ
  pub tag : Bytes
  pub time : ℕ

unfoldable pub decode_replace_key : Bytes → Bytes → Outcome ReplaceKey
unfolding from_be_bytes
decode_replace_key val time =
    if ltb (length val) (32 + 2)
    then err invalid_length
    else (from_be_bytes 2 (take 2 (drop 32 val)) >>= λ kind. from_be_bytes 8 time >>= λ t.
        ok (record { pubkey = take 32 val; kind = kind; tag = drop 34 val; time = t }))
