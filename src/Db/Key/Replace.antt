-- ===== src/Db/Key/Replace.antt =====
-- The keys of replaceable events.
use mathlib.Core.List.{append_assoc, append-nil}
use rnostr.Prelude.Order.{Bytes}
use rnostr.Prelude.{
  ◌≤◌, ℕ, ◌^◌, ◌<◌, ◌≡◌, ◌⊎◌, inl, inr, true, false, ltb, if◌then◌else◌, List, [], ◌++◌, none, some,
  length, length-append, take-append, drop-append, Bool-cases, arith,
}
use rnostr.Std.Words.{u64_mod, u16_mod, to_be, length-to_be, from_be-to_be}
use rnostr.Db.Error.{ok}
use rnostr.Db.Key.{
  from_be_bytes, u16_to_ver, u64_to_ver, is_replaceable, is_parameterized, replace_tag,
  encode_replace_key, decode_replace_key,
}

-- The kinds of which a newer event replaces an older one.
abbrev pub IsKept : ℕ → Type 0
IsKept kind =
    (kind ≡ 0)
    ⊎ (kind ≡ 3)
    ⊎ (kind ≡ 41)
    ⊎ (10_000 ≤ kind) × (kind < 20_000)
    ⊎ (30_000 ≤ kind) × (kind < 40_000)

-- The tag value that stands in the key: none for the plain replaceable kinds.
abbrev pub kept_tag : ℕ → List (List Bytes) → Bytes
kept_tag kind tags = if ltb kind 30_000 then [] else replace_tag tags

from_be_bytes-to_be : (w n : ℕ) → n < 256 ^ w → from_be_bytes w (to_be w n) ≡ ok n
unfolding from_be_bytes
from_be_bytes-to_be w n h = ground (arith, length-to_be w n, from_be-to_be w n h)

decode-append :
    (p : Bytes) (kind : ℕ) (tag : Bytes) (time : ℕ)
    → length p ≡ 32
    → kind < u16_mod
    → time < u64_mod
    → decode_replace_key (p ++ (to_be 2 kind ++ tag)) (to_be 8 time)
      ≡ ok (record { pubkey = p; kind = kind; tag = tag; time = time })
unfolding decode_replace_key
decode-append p kind tag time hp hk ht = ground (
  arith,
  length-append p (to_be 2 kind ++ tag),
  length-append (to_be 2 kind) tag,
  length-to_be 2 kind,
  take-append 32 p (to_be 2 kind ++ tag) hp,
  drop-append 32 p (to_be 2 kind ++ tag) hp,
  take-append 2 (to_be 2 kind) tag (length-to_be 2 kind),
  from_be_bytes-to_be 2 kind hk,
  from_be_bytes-to_be 8 time ht,
  append_assoc p (to_be 2 kind) tag,
  length-append p (to_be 2 kind),
  drop-append 34 (p ++ to_be 2 kind) tag,
)

replaceable-IsKept : (kind : ℕ) → is_replaceable kind ≡ true → IsKept kind
unfolding is_replaceable
replaceable-IsKept kind h = ground arith

parameterized-IsKept : (kind : ℕ) → is_parameterized kind ≡ true → IsKept kind
unfolding is_parameterized
parameterized-IsKept kind h = ground arith

other-not-IsKept :
    (kind : ℕ) → is_replaceable kind ≡ false → is_parameterized kind ≡ false → ¬ IsKept kind
unfolding is_replaceable is_parameterized
other-not-IsKept kind h g k = ground arith

replaceable-lt : (kind : ℕ) → is_replaceable kind ≡ true → kind < 30_000
unfolding is_replaceable
replaceable-lt kind h = ground arith

parameterized-le : (kind : ℕ) → is_parameterized kind ≡ true → 30_000 ≤ kind
unfolding is_parameterized
parameterized-le kind h = ground arith

-- No key for the kinds of which all events are kept, else one that is read back.
abbrev pub ReplaceOutcome : ℕ → Bytes → List (List Bytes) → ℕ → Type 0
ReplaceOutcome kind pubkey tags time =
    (¬ IsKept kind) × (encode_replace_key kind pubkey tags ≡ none)
    ⊎ IsKept kind
      × ((key : Bytes) × (encode_replace_key kind pubkey tags ≡ some key)
          × (decode_replace_key key (u64_to_ver time)
              ≡ ok
                  (record { pubkey = pubkey; kind = kind; tag = kept_tag kind tags; time = time })))

-- A replace key is made for exactly the replaceable kinds: 0, 3, 41, 10000 to 19999, and 30000 to
-- 39999. For an author of 32 bytes it is decoded, with any 64-bit time, to the author, the kind
-- and the value of the leading "d" tag (empty for the kinds below 30000), so that two events of one
-- key have all three in common.
pub decode-encode_replace_key :
    (kind : ℕ) (pubkey : Bytes) (tags : List (List Bytes)) (time : ℕ)
    → length pubkey ≡ 32
    → kind < u16_mod
    → time < u64_mod
    → ReplaceOutcome kind pubkey tags time
unfolding encode_replace_key u64_to_ver
decode-encode_replace_key kind pubkey tags time hp hk ht = elim (Bool-cases (is_replaceable kind)) [
  | inl e ↦ inr (
    replaceable-IsKept kind e,
    (
      pubkey ++ u16_to_ver kind,
      ground arith,
      ground (
        arith,
        replaceable-lt kind e,
        decode-append pubkey kind [] time hp hk ht,
        append-nil (to_be 2 kind),
      ),
    ),
  )
  | inr e ↦ elim (Bool-cases (is_parameterized kind)) [
    | inl f ↦ inr (
      parameterized-IsKept kind f,
      (
        pubkey ++ (u16_to_ver kind ++ replace_tag tags),
        ground arith,
        ground (
          arith,
          parameterized-le kind f,
          decode-append pubkey kind (replace_tag tags) time hp hk ht,
        ),
      ),
    )
    | inr f ↦ inl (other-not-IsKept kind e f, ground arith)
  ]
]
