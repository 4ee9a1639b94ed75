-- ===== src/Db/Key/Laws.antt =====
-- Index keys are read back, compared and moved in time as they were written.
use mathlib.Core.List.{append_assoc}
use rnostr.Prelude.Order.{Bytes, cmp_bytes, cmp_bytes-append_left}
use rnostr.Prelude.{
  ℕ, ◌<◌, compare, ◌≡◌, refl, [], ◌++◌, length, length-append, take-append, drop-append, ◌∙◌, arith,
}
use rnostr.Std.Words.{u64_mod, to_be, length-to_be, from_be-to_be, cmp_bytes-to_be}
use rnostr.Db.Error.{ok}
use rnostr.Db.Key.{
  view_key_sep, u64_to_ver, encode_time, encode_id, encode_kind, encode_pubkey, encode_pubkey_kind,
  concat_sep, encode_tag, encode_word, from_be_bytes, slice_from, slice_to, time_pos, from,
  change_time,
}

pub time_pos-append : (p : Bytes) (t : ℕ) → time_pos (p ++ to_be 8 t) ≡ ok (length p)
unfolding time_pos
time_pos-append p t = ground (arith, length-append p (to_be 8 t), length-to_be 8 t)

slice_from-append : (p q : Bytes) → slice_from (length p) (p ++ q) ≡ ok q
unfolding slice_from
slice_from-append p q = ground (arith, length-append p q, drop-append (length p) p q refl)

slice_to-append : (n : ℕ) (p q : Bytes) → length p ≡ n → slice_to n (p ++ q) ≡ ok p
unfolding slice_to
slice_to-append n p q h = ground (arith, length-append p q, take-append n p q h)

from_be_bytes-to_be : (t : ℕ) → t < u64_mod → from_be_bytes 8 (to_be 8 t) ≡ ok t
unfolding from_be_bytes
from_be_bytes-to_be t h = ground (arith, length-to_be 8 t, from_be-to_be 8 t h)

-- Any key that ends with a time.
from-append :
    (p : Bytes) (t u : ℕ) (rest : Bytes)
    → t < u64_mod
    → u < u64_mod
    → from (p ++ to_be 8 t) (to_be 8 u ++ rest) ≡ ok (record { time = t; uid = u })
unfolding from
from-append p t u rest ht hu = rw (
  time_pos-append p t,
  slice_from-append p (to_be 8 t),
  from_be_bytes-to_be t ht,
  slice_to-append 8 (to_be 8 u) rest (length-to_be 8 u),
  from_be_bytes-to_be u hu,
)

change_time-append : (p : Bytes) (t t' : ℕ) → change_time (p ++ to_be 8 t) t' ≡ ok (p ++ to_be 8 t')
unfolding change_time
change_time-append p t t' = rw (time_pos-append p t, slice_to-append (length p) p (to_be 8 t) refl)

cmp_bytes-append :
    (p : Bytes) (t t' : ℕ)
    → t < u64_mod
    → t' < u64_mod
    → cmp_bytes (p ++ to_be 8 t) (p ++ to_be 8 t') ≡ compare t t'
cmp_bytes-append p t t' h h' =
    cmp_bytes-append_left p (to_be 8 t) (to_be 8 t') ∙ cmp_bytes-to_be 8 t t' h h'

-- The keys of the index trees: each maker is a prefix and a time.
pub data Maker : Type 0 where
  by_time : Maker
  by_id by_pubkey by_word : Bytes → Maker
  by_kind : ℕ → Maker
  by_pubkey_kind : Bytes → ℕ → Maker
  by_tag : Bytes → Bytes → Maker

abbrev pub make : Maker → ℕ → Bytes
make by_time t = encode_time t
make (by_id id) t = encode_id id t
make (by_pubkey p) t = encode_pubkey p t
make (by_word w) t = encode_word w t
make (by_kind k) t = encode_kind k t
make (by_pubkey_kind p k) t = encode_pubkey_kind p k t
make (by_tag k v) t = encode_tag k v t

abbrev pub stem : Maker → Bytes
stem by_time = []
stem (by_id id) = id
stem (by_pubkey p) = p
stem (by_word w) = w ++ view_key_sep
stem (by_kind k) = to_be 2 k
stem (by_pubkey_kind p k) = p ++ to_be 2 k
stem (by_tag k v) = concat_sep k v ++ view_key_sep

pub make-stem : (m : Maker) (t : ℕ) → make m t ≡ stem m ++ to_be 8 t
unfolding encode_time encode_id encode_pubkey encode_word encode_kind encode_pubkey_kind encode_tag
make-stem by_time t = refl
make-stem (by_id id) t = refl
make-stem (by_pubkey p) t = refl
make-stem (by_word w) t = simp append_assoc
make-stem (by_kind k) t = refl
make-stem (by_pubkey_kind p k) t = simp append_assoc
make-stem (by_tag k v) t = simp append_assoc

-- Every kind of index key, stored with its value (the uid, followed by anything), is read back by
-- `IndexKey::from` as the time and the uid that it was made of, for times and uids of 64 bits.
pub from-make :
    (m : Maker) (t u : ℕ) (rest : Bytes)
    → t < u64_mod
    → u < u64_mod
    → from (make m t) (u64_to_ver u ++ rest) ≡ ok (record { time = t; uid = u })
unfolding u64_to_ver
from-make m t u rest ht hu = rw (make-stem m t) (from-append (stem m) t u rest ht hu)

-- Two index keys of one maker are ordered, as byte strings, as their times are, and
-- `change_time` takes the key at one time to the key at any other.
pub make_order :
    (m : Maker) (t t' : ℕ)
    → t < u64_mod
    → t' < u64_mod
    → (cmp_bytes (make m t) (make m t') ≡ compare t t')
      × (change_time (make m t) t' ≡ ok (make m t'))
make_order m t t' h h' =
    rw (make-stem m t, make-stem m t')
      (cmp_bytes-append (stem m) t t' h h', change_time-append (stem m) t t')
