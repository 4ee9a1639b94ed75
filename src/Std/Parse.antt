-- ===== src/Std/Parse.antt =====
-- `u64::from_str` and `u16::from_str`, and the cuts of `str` that the code makes.
use rnostr.Prelude.Order.{Bytes}
use rnostr.Prelude.{
  ℕ, ◌+◌, ◌-◌, ◌*◌, ◌<◌, ◌≡◌, refl, Bool, true, false, ◌&&◌, Option, none, some, List, [], ◌∷◌,
  ◌++◌, ltb, leb, ◌==◌, if◌then◌else◌, arith,
}
use rnostr.Std.Text.{codes}

is_digit : ℕ → Bool
is_digit c = leb b'0' c && leb c b'9'

-- The digits from the left; a value that reaches the modulus is an overflow.
parse_digits : ℕ → ℕ → Bytes → Option ℕ
unfolding is_digit
parse_digits modulus acc [] = some acc
parse_digits modulus acc (c ∷ cs) =
    let rest = parse_digits modulus (acc * 10 + (c - b'0')) cs in
    if is_digit c && ltb (acc * 10 + (c - b'0')) modulus then rest else none

-- One leading '+' is allowed, and at least one digit is needed.
unfoldable pub parse_uint : ℕ → Bytes → Option ℕ
unfolding parse_digits
parse_uint modulus [] = none
parse_uint modulus (c ∷ []) = parse_digits modulus 0 (c ∷ [])
parse_uint modulus (c ∷ d ∷ cs) =
    if c == b'+' then parse_digits modulus 0 (d ∷ cs) else parse_digits modulus 0 (c ∷ d ∷ cs)

parse_digits-lt :
    (modulus acc : ℕ) (s : Bytes) (n : ℕ)
    → acc < modulus
    → parse_digits modulus acc s ≡ some n
    → n < modulus
unfolding parse_digits
parse_digits-lt modulus acc [] n h e = ground arith
parse_digits-lt modulus acc (c ∷ cs) n h e =
    ground (arith, parse_digits-lt modulus (acc * 10 + (c - b'0')) cs n)

-- What is parsed fits.
pub parse_uint-lt :
    (modulus : ℕ) (s : Bytes) (n : ℕ) → 0 < modulus → parse_uint modulus s ≡ some n → n < modulus
unfolding parse_uint
parse_uint-lt modulus [] n h e = cc
parse_uint-lt modulus (c ∷ []) n h e = parse_digits-lt modulus 0 (c ∷ []) n h e
parse_uint-lt modulus (c ∷ d ∷ cs) n h e =
    ground
      (arith, parse_digits-lt modulus 0 (d ∷ cs) n h, parse_digits-lt modulus 0 (c ∷ d ∷ cs) n h)

-- `s.split(sep)`: there is always at least one part.
split_from : ℕ → Bytes → Bytes → List Bytes
split_from sep word [] = word ∷ []
split_from sep word (c ∷ cs) = elim (c == sep) [
  | true ↦ word ∷ split_from sep [] cs
  | false ↦ split_from sep (word ++ c ∷ []) cs
]

unfoldable pub split : ℕ → Bytes → List Bytes
unfolding split_from
split sep s = split_from sep [] s

-- `s.strip_prefix(p)`.
unfoldable pub strip_prefix : Bytes → Bytes → Option Bytes
strip_prefix [] s = some s
strip_prefix (p ∷ ps) [] = none
strip_prefix (p ∷ ps) (c ∷ cs) = elim (p == c) [ true ↦ strip_prefix ps cs | false ↦ none ]

parse_plus : parse_uint 65_536 (codes "+12") ≡ some 12
unfolding parse_uint
parse_plus = refl

parse_overflow : parse_uint 65_536 (codes "65536") ≡ none
unfolding parse_uint
parse_overflow = refl

split_conditions : split b'&' (codes "a&&b") ≡ codes "a" ∷ codes "" ∷ codes "b" ∷ []
unfolding split
split_conditions = refl
