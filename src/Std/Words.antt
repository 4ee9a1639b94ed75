-- ===== src/Std/Words.antt =====
-- `u16` and `u64`: a value is a number below the modulus; `to_be_bytes` and `from_be_bytes`.
use native.Mathlib.Nat.{pow-suc}
use rnostr.Prelude.Order.{Bytes, cmp_bytes}
use rnostr.Prelude.{
  ℕ, zero, suc, ◌+◌, ◌*◌, ◌/◌, ◌%◌, ◌^◌, ◌<◌, compare, Ordering, ◌≡◌, refl, ◌∙◌, [], ◌∷◌, ◌++◌,
  length, length-append, All, arith,
}

abbrev pub u64_mod : ℕ
u64_mod = 2 ^ 64

abbrev pub u16_mod : ℕ
u16_mod = 2 ^ 16

-- Every byte is one.
abbrev pub AreBytes : Bytes → Type 0
AreBytes = All (λ b. b < 256)

-- The `w` bytes of a number, the most significant first.
unfoldable pub to_be : ℕ → ℕ → Bytes
to_be zero n = []
to_be (suc w) n = to_be w (n / 256) ++ n % 256 ∷ []

-- The bytes read from the left, behind what is read already.
unfoldable pub from_be : ℕ → Bytes → ℕ
from_be acc [] = acc
from_be acc (b ∷ bs) = from_be (acc * 256 + b) bs

pub length-to_be : (w n : ℕ) → length (to_be w n) ≡ w
unfolding to_be
length-to_be zero n = refl
length-to_be (suc w) n =
    omega (arith, length-append (to_be w (n / 256)) (n % 256 ∷ []), length-to_be w (n / 256))

from_be-append :
    (acc : ℕ) (xs : Bytes) (b : ℕ) → from_be acc (xs ++ b ∷ []) ≡ from_be acc xs * 256 + b
unfolding from_be
from_be-append acc [] b = refl
from_be-append acc (x ∷ xs) b = from_be-append (acc * 256 + x) xs b

pub from_be-to_be : (w n : ℕ) → n < 256 ^ w → from_be 0 (to_be w n) ≡ n
unfolding from_be to_be
from_be-to_be zero n h = omega arith
from_be-to_be (suc w) n h =
    from_be-append 0 (to_be w (n / 256)) (n % 256)
    ∙ omega (arith, from_be-to_be w (n / 256) (omega (arith, pow-suc 256 w)))

cmp_bytes-snoc :
    (xs ys : Bytes) (a b : ℕ)
    → length xs ≡ length ys
    → cmp_bytes (xs ++ a ∷ []) (ys ++ b ∷ []) ≡ elim (cmp_bytes xs ys) [
      | Ordering.lt ↦ Ordering.lt
      | Ordering.eq ↦ compare a b
      | Ordering.gt ↦ Ordering.gt
    ]
unfolding cmp_bytes
cmp_bytes-snoc [] [] a b h = ground arith
cmp_bytes-snoc [] (y ∷ ys) a b h = absurd (omega arith)
cmp_bytes-snoc (x ∷ xs) [] a b h = absurd (omega arith)
cmp_bytes-snoc (x ∷ xs) (y ∷ ys) a b h = ground (arith, cmp_bytes-snoc xs ys a b)

-- Big-endian strings of one width are ordered as the numbers are.
pub cmp_bytes-to_be :
    (w m n : ℕ) → m < 256 ^ w → n < 256 ^ w → cmp_bytes (to_be w m) (to_be w n) ≡ compare m n
unfolding to_be
cmp_bytes-to_be zero m n p q = unfold cmp_bytes in ground arith
cmp_bytes-to_be (suc w) m n p q = ground (
  arith,
  cmp_bytes-snoc (to_be w (m / 256)) (to_be w (n / 256)) (m % 256) (n % 256),
  length-to_be w (m / 256),
  length-to_be w (n / 256),
  cmp_bytes-to_be w (m / 256) (n / 256),
  pow-suc 256 w,
)
