-- ===== src/Std/Text.antt =====
-- `&str` and `String` as the bytes of their UTF-8 form, and the literals of the code.
use Prim.Native.Char.{code}
use Prim.Native.String.{String}
use rnostr.Prelude.Order.{Bytes, Bytes-discrete}
use rnostr.Prelude.{◌≡◌, ◌↔◌, Bool, true, [], ◌∷◌, holds, arith}

-- The bytes of an ASCII literal.
abbrev pub codes : String → Bytes
codes String.[] = []
codes (String.◌∷◌ c s) = code c ∷ codes s

-- `a == b` on strings and byte strings.
abbrev pub text_eq : Bytes → Bytes → Bool
text_eq a b = holds (Bytes-discrete a b)

pub text_eq_iff : (a b : Bytes) → (text_eq a b ≡ true) ↔ (a ≡ b)
text_eq_iff a b = ground arith
