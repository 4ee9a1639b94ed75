-- ===== src/Db/Error.antt =====
-- db/src/error.rs: the errors, and the result of code that returns, fails or panics.
use mathlib.Core.Path.{◌≡◌, refl}
use Prim.Native.String.{String}

-- Errors of foreign crates carry nothing here: nothing of the code reads what they hold.
pub data Error : Type 0 where
  kv convert_u64 secp256k1 parse_int_error json io hex : Error
  deserialization serialization invalid message : String → Error
  invalid_length scan_timeout version_mismatch : Error

-- `panicked` is an index or a slice out of range, or an overflow.
pub data Outcome {ℓ} (A : Type ℓ) : Type ℓ where
  ok : A → Outcome A
  err : Error → Outcome A
  panicked : Outcome A

infixl 5 ◌>>=◌
abbrev pub ◌>>=◌ {ℓ κ} : {T : Type ℓ} {U : Type κ} → Outcome T → (T → Outcome U) → Outcome U
panicked >>= next = panicked
err why >>= next = err why
ok value >>= next = next value

pub ok-injective {ℓ} : {T : Type ℓ} {t u : T} → ok t ≡ ok u → t ≡ u
ok-injective same = cc

-- Code that ends well went on from a first part that ended well.
pub >>=-eq-ok {ℓ κ} :
    {T : Type ℓ} {U : Type κ} {u : U} (first : Outcome T) (next : T → Outcome U)
    → (first >>= next) ≡ ok u
    → (value : T) × (first ≡ ok value) × (next value ≡ ok u)
>>=-eq-ok panicked next done = cc
>>=-eq-ok (err why) next done = cc
>>=-eq-ok (ok value) next done = (value, refl, done)
