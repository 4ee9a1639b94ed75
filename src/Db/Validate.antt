-- ===== src/Db/Validate.antt =====
-- db/src/event.rs: an event as it arrives, and the checks that it passes before it is stored. A
-- formatted message stands by its format; sums and differences of `u64` wrap, as a release build has it.
pub mod Conditions
pub mod Laws
use rnostr.Prelude.Order.{Bytes, Bytes-discrete}
use rnostr.Prelude.{
  ℕ, ◌+◌, ◌-◌, ◌%◌, Bool, true, false, not, ◌&&◌, ◌||◌, Option, none, some, List, [], ◌∷◌, ◌++◌,
  length, is_empty, ltb, leb, ◌==◌, if◌then◌else◌,
}
use rnostr.Std.Text.{codes, text_eq}
use rnostr.Std.Words.{u64_mod, u16_mod}
use rnostr.Std.Parse.{parse_uint, split, strip_prefix}
use rnostr.Db.Error.{Outcome, ok, err, ◌>>=◌, invalid, secp256k1, parse_int_error}
use rnostr.Db.Event.{EventIndex, decode, is_expired, new_index}

-- The result of a check.
abbrev pub Check : Type 0
Check = Outcome (Unit {0})

pub record Event : Type 0 where
  pub tags : List (List Bytes)
  pub content : Bytes
  pub sig : Bytes
  pub index : EventIndex
  pub words : List Bytes

-- The crates: SHA-256, the JSON form of the array that is hashed, hexadecimal, and Schnorr
-- signatures on secp256k1, which take the signature, the key and the message.
pub record Crates : Type 0 where
  pub sha256 : Bytes → Bytes
  pub to_json : Bytes → ℕ → ℕ → List (List Bytes) → Bytes → Bytes
  pub hex_encode : Bytes → Bytes
  pub hex_decode : Bytes → Option Bytes
  pub verify_schnorr : Bytes → Bytes → Bytes → Bool

unfoldable pub sub_u64 : ℕ → ℕ → ℕ
sub_u64 a b = (a + u64_mod - b) % u64_mod

unfoldable pub add_u64 : ℕ → ℕ → ℕ
add_u64 a b = (a + b) % u64_mod

unfoldable pub verify_time : Event → ℕ → ℕ → ℕ → Check
unfolding sub_u64 add_u64
verify_time e now older newer =
    if not (older == 0) && ltb e.index.created_at (sub_u64 now older)
    then err (invalid "event creation date must be newer than {}")
    else if not (newer == 0) && ltb (add_u64 now newer) e.index.created_at
    then err (invalid "event creation date must be older than {}")
    else ok tt

-- A condition of the form `prefix` and a number, which the event has to meet.
unfoldable pub check_number : Bytes → ℕ → (ℕ → Bool) → Check → Bytes → Check
check_number prefix modulus test otherwise cond = elim (strip_prefix prefix cond) [
  | none ↦ ok tt
  | some s ↦ elim (parse_uint modulus s) [
    | none ↦ err parse_int_error
    | some n ↦ if test n then ok tt else otherwise
  ]
]

unfoldable pub check_condition : Event → Bytes → Check
unfolding check_number
check_condition e cond = do
  _ ←
      check_number (codes "kind=") u16_mod (λ n. n == e.index.kind)
        (err (invalid "event kind must be {}")) cond
  _ ←
      check_number (codes "created_at<") u64_mod (λ n. ltb e.index.created_at n)
        (err (invalid "event created_at must older than {}")) cond
  check_number (codes "created_at>") u64_mod (λ n. ltb n e.index.created_at)
      (err (invalid "event created_at must newer than {}")) cond

unfoldable pub check_conditions : Event → List Bytes → Check
unfolding check_condition
check_conditions e [] = ok tt
check_conditions e (cond ∷ conds) = check_condition e cond >>= λ _. check_conditions e conds

module _ (crates : Crates) where
  unfoldable pub hash : Event → Bytes
  hash e = crates.sha256 (
      crates.to_json (crates.hex_encode e.index.pubkey) e.index.created_at e.index.kind e.tags
        e.content)

  -- `Event::new`.
  unfoldable pub new_event :
      Bytes → Bytes → ℕ → ℕ → List (List Bytes) → Bytes → Bytes → Outcome Event
  new_event id pubkey created_at kind tags content sig = do
    index ← new_index crates.hex_decode id pubkey created_at kind tags
    ok (record { tags = tags; content = content; sig = sig; index = index; words = [] })

  unfoldable pub verify_id : Event → Check
  unfolding hash
  verify_id e = if text_eq (hash e) e.index.id then ok tt else err (invalid "bad event id")

  -- The function `verify_sign`.
  unfoldable pub check_sign : Bytes → Bytes → Bytes → Check
  check_sign sig pk msg = if crates.verify_schnorr sig pk msg then ok tt else err secp256k1

  -- The method `verify_sign`.
  unfoldable pub verify_sign : Event → Check
  unfolding check_sign
  verify_sign e = elim (check_sign e.sig e.index.pubkey e.index.id) [
    | ok _ ↦ ok tt
    | _ ↦ err (invalid "signature is wrong")
  ]

  unfoldable pub token : Event → Bytes → Bytes
  token e conditions =
      crates.sha256 (
        codes "nostr:delegation:"
        ++ (crates.hex_encode e.index.pubkey ++ (codes ":" ++ conditions)))

  -- The function `verify_delegation`.
  unfoldable pub check_delegation : Event → Bytes → Bytes → Bytes → Check
  unfolding token decode check_sign check_conditions
  check_delegation e delegator conditions sig = do
    s ← decode crates.hex_decode sig
    d ← decode crates.hex_decode delegator
    _ ← check_sign s d (token e conditions)
    check_conditions e (split b'&' conditions)

  -- The loop of `verify_delegation`: the first delegation tag of four items decides.
  unfoldable pub first_delegation : Event → List (List Bytes) → Check
  unfolding check_delegation
  first_delegation e [] = err (invalid "error delegation arguments")
  first_delegation e ((name ∷ delegator ∷ conditions ∷ sig ∷ []) ∷ tags) =
      if text_eq name (codes "delegation")
      then check_delegation e delegator conditions sig
      else first_delegation e tags
  first_delegation e (tag ∷ tags) = first_delegation e tags

  -- The method `verify_delegation`.
  unfoldable pub verify_delegation : Event → Check
  unfolding first_delegation
  verify_delegation e = elim e.index.delegator [ none ↦ ok tt | some _ ↦ first_delegation e e.tags ]

  unfoldable pub validate : Event → ℕ → ℕ → ℕ → Check
  unfolding verify_time verify_id verify_sign verify_delegation is_expired
  validate e now older newer =
      if is_expired e.index now
      then err (invalid "event is expired")
      else (verify_time e now older newer >>= λ _.
          verify_id e >>= λ _. verify_sign e >>= λ _. verify_delegation e)
