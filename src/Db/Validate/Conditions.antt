-- ===== src/Db/Validate/Conditions.antt =====
-- The conditions of a delegation (db/src/event.rs), and checks that follow each other.
use rnostr.Prelude.Order.{Bytes}
use rnostr.Prelude.{
  ℕ, ◌≡◌, refl, ◌↔◌, ◌⊎◌, inl, inr, Bool, true, none, some, List, [], ◌∷◌, All, ltb, ◌==◌,
  Option-cases, arith,
}
use rnostr.Std.Text.{codes}
use rnostr.Std.Words.{u64_mod, u16_mod}
use rnostr.Std.Parse.{parse_uint, strip_prefix}
use rnostr.Db.Error.{Error, invalid, Outcome, ok, err, panicked, ◌>>=◌}
use rnostr.Db.Validate.{Check, Event, check_number, check_condition, check_conditions}

-- A condition that starts with the prefix goes on with a number that the event meets.
abbrev pub Meets : Bytes → ℕ → (ℕ → Bool) → Bytes → Type 0
Meets prefix modulus test cond =
    (strip_prefix prefix cond ≡ none)
    ⊎ ((s : Bytes) × (n : ℕ) × (strip_prefix prefix cond ≡ some s)
        × (parse_uint modulus s ≡ some n)
        × (test n ≡ true))

abbrev pub Condition : Event → Bytes → Type 0
Condition e cond =
    Meets (codes "kind=") u16_mod (λ n. n == e.index.kind) cond
    × Meets (codes "created_at<") u64_mod (λ n. ltb e.index.created_at n) cond
    × Meets (codes "created_at>") u64_mod (λ n. ltb n e.index.created_at) cond

check_number-Meets :
    (prefix : Bytes) (modulus : ℕ) (test : ℕ → Bool) (x : Error) (cond : Bytes)
    → (check_number prefix modulus test (err x) cond ≡ ok tt) ↔ Meets prefix modulus test cond
unfolding check_number
check_number-Meets prefix modulus test x cond = elim (Option-cases (strip_prefix prefix cond)) [
  | inl e ↦ (λ h. inl e, λ m. ground arith)
  | inr (s, e) ↦ elim (Option-cases (parse_uint modulus s)) [
    | inl f ↦ (λ h. absurd (ground arith), λ m. met s m)
    | inr (n, f) ↦ (λ h. inr (s, n, e, f, ground arith), λ m. met s m)
  ]
]
  where
    met :
        (s : Bytes)
        → Meets prefix modulus test cond
        → check_number prefix modulus test (err x) cond ≡ ok tt
    met s (inl e) = ground arith
    met s (inr (t, n, p, q, r)) = ground arith

-- Two checks pass one after the other.
pub ok_bind :
    {A : Type 0} (m : Check) (k : Outcome A) (a : A)
    → ((m >>= λ _. k) ≡ ok a) ↔ ((m ≡ ok tt) × (k ≡ ok a))
ok_bind (ok u) k a = (λ h. (refl, h), λ h. h.1)
ok_bind (err x) k a = (λ h. absurd cc, λ h. absurd (cc h.0))
ok_bind panicked k a = (λ h. absurd cc, λ h. absurd (cc h.0))

check_condition-Condition :
    (e : Event) (cond : Bytes) → (check_condition e cond ≡ ok tt) ↔ Condition e cond
unfolding check_condition
check_condition-Condition e cond =
    let kind =
      check_number-Meets (codes "kind=") u16_mod (λ n. n == e.index.kind)
        (invalid "event kind must be {}") cond in
    let older =
      check_number-Meets (codes "created_at<") u64_mod (λ n. ltb e.index.created_at n)
        (invalid "event created_at must older than {}") cond in
    let newer =
      check_number-Meets (codes "created_at>") u64_mod (λ n. ltb n e.index.created_at)
        (invalid "event created_at must newer than {}") cond in
    (
      λ h.
          let (a, b) = (ok_bind _ _ tt).0 h in
          let (c, d) = (ok_bind _ _ tt).0 b in (kind.0 a, older.0 c, newer.0 d),
      λ m. (ok_bind _ _ tt).1 (kind.1 m.0, (ok_bind _ _ tt).1 (older.1 m.1, newer.1 m.2)),
    )

pub check_conditions-All :
    (e : Event) (conds : List Bytes) → (check_conditions e conds ≡ ok tt) ↔ All (Condition e) conds
unfolding check_conditions
check_conditions-All e [] = (λ h. tt, λ h. refl)
check_conditions-All e (cond ∷ conds) =
    let first = check_condition-Condition e cond in
    let rest = check_conditions-All e conds in
    (
      λ h. let (a, b) = (ok_bind _ _ tt).0 h in (first.0 a, rest.0 b),
      λ m. (ok_bind _ _ tt).1 (first.1 m.0, rest.1 m.1),
    )
