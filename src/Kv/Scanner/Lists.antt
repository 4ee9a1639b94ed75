-- ===== src/Kv/Scanner/Lists.antt =====
-- What holds of all items of a list holds after an item is put in, replaced or taken out
-- (kv/src/scanner.rs).
use rnostr.Prelude.{
  ℕ, zero, suc, ◌≡◌, refl, subst, Option, none, some, List, [], ◌∷◌, All, get_elem?,
}
use rnostr.Kv.Scanner.{insert_at, pop, set_at}

module _ {ℓ κ} {A : Type ℓ} (P : A → Type κ) where
  pub All-insert_at : (n : ℕ) (a : A) (l : List A) → P a → All P l → All P (insert_at n a l)
  unfolding insert_at
  All-insert_at zero a l h s = (h, s)
  All-insert_at (suc n) a [] h s = (h, tt)
  All-insert_at (suc n) a (x ∷ l) h s = (s.0, All-insert_at n a l h s.1)

  pub All-set_at : (n : ℕ) (a : A) (l : List A) → P a → All P l → All P (set_at n a l)
  unfolding set_at
  All-set_at n a [] h s = tt
  All-set_at zero a (x ∷ l) h s = (h, s.1)
  All-set_at (suc n) a (x ∷ l) h s = (s.0, All-set_at n a l h s.1)

  pub All-get : (n : ℕ) (a : A) (l : List A) → All P l → get_elem? l n ≡ some a → P a
  All-get n a [] s e = absurd (cc e)
  All-get zero a (x ∷ l) s e = let same : x ≡ a = cc e in subst P same s.0
  All-get (suc n) a (x ∷ l) s e = All-get n a l s.1 e

  pub pop-All : (l ps : List A) (p : A) → All P l → pop l ≡ some (p, ps) → P p × All P ps
  unfolding pop
  pop-All [] ps p a h = absurd (cc h)
  pop-All (x ∷ l) ps p a h = split (λ ys y. pop-All l ys y a.1) (pop l) refl h
    where
      split :
          ((ys : List A) (y : A) → pop l ≡ some (y, ys) → P y × All P ys)
          → (r : Option (A × List A)) → pop l ≡ r
          → (elim r as (λ _. Option (A × List A)) [
            | none ↦ some (x, [])
            | some (y, ys) ↦ some (y, x ∷ ys)
          ])
            ≡ some (p, ps)
          → P p × All P ps
      split ih none e q =
          let first : x ≡ p = cc q in
          let others : [] ≡ ps = cc q in (subst P first a.0, subst (All P) others tt)
      split ih (some (y, ys)) e q =
          let (b, c) = ih ys y e in
          let last : y ≡ p = cc q in
          let others : x ∷ ys ≡ ps = cc q in (subst P last b, subst (All P) others (a.0, c))
