-- ===== src/Kv/Scanner/Lookups.antt =====
-- Tests of the items of a list, and its items by place, after an item is put in, replaced or taken
-- out (kv/src/scanner.rs).
use rnostr.Prelude.{
  ℕ, zero, suc, ◌≡◌, refl, sym, ap, ◌∙◌, subst, Bool, true, false, ◌||◌, Option, none, some, List,
  [], ◌∷◌, All, any, get_elem?, arith,
}
use rnostr.Kv.Scanner.{insert_at, pop, set_at}

module _ {A : Type 0} where
  pub any-insert_at :
      (f : A → Bool) (n : ℕ) (a : A) (l : List A) → any f (insert_at n a l) ≡ (f a || any f l)
  unfolding insert_at
  any-insert_at f zero a l = refl
  any-insert_at f (suc n) a [] = refl
  any-insert_at f (suc n) a (x ∷ l) = ground (arith, any-insert_at f n a l)

  pop-none : (l : List A) → pop l ≡ none → l ≡ []
  unfolding pop
  pop-none [] h = refl
  pop-none (x ∷ l) h = split (pop l) h
    where
      split :
          (r : Option (A × List A))
          → (elim r as (λ _. Option (A × List A)) [
            | none ↦ some (x, [])
            | some (y, ys) ↦ some (y, x ∷ ys)
          ])
            ≡ none
          → x ∷ l ≡ []
      split none q = absurd (cc q)
      split (some r) q = absurd (cc q)

  pub pop-any :
      (f : A → Bool) (l ps : List A) (p : A) → pop l ≡ some (p, ps) → any f l ≡ (f p || any f ps)
  unfolding pop
  pop-any f [] ps p h = absurd (cc h)
  pop-any f (x ∷ l) ps p h = split (λ ys y e. pop-any f l ys y e) (pop l) refl h
    where
      split :
          ((ys : List A) (y : A) → pop l ≡ some (y, ys) → any f l ≡ (f y || any f ys))
          → (r : Option (A × List A)) → pop l ≡ r
          → (elim r as (λ _. Option (A × List A)) [
            | none ↦ some (x, [])
            | some (y, ys) ↦ some (y, x ∷ ys)
          ])
            ≡ some (p, ps)
          → (f x || any f l) ≡ (f p || any f ps)
      split ih none e q =
          let last : x ≡ p = cc q in
          let others : [] ≡ ps = cc q in
          ap (λ m. f x || any f m) (pop-none l e)
          ∙ ap (λ m. f m || false) last
          ∙ ap (λ m. f p || any f m) others
      split ih (some (y, ys)) e q =
          let last : y ≡ p = cc q in
          let others : x ∷ ys ≡ ps = cc q in
          let here : any f l ≡ (f p || any f ys) = ih ys y e ∙ ap (λ m. f m || any f ys) last in
          let there : any f ps ≡ (f x || any f ys) = sym (ap (any f) others) in ground (arith)

  -- What is there and has the property that all have.
  pub any-All :
      {P : A → Type 0} (f : A → Bool) (l : List A)
      → any f l ≡ true
      → All P l
      → (a : A) × (f a ≡ true) × P a
  any-All f [] h s = absurd (cc h)
  any-All {P} f (x ∷ l) h s = split (λ q. any-All f l q s.1) (f x) refl h
    where
      split :
          (any f l ≡ true → (a : A) × (f a ≡ true) × P a)
          → (b : Bool) → f x ≡ b
          → (b || any f l) ≡ true
          → (a : A) × (f a ≡ true) × P a
      split ih true e q = (x, e, s.0)
      split ih false e q = ih q

  pub All-both : (P Q : A → Type 0) (l : List A) → All P l → All Q l → All (λ a. P a × Q a) l
  All-both P Q [] h s = tt
  All-both P Q (x ∷ l) h s = ((h.0, s.0), All-both P Q l h.1 s.1)

  pub set_at-good :
      (G : ℕ → A → Type 0) (i : ℕ) (t : A) (l : List A)
      → G i t
      → ((j : ℕ) (s : A) → get_elem? l j ≡ some s → G j s)
      → (j : ℕ) (s : A) → get_elem? (set_at i t l) j ≡ some s
      → G j s
  unfolding set_at
  set_at-good G i t [] g h j s e = h j s e
  set_at-good G zero t (x ∷ l) g h zero s e = let same : t ≡ s = cc e in subst (G 0) same g
  set_at-good G zero t (x ∷ l) g h (suc j) s e = h (suc j) s e
  set_at-good G (suc i) t (x ∷ l) g h zero s e = h 0 s e
  set_at-good G (suc i) t (x ∷ l) g h (suc j) s e =
      set_at-good (λ m. G (suc m)) i t l g (λ m. h (suc m)) j s e
