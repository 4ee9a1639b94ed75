-- ===== src/Kv/Scanner/Given.antt =====
-- What holds of the keys that the scanners of a group give holds of the keys that the group gives
-- (kv/src/scanner.rs): the steps of a group.
pub mod And
pub mod Or
pub mod Next
pub mod Added
use rnostr.Prelude.{
  ℕ, zero, suc, ◌≡◌, refl, sym, ap, subst, ◌∙◌, Bool, true, false, ◌||◌, Option, none, some, List,
  [], ◌∷◌, ◌++◌, All, is_empty, length, get_elem?, if◌then◌else◌,
}
use rnostr.Db.Error.{Outcome, ok, err, panicked}
use rnostr.Kv.Lmdb.{Act, pure, next, ◌>>=◌}
use rnostr.Kv.Scanner.{TimeKey, insert_at, pop, set_at, add_key}
use rnostr.Kv.Scanner.Groups.{
  GroupItem, Group, count, watch, keep, advance, add_to_list, add_scanner, and_round, next_and,
  is_equal, take_equal, advance_all, pop_equal, next_or, group_next, transposed, pop_found, go_on,
  give, differs,
}
use rnostr.Kv.Scanner.Lists.{All-insert_at, All-set_at, All-get, pop-All}
use rnostr.Kv.Scanner.Watched.{watch_cases}

-- No property.
abbrev pub Any : {A : Type 0} → A → Type 0
Any a = Unit

abbrev pub HasKey : {K : Type 0} → (K → Type 0) → Option K → Type 0
HasKey P none = Unit
HasKey P (some key) = P key

module _ {S K : Type 0} (tk : TimeKey K) (gi : GroupItem S K) (Good : S → Type 0)
    (P : K → Type 0) where
  -- What a scanner gives: it stays good, and a key has the property.
  abbrev pub Gives : Option (Outcome K) × S → Type 0
  Gives (item, t) = Good t × ((key : K) → item ≡ some (ok key) → P key)

  -- A group of good scanners whose keys found have the property.
  pub record AllGood (g : Group S K) : Type 0 where
    pub onlyone_good : (s : S) → g.onlyone ≡ some s → Good s
    pub items_good : All Good g.items
    pub founds_good : All (λ p. P p.1) g.founds

  -- An outcome that leaves the group good, and whose answer has a property.
  abbrev pub Fine : {A : Type 0} → (A → Type 0) → Outcome A × Group S K → Type 0
  Fine Q (ok a, g) = Q a × AllGood g
  Fine Q (err x, g) = AllGood g
  Fine Q (panicked, g) = AllGood g

  pub next-Fine :
      {A B : Type 0} (Q : A → Type 0) (Q' : B → Type 0) (r : Outcome A × Group S K)
      (f : A → Act (Group S K) B)
      → Fine Q r
      → ((a : A) (g : Group S K) → Q a → AllGood g → Fine Q' (f a g))
      → Fine Q' (next r f)
  next-Fine Q Q' (ok a, g) f o h = h a g o.0 o.1
  next-Fine Q Q' (err x, g) f o h = o
  next-Fine Q Q' (panicked, g) f o h = o

  pub Any-Fine : {A : Type 0} (r : Outcome A) (g : Group S K) → AllGood g → Fine Any (r, g)
  Any-Fine (ok a) g h = (tt, h)
  Any-Fine (err x) g h = h
  Any-Fine panicked g h = h

  pub watch-Fine : (n : ℕ) (g : Group S K) → AllGood g → Fine Any (watch tk gi n g)
  watch-Fine n g h =
      let (w, same) = watch_cases tk gi n g in
      let kept : AllGood (record (count tk gi n g) { watcher = w }) = record {
        onlyone_good = h.onlyone_good;
        items_good = h.items_good;
        founds_good = h.founds_good;
      } in
      Any-Fine (watch tk gi n g).0 (watch tk gi n g).1 (subst AllGood (sym same) kept)

  -- The keys found and the scanners of a group may be replaced by good ones.
  pub with_founds :
      (g : Group S K) (founds : List (ℕ × K))
      → AllGood g
      → All (λ p. P p.1) founds
      → AllGood (record g { founds = founds })
  with_founds g founds h a = record {
    onlyone_good = h.onlyone_good;
    items_good = h.items_good;
    founds_good = a;
  }

  pub keep-Fine :
      (i : ℕ) (item : Option (Outcome K)) (g : Group S K)
      → ((key : K) → item ≡ some (ok key) → P key)
      → AllGood g
      → Fine Any (keep tk gi i item g)
  unfolding keep add_key
  keep-Fine i none g p h = (tt, h)
  keep-Fine i (some (ok key)) g p h = (
    tt,
    with_founds g _ h (All-insert_at (λ q. P q.1) _ (i, key) g.founds (p key refl) h.founds_good),
  )
  keep-Fine i (some (err x)) g p h = h
  keep-Fine i (some panicked) g p h = h

  module _ (gives : (s : S) → Good s → Gives (gi.scan_next s)) where
    pub advance-Fine : (i : ℕ) (g : Group S K) → AllGood g → Fine Any (advance tk gi i g)
    unfolding advance
    advance-Fine i g h = split (get_elem? g.items i) refl
      where
        split :
            (s : Option S)
            → get_elem? g.items i ≡ s
            → Fine Any (elim s as (λ _. Outcome Bool × Group S K) [
              | none ↦ (panicked, g)
              | some s ↦
                  (watch tk gi (gi.cur_times (gi.scan_next s).1) >>= λ _.
                  keep tk gi i (gi.scan_next s).0)
                    (record g { items = set_at i (gi.scan_next s).1 g.items })
            ])
        split none e = h
        split (some s) e =
            let (kept, found) = gives s (All-get Good i s g.items h.items_good e) in
            next-Fine Any Any _ _
              (watch-Fine (gi.cur_times (gi.scan_next s).1)
                (record g { items = set_at i (gi.scan_next s).1 g.items })
                (record {
                  onlyone_good = h.onlyone_good;
                  items_good = All-set_at Good i (gi.scan_next s).1 g.items kept h.items_good;
                  founds_good = h.founds_good;
                }))
              (λ _ u _ v. keep-Fine i _ u found v)
