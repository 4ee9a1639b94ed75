-- ===== src/Kv/Scanner/Groups.antt =====
-- kv/src/scanner.rs: groups of scanners, whose keys are merged or intersected in the order of keys.
use rnostr.Prelude.{
  ℕ, zero, suc, ◌+◌, ◌%◌, Ordering, Bool, true, false, not, ◌||◌, Option, none, some, List, [], ◌∷◌,
  ◌++◌, map, any, is_empty, length, get_elem?, if◌then◌else◌,
}
use rnostr.Std.Words.{u64_mod}
use rnostr.Db.Error.{Outcome, ok, err, panicked}
use rnostr.Kv.Lmdb.{Act, pure, ◌>>=◌}
use rnostr.Kv.Scanner.{TimeKey, pop, set_at, add_key}

-- A watcher is a closure with a number of its own: `check` gives the next number, or an error.
pub record Watcher : Type 0 where
  pub last : ℕ
  pub check : ℕ → ℕ → Outcome ℕ

-- `GroupItem`: what is scanned next, how many scans that took, and who watches.
pub record GroupItem (S K : Type 0) : Type 0 where
  pub set_watcher : Watcher → S → S
  pub scan_next : S → Option (Outcome K) × S
  pub cur_times : S → ℕ

pub record Group (S K : Type 0) : Type 0 where
  pub onlyone : Option S
  pub items : List S
  pub founds : List (ℕ × K)
  pub reverse : Bool
  pub scan_times : ℕ
  pub cur_times : ℕ
  pub both : Bool
  pub done : Bool
  pub dup : Bool
  pub watcher : Option Watcher

abbrev pub is_equal : Ordering → Bool
is_equal Ordering.lt = false
is_equal Ordering.eq = true
is_equal Ordering.gt = false

-- `transpose`, and the answer of an iterator.
abbrev pub transposed : {K : Type 0} → Outcome (Option K) → Option (Outcome K)
transposed (ok none) = none
transposed (ok (some key)) = some (ok key)
transposed (err x) = some (err x)
transposed panicked = some panicked

module _ {S K : Type 0} (tk : TimeKey K) (gi : GroupItem S K) where
  unfoldable pub new_group : Bool → Bool → Bool → Group S K
  new_group reverse both dup = record {
    onlyone = none;
    items = [];
    founds = [];
    reverse = reverse;
    scan_times = 0;
    cur_times = 0;
    both = both;
    done = false;
    dup = dup;
    watcher = none;
  }

  abbrev pub count : ℕ → Group S K → Group S K
  count n g = record g {
    scan_times = (g.scan_times + n) % u64_mod;
    cur_times = (g.cur_times + n) % u64_mod;
  }

  -- `Group::watch`: the watcher may stop the scan by an error.
  unfoldable pub watch : ℕ → Act (Group S K) (Unit {0})
  watch n g =
      let h = count n g in
      elim h.watcher [
        | none ↦ (ok tt, h)
        | some w ↦ elim (w.check w.last h.scan_times) [
          | ok last ↦ (ok tt, record h { watcher = some (record w { last = last }) })
          | err x ↦ (err x, h)
          | panicked ↦ (panicked, h)
        ]
      ]

  abbrev put_found : ℕ → K → Group S K → Group S K
  put_found i key g = record g { founds = add_key tk g.reverse i key g.founds }

  -- What a scanner gave is put among the keys found.
  unfoldable pub keep : ℕ → Option (Outcome K) → Act (Group S K) Bool
  unfolding add_key
  keep i none g = (ok false, g)
  keep i (some (ok key)) g = (ok true, put_found i key g)
  keep i (some (err x)) g = (err x, g)
  keep i (some panicked) g = (panicked, g)

  -- The next of one scanner, which is watched; true if it had one.
  unfoldable pub advance : ℕ → Act (Group S K) Bool
  unfolding watch keep set_at
  advance i g = elim (get_elem? g.items i) [
    | none ↦ (panicked, g)
    | some s ↦
        let (item, t) = gi.scan_next s in
        (watch (gi.cur_times t) >>= λ _. keep i item) (record g { items = set_at i t g.items })
  ]

  abbrev pub clear : Group S K → Group S K
  clear g = record g { founds = [] }

  abbrev pub modify : (Group S K → Group S K) → Act (Group S K) (Unit {0})
  modify f g = (ok tt, f g)

  -- `Group::add_to_list`; an error leaves the scanner out.
  unfoldable pub add_to_list : S → Act (Group S K) (Unit {0})
  unfolding keep
  add_to_list s g =
      if g.done
      then (ok tt, g)
      else (let (item, t) = gi.scan_next s in
          let h = count (gi.cur_times t) g in
          let push = modify (λ u. record u { items = u.items ++ t ∷ [] }) in
          elim item [
            | none ↦ if h.both then (ok tt, record (clear h) { done = true }) else push h
            | some r ↦ (keep (length h.items) (some r) >>= λ _. push) h
          ])

  unfoldable pub add_scanner : S → Act (Group S K) (Unit {0})
  unfolding add_to_list
  add_scanner s g = if g.done then (ok tt, g) else (elim g.onlyone [
    | none ↦ if is_empty g.items then (ok tt, record g { onlyone = some s }) else add_to_list s g
    | some t ↦ (add_to_list t >>= λ _. add_to_list s) (record g { onlyone = none })
  ])

  -- `for i in (0..len).rev()`: whether some other key found is not equal.
  abbrev pub differs : K → List (ℕ × K) → Bool
  differs key founds = any (λ p. not (is_equal (tk.cmp p.1 key))) founds

  -- After a key that another scanner lacks: a scanner that is out of keys ends the intersection.
  abbrev pub go_on : Bool → Act (Group S K) (Option (Option K))
  go_on true g = (ok none, g)
  go_on false g = (ok (some none), clear g)

  -- After a key that all have.
  abbrev pub give : K → Bool → Act (Group S K) (Option (Option K))
  give key true g = (ok (some (some key)), g)
  give key false g = (ok (some (some key)), clear g)

  -- One round of `next_and` from the last of the keys found: the answer, or none to go on.
  unfoldable pub and_round : ℕ × K → Act (Group S K) (Option (Option K))
  unfolding advance
  and_round (i, key) g =
      if differs key g.founds then (advance i >>= go_on) g else (advance i >>= give key) g

  abbrev pub pop_found : Act (Group S K) (ℕ × K)
  pop_found g = elim (pop g.founds) [
    | none ↦ (panicked, g)
    | some (p, ps) ↦ (ok p, record g { founds = ps })
  ]

  -- `Group::next_and`: the loop `'go` on fuel; none is out of fuel.
  unfoldable pub next_and : ℕ → Group S K → Option (Outcome (Option K) × Group S K)
  unfolding and_round pop
  next_and zero g = none
  next_and (suc fuel) g =
      let (r, h) = (pop_found >>= and_round) g in
      let rest = next_and fuel h in
      elim r [
        | ok none ↦ rest
        | ok (some answer) ↦ some (ok answer, h)
        | err x ↦ some (err x, h)
        | panicked ↦ some (panicked, h)
      ]

  -- The keys at the back that equal the first: taken while they do.
  unfoldable pub take_equal : K → ℕ → List (ℕ × K) → List (ℕ × K) → List (ℕ × K) × List (ℕ × K)
  unfolding pop
  take_equal key zero curs founds = (curs, founds)
  take_equal key (suc n) curs founds = elim (pop founds) [
    | none ↦ (curs, founds)
    | some (p, ps) ↦
        let more = take_equal key n (curs ++ p ∷ []) ps in
        if is_equal (tk.cmp p.1 key) then more else (curs, founds)
  ]

  unfoldable pub advance_all : List (ℕ × K) → Act (Group S K) (Unit {0})
  unfolding advance
  advance_all [] = pure tt
  advance_all ((i, key) ∷ ps) = advance i >>= λ _. advance_all ps

  -- All keys that equal the first: the last that was taken is the answer.
  unfoldable pub pop_equal : ℕ × K → Act (Group S K) (ℕ × K)
  unfolding take_equal advance_all pop
  pop_equal (i, key) g =
      let (curs, founds) = take_equal key (length g.founds) ((i, key) ∷ []) g.founds in
      let h = record g { founds = founds } in
      elim (pop curs) [
        | none ↦ (panicked, h)
        | some (cur, others) ↦ (advance_all others >>= λ _. pure cur) h
      ]

  -- `Group::next_or`.
  unfoldable pub next_or : Act (Group S K) (Option K)
  unfolding pop_equal advance pop
  next_or g =
      (pop_found >>= λ p.
      (if g.dup then pop_equal p else pure p) >>= λ cur. advance cur.0 >>= λ _. pure (some cur.1))
        g

  -- `Group::next`, the iterator; none is out of fuel.
  unfoldable pub group_next : ℕ → Group S K → Option (Option (Outcome K) × Group S K)
  unfolding watch next_and next_or
  group_next fuel g = elim g.onlyone [
    | some s ↦
        let (item, t) = gi.scan_next s in
        let (r, h) = watch (gi.cur_times t) (record g { onlyone = some t; cur_times = 0 }) in
        some (elim r [ ok _ ↦ item | err x ↦ some (err x) | panicked ↦ some panicked ], h)
    | none ↦
        let h = record g { cur_times = 0 } in
        if is_empty g.founds || g.done
        then some (none, h)
        else if g.both
        then elim (next_and fuel h) [ none ↦ none | some (r, u) ↦ some (transposed r, u) ]
        else (let (r, u) = next_or h in some (transposed r, u))
  ]

  -- `GroupItem::watcher` of a group: its scanners are given the watcher too.
  unfoldable pub watch_all : Watcher → Group S K → Group S K
  watch_all w g = record g {
    watcher = some w;
    onlyone = elim g.onlyone [ none ↦ none | some s ↦ some (gi.set_watcher w s) ];
    items = map (gi.set_watcher w) g.items;
  }
