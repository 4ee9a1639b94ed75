-- ===== src/Tests/Trees.antt =====
-- A library of trees: a transaction is the list of its writes, the latest first.
use rnostr.Prelude.Order.{Bytes, Bytes-discrete}
use rnostr.Prelude.{
  ◌≡◌, refl, sym, subst, ap, Bool, true, false, not, ◌&&◌, ◌||◌, Option, none, some, List, [], ◌∷◌,
  any, holds, Bool-ext, if◌then◌else◌, arith,
}
use rnostr.Kv.Lmdb.{
  Tree, Reply, success, not_found, failed, Ffi, Entry, Tree-discrete, Entry-discrete, clashes,
  takes, Documented,
}

abbrev same_place : Tree → Bytes → Entry → Bool
same_place tree key x = holds (Tree-discrete tree x.tree) && holds (Bytes-discrete key x.key)

-- The value of the first entry with the key.
unfoldable pub find_value : Tree → Bytes → List Entry → Reply Bytes
find_value tree key [] = not_found
find_value tree key (x ∷ w) =
    if same_place tree key x then success x.value else find_value tree key w

unfoldable pub without : Tree → Bytes → Option Bytes → List Entry → List Entry
without tree key value [] = []
without tree key value (x ∷ w) =
    if takes tree key value x then without tree key value w else x ∷ without tree key value w

abbrev pub memory : Ffi
memory = record {
  Txn = List Entry;
  mdb_get = λ w tree key. find_value tree key w;
  mdb_put = λ w tree key value. success (record { tree = tree; key = key; value = value } ∷ w);
  mdb_del = λ w tree key value.
      if any (takes tree key value) w then success (without tree key value w) else not_found;
}

unfoldable is_value : Bytes → Reply Bytes → Bool
is_value v (success u) = holds (Bytes-discrete u v)
is_value v not_found = false
is_value v failed = false

-- A tree with duplicates sees every entry, another the first of a key.
unfoldable pub sees : List Entry → Entry → Bool
unfolding is_value find_value
sees w x =
    if x.tree.dup
    then any (λ e. holds (Entry-discrete e x)) w
    else is_value x.value (find_value x.tree x.key w)

of_holds {ℓ} : {P : Type ℓ} (d : Dec P) → holds d ≡ true → P
of_holds (yes p) h = p
of_holds (no p) h = absurd (cc h)

to_holds {ℓ} : {P : Type ℓ} (d : Dec P) → P → holds d ≡ true
to_holds (yes p) q = refl
to_holds (no p) q = absurd (p q)

-- Entries are the same where the tree, the key and the value are.
entry_eq :
    (e x : Entry)
    → holds (Entry-discrete e x)
      ≡ (same_place e.tree e.key x && holds (Bytes-discrete e.value x.value))
entry_eq e x =
    Bool-ext _ _
      (λ h.
        let p = of_holds (Entry-discrete e x) h in
        ground (
          arith,
          to_holds (Tree-discrete e.tree x.tree) (ap (λ y. y.tree) p),
          to_holds (Bytes-discrete e.key x.key) (ap (λ y. y.key) p),
          to_holds (Bytes-discrete e.value x.value) (ap (λ y. y.value) p),
        ))
      (λ h. to_holds (Entry-discrete e x) (joined h))
  where
    joined : (same_place e.tree e.key x && holds (Bytes-discrete e.value x.value)) ≡ true → e ≡ x
    joined h =
        let t : e.tree ≡ x.tree = of_holds (Tree-discrete e.tree x.tree) (ground arith) in
        let k : e.key ≡ x.key = of_holds (Bytes-discrete e.key x.key) (ground arith) in
        let v : e.value ≡ x.value = of_holds (Bytes-discrete e.value x.value) (ground arith) in cc

find-some :
    (tree : Tree) (key value : Bytes) (w : List Entry)
    → find_value tree key w ≡ success value
    → any (λ e. holds (Entry-discrete e (record { tree = tree; key = key; value = value }))) w
      ≡ true
unfolding find_value
find-some tree key value [] h = absurd (cc h)
find-some tree key value (x ∷ w) h =
    let y : Entry = record { tree = tree; key = key; value = value } in
    ground (
      arith,
      of_holds (Tree-discrete tree x.tree),
      of_holds (Bytes-discrete key x.key),
      to_holds (Entry-discrete x y),
      find-some tree key value w,
    )

sees-put :
    (w : List Entry) (e x : Entry)
    → sees (e ∷ w) x ≡ (holds (Entry-discrete e x) || (not (clashes e x) && sees w x))
unfolding sees find_value
sees-put w e x = ground (
  arith,
  of_holds (Tree-discrete e.tree x.tree),
  of_holds (Bytes-discrete e.key x.key),
  of_holds (Bytes-discrete e.value x.value),
  entry_eq e x,
  of_holds (Tree-discrete x.tree e.tree),
  of_holds (Bytes-discrete x.key e.key),
  to_holds (Tree-discrete x.tree e.tree),
  to_holds (Bytes-discrete x.key e.key),
)

takes-place :
    (tree : Tree) (key : Bytes) (value : Option Bytes) (e x : Entry)
    → x.tree.dup ≡ false
    → same_place x.tree x.key e ≡ true
    → takes tree key value e ≡ takes tree key value x
takes-place tree key value e x d h =
    let t : x.tree ≡ e.tree = of_holds (Tree-discrete x.tree e.tree) (ground arith) in
    let k : x.key ≡ e.key = of_holds (Bytes-discrete x.key e.key) (ground arith) in
    let ends : takes tree key value (record e { tree = x.tree; key = x.key })
        ≡ takes tree key value x =
      same value in
    rw (← t, ← k) ends
  where
    same :
        (v : Option Bytes)
        → takes tree key v (record e { tree = x.tree; key = x.key }) ≡ takes tree key v x
    same none = refl
    same (some v) =
        elim (Tree-discrete tree x.tree)
          as (λ q.
            (holds q
              && (holds (Bytes-discrete key x.key)
                  && (not tree.dup || holds (Bytes-discrete v e.value))))
            ≡ (holds q
                && (holds (Bytes-discrete key x.key)
                    && (not tree.dup || holds (Bytes-discrete v x.value))))) [
                      | yes p ↦ ground (arith, ap (λ q. q.dup) p)
                      | no p ↦ refl
                    ]

any-del :
    (w : List Entry) (tree : Tree) (key : Bytes) (value : Option Bytes) (x : Entry)
    → any (λ e. holds (Entry-discrete e x)) (without tree key value w)
      ≡ (not (takes tree key value x) && any (λ e. holds (Entry-discrete e x)) w)
unfolding without
any-del [] tree key value x = ground arith
any-del (e ∷ w) tree key value x = ground (arith, same e x, any-del w tree key value x)
  where
    same :
        (e x : Entry)
        → holds (Entry-discrete e x) ≡ true
        → takes tree key value e ≡ takes tree key value x
    same e x h = ap (λ y. takes tree key value y) (of_holds (Entry-discrete e x) h)

found-del :
    (w : List Entry) (tree : Tree) (key : Bytes) (value : Option Bytes) (x : Entry)
    → x.tree.dup ≡ false
    → is_value x.value (find_value x.tree x.key (without tree key value w))
      ≡ (not (takes tree key value x) && is_value x.value (find_value x.tree x.key w))
unfolding without find_value is_value
found-del [] tree key value x d = ground arith
found-del (e ∷ w) tree key value x d =
    ground (arith, takes-place tree key value e x, found-del w tree key value x)

sees-del :
    (w : List Entry) (tree : Tree) (key : Bytes) (value : Option Bytes) (x : Entry)
    → sees (without tree key value w) x ≡ (not (takes tree key value x) && sees w x)
unfolding sees
sees-del w tree key value x =
    ground (arith, any-del w tree key value x, found-del w tree key value x)

sees-none :
    (w : List Entry) (tree : Tree) (key : Bytes) (value : Option Bytes) (x : Entry)
    → any (takes tree key value) w ≡ false
    → takes tree key value x ≡ true
    → sees w x ≡ false
unfolding sees find_value
sees-none [] tree key value x h p = ground arith
sees-none (e ∷ w) tree key value x h p = ground (
  arith,
  of_holds (Tree-discrete e.tree x.tree),
  of_holds (Bytes-discrete e.key x.key),
  of_holds (Bytes-discrete e.value x.value),
  entry_eq e x,
  of_holds (Tree-discrete x.tree e.tree),
  of_holds (Bytes-discrete x.key e.key),
  to_holds (Tree-discrete x.tree e.tree),
  to_holds (Bytes-discrete x.key e.key),
  sees-none w tree key value x,
)

has-find :
    (w : List Entry) (x : Entry) → find_value x.tree x.key w ≡ success x.value → sees w x ≡ true
unfolding sees is_value
has-find w x h =
    ground (arith, find-some x.tree x.key x.value w, to_holds (Bytes-discrete x.value x.value) refl)

find-has :
    (w : List Entry) (x : Entry)
    → x.tree.dup ≡ false
    → sees w x ≡ true
    → find_value x.tree x.key w ≡ success x.value
unfolding sees is_value
find-has w x d h = split (find_value x.tree x.key w) (ground arith)
  where
    split : (r : Reply Bytes) → is_value x.value r ≡ true → r ≡ success x.value
    split (success u) p = ap success (of_holds (Bytes-discrete u x.value) p)
    split not_found p = absurd (cc p)
    split failed p = absurd (cc p)

del_lem :
    (w t : List Entry) (tree : Tree) (key : Bytes) (value : Option Bytes)
    → memory.mdb_del w tree key value ≡ success t
    → t ≡ without tree key value w
del_lem w t tree key value h = ground arith

del_none :
    (w : List Entry) (tree : Tree) (key : Bytes) (value : Option Bytes)
    → memory.mdb_del w tree key value ≡ not_found
    → any (takes tree key value) w ≡ false
del_none w tree key value h = ground arith

pub memory-Documented : Documented memory
memory-Documented = record {
  has = sees;
  mdb_get_some =
      λ w tree key value d h. find-has w (record { tree = tree; key = key; value = value }) d h;
  mdb_get_has =
      λ w tree key value h. has-find w (record { tree = tree; key = key; value = value }) h;
  mdb_put_has = λ w t e x h.
      subst (λ t. sees t x ≡ (holds (Entry-discrete e x) || (not (clashes e x) && sees w x))) (cc h)
        (sees-put w e x);
  mdb_del_has = λ w t tree key value x h.
      subst (λ t. sees t x ≡ (not (takes tree key value x) && sees w x))
        (sym (del_lem w t tree key value h)) (sees-del w tree key value x);
  mdb_del_none =
      λ w tree key value x h p. sees-none w tree key value x (del_none w tree key value h) p;
}

pub has-empty : (x : Entry) → memory-Documented.has [] x ≡ false
unfolding memory-Documented sees find_value is_value
has-empty x = ground arith

pub sees-has : (w : List Entry) (x : Entry) → sees w x ≡ true → memory-Documented.has w x ≡ true
unfolding memory-Documented
sees-has w x h = h
