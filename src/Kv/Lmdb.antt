-- ===== src/Kv/Lmdb.antt =====
-- kv/src/lmdb.rs: reads and writes of a transaction. The C library is a parameter.
pub mod Writes
pub mod Moves
pub mod Cursors
pub mod Iter
use rnostr.Prelude.Order.{Bytes, Bytes-discrete}
use rnostr.Prelude.{
  ℕ, ◌≡◌, Bool, true, false, not, ◌&&◌, ◌||◌, Option, none, some, List, [], ◌∷◌, holds, ℕ_discrete,
}
use mathlib.Core.Bool.{Bool-discrete}
use rnostr.Db.Error.{Outcome, ok, err, panicked, kv}

-- The handle of a tree, and whether a key of it may have several values (`MDB_DUPSORT`).
pub record Tree : Type 0 where
  pub inner : ℕ
  pub dup : Bool

-- What a call of the C library gives back: success, `MDB_NOTFOUND`, or another code.
pub data Reply (A : Type 0) : Type 0 where
  success : A → Reply A
  not_found failed : Reply A

-- `mdb_get`, `mdb_put` and `mdb_del` in a transaction. A value that is deleted may be named.
pub record Ffi : Type 1 where
  pub Txn : Type 0
  pub mdb_get : Txn → Tree → Bytes → Reply Bytes
  pub mdb_put : Txn → Tree → Bytes → Bytes → Reply Txn
  pub mdb_del : Txn → Tree → Bytes → Option Bytes → Reply Txn

-- Code that works on a transaction: what it changed stays changed where it fails.
abbrev pub Act : Type 0 → Type 0 → Type 0
Act W A = W → Outcome A × W

module _ {W : Type 0} where
  abbrev pub pure : {A : Type 0} → A → Act W A
  pure a w = (ok a, w)

  abbrev pub lift : {A : Type 0} → Outcome A → Act W A
  lift r w = (r, w)

  abbrev pub next : {A B : Type 0} → Outcome A × W → (A → Act W B) → Outcome B × W
  next (ok a, w) f = f a w
  next (err x, w) f = (err x, w)
  next (panicked, w) f = (panicked, w)

  infixl 5 ◌>>=◌
  abbrev pub ◌>>=◌ : {A B : Type 0} → Act W A → (A → Act W B) → Act W B
  (m >>= f) w = next (m w) f

module _ (ffi : Ffi) where
  unfoldable pub get : Tree → Bytes → Act ffi.Txn (Option Bytes)
  get tree key w = elim (ffi.mdb_get w tree key) [
    | success v ↦ (ok (some v), w)
    | not_found ↦ (ok none, w)
    | failed ↦ (err kv, w)
  ]

  unfoldable pub put : Tree → Bytes → Bytes → Act ffi.Txn (Unit {0})
  put tree key value w = elim (ffi.mdb_put w tree key value) [
    | success t ↦ (ok tt, t)
    | not_found ↦ (err kv, w)
    | failed ↦ (err kv, w)
  ]

  -- What is not there is deleted already.
  unfoldable pub del : Tree → Bytes → Option Bytes → Act ffi.Txn (Unit {0})
  del tree key value w = elim (ffi.mdb_del w tree key value) [
    | success t ↦ (ok tt, t)
    | not_found ↦ (ok tt, w)
    | failed ↦ (err kv, w)
  ]

pub record Entry : Type 0 where
  pub tree : Tree
  pub key : Bytes
  pub value : Bytes

unfoldable pub Tree-discrete : Discrete Tree
Tree-discrete = hlevel (ℕ_discrete, Bool-discrete)

unfoldable pub Entry-discrete : Discrete Entry
Entry-discrete = hlevel (Tree-discrete, Bytes-discrete)

-- A key of a tree without duplicates holds one value: writing the first entry takes the second away.
abbrev pub clashes : Entry → Entry → Bool
clashes e x =
    not e.tree.dup && (holds (Tree-discrete e.tree x.tree) && holds (Bytes-discrete e.key x.key))

-- A deletion takes the entry away: of the named value in a tree with duplicates, else of the key.
abbrev pub takes : Tree → Bytes → Option Bytes → Entry → Bool
takes tree key value x =
    holds (Tree-discrete tree x.tree)
    && (holds (Bytes-discrete key x.key)
        && (elim value [ none ↦ true | some v ↦ not tree.dup || holds (Bytes-discrete v x.value) ]))

-- The documented behaviour of the library: `has` tells which entries a transaction sees.
pub record Documented (ffi : Ffi) : Type 0 where
  pub has : ffi.Txn → Entry → Bool
  pub mdb_get_some :
      (w : ffi.Txn) (tree : Tree) (key value : Bytes)
      → tree.dup ≡ false
      → has w (record { tree = tree; key = key; value = value }) ≡ true
      → ffi.mdb_get w tree key ≡ success value
  pub mdb_get_has :
      (w : ffi.Txn) (tree : Tree) (key value : Bytes)
      → ffi.mdb_get w tree key ≡ success value
      → has w (record { tree = tree; key = key; value = value }) ≡ true
  pub mdb_put_has :
      (w t : ffi.Txn) (e x : Entry)
      → ffi.mdb_put w e.tree e.key e.value ≡ success t
      → has t x ≡ (holds (Entry-discrete e x) || (not (clashes e x) && has w x))
  pub mdb_del_has :
      (w t : ffi.Txn) (tree : Tree) (key : Bytes) (value : Option Bytes) (x : Entry)
      → ffi.mdb_del w tree key value ≡ success t
      → has t x ≡ (not (takes tree key value x) && has w x)
  pub mdb_del_none :
      (w : ffi.Txn) (tree : Tree) (key : Bytes) (value : Option Bytes) (x : Entry)
      → ffi.mdb_del w tree key value ≡ not_found
      → takes tree key value x ≡ true
      → has w x ≡ false
