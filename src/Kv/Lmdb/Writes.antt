-- ===== src/Kv/Lmdb/Writes.antt =====
-- Runs of writes to the trees (kv/src/lmdb.rs), and what they leave.
use rnostr.Prelude.{◌≡◌, refl, true, false, not, ◌&&◌, ◌||◌, List, [], ◌∷◌, All, any, holds, arith}
use rnostr.Db.Error.{Outcome, ok, err, panicked}
use rnostr.Kv.Lmdb.{
  Reply, success, not_found, failed, Ffi, Act, pure, next, put, Entry, Entry-discrete, clashes,
  Documented,
}

-- Code that ends well went on from a first part that ended well.
pub next-eq-ok :
    {W A B : Type 0} (m : Outcome A × W) (f : A → Act W B) {b : B} {t : W}
    → next m f ≡ (ok b, t)
    → (a : A) × (w : W) × (m ≡ (ok a, w)) × (f a w ≡ (ok b, t))
next-eq-ok (ok a, w) f h = (a, w, refl, h)
next-eq-ok (err x, w) f h = absurd cc
next-eq-ok (panicked, w) f h = absurd cc

module _ (ffi : Ffi) where
  -- Writes that follow one another, each after the success of the last.
  unfoldable pub puts : List Entry → Act ffi.Txn (Unit {0})
  unfolding put
  puts [] w = pure tt w
  puts (e ∷ es) w = next (put ffi e.tree e.key e.value w) (λ _. puts es)

  module _ (doc : Documented ffi) where
    pub put-has :
        (w t : ffi.Txn) (e x : Entry) (u : Unit {0})
        → put ffi e.tree e.key e.value w ≡ (ok u, t)
        → doc.has t x ≡ (holds (Entry-discrete e x) || (not (clashes e x) && doc.has w x))
    unfolding put
    put-has w t e x u h = written (ffi.mdb_put w e.tree e.key e.value) refl
      where
        written :
            (r : Reply ffi.Txn)
            → ffi.mdb_put w e.tree e.key e.value ≡ r
            → doc.has t x ≡ (holds (Entry-discrete e x) || (not (clashes e x) && doc.has w x))
        written (success s) p = doc.mdb_put_has w t e x (ground arith)
        written not_found p = absurd (ground arith)
        written failed p = absurd (ground arith)

    pub put_self :
        (w t : ffi.Txn) (e : Entry) (u : Unit {0})
        → put ffi e.tree e.key e.value w ≡ (ok u, t)
        → doc.has t e ≡ true
    put_self w t e u h = ground (arith, put-has w t e e u h)

    -- An entry outlives writes that do not clash with it.
    pub puts-keeps :
        (es : List Entry) (w t : ffi.Txn) (x : Entry) (u : Unit {0})
        → All (λ e. clashes e x ≡ false) es
        → puts es w ≡ (ok u, t)
        → doc.has w x ≡ true
        → doc.has t x ≡ true
    unfolding puts
    puts-keeps [] w t x u a h p = ground arith
    puts-keeps (e ∷ es) w t x u a h p =
        let (v, s, q, r) = next-eq-ok (put ffi e.tree e.key e.value w) _ h in
        puts-keeps es s t x u a.1 r (ground (arith, put-has w s e x v q, a.0))

    -- What is there after some writes was written, or was there.
    pub puts-from :
        (es : List Entry) (w t : ffi.Txn) (x : Entry) (u : Unit {0})
        → puts es w ≡ (ok u, t)
        → doc.has t x ≡ true
        → (any (λ e. holds (Entry-discrete e x)) es || doc.has w x) ≡ true
    unfolding puts
    puts-from [] w t x u h p = ground arith
    puts-from (e ∷ es) w t x u h p =
        let (v, s, q, r) = next-eq-ok (put ffi e.tree e.key e.value w) _ h in
        ground (arith, put-has w s e x v q, puts-from es s t x u r p)
