-- ===== src/Tests/Ranges.antt =====
-- Bounds of key ranges, and the theorem about them applied.
use rnostr.Prelude.{◌≡◌, refl, some, [], ◌∷◌, arith}
use rnostr.Db.Store.{upper}
use rnostr.Db.Store.Ranges.{Bounds, upper-Bounds}

upper-end : upper (7 ∷ 255 ∷ []) ≡ some (8 ∷ [])
unfolding upper
upper-end = refl

upper-Bounds_example : Bounds (7 ∷ 255 ∷ []) (7 ∷ 255 ∷ 3 ∷ []) (upper (7 ∷ 255 ∷ []))
upper-Bounds_example =
    upper-Bounds (7 ∷ 255 ∷ []) (7 ∷ 255 ∷ 3 ∷ []) (omega arith, (omega arith, tt))
      (omega arith, (omega arith, (omega arith, tt)))
