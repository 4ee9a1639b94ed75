-- ===== src/Tests/Keys.antt =====
-- Keys of the index trees, and the theorems about them applied.
use rnostr.Prelude.{◌≡◌, [], ◌∷◌, ◌++◌, compare, arith}
use rnostr.Prelude.Order.{Bytes, cmp_bytes}
use rnostr.Std.Text.{codes}
use rnostr.Std.Words.{to_be, length-to_be}
use rnostr.Db.Error.{ok}
use rnostr.Db.Key.{from, u64_to_ver, change_time}
use rnostr.Db.Key.Laws.{Maker, make, from-make, make_order}
use rnostr.Db.Key.Replace.{ReplaceOutcome, decode-encode_replace_key}

from-make_example :
    from (make (Maker.by_tag (codes "t") (codes "nostr")) 1_000) (u64_to_ver 7 ++ codes "rest")
    ≡ ok (record { time = 1_000; uid = 7 })
from-make_example =
    from-make (Maker.by_tag (codes "t") (codes "nostr")) 1_000 7 (codes "rest") (omega arith)
      (omega arith)

make_order_example :
    (cmp_bytes (make (Maker.by_kind 1) 5) (make (Maker.by_kind 1) 300) ≡ compare 5 300)
    × (change_time (make (Maker.by_kind 1) 5) 300 ≡ ok (make (Maker.by_kind 1) 300))
make_order_example = make_order (Maker.by_kind 1) 5 300 (omega arith) (omega arith)

abbrev author : Bytes
author = to_be 32 99

decode-encode_replace_key_example :
    ReplaceOutcome 30_023 author ((codes "d" ∷ codes "post" ∷ []) ∷ []) 1_700_000_000
decode-encode_replace_key_example =
    decode-encode_replace_key 30_023 author ((codes "d" ∷ codes "post" ∷ []) ∷ []) 1_700_000_000
      (length-to_be 32 99) (omega arith) (omega arith)
