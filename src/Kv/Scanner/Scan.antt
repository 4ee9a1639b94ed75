-- ===== src/Kv/Scanner/Scan.antt =====
-- kv/src/scanner.rs: a scanner over a range of a tree, by the time of its keys.
use rnostr.Prelude.Order.{Bytes}
use rnostr.Prelude.{
  ℕ, zero, suc, ◌+◌, ◌%◌, Bool, true, false, Option, none, some, ltb, if◌then◌else◌,
}
use rnostr.Std.Words.{u64_mod}
use rnostr.Db.Error.{Outcome, ok, err, panicked}
use rnostr.Kv.Lmdb.Iter.{Cursor, Item, Bound, included, excluded, Iter, seek, iter_next}
use rnostr.Kv.Scanner.{TimeKey}

pub data MatchResult (K : Type 0) : Type 0 where
  continue stop : MatchResult K
  found : K → MatchResult K

pub record Scanner (Cur : Type 0) : Type 0 where
  pub inner : Iter Cur
  pub prefix : Bytes
  pub key : Bytes
  pub reverse : Bool
  pub since : Option ℕ
  pub until : Option ℕ
  pub times : ℕ
  pub cur_times : ℕ

unfoldable pub new_scanner :
    {Cur : Type 0} → Iter Cur → Bytes → Bytes → Bool → Option ℕ → Option ℕ → Scanner Cur
new_scanner iter key prefix reverse since until = record {
  inner = iter;
  prefix = prefix;
  key = key;
  reverse = reverse;
  since = since;
  until = until;
  times = 0;
  cur_times = 0;
}

abbrev pub below : ℕ → Option ℕ → Bool
below t none = false
below t (some bound) = ltb t bound

abbrev pub above : ℕ → Option ℕ → Bool
above t none = false
above t (some bound) = ltb bound t

abbrev pub bound_of : Option ℕ → ℕ
bound_of none = 0
bound_of (some bound) = bound

-- `u64::MAX`.
abbrev pub u64_max : ℕ
u64_max = 18_446_744_073_709_551_615

module _ {K : Type 0} (tk : TimeKey K) (C : Cursor)
    (matcher : Scanner C.Cur → Item → Outcome (MatchResult K)) where
  abbrev place : (Bytes → Bound) → Outcome Bytes → Outcome Bound
  place bound (ok key) = ok (bound key)
  place bound (err x) = err x
  place bound panicked = panicked

  -- The check of a found key's time: none, or the place from which to go on.
  unfoldable pub time_check : Bool → Option ℕ → Option ℕ → K → Bytes → Option (Outcome Bound)
  time_check true since until key item_key =
      let t = tk.time key in
      if above t until
      then some (place included (tk.change_time key item_key (bound_of until)))
      else if below t since
      then some (place excluded (tk.change_time key item_key 0))
      else none
  time_check false since until key item_key =
      let t = tk.time key in
      if below t since
      then some (place included (tk.change_time key item_key (bound_of since)))
      else if above t until
      then some (place excluded (tk.change_time key item_key u64_max))
      else none

  abbrev jump : Bound → Scanner C.Cur → Scanner C.Cur
  jump from s = record s { inner = seek C from s.reverse s.inner }

  -- What one round of the loop comes to: an answer, or the scanner to go on with.
  unfoldable pub found_key :
      Scanner C.Cur → Bytes → Outcome (MatchResult K) → Option (Outcome (Option K)) × Scanner C.Cur
  unfolding time_check seek
  found_key s item_key (ok continue) = (none, s)
  found_key s item_key (ok stop) = (some (ok none), s)
  found_key s item_key (ok (found key)) = elim (time_check s.reverse s.since s.until key item_key) [
    | none ↦ (some (ok (some key)), s)
    | some (ok from) ↦ (none, jump from s)
    | some (err x) ↦ (some (err x), s)
    | some panicked ↦ (some panicked, s)
  ]
  found_key s item_key (err x) = (some (err x), s)
  found_key s item_key panicked = (some panicked, s)

  unfoldable pub read_item :
      Scanner C.Cur → Option (Outcome Item) → Option (Outcome (Option K)) × Scanner C.Cur
  unfolding found_key
  read_item s none = (some (ok none), s)
  read_item s (some (ok (key, value))) = found_key s key (matcher s (key, value))
  read_item s (some (err x)) = (some (err x), s)
  read_item s (some panicked) = (some panicked, s)

  unfoldable pub scan_round : Scanner C.Cur → Option (Outcome (Option K)) × Scanner C.Cur
  unfolding read_item iter_next
  scan_round s =
      let (item, iter) = iter_next C s.inner in
      read_item
        (record s {
          inner = iter;
          times = (s.times + 1) % u64_mod;
          cur_times = (s.cur_times + 1) % u64_mod;
        })
        item

  -- The loop of `next_inner` on fuel; none is out of fuel.
  unfoldable pub scan_loop : ℕ → Scanner C.Cur → Option (Outcome (Option K) × Scanner C.Cur)
  unfolding scan_round
  scan_loop zero s = none
  scan_loop (suc fuel) s =
      let (answer, t) = scan_round s in
      let rest = scan_loop fuel t in elim answer [ none ↦ rest | some r ↦ some (r, t) ]

  unfoldable pub next_inner : ℕ → Scanner C.Cur → Option (Outcome (Option K) × Scanner C.Cur)
  unfolding scan_loop
  next_inner fuel s = scan_loop fuel (record s { cur_times = 0 })
