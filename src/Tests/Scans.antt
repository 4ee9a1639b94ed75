-- ===== src/Tests/Scans.antt =====
-- Scanners over lists of times, and the theorems on groups and ranges applied to them.
use rnostr.Prelude.{
  zero, suc, any, subst, get_elem?, Ordering, ◌==◌, ℕ, ◌+◌, ◌<◌, ◌≡◌, refl, Bool, true, false,
  Option, none, some, List, [], ◌∷◌, All, ltb, if◌then◌else◌, arith,
}
use rnostr.Db.Error.{Outcome, ok}
use rnostr.Kv.Lmdb.{success, not_found}
use rnostr.Kv.Lmdb.Iter.{Cursor, CursorOp, Item}
use rnostr.Kv.Scanner.{TimeKey, IsOrder, default_cmp, default_cmp-IsOrder, cmp_keys}
use rnostr.Kv.Scanner.Groups.{GroupItem, Group, next_or, next_and}
use rnostr.Kv.Scanner.Sorted.{Before, IsSorted}
use rnostr.Kv.Scanner.Merged.{IsOrdered, next_or-Before}
use rnostr.Kv.Scanner.Common.{GivesOf, IsShared, next_and-Common}
use rnostr.Kv.Scanner.Scan.{Scanner, MatchResult, found, next_inner, stop}
use rnostr.Kv.Scanner.Range.{InRange, next_inner-InRange}

abbrev times : TimeKey ℕ
times = record { time = λ k. k; cmp = default_cmp (λ k. k); change_time = λ k key t. ok (t ∷ []) }

times-IsOrder : IsOrder times.cmp
times-IsOrder = default_cmp-IsOrder (λ k. k)

abbrev give_time : List ℕ → Option (Outcome ℕ) × List ℕ
give_time [] = (none, [])
give_time (t ∷ ts) = (some (ok t), ts)

abbrev listed : GroupItem (List ℕ) ℕ
listed = record { scan_next = give_time; cur_times = λ s. 1; set_watcher = λ w s. s }

abbrev two_scanners : Bool → Group (List ℕ) ℕ
two_scanners both = record {
  onlyone = none;
  items = (3 ∷ 8 ∷ []) ∷ (6 ∷ []) ∷ [];
  founds = (0, 2) ∷ (1, 1) ∷ [];
  reverse = false;
  scan_times = 2;
  cur_times = 0;
  both = both;
  done = false;
  dup = false;
  watcher = none;
}

two-IsSorted : IsSorted times false (two_scanners false).founds
unfolding cmp_keys default_cmp
two-IsSorted = ((λ h. cc h, tt), (tt, tt))

abbrev after_one : Group (List ℕ) ℕ
unfolding next_or default_cmp cmp_keys
after_one = (next_or times listed (two_scanners false)).1

one_next : next_or times listed (two_scanners false) ≡ (ok (some 1), after_one)
unfolding next_or default_cmp cmp_keys
one_next = refl

next_or-Before_example :
    All (λ p. Before times false p.1 1) (two_scanners false).founds
    × IsOrdered times times-IsOrder listed after_one
next_or-Before_example =
    next_or-Before times times-IsOrder listed (two_scanners false) after_one 1 refl two-IsSorted
      one_next

-- Two scanners that have the time 3 in common.
abbrev meeting : Group (List ℕ) ℕ
meeting = record (two_scanners true) { items = (3 ∷ 8 ∷ []) ∷ (3 ∷ []) ∷ [] }

abbrev times_of : ℕ → List ℕ
times_of zero = 2 ∷ 3 ∷ 8 ∷ []
times_of (suc i) = 1 ∷ 3 ∷ []

abbrev TimeOf : ℕ → ℕ → Type 0
TimeOf i t = any (λ x. x == t) (times_of i) ≡ true

abbrev TimesOf : ℕ → List ℕ → Type 0
TimesOf i s = All (TimeOf i) s

gives_times :
    (i : ℕ) (s : List ℕ) → TimesOf i s → GivesOf times listed TimesOf TimeOf i (give_time s)
gives_times i [] h = (tt, λ key e. absurd (cc e))
gives_times i (t ∷ ts) h = (h.1, λ key e. let same : t ≡ key = cc e in subst (TimeOf i) same h.0)

meeting-IsShared : IsShared times listed TimesOf TimeOf 2 meeting
meeting-IsShared = record { scans = scans; keys = (refl, (refl, tt)); covers = covers }
  where
    scans : (i : ℕ) (s : List ℕ) → get_elem? meeting.items i ≡ some s → TimesOf i s
    scans zero s e = let same : 3 ∷ 8 ∷ [] ≡ s = cc e in subst (TimesOf 0) same (refl, (refl, tt))
    scans (suc zero) s e = let same : 3 ∷ [] ≡ s = cc e in subst (TimesOf 1) same (refl, tt)
    scans (suc (suc i)) s e = absurd (cc e)

    covers : (j : ℕ) → j < 2 → any (λ p. p.0 == j) meeting.founds ≡ true
    covers zero lt = refl
    covers (suc zero) lt = refl
    covers (suc (suc j)) lt = absurd (omega arith)

abbrev after_meeting : Group (List ℕ) ℕ
unfolding next_and default_cmp cmp_keys
after_meeting = elim (next_and times listed 9 meeting) [ none ↦ meeting | some (r, g) ↦ g ]

meeting_next : next_and times listed 9 meeting ≡ some (ok (some 3), after_meeting)
unfolding next_and default_cmp cmp_keys
meeting_next = refl

next_and-Common_example : (k : ℕ) × TimeOf 1 k × (times.cmp k 3 ≡ Ordering.eq)
next_and-Common_example =
    next_and-Common times listed TimesOf TimeOf 2 times-IsOrder gives_times 9 meeting after_meeting
      3 1 (omega arith) meeting-IsShared meeting_next

-- A cursor that counts: the keys 0, 1 and so on below 5.
abbrev counting : Cursor
counting = record {
  Cur = ℕ;
  mdb_cursor_get = λ c op key. if ltb c 5 then (success (c ∷ [], []), c + 1) else (not_found, c);
}

abbrev first_byte : Scanner ℕ → Item → Outcome (MatchResult ℕ)
first_byte s item = elim item.0 [ [] ↦ ok stop | b ∷ _ ↦ ok (found b) ]

abbrev from_two : Scanner ℕ
from_two = record {
  inner = record {
    error = none;
    inner = some 0;
    rev = false;
    op = CursorOp.first;
    next_op = CursorOp.next;
    dup = true;
  };
  prefix = [];
  key = [];
  reverse = false;
  since = some 2;
  until = some 4;
  times = 0;
  cur_times = 0;
}

abbrev scanned : Scanner ℕ
unfolding next_inner
scanned = elim (next_inner times counting first_byte 9 from_two) [
  | none ↦ from_two
  | some (r, t) ↦ t
]

scan_two : next_inner times counting first_byte 9 from_two ≡ some (ok (some 2), scanned)
unfolding next_inner
scan_two = refl

next_inner-InRange_example : InRange times counting first_byte from_two 2
next_inner-InRange_example =
    next_inner-InRange times counting first_byte 9 from_two scanned 2 scan_two
