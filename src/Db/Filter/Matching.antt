-- ===== src/Db/Filter/Matching.antt =====
-- `Filter::match` (db/src/filter.rs) against what a filter says.
use rnostr.Prelude.Order.{Bytes, Bytes-discrete, bytes_ord, nat_ord}
use rnostr.Prelude.Maps.{Map, get, Distinct, all-get, get-all}
use rnostr.Prelude.{
  ℕ, ◌≤◌, ◌≡◌, refl, sym, ◌∙◌, ◌↔◌, ◌⊎◌, inl, inr, true, ◌&&◌, Option, none, some, List, [], ◌∷◌,
  get_elem?, all, has, any-some, any_of_get, ℕ_discrete, arith,
}
use rnostr.Std.Sort.{IsStrict}
use rnostr.Std.Text.{text_eq}
use rnostr.Db.Event.{EventIndex}
use rnostr.Db.Filter.Lists.{contains-has}
use rnostr.Db.Filter.{
  SortList, Filter, contains, match_id, match_author, match_kind, tag_contains, match_tag,
  match_since, match_until, match_except_tag, match,
}

abbrev pub Member : Bytes → List Bytes → Type 0
Member a l = has Bytes-discrete a l ≡ true

-- The lists are made by `SortList::from`, and no tag stands twice.
pub record IsWellFormed (f : Filter) : Type 0 where
  pub ids : IsStrict f.ids
  pub authors : IsStrict f.authors
  pub kinds : IsStrict f.kinds
  pub tags : Distinct Bytes-discrete f.tags
  pub values :
      (k : Bytes) (vs : SortList Bytes) → get Bytes-discrete k f.tags ≡ some vs → IsStrict vs

-- A tag of the event has the name and one of the values.
abbrev pub Tagged : List (Bytes × Bytes) → Bytes → List Bytes → Type 0
Tagged tags k vs = (i : ℕ) × (v : Bytes) × (get_elem? tags i ≡ some (k, v)) × Member v vs

-- What a filter asks of an event: each condition that it has, an empty list being none.
pub record Selects (f : Filter) (e : EventIndex) : Type 0 where
  pub id : (f.ids ≡ []) ⊎ Member e.id f.ids
  pub since : (t : ℕ) → f.since ≡ some t → t ≤ e.created_at
  pub until : (t : ℕ) → f.until ≡ some t → e.created_at ≤ t
  pub kind : (f.kinds ≡ []) ⊎ (has ℕ_discrete e.kind f.kinds ≡ true)
  pub author :
      (f.authors ≡ [])
      ⊎ Member e.pubkey f.authors
      ⊎ ((d : Bytes) × (e.delegator ≡ some d) × Member d f.authors)
  pub tags :
      (k : Bytes) (vs : SortList Bytes) → get Bytes-discrete k f.tags ≡ some vs → Tagged e.tags k vs

match_id_iff :
    (ids : List Bytes) (id : Bytes)
    → IsStrict ids
    → (match_id ids id ≡ true) ↔ ((ids ≡ []) ⊎ Member id ids)
unfolding match_id
match_id_iff [] id s = ground arith
match_id_iff (x ∷ ids) id s = ground (arith, contains-has Bytes-discrete (x ∷ ids) id s)

match_kind_iff :
    (kinds : List ℕ) (kind : ℕ)
    → IsStrict kinds
    → (match_kind kinds kind ≡ true) ↔ ((kinds ≡ []) ⊎ (has ℕ_discrete kind kinds ≡ true))
unfolding match_kind
match_kind_iff [] kind s = ground arith
match_kind_iff (x ∷ kinds) kind s = ground (arith, contains-has ℕ_discrete (x ∷ kinds) kind s)

abbrev IsAuthor : List Bytes → Bytes → Option Bytes → Type 0
IsAuthor authors pubkey delegator =
    (authors ≡ []) ⊎ Member pubkey authors ⊎ ((d : Bytes) × (delegator ≡ some d) × Member d authors)

match_author→ :
    (authors : List Bytes) (pubkey : Bytes) (delegator : Option Bytes)
    → IsStrict authors
    → match_author authors pubkey delegator ≡ true
    → IsAuthor authors pubkey delegator
unfolding match_author
match_author→ [] pubkey delegator s h = inl refl
match_author→ (x ∷ authors) pubkey none s h = ground (arith, match_id_iff (x ∷ authors) pubkey s)
match_author→ (x ∷ authors) pubkey (some d) s h = elim (or_cases h) [
  | inl p ↦ inr (inl (ground (arith, contains-has Bytes-discrete (x ∷ authors) pubkey s)))
  | inr p ↦ inr (inr (d, refl, ground (arith, contains-has Bytes-discrete (x ∷ authors) d s)))
]
  where
    or_cases :
        match_author (x ∷ authors) pubkey (some d) ≡ true
        → (match_id (x ∷ authors) pubkey ≡ true) ⊎ (match_id (x ∷ authors) d ≡ true)
    or_cases k = ground arith

match_author← :
    (authors : List Bytes) (pubkey : Bytes) (delegator : Option Bytes)
    → IsStrict authors
    → IsAuthor authors pubkey delegator
    → match_author authors pubkey delegator ≡ true
unfolding match_author
match_author← authors pubkey delegator s (inl e) = ground arith
match_author← authors pubkey delegator s (inr (inl m)) =
    ground (arith, match_id_iff authors pubkey s)
match_author← authors pubkey delegator s (inr (inr (d, e, m))) =
    ground (arith, match_id_iff authors d s)

pub match_tag-all :
    (tags : Map Bytes (SortList Bytes)) (event_tags : List (Bytes × Bytes))
    → match_tag tags event_tags ≡ all (λ tag. tag_contains event_tags tag.0 tag.1) tags
unfolding match_tag
match_tag-all [] event_tags = refl
match_tag-all (t ∷ tags) [] = refl
match_tag-all (t ∷ tags) (e ∷ event_tags) = refl

tag_contains→ :
    (event_tags : List (Bytes × Bytes)) (k : Bytes) (vs : SortList Bytes)
    → IsStrict vs
    → tag_contains event_tags k vs ≡ true
    → Tagged event_tags k vs
unfolding tag_contains
tag_contains→ event_tags k vs s h =
    let ((name, v), i, g, q) =
      any-some (λ tag. text_eq tag.0 k && contains vs tag.1) event_tags h in
    (i, v, ground arith, ground (arith, contains-has Bytes-discrete vs v s))

tag_contains← :
    (event_tags : List (Bytes × Bytes)) (k : Bytes) (vs : SortList Bytes)
    → IsStrict vs
    → Tagged event_tags k vs
    → tag_contains event_tags k vs ≡ true
unfolding tag_contains
tag_contains← event_tags k vs s (i, v, g, m) =
    any_of_get (λ tag. text_eq tag.0 k && contains vs tag.1) event_tags i (k, v) g
      (ground (arith, contains-has Bytes-discrete vs v s))

match_parts :
    (f : Filter) (e : EventIndex)
    → (match f e ≡ true) ↔ (
        (match_id f.ids e.id ≡ true)
        × (match_since f.since e.created_at ≡ true)
        × (match_until f.until e.created_at ≡ true)
        × (match_kind f.kinds e.kind ≡ true)
        × (match_author f.authors e.pubkey e.delegator ≡ true)
        × (match_tag f.tags e.tags ≡ true))
unfolding match match_except_tag
match_parts f e = ground arith

match-Selects : (f : Filter) (e : EventIndex) → IsWellFormed f → match f e ≡ true → Selects f e
match-Selects f e w h =
    let (id, since, until, kind, author, tags) = (match_parts f e).0 h in
    record {
      id = (match_id_iff f.ids e.id w.ids).0 id;
      since = λ t q. unfold match_since in ground arith;
      until = λ t q. unfold match_until in ground arith;
      kind = (match_kind_iff f.kinds e.kind w.kinds).0 kind;
      author = match_author→ f.authors e.pubkey e.delegator w.authors author;
      tags = λ k vs g. tag_contains→ e.tags k vs (w.values k vs g) (
          all-get Bytes-discrete (λ tag. tag_contains e.tags tag.0 tag.1) f.tags k vs
            (sym (match_tag-all f.tags e.tags) ∙ tags) g);
    }

since_true :
    (since : Option ℕ) (t : ℕ) → ((s : ℕ) → since ≡ some s → s ≤ t) → match_since since t ≡ true
unfolding match_since
since_true none t h = refl
since_true (some s) t h = ground (arith, h s refl)

until_true :
    (until : Option ℕ) (t : ℕ) → ((s : ℕ) → until ≡ some s → t ≤ s) → match_until until t ≡ true
unfolding match_until
until_true none t h = refl
until_true (some s) t h = ground (arith, h s refl)

Selects-match : (f : Filter) (e : EventIndex) → IsWellFormed f → Selects f e → match f e ≡ true
Selects-match f e w s = (match_parts f e).1 (
  (match_id_iff f.ids e.id w.ids).1 s.id,
  since_true f.since e.created_at s.since,
  until_true f.until e.created_at s.until,
  (match_kind_iff f.kinds e.kind w.kinds).1 s.kind,
  match_author← f.authors e.pubkey e.delegator w.authors s.author,
  match_tag-all f.tags e.tags
      ∙ get-all Bytes-discrete (λ tag. tag_contains e.tags tag.0 tag.1) f.tags w.tags
          (λ k vs g. tag_contains← e.tags k vs (w.values k vs g) (s.tags k vs g)),
)

-- A well-formed filter matches exactly the events that meet its conditions: the id, the kind and
-- the author (or the delegator) in the lists that are not empty, the time within the bounds
-- that are set, and for every tag of the filter a tag of the event with one of its values.
pub match_iff : (f : Filter) (e : EventIndex) → IsWellFormed f → (match f e ≡ true) ↔ Selects f e
match_iff f e w = (match-Selects f e w, Selects-match f e w)
