-- ===== src/Db/Query/Chosen.antt =====
-- The prefixes under which the iterator of a filter looks (db/src/db.rs), and what they do not tell.
use rnostr.Prelude.Order.{Bytes}
use rnostr.Prelude.{
  ℕ, ◌≡◌, refl, inl, inr, Bool, true, false, not, ◌&&◌, ◌||◌, List, [], ◌∷◌, ◌++◌, All, map,
  is_empty, if◌then◌else◌,
}
use rnostr.Db.Error.{Outcome, ok}
use rnostr.Db.Key.{concat, concat_sep, u16_to_ver}
use rnostr.Db.Filter.{Filter, SortList, is_some}
use rnostr.Db.MatchIndex.{MatchIndex}
use rnostr.Db.Query.Open.{
  Iter, pairs, new_time, new_kind, new_tag, new_author_kind, new_prefix, new_word, iter,
}
use rnostr.Db.Query.Keys.{Among}
use rnostr.Db.Query.Opened.{
  Opened, All-imp, new_time-Opened, new_kind-Opened, new_author_kind-Opened, new_prefix-Opened,
  new_word-Opened, new_tag-Opened,
}
use rnostr.Kv.Lmdb.{Tree}
use rnostr.Kv.Lmdb.Iter.{Cursor}
use rnostr.Kv.Lmdb.Moves.{Reads}
use rnostr.Db.Tables.{t_id, t_pubkey, t_kind, t_pubkey_kind, t_created_at, t_tag, t_word}

-- Each author with each kind.
abbrev pub author_kinds : List Bytes → List ℕ → List Bytes
author_kinds [] kinds = []
author_kinds (a ∷ authors) kinds =
    map (λ k. concat a (u16_to_ver k)) kinds ++ author_kinds authors kinds

abbrev pub tag_prefixes : List (Bytes × SortList Bytes) → List Bytes
tag_prefixes [] = []
tag_prefixes ((name, keys) ∷ tags) =
    map (λ key. concat_sep (concat_sep name key) []) keys ++ tag_prefixes tags

-- What the keys of the events that a filter asks for begin with, in the tree for the filter: by
-- whether it has a search, ids, tags, authors and kinds.
abbrev pub prefixes_by : Filter → Bool → Bool → Bool → Bool → Bool → List Bytes
prefixes_by f search ids tags authors kinds =
    if search
    then map (λ word. concat_sep word []) f.words
    else if ids
    then f.ids
    else if tags
    then tag_prefixes f.tags
    else if authors && kinds
    then author_kinds f.authors f.kinds
    else if authors
    then f.authors
    else if kinds
    then map u16_to_ver f.kinds
    else [] ∷ []

-- What is left to check of a filter that has other conditions than its prefixes.
abbrev pub left_by : Bool → Bool → Bool → Bool → Bool → MatchIndex
left_by search ids tags authors kinds =
    if search
    then (if ids || (tags || (authors || kinds)) then MatchIndex.all else MatchIndex.none)
    else if ids
    then (if tags || (authors || kinds) then MatchIndex.all else MatchIndex.none)
    else if tags && authors
    then MatchIndex.pubkey
    else MatchIndex.none

-- The tree for a filter.
abbrev pub tree_by : Bool → Bool → Bool → Bool → Bool → Tree
tree_by search ids tags authors kinds =
    if search
    then t_word
    else if ids
    then t_id
    else if tags
    then t_tag
    else if authors && kinds
    then t_pubkey_kind
    else if authors
    then t_pubkey
    else if kinds
    then t_kind
    else t_created_at

abbrev pub tree_of : Filter → Tree
tree_of f =
    tree_by (is_some f.search) (not (is_empty f.ids)) (not (is_empty f.tags))
      (not (is_empty f.authors)) (not (is_empty f.kinds))

abbrev pub prefixes : Filter → List Bytes
prefixes f =
    prefixes_by f (is_some f.search) (not (is_empty f.ids)) (not (is_empty f.tags))
      (not (is_empty f.authors)) (not (is_empty f.kinds))

abbrev pub left_to_check : Filter → MatchIndex
left_to_check f =
    left_by (is_some f.search) (not (is_empty f.ids)) (not (is_empty f.tags))
      (not (is_empty f.authors)) (not (is_empty f.kinds))

Among-append : (p : Bytes) (l m : List Bytes) → Among p m → Among p (l ++ m)
Among-append p [] m a = a
Among-append p (x ∷ l) m a = inr (Among-append p l m a)

Among-first : (p : Bytes) (l m : List Bytes) → Among p l → Among p (l ++ m)
Among-first p [] m a = absurd a
Among-first p (x ∷ l) m (inl e) = inl e
Among-first p (x ∷ l) m (inr a) = inr (Among-first p l m a)

All-Among-map {ℓ} :
    {X : Type ℓ} (g : X → Bytes) (xs : List X) → All (λ x. Among (g x) (map g xs)) xs
All-Among-map g [] = tt
All-Among-map g (x ∷ xs) = (inl refl, All-imp xs (λ y a. inr a) (All-Among-map g xs))

All-Among : (l : List Bytes) → All (λ p. Among p l) l
All-Among [] = tt
All-Among (x ∷ l) = (inl refl, All-imp l (λ y a. inr a) (All-Among l))

All-tag_prefixes :
    (tags : List (Bytes × SortList Bytes))
    → All
        (λ t. All (λ key. Among (concat_sep (concat_sep t.0 key) []) (tag_prefixes tags)) t.1)
        tags
All-tag_prefixes [] = tt
All-tag_prefixes ((name, keys) ∷ tags) = (
  All-imp keys (λ key a. Among-first _ (map (λ k. concat_sep (concat_sep name k) []) keys) _ a)
      (All-Among-map (λ k. concat_sep (concat_sep name k) []) keys),
  All-imp tags
      (λ t b.
        All-imp t.1
          (λ key a. Among-append _ (map (λ k. concat_sep (concat_sep name k) []) keys) _ a) b)
      (All-tag_prefixes tags),
)

module _ {ℓ κ} {A : Type ℓ} (P : A → Type κ) where
  All-append : (l m : List A) → All P l → All P m → All P (l ++ m)
  All-append [] m a b = b
  All-append (x ∷ l) m a b = (a.0, All-append l m a.1 b)

  All-of_map {ℓ'} : {X : Type ℓ'} (g : X → A) (l : List X) → All (λ x. P (g x)) l → All P (map g l)
  All-of_map g [] a = tt
  All-of_map g (x ∷ l) a = (a.0, All-of_map g l a.1)

module _ (C : Cursor) (steps : ℕ) {Txn : Type 0} (open_cursor : Txn → Tree → Outcome C.Cur) where
  All-pairs :
      (authors : List Bytes) (kinds : List ℕ)
      → All
          (λ p. Among (concat p.0 (u16_to_ver p.1)) (author_kinds authors kinds))
          (pairs C steps open_cursor authors kinds)
  unfolding pairs
  All-pairs [] kinds = tt
  All-pairs (a ∷ authors) kinds =
      let ones = map (λ k. concat a (u16_to_ver k)) kinds in
      All-append (λ p. Among (concat p.0 (u16_to_ver p.1)) (author_kinds (a ∷ authors) kinds))
        (map (λ kind. (a, kind)) kinds) (pairs C steps open_cursor authors kinds)
        (All-of_map (λ p. Among (concat p.0 (u16_to_ver p.1)) (author_kinds (a ∷ authors) kinds))
          (λ kind. (a, kind)) kinds
          (All-imp kinds (λ k b. Among-first _ ones _ b)
            (All-Among-map (λ k. concat a (u16_to_ver k)) kinds)))
        (All-imp (pairs C steps open_cursor authors kinds) (λ p b. Among-append _ ones _ b)
          (All-pairs authors kinds))

  pub iter-Opened :
      (reader : Txn) (f : Filter) (it : Iter C Txn) (reads : Tree → Reads C)
      → ((tree : Tree) (c : C.Cur) → open_cursor reader tree ≡ ok c → (reads tree).On c)
      → iter C steps open_cursor reader f ≡ ok it
      → Opened C steps open_cursor reader f (prefixes f) (reads (tree_of f)) (left_to_check f) it
  unfolding iter
  iter-Opened reader f it reads opens e =
      by_tree (is_some f.search) (not (is_empty f.ids)) (not (is_empty f.tags))
        (not (is_empty f.authors)) (not (is_empty f.kinds)) e
    where
      by_tree :
          (s i t a k : Bool)
          → (if s
              then new_word C steps open_cursor reader f t_word
                  (if i || (t || (a || k)) then MatchIndex.all else MatchIndex.none)
              else if i
              then new_prefix C steps open_cursor reader f f.ids t_id
                  (if t || (a || k) then MatchIndex.all else MatchIndex.none)
              else if t
              then new_tag C steps open_cursor reader f t_tag
                  (if a then MatchIndex.pubkey else MatchIndex.none)
              else if a && k
              then new_author_kind C steps open_cursor reader f t_pubkey_kind MatchIndex.none
              else if a
              then new_prefix C steps open_cursor reader f f.authors t_pubkey MatchIndex.none
              else if k
              then new_kind C steps open_cursor reader f t_kind MatchIndex.none
              else new_time C steps open_cursor reader f t_created_at MatchIndex.none)
            ≡ ok it
          → Opened C steps open_cursor reader f
              (prefixes_by f s i t a k)
              (reads (tree_by s i t a k))
              (left_by s i t a k)
              it
      by_tree true i t a k q =
          new_word-Opened C steps open_cursor reader f _ (reads t_word) t_word _ it (opens t_word)
            (All-Among-map (λ word. concat_sep word []) f.words) q
      by_tree false true t a k q =
          new_prefix-Opened C steps open_cursor reader f f.ids (reads t_id) f.ids t_id _ it
            (opens t_id) (All-Among f.ids) q
      by_tree false false true true k q =
          new_tag-Opened C steps open_cursor reader f _ (reads t_tag) t_tag _ it (opens t_tag)
            (All-tag_prefixes f.tags) q
      by_tree false false true false k q =
          new_tag-Opened C steps open_cursor reader f _ (reads t_tag) t_tag _ it (opens t_tag)
            (All-tag_prefixes f.tags) q
      by_tree false false false true true q =
          new_author_kind-Opened C steps open_cursor reader f _ (reads t_pubkey_kind) t_pubkey_kind
            _ it (opens t_pubkey_kind) (All-pairs f.authors f.kinds) q
      by_tree false false false true false q =
          new_prefix-Opened C steps open_cursor reader f f.authors (reads t_pubkey) f.authors
            t_pubkey _ it (opens t_pubkey) (All-Among f.authors) q
      by_tree false false false false true q =
          new_kind-Opened C steps open_cursor reader f _ (reads t_kind) t_kind _ it (opens t_kind)
            (All-Among-map u16_to_ver f.kinds) q
      by_tree false false false false false q =
          new_time-Opened C steps open_cursor reader f ([] ∷ []) (reads t_created_at) t_created_at _
            it (opens t_created_at) (inl refl) q
