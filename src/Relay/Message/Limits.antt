-- ===== src/Relay/Message/Limits.antt =====
-- What a message keeps to when it has passed `validate` (relay/src/message.rs).
use rnostr.Prelude.Order.{Bytes}
use rnostr.Prelude.{
  ℕ, ◌≤◌, ◌≡◌, refl, sym, subst, inl, inr, some, List, [], ◌∷◌, length, All, Option-cases, arith,
}
use rnostr.Db.Error.{ok, ◌>>=◌, >>=-eq-ok, ok-injective}
use rnostr.Db.Filter.{Filter, default_limit}
use rnostr.Relay.Message.{
  Limitation, check_max, check_min, check_prefixes, check_filter, check_filters, validate_message,
  validate_msg, Crates, ClientMessage, IncomingMessage, validate,
}

check_max-le : (source limit : ℕ) → check_max source limit ≡ ok tt → source ≤ limit
unfolding check_max
check_max-le source limit h = ground arith

check_prefixes-All :
    (min : ℕ) (ids : List Bytes) → check_prefixes min ids ≡ ok tt → All (λ id. min ≤ length id) ids
unfolding check_prefixes check_min
check_prefixes-All min [] h = tt
check_prefixes-All min (id ∷ ids) h =
    let (a, p, q) = >>=-eq-ok (check_min (length id) min) _ h in
    (unfold check_min in ground arith, check_prefixes-All min ids q)

-- The filter that leaves the check: the one that came, with a limit within the relay's.
pub record IsLimited (l : Limitation) (f g : Filter) : Type 0 where
  pub same : g ≡ default_limit f l.max_limit
  pub limit : (n : ℕ) × (g.limit ≡ some n) × (n ≤ l.max_limit)
  pub ids : All (λ id. l.min_prefix ≤ length id) g.ids

check_filter-IsLimited : (l : Limitation) (f g : Filter) → check_filter l f ≡ ok g → IsLimited l f g
unfolding check_filter
check_filter-IsLimited l f g h = elim (Option-cases (default_limit f l.max_limit).limit) [
  | inl e ↦ absurd (ground arith)
  | inr (n, e) ↦
      let run : (check_max n l.max_limit >>= λ _.
      check_prefixes l.min_prefix (default_limit f l.max_limit).ids >>= λ _.
      ok (default_limit f l.max_limit))
          ≡ ok g =
        ground arith in
      let (a, p, q) = >>=-eq-ok (check_max n l.max_limit) _ run in
      let (b, r, s) =
        >>=-eq-ok (check_prefixes l.min_prefix (default_limit f l.max_limit).ids) _ q in
      record {
        same = ground arith;
        limit = (n, ground arith, check_max-le n l.max_limit p);
        ids =
            rw (ok-injective s) at
              (check_prefixes-All l.min_prefix (default_limit f l.max_limit).ids r);
      }
]

-- Filter by filter.
abbrev pub AreLimited : Limitation → List Filter → List Filter → Type 0
AreLimited l [] [] = Unit
AreLimited l (f ∷ fs) (g ∷ gs) = IsLimited l f g × AreLimited l fs gs
AreLimited l [] (g ∷ gs) = ⊥
AreLimited l (f ∷ fs) [] = ⊥

check_filters-AreLimited :
    (l : Limitation) (fs gs : List Filter) → check_filters l fs ≡ ok gs → AreLimited l fs gs
unfolding check_filters
check_filters-AreLimited l [] [] h = tt
check_filters-AreLimited l [] (g ∷ gs) h = absurd (ground arith)
check_filters-AreLimited l (f ∷ fs) gs h =
    let (g, p, q) = >>=-eq-ok (check_filter l f) _ h in
    let (rest, r, s) = >>=-eq-ok (check_filters l fs) _ q in
    subst (AreLimited l (f ∷ fs)) (ok-injective s)
      (check_filter-IsLimited l f g p, check_filters-AreLimited l fs rest r)

-- What is known of a message that passed, and of the form in which it goes on.
abbrev pub Passed : Crates → ℕ → Limitation → IncomingMessage → IncomingMessage → Type 0
Passed crates now l (IncomingMessage.event e) out =
    (out ≡ IncomingMessage.event e)
    × (length e.tags ≤ l.max_event_tags)
    × (validate crates e now l.max_event_time_older_than_now l.max_event_time_newer_than_now
        ≡ ok tt)
Passed crates now l (IncomingMessage.req sub) out =
    (fs : List Filter) × (out ≡ IncomingMessage.req (record sub { filters = fs }))
    × (length sub.filters ≤ l.max_filters)
    × (length sub.id ≤ l.max_subid_length)
    × AreLimited l sub.filters fs
Passed crates now l m out = out ≡ m

validate_msg-Passed :
    (crates : Crates) (now : ℕ) (l : Limitation) (m out : IncomingMessage)
    → validate_msg crates now l m ≡ ok out
    → Passed crates now l m out
unfolding validate_msg
validate_msg-Passed crates now l (IncomingMessage.event e) out h =
    let (a, p, q) = >>=-eq-ok (check_max (length e.tags) l.max_event_tags) _ h in
    let (b, r, s) =
      >>=-eq-ok
        (validate crates e now l.max_event_time_older_than_now l.max_event_time_newer_than_now) _
        q in
    (sym (ok-injective s), check_max-le _ _ p, r)
validate_msg-Passed crates now l (IncomingMessage.req sub) out h =
    let (a, p, q) = >>=-eq-ok (check_max (length sub.filters) l.max_filters) _ h in
    let (b, r, s) = >>=-eq-ok (check_max (length sub.id) l.max_subid_length) _ q in
    let (fs, t, u) = >>=-eq-ok (check_filters l sub.filters) _ s in
    (
      fs,
      sym (ok-injective u),
      check_max-le _ _ p,
      check_max-le _ _ r,
      check_filters-AreLimited l sub.filters fs t,
    )
validate_msg-Passed crates now l (IncomingMessage.auth e) out h = sym (ok-injective h)
validate_msg-Passed crates now l (IncomingMessage.close s) out h = sym (ok-injective h)
validate_msg-Passed crates now l (IncomingMessage.unknown s) out h = sym (ok-injective h)
validate_msg-Passed crates now l (IncomingMessage.count sub) out h = sym (ok-injective h)

-- A message that passes `validate` is no longer than the relay allows and goes on with its id, its
-- text and its mark unchanged. If it is an event, its tags are within the limit, it passed
-- the event's own checks, and it is unchanged; if it is a request, its filters and its id are within the
-- limits, and each filter goes on with a limit, its own or the relay's, that is at most the
-- relay's; every other message goes on as it came.
pub validate_message-Passed :
    (crates : Crates) (now : ℕ) (l : Limitation) (m out : ClientMessage)
    → validate_message crates now l m ≡ ok out
    → (length m.text ≤ l.max_message_length)
      × (out ≡ record m { msg = out.msg })
      × Passed crates now l m.msg out.msg
unfolding validate_message
validate_message-Passed crates now l m out h =
    let (a, p, q) = >>=-eq-ok (check_max (length m.text) l.max_message_length) _ h in
    let (msg, r, s) = >>=-eq-ok (validate_msg crates now l m.msg) _ q in
    (
      check_max-le _ _ p,
      subst (λ o. o ≡ record m { msg = o.msg }) (ok-injective s) refl,
      subst (λ o. Passed crates now l m.msg o.msg) (ok-injective s)
          (validate_msg-Passed crates now l m.msg msg r),
    )
