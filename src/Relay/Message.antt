-- ===== src/Relay/Message.antt =====
-- relay/src/message.rs: the messages of clients, and the checks that they pass first. The relay's
-- own `Error` wraps the store's, so both are one type here; a formatted message stands by its format.
pub mod Limits
pub mod Parsing
use Prim.Native.String.{String}
use rnostr.Prelude.Order.{Bytes}
use rnostr.Prelude.{
  ℕ, ◌≤◌, Bool, true, false, not, ◌&&◌, Option, none, some, List, [], ◌∷◌, length, any, ltb,
  if◌then◌else◌,
}
use rnostr.Std.Text.{codes, text_eq}
use rnostr.Db.Error.{Error, Outcome, ok, err, panicked, ◌>>=◌, invalid, message}
use rnostr.Db.Filter.{Filter, default_limit}
use rnostr.Db.Validate.{Check, Event, Crates, validate}

pub record Subscription : Type 0 where
  pub id : Bytes
  pub filters : List Filter

-- The JSON values behind an unknown command are read by nothing, and left out.
pub data IncomingMessage : Type 0 where
  event auth : Event → IncomingMessage
  close unknown : Bytes → IncomingMessage
  req count : Subscription → IncomingMessage

pub record ClientMessage : Type 0 where
  pub id : ℕ
  pub text : Bytes
  pub msg : IncomingMessage
  pub nip70_checked : Bool

-- relay/src/setting.rs.
pub record Limitation : Type 0 where
  pub max_message_length : ℕ
  pub max_subscriptions : ℕ
  pub max_filters : ℕ
  pub max_limit : ℕ
  pub max_subid_length : ℕ
  pub min_prefix : ℕ
  pub max_event_tags : ℕ
  pub max_event_time_older_than_now : ℕ
  pub max_event_time_newer_than_now : ℕ

unfoldable pub check_max : ℕ → ℕ → Check
check_max source limit = if ltb limit source then err (invalid "{} {}") else ok tt

unfoldable pub check_min : ℕ → ℕ → Check
check_min source limit = if ltb source limit then err (invalid "{} {}") else ok tt

-- A tag that is the one item "-".
unfoldable pub is_dash : List Bytes → Bool
is_dash [] = false
is_dash (t ∷ []) = text_eq t (codes "-")
is_dash (t ∷ u ∷ ts) = false

-- The loop over the tags of an event finds the mark of NIP-70.
unfoldable pub is_protected : Event → Bool
unfolding is_dash
is_protected e = any is_dash e.tags

unfoldable pub validate_nip70 : ClientMessage → Check
unfolding is_protected
validate_nip70 m = if m.nip70_checked then ok tt else elim m.msg [
  | IncomingMessage.event e ↦
      if is_protected e then err (message "blocked: event marked as protected") else ok tt
  | _ ↦ ok tt
]

unfoldable pub check_prefixes : ℕ → List Bytes → Check
unfolding check_min
check_prefixes min [] = ok tt
check_prefixes min (id ∷ ids) = check_min (length id) min >>= λ _. check_prefixes min ids

-- One filter of a request: its default limit is filled in, and its limit is checked.
unfoldable pub check_filter : Limitation → Filter → Outcome Filter
unfolding default_limit check_max check_prefixes
check_filter l f =
    let filled = default_limit f l.max_limit in
    elim filled.limit [
      | none ↦ panicked
      | some n ↦
          (check_max n l.max_limit >>= λ _.
          check_prefixes l.min_prefix filled.ids >>= λ _. ok filled)
    ]

unfoldable pub check_filters : Limitation → List Filter → Outcome (List Filter)
unfolding check_filter
check_filters l [] = ok []
check_filters l (f ∷ fs) = check_filter l f >>= λ g. check_filters l fs >>= λ gs. ok (g ∷ gs)

-- What becomes of the message: `validate` changes the filters of a request. (Where it fails, the
-- filters that it has filled in are dropped with the message, of which the answer names the id.)
unfoldable pub validate_msg : Crates → ℕ → Limitation → IncomingMessage → Outcome IncomingMessage
unfolding check_max check_filters validate
validate_msg crates now l (IncomingMessage.event e) = do
  _ ← check_max (length e.tags) l.max_event_tags
  _ ← validate crates e now l.max_event_time_older_than_now l.max_event_time_newer_than_now
  ok (IncomingMessage.event e)
validate_msg crates now l (IncomingMessage.req sub) = do
  _ ← check_max (length sub.filters) l.max_filters
  _ ← check_max (length sub.id) l.max_subid_length
  fs ← check_filters l sub.filters
  ok (IncomingMessage.req (record sub { filters = fs }))
validate_msg crates now l m = ok m

unfoldable pub validate_message : Crates → ℕ → Limitation → ClientMessage → Outcome ClientMessage
unfolding validate_msg
validate_message crates now l m = do
  _ ← check_max (length m.text) l.max_message_length
  msg ← validate_msg crates now l m.msg
  ok (record m { msg = msg })

-- Why a message was not taken: a text, an error that is printed, an error behind "auth-required: ",
-- "get event error: " or "count event error: ", or the description of a quota behind "rate-limited: ".
pub data Reason : Type 0 where
  empty_text : Reason
  text : String → Reason
  printed auth_required get_event_error count_event_error : Error → Reason
  rate_limited : Bytes → Reason

-- What is sent to a client, before it is printed as JSON.
pub data OutgoingMessage : Type 0 where
  notice : Reason → OutgoingMessage
  closed : Bytes → Reason → OutgoingMessage
  ok_msg : Bytes → Bool → Reason → OutgoingMessage
  eose : Bytes → OutgoingMessage
  count_msg : Bytes → ℕ → OutgoingMessage
  event_msg : Bytes → Bytes → OutgoingMessage
