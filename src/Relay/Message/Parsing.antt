-- ===== src/Relay/Message/Parsing.antt =====
-- relay/src/message.rs: how a message is read from the items of a JSON array. JSON (serde) is a
-- parameter: the string, the event and the raw filter that an item may be.
use rnostr.Prelude.Order.{Bytes}
use rnostr.Prelude.{Option, none, some, List, [], ◌∷◌, if◌then◌else◌}
use rnostr.Std.Text.{codes, text_eq}
use rnostr.Db.Error.{Outcome, ok, err, panicked, ◌>>=◌, json}
use rnostr.Db.Filter.{Filter, RawFilter, try_from}
use rnostr.Db.Validate.{Event}
use rnostr.Relay.Message.{Subscription, IncomingMessage}

pub record Json : Type 1 where
  pub Value : Type 0
  pub as_str : Value → Option Bytes
  pub as_event : Value → Option Event
  pub as_raw_filter : Value → Option (RawFilter Value)
  pub as_strings : Value → Option (List Bytes)

-- `seq.next_element()?.ok_or_else(..)?`: an item of the type that is asked for, and the items left.
unfoldable pub next_element :
    {Value A : Type 0} → (Value → Option A) → List Value → Outcome (A × List Value)
next_element from [] = err json
next_element from (v ∷ seq) = elim (from v) [ none ↦ err json | some a ↦ ok (a, seq) ]

-- serde takes any error of a filter for one of its own.
unfoldable pub as_json : {A : Type 0} → Outcome A → Outcome A
as_json (ok a) = ok a
as_json (err x) = err json
as_json panicked = panicked

module _ (js : Json) (hex_decode : Bytes → Option Bytes) where
  unfoldable pub filter_of : js.Value → Outcome Filter
  unfolding try_from as_json
  filter_of v = elim (js.as_raw_filter v) [
    | none ↦ err json
    | some raw ↦ as_json (try_from js.as_strings hex_decode raw)
  ]

  unfoldable pub all_filters : List js.Value → Outcome (List Filter)
  unfolding filter_of
  all_filters [] = ok []
  all_filters (v ∷ seq) = do f ← filter_of v; fs ← all_filters seq; ok (f ∷ fs)

  -- The id of a subscription, and the filters behind it.
  unfoldable pub read_subscription : List js.Value → Outcome Subscription
  unfolding next_element all_filters
  read_subscription seq = do
    p ← next_element js.as_str seq
    fs ← all_filters p.1
    ok (record { id = p.0; filters = fs })

  unfoldable pub next_event : List js.Value → Outcome (Event × List js.Value)
  unfolding next_element
  next_event seq = next_element js.as_event seq

  unfoldable pub read_command : Bytes → List js.Value → Outcome (IncomingMessage × List js.Value)
  unfolding next_element next_event read_subscription
  read_command t seq =
      if text_eq t (codes "EVENT")
      then (next_event seq >>= λ p. ok (IncomingMessage.event p.0, p.1))
      else if text_eq t (codes "CLOSE")
      then (next_element js.as_str seq >>= λ p. ok (IncomingMessage.close p.0, p.1))
      else if text_eq t (codes "REQ")
      then (read_subscription seq >>= λ sub. ok (IncomingMessage.req sub, []))
      else if text_eq t (codes "AUTH")
      then (next_event seq >>= λ p. ok (IncomingMessage.auth p.0, p.1))
      else if text_eq t (codes "COUNT")
      then (read_subscription seq >>= λ sub. ok (IncomingMessage.count sub, []))
      else ok (IncomingMessage.unknown t, [])

  -- `visit_seq`: the message, and the items that it leaves.
  unfoldable pub visit_seq : List js.Value → Outcome (IncomingMessage × List js.Value)
  unfolding next_element read_command
  visit_seq seq = next_element js.as_str seq >>= λ p. read_command p.0 p.1

-- `IncomingMessage::command` and `known_command`.
unfoldable pub command : IncomingMessage → Bytes
command (IncomingMessage.event e) = codes "EVENT"
command (IncomingMessage.close id) = codes "CLOSE"
command (IncomingMessage.req sub) = codes "REQ"
command (IncomingMessage.auth e) = codes "AUTH"
command (IncomingMessage.count sub) = codes "COUNT"
command (IncomingMessage.unknown cmd) = cmd

unfoldable pub known_command : IncomingMessage → Option Bytes
unfolding command
known_command (IncomingMessage.unknown cmd) = none
known_command m = some (command m)
