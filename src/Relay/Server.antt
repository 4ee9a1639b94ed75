-- ===== src/Relay/Server.antt =====
-- relay/src/server.rs: the actor between the sessions and the writer, the readers and the subscriber.
pub mod Sessions
use Prim.Native.String.{String}
use rnostr.Prelude.Order.{Bytes}
use rnostr.Prelude.Maps.{Map, get, insert, remove}
use rnostr.Prelude.{
  ℕ, ◌+◌, Bool, true, false, Option, none, some, List, [], ◌∷◌, ◌++◌, ◌==◌, if◌then◌else◌,
  ℕ_discrete,
}
use rnostr.Std.Words.{u64_mod}
use rnostr.Db.Store.{CheckEventResult}
use rnostr.Db.Validate.{Event, Crates}
use rnostr.Relay.Message.{
  Subscription, IncomingMessage, ClientMessage, OutgoingMessage, Reason, text, empty_text,
}
use rnostr.Relay.Subscriber.{Subscribed}

pub data WriteEventResult : Type 0 where
  write : ℕ → Event → CheckEventResult → WriteEventResult
  reply : ℕ → Event → OutgoingMessage → WriteEventResult

-- `usize::MAX`, on a machine of 64 bits.
abbrev pub usize_max : ℕ
usize_max = 18_446_744_073_709_551_615

module _ (Addr : Type 0) where
  pub record Server : Type 0 where
    pub id : ℕ
    pub sessions : Map ℕ Addr

  -- What the server sends: to a client, the writer, a reader, or the subscriber.
  pub data Effect : Type 0 where
    tell : Addr → OutgoingMessage → Effect
    write_event dispatch : ℕ → Event → Effect
    read_event subscribe : ℕ → Subscription → Effect
    unsubscribe : ℕ → Option Bytes → Effect

-- What the client is told of its event. (The text of an invalid event is behind "invalid: ".)
unfoldable pub answer : Crates → Event → CheckEventResult → OutgoingMessage
answer crates e (CheckEventResult.stored n) =
    OutgoingMessage.ok_msg (crates.hex_encode e.index.id) true empty_text
answer crates e CheckEventResult.duplicate =
    OutgoingMessage.ok_msg (crates.hex_encode e.index.id) true (text "duplicate: event exists")
answer crates e (CheckEventResult.invalid why) =
    OutgoingMessage.ok_msg (crates.hex_encode e.index.id) false
      (Reason.printed (rnostr.Db.Error.Error.invalid why))
answer crates e CheckEventResult.deleted =
    OutgoingMessage.ok_msg (crates.hex_encode e.index.id) false
      (text "deleted: user requested deletion")
answer crates e CheckEventResult.replace_ignored =
    OutgoingMessage.ok_msg (crates.hex_encode e.index.id) false (text "replaced: have newer event")

module _ {Addr : Type 0} where
  unfoldable pub send_to_client : Server Addr → ℕ → OutgoingMessage → List (Effect Addr)
  send_to_client s id msg = elim (get ℕ_discrete id s.sessions) [
    | none ↦ []
    | some addr ↦ Effect.tell addr msg ∷ []
  ]

  -- `Connect`: the state, and the id that the session is given.
  unfoldable pub connect : Server Addr → Addr → Server Addr × ℕ
  connect s addr =
      let id = (if s.id == usize_max then 0 else s.id) + 1 in
      (record { id = id; sessions = insert ℕ_discrete id addr s.sessions }, id)

  unfoldable pub disconnect : Server Addr → ℕ → Server Addr × List (Effect Addr)
  disconnect s id =
      (record s { sessions = remove ℕ_discrete id s.sessions }, Effect.unsubscribe id none ∷ [])

  -- `ClientMessage`; the answer of the subscriber to a request comes back to `on_subscribed`, before
  -- any other message is handled.
  unfoldable pub on_client : Server Addr → ClientMessage → List (Effect Addr)
  unfolding send_to_client
  on_client s msg = elim msg.msg [
    | IncomingMessage.event e ↦ Effect.write_event msg.id e ∷ []
    | IncomingMessage.close id ↦ Effect.unsubscribe msg.id (some id) ∷ []
    | IncomingMessage.req sub ↦ Effect.subscribe msg.id sub ∷ []
    | _ ↦ send_to_client s msg.id (OutgoingMessage.notice (text "Unsupported message"))
  ]

  -- The answer of the subscriber; none is an error of its mailbox.
  unfoldable pub on_subscribed :
      Server Addr → ℕ → Subscription → Option Subscribed → List (Effect Addr)
  unfolding send_to_client
  on_subscribed s id sub (some Subscribed.ok) = Effect.read_event id sub ∷ []
  on_subscribed s id sub (some Subscribed.overlimit) =
      send_to_client s id
        (OutgoingMessage.closed sub.id (text "Number of subscriptions exceeds limit"))
  on_subscribed s id sub (some Subscribed.invalid_id_length) = send_to_client s id (
      OutgoingMessage.closed sub.id
        (text "Subscription id should be non-empty string of max length 64 chars"))
  on_subscribed s id sub none =
      send_to_client s id (OutgoingMessage.closed sub.id (text "Something is wrong"))

  -- `WriteEventResult`: the answer, and the event to the subscriber if it was stored.
  unfoldable pub on_written : Crates → Server Addr → WriteEventResult → List (Effect Addr)
  unfolding send_to_client answer
  on_written crates s (WriteEventResult.write id e result) =
      send_to_client s id (answer crates e result)
      ++ (elim result [ CheckEventResult.stored n ↦ Effect.dispatch id e ∷ [] | _ ↦ [] ])
  on_written crates s (WriteEventResult.reply id e msg) = send_to_client s id msg
