-- ===== src/Relay/Session.antt =====
-- relay/src/session.rs and relay/src/extension.rs: what a session does with a text that it receives.
pub mod Gate
use rnostr.Prelude.Order.{Bytes}
use rnostr.Prelude.{ℕ, Bool, true, false, Option, none, some, List, [], ◌∷◌}
use rnostr.Db.Error.{Error, Outcome, ok, err, panicked, json}
use rnostr.Db.Validate.{Event, Crates}
use rnostr.Relay.Message.{
  Subscription, IncomingMessage, ClientMessage, Limitation, Reason, OutgoingMessage, printed,
  validate_message, validate_nip70,
}

pub data ExtensionMessageResult : Type 0 where
  continue : ClientMessage → ExtensionMessageResult
  stop : OutgoingMessage → ExtensionMessageResult
  ignore : ExtensionMessageResult

-- `Extension::message` over the state that extensions may change.
abbrev pub Extension : Type 0 → Type 0
Extension S = ClientMessage → S → S × ExtensionMessageResult

module _ {S : Type 0} where
  -- `Extensions::call_message`: the first that does not go on decides.
  unfoldable pub call_message : List (Extension S) → ClientMessage → S → S × ExtensionMessageResult
  call_message [] msg s = (s, ExtensionMessageResult.continue msg)
  call_message (ext ∷ exts) msg s =
      let (t, result) = ext msg s in
      elim result [
        | ExtensionMessageResult.continue m ↦ call_message exts m t
        | ExtensionMessageResult.stop o ↦ (t, ExtensionMessageResult.stop o)
        | ExtensionMessageResult.ignore ↦ (t, ExtensionMessageResult.ignore)
      ]

-- `ctx.text` to the client, or `server.do_send`.
pub data Sent : Type 0 where
  to_client : OutgoingMessage → Sent
  to_server : ClientMessage → Sent

unfoldable pub send_error : Crates → Error → IncomingMessage → Sent
send_error crates x (IncomingMessage.event e) =
    to_client (OutgoingMessage.ok_msg (crates.hex_encode e.index.id) false (printed x))
send_error crates x (IncomingMessage.req sub) =
    to_client (OutgoingMessage.closed sub.id (printed x))
send_error crates x m = to_client (OutgoingMessage.notice (printed x))

-- The end of `handle_message`, once the extensions have answered.
unfoldable pub forward : Crates → ExtensionMessageResult → List Sent
unfolding validate_nip70 send_error
forward crates (ExtensionMessageResult.continue msg) = elim (validate_nip70 msg) [
  | ok _ ↦ to_server msg ∷ []
  | err x ↦ send_error crates x msg.msg ∷ []
  | panicked ↦ []
]
forward crates (ExtensionMessageResult.stop out) = to_client out ∷ []
forward crates ExtensionMessageResult.ignore = []

module _ {S : Type 0} (crates : Crates) (parse : Bytes → Option IncomingMessage) where
  -- `handle_message`: the state of the extensions after it, and what is sent. `parse` is serde's.
  unfoldable pub handle_message :
      ℕ → Limitation → List (Extension S) → ℕ → Bytes → S → S × List Sent
  unfolding validate_message call_message forward
  handle_message now l exts id text s = elim (parse text) [
    | none ↦ (s, to_client (OutgoingMessage.notice (printed json)) ∷ [])
    | some m ↦
        elim (validate_message crates now l
          (record { id = id; text = text; msg = m; nip70_checked = false })) [
            | ok msg ↦ let (t, result) = call_message exts msg s in (t, forward crates result)
            | err x ↦ (s, send_error crates x m ∷ [])
            | panicked ↦ (s, [])
          ]
  ]
