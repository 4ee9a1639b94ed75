-- ===== src/Extensions/Auth.antt =====
-- extensions/src/auth.rs: NIP-42 authentication and the permissions of a relay.
pub mod Permissions
pub mod Login
use Prim.Native.String.{String}
use rnostr.Prelude.Order.{Bytes, Bytes-discrete}
use rnostr.Prelude.{
  ℕ, Bool, true, false, not, ◌&&◌, Option, none, some, List, [], ◌∷◌, any, has, if◌then◌else◌, ◌==◌,
}
use rnostr.Std.Text.{codes, text_eq}
use rnostr.Db.Error.{Outcome, ok, err, panicked, ◌>>=◌, Error, message}
use rnostr.Db.Validate.{Check, Event, Crates, validate}
use rnostr.Relay.Message.{
  Subscription, IncomingMessage, ClientMessage, OutgoingMessage, Reason, empty_text, text, printed,
  auth_required, is_dash, is_protected,
}
use rnostr.Relay.Session.{ExtensionMessageResult}

pub record Permission : Type 0 where
  pub ip_whitelist : Option (List Bytes)
  pub pubkey_whitelist : Option (List Bytes)
  pub ip_blacklist : Option (List Bytes)
  pub pubkey_blacklist : Option (List Bytes)
  pub event_pubkey_whitelist : Option (List Bytes)
  pub event_pubkey_blacklist : Option (List Bytes)

pub record AuthSetting : Type 0 where
  pub enabled : Bool
  pub req : Option Permission
  pub event : Option Permission

pub data AuthState : Type 0 where
  challenge pubkey : Bytes → AuthState

-- The session, with the data that this extension keeps in it.
pub record Session : Type 0 where
  pub id : ℕ
  pub ip : Bytes
  pub state : Option AuthState

unfoldable pub pubkey_of : Option AuthState → Option Bytes
pubkey_of none = none
pubkey_of (some (AuthState.challenge c)) = none
pubkey_of (some (AuthState.pubkey p)) = some p

-- A whitelist that is set has to hold the item, and a blacklist must not.
unfoldable pub check_white : Option (List Bytes) → Bytes → String → Check
check_white list item why = elim list [
  | none ↦ ok tt
  | some l ↦ if has Bytes-discrete item l then ok tt else err (message why)
]

unfoldable pub check_black : Option (List Bytes) → Bytes → String → Check
check_black list item why = elim list [
  | none ↦ ok tt
  | some l ↦ if has Bytes-discrete item l then err (message why) else ok tt
]

unfoldable pub check_author : Permission → Option Bytes → Check
unfolding check_white check_black
check_author p none = ok tt
check_author p (some author) =
    check_white p.event_pubkey_whitelist author "event author pubkey not in whitelist" >>= λ _.
    check_black p.event_pubkey_blacklist author "event author pubkey in blacklist"

-- With a list of keys that is set, the session has to be authenticated.
unfoldable pub check_login : Option (List Bytes) → Option Bytes → (Bytes → Check) → Check
check_login none key test = ok tt
check_login (some l) none test = err (message "NIP-42 auth required")
check_login (some l) (some p) test = test p

unfoldable pub verify_permission : Option Permission → Option Bytes → Option Bytes → Bytes → Check
unfolding check_white check_black check_author check_login
verify_permission none key author ip = ok tt
verify_permission (some p) key author ip = do
  _ ← check_white p.ip_whitelist ip "ip not in whitelist"
  _ ← check_black p.ip_blacklist ip "ip in blacklist"
  _ ← check_author p author
  _ ←
      check_login p.pubkey_whitelist key
        (λ k. check_white p.pubkey_whitelist k "pubkey not in whitelist")
  check_login p.pubkey_blacklist key (λ k. check_black p.pubkey_blacklist k "pubkey in blacklist")

-- A tag that answers the challenge.
unfoldable pub answers : Bytes → List Bytes → Bool
answers c [] = false
answers c (name ∷ []) = false
answers c (name ∷ value ∷ more) = text_eq name (codes "challenge") && text_eq value c

-- `connected`, with the text of a fresh uuid: the session, and the challenge that is sent.
unfoldable pub connected : AuthSetting → Bytes → Session → Session × Option Bytes
connected setting uuid s =
    if setting.enabled
    then (record s { state = some (AuthState.challenge uuid) }, some uuid)
    else (s, none)

module _ (crates : Crates) where
  abbrev pub refuse : Event → Reason → ExtensionMessageResult
  refuse e why =
      ExtensionMessageResult.stop (OutgoingMessage.ok_msg (crates.hex_encode e.index.id) false why)

  -- The answer to an AUTH message.
  unfoldable pub log_in : ℕ → Event → Session → Session × ExtensionMessageResult
  unfolding validate answers
  log_in now e s = elim s.state [
    | some (AuthState.challenge c) ↦ elim (validate crates e now 0 0) [
      | ok _ ↦
          if (e.index.kind == 22_242) && any (answers c) e.tags
          then (
            record s { state = some (AuthState.pubkey (crates.hex_encode e.index.pubkey)) },
            ExtensionMessageResult.stop
                (OutgoingMessage.ok_msg (crates.hex_encode e.index.id) true empty_text),
          )
          else (s, refuse e (text "auth-required: need reconnect"))
      | err x ↦ (s, refuse e (auth_required x))
      | panicked ↦ (s, ExtensionMessageResult.ignore)
    ]
    | _ ↦ (s, refuse e (text "auth-required: need reconnect"))
  ]

  -- The check of a protected event, which only its author may publish.
  unfoldable pub check_nip70 : Event → Option AuthState → Check
  unfolding is_protected
  check_nip70 e state =
      if is_protected e
      then elim state [
        | some (AuthState.pubkey p) ↦
            if text_eq p (crates.hex_encode e.index.pubkey)
            then ok tt
            else err (message "auth-required: this event may only be published by its author")
        | _ ↦ err (message "auth-required: this event require authorization")
      ]
      else ok tt

  unfoldable pub read_auth :
      AuthSetting → ClientMessage → Subscription → Session → Session × ExtensionMessageResult
  unfolding verify_permission pubkey_of
  read_auth setting msg sub s = elim (verify_permission setting.req (pubkey_of s.state) none s.ip) [
    | ok _ ↦ (s, ExtensionMessageResult.continue (record msg { nip70_checked = true }))
    | err x ↦ (s, ExtensionMessageResult.stop (OutgoingMessage.closed sub.id (auth_required x)))
    | panicked ↦ (s, ExtensionMessageResult.ignore)
  ]

  unfoldable pub write_auth :
      AuthSetting → ClientMessage → Event → Session → Session × ExtensionMessageResult
  unfolding verify_permission check_nip70 pubkey_of
  write_auth setting msg e s =
      elim (verify_permission setting.event (pubkey_of s.state)
        (some (crates.hex_encode e.index.pubkey)) s.ip) [
          | ok _ ↦ elim (check_nip70 e s.state) [
            | ok _ ↦ (s, ExtensionMessageResult.continue (record msg { nip70_checked = true }))
            | err x ↦ (s, refuse e (printed x))
            | panicked ↦ (s, ExtensionMessageResult.ignore)
          ]
          | err x ↦ (s, refuse e (auth_required x))
          | panicked ↦ (s, ExtensionMessageResult.ignore)
        ]

  -- `message`.
  unfoldable pub auth_message :
      AuthSetting → ℕ → ClientMessage → Session → Session × ExtensionMessageResult
  unfolding log_in write_auth read_auth
  auth_message setting now msg s =
      if setting.enabled
      then elim msg.msg [
        | IncomingMessage.auth e ↦ log_in now e s
        | IncomingMessage.event e ↦ write_auth setting msg e s
        | IncomingMessage.req sub ↦ read_auth setting msg sub s
        | IncomingMessage.count sub ↦ read_auth setting msg sub s
        | _ ↦ (s, ExtensionMessageResult.continue (record msg { nip70_checked = true }))
      ]
      else (s, ExtensionMessageResult.continue msg)
