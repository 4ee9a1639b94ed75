-- ===== src/Tests/Messages.antt =====
-- Messages through a session and its extensions, and the theorems about them applied.
use rnostr.Prelude.Order.{Bytes, Bytes-discrete}
use rnostr.Prelude.{
  any, ℕ, ◌≡◌, ◌≤◌, ◌-◌, ◌↔◌, ◌⊎◌, refl, Bool, true, false, none, some, List, [], ◌∷◌, length, All,
  ltb, ℕ_discrete, arith,
}
use rnostr.Std.Text.{codes, text_eq}
use rnostr.Db.Error.{ok}
use rnostr.Db.Validate.{Event, Crates, validate}
use rnostr.Db.Validate.Laws.{Valid, validate_iff}
use rnostr.Relay.Message.{IncomingMessage, ClientMessage, Limitation, validate_message}
use rnostr.Relay.Message.Limits.{Passed, validate_message-Passed}
use rnostr.Relay.Session.{ExtensionMessageResult, handle_message, to_server}
use rnostr.Relay.Session.Gate.{Admitted, handle_message-Admitted}
use rnostr.Extensions.Auth.{AuthSetting, AuthState, Session, verify_permission, auth_message}
use rnostr.Extensions.Auth.Permissions.{Permitted, verify_permission-Permitted}
use rnostr.Extensions.Auth.Login.{
  LogsIn, MayPublish, auth_message-LogsIn, auth_message-MayPublish, auth_message-HandsOn,
}
use rnostr.Extensions.RateLimiter.{EventQuota, limiter_message}
use rnostr.Extensions.RateLimiter.Quotas.{Allows, limiter_message-Allows}
use rnostr.Prelude.Maps.{get}
use rnostr.Db.Store.{CheckEventResult}
use rnostr.Relay.Server.{Server, WriteEventResult, connect, on_written}
use rnostr.Relay.Server.Sessions.{
  InUse, Connects, connect-Connects, is_dispatch, is_stored, on_written-dispatch,
}
use rnostr.Tests.Data.{note, any_event}

-- A hash that keeps the content, hexadecimal that changes nothing, and a signature that is the
-- message itself.
abbrev pub crates : Crates
crates = record {
  sha256 = λ b. b;
  to_json = λ pubkey time kind tags content. content;
  hex_encode = λ b. b;
  hex_decode = some;
  verify_schnorr = λ sig key msg. text_eq sig msg;
}

-- An event of author 66, marked as protected.
abbrev protected_note : Event
protected_note = record {
  tags = (codes "-" ∷ []) ∷ [];
  content = 1 ∷ [];
  sig = 1 ∷ [];
  index = note;
  words = [];
}

abbrev limits : Limitation
limits = record {
  max_message_length = 100;
  max_subscriptions = 20;
  max_filters = 10;
  max_limit = 300;
  max_subid_length = 64;
  min_prefix = 1;
  max_event_tags = 5;
  max_event_time_older_than_now = 10;
  max_event_time_newer_than_now = 10;
}

abbrev setting : AuthSetting
setting = record {
  enabled = true;
  req = none;
  event = some (record {
    ip_whitelist = none;
    pubkey_whitelist = some ((66 ∷ []) ∷ []);
    ip_blacklist = some (codes "10.0.0.1" ∷ []);
    pubkey_blacklist = none;
    event_pubkey_whitelist = none;
    event_pubkey_blacklist = none;
  });
}

abbrev session : Session
session = record { id = 3; ip = codes "10.0.0.2"; state = some (AuthState.pubkey (66 ∷ [])) }

abbrev publish : ClientMessage
publish = record {
  id = 3;
  text = codes "[]";
  msg = IncomingMessage.event protected_note;
  nip70_checked = false;
}

abbrev published : ClientMessage
published = record publish { nip70_checked = true }

abbrev ask : ClientMessage
ask = record publish {
  msg = IncomingMessage.req (record { id = codes "a"; filters = any_event ∷ [] });
}

abbrev asked : ClientMessage
asked = record publish {
  msg =
      IncomingMessage.req
        (record { id = codes "a"; filters = record any_event { limit = some 300 } ∷ [] });
}

validate_iff_example :
    (validate crates protected_note 25 10 10 ≡ ok tt) ↔ Valid crates protected_note 25 10 10
validate_iff_example = validate_iff crates protected_note 25 10 10 (omega arith) (omega arith)

validate_message-ask : validate_message crates 25 limits ask ≡ ok asked
unfolding validate_message
validate_message-ask = refl

validate_message-Passed_example :
    (length ask.text ≤ limits.max_message_length)
    × (asked ≡ record ask { msg = asked.msg })
    × Passed crates 25 limits ask.msg asked.msg
validate_message-Passed_example =
    validate_message-Passed crates 25 limits ask asked validate_message-ask

auth_message-publish :
    (auth_message crates setting 25 publish session).1 ≡ ExtensionMessageResult.continue published
unfolding auth_message Bytes-discrete ℕ_discrete
auth_message-publish = refl

handle_message-publish :
    (handle_message crates
      (λ text. some (IncomingMessage.event protected_note))
      25
      limits
      (auth_message crates setting 25 ∷ [])
      3
      (codes "[]")
      session).1
    ≡ to_server published ∷ []
unfolding handle_message auth_message Bytes-discrete ℕ_discrete
handle_message-publish = refl

handle_message-Admitted_example :
    Admitted crates
      (λ text. some (IncomingMessage.event protected_note))
      25
      limits
      (codes "[]")
      published
handle_message-Admitted_example =
    handle_message-Admitted crates (λ text. some (IncomingMessage.event protected_note)) 25 limits
      (auth_message crates setting 25 ∷ []) 3 (codes "[]") session published
      (auth_message-HandsOn crates setting 25, tt) handle_message-publish

verify_permission-Permitted_example :
    (verify_permission setting.event (some (66 ∷ [])) (some (66 ∷ [])) (codes "10.0.0.2") ≡ ok tt)
    ↔ Permitted setting.event (some (66 ∷ [])) (some (66 ∷ [])) (codes "10.0.0.2")
verify_permission-Permitted_example =
    verify_permission-Permitted setting.event (some (66 ∷ [])) (some (66 ∷ [])) (codes "10.0.0.2")

abbrev waiting : Session
waiting = record session { state = some (AuthState.challenge (codes "c")) }

abbrev login : ClientMessage
login = record publish {
  msg = IncomingMessage.auth (record protected_note {
    tags = (codes "challenge" ∷ codes "c" ∷ []) ∷ [];
    index = record note { kind = 22_242 };
  });
}

auth_message-login : (auth_message crates setting 15 login waiting).0 ≡ session
unfolding auth_message Bytes-discrete ℕ_discrete
auth_message-login = refl

auth_message-LogsIn_example :
    ((auth_message crates setting 15 login waiting).0 ≡ waiting)
    ⊎ LogsIn crates setting 15 login waiting (auth_message crates setting 15 login waiting).0
auth_message-LogsIn_example = auth_message-LogsIn crates setting 15 login waiting

auth_message-MayPublish_example : MayPublish crates setting 25 publish session protected_note
auth_message-MayPublish_example =
    auth_message-MayPublish crates setting 25 publish session protected_note published refl refl
      auth_message-publish

-- A limiter that counts down.
abbrev check_key : ℕ → Bytes → ℕ × Bool
check_key left ip = (left - 1, ltb 0 left)

abbrev quotas : List (EventQuota × ℕ)
quotas =
    (
      record {
        name = [];
        description = codes "slow";
        period = 60;
        limit = 2;
        kinds = some (record { lower = 0; upper = 10 } ∷ []);
        ip_whitelist = none;
      },
      2,
    )
    ∷ []

limiter_message-Allows_example :
    ((limiter_message check_key crates true (codes "10.0.0.2") publish quotas).1
      ≡ ExtensionMessageResult.continue publish)
    ↔ All (Allows check_key protected_note (codes "10.0.0.2")) quotas
limiter_message-Allows_example =
    limiter_message-Allows check_key crates (codes "10.0.0.2") publish protected_note quotas refl

-- Two sessions, of the addresses 10 and 20.
abbrev server : Server ℕ
server = record { id = 2; sessions = (1, 10) ∷ (2, 20) ∷ [] }

server-InUse : InUse server
unfolding get ℕ_discrete
server-InUse = record { past = λ i h. ground arith }

connect-Connects_example : Connects server 30 (connect server 30).0 (connect server 30).1
connect-Connects_example = connect-Connects server 30 (omega arith) server-InUse

on_written-dispatch_example :
    any is_dispatch (
      on_written crates server (WriteEventResult.write 1 protected_note CheckEventResult.duplicate))
    ≡ is_stored CheckEventResult.duplicate
on_written-dispatch_example =
    on_written-dispatch crates server 1 protected_note CheckEventResult.duplicate
