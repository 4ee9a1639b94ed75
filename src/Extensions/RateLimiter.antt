-- ===== src/Extensions/RateLimiter.antt =====
-- extensions/src/rate_limiter.rs: quotas on the events of an address.
pub mod Quotas
use rnostr.Prelude.Order.{Bytes, Bytes-discrete}
use rnostr.Prelude.{
  ℕ, Bool, true, false, ◌&&◌, Option, none, some, List, [], ◌∷◌, any, has, leb, ltb, if◌then◌else◌,
}
use rnostr.Db.Validate.{Event, Crates}
use rnostr.Relay.Message.{IncomingMessage, ClientMessage, OutgoingMessage, Reason, rate_limited}
use rnostr.Relay.Session.{ExtensionMessageResult}

-- A range from its start to before its end.
pub record Range : Type 0 where
  pub lower : ℕ
  pub upper : ℕ

unfoldable pub range_contains : Range → ℕ → Bool
range_contains r value = leb r.lower value && ltb value r.upper

-- The period and the limit are read by the limiter alone.
pub record EventQuota : Type 0 where
  pub name : Bytes
  pub description : Bytes
  pub period : ℕ
  pub limit : ℕ
  pub kinds : Option (List Range)
  pub ip_whitelist : Option (List Bytes)

unfoldable pub is_exempt : Option (List Bytes) → Bytes → Bool
is_exempt list ip = elim list [ none ↦ false | some l ↦ has Bytes-discrete ip l ]

unfoldable pub hit : EventQuota → Event → Bytes → Bool
unfolding is_exempt range_contains
hit q e ip =
    if is_exempt q.ip_whitelist ip
    then false
    else elim q.kinds [ none ↦ true | some list ↦ any (λ r. range_contains r e.index.kind) list ]

-- The limiters of the governor crate: `check_key` of one limiter takes an address, and answers
-- whether the address is within the quota; `L` is the state of a limiter. They are made one for
-- each quota, when the setting is read.
module _ {L : Type 0} (check_key : L → Bytes → L × Bool) where
  -- The loop over the limiters: their new states, and the description of the quota that refuses
  -- the event, if one does. The first that hits and is used up ends the loop.
  unfoldable pub check_quotas :
      List (EventQuota × L) → Event → Bytes → List (EventQuota × L) × Option Bytes
  unfolding hit
  check_quotas [] e ip = ([], none)
  check_quotas ((q, l) ∷ rest) e ip =
      let (next, within) = check_key l ip in
      let (after, refused) = check_quotas rest e ip in
      if hit q e ip
      then (if within then ((q, next) ∷ after, refused) else ((q, next) ∷ rest, some q.description))
      else ((q, l) ∷ after, refused)

  -- `message`, for a session of the address.
  unfoldable pub limiter_message :
      Crates
      → Bool
      → Bytes
      → ClientMessage
      → List (EventQuota × L)
      → List (EventQuota × L) × ExtensionMessageResult
  unfolding check_quotas
  limiter_message crates enabled ip msg limiters =
      if enabled
      then elim msg.msg [
        | IncomingMessage.event e ↦
            let (after, refused) = check_quotas limiters e ip in
            elim refused [
              | none ↦ (after, ExtensionMessageResult.continue msg)
              | some why ↦ (
                after,
                ExtensionMessageResult.stop (
                    OutgoingMessage.ok_msg (crates.hex_encode e.index.id) false (rate_limited why)),
              )
            ]
        | _ ↦ (limiters, ExtensionMessageResult.continue msg)
      ]
      else (limiters, ExtensionMessageResult.continue msg)
