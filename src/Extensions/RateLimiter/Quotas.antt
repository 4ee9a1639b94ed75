-- ===== src/Extensions/RateLimiter/Quotas.antt =====
-- Which events the rate limiter (extensions/src/rate_limiter.rs) lets through.
use rnostr.Prelude.Order.{Bytes}
use rnostr.Prelude.{
  ◌≡◌, refl, ◌↔◌, ◌⊎◌, inl, inr, Bool, true, false, none, List, [], ◌∷◌, All, Bool-cases, arith,
}
use rnostr.Db.Validate.{Event, Crates}
use rnostr.Relay.Message.{IncomingMessage, ClientMessage}
use rnostr.Relay.Session.{ExtensionMessageResult}
use rnostr.Relay.Session.Gate.{HandsOn}
use rnostr.Extensions.RateLimiter.{EventQuota, hit, check_quotas, limiter_message}

module _ {L : Type 0} (check_key : L → Bytes → L × Bool) where
  -- The quota does not hit the event, or the address is within it.
  abbrev pub Allows : Event → Bytes → EventQuota × L → Type 0
  Allows e ip (q, l) = (hit q e ip ≡ false) ⊎ ((check_key l ip).1 ≡ true)

  check_quotas-All :
      (limiters : List (EventQuota × L)) (e : Event) (ip : Bytes)
      → ((check_quotas check_key limiters e ip).1 ≡ none) ↔ All (Allows e ip) limiters
  unfolding check_quotas
  check_quotas-All [] e ip = (λ h. tt, λ a. refl)
  check_quotas-All ((q, l) ∷ rest) e ip =
      let iff = check_quotas-All rest e ip in
      elim (Bool-cases (hit q e ip)) [
        | inr f ↦ (λ h. (inl f, iff.0 (ground arith)), λ a. ground (arith, iff.1 a.1))
        | inl t ↦ elim (Bool-cases (check_key l ip).1) [
          | inl w ↦ (λ h. (inr w, iff.0 (ground arith)), λ a. ground (arith, iff.1 a.1))
          | inr w ↦ (λ h. absurd (ground arith), λ a. absurd (used t w a.0))
        ]
      ]
    where
      used : hit q e ip ≡ true → (check_key l ip).1 ≡ false → ¬ (Allows e ip (q, l))
      used t w (inl f) = cc
      used t w (inr f) = cc

  -- Where the limiter is enabled, an event goes on exactly if every quota that hits it has room for
  -- the address; it then goes on unchanged.
  pub limiter_message-Allows :
      (crates : Crates) (ip : Bytes) (msg : ClientMessage) (e : Event)
      (limiters : List (EventQuota × L))
      → msg.msg ≡ IncomingMessage.event e
      → ((limiter_message check_key crates true ip msg limiters).1
          ≡ ExtensionMessageResult.continue msg)
        ↔ All (Allows e ip) limiters
  unfolding limiter_message
  limiter_message-Allows crates ip msg e limiters m =
      let iff = check_quotas-All limiters e ip in
      (λ h. iff.0 (ground arith), λ a. ground (arith, iff.1 a))

  -- The rate limiter hands on the messages that it gets.
  pub limiter_message-HandsOn :
      (crates : Crates) (enabled : Bool) (ip : Bytes)
      → HandsOn (λ msg limiters. limiter_message check_key crates enabled ip msg limiters)
  unfolding limiter_message
  limiter_message-HandsOn crates enabled ip msg m s h = ground arith
