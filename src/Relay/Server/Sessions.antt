-- ===== src/Relay/Server/Sessions.antt =====
-- The sessions of the server (relay/src/server.rs) keep their own ids.
use rnostr.Prelude.Maps.{get, get-insert, get-remove}
use rnostr.Prelude.{
  ℕ, ◌+◌, ◌<◌, ◌≡◌, ◌≢◌, Bool, true, false, none, some, [], ◌∷◌, ◌==◌, if◌then◌else◌, any,
  any-append, ◌||◌, ◌∙◌, ℕ_discrete, arith,
}
use rnostr.Db.Store.{CheckEventResult}
use rnostr.Relay.Server.{
  Server, Effect, WriteEventResult, answer, on_written, usize_max, connect, disconnect,
  send_to_client,
}
use rnostr.Db.Validate.{Event, Crates}
use rnostr.Relay.Message.{OutgoingMessage}

abbrev pub is_stored : CheckEventResult → Bool
is_stored (CheckEventResult.stored n) = true
is_stored _ = false

module _ {Addr : Type 0} where
  -- No session has an id that was not given yet.
  pub record InUse (s : Server Addr) : Type 0 where
    pub past : (i : ℕ) → s.id < i → get ℕ_discrete i s.sessions ≡ none

  -- A new session, and all that there were before.
  pub record Connects (s : Server Addr) (addr : Addr) (t : Server Addr) (id : ℕ) : Type 0 where
    pub in_use : InUse t
    pub fresh : get ℕ_discrete id s.sessions ≡ none
    pub found : get ℕ_discrete id t.sessions ≡ some addr
    pub kept : (i : ℕ) → i ≢ id → get ℕ_discrete i t.sessions ≡ get ℕ_discrete i s.sessions

  -- As long as the counter has not reached its maximum, a connection is given an id that no
  -- session has, is found under it, leaves all other sessions as they were, and ids
  -- that are still to come stay unused.
  pub connect-Connects :
      (s : Server Addr) (addr : Addr)
      → s.id < usize_max
      → InUse s
      → Connects s addr (connect s addr).0 (connect s addr).1
  unfolding connect
  connect-Connects s addr h u =
      let id : ℕ = (if s.id == usize_max then 0 else s.id) + 1 in
      let next : id ≡ s.id + 1 = ground arith in
      record {
        in_use = record {
          past = λ i k. ground (arith, get-insert ℕ_discrete id addr i s.sessions, u.past i);
        };
        fresh = ground (arith, u.past id);
        found = ground (arith, get-insert ℕ_discrete id addr id s.sessions);
        kept = λ i n. ground (arith, get-insert ℕ_discrete id addr i s.sessions);
      }

  -- Ids that are still to come stay unused when a session disconnects.
  pub disconnect-InUse : (s : Server Addr) (id : ℕ) → InUse s → InUse (disconnect s id).0
  unfolding disconnect
  disconnect-InUse s id u = record {
    past = λ i k. ground (arith, get-remove ℕ_discrete id i s.sessions, u.past i);
  }

  abbrev pub is_dispatch : Effect Addr → Bool
  is_dispatch (Effect.dispatch id e) = true
  is_dispatch _ = false

  is_dispatch-send_to_client :
      (s : Server Addr) (id : ℕ) (msg : OutgoingMessage)
      → any is_dispatch (send_to_client s id msg) ≡ false
  unfolding send_to_client
  is_dispatch-send_to_client s id msg = ground arith

  -- When the writer has answered, the event goes on to the subscriber exactly if it was stored now:
  -- no duplicate, deleted, superseded or invalid event is sent to subscriptions.
  pub on_written-dispatch :
      (crates : Crates) (s : Server Addr) (id : ℕ) (e : Event) (result : CheckEventResult)
      → any is_dispatch (on_written crates s (WriteEventResult.write id e result))
        ≡ is_stored result
  unfolding on_written
  on_written-dispatch crates s id e result =
      let told = send_to_client s id (answer crates e result) in
      let quiet = is_dispatch-send_to_client s id (answer crates e result) in
      any-append is_dispatch told _ ∙ by_result result quiet
    where
      by_result :
          (r : CheckEventResult)
          → any is_dispatch (send_to_client s id (answer crates e result)) ≡ false
          → (any is_dispatch (send_to_client s id (answer crates e result))
              || any is_dispatch
                  (elim r [ CheckEventResult.stored n ↦ Effect.dispatch id e ∷ [] | _ ↦ [] ]))
            ≡ is_stored r
      by_result (CheckEventResult.stored n) q = ground arith
      by_result CheckEventResult.duplicate q = ground arith
      by_result CheckEventResult.deleted q = ground arith
      by_result CheckEventResult.replace_ignored q = ground arith
      by_result (CheckEventResult.invalid why) q = ground arith
