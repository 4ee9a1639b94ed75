-- ===== src/Extensions/Auth/Login.antt =====
-- How the state of a session changes under `message` (extensions/src/auth.rs), and what it hands on.
use rnostr.Prelude.Order.{Bytes}
use rnostr.Prelude.{
  ℕ, ◌≡◌, refl, subst, ◌⊎◌, inl, inr, Bool, true, false, ◌&&◌, Option, none, some, any, ◌==◌,
  Bool-cases, arith,
}
use rnostr.Std.Text.{text_eq_iff}
use rnostr.Db.Error.{ok, err, panicked}
use rnostr.Db.Validate.{Check, Event, Crates, validate}
use rnostr.Relay.Message.{Subscription, IncomingMessage, ClientMessage, is_protected}
use rnostr.Relay.Session.{ExtensionMessageResult}
use rnostr.Relay.Session.Gate.{HandsOn}
use rnostr.Extensions.Auth.Permissions.{Permitted, verify_permission-Permitted}
use rnostr.Extensions.Auth.{
  AuthSetting, AuthState, Session, pubkey_of, answers, log_in, check_nip70, read_auth, write_auth,
  auth_message, verify_permission,
}

module _ (crates : Crates) (setting : AuthSetting) (now : ℕ) (msg : ClientMessage)
    (s : Session) where
  -- How a session comes to be authenticated.
  pub record LogsIn (t : Session) : Type 0 where
    pub event : Event
    pub challenge : Bytes
    pub is_auth : msg.msg ≡ IncomingMessage.auth event
    pub asked : s.state ≡ some (AuthState.challenge challenge)
    pub checked : validate crates event now 0 0 ≡ ok tt
    pub kind : event.index.kind ≡ 22_242
    pub answered : any (answers challenge) event.tags ≡ true
    pub result :
        t ≡ record s { state = some (AuthState.pubkey (crates.hex_encode event.index.pubkey)) }

  log_in_cases :
      (e : Event)
      → msg.msg ≡ IncomingMessage.auth e
      → ((log_in crates now e s).0 ≡ s) ⊎ LogsIn (log_in crates now e s).0
  unfolding log_in
  log_in_cases e m = by_state s.state refl
    where
      Cases : Type 0
      Cases = ((log_in crates now e s).0 ≡ s) ⊎ LogsIn (log_in crates now e s).0

      by_test :
          (c : Bytes) (u : Unit {0}) (b : Bool)
          → s.state ≡ some (AuthState.challenge c)
          → validate crates e now 0 0 ≡ ok u
          → ((e.index.kind == 22_242) && any (answers c) e.tags) ≡ b
          → Cases
      by_test c u false p q r = inl (ground arith)
      by_test c u true p q r = inr (record {
        event = e;
        challenge = c;
        is_auth = m;
        asked = p;
        checked = q;
        kind = ground arith;
        answered = ground arith;
        result = ground arith;
      })

      by_check :
          (c : Bytes) (r : Check)
          → s.state ≡ some (AuthState.challenge c)
          → validate crates e now 0 0 ≡ r
          → Cases
      by_check c (ok u) p q =
          by_test c u ((e.index.kind == 22_242) && any (answers c) e.tags) p q refl
      by_check c (err x) p q = inl (ground arith)
      by_check c panicked p q = inl (ground arith)

      by_state : (x : Option AuthState) → s.state ≡ x → Cases
      by_state none p = inl (ground arith)
      by_state (some (AuthState.pubkey k)) p = inl (ground arith)
      by_state (some (AuthState.challenge c)) p = by_check c (validate crates e now 0 0) p refl

  read_auth-state : (sub : Subscription) → (read_auth crates setting msg sub s).0 ≡ s
  unfolding read_auth
  read_auth-state sub = ground arith

  write_auth-state : (e : Event) → (write_auth crates setting msg e s).0 ≡ s
  unfolding write_auth
  write_auth-state e = ground arith

  -- A message leaves the session as it was, or it is an AUTH message, sent to a session that was given a
  -- challenge and has not answered it yet, whose event passes its checks, has kind 22242 and a
  -- tag with that challenge; the session is then authenticated with the key of the event's author.
  pub auth_message-LogsIn : let t = (auth_message crates setting now msg s).0 in (t ≡ s) ⊎ LogsIn t
  unfolding auth_message
  auth_message-LogsIn = by_kind setting.enabled msg.msg refl refl
    where
      t : Session
      t = (auth_message crates setting now msg s).0

      by_kind :
          (b : Bool) (m : IncomingMessage) → setting.enabled ≡ b → msg.msg ≡ m → (t ≡ s) ⊎ LogsIn t
      by_kind false m p q = inl (ground arith)
      by_kind true (IncomingMessage.auth e) p q =
          let same : (log_in crates now e s).0 ≡ t = ground arith in
          subst (λ u. (u ≡ s) ⊎ LogsIn u) same (log_in_cases e q)
      by_kind true (IncomingMessage.event e) p q = inl (ground (arith, write_auth-state e))
      by_kind true (IncomingMessage.req sub) p q = inl (ground (arith, read_auth-state sub))
      by_kind true (IncomingMessage.count sub) p q = inl (ground (arith, read_auth-state sub))
      by_kind true (IncomingMessage.close i) p q = inl (ground arith)
      by_kind true (IncomingMessage.unknown i) p q = inl (ground arith)

  read_auth-msg :
      (sub : Subscription) (m : ClientMessage)
      → (read_auth crates setting msg sub s).1 ≡ ExtensionMessageResult.continue m
      → m.msg ≡ msg.msg
  unfolding read_auth
  read_auth-msg sub m h = ground arith

  write_auth-msg :
      (e : Event) (m : ClientMessage)
      → (write_auth crates setting msg e s).1 ≡ ExtensionMessageResult.continue m
      → (m.msg ≡ msg.msg)
        × (verify_permission setting.event
              (pubkey_of s.state)
              (some (crates.hex_encode e.index.pubkey))
              s.ip
            ≡ ok tt)
        × (check_nip70 crates e s.state ≡ ok tt)
  unfolding write_auth
  write_auth-msg e m h = ground arith

  log_in-msg :
      (e : Event) (m : ClientMessage)
      → ¬ ((log_in crates now e s).1 ≡ ExtensionMessageResult.continue m)
  unfolding log_in
  log_in-msg e m h = ground arith

  -- What was checked of an event that the extension lets through.
  pub record MayPublish (e : Event) : Type 0 where
    pub permitted :
        Permitted setting.event (pubkey_of s.state) (some (crates.hex_encode e.index.pubkey)) s.ip
    pub author :
        (is_protected e ≡ false)
        ⊎ (s.state ≡ some (AuthState.pubkey (crates.hex_encode e.index.pubkey)))

  check_nip70-owner :
      (e : Event) (x : Option AuthState)
      → is_protected e ≡ true
      → check_nip70 crates e x ≡ ok tt
      → x ≡ some (AuthState.pubkey (crates.hex_encode e.index.pubkey))
  unfolding check_nip70
  check_nip70-owner e none p h = absurd (ground arith)
  check_nip70-owner e (some (AuthState.challenge c)) p h = absurd (ground arith)
  check_nip70-owner e (some (AuthState.pubkey k)) p h =
      ground (arith, text_eq_iff k (crates.hex_encode e.index.pubkey))

  -- Where the extension is enabled, an event goes on only if the permission for events lets its
  -- author and the session through; a protected event only if, besides, the session is
  -- authenticated as its author.
  pub auth_message-MayPublish :
      (e : Event) (m : ClientMessage)
      → setting.enabled ≡ true
      → msg.msg ≡ IncomingMessage.event e
      → (auth_message crates setting now msg s).1 ≡ ExtensionMessageResult.continue m
      → MayPublish e
  unfolding auth_message
  auth_message-MayPublish e m p q h =
      let (same, may, owner) = write_auth-msg e m (ground arith) in
      record {
        permitted = (verify_permission-Permitted _ _ _ _).0 may;
        author = elim (Bool-cases (is_protected e)) [
          | inr f ↦ inl f
          | inl f ↦ inr (check_nip70-owner e s.state f owner)
        ];
      }

module _ (crates : Crates) (setting : AuthSetting) (now : ℕ) where
  -- The authentication extension hands on the messages that it gets.
  pub auth_message-HandsOn : HandsOn (auth_message crates setting now)
  unfolding auth_message
  auth_message-HandsOn msg m s h = by_kind setting.enabled msg.msg refl refl
    where
      by_kind :
          (b : Bool) (x : IncomingMessage) → setting.enabled ≡ b → msg.msg ≡ x → m.msg ≡ msg.msg
      by_kind false x p q = ground arith
      by_kind true (IncomingMessage.auth e) p q =
          absurd (log_in-msg crates setting now msg s e m (ground arith))
      by_kind true (IncomingMessage.event e) p q =
          (write_auth-msg crates setting now msg s e m (ground arith)).0
      by_kind true (IncomingMessage.req sub) p q =
          read_auth-msg crates setting now msg s sub m (ground arith)
      by_kind true (IncomingMessage.count sub) p q =
          read_auth-msg crates setting now msg s sub m (ground arith)
      by_kind true (IncomingMessage.close i) p q = ground arith
      by_kind true (IncomingMessage.unknown i) p q = ground arith
