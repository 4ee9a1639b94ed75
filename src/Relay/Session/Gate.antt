-- ===== src/Relay/Session/Gate.antt =====
-- What reaches the server through `handle_message` (relay/src/session.rs), whatever the extensions
-- are, as long as they hand on the messages that they get.
use rnostr.Prelude.Order.{Bytes}
use rnostr.Prelude.{
  ℕ, ◌≤◌, ◌≡◌, refl, sym, ◌∙◌, ap, subst, ◌⊎◌, inl, inr, Bool, true, false, Option, none, some,
  List, [], ◌∷◌, length, All, Bool-cases, arith,
}
use rnostr.Db.Error.{Error, Outcome, ok, err, panicked}
use rnostr.Db.Validate.{Check, Event, Crates}
use rnostr.Relay.Message.{
  IncomingMessage, ClientMessage, Limitation, is_protected, validate_nip70, validate_message,
}
use rnostr.Relay.Message.Limits.{Passed, validate_message-Passed}
use rnostr.Relay.Session.{
  Extension, ExtensionMessageResult, call_message, Sent, to_client, to_server, send_error, forward,
  handle_message,
}

-- An extension that goes on does so with the message that it got; the mark may change.
abbrev pub HandsOn : {S : Type 0} → Extension S → Type 0
HandsOn {S = S} ext =
    (msg m : ClientMessage) (s : S)
    → (ext msg s).1 ≡ ExtensionMessageResult.continue m
    → m.msg ≡ msg.msg

module _ {S : Type 0} where
  call_message-msg :
      (exts : List (Extension S)) (msg m : ClientMessage) (s : S)
      → All HandsOn exts
      → (call_message exts msg s).1 ≡ ExtensionMessageResult.continue m
      → m.msg ≡ msg.msg
  unfolding call_message
  call_message-msg [] msg m s a h = cc
  call_message-msg (ext ∷ exts) msg m s a h =
      answered (ext msg s).1 refl (λ n. call_message-msg exts n m (ext msg s).0 a.1)
    where
      answered :
          (r : ExtensionMessageResult)
          → (ext msg s).1 ≡ r
          → ((n : ClientMessage)
              → (call_message exts n (ext msg s).0).1 ≡ ExtensionMessageResult.continue m
              → m.msg ≡ n.msg)
          → m.msg ≡ msg.msg
      answered (ExtensionMessageResult.continue n) e rest = rest n (ground arith) ∙ a.0 msg n s e
      answered (ExtensionMessageResult.stop o) e rest = absurd (ground arith)
      answered ExtensionMessageResult.ignore e rest = absurd (ground arith)

-- A message that the session may hand to the server: an event that is marked as protected only
-- after an extension has checked it.
abbrev pub Unprotected : ClientMessage → Type 0
Unprotected m =
    (m.nip70_checked ≡ true)
    ⊎ ((e : Event) → m.msg ≡ IncomingMessage.event e → is_protected e ≡ false)

validate_nip70-Unprotected : (m : ClientMessage) → validate_nip70 m ≡ ok tt → Unprotected m
unfolding validate_nip70
validate_nip70-Unprotected m h = elim (Bool-cases m.nip70_checked) [
  | inl e ↦ inl e
  | inr e ↦ inr (λ v p. ground arith)
]

-- An error goes to the client.
is_to_server : Sent → Bool
is_to_server (to_client o) = false
is_to_server (to_server m) = true

is_to_server-send_error :
    (crates : Crates) (x : Error) (m : IncomingMessage)
    → is_to_server (send_error crates x m) ≡ false
unfolding is_to_server send_error
is_to_server-send_error crates x (IncomingMessage.event e) = refl
is_to_server-send_error crates x (IncomingMessage.req sub) = refl
is_to_server-send_error crates x (IncomingMessage.auth e) = refl
is_to_server-send_error crates x (IncomingMessage.count sub) = refl
is_to_server-send_error crates x (IncomingMessage.close sub) = refl
is_to_server-send_error crates x (IncomingMessage.unknown sub) = refl

send_error≢ :
    (crates : Crates) (x : Error) (m : IncomingMessage) (out : ClientMessage)
    → ¬ (send_error crates x m ∷ [] ≡ to_server out ∷ [])
unfolding is_to_server
send_error≢ crates x m out h = ground (arith, is_to_server-send_error crates x m)

forward-to_server :
    (crates : Crates) (r : ExtensionMessageResult) (out : ClientMessage)
    → forward crates r ≡ to_server out ∷ []
    → (r ≡ ExtensionMessageResult.continue out) × (validate_nip70 out ≡ ok tt)
unfolding forward
forward-to_server crates (ExtensionMessageResult.continue m) out h =
    answered (validate_nip70 m) refl
  where
    answered :
        (r : Check)
        → validate_nip70 m ≡ r
        → (ExtensionMessageResult.continue m ≡ ExtensionMessageResult.continue out)
          × (validate_nip70 out ≡ ok tt)
    answered (ok u) e =
        let same : m ≡ out = ground arith in
        (ap ExtensionMessageResult.continue same, subst (λ n. validate_nip70 n ≡ ok tt) same e)
    answered (err x) e = absurd (send_error≢ crates x m.msg out (ground arith))
    answered panicked e = absurd (ground arith)
forward-to_server crates (ExtensionMessageResult.stop o) out h = absurd (ground arith)
forward-to_server crates ExtensionMessageResult.ignore out h = absurd (ground arith)

module _ (crates : Crates) (parse : Bytes → Option IncomingMessage) where
  -- What is known of a text, when its message reaches the server.
  pub record Admitted (now : ℕ) (l : Limitation) (text : Bytes) (out : ClientMessage) : Type 0 where
    pub parsed : IncomingMessage
    pub is_parsed : parse text ≡ some parsed
    pub short : length text ≤ l.max_message_length
    pub passed : Passed crates now l parsed out.msg
    pub unprotected : Unprotected out

  -- With extensions that hand on the messages they get, a message reaches the server only if its
  -- text is within the limit and was parsed to a message that passed `validate` (its event checked,
  -- its filters limited) and goes on in that form, and it is no protected event unless an extension has
  -- marked it as checked.
  pub handle_message-Admitted :
      {S : Type 0} (now : ℕ) (l : Limitation) (exts : List (Extension S)) (id : ℕ) (text : Bytes)
      (s : S) (out : ClientMessage)
      → All HandsOn exts
      → (handle_message crates parse now l exts id text s).1 ≡ to_server out ∷ []
      → Admitted now l text out
  unfolding handle_message
  handle_message-Admitted now l exts id text s out a h = read (parse text) refl
    where
      checked :
          (m : IncomingMessage) (r : Outcome ClientMessage)
          → parse text ≡ some m
          → validate_message crates now l
              (record { id = id; text = text; msg = m; nip70_checked = false })
            ≡ r
          → Admitted now l text out
      checked m (ok msg) p q =
          let (e, u) = forward-to_server crates (call_message exts msg s).1 out (ground arith) in
          let (len, same, pass) = validate_message-Passed crates now l _ msg q in
          record {
            parsed = m;
            is_parsed = p;
            short = len;
            passed = subst (Passed crates now l m) (sym (call_message-msg exts msg out s a e)) pass;
            unprotected = validate_nip70-Unprotected out u;
          }
      checked m (err x) p q = absurd (send_error≢ crates x m out (ground arith))
      checked m panicked p q = absurd (ground arith)

      read : (r : Option IncomingMessage) → parse text ≡ r → Admitted now l text out
      read none p = absurd (ground arith)
      read (some m) p =
          checked m
            (validate_message crates now l
              (record { id = id; text = text; msg = m; nip70_checked = false }))
            p refl
