-- ===== src/Extensions/Auth/Permissions.antt =====
-- What `verify_permission` (extensions/src/auth.rs) lets through.
use Prim.Native.String.{String}
use rnostr.Prelude.Order.{Bytes, Bytes-discrete}
use rnostr.Prelude.{◌≡◌, refl, ◌↔◌, true, false, Option, none, some, List, has, arith}
use rnostr.Db.Error.{ok}
use rnostr.Db.Validate.{Check}
use rnostr.Db.Validate.Conditions.{ok_bind}
use rnostr.Extensions.Auth.{
  Permission, check_white, check_black, check_author, check_login, verify_permission,
}

-- On a whitelist, if there is one.
abbrev pub Listed : Option (List Bytes) → Bytes → Type 0
Listed none item = Unit
Listed (some l) item = has Bytes-discrete item l ≡ true

-- On no blacklist.
abbrev pub Unlisted : Option (List Bytes) → Bytes → Type 0
Unlisted none item = Unit
Unlisted (some l) item = has Bytes-discrete item l ≡ false

abbrev pub AuthorMay : Permission → Option Bytes → Type 0
AuthorMay p none = Unit
AuthorMay p (some author) =
    Listed p.event_pubkey_whitelist author × Unlisted p.event_pubkey_blacklist author

-- Where a list of keys is set, a key without which nothing is let through.
abbrev pub WithKey : Option (List Bytes) → Option Bytes → (Bytes → Type 0) → Type 0
WithKey none pubkey test = Unit
WithKey (some l) none test = ⊥
WithKey (some l) (some k) test = test k

abbrev pub Permitted : Option Permission → Option Bytes → Option Bytes → Bytes → Type 0
Permitted none pubkey author ip = Unit
Permitted (some p) pubkey author ip =
    Listed p.ip_whitelist ip
    × Unlisted p.ip_blacklist ip
    × AuthorMay p author
    × WithKey p.pubkey_whitelist pubkey (Listed p.pubkey_whitelist)
    × WithKey p.pubkey_blacklist pubkey (Unlisted p.pubkey_blacklist)

check_white-Listed :
    (list : Option (List Bytes)) (item : Bytes) (why : String)
    → (check_white list item why ≡ ok tt) ↔ Listed list item
unfolding check_white
check_white-Listed none item why = (λ h. tt, λ m. refl)
check_white-Listed (some l) item why = (λ h. ground arith, λ m. ground arith)

check_black-Unlisted :
    (list : Option (List Bytes)) (item : Bytes) (why : String)
    → (check_black list item why ≡ ok tt) ↔ Unlisted list item
unfolding check_black
check_black-Unlisted none item why = (λ h. tt, λ m. refl)
check_black-Unlisted (some l) item why = (λ h. ground arith, λ m. ground arith)

check_author-AuthorMay :
    (p : Permission) (author : Option Bytes) → (check_author p author ≡ ok tt) ↔ AuthorMay p author
unfolding check_author
check_author-AuthorMay p none = (λ h. tt, λ m. refl)
check_author-AuthorMay p (some a) =
    let white =
      check_white-Listed p.event_pubkey_whitelist a "event author pubkey not in whitelist" in
    let black =
      check_black-Unlisted p.event_pubkey_blacklist a "event author pubkey in blacklist" in
    (
      λ h. let (x, y) = (ok_bind _ _ tt).0 h in (white.0 x, black.0 y),
      λ m. (ok_bind _ _ tt).1 (white.1 m.0, black.1 m.1),
    )

check_login-WithKey :
    (list : Option (List Bytes)) (pubkey : Option Bytes) (test : Bytes → Check)
    (Meets : Bytes → Type 0)
    → ((k : Bytes) → (test k ≡ ok tt) ↔ Meets k)
    → (check_login list pubkey test ≡ ok tt) ↔ WithKey list pubkey Meets
unfolding check_login
check_login-WithKey none pubkey test Meets h = (λ e. tt, λ m. refl)
check_login-WithKey (some l) none test Meets h = (λ e. ground arith, λ m. absurd m)
check_login-WithKey (some l) (some k) test Meets h = h k

-- A permission lets a message through exactly if the address is on its whitelist and not on its
-- blacklist, the same holds for the author of an event, and, where it has a list of session keys,
-- the session has shown a key, which is on the whitelist and not on the blacklist. A list that is
-- not set asks nothing; without a permission everything passes.
pub verify_permission-Permitted :
    (permission : Option Permission) (pubkey author : Option Bytes) (ip : Bytes)
    → (verify_permission permission pubkey author ip ≡ ok tt)
      ↔ Permitted permission pubkey author ip
unfolding verify_permission
verify_permission-Permitted none pubkey author ip = (λ h. tt, λ m. refl)
verify_permission-Permitted (some p) pubkey author ip =
    let white = check_white-Listed p.ip_whitelist ip "ip not in whitelist" in
    let black = check_black-Unlisted p.ip_blacklist ip "ip in blacklist" in
    let writer = check_author-AuthorMay p author in
    let listed =
      check_login-WithKey p.pubkey_whitelist pubkey _ (Listed p.pubkey_whitelist)
        (λ k. check_white-Listed p.pubkey_whitelist k "pubkey not in whitelist") in
    let unlisted =
      check_login-WithKey p.pubkey_blacklist pubkey _ (Unlisted p.pubkey_blacklist)
        (λ k. check_black-Unlisted p.pubkey_blacklist k "pubkey in blacklist") in
    (
      λ h.
          let (a, b) = (ok_bind _ _ tt).0 h in
          let (c, d) = (ok_bind _ _ tt).0 b in
          let (e, f) = (ok_bind _ _ tt).0 d in
          let (g, i) = (ok_bind _ _ tt).0 f in
          (white.0 a, black.0 c, writer.0 e, listed.0 g, unlisted.0 i),
      λ m. (ok_bind _ _ tt).1 (
        white.1 m.0,
        (ok_bind _ _ tt).1 (
          black.1 m.1,
          (ok_bind _ _ tt).1 (writer.1 m.2, (ok_bind _ _ tt).1 (listed.1 m.3, unlisted.1 m.4)),
        ),
      ),
    )
