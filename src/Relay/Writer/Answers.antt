-- ===== src/Relay/Writer/Answers.antt =====
-- Every event that waits is answered (relay/src/writer.rs).
use rnostr.Prelude.{ℕ, ◌≡◌, ◌≢◌, refl, ap, List, [], ◌∷◌, map}
use rnostr.Db.Error.{Outcome, ok, err, panicked}
use rnostr.Db.Validate.{Event, Crates}
use rnostr.Db.Codec.{Codec}
use rnostr.Kv.Lmdb.{Ffi}
use rnostr.Db.Tables.Puts.{Store, put}
use rnostr.Relay.Server.{WriteEventResult}
use rnostr.Relay.Writer.{
  WriteEvent, Writer, Env, write_result, write_all, write, CheckEventResult, after_put,
}

-- Whom an answer is for, and about which event.
abbrev pub addressee : WriteEventResult → ℕ × Event
addressee (WriteEventResult.write id e result) = (id, e)
addressee (WriteEventResult.reply id e msg) = (id, e)

abbrev pub waiting : WriteEvent → ℕ × Event
waiting e = (e.id, e.event)

module _ (ffi : Ffi) (codec : Codec) (crates : Crates) where
  write_all-answers :
      (es : List WriteEvent) (s : Store ffi.Txn)
      → (write_all ffi codec crates es s).0 ≢ panicked
      → ((write_all ffi codec crates es s).2 ≡ [])
        × (map addressee (write_all ffi codec crates es s).3 ≡ map waiting es)
  unfolding write_all write_result
  write_all-answers [] s calm = (refl, refl)
  write_all-answers (e ∷ es) s calm =
      split (λ t. write_all-answers es t) (put ffi codec e.event s) calm
    where
      split :
          ((t : Store ffi.Txn)
            → (write_all ffi codec crates es t).0 ≢ panicked
            → ((write_all ffi codec crates es t).2 ≡ [])
              × (map addressee (write_all ffi codec crates es t).3 ≡ map waiting es))
          → (r : Outcome CheckEventResult × Store ffi.Txn)
          → (after_put ffi codec crates e r.0
              (panicked, r.1, es, [])
              (write_all ffi codec crates es r.1)).0
            ≢ panicked
          → ((after_put ffi codec crates e r.0
                (panicked, r.1, es, [])
                (write_all ffi codec crates es r.1)).2
              ≡ [])
            × (map addressee
                  (after_put ffi codec crates e r.0
                    (panicked, r.1, es, [])
                    (write_all ffi codec crates es r.1)).3
                ≡ map waiting (e ∷ es))
      split ih (ok a, t) h = let (p, q) = ih t h in (p, ap (◌∷◌ (waiting e)) q)
      split ih (err x, t) h = let (p, q) = ih t h in (p, ap (◌∷◌ (waiting e)) q)
      split ih (panicked, t) h = absurd (h refl)

  -- Where a transaction could be begun and no code panicked, every event that waited is answered
  -- once, the latest first, and none waits any longer, whether the commit then succeeds or fails:
  -- the answers are sent before it.
  pub write-answers :
      (env : Env ffi.Txn) (w : Writer) (txn : ffi.Txn)
      → env.begin ≡ ok txn
      → (write_all ffi codec crates w.events (record { txn = txn; seq = w.seq })).0 ≢ panicked
      → ((write ffi codec crates env w).writer.events ≡ [])
        × (map addressee (write ffi codec crates env w).sent ≡ map waiting w.events)
  unfolding write
  write-answers env w txn b calm = split w.events w.seq calm
    where
      split :
          (es : List WriteEvent) (n : ℕ)
          → (write_all ffi codec crates es (record { txn = txn; seq = n })).0 ≢ panicked
          → ((write ffi codec crates env (record { events = es; seq = n })).writer.events ≡ [])
            × (map addressee (write ffi codec crates env (record { events = es; seq = n })).sent
                ≡ map waiting es)
      split [] n c = (refl, refl)
      split (e ∷ es) n c = rw b (write_all-answers (e ∷ es) (record { txn = txn; seq = n }) c)
