-- ===== src/Relay/Writer/Deletes.antt =====
-- relay/src/writer.rs: the deletion of events that are expired or ephemeral.
use rnostr.Prelude.Order.{Bytes}
use rnostr.Prelude.{ℕ, ◌+◌, ◌-◌, ◌%◌, Option, none, some, List, [], ◌∷◌}
use rnostr.Std.Words.{u64_mod}
use rnostr.Db.Error.{Outcome, ok, err, panicked}
use rnostr.Db.Codec.{Codec, id_data}
use rnostr.Db.Query.Open.{Iter, iter_expiration, iter_ephemeral}
use rnostr.Db.Query.Read.{for_each}
use rnostr.Kv.Lmdb.{Tree, Ffi, Act, pure, ◌>>=◌}
use rnostr.Kv.Lmdb.Iter.{Cursor}
use rnostr.Db.Tables.Puts.{del}
use rnostr.Relay.Writer.{Env}

abbrev pub ephemeral_expired_seconds : ℕ
ephemeral_expired_seconds = 300

-- The beginning of a transaction that reads, and of one that writes after it.
pub record Access (Txn : Type 0) : Type 0 where
  pub reader : Outcome Txn
  pub writer : Env Txn

module _ (ffi : Ffi) (codec : Codec) where
  -- The loop of `Db::batch_del`.
  unfoldable pub del_all : List Bytes → Act ffi.Txn (Unit {0})
  unfolding del
  del_all [] = pure tt
  del_all (id ∷ ids) = del ffi codec id >>= λ _. del_all ids

module _ (ffi : Ffi) (codec : Codec) (C : Cursor) (open_cursor : ffi.Txn → Tree → Outcome C.Cur)
    (steps : ℕ) where
  -- `Db::batch_del`: the transaction that is committed.
  unfoldable pub batch_del : Env ffi.Txn → List Bytes → Outcome ffi.Txn
  unfolding del_all
  batch_del env ids = elim env.begin [
    | err x ↦ err x
    | panicked ↦ panicked
    | ok txn ↦
        let (r, w) = del_all ffi codec ids txn in
        elim r [
          | err x ↦ err x
          | panicked ↦ panicked
          | ok _ ↦ elim (env.commit w) [ ok _ ↦ ok w | err x ↦ err x | panicked ↦ panicked ]
        ]
  ]

  -- The ids that the iterator gives, all read before the first is deleted; none is out of fuel.
  unfoldable pub del_given : Env ffi.Txn → Outcome (Iter C ffi.Txn) → Option (Outcome ffi.Txn)
  unfolding batch_del for_each id_data
  del_given env (err x) = some (err x)
  del_given env panicked = some panicked
  del_given env (ok it) = elim (for_each ffi codec C steps id_data steps it) [
    | none ↦ none
    | some (ok _, ids) ↦ some (batch_del env ids)
    | some (err x, ids) ↦ some (err x)
    | some (panicked, ids) ↦ some panicked
  ]

  unfoldable pub del_by :
      (ffi.Txn → Outcome (Iter C ffi.Txn)) → Access ffi.Txn → Option (Outcome ffi.Txn)
  unfolding del_given
  del_by make a = elim a.reader [
    | err x ↦ some (err x)
    | panicked ↦ some panicked
    | ok reader ↦ del_given a.writer (make reader)
  ]

  unfoldable pub del_expired : ℕ → Access ffi.Txn → Option (Outcome ffi.Txn)
  unfolding del_by iter_expiration
  del_expired now = del_by (λ reader. iter_expiration C steps open_cursor reader (some now))

  unfoldable pub del_ephemeral : ℕ → Access ffi.Txn → Option (Outcome ffi.Txn)
  unfolding del_by iter_ephemeral
  del_ephemeral now = del_by (λ reader.
      iter_ephemeral C steps open_cursor reader
        (some ((now + u64_mod - ephemeral_expired_seconds) % u64_mod)))

  -- `Writer::do_del`: an error of either is only logged; a panic of the first ends it.
  unfoldable pub do_del :
      ℕ → Access ffi.Txn → ℕ → Access ffi.Txn → Option (Outcome ffi.Txn × Option (Outcome ffi.Txn))
  unfolding del_expired del_ephemeral
  do_del now a later b = elim (del_expired now a) [
    | none ↦ none
    | some panicked ↦ some (panicked, none)
    | some (ok w) ↦ elim (del_ephemeral later b) [ none ↦ none | some r ↦ some (ok w, some r) ]
    | some (err x) ↦ elim (del_ephemeral later b) [ none ↦ none | some r ↦ some (err x, some r) ]
  ]
