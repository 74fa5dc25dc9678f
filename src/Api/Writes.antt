-- ===== src/Api/Writes.antt =====
-- What PUT and DELETE /kv answer.
use conuredb.Common.{ℕ, ◌≡◌, ◌≢◌, ◌∙◌, refl, true, Option, none, some, [], arith}
use conuredb.Common.Bytes.{Bytes}
use conuredb.Storage.{Error}
use conuredb.Db
use conuredb.Db.{Db, Reply, answered, refused}
use conuredb.Db.Refines.{Map, Represents}
use conuredb.Fsm.{Command, apply}
use conuredb.Fsm.Log.{step, Fitting, Applied, done, absent, stopped, apply-Applied}
use conuredb.Fsm.Replicas.{Leaves, by_answer, by_error}
use conuredb.Api.{
  Raft, Request, responded, text, put, delete, ok_text, put_command, delete_command, apply_answer,
  value_of, read_bytes, handle_put, handle_delete, handle_method, handle_kv,
}
use conuredb.Api.Reads.{handle_kv-reload}

put_steps :
    (fuel : ℕ) (r : Raft) (q : Request) (value : Bytes) (d : Db)
    → q.method ≡ put
    → r.is_leader ≡ true
    → value_of q.value q.body ≡ read_bytes value
    → handle_method fuel r q d ≡ apply_answer (r.apply (put_command q.key value) d)
unfolding handle_method handle_put
put_steps fuel r q value d m l v = ground (arith, m, l, v)

delete_steps :
    (fuel : ℕ) (r : Raft) (q : Request) (d : Db)
    → q.method ≡ delete
    → r.is_leader ≡ true
    → handle_method fuel r q d ≡ apply_answer (r.apply (delete_command q.key) d)
unfolding handle_method handle_delete
delete_steps fuel r q d m l = ground (arith, m, l)

-- The command that a write request stands for.
pub data Asks (q : Request) : Command → Type 0 where
  to_put :
      (value : Bytes)
      → q.method ≡ put
      → value_of q.value q.body ≡ read_bytes value
      → Asks q (put_command q.key value)
  to_delete : q.method ≡ delete → Asks q (delete_command q.key)

-- What a database holds once a command has been applied, unless its commit failed.
pub data Recorded (h : ℕ) (m : Map) (d : Db) : Type 0 where
  kept : Represents h d m → Recorded h m d
  uncommitted : d.tree.transaction ≡ true → Recorded h m d

recorded :
    (h : ℕ) (b : Db) (m : Map) (x : Reply (Unit {0})) (d : Db)
    → Applied h b m x
    → Leaves x d
    → Recorded h m d
recorded h b m _ _ (done e a disk) (by_answer _) = kept a
recorded h b m _ _ (absent e a disk) (by_error f _) = kept a
recorded h b m _ _ (stopped e f o) (by_error g _) = uncommitted o

answer_ok : (a : Option Error × Db) → a.0 ≡ none → apply_answer a ≡ responded 200 (text ok_text) a.1
answer_ok (none, d) e = refl
answer_ok (some x, d) e = absurd (cc)

-- On a server that leads and whose database represents a map once it has read the header again, a put
-- or delete of a fitting command, for a key that is not empty, where raft reports no error and leaves
-- the database as the state machine's `Apply` does, answers 200 OK. The database then represents the
-- map after the command's step, or the commit has failed and its transaction is open: the answer is
-- the same.
pub handle_kv-Recorded :
    (h : ℕ) (r : Raft) (q : Request) (c : Command) (d e : Db) (m : Map)
    → q.key ≢ []
    → r.is_leader ≡ true
    → Asks q c
    → Leaves (Db.reload d) e
    → Represents h e m
    → Fitting h c e
    → (r.apply c e).0 ≡ none
    → Leaves (apply h (some c) e) (r.apply c e).1
    → (handle_kv h r q d ≡ responded 200 (text ok_text) (r.apply c e).1)
      × Recorded h (step c m) (r.apply c e).1
handle_kv-Recorded h r q c d e m ne lead asks left a fits fine seen = (
  handle_kv-reload h r q d e ne left ∙ asked q c asks ∙ answer_ok (r.apply c e) fine,
  recorded h e (step c m) (apply h (some c) e) (r.apply c e).1 (apply-Applied h c e m a fits) seen,
)
  where
    asked :
        (q : Request) (c : Command) → Asks q c → handle_method h r q e ≡ apply_answer (r.apply c e)
    asked q _ (to_put value p v) = put_steps h r q value e p lead v
    asked q _ (to_delete p) = delete_steps h r q e p lead
