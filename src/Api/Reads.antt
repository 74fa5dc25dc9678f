-- ===== src/Api/Reads.antt =====
-- What GET /kv answers.
use conuredb.Common.{
  ℕ, ◌≡◌, ◌≢◌, ◌≤◌, ◌∙◌, ap, refl, sym, subst, true, Option, none, some, [], ◌∷◌, ◌++◌, arith,
  length,
}
use conuredb.Common.Bytes.{Bytes}
use conuredb.Node.{max_key_size}
use conuredb.Storage.{key_not_found}
use conuredb.Db
use conuredb.Db.{Db, Reply, answered, refused}
use conuredb.Db.Refines.{Map, Represents, Unchanged, found, missing, get-Unchanged}
use conuredb.Fsm.Replicas.{Leaves, by_answer, by_error}
use conuredb.Api.{
  Raft, Request, behind_barrier, Served, responded, text, error_text, get, read_answer, reloaded,
  handle_get, handle_method, handle_kv,
}

-- The answer that a map gives, from a database that still represents it.
pub data ReadFrom (h : ℕ) (m : Map) : Option Bytes → Served → Type 0 where
  with_value :
      (v : Bytes) (d : Db)
      → Represents h d m
      → ReadFrom h m (some v) (responded 200 (text (v ++ (10 ∷ []))) d)
  without_value :
      (d : Db) → Represents h d m → ReadFrom h m none (responded 404 (error_text key_not_found) d)

pub handle_kv-reload :
    (fuel : ℕ) (r : Raft) (q : Request) (d e : Db)
    → q.key ≢ []
    → Leaves (Db.reload d) e
    → handle_kv fuel r q d ≡ handle_method fuel r q e
unfolding handle_kv
handle_kv-reload fuel r q d e ne l = key_split q.key refl
  where
    leave :
        (x : Reply (Unit {0}))
        → Leaves x e
        → reloaded (handle_method fuel r q) x ≡ handle_method fuel r q e
    leave _ (by_answer _) = refl
    leave _ (by_error f _) = refl

    key_split : (k : Bytes) → q.key ≡ k → handle_kv fuel r q d ≡ handle_method fuel r q e
    key_split [] s = absurd (ne s)
    key_split (b ∷ bs) s = ground (arith, s, leave (Db.reload d) l)

get_reads :
    (fuel : ℕ) (r : Raft) (q : Request) (d e : Db)
    → q.method ≡ get
    → r.is_leader ≡ true
    → r.barrier d ≡ (none, e)
    → handle_method fuel r q d ≡ read_answer (Db.get fuel q.key e)
unfolding handle_method handle_get
get_reads fuel r q d e g l b = ground (arith, g, l) ∙ ap (behind_barrier fuel q.key) b

pub answer-ReadFrom :
    (h : ℕ) (b : Db) (m : Map) (o : Option Bytes) (r : Reply Bytes)
    → Unchanged h b m o key_not_found r
    → ReadFrom h m o (read_answer r)
answer-ReadFrom h b m _ _ (found v e d a disk) = with_value v d a
answer-ReadFrom h b m _ _ (missing e d a disk) = without_value d a

-- On a server that leads, GET of a key that is not empty and within the limit, where the database that
-- a barrier leaves, after the header has been read again, represents a map, answers 200 with that map's
-- value and a newline, or 404 where the map has none, and the database still represents the map. What the
-- database held before the barrier does not matter.
pub handle_kv-ReadFrom :
    (h : ℕ) (r : Raft) (q : Request) (d e f : Db) (m : Map)
    → q.key ≢ []
    → length q.key ≤ max_key_size
    → q.method ≡ get
    → r.is_leader ≡ true
    → Leaves (Db.reload d) e
    → r.barrier e ≡ (none, f)
    → Represents h f m
    → ReadFrom h m (m q.key) (handle_kv h r q d)
handle_kv-ReadFrom h r q d e f m ne lk g l left b a =
    subst (ReadFrom h m (m q.key))
      (sym (handle_kv-reload h r q d e ne left ∙ get_reads h r q e f g l b))
      (answer-ReadFrom h f m (m q.key) (Db.get h q.key f) (get-Unchanged h f m q.key a lk))
