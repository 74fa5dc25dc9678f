-- ===== src/Api/Followers.antt =====
-- What a server that does not lead answers on /kv.
use conuredb.Common.{
  ℕ, ◌≡◌, ◌≢◌, ◌≤◌, ◌∙◌, subst, refl, sym, true, false, ◌⊎◌, inl, inr, [], ◌∷◌, arith, length,
  Bool-cases,
}
use conuredb.Node.{max_key_size}
use conuredb.Common.Bytes.{Bytes}
use conuredb.Db
use conuredb.Db.{Db}
use conuredb.Db.Refines.{Map, Represents, get-Unchanged}
use conuredb.Fsm.Replicas.{Leaves}
use conuredb.Api.{
  Raft, Request, Served, Method, responded, nothing, text, leader_hint, missing_key, get, put,
  delete, post, other, is_stale, read_answer, handle_get, handle_put, handle_delete, handle_method,
  handle_kv,
}
use conuredb.Api.Reads.{ReadFrom, handle_kv-reload, answer-ReadFrom}

-- The requests that only a leader serves.
pub data NeedsLeader (q : Request) : Type 0 where
  a_put : q.method ≡ put → NeedsLeader q
  a_delete : q.method ≡ delete → NeedsLeader q
  a_fresh_get : q.method ≡ get → is_stale q.stale ≡ false → NeedsLeader q

redirects :
    (fuel : ℕ) (r : Raft) (q : Request) (d : Db)
    → r.is_leader ≡ false
    → NeedsLeader q
    → handle_method fuel r q d ≡ responded 409 (leader_hint r.leader) d
unfolding handle_method handle_put handle_delete handle_get
redirects fuel r q d f (a_put m) = ground (arith, m, f)
redirects fuel r q d f (a_delete m) = ground (arith, m, f)
redirects fuel r q d f (a_fresh_get m s) = ground (arith, m, f, s)

-- A request that only a leader serves, for a key that is not empty, is answered with 409 and the leader.
pub handle_kv-redirect :
    (fuel : ℕ) (r : Raft) (q : Request) (d e : Db)
    → q.key ≢ []
    → r.is_leader ≡ false
    → NeedsLeader q
    → Leaves (Db.reload d) e
    → handle_kv fuel r q d ≡ responded 409 (leader_hint r.leader) e
handle_kv-redirect fuel r q d e ne f need l =
    handle_kv-reload fuel r q d e ne l ∙ redirects fuel r q e f need

-- The answer to any request, from a database `d` that reading the header again turns into `e`.
pub data FollowerAnswer (h : ℕ) (r : Raft) (q : Request) (d e : Db) (m : Map)
    : Served → Type 0 where
  keyless : q.key ≡ [] → FollowerAnswer h r q d e m (responded 400 (text missing_key) d)
  redirected : NeedsLeader q → FollowerAnswer h r q d e m (responded 409 (leader_hint r.leader) e)
  served_stale :
      (x : Served)
      → q.method ≡ get
      → is_stale q.stale ≡ true
      → ReadFrom h m (m q.key) x
      → FollowerAnswer h r q d e m x
  not_allowed :
      q.method ≢ get
      → q.method ≢ put
      → q.method ≢ delete
      → FollowerAnswer h r q d e m (responded 405 nothing e)

stale_reads :
    (fuel : ℕ) (r : Raft) (q : Request) (d : Db)
    → q.method ≡ get
    → r.is_leader ≡ false
    → is_stale q.stale ≡ true
    → handle_method fuel r q d ≡ read_answer (Db.get fuel q.key d)
unfolding handle_method handle_get
stale_reads fuel r q d g l s = ground (arith, g, l, s)

no_method :
    (fuel : ℕ) (r : Raft) (q : Request) (d : Db) (m : Method)
    → q.method ≡ m
    → (m ≡ post) ⊎ (m ≡ other)
    → handle_method fuel r q d ≡ responded 405 nothing d
unfolding handle_method
no_method fuel r q d m e (inl p) = ground (arith, e ∙ p)
no_method fuel r q d m e (inr p) = ground (arith, e ∙ p)

without_key :
    (fuel : ℕ) (r : Raft) (q : Request) (d : Db)
    → q.key ≡ []
    → handle_kv fuel r q d ≡ responded 400 (text missing_key) d
unfolding handle_kv
without_key fuel r q d e = ground (arith, e)

-- A server that does not lead, and whose database represents a map once the header has been read again,
-- answers every request, its key within the limit: 400 without a key; 409 with the leader's address to a
-- put, a delete and a get that is not marked stale; to a stale get 200 with the map's value or 404 where
-- the map has none; 405 to other methods. The database is untouched without a key, still represents the
-- map behind a stale get, and otherwise is the one that reading the header again leaves.
pub handle_kv-FollowerAnswer :
    (h : ℕ) (r : Raft) (q : Request) (d e : Db) (m : Map)
    → r.is_leader ≡ false
    → length q.key ≤ max_key_size
    → Leaves (Db.reload d) e
    → Represents h e m
    → FollowerAnswer h r q d e m (handle_kv h r q d)
handle_kv-FollowerAnswer h r q d e m f lk l a = by_key q.key refl
  where
    by_method : (x : Method) → q.method ≡ x → FollowerAnswer h r q d e m (handle_method h r q e)
    by_method get s = elim (Bool-cases (is_stale q.stale)) [
      | inl y ↦ served_stale (handle_method h r q e) s y (
          subst (ReadFrom h m (m q.key)) (sym (stale_reads h r q e s f y))
            (answer-ReadFrom h e m (m q.key) (Db.get h q.key e) (get-Unchanged h e m q.key a lk)))
      | inr n ↦
          subst (FollowerAnswer h r q d e m) (sym (redirects h r q e f (a_fresh_get s n)))
            (redirected (a_fresh_get s n))
    ]
    by_method put s =
        subst (FollowerAnswer h r q d e m) (sym (redirects h r q e f (a_put s)))
          (redirected (a_put s))
    by_method delete s =
        subst (FollowerAnswer h r q d e m) (sym (redirects h r q e f (a_delete s)))
          (redirected (a_delete s))
    by_method post s =
        subst (FollowerAnswer h r q d e m) (sym (no_method h r q e post s (inl refl)))
          (not_allowed (λ y. cc) (λ y. cc) (λ y. cc))
    by_method other s =
        subst (FollowerAnswer h r q d e m) (sym (no_method h r q e other s (inr refl)))
          (not_allowed (λ y. cc) (λ y. cc) (λ y. cc))

    by_key : (k : Bytes) → q.key ≡ k → FollowerAnswer h r q d e m (handle_kv h r q d)
    by_key [] s = subst (FollowerAnswer h r q d e m) (sym (without_key h r q d s)) (keyless s)
    by_key (b ∷ bs) s =
        subst (FollowerAnswer h r q d e m) (sym (handle_kv-reload h r q d e (λ n. cc) l))
          (by_method q.method refl)
