-- ===== src/Repl/Reads.antt =====
-- The client of cmd/repl/remote.go against the handler of /kv in pkg/api/server.go: one server leads,
-- and every other host is a server that follows it.
use conuredb.Common.{
  ℕ, suc, ◌≤◌, ◌≡◌, ◌≢◌, ◌∙◌, refl, ap, ◌⊎◌, inl, inr, true, false, Option, none, some, List, [],
  ◌∷◌, ◌++◌, if◌then◌else◌, arith, length,
}
use conuredb.Common.Bytes.{Bytes, equal_bytes, equal_bytes_refl}
use conuredb.Common.Text.{codes, trim_space, trim_newline-append}
use conuredb.Node.{max_key_size}
use conuredb.Storage.{Error, key_not_found}
use conuredb.Db
use conuredb.Db.{Db}
use conuredb.Db.Refines.{Map, Represents}
use conuredb.Fsm.Replicas.{Leaves}
use conuredb.Api.{
  Raft, Request, Served, crashed, Body, BodyRead, read_bytes, get, handle_kv, conflict, nothing,
  text, error_text, leader_hint,
}
use conuredb.Api
use conuredb.Api.Reads.{ReadFrom, with_value, without_value, handle_kv-ReadFrom}
use conuredb.Api.Followers.{a_fresh_get, handle_kv-redirect}
use conuredb.Repl.{
  Base, Call, Answer, failed, responded, Response, World, Network, Result, value, error,
  with_leader, ask, request, client_get, without_newline,
}

-- The text of an error, and of a leader hint in JSON.
pub record Texts : Type 0 where
  pub message : Error → Bytes
  pub hint : Bytes → Bytes

abbrev pub read_body : Option Bytes → BodyRead
read_body none = read_bytes []
read_body (some b) = read_bytes b

abbrev pub request_of : Call → Request
request_of c = record {
  method = c.method;
  key = c.key;
  stale = [];
  value = [];
  body = read_body c.body;
}

abbrev pub body_text : Texts → Body → Bytes
body_text t nothing = []
body_text t (text b) = b
body_text t (error_text e) = t.message e ++ (10 ∷ [])
body_text t (leader_hint l) = t.hint l

abbrev pub hint_of : Body → Bytes
hint_of nothing = []
hint_of (text b) = []
hint_of (error_text e) = []
hint_of (leader_hint l) = l

-- A panic of the handler closes the connection.
abbrev pub received : Texts → Served → Db → Answer × Db
received t (Api.responded status body after) d =
    (responded (record { status = status; body = body_text t body; leader = hint_of body }), after)
received t crashed d = (failed (codes "EOF"), d)

-- The host and the raft of the leader, and the raft of the others, which share a database here.
pub record Servers : Type 0 where
  pub fuel : ℕ
  pub texts : Texts
  pub leader_host : Bytes
  pub leading : Raft
  pub following : Raft

-- The databases are the leader's and the followers'.
unfoldable pub servers : Servers → Network (Db × Db)
servers s c (d, e) =
    if equal_bytes c.base.host s.leader_host
    then (let (a, after) = received s.texts (handle_kv s.fuel s.leading (request_of c) d) d in
        (a, (after, e)))
    else (let (a, after) = received s.texts (handle_kv s.fuel s.following (request_of c) e) e in
        (a, (d, after)))

-- What the client shows of a map's value.
abbrev pub shown_of : Texts → Option Bytes → Result
shown_of t (some v) = value v
shown_of t none = error (trim_space (t.message key_not_found ++ (10 ∷ [])))

abbrev response_of : Texts → Option Bytes → Response
response_of t (some v) = record { status = 200; body = v ++ (10 ∷ []); leader = [] }
response_of t none = record {
  status = 404;
  body = t.message key_not_found ++ (10 ∷ []);
  leader = [];
}

received-ReadFrom :
    (t : Texts) (h : ℕ) (m : Map) (o : Option Bytes) (x : Served) (d : Db)
    → ReadFrom h m o x
    → (received t x d).0 ≡ responded (response_of t o)
received-ReadFrom t h m _ _ d (with_value v e a) = refl
received-ReadFrom t h m _ _ d (without_value e a) = refl

-- A request that is answered as a map answers.
request-answered :
    (s : Servers) (key : Bytes) (o : Option Bytes) (n : ℕ) (base : Base) (w : World (Db × Db))
    → (ask
        (servers s)
        (record { base = base; path = codes "/kv"; method = get; key = key; body = none })
        w).0
      ≡ responded (response_of s.texts o)
    → without_newline (request (servers s) get key none (suc n) base w).0 ≡ shown_of s.texts o
unfolding request
request-answered s key (some v) n base w e = ground (arith, e, trim_newline-append v)
request-answered s key none n base w e = ground (arith, e)

abbrev fresh_get : Bytes → Request
fresh_get key = record { method = get; key = key; stale = []; value = []; body = read_bytes [] }

-- A server that follows sends the client to the leader it names.
abbrev pub LeadsTo : Servers → Base → Type 0
LeadsTo s base =
    (base.host ≡ s.leader_host)
    ⊎ ((equal_bytes base.host s.leader_host ≡ false)
        × (s.following.is_leader ≡ false)
        × ((with_leader s.following.leader base).host ≡ s.leader_host))

module _ (s : Servers) (key : Bytes) (d d' d'' e e' : Db) (m : Map) (ne : key ≢ [])
    (lk : length key ≤ max_key_size) (lead : s.leading.is_leader ≡ true)
    (left : Leaves (Db.reload d) d') (passes : s.leading.barrier d' ≡ (none, d''))
    (is : Represents s.fuel d'' m) (other : Leaves (Db.reload e) e') where
  at_leader :
      (n : ℕ) (base : Base) (calls : List (Call × Answer)) (f : Db)
      → base.host ≡ s.leader_host
      → without_newline
          (request
            (servers s)
            get
            key
            none
            (suc n)
            base
            (record { outside = (d, f); calls = calls })).0
        ≡ shown_of s.texts (m key)
  unfolding servers
  at_leader n base calls f here =
      let q : Request = fresh_get key in
      let answer =
        received-ReadFrom s.texts s.fuel m (m key) (handle_kv s.fuel s.leading q d) d
          (handle_kv-ReadFrom s.fuel s.leading q d d' d'' m ne lk refl lead left passes is) in
      request-answered s key (m key) n base (record { outside = (d, f); calls = calls })
        (ground (
          arith,
          answer,
          ap (λ h. equal_bytes h s.leader_host) here ∙ equal_bytes_refl s.leader_host,
        ))

  at_follower :
      (n : ℕ) (base : Base) (calls : List (Call × Answer))
      → equal_bytes base.host s.leader_host ≡ false
      → s.following.is_leader ≡ false
      → (with_leader s.following.leader base).host ≡ s.leader_host
      → without_newline
          (request
            (servers s)
            get
            key
            none
            (suc (suc n))
            base
            (record { outside = (d, e); calls = calls })).0
        ≡ shown_of s.texts (m key)
  unfolding servers request equal_bytes
  at_follower n base calls off follows there =
      let c : Call = record {
        base = base;
        path = codes "/kv";
        method = get;
        key = key;
        body = none;
      } in
      let next = with_leader s.following.leader base in
      let refused =
        handle_kv-redirect s.fuel s.following (fresh_get key) e e' ne follows
          (a_fresh_get refl refl) other in
      ground (
        arith,
        off,
        refused,
        at_leader n next (calls ++ ((c, (servers s c (d, e)).0) ∷ [])) e' there,
      )

-- With a leader whose barrier succeeds, after it has read the header again, and whose database then
-- represents a map, Get of the client for a key that is not empty and within the limit returns the map's value, or
-- the server's error without its newline where the map has none: from the leader itself, or through one
-- redirect of a follower that names a leader on the host that the client makes of it.
pub client_get-shown_of :
    (s : Servers) (key : Bytes) (d d' d'' e e' : Db) (m : Map) (base : Base)
    (calls : List (Call × Answer))
    → key ≢ []
    → length key ≤ max_key_size
    → s.leading.is_leader ≡ true
    → Leaves (Db.reload d) d'
    → s.leading.barrier d' ≡ (none, d'')
    → Represents s.fuel d'' m
    → Leaves (Db.reload e) e'
    → LeadsTo s base
    → (client_get (servers s) key base (record { outside = (d, e); calls = calls })).0
      ≡ shown_of s.texts (m key)
unfolding client_get
client_get-shown_of s key d d' d'' e e' m base calls ne lk lead left passes is other (inl here) =
    at_leader s key d d' d'' e e' m ne lk lead left passes is other 2 base calls e here
client_get-shown_of s key d d' d'' e e' m base calls ne lk lead left passes is other
      (inr (off, f, there)) =
    at_follower s key d d' d'' e e' m ne lk lead left passes is other 1 base calls off f there
