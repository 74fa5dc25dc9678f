-- ===== src/Api.antt =====
-- pkg/api/server.go: the handler of /kv. A request comes with its query parameters parsed; raft is a
-- parameter, and `net/http` recovers a panic of the handler without an answer.
pub mod Members
pub mod Routes
pub mod Reads
pub mod Followers
pub mod Writes
use conuredb.Common.{
  ℕ, Bool, true, false, ◌||◌, Option, none, some, List, [], ◌∷◌, ◌++◌, ◌==◌, ltb, ◌&&◌, ◌+◌,
  if◌then◌else◌,
}
use conuredb.Common.Bytes.{Bytes, equal_bytes}
use conuredb.Storage.{Error}
use conuredb.Db
use conuredb.Db.{Db, Reply, answered, refused, panicked, out_of_fuel}
use conuredb.Fsm.{Command, cmd_put, cmd_delete}

pub data Method : Type 0 where
  get put delete post other : Method

-- What reading the request's body gives.
pub data BodyRead : Type 0 where
  read_bytes : Bytes → BodyRead
  unreadable : Error → BodyRead

pub record Request : Type 0 where
  pub method : Method
  pub key : Bytes
  pub stale : Bytes
  pub value : Bytes
  pub body : BodyRead

-- What the handler asks of its raft node: whether it leads, who leads, a barrier, which waits until the
-- entries before it are applied, and the application of a command. The last two give an error and the
-- database as it then is.
pub record Raft : Type 0 where
  pub is_leader : Bool
  pub leader : Bytes
  pub barrier : Db → Option Error × Db
  pub apply : Command → Db → Option Error × Db

pub data Body : Type 0 where
  nothing : Body
  text : Bytes → Body
  error_text : Error → Body
  leader_hint : Bytes → Body

pub data Served : Type 0 where
  responded : ℕ → Body → Db → Served
  crashed : Served

-- "OK\n" and "missing key\n".
abbrev pub ok_text : Bytes
ok_text = 79 ∷ 75 ∷ 10 ∷ []

abbrev pub missing_key : Bytes
missing_key = 109 ∷ 105 ∷ 115 ∷ 115 ∷ 105 ∷ 110 ∷ 103 ∷ 32 ∷ 107 ∷ 101 ∷ 121 ∷ 10 ∷ []

abbrev pub lower : ℕ → ℕ
lower b = if ltb 64 b && ltb b 91 then b + 32 else b

abbrev pub lowered : Bytes → Bytes
lowered [] = []
lowered (b ∷ bs) = lower b ∷ lowered bs

-- `strings.EqualFold(s, "true") || s == "1"`. None of the letters of "true" folds to a letter that is
-- not ASCII.
abbrev pub is_stale : Bytes → Bool
is_stale s = equal_bytes (lowered s) (116 ∷ 114 ∷ 117 ∷ 101 ∷ []) || equal_bytes s (49 ∷ [])

-- `s.db.Get(key)` and the answer.
abbrev pub read_answer : Reply Bytes → Served
read_answer (answered v d) = responded 200 (text (v ++ (10 ∷ []))) d
read_answer (refused e d) = responded 404 (error_text e) d
read_answer panicked = crashed
read_answer out_of_fuel = crashed

abbrev pub conflict : Raft → Db → Served
conflict r d = responded 409 (leader_hint r.leader) d

-- The barrier's error and the database behind it.
abbrev pub behind_barrier : ℕ → Bytes → Option Error × Db → Served
behind_barrier fuel key (some e, d) = responded 503 (error_text e) d
behind_barrier fuel key (none, d) = read_answer (Db.get fuel key d)

unfoldable pub handle_get : ℕ → Raft → Request → Db → Served
handle_get fuel r q d =
    if r.is_leader
    then behind_barrier fuel q.key (r.barrier d)
    else (if is_stale q.stale then read_answer (Db.get fuel q.key d) else conflict r d)

-- `s.node.Apply(cmd, …)` and the answer.
abbrev pub apply_answer : Option Error × Db → Served
apply_answer (some e, d) = responded 500 (error_text e) d
apply_answer (none, d) = responded 200 (text ok_text) d

abbrev pub put_command : Bytes → Bytes → Command
put_command key value = record { type = cmd_put; key = key; value = value }

abbrev pub delete_command : Bytes → Command
delete_command key = record { type = cmd_delete; key = key; value = [] }

-- The value parameter, or else the body.
abbrev pub value_of : Bytes → BodyRead → BodyRead
value_of [] body = body
value_of (b ∷ bs) body = read_bytes (b ∷ bs)

abbrev pub put_answer : Raft → Bytes → Db → BodyRead → Served
put_answer r key d (read_bytes value) = apply_answer (r.apply (put_command key value) d)
put_answer r key d (unreadable e) = responded 400 (error_text e) d

unfoldable pub handle_put : Raft → Request → Db → Served
handle_put r q d =
    if r.is_leader then put_answer r q.key d (value_of q.value q.body) else conflict r d

unfoldable pub handle_delete : Raft → Request → Db → Served
handle_delete r q d =
    if r.is_leader then apply_answer (r.apply (delete_command q.key) d) else conflict r d

unfoldable pub handle_method : ℕ → Raft → Request → Db → Served
handle_method fuel r q d = elim q.method [
  | get ↦ handle_get fuel r q d
  | put ↦ handle_put r q d
  | delete ↦ handle_delete r q d
  | post ↦ responded 405 nothing d
  | other ↦ responded 405 nothing d
]

-- The header is read again first, and an error of that is ignored.
abbrev pub reloaded : (Db → Served) → Reply (Unit {0}) → Served
reloaded next (answered u d) = next d
reloaded next (refused e d) = next d
reloaded next panicked = crashed
reloaded next out_of_fuel = crashed

unfoldable pub handle_kv : ℕ → Raft → Request → Db → Served
handle_kv fuel r q d = elim q.key [
  | [] ↦ responded 400 (text missing_key) d
  | b ∷ bs ↦ reloaded (handle_method fuel r q) (Db.reload d)
]
