-- ===== src/Api/Members.antt =====
-- pkg/api/server.go: the handlers of /join, /remove, /status, /raft/config and /raft/stats. Raft is a parameter, over the list of servers that its configuration holds; a body comes
-- decoded from JSON, and answers are the values that are encoded.
use conuredb.Common.{ℕ, Bool, true, false, Option, none, some, List, map, if◌then◌else◌}
use conuredb.Common.Bytes.{Bytes}
use conuredb.Common.Text.{codes}
use conuredb.Storage.{Error}
use conuredb.Api.{Method, get, put, delete, post, other, ok_text}

-- raft's `Suffrage`; another value is none that the library names.
pub data Suffrage : Type 0 where
  voter nonvoter staging another : Suffrage

pub record Server : Type 0 where
  pub id : Bytes
  pub address : Bytes
  pub suffrage : Suffrage

pub record ServerInfo : Type 0 where
  pub id : Bytes
  pub address : Bytes
  pub suffrage : Bytes

pub data Decoded (A : Type 0) : Type 0 where
  decoded : A → Decoded A
  undecodable : Error → Decoded A

pub record JoinBody : Type 0 where
  pub id : Bytes
  pub raft_addr : Bytes

-- What the handlers ask of raft. A change of the configuration gives the error of its future and the
-- servers there are then.
pub record Membership : Type 0 where
  pub is_leader : Bool
  pub leader : Bytes
  pub add_voter : Bytes → Bytes → List Server → Option Error × List Server
  pub remove_server : Bytes → List Server → Option Error × List Server
  pub get_configuration : List Server → Decoded (List Server)
  pub stats : List (Bytes × Bytes)

pub data Answer : Type 0 where
  nothing : Answer
  text : Bytes → Answer
  error_text : Error → Answer
  leader_hint : Bytes → Answer
  node_status : Bool → Bytes → Answer
  configuration : Bytes → List ServerInfo → Answer
  statistics : List (Bytes × Bytes) → Answer

pub record Response : Type 0 where
  pub status : ℕ
  pub body : Answer
  pub servers : List Server

abbrev pub respond : ℕ → Answer → List Server → Response
respond status body servers = record { status = status; body = body; servers = servers }

abbrev pub suffrage_to_string : Suffrage → Bytes
suffrage_to_string voter = codes "voter"
suffrage_to_string staging = codes "staging"
suffrage_to_string nonvoter = codes "nonvoter"
suffrage_to_string another = codes "unknown"

abbrev pub server_info : Server → ServerInfo
server_info s = record { id = s.id; address = s.address; suffrage = suffrage_to_string s.suffrage }

unfoldable pub handle_status : Membership → List Server → Response
handle_status m ss = respond 200 (node_status m.is_leader m.leader) ss

unfoldable pub handle_raft_config : Membership → List Server → Response
handle_raft_config m ss = elim (m.get_configuration ss) [
  | undecodable e ↦ respond 500 (error_text e) ss
  | decoded servers ↦ respond 200 (configuration m.leader (map server_info servers)) ss
]

unfoldable pub handle_raft_stats : Membership → List Server → Response
handle_raft_stats m ss = respond 200 (statistics m.stats) ss

abbrev pub is_post : Method → Bool
is_post get = false
is_post put = false
is_post delete = false
is_post post = true
is_post other = false

-- The end of a change of the configuration.
abbrev pub changed : Option Error × List Server → Response
changed (some e, ss) = respond 500 (error_text e) ss
changed (none, ss) = respond 200 (text ok_text) ss

unfoldable pub handle_join : Membership → Method → Decoded JoinBody → List Server → Response
handle_join m method body ss =
    if is_post method
    then elim body [
      | undecodable e ↦ respond 400 (error_text e) ss
      | decoded b ↦
          if m.is_leader
          then changed (m.add_voter b.id b.raft_addr ss)
          else respond 409 (leader_hint m.leader) ss
    ]
    else respond 405 nothing ss

-- The body of /remove is the id alone.
unfoldable pub handle_remove : Membership → Method → Decoded Bytes → List Server → Response
handle_remove m method body ss =
    if is_post method
    then elim body [
      | undecodable e ↦ respond 400 (error_text e) ss
      | decoded id ↦
          if m.is_leader
          then changed (m.remove_server id ss)
          else respond 409 (leader_hint m.leader) ss
    ]
    else respond 405 nothing ss
