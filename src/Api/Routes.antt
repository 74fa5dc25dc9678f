-- ===== src/Api/Routes.antt =====
-- pkg/api/server.go: what Register sets up on the mux. Paths come in the clean form that the mux gives
-- them, and another path gets its 404. A request comes with its query and its body parsed.
use conuredb.Common.{ℕ, List, if◌then◌else◌}
use conuredb.Common.Bytes.{Bytes, equal_bytes}
use conuredb.Common.Text.{codes}
use conuredb.Db.{Db}
use conuredb.Api.{Method, Request, BodyRead, Raft, Served, handle_kv}
use conuredb.Api.Members.{
  Membership, Server, JoinBody, Decoded, Response, handle_join, handle_remove, handle_status,
  handle_raft_config, handle_raft_stats,
}

-- The parameters by their names, empty when absent; the body as read, and as JSON of either kind.
pub record Incoming : Type 0 where
  pub path : Bytes
  pub method : Method
  pub query : Bytes → Bytes
  pub body : BodyRead
  pub join_body : Decoded JoinBody
  pub remove_body : Decoded Bytes

abbrev pub kv_request : Incoming → Request
kv_request i = record {
  method = i.method;
  key = i.query (codes "key");
  stale = i.query (codes "stale");
  value = i.query (codes "value");
  body = i.body;
}

pub data Routed : Type 0 where
  by_kv : Served → Routed
  by_members : Response → Routed
  not_found : Routed

unfoldable pub route : ℕ → Raft → Membership → Incoming → Db → List Server → Routed
route fuel r m i d ss =
    if equal_bytes i.path (codes "/kv")
    then by_kv (handle_kv fuel r (kv_request i) d)
    else (if equal_bytes i.path (codes "/join")
        then by_members (handle_join m i.method i.join_body ss)
        else (if equal_bytes i.path (codes "/remove")
            then by_members (handle_remove m i.method i.remove_body ss)
            else (if equal_bytes i.path (codes "/status")
                then by_members (handle_status m ss)
                else (if equal_bytes i.path (codes "/raft/config")
                    then by_members (handle_raft_config m ss)
                    else (if equal_bytes i.path (codes "/raft/stats")
                        then by_members (handle_raft_stats m ss)
                        else not_found)))))
