-- ===== src/Join/Cluster.antt =====
-- joinCluster of cmd/conure-db/join.go against the handlers of pkg/api/server.go: every seed is served
-- by one node that leads the cluster.
use mathlib.Core.List.{Memᴰ}
use conuredb.Common.{
  ℕ, ◌≡◌, refl, sym, inl, subst, true, Option, none, some, List, [], ◌∷◌, arith, map, eq_of_some,
}
use conuredb.Common.Bytes.{Bytes, equal_bytes}
use conuredb.Common.Text.{codes}
use conuredb.Storage.{bad_command}
use conuredb.Db.{Db}
use conuredb.Api
use conuredb.Api.{Raft, read_bytes}
use conuredb.Api.Members.{
  Membership, Server, ServerInfo, Decoded, decoded, undecodable, JoinBody, nothing, text,
  error_text, leader_hint, node_status, configuration, statistics, handle_join, handle_status,
  handle_raft_config,
}
use conuredb.Api.Members
use conuredb.Api.Routes.{Incoming, Routed, by_kv, by_members, not_found, route}
use conuredb.Join.{
  World, Network, JoinRequest, Url, Outgoing, Verb, get, post, of_url, of_text, Answer, failed,
  responded, join_cluster, parse_seeds, post_to, get_at, at_path,
}
use conuredb.Join.Outcomes.{Accepts, Lists, Honest, IsMember}
use conuredb.Join.Progress.{Admits, join_cluster-IsMember}

-- What decoding an answer as a leader hint gives, and as a list of ids.
abbrev pub leader_of : Members.Answer → Option Bytes
leader_of nothing = none
leader_of (text t) = none
leader_of (error_text e) = none
leader_of (leader_hint l) = some l
leader_of (node_status is l) = some l
leader_of (configuration l infos) = some l
leader_of (statistics s) = some []

abbrev pub ids_of : Members.Answer → Option (List Bytes)
ids_of nothing = none
ids_of (text t) = none
ids_of (error_text e) = none
ids_of (leader_hint l) = some []
ids_of (node_status is l) = some []
ids_of (configuration l infos) = some (map (λ i. i.id) infos)
ids_of (statistics s) = some []

-- What other packages make of URLs and of JSON.
pub record Web : Type 0 where
  pub parse_url : Bytes → Option Url
  pub query : Url → Bytes → Bytes
  pub encode : JoinRequest → Bytes
  pub leader_in : Bytes → Option Bytes
  pub ids_in : Bytes → Option (List Bytes)

-- A node of the cluster: its height of trees, its raft as the handlers see it.
pub record Peer : Type 0 where
  pub fuel : ℕ
  pub raft : Raft
  pub membership : Membership

abbrev pub method_of : Verb → Api.Method
method_of get = Api.get
method_of post = Api.post

abbrev pub body_text : Web → Option JoinRequest → Bytes
body_text web none = []
body_text web (some jr) = web.encode jr

abbrev pub join_body : Option JoinRequest → Decoded JoinBody
join_body none = undecodable bad_command
join_body (some jr) = decoded (record { id = jr.id; raft_addr = jr.raft_addr })

abbrev pub remove_body : Option JoinRequest → Decoded Bytes
remove_body none = undecodable bad_command
remove_body (some jr) = decoded jr.id

abbrev pub incoming : Web → Url → Outgoing → Incoming
incoming web u r = record {
  path = u.path;
  method = method_of r.method;
  query = web.query u;
  body = read_bytes (body_text web r.body);
  join_body = join_body r.body;
  remove_body = remove_body r.body;
}

abbrev pub kv_answer : Web → ℕ → Api.Body → Answer
kv_answer web status Api.nothing = responded (record { status = status; leader = none; ids = none })
kv_answer web status (Api.text t) =
    responded (record { status = status; leader = web.leader_in t; ids = web.ids_in t })
kv_answer web status (Api.error_text e) =
    responded (record { status = status; leader = none; ids = none })
kv_answer web status (Api.leader_hint l) =
    responded (record { status = status; leader = some l; ids = some [] })

-- The database of the node and the servers of the configuration.
abbrev pub Shared : Type 0
Shared = Db × List Server

abbrev pub received : Web → Shared → Routed → Answer × Shared
received web (d, ss) (by_kv (Api.responded status body e)) = (kv_answer web status body, (e, ss))
received web (d, ss) (by_kv Api.crashed) = (failed, (d, ss))
received web (d, ss) (by_members r) = (
  responded (record { status = r.status; leader = leader_of r.body; ids = ids_of r.body }),
  (d, r.servers),
)
received web (d, ss) not_found =
    (responded (record { status = 404; leader = none; ids = none }), (d, ss))

-- Every URL leads to the node; an address that was not parsed leads nowhere.
abbrev pub served : Web → Peer → Outgoing → World Shared → Answer × Shared
served web n r w = elim r.target [
  | of_text t ↦ (failed, w.outside)
  | of_url u ↦
      received web w.outside
        (route n.fuel n.raft n.membership (incoming web u r) w.outside.0 w.outside.1)
]

abbrev pub cluster : Web → Peer → Network Shared
cluster web n = record { send = served web n; parse_url = web.parse_url }

abbrev pub ids : List Server → List Bytes
ids [] = []
ids (s ∷ ss) = s.id ∷ ids ss

-- A leader whose raft knows its configuration and takes every voter in.
pub record Leads (m : Membership) : Type 0 where
  pub leads : m.is_leader ≡ true
  pub knows : (ss : List Server) → m.get_configuration ss ≡ decoded ss
  pub adds :
      (id addr : Bytes) (ss : List Server)
      → ((m.add_voter id addr ss).0 ≡ none) × Memᴰ id (ids (m.add_voter id addr ss).1)

-- The node is in the configuration.
abbrev pub Listed : Bytes → Shared → Type 0
Listed id (d, ss) = Memᴰ id (ids ss)

map-server_info : (ss : List Server) → map (λ i. i.id) (map Members.server_info ss) ≡ ids ss
map-server_info [] = refl
map-server_info (s ∷ ss) = rw (map-server_info ss)

module _ (web : Web) (n : Peer) (jr : JoinRequest) (l : Leads n.membership) where
  joins :
      (u : Url) (w : World Shared)
      → (cluster web n).send (post_to (at_path u (codes "/join")) jr) w ≡ (
        responded (record { status = 200; leader = none; ids = none }),
        (w.outside.0, (n.membership.add_voter jr.id jr.raft_addr w.outside.1).1),
      )
  unfolding route handle_join equal_bytes
  joins u w = let (e, listed) = l.adds jr.id jr.raft_addr w.outside.1 in ground (arith, l.leads, e)

  is_healthy :
      (u : Url) (w : World Shared)
      → (cluster web n).send (get_at u (codes "/status")) w ≡ (
        responded (record { status = 200; leader = some n.membership.leader; ids = some [] }),
        w.outside,
      )
  unfolding route handle_status equal_bytes
  is_healthy u w = refl

  lists :
      (u : Url) (w : World Shared)
      → (cluster web n).send (get_at u (codes "/raft/config")) w ≡ (
        responded (record {
          status = 200;
          leader = some n.membership.leader;
          ids = some (ids w.outside.1);
        }),
        w.outside,
      )
  unfolding route handle_raft_config equal_bytes
  lists u w = ground (arith, l.knows w.outside.1, map-server_info w.outside.1)

  cluster-Honest : Honest (cluster web n) jr (Listed jr.id)
  cluster-Honest = record {
    welcomed = λ u w ok.
        subst (λ x. Listed jr.id x.1) (sym (joins u w)) (l.adds jr.id jr.raft_addr w.outside.1).1;
    led = λ b w ok. elim ok [ ];
    listed = λ u w shown. listed_in u w shown;
  }
    where
      listed_in :
          (u : Url) (w : World Shared)
          → Lists jr.id ((cluster web n).send (get_at u (codes "/raft/config")) w).0
          → Listed jr.id ((cluster web n).send (get_at u (codes "/raft/config")) w).1
      listed_in u w shown =
          subst (λ x. Lists jr.id x.0 → Listed jr.id x.1) (sym (lists u w))
            (λ (s, (js, e, m)). subst (Memᴰ jr.id) (sym (eq_of_some e)) m) shown

  leader-Admits :
      (seed : Bytes) (u : Url) → web.parse_url seed ≡ some u → Admits (cluster web n) jr 0 seed
  leader-Admits seed u e = (
    u,
    e,
    λ w late. subst (λ x. Accepts x.0) (sym (is_healthy u w)) refl,
    λ w late. inl (subst (λ x. Accepts x.0) (sym (joins u w)) refl),
  )

-- When every seed is served by the routes of a node that leads the cluster, whose raft knows its
-- configuration and takes every voter in, joinCluster called for a node that has not paused yet ends in
-- its first round with the node in the configuration, if one of the seeds parses as a URL.
pub join_cluster-Enters :
    (web : Web) (n : Peer) (env seed : Bytes) (u : Url) (jr : JoinRequest) (backoff : ℕ)
    (w : World Shared)
    → Leads n.membership
    → w.pauses ≡ []
    → Memᴰ seed (parse_seeds env)
    → web.parse_url seed ≡ some u
    → IsMember (Listed jr.id) (join_cluster (cluster web n) env jr backoff 0 1 w)
join_cluster-Enters web n env seed u jr backoff w l p s e =
    join_cluster-IsMember (cluster web n) (Listed jr.id) env seed jr backoff 0 w
      (cluster-Honest web n jr l) p s (leader-Admits web n jr l seed u e)
