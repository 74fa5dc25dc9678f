-- ===== src/Join.antt =====
-- cmd/conure-db/join.go: a node that starts without bootstrapping asks the seeds to let it in, over
-- and over. The network and `url.Parse` are parameters; `time.Sleep` records the pause taken. Logging
-- is left out, and a duration or an int is its 64 bits.
pub mod Rounds
pub mod Pauses
pub mod Outcomes
pub mod Progress
pub mod Cluster
use conuredb.Common.{
  ℕ, zero, suc, ◌+◌, ◌*◌, ◌/◌, ◌^◌, Bool, true, false, ◌||◌, ◌&&◌, not, Option, none, some, List,
  [], ◌∷◌, ◌++◌, ◌==◌, ltb, leb, if◌then◌else◌,
}
use conuredb.Common.Bytes.{Bytes, equal_bytes}
use conuredb.Common.Text.{codes, trim_space, split_on}

pub record JoinRequest : Type 0 where
  pub id : Bytes
  pub raft_addr : Bytes

-- A parsed URL: the path, and all that join.go leaves alone.
pub record Url : Type 0 where
  pub origin : Bytes
  pub path : Bytes

pub data Verb : Type 0 where
  get post : Verb

pub data Target : Type 0 where
  of_url : Url → Target
  of_text : Bytes → Target

pub record Outgoing : Type 0 where
  pub method : Verb
  pub target : Target
  pub body : Option JoinRequest

-- A status and the body, decoded as a leader hint and as a list of the cluster's ids, where that
-- succeeds.
pub record Response : Type 0 where
  pub status : ℕ
  pub leader : Option Bytes
  pub ids : Option (List Bytes)

-- `failed` when the request cannot be made, sent or answered.
pub data Answer : Type 0 where
  failed : Answer
  responded : Response → Answer

-- What the node shares with the rest of the world, and the pauses it has taken, oldest first.
pub record World (W : Type 0) : Type 0 where
  pub outside : W
  pub pauses : List ℕ

pub record Network (W : Type 0) : Type 0 where
  pub send : Outgoing → World W → Answer × W
  pub parse_url : Bytes → Option Url

-- What comes of a run: `trying` when the rounds allowed are used up.
pub data Joining (W : Type 0) : Type 0 where
  joined : World W → Joining W
  already_member : World W → Joining W
  gave_up : ℕ → World W → Joining W
  trying : World W → Joining W

abbrev pub default_seed : Bytes
default_seed = codes "http://conure-0.conure-hs:8081"

-- The parts that are not blank, trimmed.
unfoldable pub seeds_of : List Bytes → List Bytes
seeds_of [] = []
seeds_of (p ∷ ps) = elim (trim_space p) [ [] ↦ seeds_of ps | b ∷ bs ↦ (b ∷ bs) ∷ seeds_of ps ]

abbrev pub or_default_seed : List Bytes → List Bytes
or_default_seed [] = default_seed ∷ []
or_default_seed (s ∷ ss) = s ∷ ss

-- The argument is CONURE_SEEDS, empty when it is not set.
unfoldable pub parse_seeds : Bytes → List Bytes
parse_seeds [] = default_seed ∷ []
parse_seeds (b ∷ bs) = or_default_seed (seeds_of (split_on 44 (b ∷ bs)))

-- Whether the answer has status 200.
abbrev pub is_ok : Answer → Bool
is_ok failed = false
is_ok (responded r) = r.status == 200

abbrev pub at_path : Url → Bytes → Target
at_path u path = of_url (record u { path = path })

abbrev pub get_at : Url → Bytes → Outgoing
get_at u path = record { method = get; target = at_path u path; body = none }

abbrev pub post_to : Target → JoinRequest → Outgoing
post_to target jr = record { method = post; target = target; body = some jr }

abbrev pub is_listed : Bytes → List Bytes → Bool
is_listed id [] = false
is_listed id (j ∷ js) = equal_bytes j id || is_listed id js

module _ {W : Type 0} where
  abbrev pub ask : Network W → Outgoing → World W → Answer × World W
  ask net r w = let (answer, after) = net.send r w in (answer, record w { outside = after })

  abbrev pub ok_answer : Answer × World W → Bool × World W
  ok_answer (a, w) = (is_ok a, w)

  unfoldable pub is_seed_healthy : Network W → Bytes → World W → Bool × World W
  is_seed_healthy net seed w = elim (net.parse_url seed) [
    | none ↦ (false, w)
    | some u ↦ ok_answer (ask net (get_at u (codes "/status")) w)
  ]

  unfoldable pub try_join_leader : Network W → Bytes → JoinRequest → World W → Bool × World W
  try_join_leader net leader jr w =
      ok_answer (ask net (post_to (of_text (codes "http://" ++ (leader ++ codes "/join"))) jr) w)

  abbrev pub lists_node : Bytes → Answer × World W → Bool × World W
  lists_node id (failed, w) = (false, w)
  lists_node id (responded r, w) = elim r.ids [
    | none ↦ (false, w)
    | some ids ↦ ((r.status == 200) && is_listed id ids, w)
  ]

  -- What one seed says of the node's membership.
  abbrev pub look_up : Network W → Bytes → Bytes → World W → Bool × World W
  look_up net id seed w = elim (net.parse_url seed) [
    | none ↦ (false, w)
    | some u ↦ lists_node id (ask net (get_at u (codes "/raft/config")) w)
  ]

  unfoldable pub is_already_in_cluster : Network W → Bytes → List Bytes → World W → Bool × World W
  is_already_in_cluster net id [] w = (false, w)
  is_already_in_cluster net id (seed ∷ seeds) w =
      let looked = look_up net id seed w in
      let rest = is_already_in_cluster net id seeds looked.1 in
      if looked.0 then (true, looked.1) else rest

  -- A 409 with a leader is followed once.
  abbrev pub follow_hint : Network W → JoinRequest → Option Bytes → World W → Bool × World W
  follow_hint net jr none w = (false, w)
  follow_hint net jr (some []) w = (false, w)
  follow_hint net jr (some (b ∷ bs)) w = try_join_leader net (b ∷ bs) jr w

  abbrev pub join_answer : Network W → JoinRequest → Answer × World W → Bool × World W
  join_answer net jr (failed, w) = (false, w)
  join_answer net jr (responded r, w) =
      if r.status == 200
      then (true, w)
      else (if r.status == 409 then follow_hint net jr r.leader w else (false, w))

  abbrev pub join_seed : Network W → JoinRequest → Bytes → World W → Bool × World W
  join_seed net jr seed w = elim (net.parse_url seed) [
    | none ↦ (false, w)
    | some u ↦ join_answer net jr (ask net (post_to (at_path u (codes "/join")) jr) w)
  ]

  -- One pass of the inner loop: whether the node has joined.
  unfoldable pub try_seed : Network W → JoinRequest → Bytes → World W → Bool × World W
  try_seed net jr seed w =
      let (healthy, after) = is_seed_healthy net seed w in
      if healthy then join_seed net jr seed after else (false, after)

  -- The inner loop: whether the node has joined, the attempts made so far, the world after.
  unfoldable pub join_round :
      Network W → JoinRequest → List Bytes → ℕ → World W → Bool × ℕ × World W
  join_round net jr [] attempt w = (false, attempt, w)
  join_round net jr (seed ∷ seeds) attempt w =
      let tried = try_seed net jr seed w in
      let rest = join_round net jr seeds (attempt + 1) tried.1 in
      if tried.0 then (true, attempt + 1, tried.1) else rest

  abbrev pub sleep : ℕ → World W → World W
  sleep d w = record w { pauses = w.pauses ++ (d ∷ []) }

-- Thirty seconds.
abbrev pub longest_pause : ℕ
longest_pause = 30000000000

-- The product in float64 is exact up to 2 ^ 52 nanoseconds, and cut to the longest pause beyond.
unfoldable pub next_backoff : ℕ → ℕ
next_backoff b = let n = b * 3 / 2 in if ltb longest_pause n then longest_pause else n

-- `x <= 0` of a 64-bit integer.
abbrev pub not_positive : ℕ → Bool
not_positive x = (x == 0) || leb (2 ^ 63) x

abbrev pub first_pause : ℕ → ℕ
first_pause backoff = if not_positive backoff then 2000000000 else backoff

module _ {W : Type 0} where
  -- The outer loop, for at most `fuel` rounds; no limit on the attempts when `max` is 0.
  unfoldable pub join_rounds :
      Network W → JoinRequest → List Bytes → ℕ → ℕ → ℕ → ℕ → World W → Joining W
  join_rounds net jr seeds max zero attempt backoff w = trying w
  join_rounds net jr seeds max (suc fuel) attempt backoff w =
      let (done, made, after) = join_round net jr seeds attempt w in
      let rest =
        join_rounds net jr seeds max fuel made (next_backoff backoff) (sleep backoff after) in
      if done
      then joined after
      else (if not (max == 0) && leb max made then gave_up made after else rest)

  unfoldable pub join_cluster : Network W → Bytes → JoinRequest → ℕ → ℕ → ℕ → World W → Joining W
  join_cluster net env jr backoff max fuel w =
      let seeds = parse_seeds env in
      let (member, after) = is_already_in_cluster net jr.id seeds w in
      let limit = if not_positive max then 0 else max in
      if member
      then already_member after
      else join_rounds net jr seeds limit fuel 0 (first_pause backoff) after
