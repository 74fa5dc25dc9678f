-- ===== src/Join/Outcomes.antt =====
-- What it takes for a run of joinCluster to end with the node in the cluster.
use mathlib.Core.List.{Memᴰ}
use mathlib.Core.List.Memᴰ.{head, tail}
use conuredb.Common.{
  ℕ, ◌+◌, ◌≡◌, refl, sym, Bool, true, false, Option, none, some, List, [], ◌∷◌, ◌++◌, ◌&&◌, ◌==◌,
  ==_iff, if◌then◌else◌, Bool-cases, inl, inr, arith,
}
use conuredb.Common.Bytes.{Bytes, equal_bytes, eq_of_equal_bytes}
use conuredb.Common.Text.{codes}
use conuredb.Join.{
  World, Network, JoinRequest, Url, Answer, failed, responded, Joining, joined, already_member,
  gave_up, trying, is_ok, is_seed_healthy, try_join_leader, lists_node, look_up, join_answer,
  join_seed, ask, is_already_in_cluster, follow_hint, try_seed, join_round, get_at, post_to,
  at_path, of_text, is_listed,
}

-- An answer with status 200.
abbrev pub Accepts : Answer → Type 0
Accepts failed = ⊥
Accepts (responded r) = r.status ≡ 200

-- An answer with status 200 that lists the id.
abbrev pub Lists : Bytes → Answer → Type 0
Lists id failed = ⊥
Lists id (responded r) = (r.status ≡ 200) × ((ids : List Bytes) × (r.ids ≡ some ids) × Memᴰ id ids)

pub Accepts-is_ok : (a : Answer) → is_ok a ≡ true → Accepts a
Accepts-is_ok failed h = absurd (cc)
Accepts-is_ok (responded r) h = (==_iff r.status 200).0 h

pub is_ok-Accepts : (a : Answer) → Accepts a → is_ok a ≡ true
is_ok-Accepts failed h = elim h [ ]
is_ok-Accepts (responded r) h = (==_iff r.status 200).1 h

Memᴰ-is_listed : (id : Bytes) (js : List Bytes) → is_listed id js ≡ true → Memᴰ id js
Memᴰ-is_listed id [] h = absurd (cc)
Memᴰ-is_listed id (j ∷ js) h = elim (Bool-cases (equal_bytes j id)) [
  | inl e ↦ head (sym (eq_of_equal_bytes j id e))
  | inr n ↦ tail (Memᴰ-is_listed id js (ground (arith, n, h)))
]

-- What a 200 of a cluster means: an accepted /join, at a URL or at a leader, leaves the node a member,
-- and a configuration lists only members.
pub record Honest {W : Type 0} (net : Network W) (jr : JoinRequest) (In : W → Type 0) : Type 0 where
  pub welcomed :
      (u : Url) (w : World W)
      → Accepts (net.send (post_to (at_path u (codes "/join")) jr) w).0
      → In (net.send (post_to (at_path u (codes "/join")) jr) w).1
  pub led :
      (l : Bytes) (w : World W)
      → Accepts (net.send (post_to (of_text (codes "http://" ++ (l ++ codes "/join"))) jr) w).0
      → In (net.send (post_to (of_text (codes "http://" ++ (l ++ codes "/join"))) jr) w).1
  pub listed :
      (u : Url) (w : World W)
      → Lists jr.id (net.send (get_at u (codes "/raft/config")) w).0
      → In (net.send (get_at u (codes "/raft/config")) w).1

-- A run that has ended with the node a member.
abbrev pub IsMember : {W : Type 0} → (W → Type 0) → Joining W → Type 0
IsMember In (joined w) = In w.outside
IsMember In (already_member w) = In w.outside
IsMember In (gave_up n w) = ⊥
IsMember In (trying w) = ⊥

module _ {W : Type 0} (net : Network W) (jr : JoinRequest) (In : W → Type 0)
    (hon : Honest net jr In) where
  -- If the step says yes, the node is a member.
  abbrev Lands : Bool × World W → Type 0
  Lands x = x.0 ≡ true → In x.1.outside

  Lands-false : (w : World W) → Lands (false, w)
  Lands-false w h = absurd (cc)

  Lands-if :
      (b : Bool) (x y : Bool × World W)
      → (b ≡ true → Lands x)
      → Lands y
      → Lands (if b then x else y)
  Lands-if true x y f g = f refl
  Lands-if false x y f g = g

  follow_hint-Lands : (l : Option Bytes) (w : World W) → Lands (follow_hint net jr l w)
  unfolding try_join_leader
  follow_hint-Lands none w h = absurd (cc)
  follow_hint-Lands (some []) w h = absurd (cc)
  follow_hint-Lands (some (b ∷ bs)) w h = hon.led (b ∷ bs) w (Accepts-is_ok _ h)

  join_answer-Lands :
      (a : Answer) (w : World W) → (Accepts a → In w.outside) → Lands (join_answer net jr (a, w))
  join_answer-Lands failed w acc = Lands-false w
  join_answer-Lands (responded r) w acc =
      Lands-if (r.status == 200) (true, w)
        (if r.status == 409 then follow_hint net jr r.leader w else (false, w))
        (λ e h. acc ((==_iff r.status 200).0 e))
        (Lands-if (r.status == 409) (follow_hint net jr r.leader w) (false, w)
          (λ e. follow_hint-Lands r.leader w) (Lands-false w))

  join_seed-Lands : (seed : Bytes) (w : World W) → Lands (join_seed net jr seed w)
  join_seed-Lands seed w =
      elim (net.parse_url seed)
        as (λ o. Lands (elim o as (λ o. Bool × World W) [
          | none ↦ (false, w)
          | some u ↦ join_answer net jr (ask net (post_to (at_path u (codes "/join")) jr) w)
        ])) [
          | none ↦ Lands-false w
          | some u ↦
              let r = net.send (post_to (at_path u (codes "/join")) jr) w in
              join_answer-Lands r.0 (record w { outside = r.1 }) (hon.welcomed u w)
        ]

  try_seed-Lands : (seed : Bytes) (w : World W) → Lands (try_seed net jr seed w)
  unfolding try_seed
  try_seed-Lands seed w =
      let (healthy, after) = is_seed_healthy net seed w in
      Lands-if healthy (join_seed net jr seed after) (false, after)
        (λ e. join_seed-Lands seed after) (Lands-false after)

  round_if :
      (b : Bool) (n : ℕ) (w : World W) (y : Bool × ℕ × World W)
      → (b ≡ true → In w.outside)
      → (y.0 ≡ true → In y.2.outside)
      → (if b then (true, n, w) else y).0 ≡ true
      → In (if b then (true, n, w) else y).2.outside
  round_if true n w y f g h = f refl
  round_if false n w y f g h = g h

  pub join_round-In :
      (seeds : List Bytes) (attempt : ℕ) (w : World W)
      → (join_round net jr seeds attempt w).0 ≡ true
      → In (join_round net jr seeds attempt w).2.outside
  unfolding join_round
  join_round-In [] attempt w h = absurd (cc)
  join_round-In (seed ∷ seeds) attempt w h =
      let tried = try_seed net jr seed w in
      round_if tried.0 (attempt + 1) tried.1 (join_round net jr seeds (attempt + 1) tried.1)
        (try_seed-Lands seed w) (join_round-In seeds (attempt + 1) tried.1) h

  lists_node-Lands :
      (a : Answer) (w : World W) → (Lists jr.id a → In w.outside) → Lands (lists_node jr.id (a, w))
  lists_node-Lands failed w l = Lands-false w
  lists_node-Lands (responded r) w l = by_ids r.ids refl
    where
      by_ids :
          (o : Option (List Bytes))
          → r.ids ≡ o
          → Lands (elim o as (λ o. Bool × World W) [
            | none ↦ (false, w)
            | some js ↦ ((r.status == 200) && is_listed jr.id js, w)
          ])
      by_ids none e h = absurd (cc)
      by_ids (some js) e h = elim (Bool-cases (r.status == 200)) [
        | inl s ↦
            l ((==_iff r.status 200).0 s, (js, e, Memᴰ-is_listed jr.id js (ground (arith, s, h))))
        | inr n ↦ absurd (ground (arith, n, h))
      ]

  look_up-Lands : (seed : Bytes) (w : World W) → Lands (look_up net jr.id seed w)
  look_up-Lands seed w =
      elim (net.parse_url seed)
        as (λ o. Lands (elim o as (λ o. Bool × World W) [
          | none ↦ (false, w)
          | some u ↦ lists_node jr.id (ask net (get_at u (codes "/raft/config")) w)
        ])) [
          | none ↦ Lands-false w
          | some u ↦
              let r = net.send (get_at u (codes "/raft/config")) w in
              lists_node-Lands r.0 (record w { outside = r.1 }) (hon.listed u w)
        ]

  pub is_already_in_cluster-In :
      (seeds : List Bytes) (w : World W)
      → (is_already_in_cluster net jr.id seeds w).0 ≡ true
      → In (is_already_in_cluster net jr.id seeds w).1.outside
  unfolding is_already_in_cluster
  is_already_in_cluster-In [] w h = absurd (cc)
  is_already_in_cluster-In (seed ∷ seeds) w h =
      let looked = look_up net jr.id seed w in
      Lands-if looked.0 (true, looked.1) (is_already_in_cluster net jr.id seeds looked.1)
        (λ e t. look_up-Lands seed w e) (is_already_in_cluster-In seeds looked.1) h

pub IsMember-joined :
    {W : Type 0} (In : W → Type 0) (b : Bool) (w : World W) (y : Joining W)
    → (b ≡ true → In w.outside)
    → (b ≡ false → IsMember In y)
    → IsMember In (if b then joined w else y)
IsMember-joined In true w y f g = f refl
IsMember-joined In false w y f g = g refl

pub IsMember-already_member :
    {W : Type 0} (In : W → Type 0) (b : Bool) (w : World W) (y : Joining W)
    → (b ≡ true → In w.outside)
    → IsMember In y
    → IsMember In (if b then already_member w else y)
IsMember-already_member In true w y f g = f refl
IsMember-already_member In false w y f g = g
