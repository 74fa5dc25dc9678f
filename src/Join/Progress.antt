-- ===== src/Join/Progress.antt =====
-- A seed that lets the node in from some round on is found: joinCluster without a limit joins.
use mathlib.Core.List.{Memᴰ}
use mathlib.Core.List.Memᴰ
use mathlib.Core.List.Memᴰ.{head, tail}
use conuredb.Common.{
  ℕ, zero, suc, ◌+◌, ◌≤◌, ◌<◌, ◌≡◌, sym, ap, subst, ◌⊎◌, inl, inr, Bool, true, false, none, some,
  List, [], ◌∷◌, ◌++◌, arith, Bool-cases, leb, leb→le, leb→lt, length, length-append,
}
use conuredb.Common.Bytes.{Bytes}
use conuredb.Common.Text.{codes}
use conuredb.Join.{
  World, Network, JoinRequest, Url, Answer, responded, Response, is_seed_healthy, try_join_leader,
  failed, join_answer, join_seed, ask, is_already_in_cluster, try_seed, join_round, join_rounds,
  join_cluster, next_backoff, sleep, parse_seeds, first_pause, is_ok, get_at, post_to, at_path,
  of_text,
}
use conuredb.Join.Outcomes.{
  Accepts, is_ok-Accepts, Honest, IsMember, join_round-In, is_already_in_cluster-In,
  IsMember-joined, IsMember-already_member,
}
use conuredb.Join.Rounds.{try_seed-pauses, join_round-pauses}

module _ {W : Type 0} (net : Network W) (jr : JoinRequest) (k : ℕ) where
  -- Any world in which the node has paused `k` times.
  abbrev pub Late : World W → Type 0
  Late w = k ≤ length w.pauses

  abbrev pub Redirects : Answer → Type 0
  Redirects a =
      (r : Response) × (b : ℕ) × (bs : Bytes) × (a ≡ responded r)
      × (r.status ≡ 409)
      × (r.leader ≡ some (b ∷ bs))
      × ((w : World W)
          → Late w
          → Accepts
              (net.send (post_to (of_text (codes "http://" ++ ((b ∷ bs) ++ codes "/join"))) jr)
                w).0)

  -- A seed that is healthy, and takes the node in or names a leader that does.
  abbrev pub Admits : Bytes → Type 0
  Admits seed =
      (u : Url) × (net.parse_url seed ≡ some u)
      × ((w : World W) → Late w → Accepts (net.send (get_at u (codes "/status")) w).0)
      × ((w : World W)
          → Late w
          → Accepts (net.send (post_to (at_path u (codes "/join")) jr) w).0
            ⊎ Redirects (net.send (post_to (at_path u (codes "/join")) jr) w).0)

  join_answer-is_ok :
      (a : Answer) (w : World W) → is_ok a ≡ true → (join_answer net jr (a, w)).0 ≡ true
  join_answer-is_ok failed w ok = absurd (cc)
  join_answer-is_ok (responded r) w ok = ground (arith, ok)

  join_answer-Redirects :
      (a : Answer) (w : World W) → Redirects a → Late w → (join_answer net jr (a, w)).0 ≡ true
  unfolding try_join_leader
  join_answer-Redirects failed w (r, b, bs, e, s, l, there) late = absurd (cc)
  join_answer-Redirects (responded x) w (r, b, bs, e, s, l, there) late =
      subst (λ a. (join_answer net jr (a, w)).0 ≡ true) (sym e)
        (ground (
          arith,
          s,
          l,
          is_ok-Accepts
              (net.send (post_to (of_text (codes "http://" ++ ((b ∷ bs) ++ codes "/join"))) jr) w).0
              (there w late),
        ))

  join_seed-Admits :
      (seed : Bytes) (w : World W) → Admits seed → Late w → (join_seed net jr seed w).0 ≡ true
  join_seed-Admits seed w (u, p, healthy, takes) late =
      let (a, last) = net.send (post_to (at_path u (codes "/join")) jr) w in
      let after = record w { outside = last } in
      subst
        (λ o.
          (elim o as (λ o. Bool × World W) [
            | none ↦ (false, w)
            | some u ↦ join_answer net jr (ask net (post_to (at_path u (codes "/join")) jr) w)
          ]).0
          ≡ true)
        (sym p)
        (elim (takes w late) [
          | inl ok ↦ join_answer-is_ok a after (is_ok-Accepts a ok)
          | inr r ↦ join_answer-Redirects a after r late
        ])

  try_seed-Admits :
      (seed : Bytes) (w : World W) → Admits seed → Late w → (try_seed net jr seed w).0 ≡ true
  unfolding try_seed is_seed_healthy
  try_seed-Admits seed w (u, p, healthy, takes) late =
      let w' = record w { outside = (net.send (get_at u (codes "/status")) w).1 } in
      ground (
        arith,
        p,
        is_ok-Accepts (net.send (get_at u (codes "/status")) w).0 (healthy w late),
        join_seed-Admits seed w' (u, p, healthy, takes) late,
      )

  join_round-Admits :
      (seeds : List Bytes) (seed : Bytes) (attempt : ℕ) (w : World W)
      → Memᴰ seed seeds
      → Admits seed
      → Late w
      → (join_round net jr seeds attempt w).0 ≡ true
  unfolding join_round
  join_round-Admits [] seed attempt w m a late = absurd (Memᴰ.not-nil m)
  join_round-Admits (s ∷ ss) seed attempt w (head e) a late =
      ground (arith, try_seed-Admits s w (subst Admits e a) late)
  join_round-Admits (s ∷ ss) seed attempt w (tail m) a late =
      let tried = try_seed net jr s w in
      ground (
        arith,
        join_round-Admits ss seed (attempt + 1) tried.1 m a
            (omega (arith, ap length (try_seed-pauses net jr s w), late)),
      )

module _ {W : Type 0} (net : Network W) (jr : JoinRequest) (k : ℕ) (In : W → Type 0)
    (hon : Honest net jr In) where
  join_rounds-IsMember :
      (seeds : List Bytes) (seed : Bytes) (fuel attempt backoff : ℕ) (w : World W)
      → Memᴰ seed seeds
      → Admits net jr k seed
      → 1 ≤ fuel
      → k < length w.pauses + fuel
      → IsMember In (join_rounds net jr seeds 0 fuel attempt backoff w)
  unfolding join_rounds
  join_rounds-IsMember seeds seed zero attempt backoff w m a one f = absurd (omega arith)
  join_rounds-IsMember seeds seed (suc fuel) attempt backoff w m a one f =
      let (done, made, after) = join_round net jr seeds attempt w in
      let same = ap length (join_round-pauses net jr seeds attempt w) in
      let next = sleep backoff after in
      IsMember-joined In done after
        (join_rounds net jr seeds 0 fuel made (next_backoff backoff) next)
        (join_round-In net jr In hon seeds attempt w)
        (λ failed. elim (Bool-cases (leb k (length w.pauses))) [
          | inl l ↦ absurd (
              cc (
                failed,
                join_round-Admits net jr k seeds seed attempt w m a (leb→le k (length w.pauses) l),
              ))
          | inr l ↦
              join_rounds-IsMember seeds seed fuel made (next_backoff backoff) next m a
                (omega (arith, leb→lt k (length w.pauses) l, f))
                (omega (
                  arith,
                  leb→lt k (length w.pauses) l,
                  f,
                  same,
                  length-append after.pauses (backoff ∷ []),
                ))
        ])

-- Without a limit on the attempts, joinCluster called for a node that has not paused yet ends within
-- k + 1 rounds with the node a member, if after k pauses one of the seeds is healthy and either answers
-- the request to join with 200 or names a leader that does. What being a member means is left to the
-- cluster, on which it is required that a 200 to a request to join leaves the node a member, and that a
-- configuration lists only members.
pub join_cluster-IsMember :
    {W : Type 0} (net : Network W) (In : W → Type 0) (env seed : Bytes) (jr : JoinRequest)
    (backoff k : ℕ) (w : World W)
    → Honest net jr In
    → w.pauses ≡ []
    → Memᴰ seed (parse_seeds env)
    → Admits net jr k seed
    → IsMember In (join_cluster net env jr backoff 0 (k + 1) w)
unfolding join_cluster
join_cluster-IsMember net In env seed jr backoff k w hon p m a =
    let seeds = parse_seeds env in
    let (member, after) = is_already_in_cluster net jr.id seeds w in
    IsMember-already_member In member after
      (join_rounds net jr seeds 0 (k + 1) 0 (first_pause backoff) after)
      (is_already_in_cluster-In net jr In hon seeds w)
      (join_rounds-IsMember net jr k In hon seeds seed (k + 1) 0 (first_pause backoff) after m a
        (omega arith) (omega arith))
