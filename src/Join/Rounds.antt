-- ===== src/Join/Rounds.antt =====
-- How often joinCluster asks: every round tries every seed, so a limit on the attempts ends the loop,
-- and a seed that lets the node in is not passed over.
use conuredb.Common.{
  ℕ, zero, suc, ◌+◌, ◌≤◌, ◌<◌, ◌^◌, ◌≡◌, refl, false, List, [], ◌∷◌, arith, length,
}
use conuredb.Common.Bytes.{Bytes}
use conuredb.Join.{
  World, Network, JoinRequest, Joining, joined, already_member, gave_up, trying, is_seed_healthy,
  try_join_leader, is_already_in_cluster, try_seed, join_round, join_rounds, join_cluster,
  next_backoff, sleep, parse_seeds, first_pause,
}

module _ {W : Type 0} (net : Network W) (jr : JoinRequest) where
  pub try_seed-pauses : (seed : Bytes) (w : World W) → (try_seed net jr seed w).1.pauses ≡ w.pauses
  unfolding try_seed is_seed_healthy try_join_leader
  try_seed-pauses seed w = ground arith

  pub join_round-pauses :
      (seeds : List Bytes) (attempt : ℕ) (w : World W)
      → (join_round net jr seeds attempt w).2.pauses ≡ w.pauses
  unfolding join_round
  join_round-pauses [] attempt w = refl
  join_round-pauses (seed ∷ seeds) attempt w =
      let tried = try_seed net jr seed w in
      ground (arith, try_seed-pauses seed w, join_round-pauses seeds (attempt + 1) tried.1)

  join_round-failed :
      (seeds : List Bytes) (attempt : ℕ) (w : World W)
      → (join_round net jr seeds attempt w).0 ≡ false
      → (join_round net jr seeds attempt w).1 ≡ attempt + length seeds
  unfolding join_round
  join_round-failed [] attempt w f = omega arith
  join_round-failed (seed ∷ seeds) attempt w f =
      let tried = try_seed net jr seed w in
      ground (arith, join_round-failed seeds (attempt + 1) tried.1)

pub parse_seeds-some : (env : Bytes) → 1 ≤ length (parse_seeds env)
unfolding parse_seeds
parse_seeds-some env = ground arith

-- A run that has ended, having given up only after `max` attempts and before another round.
abbrev pub Ended : {W : Type 0} → ℕ → ℕ → Joining W → Type 0
Ended max seeds (joined w) = Unit {0}
Ended max seeds (already_member w) = Unit {0}
Ended max seeds (gave_up n w) = (max ≤ n) × (n < max + seeds)
Ended max seeds (trying w) = ⊥

module _ {W : Type 0} (net : Network W) (jr : JoinRequest) where
  join_rounds-Ended :
      (seeds : List Bytes) (max fuel attempt backoff : ℕ) (w : World W)
      → 1 ≤ length seeds
      → attempt < max
      → max ≤ attempt + fuel
      → Ended max (length seeds) (join_rounds net jr seeds max fuel attempt backoff w)
  unfolding join_rounds
  join_rounds-Ended seeds max zero attempt backoff w s a f = absurd (omega arith)
  join_rounds-Ended seeds max (suc fuel) attempt backoff w s a f =
      let r = join_round net jr seeds attempt w in
      ground (
        arith,
        join_round-failed net jr seeds attempt w,
        join_rounds-Ended seeds max fuel r.1 (next_backoff backoff) (sleep backoff r.2),
      )

-- With a limit between 1 and 2 ^ 63 on the attempts, joinCluster ends: it has joined, or is a member,
-- or gives up after at least `max` attempts and fewer than `max` and one more round of the seeds.
pub join_cluster-Ended :
    {W : Type 0} (net : Network W) (env : Bytes) (jr : JoinRequest) (backoff max fuel : ℕ)
    (w : World W)
    → 1 ≤ max
    → max < 2 ^ 63
    → max ≤ fuel
    → Ended max (length (parse_seeds env)) (join_cluster net env jr backoff max fuel w)
unfolding join_cluster
join_cluster-Ended net env jr backoff max fuel w low high enough =
    let seeds = parse_seeds env in
    let (member, after) = is_already_in_cluster net jr.id seeds w in
    ground (
      arith,
      join_rounds-Ended net jr seeds max fuel 0 (first_pause backoff) after (parse_seeds-some env),
    )
