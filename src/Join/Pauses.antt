-- ===== src/Join/Pauses.antt =====
-- The pauses between the rounds of joinCluster: from the first one up by half each time, to 30 s.
use conuredb.Common.{
  ℕ, zero, suc, ◌+◌, ◌/◌, ltb, ◌≤◌, ◌≡◌, refl, List, [], ◌∷◌, ◌++◌, arith, if◌then◌else◌, All,
}
use conuredb.Common.Bytes.{Bytes}
use conuredb.Join.{
  World, Network, Joining, joined, already_member, gave_up, trying, longest_pause,
  is_already_in_cluster, look_up,
}

-- Half as much again, up to 30 s.
abbrev pub longer : ℕ → ℕ
longer p = if ltb 30000000000 (p + p / 2) then 30000000000 else p + p / 2

-- The pause after `n` others, and the first `n` pauses.
unfoldable pub pause_at : ℕ → ℕ → ℕ
pause_at zero first = first
pause_at (suc n) first = longer (pause_at n first)

unfoldable pub schedule : ℕ → ℕ → List ℕ
schedule zero first = []
schedule (suc n) first = schedule n first ++ (pause_at n first ∷ [])

-- The world that a run leaves.
abbrev pub final : {W : Type 0} → Joining W → World W
final (joined w) = w
final (already_member w) = w
final (gave_up n w) = w
final (trying w) = w

abbrev pub Scheduled : {W : Type 0} → ℕ → World W → Type 0
Scheduled first w = (n : ℕ) × (w.pauses ≡ schedule n first)

abbrev pub Paced : {W : Type 0} → ℕ → World W → Type 0
Paced first w = Scheduled first w × All (λ p. (first ≤ p) × (p ≤ longest_pause)) w.pauses

module _ {W : Type 0} (net : Network W) where
  look_up-pauses : (id seed : Bytes) (w : World W) → (look_up net id seed w).1.pauses ≡ w.pauses
  look_up-pauses id seed w = ground arith

  pub is_already_in_cluster-pauses :
      (id : Bytes) (seeds : List Bytes) (w : World W)
      → (is_already_in_cluster net id seeds w).1.pauses ≡ w.pauses
  unfolding is_already_in_cluster
  is_already_in_cluster-pauses id [] w = refl
  is_already_in_cluster-pauses id (seed ∷ seeds) w =
      let looked = look_up net id seed w in
      ground (arith, look_up-pauses id seed w, is_already_in_cluster-pauses id seeds looked.1)
