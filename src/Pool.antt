-- ===== src/Pool.antt =====
-- btree/nodepool.go: the pool of node ids. The mutex makes each operation atomic.
-- `nextNodeID` is a uint64, so `++` wraps.
pub mod Fresh
use conuredb.Common.{
  ℕ, ◌+◌, ◌-◌, ◌%◌, ◌^◌, Bool, true, false, ◌||◌, Option, none, some, List, [], ◌∷◌, ◌++◌, ◌==◌,
  if◌then◌else◌, length, get_elem?, take,
}

pub record NodePool : Type 0 where
  pub free_node_ids : List ℕ
  pub next_node_id : ℕ

-- 0 is reserved for nil.
abbrev pub new_node_pool : NodePool
new_node_pool = record { free_node_ids = []; next_node_id = 1 }

-- The last free id, or else the next new one.
unfoldable pub allocate : NodePool → ℕ × NodePool
allocate p = elim (get_elem? p.free_node_ids (length p.free_node_ids - 1)) [
  | some id ↦ (id, record p { free_node_ids = take (length p.free_node_ids - 1) p.free_node_ids })
  | none ↦ (p.next_node_id, record p { next_node_id = (p.next_node_id + 1) % 2 ^ 64 })
]

unfoldable pub free : ℕ → NodePool → NodePool
free id p = if id == 0 then p else record p { free_node_ids = p.free_node_ids ++ (id ∷ []) }

unfoldable pub reset : NodePool → NodePool
reset p = new_node_pool

unfoldable pub stats : NodePool → ℕ × ℕ
stats p = (p.next_node_id, length p.free_node_ids)

-- Membership, as the boolean of Go's map and slice searches.
abbrev pub has : ℕ → List ℕ → Bool
has x [] = false
has x (y ∷ ys) = (x == y) || has x ys
