-- ===== src/Tree/Estimate.antt =====
-- The size that the split tests use against the size that `Serialize` writes.
use conuredb.Common.{
  ◌+◌, ◌<◌, ◌≡◌, refl, false, none, List, [], ◌∷◌, arith, ◌==◌, Bool-cases, inl, inr, ◌↔◌,
}
use conuredb.Node.{Node, Item, node_size, internal_node}
use conuredb.Node.Codec.{serialize}
use conuredb.Node.Layout.{items_size, page_content, serialize_size}
use conuredb.Tree.{item_size, items_estimate, estimate_node_size}

items_estimate-items_size : (its : List Item) → items_estimate its ≡ items_size its
unfolding items_estimate items_size item_size
items_estimate-items_size [] = refl
items_estimate-items_size (it ∷ its) = omega (arith, items_estimate-items_size its)

pub estimate-page_content : (n : Node) → page_content n ≡ estimate_node_size n none false + 3
unfolding estimate_node_size page_content
estimate-page_content n = elim (Bool-cases (n.node_type == internal_node)) [
  | inl e ↦ rw e (omega (arith, items_estimate-items_size n.items))
  | inr e ↦ rw e (omega (arith, items_estimate-items_size n.items))
]

-- The estimate of a node is three bytes short of its page: `Serialize` refuses exactly the nodes
-- whose estimate is above 4093, while the split tests accept an estimate up to 4096.
pub estimate-serialize :
    (n : Node) → (serialize n ≡ none) ↔ (node_size < estimate_node_size n none false + 3)
estimate-serialize n = (
  λ e. omega (arith, (serialize_size n).0.0 e, estimate-page_content n),
  λ h. (serialize_size n).0.1 (omega (arith, h, estimate-page_content n)),
)
