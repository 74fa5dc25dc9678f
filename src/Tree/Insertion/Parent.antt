-- ===== src/Tree/Insertion/Parent.antt =====
-- `setParent`, which the path copy calls on each new child.
use conuredb.Common.{ℕ, ◌+◌, ◌<◌, ◌^◌, ◌≡◌, ◌∙◌, true, some, arith}
use conuredb.Node.{Node, set_parent}
use conuredb.Pool.Fresh.{Taken}
use conuredb.Storage.{Storage, ok, load, get_node, put_node, copy_of, add_dirty}
use conuredb.Storage.View.{node_at, IsStore, Got, load-Points}
use conuredb.Storage.View.Fetch.{get_node-Got}
use conuredb.Storage.Objects.{Grow, Grow-trans, Grow-of_Same, Cloned, clone_node-Cloned, id-copy_of}
use conuredb.Storage.Objects.Written.{
  Grow-dirty, Grow-written, written, store-written, written-Points, put_node-cached,
  written-IsSized,
}
use conuredb.Storage.Sized.{IsSized, IsSized-Same, IsSized-add_dirty, FitsPage-set_parent}
use conuredb.Node.Sound.{parented-IsSound}
use conuredb.Storage.Backed.{has-add_dirty}
use conuredb.Tree.{set_parent_of}

-- `setParent` ends well, and every id in use stands for the node it stood for.
pub record ParentSet (s : Storage) (child parent : ℕ) : Type 0 where
  pub t : Storage
  pub run : set_parent_of child parent s ≡ ok tt t
  pub grow : Grow 1 s t
  pub sized : IsSized s → IsSized t

set_parent_steps :
    (s g : Storage) (child parent p : ℕ) (n : Node) (c : Cloned g p n)
    → get_node child s ≡ ok p g
    → load c.q c.t ≡ ok (copy_of n c.id) c.t
    → put_node c.q (written c.t c.q (set_parent (copy_of n c.id) parent))
      ≡ ok tt (record (written c.t c.q (set_parent (copy_of n c.id) parent)) {
        dirty_nodes = add_dirty c.id c.t.dirty_nodes;
      })
    → set_parent_of child parent s
      ≡ ok tt (record (written c.t c.q (set_parent (copy_of n c.id) parent)) {
        dirty_nodes = add_dirty c.id c.t.dirty_nodes;
      })
unfolding set_parent_of
set_parent_steps s g child parent p n c got l put =
    ground (arith, got, c.run, l, store-written c.t c.q (set_parent (copy_of n c.id) parent), put)

-- In a transaction on a well-formed store with an id left, `setParent` of a 64-bit parent on an id that
-- stands for a node returns no error, and afterwards every id that was in use, the child's own included, still stands
-- for the node it stood for before: the parent is recorded in a copy under a fresh id.
pub set_parent_of-ParentSet :
    (s : Storage) (child parent : ℕ) (n : Node)
    → IsStore s
    → node_at s child ≡ some n
    → n.id ≡ child
    → Taken s.node_pool child
    → s.transaction ≡ true
    → s.node_pool.next_node_id + 1 < 2 ^ 64
    → parent < 2 ^ 64
    → ParentSet s child parent
set_parent_of-ParentSet s child parent n w e ko cu tr room fits = record {
  t = record a { dirty_nodes = add_dirty c.id c.t.dirty_nodes };
  run =
      set_parent_steps s g.t child parent g.p n c g.run
        (load-Points c.t c.q c.id (copy_of n c.id) c.points)
        (put_node-cached a c.q c.id m
          (written-Points c.t c.q c.id (copy_of n c.id) m c.grow.is c.points own) own
          (c.grow.transaction ∙ g.same.transaction ∙ tr));
  sized = λ z.
      IsSized-add_dirty a c.q c.id m
        (written-Points c.t c.q c.id (copy_of n c.id) m c.grow.is c.points own)
        (written-IsSized c.t c.q c.id (copy_of n c.id) m c.grow.is c.points own
          (FitsPage-set_parent (copy_of n c.id) parent) (c.sized (IsSized-Same s g.t g.same z)));
  grow =
      Grow-dirty 1 s a (add_dirty c.id c.t.dirty_nodes)
        (λ j h. has-add_dirty j c.id c.t.dirty_nodes h)
        (Grow-trans sg (
          Grow-written c.t c.q c.id (copy_of n c.id) m c.grow.is c.points own g.t 1 c.grow c.fresh
            c.taken c.dirty
            (λ k. unfold set_parent in parented-IsSound (copy_of n c.id) parent k fits)));
}
  where
    g : Got s child n
    g = get_node-Got s child n w e ko cu

    sg : Grow 0 s g.t
    sg = Grow-of_Same s g.t g.same g.is

    c : Cloned g.t g.p n
    c =
        clone_node-Cloned g.t g.p child n g.is g.points (g.same.transaction ∙ tr)
          (omega (arith, sg.next))

    m : Node
    m = set_parent (copy_of n c.id) parent

    own : m.id ≡ c.id
    own = unfold set_parent in id-copy_of n c.id

    a : Storage
    a = written c.t c.q m
