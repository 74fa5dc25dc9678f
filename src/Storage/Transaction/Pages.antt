-- ===== src/Storage/Transaction/Pages.antt =====
-- A page that `writeNode` wrote, read back by `readNode`.
use conuredb.Common.{◌+◌, ◌*◌, ◌^◌, ◌<◌, ◌≡◌, ◌∙◌, refl, some}
use conuredb.Node.{Node, node_size}
use conuredb.Node.RoundTrip.{IsStorable, deserialize_node-serialize}
use conuredb.Node.Layout.{serialize_size}
use conuredb.Storage.{Storage, ok, read_node, write_node}
use conuredb.Storage.View.{NoFaults, disk_node}
use conuredb.Storage.View.Fetch.{read_node-disk_node}
use conuredb.Storage.Transaction.Commit.{paged, write_node_ok, disk_node_page, disk_page_self}

-- A storable node with an id from 1 to 2^51 - 1, written to a file that answers every operation, is
-- written without an error, and reading its id then returns the node.
pub read_node-write_node :
    (s : Storage) (n : Node)
    → NoFaults s.file
    → IsStorable n
    → 0 < n.id
    → n.id < 2 ^ 51
    → (t u : Storage) × (write_node n s ≡ ok tt t) × (read_node n.id t ≡ ok n u)
read_node-write_node s n f k pos small =
    let (page, e, back) = deserialize_node-serialize n k in
    let t = paged s (n.id * node_size) page in
    let found : disk_node t.file.bytes n.id ≡ some n =
      disk_node_page t.file.bytes n.id pos small
      ∙ disk_page_self s.file.bytes page (n.id * node_size) n ((serialize_size n).1 page e) back in
    (
      t,
      record t { file = record t.file { ops = t.file.ops + 1 } },
      write_node_ok s n page n.id f refl pos small e,
      read_node-disk_node t n.id n f found,
    )
