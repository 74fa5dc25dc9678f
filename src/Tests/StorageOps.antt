-- ===== src/Tests/StorageOps.antt =====
-- The theorems about btree/storage.go and btree/nodepool.go, applied to the sample store.
use conuredb.Common.{ℕ, ◌≡◌, ◌≢◌, ◌↔◌, refl, arith, true, inl, [], ◌∷◌}
use conuredb.Pool.{NodePool, allocate, free}
use conuredb.Pool.Fresh.{Taken, IsPool, Allocated, allocate-Allocated, free_lem}
use conuredb.Storage.{Storage, ok, read_node, write_node}
use conuredb.Storage.View.{node_at-Points, IsStore, Points, Got}
use conuredb.Storage.View.Fetch.{get_node-Got}
use conuredb.Storage.Objects.{Cloned, clone_node-Copied}
use conuredb.Storage.Session.{session, session-IsStore}
use conuredb.Storage.Header.{decode_header, encode_header}
use conuredb.Storage.Header.RoundTrip.{kept, decode_header-encode_header}
use conuredb.Storage.Transaction.{commit_transaction}
use conuredb.Storage.Transaction.Commit.{Ends}
use conuredb.Storage.Transaction.Kept.{Committed, StaysOpen, commit_transaction-Ends}
use conuredb.Storage.Transaction.Pages.{read_node-write_node}
use conuredb.Tests.{first_leaf, sample, sample-IsStore, first_there, first_leaf-IsStorable}

-- Two nodes are dirty.
abbrev active : Storage
active = session sample true (1 ∷ 3 ∷ []) 3 3

active-IsStore : IsStore active
active-IsStore = session-IsStore sample true (1 ∷ 3 ∷ []) 3 3 sample-IsStore

commit_transaction-Ends_example :
    Ends (Committed active) (StaysOpen active) (commit_transaction active)
commit_transaction-Ends_example = commit_transaction-Ends active active-IsStore (omega arith) refl

get_node-Got_example : Got sample 1 first_leaf
get_node-Got_example =
    get_node-Got sample 1 first_leaf sample-IsStore
      (node_at-Points sample 0 1 first_leaf first_there) refl (omega arith, omega arith, refl)

clone_node-Copied_example :
    (c : Cloned active 0 first_leaf) × Points c.t c.q c.id (record first_leaf { id = c.id })
clone_node-Copied_example =
    clone_node-Copied active 0 1 first_leaf active-IsStore (record { cached = refl; holds = refl })
      (inl (refl, refl)) refl (omega arith)

read_node-write_node_example :
    (t u : Storage) × (write_node first_leaf sample ≡ ok tt t) × (read_node 1 t ≡ ok first_leaf u)
read_node-write_node_example =
    read_node-write_node sample first_leaf (λ n. refl) first_leaf-IsStorable (omega arith)
      (omega arith)

abbrev used_pool : NodePool
used_pool = record { free_node_ids = 5 ∷ 2 ∷ []; next_node_id = 7 }

decode_header-encode_header_example :
    decode_header (encode_header 3 used_pool) sample
    ≡ ok (3, record used_pool { free_node_ids = kept used_pool }) sample
decode_header-encode_header_example =
    decode_header-encode_header 3 used_pool sample (omega arith) (omega arith)
      (omega arith, (omega arith, tt))

used_pool-IsPool : IsPool used_pool
used_pool-IsPool = record {
  nodup = (refl, (refl, tt));
  known = ((omega arith, omega arith), ((omega arith, omega arith), tt));
  started = omega arith;
  width = omega arith;
}

allocate-Allocated_example : Allocated used_pool (allocate used_pool).0 (allocate used_pool).1
allocate-Allocated_example = allocate-Allocated used_pool used_pool-IsPool (omega arith)

free_lem_example :
    IsPool (free 3 used_pool)
    × ((j : ℕ) → Taken (free 3 used_pool) j ↔ (Taken used_pool j × (j ≢ 3)))
free_lem_example = free_lem used_pool 3 used_pool-IsPool (omega arith, omega arith, refl)
