-- ===== src/Lib.antt =====
-- ConureDB: the storage engine of the key-value store, its database and its state machine.
--
-- The program. `btree` keeps a B-tree of pages in one file: node.go holds the nodes and their page
-- format, nodepool.go the ids, storage.go the node cache, the pages, the header and the
-- transactions, btree.go lookup, insertion and deletion. On top of it db/db.go adds a closed flag and
-- snapshots, pkg/raftnode/*.go replicates puts and deletes with raft, pkg/api/server.go serves HTTP,
-- and cmd/ holds the server's main program, which joins a cluster through its seeds, and a client.
-- All of it is modelled here but the two main functions and the start of raft.
--
-- The files.
--   Common      names of the libraries, Boolean tests, lists over the native numbers, byte strings
--               with bytes.Compare, bytes.Equal, encoding/binary and io.ReadFull; Common.Text:
--               strings.TrimSpace, Split, Fields, Join, Cut and TrimSuffix on ASCII text
--   Node        btree/node.go: Node, Item, AddItem, AddChild, RemoveItem, RemoveChild, FindKey,
--               FindChildPos; Node.Codec: Serialize, DeserializeNode
--   Pool        btree/nodepool.go: Allocate, Free, Reset, Stats
--   File        WriteAt, ReadAt and Sync of os.File over the bytes of one file, with failures
--   Storage     btree/storage.go: GetNode, PutNode, CloneNode, DeleteNode, readNode, writeNode;
--               Storage.Header: readHeader (also ReloadHeader), writeHeader; Storage.Transaction:
--               BeginTransaction, CommitTransaction, abortTransaction, SetRootNode, OpenStorage,
--               initializeNewFile, Close
--   Tree        btree/btree.go: Get, insert, setParent, splitLeaf, splitInternal,
--               estimateNodeSize; Tree.Put: Put; Tree.Delete: Delete, delete; Tree.RebalanceLeaf and
--               Tree.RebalanceInternal: rebalanceLeaf, rebalanceInternal
--   Db          db/db.go: Open, Close, Reload, Get, Put, Delete, Sync, SnapshotTo, RestoreFrom
--   Fsm         pkg/raftnode/fsm.go: Apply, Restore, Persist; command.go: Command
--   Api         pkg/api/server.go: handleKV, with the raft node of pkg/raftnode/node.go as a
--               record that the theorems quantify over; Api.Members: handleJoin, handleRemove,
--               handleStatus, handleRaftConfig, handleRaftStats; Api.Routes: Register
--   Config      pkg/config/config.go: Config; cmd/conure-db/runtime_config.go: mergeConfig;
--               Config.Flags: Load, cmd/conure-db/flags.go and LoadEffectiveConfig of app_config.go
--   Join        cmd/conure-db/join.go: parseSeeds, joinCluster, isAlreadyInCluster, isSeedHealthy,
--               tryJoinLeader; Join.Cluster: the same against Api.Routes
--   Repl        cmd/repl/remote.go: do, withLeader, Get, Put, Delete and the loop of runRemoteREPL;
--               Repl.Reads: the same against handleKV
--   Tests       the theorems at concrete stores
--
-- State. A `*Node` is a pointer into the heap of the store, since the tree writes to nodes that the
-- cache holds as well. A call takes the store and returns a value, an error with the store as the
-- call leaves it, a panic (an index out of range, a nil pointer), or runs out of fuel. The order in
-- which Go walks the map of dirty nodes is a field of the store, so a theorem holds for every order.
-- The mutexes make each call atomic, so calls run one after the other. Byte strings are values: a
-- caller that changes a slice after a call is not modelled.
--
-- Bounds. Ids, counts and offsets wrap as the machine's integers do: 64 bits for ids and offsets, 16
-- for `count`. The fuel of `get`, `put` and `delete` bounds the height of the tree, and the theorems
-- show that the height is enough; the binary searches run on the length of the range they search. The
-- fuel of joinCluster is the number of rounds it may make; with a limit on the attempts as many rounds
-- are enough, and without one the loop is endless by design.
--
-- A well-formed store (`IsStore`): what the cache holds for an id is a pointer to a live object that
-- carries the id, cached ids are in use, the pool never hands out an id in use, and no operation on
-- the file fails from then on. Failures of the file are part of the model, but the theorems on a
-- well-formed store leave them out; a commit can still fail on a node that does not fit its page.
-- `AllFit` says that every node in use fits its page, and `Slack` that a leaf has the bytes of an
-- item left.
--
-- The tree. `IsTree` is the search tree under an id as the store shows it (cache first, then page):
-- sorted nodes that carry their id, and branches with one child more than separators. `find` is the
-- finite map it stands for. An insertion that has to split a node is modelled, but the theorems on
-- `Put` are about insertions that find room.
--
-- Durability. `Backed` says that every node in use is sound and either dirty or on its page; inside a
-- transaction all operations keep it, and a commit empties the dirty set. `Durable` adds the header, and
-- a database in that state is the same one after its file is opened again.
--
-- Not modelled: the operating system's calls that open, stat and rename files, the forwarding methods
-- of BTree, which only lock, the JSON form of commands and of answers, raft and StartNode, which starts
-- it, the two main functions, the flag package, the YAML decoder, the network and readline, which are
-- parameters where the code uses them, and logging.
pub mod Common
pub mod Node
pub mod Pool
pub mod File
pub mod Storage
pub mod Tree
pub mod Db
pub mod Fsm
pub mod Config
pub mod Api
pub mod Join
pub mod Repl
pub mod Tests
