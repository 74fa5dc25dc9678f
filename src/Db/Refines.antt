-- ===== src/Db/Refines.antt =====
-- An open database as a finite map.
use conuredb.Common.{
  ℕ, ◌+◌, ◌*◌, ◌≤◌, ◌^◌, ◌≡◌, ◌∙◌, refl, sym, ap, subst, true, false, Option, none, some, List, [],
  length, arith,
}
use conuredb.Common.Bytes.{Bytes}
use conuredb.Node.{max_key_size, max_value_size}
use conuredb.Storage.{Storage, Run, Error, key_not_found}
use conuredb.Storage.View.{node_at, IsStore, Same, NoFaults}
use conuredb.File.{File}
use conuredb.Storage.Objects.{Grow-of_Same}
use conuredb.Tree
use conuredb.Tree.Put
use conuredb.Tree.Delete
use conuredb.Tree.Model.{IsTree, find, IsTree-Grow, find-Grow}
use conuredb.Tree.Branch.{changed}
use conuredb.Tree.Lookup.{answer, get-Answered}
use conuredb.Storage.Transaction.Kept.{OnDisk, OnDisk-Same, Fair}
use conuredb.Tree.Outcome.{Outcome, saved, unsaved}
use conuredb.Tree.Insertion.Descent.{HasRoom}
use conuredb.Tree.Opened.{open_storage-Opened}
use conuredb.Tree.Write.Storing.{put-Outcome}
use conuredb.Tree.Write.Deletion.{delete-Outcome, delete-Refused}
use conuredb.Db.{Db, open_db, Reply, answered, refused, get, put, delete, with_tree}

-- The view of a caller: which value each key has.
abbrev pub Map : Type 0
Map = Bytes → Option Bytes

-- An open database whose tree has height at most `h` and holds the map. No transaction is open.
pub record Represents (h : ℕ) (d : Db) (m : Map) : Type 0 where
  pub is_open : d.is_closed ≡ false
  pub is : IsStore d.tree
  pub idle : d.tree.transaction ≡ false
  pub tree : IsTree d.tree h d.tree.root_node_id
  pub holds : (k : Bytes) → find (node_at d.tree) h d.tree.root_node_id k ≡ m k

abbrev pub set_key : Map → Bytes → Option Bytes → Map
set_key m key new k = changed key new k (m k)

-- What the database holds is on disk, and its map of dirty nodes is walked whole.
abbrev pub Durable : Db → Type 0
Durable d = OnDisk d.tree × Fair d.tree.range_order

-- A write to `d`: it is answered and the database holds the new map, or it is refused by the commit, with
-- the new map in memory and the transaction open. An answered write is on disk.
pub data Written (h : ℕ) (d : Db) (m : Map) : Reply (Unit {0}) → Type 0 where
  stored : (e : Db) → Represents h e m → (Durable d → Durable e) → Written h d m (answered tt e)
  failed :
      (x : Error) (e : Db)
      → e.tree.transaction ≡ true
      → IsTree e.tree h e.tree.root_node_id
      → ((k : Bytes) → find (node_at e.tree) h e.tree.root_node_id k ≡ m k)
      → Written h d m (refused x e)

-- A read of `d`, or a call that changes nothing: the same map afterwards.
pub data Unchanged (h : ℕ) (d : Db) (m : Map) {A : Type 0}
    : Option A → Error → Reply A → Type 0 where
  found :
      (a : A) (x : Error) (e : Db)
      → Represents h e m
      → (Durable d → Durable e)
      → Unchanged h d m (some a) x (answered a e)
  missing :
      (x : Error) (e : Db)
      → Represents h e m
      → (Durable d → Durable e)
      → Unchanged h d m none x (refused x e)

Written-Outcome :
    (h : ℕ) (d : Db) (m : Map) (key : Bytes) (new : Option Bytes) (r : Run (Unit {0}))
    → Represents h d m
    → Outcome d.tree h key new r
    → Written h d (set_key m key new) (with_tree d r)
Written-Outcome h d m key new r a (saved t k closed disk) =
    stored (record d { tree = t })
      (record {
        is_open = a.is_open;
        is = k.is;
        idle = closed;
        tree = k.tree;
        holds = λ x. k.map x ∙ ap (changed key new x) (a.holds x);
      })
      (λ durable. disk durable.1 durable.0.0)
Written-Outcome h d m key new r a (unsaved e t k o) =
    failed e (record d { tree = t }) o k.tree (λ x. k.map x ∙ ap (changed key new x) (a.holds x))

put_open :
    (h : ℕ) (d : Db) (key value : Bytes)
    → d.is_closed ≡ false
    → put h key value d ≡ with_tree d (Put.put h key value d.tree)
unfolding put
put_open h d key value o = ground (arith, o)

delete_open :
    (h : ℕ) (d : Db) (key : Bytes)
    → d.is_closed ≡ false
    → delete h key d ≡ with_tree d (Delete.delete h key d.tree)
unfolding delete
delete_open h d key o = ground (arith, o)

get_open :
    (h : ℕ) (d : Db) (key : Bytes)
    → d.is_closed ≡ false
    → get h key d ≡ with_tree d (Tree.get h key d.tree)
unfolding get
get_open h d key o = ground (arith, o)

-- On an open database that represents a map, `Put` of a key and value within the limits, where the
-- leaf for the key holds it or has room and ids are left, either is answered with a database that
-- represents the map with the value at the key, or returns its commit's error with that map in memory
-- and the transaction open. It does not panic.
pub put-Written :
    (h : ℕ) (d : Db) (m : Map) (key value : Bytes)
    → Represents h d m
    → length key ≤ max_key_size
    → length value ≤ max_value_size
    → d.tree.node_pool.next_node_id + 2 * h ≤ 2 ^ 51
    → HasRoom d.tree h d.tree.root_node_id key value
    → Written h d (set_key m key (some value)) (put h key value d)
put-Written h d m key value a lk lv ids room = rw (put_open h d key value a.is_open) (
    Written-Outcome h d m key (some value) (Put.put h key value d.tree) a
      (put-Outcome d.tree h key value a.is a.tree a.idle lk lv ids room))

-- On an open database that represents a map with the key, `Delete` of the key within the limit, with
-- ids left, either is answered with a database that represents the map without the key, or returns
-- its commit's error with that map in memory and the transaction open. It does not panic.
pub delete-Written :
    (h : ℕ) (d : Db) (m : Map) (key v : Bytes)
    → Represents h d m
    → length key ≤ max_key_size
    → d.tree.node_pool.next_node_id + h ≤ 2 ^ 51
    → m key ≡ some v
    → Written h d (set_key m key none) (delete h key d)
delete-Written h d m key v a lk ids held = rw (delete_open h d key a.is_open) (
    Written-Outcome h d m key none (Delete.delete h key d.tree) a
      (delete-Outcome d.tree h key v a.is a.tree a.idle lk ids (a.holds key ∙ held)))

Represents-Same :
    (h : ℕ) (d : Db) (m : Map) (t : Storage)
    → Represents h d m
    → Same d.tree t
    → IsStore t
    → Represents h (record d { tree = t }) m
Represents-Same h d m t a e w =
    let g = Grow-of_Same d.tree t e w in
    record {
      is_open = a.is_open;
      is = w;
      idle = e.transaction ∙ a.idle;
      tree = subst (IsTree t h) (sym e.root) (IsTree-Grow g a.tree);
      holds = λ k. ap (λ j. find (node_at t) h j k) e.root ∙ find-Grow k g a.tree ∙ a.holds k;
    }

Durable-Same : (d : Db) (t : Storage) → Same d.tree t → Durable d → Durable (record d { tree = t })
Durable-Same d t e (disk, fair) = (OnDisk-Same d.tree t e disk, rw e.order fair)

-- On an open database that represents a map, `Get` of a key within the limit returns the map's value,
-- or ErrKeyNotFound where it has none, and the database represents the same map afterwards.
pub get-Unchanged :
    (h : ℕ) (d : Db) (m : Map) (key : Bytes)
    → Represents h d m
    → length key ≤ max_key_size
    → Unchanged h d m (m key) key_not_found (get h key d)
get-Unchanged h d m key a lk =
    let r = get-Answered {s = d.tree} {h = h} key a.is a.tree lk in
    rw (get_open h d key a.is_open, r.run, a.holds key)
      (reply (m key) r.t (Represents-Same h d m r.t a r.same r.is) (Durable-Same d r.t r.same))
  where
    reply :
        (o : Option Bytes) (t : Storage)
        → Represents h (record d { tree = t }) m
        → (Durable d → Durable (record d { tree = t }))
        → Unchanged h d m o key_not_found (with_tree d (answer o t))
    reply (some v) t b disk = found v key_not_found (record d { tree = t }) b disk
    reply none t b disk = missing key_not_found (record d { tree = t }) b disk

-- On an open database that represents a map without the key, `Delete` of the key within the limit
-- returns ErrKeyNotFound, and the database represents the same map afterwards.
pub delete-Unchanged :
    (h : ℕ) (d : Db) (m : Map) (key : Bytes)
    → Represents h d m
    → length key ≤ max_key_size
    → m key ≡ none
    → Unchanged h d m {A = Unit {0}} none key_not_found (delete h key d)
delete-Unchanged h d m key a lk absent =
    let r = delete-Refused d.tree h key a.is a.tree a.idle lk (a.holds key ∙ absent) in
    rw (delete_open h d key a.is_open, r.run)
      (missing key_not_found (record d { tree = r.t })
        (record {
          is_open = a.is_open;
          is = r.is;
          idle = r.closed;
          tree = r.tree;
          holds = λ k. r.map k ∙ a.holds k;
        })
        (λ durable. (r.disk durable.0, rw r.order durable.1)))

-- Opening an empty file that answers every operation gives a database that represents the empty map
-- and has it on disk.
pub open_db-Represents :
    (f : File) (order : List ℕ → List ℕ)
    → f.bytes ≡ []
    → NoFaults f
    → (d : Db) × (open_db f order ≡ some d) × Represents 1 d (λ k. none) × (Fair order → Durable d)
unfolding open_db
open_db-Represents f order empty works =
    let o = open_storage-Opened f order empty works in
    (
      record { tree = o.t; is_closed = false },
      ground (arith, o.run),
      record { is_open = refl; is = o.is; idle = o.closed; tree = o.tree; holds = o.empty },
      λ fair. (o.disk, rw o.walk fair),
    )
