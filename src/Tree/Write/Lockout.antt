-- ===== src/Tree/Write/Lockout.antt =====
-- `Put` and `Delete` in a row, where the first one may fail in its commit.
use conuredb.Common.{
  ℕ, ◌+◌, ◌*◌, ◌≤◌, ◌^◌, ◌≡◌, refl, true, false, Option, none, some, List, [], ◌∷◌, length, All,
  arith,
}
use conuredb.Common.Bytes.{Bytes}
use conuredb.Node.{max_key_size, max_value_size}
use conuredb.Storage.{Storage, Run, Error, M, ok, err, in_transaction}
use conuredb.Storage.View.{node_at, IsStore}
use conuredb.Tree.Put.{put}
use conuredb.Tree.Delete.{delete}
use conuredb.Tree.Model.{IsTree, find}
use conuredb.Tree.Insertion.Descent.{HasRoom}
use conuredb.Tree.Outcome.{Holds, Outcome, saved, unsaved}
use conuredb.Tree.Guards.{writes_while_open}
use conuredb.Tree.Write.Storing.{put-Outcome}
use conuredb.Tree.Write.Deletion.{delete-Outcome}

pub data Write : Type 0 where
  a_put : Bytes → Bytes → Write
  a_delete : Bytes → Write

abbrev pub write : ℕ → Write → M (Unit {0})
write h (a_put key value) = put h key value
write h (a_delete key) = delete h key

abbrev pub written_key : Write → Bytes
written_key (a_put key value) = key
written_key (a_delete key) = key

abbrev pub new_value : Write → Option Bytes
new_value (a_put key value) = some value
new_value (a_delete key) = none

abbrev pub InLimits : Write → Type 0
InLimits (a_put key value) = (length key ≤ max_key_size) × (length value ≤ max_value_size)
InLimits (a_delete key) = length key ≤ max_key_size

-- There are ids left, and the leaf for a put holds the key or has room; the key of a delete is there.
abbrev pub Possible : Storage → ℕ → Write → Type 0
Possible s h (a_put key value) =
    (s.node_pool.next_node_id + 2 * h ≤ 2 ^ 51) × HasRoom s h s.root_node_id key value
Possible s h (a_delete key) =
    (s.node_pool.next_node_id + h ≤ 2 ^ 51)
    × ((v : Bytes) × (find (node_at s) h s.root_node_id key ≡ some v))

-- One after the other the writes are refused, and the store is `t` at the end.
abbrev pub AllRefused : ℕ → Storage → Storage → List Write → Type 0
AllRefused h t s [] = s ≡ t
AllRefused h t s (x ∷ xs) =
    (u : Storage) × (write h x s ≡ err in_transaction u) × AllRefused h t u xs

-- A write is done; or it has failed, its entry is in the tree all the same, and others are refused.
pub data Ending (s : Storage) (h : ℕ) (key : Bytes) (new : Option Bytes) (later : List Write)
    : Run (Unit {0}) → Type 0 where
  done :
      (t : Storage)
      → Holds s h key new t
      → t.transaction ≡ false
      → Ending s h key new later (ok tt t)
  locked :
      (e : Error) (t : Storage)
      → Holds s h key new t
      → AllRefused h t t later
      → Ending s h key new later (err e t)

write-refused :
    (h : ℕ) (x : Write) (t : Storage)
    → t.transaction ≡ true
    → InLimits x
    → write h x t ≡ err in_transaction t
write-refused h (a_put key value) t o l = (writes_while_open t h key value o l.0 l.1).0
write-refused h (a_delete key) t o l = (writes_while_open t h key [] o l (omega arith)).1

open-AllRefused :
    (h : ℕ) (t : Storage) (xs : List Write)
    → t.transaction ≡ true
    → All InLimits xs
    → AllRefused h t t xs
open-AllRefused h t [] o l = refl
open-AllRefused h t (x ∷ xs) o l = (t, write-refused h x t o l.0, open-AllRefused h t xs o l.1)

Outcome-Ending :
    (s : Storage) (h : ℕ) (key : Bytes) (new : Option Bytes) (later : List Write)
    (r : Run (Unit {0}))
    → All InLimits later
    → Outcome s h key new r
    → Ending s h key new later r
Outcome-Ending s h key new later _ l (saved t a c p) = done t a c
Outcome-Ending s h key new later _ l (unsaved e t a o) =
    locked e t a (open-AllRefused h t later o l)

-- On a well-formed store without an open transaction, whose root id roots a tree of height at most the
-- fuel, a `Put` or `Delete` within the limits that finds ids, and room in its leaf or its key, either
-- returns nil with the transaction closed or returns an error; in both cases the root roots a tree of the
-- same height whose map is the old one with the write's entry. After an error every row of further `Put`s
-- and `Delete`s within the limits is refused, each with "transaction already in progress", and leaves the
-- store as the failed write left it.
pub write-Ending :
    (s : Storage) (h : ℕ) (x : Write) (later : List Write)
    → IsStore s
    → IsTree s h s.root_node_id
    → s.transaction ≡ false
    → InLimits x
    → Possible s h x
    → All InLimits later
    → Ending s h (written_key x) (new_value x) later (write h x s)
write-Ending s h (a_put key value) later w d tr l (room, fits) ls =
    Outcome-Ending s h key (some value) later (put h key value s) ls
      (put-Outcome s h key value w d tr l.0 l.1 room fits)
write-Ending s h (a_delete key) later w d tr l (room, (v, held)) ls =
    Outcome-Ending s h key none later (delete h key s) ls
      (delete-Outcome s h key v w d tr l room held)
