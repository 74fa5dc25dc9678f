-- ===== src/Fsm/Log.antt =====
-- What the state machine holds after a log.
use conuredb.Common.{
  ℕ, ◌+◌, ◌*◌, ◌≤◌, ◌^◌, ◌≡◌, ◌∙◌, sym, ap, true, false, none, some, ◌==◌, if◌then◌else◌, length,
  arith, Option-cases, inl, inr, Bool-cases,
}
use conuredb.Common.Bytes.{Bytes, equal_bytes, eq_of_equal_bytes}
use conuredb.Node.{max_key_size, max_value_size}
use conuredb.Storage.{Error, key_not_found}
use conuredb.Tree.Insertion.Descent.{HasRoom}
use conuredb.Db
use conuredb.Db.{Db, Reply, answered, refused}
use conuredb.Db.Refines.{
  Map, Represents, Durable, set_key, Written, stored, failed, Unchanged, missing, put-Written,
  delete-Written, delete-Unchanged,
}
use conuredb.Fsm.{Command, cmd_put, cmd_delete, apply, apply_command}

-- What a command does to a map.
abbrev pub step : Command → Map → Map
step c m =
    if c.type == cmd_put
    then set_key m c.key (some c.value)
    else (if c.type == cmd_delete then set_key m c.key none else m)

-- The conditions on a command: sizes within the limits, ids left, and room in the leaf for a put.
pub record Fitting (h : ℕ) (c : Command) (d : Db) : Type 0 where
  pub key_size : length c.key ≤ max_key_size
  pub value_size : length c.value ≤ max_value_size
  pub ids : d.tree.node_pool.next_node_id + 2 * h ≤ 2 ^ 51
  pub room :
      if c.type == cmd_put then HasRoom d.tree h d.tree.root_node_id c.key c.value else Unit {0}

-- How the application of a command to `d` ends.
pub data Applied (h : ℕ) (d : Db) (m : Map) : Reply (Unit {0}) → Type 0 where
  done : (e : Db) → Represents h e m → (Durable d → Durable e) → Applied h d m (answered tt e)
  absent :
      (e : Db)
      → Represents h e m
      → (Durable d → Durable e)
      → Applied h d m (refused key_not_found e)
  stopped : (x : Error) (e : Db) → e.tree.transaction ≡ true → Applied h d m (refused x e)

Applied-Written :
    (h : ℕ) (d : Db) (m : Map) (r : Reply (Unit {0})) → Written h d m r → Applied h d m r
Applied-Written h d m r (stored e a disk) = done e a disk
Applied-Written h d m r (failed x e o tree holds) = stopped x e o

Represents-eq :
    (h : ℕ) (d : Db) (m n : Map) → Represents h d m → ((k : Bytes) → m k ≡ n k) → Represents h d n
Represents-eq h d m n a e = record {
  is_open = a.is_open;
  is = a.is;
  idle = a.idle;
  tree = a.tree;
  holds = λ k. a.holds k ∙ e k;
}

Applied-Unchanged :
    (h : ℕ) (d : Db) (m n : Map) (r : Reply (Unit {0}))
    → ((k : Bytes) → m k ≡ n k)
    → Unchanged h d m {A = Unit {0}} none key_not_found r
    → Applied h d n r
Applied-Unchanged h d m n r same (missing x e a disk) = absent e (Represents-eq h e m n a same) disk

-- Deleting a key that the map does not have.
without_absent : (m : Map) (key : Bytes) → m key ≡ none → (k : Bytes) → m k ≡ set_key m key none k
without_absent m key e k = elim (Bool-cases (equal_bytes key k)) [
  | inl same ↦
      ap m (sym (eq_of_equal_bytes key k same)) ∙ e ∙ sym (ap (λ b. if b then none else m k) same)
  | inr other ↦ sym (ap (λ b. if b then none else m k) other)
]

apply-put :
    (h : ℕ) (c : Command) (d : Db)
    → (c.type == cmd_put) ≡ true
    → apply h (some c) d ≡ Db.put h c.key c.value d
unfolding apply apply_command
apply-put h c d e = ground (arith, e)

apply-delete :
    (h : ℕ) (c : Command) (d : Db)
    → (c.type == cmd_put) ≡ false
    → (c.type == cmd_delete) ≡ true
    → apply h (some c) d ≡ Db.delete h c.key d
unfolding apply apply_command
apply-delete h c d e f = ground (arith, e, f)

apply-other :
    (h : ℕ) (c : Command) (d : Db)
    → (c.type == cmd_put) ≡ false
    → (c.type == cmd_delete) ≡ false
    → apply h (some c) d ≡ answered tt d
unfolding apply apply_command
apply-other h c d e f = ground (arith, e, f)

-- On an open database that represents a map, a decoded command within the limits, with ids left and,
-- if it is a put, room in the leaf, is applied without a panic: it is answered, or answered with
-- ErrKeyNotFound, and the database represents the map after the command's step (for a delete of an
-- absent key the same map); or its commit fails, and the transaction is left open.
pub apply-Applied :
    (h : ℕ) (c : Command) (d : Db) (m : Map)
    → Represents h d m
    → Fitting h c d
    → Applied h d (step c m) (apply h (some c) d)
apply-Applied h c d m a f = elim (Bool-cases (c.type == cmd_put)) [
  | inl put ↦
      rw (apply-put h c d put, put)
        (Applied-Written h d (set_key m c.key (some c.value)) (Db.put h c.key c.value d)
          (put-Written h d m c.key c.value a f.key_size f.value_size f.ids (rw put at f.room)))
  | inr no_put ↦ elim (Bool-cases (c.type == cmd_delete)) [
    | inr other ↦ rw (apply-other h c d no_put other, no_put, other) (done d a (λ x. x))
    | inl delete ↦
        rw (apply-delete h c d no_put delete, no_put, delete)
          (elim (Option-cases (m c.key)) [
            | inr (v, held) ↦
                Applied-Written h d (set_key m c.key none) (Db.delete h c.key d)
                  (delete-Written h d m c.key v a f.key_size (omega (arith, f.ids)) held)
            | inl gone ↦
                Applied-Unchanged h d m (set_key m c.key none) (Db.delete h c.key d)
                  (without_absent m c.key gone) (delete-Unchanged h d m c.key a f.key_size gone)
          ])
  ]
]
