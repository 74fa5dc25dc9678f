-- ===== src/Fsm/Replicas.antt =====
-- Two replicas that apply the same log.
use conuredb.Common.{ℕ, ◌≡◌, ◌∙◌, sym, false, some, List, [], ◌∷◌}
use conuredb.Common.Bytes.{Bytes}
use conuredb.Storage.{Error}
use conuredb.Storage.View.{node_at}
use conuredb.Tree.Model.{find}
use conuredb.Db.{Db, Reply, answered, refused}
use conuredb.Db.Refines.{Map, Represents, Durable}
use conuredb.Fsm.{Command, apply}
use conuredb.Fsm.Log.{step, Fitting, Applied, done, absent, stopped, apply-Applied}

-- The database that a reply leaves, whether it is an error or not.
pub data Leaves : Reply (Unit {0}) → Db → Type 0 where
  by_answer : (d : Db) → Leaves (answered tt d) d
  by_error : (e : Error) (d : Db) → Leaves (refused e d) d

-- The commands of a log applied in order, each fitting, and no commit failing.
pub data Replay (h : ℕ) : List Command → Db → Db → Type 0 where
  over : (d : Db) → Replay h [] d d
  next :
      (c : Command) (cs : List Command) (d d' e : Db)
      → Fitting h c d
      → Leaves (apply h (some c) d) d'
      → d'.tree.transaction ≡ false
      → Replay h cs d' e
      → Replay h (c ∷ cs) d e

-- The log on a map.
abbrev pub steps : List Command → Map → Map
steps [] m = m
steps (c ∷ cs) m = steps cs (step c m)

after_one :
    (h : ℕ) (b : Db) (m : Map) (r : Reply (Unit {0})) (d : Db)
    → Applied h b m r
    → Leaves r d
    → d.tree.transaction ≡ false
    → Represents h d m × (Durable b → Durable d)
after_one h b m _ _ (done e a disk) (by_answer d) idle = (a, disk)
after_one h b m _ _ (absent e a disk) (by_error f d) idle = (a, disk)
after_one h b m _ _ (stopped e f o) (by_error g d) idle = absurd (cc (o, idle))

pub Replay-Represents :
    (h : ℕ) (cs : List Command) (d e : Db) (m : Map)
    → Represents h d m
    → Replay h cs d e
    → Represents h e (steps cs m) × (Durable d → Durable e)
Replay-Represents h [] d e m a (over _) = (a, λ x. x)
Replay-Represents h (c ∷ cs) d e m a (next _ _ _ d' _ f l idle rest) =
    let (now, disk) =
      after_one h d (step c m) (apply h (some c) d) d' (apply-Applied h c d m a f) l idle in
    let (last, more) = Replay-Represents h cs d' e (step c m) now rest in (last, λ x. more (disk x))

-- Two databases, with trees of possibly different heights, that represent the same map and replay the
-- same log of fitting commands without a failing commit end with the same value, or none, at each key,
-- and both represent what the log makes of the map.
pub replicas_agree :
    (h k : ℕ) (cs : List Command) (d e d' e' : Db) (m : Map)
    → Represents h d m
    → Represents k e m
    → Replay h cs d d'
    → Replay k cs e e'
    → Represents h d' (steps cs m)
      × Represents k e' (steps cs m)
      × ((key : Bytes)
          → find (node_at d'.tree) h d'.tree.root_node_id key
            ≡ find (node_at e'.tree) k e'.tree.root_node_id key)
replicas_agree h k cs d e d' e' m a b p q =
    let left = (Replay-Represents h cs d d' m a p).0 in
    let right = (Replay-Represents k cs e e' m b q).0 in
    (left, right, λ key. left.holds key ∙ sym (right.holds key))
