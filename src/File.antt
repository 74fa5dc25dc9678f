-- ===== src/File.antt =====
-- The part of `os.File` that btree/storage.go uses, over the bytes of one file. Operation number
-- `n` on the file fails if `faults n` is `some k`; a failed write has put its first `k` bytes.
-- The source's "short write" cannot happen: `WriteAt` returns an error if it writes less.
pub mod Splice
use conuredb.Common.{
  ℕ, ◌+◌, ◌-◌, Bool, true, false, Option, none, some, List, [], ◌∷◌, ◌++◌, length, take, drop,
  replicate,
}
use conuredb.Common.Bytes.{Bytes}

pub record File : Type 0 where
  pub bytes : Bytes
  pub ops : ℕ
  pub faults : ℕ → Option ℕ

-- Bytes written at an offset; a gap behind the end is filled with zeros.
unfoldable pub splice : Bytes → ℕ → Bytes → Bytes
splice bs offset [] = bs
splice bs offset (x ∷ xs) =
    take offset (bs ++ replicate (offset - length bs) 0)
    ++ ((x ∷ xs) ++ drop (offset + length (x ∷ xs)) bs)

-- The Boolean says that no error was returned.
unfoldable pub write_at : File → Bytes → ℕ → Bool × File
write_at f bs offset = elim (f.faults f.ops) [
  | none ↦ (true, record f { bytes = splice f.bytes offset bs; ops = f.ops + 1 })
  | some k ↦ (false, record f { bytes = splice f.bytes offset (take k bs); ops = f.ops + 1 })
]

-- `none` is an error other than the end of the file; at the end the result is short.
unfoldable pub read_at : File → ℕ → ℕ → Option Bytes × File
read_at f size offset = elim (f.faults f.ops) [
  | none ↦ (some (take size (drop offset f.bytes)), record f { ops = f.ops + 1 })
  | some k ↦ (none, record f { ops = f.ops + 1 })
]

unfoldable pub sync : File → Bool × File
sync f = elim (f.faults f.ops) [
  | none ↦ (true, record f { ops = f.ops + 1 })
  | some k ↦ (false, record f { ops = f.ops + 1 })
]

-- `Close`: whatever it returns, every later operation on the handle fails.
unfoldable pub close : File → Bool × File
close f =
    let shut = record f { ops = f.ops + 1; faults = λ n. some 0 } in
    elim (f.faults f.ops) [ none ↦ (true, shut) | some k ↦ (false, shut) ]
