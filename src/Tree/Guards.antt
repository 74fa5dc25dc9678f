-- ===== src/Tree/Guards.antt =====
-- The checks at the front of `Get`, `Put` and `Delete`, and a store whose commit has failed.
use conuredb.Common.{◌<◌, ◌≤◌, ◌≡◌, ℕ, true, length, arith}
use conuredb.Common.Bytes.{Bytes}
use conuredb.Node.{max_key_size, max_value_size}
use conuredb.Storage.{Storage, err, key_too_large, in_transaction}
use conuredb.Storage.Transaction.{begin_transaction}
use conuredb.Tree.{get}
use conuredb.Tree.Put.{put}
use conuredb.Tree.Delete.{delete}

-- A key above 128 bytes makes `Get`, `Put` and `Delete` return ErrKeyTooLarge and leaves the store
-- untouched, whatever state it is in and whatever the value is.
pub key_too_large_lem :
    (s : Storage) (fuel : ℕ) (key value : Bytes)
    → max_key_size < length key
    → (get fuel key s ≡ err key_too_large s)
      × (put fuel key value s ≡ err key_too_large s)
      × (delete fuel key s ≡ err key_too_large s)
unfolding get put delete
key_too_large_lem s fuel key value h = (ground (arith, h), ground (arith, h), ground (arith, h))

-- While a transaction is open, `Put` and `Delete` of a key and value within the limits return the
-- error "transaction already in progress" and leave the store as it is, with the transaction open.
pub writes_while_open :
    (s : Storage) (fuel : ℕ) (key value : Bytes)
    → s.transaction ≡ true
    → length key ≤ max_key_size
    → length value ≤ max_value_size
    → (put fuel key value s ≡ err in_transaction s) × (delete fuel key s ≡ err in_transaction s)
unfolding put delete begin_transaction
writes_while_open s fuel key value tr lk lv = (ground (arith, tr, lk, lv), ground (arith, tr, lk))
