-- ===== src/Tests/TreeOps.antt =====
-- The theorems about btree/btree.go, applied to the sample store.
use conuredb.Common.{
  eq_of_some, zero, suc, ◌+◌, ◌<◌, ◌≤◌, ◌≡◌, ◌↔◌, ◌∙◌, refl, sym, subst, arith, true, false, none,
  some, [], ◌∷◌,
}
use conuredb.Common.Bytes.{compare_bytes, equal_bytes}
use conuredb.Node.{node_size, find_child_pos, find_child_loop}
use conuredb.Node.Codec.{serialize}
use conuredb.Node.Order.{lookup_item}
use conuredb.Storage.{Storage}
use conuredb.Storage.View.{node_at, IsStore, Points, node_at-Points}
use conuredb.Storage.Session.{session-IsStore}
use conuredb.Storage.Transaction.{open_storage}
use conuredb.Tree.{get, insert, estimate_node_size, items_estimate, item_size}
use conuredb.Tree.Put.{put}
use conuredb.Tree.Delete.{delete, delete_node_key}
use conuredb.Tree.Model.{find, leaf_for}
use conuredb.Tree.Lookup.{Answered, get-Answered}
use conuredb.Tree.Removal.{Removed}
use conuredb.Tree.Removal.Present.{delete_node_key-Removed}
use conuredb.Tree.Outcome.{Outcome, Stored, IsTree-session}
use conuredb.Tree.Write.{begun}
use conuredb.Tree.Write.Storing.{put-Outcome}
use conuredb.Tree.Write.Deletion.{Refused, delete-Outcome, delete-Refused}
use conuredb.Tree.Insertion.Leaf.{Fits, Slack, Inserted}
use conuredb.Tree.Insertion.Descent.{HasRoom, insert-Inserted}
use conuredb.Tree.Opened.{Opened, open_storage-Opened}
use conuredb.Tree.Split.{Halves, split_leaf-Halves}
use conuredb.Tree.Estimate.{estimate-serialize}
use conuredb.Tree.Write.Lockout.{a_put, a_delete, write, Ending, write-Ending}
use conuredb.Tree.Write.Fitting.{delete-Stored, put-Stored}
use conuredb.Node.Layout.{page_content, items_size, children_size}
use conuredb.Storage.Sized.{AllFit}
use conuredb.Tests.{
  item, first_leaf, second_leaf, root_node, sample_file, sample, sample-IsStore, sample-IsTree,
  first_there, second_there, root_there,
}

-- The key "b" belongs to the first leaf, and "m" is in the second.
first_for_b : leaf_for (node_at sample) 2 3 (98 ∷ []) ≡ some first_leaf
unfolding leaf_for node_at find_child_pos find_child_loop compare_bytes
first_for_b = refl

pub held_m : find (node_at sample) 2 3 (109 ∷ []) ≡ some (2 ∷ [])
unfolding find leaf_for node_at find_child_pos find_child_loop compare_bytes lookup_item equal_bytes
held_m = refl

pub absent_b : find (node_at sample) 2 3 (98 ∷ []) ≡ none
unfolding find leaf_for node_at find_child_pos find_child_loop compare_bytes lookup_item equal_bytes
absent_b = refl

first_leaf-Fits : Fits first_leaf (item 98 7)
unfolding estimate_node_size items_estimate item_size
first_leaf-Fits = record { size = omega arith; room = omega arith }

pub sample-HasRoom : HasRoom sample 2 3 (98 ∷ []) (7 ∷ [])
sample-HasRoom n at absent =
    let here : first_leaf ≡ n = eq_of_some (sym first_for_b ∙ at) in
    subst (λ m. Fits m (item 98 7)) here first_leaf-Fits

put-Outcome_example : Outcome sample 2 (98 ∷ []) (some (7 ∷ [])) (put 2 (98 ∷ []) (7 ∷ []) sample)
put-Outcome_example =
    put-Outcome sample 2 (98 ∷ []) (7 ∷ []) sample-IsStore sample-IsTree refl (omega arith)
      (omega arith) (omega arith) sample-HasRoom

delete-Outcome_example : Outcome sample 2 (109 ∷ []) none (delete 2 (109 ∷ []) sample)
delete-Outcome_example =
    delete-Outcome sample 2 (109 ∷ []) (2 ∷ []) sample-IsStore sample-IsTree refl (omega arith)
      (omega arith) held_m

sample-AllFit : AllFit sample
unfolding page_content items_size children_size
sample-AllFit zero u = absurd (omega (arith, u.0))
sample-AllFit (suc zero) u =
    (first_leaf, node_at-Points sample 0 1 first_leaf first_there, omega arith)
sample-AllFit (suc (suc zero)) u =
    (second_leaf, node_at-Points sample 1 2 second_leaf second_there, omega arith)
sample-AllFit (suc (suc (suc zero))) u =
    (root_node, node_at-Points sample 2 3 root_node root_there, omega arith)
sample-AllFit (suc (suc (suc (suc j)))) u = absurd (omega (arith, u.1))

sample-Slack : Slack sample 2 3 (98 ∷ []) (7 ∷ [])
unfolding page_content items_size children_size
sample-Slack n at =
    let here : first_leaf ≡ n = eq_of_some (sym first_for_b ∙ at) in
    subst (λ m. page_content m + 8 ≤ node_size) here (omega arith)

put-Stored_example : Stored sample 2 (98 ∷ []) (some (7 ∷ [])) (put 2 (98 ∷ []) (7 ∷ []) sample)
put-Stored_example =
    put-Stored sample 2 (98 ∷ []) (7 ∷ []) sample-IsStore sample-IsTree sample-AllFit (λ ids j e. e)
      refl (omega arith) (omega arith) (omega arith) sample-HasRoom sample-Slack

delete-Stored_example : Stored sample 2 (109 ∷ []) none (delete 2 (109 ∷ []) sample)
delete-Stored_example =
    delete-Stored sample 2 (109 ∷ []) (2 ∷ []) sample-IsStore sample-IsTree sample-AllFit
      (λ ids j e. e) refl (omega arith) (omega arith) held_m

delete-Refused_example : Refused sample 2 (delete 2 (98 ∷ []) sample)
delete-Refused_example =
    delete-Refused sample 2 (98 ∷ []) sample-IsStore sample-IsTree refl (omega arith) absent_b

get-Answered_example :
    Answered sample (get 2 (109 ∷ []) sample) (find (node_at sample) 2 3 (109 ∷ []))
get-Answered_example =
    get-Answered {s = sample} {h = 2} (109 ∷ []) sample-IsStore sample-IsTree (omega arith)

-- The sample in a transaction.
abbrev active : Storage
active = begun sample

active-IsStore : IsStore active
active-IsStore = session-IsStore sample true [] 3 3 sample-IsStore

write-Ending_example :
    Ending sample 2
      (98 ∷ [])
      (some (7 ∷ []))
      (a_put (99 ∷ []) (1 ∷ []) ∷ a_delete (109 ∷ []) ∷ [])
      (write 2 (a_put (98 ∷ []) (7 ∷ [])) sample)
write-Ending_example =
    write-Ending sample 2 (a_put (98 ∷ []) (7 ∷ []))
      (a_put (99 ∷ []) (1 ∷ []) ∷ a_delete (109 ∷ []) ∷ []) sample-IsStore sample-IsTree refl
      (omega arith, omega arith) (omega arith, sample-HasRoom)
      ((omega arith, omega arith), (omega arith, tt))

active_root : Points active 2 3 root_node
active_root = record { cached = refl; holds = refl }

active_first : Points active 0 1 first_leaf
active_first = record { cached = refl; holds = refl }

active-HasRoom : HasRoom active 2 3 (98 ∷ []) (7 ∷ [])
unfolding node_at
active-HasRoom = sample-HasRoom

insert-Inserted_example :
    Inserted active 2 2 3 (98 ∷ []) (7 ∷ []) (insert 2 2 (98 ∷ []) (7 ∷ []) active)
insert-Inserted_example =
    insert-Inserted 2 {s = active} {id = 3} (98 ∷ []) (7 ∷ []) 2 root_node active-IsStore
      active_root (IsTree-session sample true [] 3 3 2 3 sample-IsTree) refl (omega arith)
      active-HasRoom

active_held_m : find (node_at active) 2 3 (109 ∷ []) ≡ some (2 ∷ [])
unfolding node_at
active_held_m = held_m

delete_node_key-Removed_example :
    Removed active 2 3 (109 ∷ []) (delete_node_key 2 2 (109 ∷ []) active)
delete_node_key-Removed_example =
    delete_node_key-Removed 2 {s = active} {id = 3} (109 ∷ []) (2 ∷ []) 2 root_node active-IsStore
      active_root (IsTree-session sample true [] 3 3 2 3 sample-IsTree) refl (omega arith)
      active_held_m

split_leaf-Halves_example : Halves active 0 1 first_leaf
split_leaf-Halves_example =
    split_leaf-Halves active 0 1 first_leaf active-IsStore active_first
      (record { type = refl; parent = refl; sorted = (tt, tt) }) refl (omega arith)

open_storage-Opened_example : Opened (λ ids. ids) (open_storage sample_file (λ ids. ids))
open_storage-Opened_example = open_storage-Opened sample_file (λ ids. ids) refl (λ n. refl)

estimate-serialize_example :
    (serialize first_leaf ≡ none) ↔ (node_size < estimate_node_size first_leaf none false + 3)
estimate-serialize_example = estimate-serialize first_leaf
