-- ===== src/Tree/Change.antt =====
-- src/smcp/btree.c: insertion, removal, counting and rotation of trees that are linked in place.
-- `bt` is the place of a pointer: the variable of the tree, or a link of an item.
use smcp.Prelude.{ℕ, zero, suc, Option, none, some, ◌==◌, if◌then◌else◌}
use smcp.Prelude.Bytes.{store}
use smcp.Tree.{TreeHeap, BtCompareResult, below, same, above, bt_find, bt_first, bt_last, bt_next}

-- The variable that holds the tree, and the links of all items.
pub record BinaryTree : Type 0 where
  pub root : ℕ
  pub links : TreeHeap

pub data Slot : Type 0 where
  root_slot : Slot
  lhs_of rhs_of : ℕ → Slot

-- `*bt`
abbrev pub read : BinaryTree → Slot → ℕ
read t root_slot = t.root
read t (lhs_of n) = t.links.lhs n
read t (rhs_of n) = t.links.rhs n

abbrev pub set_lhs : BinaryTree → ℕ → ℕ → BinaryTree
unfolding store
set_lhs t n v = record t { links = record t.links { lhs = store t.links.lhs n v } }

abbrev pub set_rhs : BinaryTree → ℕ → ℕ → BinaryTree
unfolding store
set_rhs t n v = record t { links = record t.links { rhs = store t.links.rhs n v } }

abbrev pub set_parent : BinaryTree → ℕ → ℕ → BinaryTree
unfolding store
set_parent t n v = record t { links = record t.links { parent = store t.links.parent n v } }

-- `*bt = v`
abbrev pub write : BinaryTree → Slot → ℕ → BinaryTree
write t root_slot v = record t { root = v }
write t (lhs_of n) v = set_lhs t n v
write t (rhs_of n) v = set_rhs t n v

-- The parent's link to `location` is given to `item`.
abbrev pub set_child : BinaryTree → ℕ → ℕ → ℕ → BinaryTree
set_child t n location item =
    if n == 0 then t else if t.links.rhs n == location then set_rhs t n item else set_lhs t n item

-- `item` takes the place and the links of `location`.
unfoldable pub replace : BinaryTree → Slot → ℕ → ℕ → BinaryTree
unfolding store
replace t bt location item =
    let t1 = set_parent t item (t.links.parent location) in
    let t2 = set_child t1 (t1.links.parent item) location item in
    let t3 = set_lhs t2 item (t2.links.lhs location) in
    let t4 =
      if t3.links.lhs location == 0 then t3 else set_parent t3 (t3.links.lhs location) item in
    let t5 = set_rhs t4 item (t4.links.rhs location) in
    let t6 =
      if t5.links.rhs location == 0 then t5 else set_parent t5 (t5.links.rhs location) item in
    write t6 bt item

-- What `bt_insert` leaves: the item given to `delete_func` (0 for none), and its result.
pub record Inserted : Type 0 where
  pub tree : BinaryTree
  pub deleted : ℕ
  pub depth : ℕ

-- `bt_insert` from `bt` on, at a depth, on fuel; `compare location item` is the result of
-- `compare_func(location, item, context)`, which reads no links.
unfoldable pub bt_insert :
    (ℕ → ℕ → BtCompareResult) → ℕ → BinaryTree → Slot → ℕ → ℕ → Option Inserted
unfolding replace
bt_insert compare zero t bt item depth = none
bt_insert compare (suc fuel) t bt item depth =
    let location = read t bt in
    let down = set_parent t item location in
    let right = bt_insert compare fuel down (rhs_of location) item (suc depth) in
    let left = bt_insert compare fuel down (lhs_of location) item (suc depth) in
    if location == 0
    then some (record { tree = write t bt item; deleted = 0; depth = depth })
    else elim (compare location item) [
      | below ↦ right
      | above ↦ left
      | same ↦
          if item == location
          then some (record { tree = t; deleted = 0; depth = depth })
          else some
              (record { tree = replace t bt location item; deleted = location; depth = depth })
    ]

-- The place of the pointer to `item`.
abbrev pub slot_of : BinaryTree → Slot → ℕ → Slot
slot_of t bt item =
    if t.links.parent item == 0
    then bt
    else if t.links.lhs (t.links.parent item) == item
    then lhs_of (t.links.parent item)
    else rhs_of (t.links.parent item)

-- `child` takes the place of `item`.
abbrev pub lift_child : BinaryTree → Slot → ℕ → ℕ → BinaryTree
unfolding store
lift_child t bt item child = let t1 = write t bt child in set_parent t1 child (t1.links.parent item)

-- The right subtree of `item` is hung on the last item of the left one.
abbrev pub hang : BinaryTree → ℕ → ℕ → BinaryTree
unfolding store
hang t item end = let t1 = set_parent t (t.links.rhs item) end in set_rhs t1 end (t1.links.rhs item)

abbrev pub clear_links : BinaryTree → ℕ → BinaryTree
unfolding store
clear_links t item = set_parent (set_rhs (set_lhs t item 0) item 0) item 0

-- `item` is taken out of its place; `none`: out of fuel.
unfoldable pub unlink_at : BinaryTree → ℕ → Slot → ℕ → Option BinaryTree
unfolding bt_last store
unlink_at t fuel slot item =
    let l = t.links.lhs item in
    let r = t.links.rhs item in
    if l == 0
    then (if r == 0 then some (write t slot 0) else some (lift_child t slot item r))
    else if r == 0
    then some (lift_child t slot item l)
    else elim (bt_last t.links fuel l) [
      | none ↦ none
      | some end ↦ let t1 = hang t item end in some (lift_child t1 slot item (t1.links.lhs item))
    ]

-- The tree, and the item given to `delete_func` (0 where none is found: the result is false).
unfoldable pub bt_remove : BinaryTree → ℕ → Slot → (ℕ → BtCompareResult) → Option (BinaryTree × ℕ)
unfolding bt_find unlink_at
bt_remove t fuel bt compare = elim (bt_find t.links compare fuel (read t bt)) [
  | none ↦ none
  | some item ↦
      if item == 0 then some (t, 0) else elim (unlink_at t fuel (slot_of t bt item) item) [
        | none ↦ none
        | some t' ↦ some (clear_links t' item, item)
      ]
]

-- The loop of `bt_count`, on fuel; each `bt_next` walks on fuel of its own.
unfoldable pub count_to : TreeHeap → ℕ → ℕ → ℕ → ℕ → Option ℕ
unfolding bt_next
count_to h walk end zero iter = none
count_to h walk end (suc fuel) iter = if iter == end then some 1 else elim (bt_next h walk iter) [
  | none ↦ none
  | some next ↦
      let rest = count_to h walk end fuel next in elim rest [ none ↦ none | some n ↦ some (suc n) ]
]

unfoldable pub bt_count : TreeHeap → ℕ → ℕ → Option ℕ
unfolding bt_first bt_last count_to
bt_count h fuel item = if item == 0 then some 0 else elim (bt_first h fuel item) [
  | none ↦ none
  | some iter ↦ elim (bt_last h fuel item) [
    | none ↦ none
    | some end ↦ count_to h fuel end fuel iter
  ]
]

unfoldable pub bt_rotate_right : BinaryTree → Slot → BinaryTree
unfolding store
bt_rotate_right t bt =
    let item = read t bt in
    if item == 0
    then t
    else if t.links.lhs item == 0
    then t
    else let t1 = set_parent t (t.links.lhs item) (t.links.parent item) in
      let t2 = set_parent t1 item (t1.links.lhs item) in
      let t3 = write t2 bt (t2.links.lhs item) in
      let inner = t3.links.rhs (t3.links.lhs item) in
      let t4 = if inner == 0 then t3 else set_parent t3 inner item in
      let t5 = set_lhs t4 item (t4.links.rhs (t4.links.lhs item)) in set_rhs t5 (read t5 bt) item

unfoldable pub bt_rotate_left : BinaryTree → Slot → BinaryTree
unfolding store
bt_rotate_left t bt =
    let item = read t bt in
    if item == 0
    then t
    else if t.links.rhs item == 0
    then t
    else let t1 = set_parent t (t.links.rhs item) (t.links.parent item) in
      let t2 = set_parent t1 item (t1.links.rhs item) in
      let t3 = write t2 bt (t2.links.rhs item) in
      let inner = t3.links.lhs (t3.links.rhs item) in
      let t4 = if inner == 0 then t3 else set_parent t3 inner item in
      let t5 = set_rhs t4 item (t4.links.lhs (t4.links.rhs item)) in set_lhs t5 (read t5 bt) item

-- The loop and the recursion of `bt_unbalance`, with the number of rotations; on fuel.
unfoldable pub bt_unbalance : ℕ → BinaryTree → Slot → ℕ → Option (BinaryTree × ℕ)
unfolding bt_rotate_right
bt_unbalance zero t bt ret = none
bt_unbalance (suc fuel) t bt ret =
    let item = read t bt in
    let rest = bt_unbalance fuel t (rhs_of item) ret in
    let again = bt_unbalance fuel (bt_rotate_right t bt) bt (suc ret) in
    if item == 0 then some (t, ret) else if t.links.lhs item == 0 then rest else again
