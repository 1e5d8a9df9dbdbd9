-- ===== src/Tree.antt =====
-- src/smcp/btree.c: the search and the iteration of binary trees that are linked in place.
-- A node is its address, NULL is 0, and each walk has fuel; `none` is that it ran out.
pub mod Change
pub mod Shape
pub mod Slots
pub mod Replace
pub mod Find
pub mod Ordered
pub mod Graft
pub mod Insert
pub mod Rotate
pub mod Walk
pub mod Count
pub mod Turn
pub mod Unbalance
pub mod Remove
pub mod Keys
use smcp.Prelude.{ℕ, zero, suc, not, ◌&&◌, Option, none, some, ◌==◌, if◌then◌else◌}

-- The links of every `struct bt_item_s`.
pub record TreeHeap : Type 0 where
  pub lhs : ℕ → ℕ
  pub rhs : ℕ → ℕ
  pub parent : ℕ → ℕ

-- The sign of a `bt_compare_result_t`.
pub data BtCompareResult : Type 0 where
  below same above : BtCompareResult

-- `bt_find`; `compare location` is the result of `compare_func(location, item, context)`.
unfoldable pub bt_find : TreeHeap → (ℕ → BtCompareResult) → ℕ → ℕ → Option ℕ
bt_find h compare zero location = none
bt_find h compare (suc fuel) location =
    let right = bt_find h compare fuel (h.rhs location) in
    let left = bt_find h compare fuel (h.lhs location) in
    if location == 0
    then some 0
    else elim (compare location) [ below ↦ right | same ↦ some location | above ↦ left ]

unfoldable pub bt_first : TreeHeap → ℕ → ℕ → Option ℕ
bt_first h zero item = none
bt_first h (suc fuel) item =
    let rest = bt_first h fuel (h.lhs item) in
    if item == 0 then some 0 else if h.lhs item == 0 then some item else rest

unfoldable pub bt_last : TreeHeap → ℕ → ℕ → Option ℕ
bt_last h zero item = none
bt_last h (suc fuel) item =
    let rest = bt_last h fuel (h.rhs item) in
    if item == 0 then some 0 else if h.rhs item == 0 then some item else rest

-- The loop up the tree: on while the item is on the given side of its parent, then to the parent.
unfoldable pub climb : TreeHeap → (ℕ → ℕ) → ℕ → ℕ → Option ℕ
climb h side zero item = none
climb h side (suc fuel) item =
    let rest = climb h side fuel (h.parent item) in
    if not (h.parent item == 0) && side (h.parent item) == item then rest else some (h.parent item)

unfoldable pub bt_next : TreeHeap → ℕ → ℕ → Option ℕ
unfolding bt_first climb
bt_next h fuel item =
    if item == 0
    then some 0
    else if h.rhs item == 0
    then climb h h.rhs fuel item
    else bt_first h fuel (h.rhs item)

unfoldable pub bt_prev : TreeHeap → ℕ → ℕ → Option ℕ
unfolding bt_last climb
bt_prev h fuel item =
    if item == 0
    then some 0
    else if h.lhs item == 0
    then climb h h.lhs fuel item
    else bt_last h fuel (h.lhs item)
