-- ===== src/Tree/Replace.antt =====
-- The links after an item took the place of another one in `bt_insert`.
use smcp.Prelude.{ℕ, ◌≡◌, ◌≢◌, arith, false}
use smcp.Prelude.Bytes.{store}
use smcp.Tree.Change.{BinaryTree, Slot, root_slot, lhs_of, rhs_of, read, replace}
use smcp.Tree.Slots.{is_lhs, is_rhs, is_root}

-- The place of the pointer to `location`, whose parent is outside.
abbrev pub IsPlace : BinaryTree → Slot → ℕ → ℕ → Type 0
IsPlace t root_slot location item = t.links.parent location ≡ 0
IsPlace t (lhs_of n) location item =
    (t.links.parent location ≡ n)
    × (n ≢ 0)
    × (n ≢ location)
    × (n ≢ item)
    × (t.links.rhs n ≢ location)
IsPlace t (rhs_of n) location item =
    (t.links.parent location ≡ n)
    × (n ≢ 0)
    × (n ≢ location)
    × (n ≢ item)
    × (t.links.rhs n ≡ location)

pub read-replace :
    (t : BinaryTree) (bt : Slot) (location item : ℕ)
    → IsPlace t bt location item
    → item ≢ location
    → read (replace t bt location item) bt ≡ item
unfolding replace store
read-replace t root_slot location item place other = ground arith
read-replace t (lhs_of m) location item place other = ground arith
read-replace t (rhs_of m) location item place other = ground arith

pub replace-lhs_self :
    (t : BinaryTree) (bt : Slot) (location item : ℕ)
    → IsPlace t bt location item
    → item ≢ location
    → (replace t bt location item).links.lhs item ≡ t.links.lhs location
unfolding replace store
replace-lhs_self t root_slot location item place other = ground arith
replace-lhs_self t (lhs_of m) location item place other = ground arith
replace-lhs_self t (rhs_of m) location item place other = ground arith

pub replace-rhs_self :
    (t : BinaryTree) (bt : Slot) (location item : ℕ)
    → IsPlace t bt location item
    → item ≢ location
    → (replace t bt location item).links.rhs item ≡ t.links.rhs location
unfolding replace store
replace-rhs_self t root_slot location item place other = ground arith
replace-rhs_self t (lhs_of m) location item place other = ground arith
replace-rhs_self t (rhs_of m) location item place other = ground arith

pub replace-parent_self :
    (t : BinaryTree) (bt : Slot) (location item : ℕ)
    → IsPlace t bt location item
    → item ≢ location
    → t.links.lhs location ≢ item
    → t.links.rhs location ≢ item
    → (replace t bt location item).links.parent item ≡ t.links.parent location
unfolding replace store
replace-parent_self t root_slot location item place other a b = ground arith
replace-parent_self t (lhs_of m) location item place other a b = ground arith
replace-parent_self t (rhs_of m) location item place other a b = ground arith

pub replace-lhs :
    (t : BinaryTree) (bt : Slot) (location item : ℕ)
    → IsPlace t bt location item
    → item ≢ location
    → (n : ℕ) → n ≢ item
    → is_lhs bt n ≡ false
    → (replace t bt location item).links.lhs n ≡ t.links.lhs n
unfolding replace store
replace-lhs t root_slot location item place other n a b = ground arith
replace-lhs t (lhs_of m) location item place other n a b = ground arith
replace-lhs t (rhs_of m) location item place other n a b = ground arith

pub replace-rhs :
    (t : BinaryTree) (bt : Slot) (location item : ℕ)
    → IsPlace t bt location item
    → item ≢ location
    → (n : ℕ) → n ≢ item
    → is_rhs bt n ≡ false
    → (replace t bt location item).links.rhs n ≡ t.links.rhs n
unfolding replace store
replace-rhs t root_slot location item place other n a b = ground arith
replace-rhs t (lhs_of m) location item place other n a b = ground arith
replace-rhs t (rhs_of m) location item place other n a b = ground arith

pub replace-root :
    (t : BinaryTree) (bt : Slot) (location item : ℕ)
    → IsPlace t bt location item
    → item ≢ location
    → is_root bt ≡ false
    → (replace t bt location item).root ≡ t.root
unfolding replace store
replace-root t root_slot location item place other a = ground arith
replace-root t (lhs_of m) location item place other a = ground arith
replace-root t (rhs_of m) location item place other a = ground arith

pub replace-parent :
    (t : BinaryTree) (bt : Slot) (location item : ℕ)
    → IsPlace t bt location item
    → item ≢ location
    → (n : ℕ) → n ≢ item
    → (t.links.lhs location ≢ 0 → n ≢ t.links.lhs location)
    → (t.links.rhs location ≢ 0 → n ≢ t.links.rhs location)
    → (replace t bt location item).links.parent n ≡ t.links.parent n
unfolding replace store
replace-parent t root_slot location item place other n a b c = ground arith
replace-parent t (lhs_of m) location item place other n a b c = ground arith
replace-parent t (rhs_of m) location item place other n a b c = ground arith

pub replace-parent_left :
    (t : BinaryTree) (bt : Slot) (location item : ℕ)
    → IsPlace t bt location item
    → item ≢ location
    → t.links.lhs location ≢ 0
    → (replace t bt location item).links.parent (t.links.lhs location) ≡ item
unfolding replace store
replace-parent_left t root_slot location item place other a = ground arith
replace-parent_left t (lhs_of m) location item place other a = ground arith
replace-parent_left t (rhs_of m) location item place other a = ground arith

pub replace-parent_right :
    (t : BinaryTree) (bt : Slot) (location item : ℕ)
    → IsPlace t bt location item
    → item ≢ location
    → t.links.rhs location ≢ 0
    → (replace t bt location item).links.parent (t.links.rhs location) ≡ item
unfolding replace store
replace-parent_right t root_slot location item place other a = ground arith
replace-parent_right t (lhs_of m) location item place other a = ground arith
replace-parent_right t (rhs_of m) location item place other a = ground arith
