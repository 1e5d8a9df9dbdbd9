-- ===== src/Tree/Rotate.antt =====
-- The links after a rotation.
use smcp.Prelude.{ℕ, ◌≡◌, ◌≢◌, arith, false}
use smcp.Prelude.Bytes.{store}
use smcp.Tree.Change.{
  BinaryTree, Slot, root_slot, lhs_of, rhs_of, read, bt_rotate_right, bt_rotate_left,
}
use smcp.Tree.Slots.{is_lhs, is_rhs, is_root}

-- An item and its child, which is to take its place, on one side.
pub record IsPivot (side : ℕ → ℕ) (t : BinaryTree) (bt : Slot) (x y : ℕ) : Type 0 where
  pub at : read t bt ≡ x
  pub child : side x ≡ y
  pub item_nonzero : x ≢ 0
  pub child_nonzero : y ≢ 0
  pub apart : x ≢ y
  pub off_lhs : (is_lhs bt x ≡ false) × (is_lhs bt y ≡ false)
  pub off_rhs : (is_rhs bt x ≡ false) × (is_rhs bt y ≡ false)

pub read-rotate_right :
    (t : BinaryTree) (bt : Slot) (x y : ℕ)
    → IsPivot (t.links.lhs) t bt x y
    → read (bt_rotate_right t bt) bt ≡ y
unfolding bt_rotate_right store
read-rotate_right t root_slot x y v = ground arith
read-rotate_right t (lhs_of m) x y v = ground arith
read-rotate_right t (rhs_of m) x y v = ground arith

pub rotate_right-parent_child :
    (t : BinaryTree) (bt : Slot) (x y : ℕ)
    → IsPivot (t.links.lhs) t bt x y
    → t.links.rhs y ≢ y
    → (bt_rotate_right t bt).links.parent y ≡ t.links.parent x
unfolding bt_rotate_right store
rotate_right-parent_child t root_slot x y v a = ground arith
rotate_right-parent_child t (lhs_of m) x y v a = ground arith
rotate_right-parent_child t (rhs_of m) x y v a = ground arith

pub rotate_right-parent_item :
    (t : BinaryTree) (bt : Slot) (x y : ℕ)
    → IsPivot (t.links.lhs) t bt x y
    → t.links.rhs y ≢ x
    → (bt_rotate_right t bt).links.parent x ≡ y
unfolding bt_rotate_right store
rotate_right-parent_item t root_slot x y v a = ground arith
rotate_right-parent_item t (lhs_of m) x y v a = ground arith
rotate_right-parent_item t (rhs_of m) x y v a = ground arith

pub rotate_right-item :
    (t : BinaryTree) (bt : Slot) (x y : ℕ)
    → IsPivot (t.links.lhs) t bt x y
    → (bt_rotate_right t bt).links.lhs x ≡ t.links.rhs y
unfolding bt_rotate_right store
rotate_right-item t root_slot x y v = ground arith
rotate_right-item t (lhs_of m) x y v = ground arith
rotate_right-item t (rhs_of m) x y v = ground arith

pub rotate_right-child :
    (t : BinaryTree) (bt : Slot) (x y : ℕ)
    → IsPivot (t.links.lhs) t bt x y
    → (bt_rotate_right t bt).links.rhs y ≡ x
unfolding bt_rotate_right store
rotate_right-child t root_slot x y v = ground arith
rotate_right-child t (lhs_of m) x y v = ground arith
rotate_right-child t (rhs_of m) x y v = ground arith

pub rotate_right-near :
    (t : BinaryTree) (bt : Slot) (x y : ℕ)
    → IsPivot (t.links.lhs) t bt x y
    → (n : ℕ) → n ≢ x
    → is_lhs bt n ≡ false
    → (bt_rotate_right t bt).links.lhs n ≡ t.links.lhs n
unfolding bt_rotate_right store
rotate_right-near t root_slot x y v n a b = ground arith
rotate_right-near t (lhs_of m) x y v n a b = ground arith
rotate_right-near t (rhs_of m) x y v n a b = ground arith

pub rotate_right-far :
    (t : BinaryTree) (bt : Slot) (x y : ℕ)
    → IsPivot (t.links.lhs) t bt x y
    → (n : ℕ) → n ≢ y
    → is_rhs bt n ≡ false
    → (bt_rotate_right t bt).links.rhs n ≡ t.links.rhs n
unfolding bt_rotate_right store
rotate_right-far t root_slot x y v n a b = ground arith
rotate_right-far t (lhs_of m) x y v n a b = ground arith
rotate_right-far t (rhs_of m) x y v n a b = ground arith

pub rotate_right-parent_inner :
    (t : BinaryTree) (bt : Slot) (x y : ℕ)
    → IsPivot (t.links.lhs) t bt x y
    → t.links.rhs y ≢ 0
    → (bt_rotate_right t bt).links.parent (t.links.rhs y) ≡ x
unfolding bt_rotate_right store
rotate_right-parent_inner t root_slot x y v a = ground arith
rotate_right-parent_inner t (lhs_of m) x y v a = ground arith
rotate_right-parent_inner t (rhs_of m) x y v a = ground arith

pub rotate_right-parent :
    (t : BinaryTree) (bt : Slot) (x y : ℕ)
    → IsPivot (t.links.lhs) t bt x y
    → (n : ℕ) → n ≢ x
    → n ≢ y
    → (t.links.rhs y ≢ 0 → n ≢ t.links.rhs y)
    → (bt_rotate_right t bt).links.parent n ≡ t.links.parent n
unfolding bt_rotate_right store
rotate_right-parent t root_slot x y v n a b c = ground arith
rotate_right-parent t (lhs_of m) x y v n a b c = ground arith
rotate_right-parent t (rhs_of m) x y v n a b c = ground arith

pub rotate_right-root :
    (t : BinaryTree) (bt : Slot) (x y : ℕ)
    → IsPivot (t.links.lhs) t bt x y
    → is_root bt ≡ false
    → (bt_rotate_right t bt).root ≡ t.root
unfolding bt_rotate_right store
rotate_right-root t root_slot x y v a = ground arith
rotate_right-root t (lhs_of m) x y v a = ground arith
rotate_right-root t (rhs_of m) x y v a = ground arith

pub read-rotate_left :
    (t : BinaryTree) (bt : Slot) (x y : ℕ)
    → IsPivot (t.links.rhs) t bt x y
    → read (bt_rotate_left t bt) bt ≡ y
unfolding bt_rotate_left store
read-rotate_left t root_slot x y v = ground arith
read-rotate_left t (lhs_of m) x y v = ground arith
read-rotate_left t (rhs_of m) x y v = ground arith

pub rotate_left-parent_child :
    (t : BinaryTree) (bt : Slot) (x y : ℕ)
    → IsPivot (t.links.rhs) t bt x y
    → t.links.lhs y ≢ y
    → (bt_rotate_left t bt).links.parent y ≡ t.links.parent x
unfolding bt_rotate_left store
rotate_left-parent_child t root_slot x y v a = ground arith
rotate_left-parent_child t (lhs_of m) x y v a = ground arith
rotate_left-parent_child t (rhs_of m) x y v a = ground arith

pub rotate_left-parent_item :
    (t : BinaryTree) (bt : Slot) (x y : ℕ)
    → IsPivot (t.links.rhs) t bt x y
    → t.links.lhs y ≢ x
    → (bt_rotate_left t bt).links.parent x ≡ y
unfolding bt_rotate_left store
rotate_left-parent_item t root_slot x y v a = ground arith
rotate_left-parent_item t (lhs_of m) x y v a = ground arith
rotate_left-parent_item t (rhs_of m) x y v a = ground arith

pub rotate_left-item :
    (t : BinaryTree) (bt : Slot) (x y : ℕ)
    → IsPivot (t.links.rhs) t bt x y
    → (bt_rotate_left t bt).links.rhs x ≡ t.links.lhs y
unfolding bt_rotate_left store
rotate_left-item t root_slot x y v = ground arith
rotate_left-item t (lhs_of m) x y v = ground arith
rotate_left-item t (rhs_of m) x y v = ground arith

pub rotate_left-child :
    (t : BinaryTree) (bt : Slot) (x y : ℕ)
    → IsPivot (t.links.rhs) t bt x y
    → (bt_rotate_left t bt).links.lhs y ≡ x
unfolding bt_rotate_left store
rotate_left-child t root_slot x y v = ground arith
rotate_left-child t (lhs_of m) x y v = ground arith
rotate_left-child t (rhs_of m) x y v = ground arith

pub rotate_left-near :
    (t : BinaryTree) (bt : Slot) (x y : ℕ)
    → IsPivot (t.links.rhs) t bt x y
    → (n : ℕ) → n ≢ x
    → is_rhs bt n ≡ false
    → (bt_rotate_left t bt).links.rhs n ≡ t.links.rhs n
unfolding bt_rotate_left store
rotate_left-near t root_slot x y v n a b = ground arith
rotate_left-near t (lhs_of m) x y v n a b = ground arith
rotate_left-near t (rhs_of m) x y v n a b = ground arith

pub rotate_left-far :
    (t : BinaryTree) (bt : Slot) (x y : ℕ)
    → IsPivot (t.links.rhs) t bt x y
    → (n : ℕ) → n ≢ y
    → is_lhs bt n ≡ false
    → (bt_rotate_left t bt).links.lhs n ≡ t.links.lhs n
unfolding bt_rotate_left store
rotate_left-far t root_slot x y v n a b = ground arith
rotate_left-far t (lhs_of m) x y v n a b = ground arith
rotate_left-far t (rhs_of m) x y v n a b = ground arith

pub rotate_left-parent_inner :
    (t : BinaryTree) (bt : Slot) (x y : ℕ)
    → IsPivot (t.links.rhs) t bt x y
    → t.links.lhs y ≢ 0
    → (bt_rotate_left t bt).links.parent (t.links.lhs y) ≡ x
unfolding bt_rotate_left store
rotate_left-parent_inner t root_slot x y v a = ground arith
rotate_left-parent_inner t (lhs_of m) x y v a = ground arith
rotate_left-parent_inner t (rhs_of m) x y v a = ground arith

pub rotate_left-parent :
    (t : BinaryTree) (bt : Slot) (x y : ℕ)
    → IsPivot (t.links.rhs) t bt x y
    → (n : ℕ) → n ≢ x
    → n ≢ y
    → (t.links.lhs y ≢ 0 → n ≢ t.links.lhs y)
    → (bt_rotate_left t bt).links.parent n ≡ t.links.parent n
unfolding bt_rotate_left store
rotate_left-parent t root_slot x y v n a b c = ground arith
rotate_left-parent t (lhs_of m) x y v n a b c = ground arith
rotate_left-parent t (rhs_of m) x y v n a b c = ground arith

pub rotate_left-root :
    (t : BinaryTree) (bt : Slot) (x y : ℕ)
    → IsPivot (t.links.rhs) t bt x y
    → is_root bt ≡ false
    → (bt_rotate_left t bt).root ≡ t.root
unfolding bt_rotate_left store
rotate_left-root t root_slot x y v a = ground arith
rotate_left-root t (lhs_of m) x y v a = ground arith
rotate_left-root t (rhs_of m) x y v a = ground arith
