-- ===== src/Tests/Trees.antt =====
-- A tree of five items, for the theorems on trees.
use smcp.Prelude.{ℕ, suc, ◌+◌, ◌-◌, ◌⊎◌, ◌*◌, ◌≡◌, ◌≤◌, refl, arith, some, ◌==◌, if◌then◌else◌}
use smcp.Tree.{TreeHeap, bt_first, bt_find}
use smcp.Tree.Change.{BinaryTree, root_slot, Inserted, bt_insert, bt_remove, bt_count, bt_unbalance}
use smcp.Tree.Shape.{Shape, leaf, node, size, items, IsTree, AreDistinct}
use smcp.Tree.Ordered.{by_key, by_number, put_ordered}
use smcp.Tree.Walk.{first, Follows}
use smcp.Tree.Count.{bt_next-Follows, bt_count-size}
use smcp.Tree.Insert.{IsNew}
use smcp.Tree.Insert.Lookup.{IsSearchTree, bt_insert_refines, bt_insert-bt_find}
use smcp.Tree.Unbalance.{spine, off_spine, bt_unbalance_refines}
use smcp.Tree.Remove.Refines.{IsRemoved, bt_remove_refines}

-- The third item's key is that of the seventh, which is not in the tree yet.
abbrev key : ℕ → ℕ
key n = if n == 7 then 30 else n * 10

abbrev links : TreeHeap
links = record {
  lhs = λ n. if n == 4 then 2 else if n == 2 then 1 else 0;
  rhs = λ n. if n == 4 then 5 else if n == 2 then 3 else 0;
  parent = λ n.
      if n == 2 then 4 else if n == 5 then 4 else if n == 1 then 2 else if n == 3 then 2 else 0;
}

abbrev tree : BinaryTree
tree = record { root = 4; links = links }

abbrev shape : Shape
shape = node (node (node leaf 1 leaf) 2 (node leaf 3 leaf)) 4 (node leaf 5 leaf)

shape-IsTree : IsTree links 4 0 shape
shape-IsTree = (
  refl,
  omega arith,
  refl,
  (
    refl,
    omega arith,
    refl,
    (refl, omega arith, refl, refl, refl),
    (refl, omega arith, refl, refl, refl),
  ),
  (refl, omega arith, refl, refl, refl),
)

shape-AreDistinct : AreDistinct shape
shape-AreDistinct = (
  (omega arith, (omega arith, tt, tt), (omega arith, tt, tt)),
  (omega arith, tt, tt),
  ((omega arith, tt, tt), ((omega arith, tt, tt), tt, tt), ((omega arith, tt, tt), tt, tt)),
  (
    (omega arith, tt, tt),
    (omega arith, tt, tt),
    ((omega arith, tt, tt), tt, tt),
    (tt, tt, tt, tt, tt),
    (tt, tt, tt, tt, tt),
  ),
  (tt, tt, tt, tt, tt),
)

tree-IsSearchTree : IsSearchTree key tree shape
tree-IsSearchTree = record {
  tree = shape-IsTree;
  distinct = shape-AreDistinct;
  ordered = (
    (omega arith, (omega arith, tt, tt), (omega arith, tt, tt)),
    (omega arith, tt, tt),
    ((omega arith, tt, tt), (omega arith, tt, tt), (tt, tt, tt, tt), (tt, tt, tt, tt)),
    (tt, tt, tt, tt),
  );
}

seven-IsNew : IsNew tree 0 7 shape
seven-IsNew = record {
  nonzero = omega arith;
  fresh = (
    omega arith,
    (omega arith, (omega arith, tt, tt), (omega arith, tt, tt)),
    (omega arith, tt, tt),
  );
  outside = omega arith;
  lhs = refl;
  rhs = refl;
  parent = refl;
}

bt_insert_refines_example :
    (out : Inserted) × (bt_insert (by_key key) 6 tree root_slot 7 0 ≡ some out)
    × (out.depth ≤ 5)
    × (s' : Shape) × IsSearchTree key out.tree s'
    × (items s' ≡ put_ordered key 7 (items shape))
bt_insert_refines_example =
    bt_insert_refines key tree shape 7 6 tree-IsSearchTree seven-IsNew (omega arith)

bt_insert-bt_find_example :
    (out : Inserted) × (bt_insert (by_key key) 6 tree root_slot 7 0 ≡ some out)
    × ((k : ℕ)
        → bt_find out.tree.links (λ n. by_number (key n) k) 7 out.tree.root
          ≡ (if k == key 7 then some 7 else bt_find links (λ n. by_number (key n) k) 6 4))
    × (bt_find links (λ n. by_number (key n) (key 7)) 6 4 ≡ some out.deleted)
bt_insert-bt_find_example =
    bt_insert-bt_find key tree shape 7 6 tree-IsSearchTree seven-IsNew (omega arith)

bt_remove_refines_example :
    (item : ℕ) × (bt_find links (λ n. by_number (key n) 40) 6 4 ≡ some item)
    × (((item ≡ 0) × (bt_remove tree 6 root_slot (λ n. by_number (key n) 40) ≡ some (tree, 0)))
        ⊎ IsRemoved key tree 6 (λ n. by_number (key n) 40) shape item)
bt_remove_refines_example =
    bt_remove_refines key tree shape (λ n. by_number (key n) 40) 6 tree-IsSearchTree (omega arith)

bt_next-Follows_example :
    (bt_first links 6 4 ≡ some (first 0 (items shape))) × Follows links 6 (items shape) 0
bt_next-Follows_example =
    bt_next-Follows links 4 shape 6 shape-IsTree shape-AreDistinct (omega arith)

bt_count-size_example : bt_count links 6 4 ≡ some 5
bt_count-size_example = bt_count-size links 4 shape 6 shape-IsTree shape-AreDistinct (omega arith)

bt_unbalance_refines_example :
    (t' : BinaryTree) × (bt_unbalance (suc (size shape + off_spine shape)) tree root_slot 0
      ≡ some (t', off_spine shape))
    × IsTree t'.links t'.root 0 (spine (items shape))
    × (off_spine shape ≤ size shape - 1)
bt_unbalance_refines_example = bt_unbalance_refines tree shape shape-IsTree shape-AreDistinct
