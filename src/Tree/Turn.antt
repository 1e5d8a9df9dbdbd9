-- ===== src/Tree/Turn.antt =====
-- `bt_rotate_right` on trees of items.
use smcp.Prelude.{ℕ, ◌≡◌, ◌≢◌, sym, subst, ◌∙◌, false}
use smcp.Tree.Change.{BinaryTree, Slot, read, bt_rotate_right}
use smcp.Tree.Shape.{
  Shape, node, IsTree, AllOf, AllOf-map, AllOf-zip, Fresh, AreDistinct, AreApart, AreApart-sym,
  AreApart-node, IsTree-Fresh, IsTree-parent, IsTree-frame, root_ne, Same,
}
use smcp.Tree.Slots.{is_lhs, is_rhs, IsOwned, Framed, owned-is_lhs, owned-is_rhs, owned_fresh}
use smcp.Tree.Rotate.{
  IsPivot, read-rotate_right, rotate_right-parent_child, rotate_right-parent_item,
  rotate_right-item, rotate_right-child, rotate_right-near, rotate_right-far,
  rotate_right-parent_inner, rotate_right-parent, rotate_right-root,
}

module _ (t : BinaryTree) (bt : Slot) (p x y : ℕ) (a b c : Shape)
    (tree : IsTree t.links (read t bt) p (node (node a y b) x c))
    (d : AreDistinct (node (node a y b) x c)) (o : IsOwned t bt p (node (node a y b) x c)) where
  abbrev k : BinaryTree
  k = bt_rotate_right t bt

  out : Fresh p (node (node a y b) x c)
  out =
      owned_fresh t bt p (node (node a y b) x c) o
        (IsTree-Fresh t.links (read t bt) p (node (node a y b) x c) tree)

  abbrev IsOff : ℕ → Type 0
  IsOff n = (is_lhs bt n ≡ false) × (is_rhs bt n ≡ false)

  off : (n : ℕ) → n ≢ p → IsOff n
  off n ne = (
    owned-is_lhs t bt p n (node (node a y b) x c) o ne,
    owned-is_rhs t bt p n (node (node a y b) x c) o ne,
  )

  pivot : IsPivot t.links.lhs t bt x y
  pivot = record {
    at = tree.0;
    child = tree.3.0;
    item_nonzero = tree.1;
    child_nonzero = tree.3.1;
    apart = λ e. d.0.0 (sym e);
    off_lhs = ((off x out.0).0, (off y out.1.0).0);
    off_rhs = ((off x out.0).1, (off y out.1.0).1);
  }

  inner_ne : (n : ℕ) → Fresh n b → t.links.rhs y ≢ 0 → n ≢ t.links.rhs y
  inner_ne n f ne = root_ne t.links (t.links.rhs y) y n b tree.3.4 f ne

  -- An item of which nothing changes.
  kept_at : (n : ℕ) → n ≢ p → n ≢ x → n ≢ y → Fresh n b → Same t.links k.links n
  kept_at n np nx ny f = (
    rotate_right-near t bt x y pivot n nx (off n np).0,
    rotate_right-far t bt x y pivot n ny (off n np).1,
    rotate_right-parent t bt x y pivot n nx ny (inner_ne n f),
  )

  kept :
      (u : Shape)
      → Fresh p u
      → Fresh x u
      → Fresh y u
      → AreApart u b
      → AllOf (Same t.links k.links) u
  kept u fp fx fy fb =
      AllOf-map (λ n (np, (nx, (ny, f))). kept_at n np nx ny f) u
        (AllOf-zip (λ n. n ≢ p) (λ n. (n ≢ x) × ((n ≢ y) × Fresh n b)) u fp
          (AllOf-zip (λ n. n ≢ x) (λ n. (n ≢ y) × Fresh n b) u fx
            (AllOf-zip (λ n. n ≢ y) (λ n. Fresh n b) u fy fb)))

  inner : IsTree k.links (t.links.rhs y) x b
  inner =
      IsTree-parent t.links k.links (t.links.rhs y) y x b
        (AllOf-map
          (λ n (np, (nx, ny)). (
            rotate_right-near t bt x y pivot n nx (off n np).0,
            rotate_right-far t bt x y pivot n ny (off n np).1,
          ))
          b others)
        (AllOf-map (λ n (np, (nx, ny)) ne. rotate_right-parent t bt x y pivot n nx ny (λ z. ne)) b
          others)
        (rotate_right-parent_inner t bt x y pivot) d.3.4 tree.3.4
    where
      others : AllOf (λ n. (n ≢ p) × ((n ≢ x) × (n ≢ y))) b
      others =
          AllOf-zip (λ n. n ≢ p) (λ n. (n ≢ x) × (n ≢ y)) b out.1.2
            (AllOf-zip (λ n. n ≢ x) (λ n. n ≢ y) b d.0.2 d.3.1)

  -- `bt_rotate_right` of a place.
  pub rotate_right-IsTree : IsTree k.links (read k bt) p (node a y (node b x c))
  rotate_right-IsTree = (
    read-rotate_right t bt x y pivot,
    tree.3.1,
    rotate_right-parent_child t bt x y pivot (λ e. rhs_off y d.3.1 tree.3.1 (sym e)) ∙ tree.2,
    subst (λ z. IsTree k.links z y a)
        (sym (rotate_right-near t bt x y pivot y d.0.0 (off y out.1.0).0))
        (IsTree-frame t.links k.links (t.links.lhs y) y a (kept a out.1.1 d.0.1 d.3.0 d.3.2)
          tree.3.3),
    (
      rotate_right-child t bt x y pivot,
      tree.1,
      rotate_right-parent_item t bt x y pivot (λ e. rhs_off x d.0.2 tree.1 (sym e)),
      subst (λ z. IsTree k.links z x b) (sym (rotate_right-item t bt x y pivot)) inner,
      subst (λ z. IsTree k.links z x c)
          (sym (rotate_right-far t bt x y pivot x (λ e. d.0.0 (sym e)) (off x out.0).1))
          (IsTree-frame t.links k.links (t.links.rhs x) x c
            (kept c out.2 d.1 d.2.0 (AreApart-sym b c d.2.2)) tree.4),
    ),
  )
    where
      rhs_off : (n : ℕ) → Fresh n b → n ≢ 0 → n ≢ t.links.rhs y
      rhs_off n f ne e = inner_ne n f (λ z. ne (e ∙ z)) e

  pub rotate_right-Framed : Framed bt 0 (node (node a y b) x c) t k
  rotate_right-Framed = record {
    parent = λ n ne f.
        rotate_right-parent t bt x y pivot n (λ e. f.0 (sym e)) (λ e. f.1.0 (sym e))
          (inner_ne n f.1.2);
    lhs = λ n ne f w. rotate_right-near t bt x y pivot n (λ e. f.0 (sym e)) w;
    rhs = λ n ne f w. rotate_right-far t bt x y pivot n (λ e. f.1.0 (sym e)) w;
    root = λ w. rotate_right-root t bt x y pivot w;
  }

  pub rotated-AreDistinct : AreDistinct (node a y (node b x c))
  rotated-AreDistinct = (
    d.3.0,
    ((λ e. d.0.0 (sym e)), d.3.1, d.2.0),
    AreApart-node a b c x d.0.1 d.3.2 d.2.1,
    d.3.3,
    (d.0.2, d.1, d.2.2, d.3.4, d.4),
  )
