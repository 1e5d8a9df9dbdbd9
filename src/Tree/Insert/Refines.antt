-- ===== src/Tree/Insert/Refines.antt =====
-- `bt_insert` refines the insertion into a tree of items.
use smcp.Prelude.{
  inl, inr, ℕ, zero, suc, ◌<◌, ◌≡◌, refl, sym, ap, subst, ◌∙◌, arith, if◌then◌else◌, ==_refl,
}
use smcp.Prelude.Bytes.{store}
use smcp.Tree.{BtCompareResult, below, same, above}
use smcp.Tree.Change.{BinaryTree, Slot, lhs_of, rhs_of, read, set_parent, replace}
use smcp.Tree.Shape.{
  Shape, leaf, node, size, IsTree, Fresh, AreDistinct, AreApart-sym, IsTree-apart, IsTree-Fresh,
}
use smcp.Tree.Slots.{IsOwned, Framed}
use smcp.Tree.Graft.{
  Framed-left, Framed-right, Framed-set_parent, IsTree-set_parent, graft_left, graft_right,
}
use smcp.Tree.Insert.{
  insert_below, insert_same, insert_above, insert_item, found_item, item_depth, IsNew, Outcome,
  run_below, run_above, run_same,
}
use smcp.Tree.Find.{compare-cases}
use smcp.Tree.Insert.Place.{insert_leaf, insert_same_tree, insert_same_frame}

-- The item is new in the subtrees too.
IsNew-below :
    (t : BinaryTree) (p item : ℕ) (l : Shape) (x : ℕ) (r u : Shape)
    → IsNew t p item (node l x r)
    → Fresh item u
    → IsNew (set_parent t item x) x item u
unfolding store
IsNew-below t p item l x r u new f = record {
  nonzero = new.nonzero;
  fresh = f;
  outside = new.fresh.0;
  lhs = new.lhs;
  rhs = new.rhs;
  parent = ap (λ c. if c then x else t.links.parent item) (==_refl item);
}

module _ (compare : ℕ → ℕ → BtCompareResult) (item : ℕ) (l : Shape) (x : ℕ) (r : Shape) where
  depth_below :
      compare x item ≡ below
      → item_depth compare item (node l x r) ≡ suc (item_depth compare item r)
  depth_below c = rw (item_depth, c) refl

  depth_same : compare x item ≡ same → item_depth compare item (node l x r) ≡ 0
  depth_same c = rw (item_depth, c) refl

  depth_above :
      compare x item ≡ above
      → item_depth compare item (node l x r) ≡ suc (item_depth compare item l)
  depth_above c = rw (item_depth, c) refl

module _ (compare : ℕ → ℕ → BtCompareResult) (fuel : ℕ) (t : BinaryTree) (bt : Slot)
    (p item depth : ℕ) (l : Shape) (x : ℕ) (r : Shape)
    (tree : IsTree t.links (read t bt) p (node l x r)) (d : AreDistinct (node l x r))
    (o : IsOwned t bt p (node l x r)) (new : IsNew t p item (node l x r)) where
  step_same : compare x item ≡ same → Outcome compare (suc fuel) t bt p item depth (node l x r)
  step_same c = record {
    out = record { tree = replace t bt x item; deleted = x; depth = depth };
    runs = run_same compare fuel t bt item depth x tree.0 tree.1 (λ e. new.fresh.0 (sym e)) c;
    tree =
        subst (λ u. IsTree (replace t bt x item).links (read (replace t bt x item) bt) p u)
          (insert_same compare item l x r c) (insert_same_tree t bt p item x l r tree d o new);
    frame = insert_same_frame t bt p item x l r tree d o new;
    deleted = rw (found_item, c) refl;
    depth_lem = omega (arith, depth_same compare item l x r c);
  }

  step_below :
      compare x item ≡ below
      → Outcome compare fuel (set_parent t item x) (rhs_of x) x item (suc depth) r
      → Outcome compare (suc fuel) t bt p item depth (node l x r)
  step_below c rest = record {
    out = rest.out;
    runs = run_below compare fuel t bt item depth x tree.0 tree.1 c ∙ rest.runs;
    tree =
        subst (λ u. IsTree rest.out.tree.links (read rest.out.tree bt) p u)
          (insert_below compare item l x r c)
          (graft_right t rest.out.tree bt p item x l r tree d o (λ z. new.outside) new.fresh.0
            (insert_item compare item r) new.fresh.1 frame rest.tree);
    frame = Framed-right bt item l x r t rest.out.tree frame;
    deleted = rest.deleted ∙ rw (found_item, c) refl;
    depth_lem = omega (arith, rest.depth_lem, depth_below compare item l x r c);
  }
    where
      frame : Framed (rhs_of x) item r t rest.out.tree
      frame = Framed-set_parent (rhs_of x) item x r t rest.out.tree rest.frame

  step_above :
      compare x item ≡ above
      → Outcome compare fuel (set_parent t item x) (lhs_of x) x item (suc depth) l
      → Outcome compare (suc fuel) t bt p item depth (node l x r)
  step_above c rest = record {
    out = rest.out;
    runs = run_above compare fuel t bt item depth x tree.0 tree.1 c ∙ rest.runs;
    tree =
        subst (λ u. IsTree rest.out.tree.links (read rest.out.tree bt) p u)
          (insert_above compare item l x r c)
          (graft_left t rest.out.tree bt p item x l r tree d o (λ z. new.outside) new.fresh.0
            (insert_item compare item l) new.fresh.2 frame rest.tree);
    frame = Framed-left bt item l x r t rest.out.tree frame;
    deleted = rest.deleted ∙ rw (found_item, c) refl;
    depth_lem = omega (arith, rest.depth_lem, depth_above compare item l x r c);
  }
    where
      frame : Framed (lhs_of x) item l t rest.out.tree
      frame = Framed-set_parent (lhs_of x) item x l t rest.out.tree rest.frame

pub bt_insert_outcome :
    (compare : ℕ → ℕ → BtCompareResult) (s : Shape) (fuel : ℕ) (t : BinaryTree) (bt : Slot)
    (p item depth : ℕ)
    → IsTree t.links (read t bt) p s
    → AreDistinct s
    → IsOwned t bt p s
    → IsNew t p item s
    → size s < fuel
    → Outcome compare fuel t bt p item depth s
unfolding store
bt_insert_outcome compare s zero t bt p item depth tree d o new enough = absurd (omega arith)
bt_insert_outcome compare leaf (suc fuel) t bt p item depth tree d o new enough =
    insert_leaf compare t bt p item depth fuel tree o new
bt_insert_outcome compare (node l x r) (suc fuel) t bt p item depth tree d o new enough =
    elim (compare-cases (compare x item)) [
      | inl c ↦ step_below compare fuel t bt p item depth l x r tree d o new c (
          bt_insert_outcome compare r fuel (set_parent t item x) (rhs_of x) x item (suc depth)
            (IsTree-set_parent t (t.links.rhs x) x item x r new.fresh.2 tree.4) d.4
            (refl, tree.1, d.1, left_out) (IsNew-below t p item l x r r new new.fresh.2)
            (omega arith))
      | inr (inl c) ↦ step_same compare fuel t bt p item depth l x r tree d o new c
      | inr (inr c) ↦ step_above compare fuel t bt p item depth l x r tree d o new c (
          bt_insert_outcome compare l fuel (set_parent t item x) (lhs_of x) x item (suc depth)
            (IsTree-set_parent t (t.links.lhs x) x item x l new.fresh.1 tree.3) d.3
            (refl, tree.1, d.0, right_out) (IsNew-below t p item l x r l new new.fresh.1)
            (omega arith))
    ]
  where
    all : Fresh 0 (node l x r)
    all = IsTree-Fresh t.links (read t bt) p (node l x r) tree

    left_out : Fresh (t.links.lhs x) r
    left_out = IsTree-apart t.links (t.links.lhs x) x l r tree.3 d.2 all.2

    right_out : Fresh (t.links.rhs x) l
    right_out = IsTree-apart t.links (t.links.rhs x) x r l tree.4 (AreApart-sym l r d.2) all.1
