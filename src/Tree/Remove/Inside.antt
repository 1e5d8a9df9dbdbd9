-- ===== src/Tree/Remove/Inside.antt =====
-- An item anywhere in a tree is taken out by `bt_remove`.
use smcp.Prelude.{
  ℕ, ◌<◌, ◌≡◌, ◌≢◌, refl, sym, ap, subst, ◌∙◌, arith, ◌==◌, if◌then◌else◌, ==_ne, ==_iff, inl, inr,
}
use smcp.Tree.{TreeHeap}
use smcp.Tree.Change.{BinaryTree, Slot, root_slot, lhs_of, rhs_of, read, slot_of, clear_links}
use smcp.Tree.Shape.{
  Shape, leaf, node, size, IsTree, Fresh, AreDistinct, AreApart-sym, IsTree-apart, IsTree-Fresh,
}
use smcp.Tree.Slots.{IsOwned}
use smcp.Tree.Graft.{Framed-left, Framed-right, graft_left, graft_right}
use smcp.Tree.Remove.{Has, without, without_fresh}
use smcp.Tree.Keys.{AllOf-Has}
use smcp.Tree.Remove.Here.{Removed, removed_here}

-- Below an item, each item has a parent.
parent_nonzero :
    (h : TreeHeap) (at p item : ℕ) (s : Shape)
    → IsTree h at p s
    → p ≢ 0
    → Has item s
    → h.parent item ≢ 0
parent_nonzero h at p item leaf t ne has = absurd (has refl)
parent_nonzero h at p item (node l x r) t ne (inl e) = λ z. ne (sym t.2 ∙ ap h.parent (sym e) ∙ z)
parent_nonzero h at p item (node l x r) t ne (inr (inl k)) =
    parent_nonzero h (h.lhs x) x item l t.3 t.1 k
parent_nonzero h at p item (node l x r) t ne (inr (inr k)) =
    parent_nonzero h (h.rhs x) x item r t.4 t.1 k

slot_of_parent :
    (t : BinaryTree) (bt bt' : Slot) (item : ℕ)
    → t.links.parent item ≢ 0
    → slot_of t bt item ≡ slot_of t bt' item
slot_of_parent t bt bt' item ne = rw (==_ne (t.links.parent item) 0 ne) refl

slot_of_root :
    (t : BinaryTree) (bt : Slot) (p x : ℕ) (l r : Shape)
    → IsTree t.links (read t bt) p (node l x r)
    → IsOwned t bt p (node l x r)
    → slot_of t bt x ≡ bt
slot_of_root t root_slot p x l r tree o = rw (tree.2 ∙ o) refl
slot_of_root t (lhs_of m) p x l r tree o =
    chosen (t.links.parent x) (tree.2 ∙ sym o.0) (λ e. o.1 (sym o.0 ∙ e)) tree.0
  where
    chosen :
        (q : ℕ)
        → q ≡ m
        → m ≢ 0
        → t.links.lhs m ≡ x
        → (if q == 0 then lhs_of m else if t.links.lhs q == x then lhs_of q else rhs_of q)
          ≡ lhs_of m
    chosen q e ne c = rw (e, ==_ne m 0 ne, (==_iff (t.links.lhs m) x).1 c) refl
slot_of_root t (rhs_of m) p x l r tree o =
    chosen (t.links.parent x) (tree.2 ∙ sym o.0) (λ e. o.1 (sym o.0 ∙ e))
      (λ e. o.3.0 (sym e ∙ ap t.links.lhs o.0))
  where
    chosen :
        (q : ℕ)
        → q ≡ m
        → m ≢ 0
        → t.links.lhs m ≢ x
        → (if q == 0 then rhs_of m else if t.links.lhs q == x then lhs_of q else rhs_of q)
          ≡ rhs_of m
    chosen q e ne c = rw (e, ==_ne m 0 ne, ==_ne (t.links.lhs m) x c) refl

module _ (t : BinaryTree) (bt : Slot) (p fuel item : ℕ) (l : Shape) (x : ℕ) (r : Shape)
    (tree : IsTree t.links (read t bt) p (node l x r)) (d : AreDistinct (node l x r))
    (o : IsOwned t bt p (node l x r)) where
  removed_left :
      (slot : Slot)
      → Has item l
      → Removed t (lhs_of x) x fuel item l slot
      → Removed t bt p fuel item (node l x r) slot
  removed_left slot has rest = record {
    out = rest.out;
    runs = rest.runs;
    tree =
        subst
          (λ u. IsTree (clear_links rest.out item).links (read (clear_links rest.out item) bt) p u)
          (sym opened)
          (graft_left t (clear_links rest.out item) bt p 0 x l r tree d o (λ ne e. ne refl) tree.1
            (without item l) all.2 rest.frame rest.tree);
    frame = Framed-left bt 0 l x r t (clear_links rest.out item) rest.frame;
  }
    where
      all : Fresh 0 (node l x r)
      all = IsTree-Fresh t.links (read t bt) p (node l x r) tree

      other : x ≢ item
      other e = AllOf-Has (λ z. z ≢ x) item l has d.0 (sym e)

      opened : without item (node l x r) ≡ node (without item l) x r
      opened =
          rw (without, ==_ne x item other)
            (ap (node (without item l) x)
              (without_fresh item r (AllOf-Has (λ z. Fresh z r) item l has d.2)))

  removed_right :
      (slot : Slot)
      → Has item r
      → Removed t (rhs_of x) x fuel item r slot
      → Removed t bt p fuel item (node l x r) slot
  removed_right slot has rest = record {
    out = rest.out;
    runs = rest.runs;
    tree =
        subst
          (λ u. IsTree (clear_links rest.out item).links (read (clear_links rest.out item) bt) p u)
          (sym opened)
          (graft_right t (clear_links rest.out item) bt p 0 x l r tree d o (λ ne e. ne refl) tree.1
            (without item r) all.1 rest.frame rest.tree);
    frame = Framed-right bt 0 l x r t (clear_links rest.out item) rest.frame;
  }
    where
      all : Fresh 0 (node l x r)
      all = IsTree-Fresh t.links (read t bt) p (node l x r) tree

      other : x ≢ item
      other e = AllOf-Has (λ z. z ≢ x) item r has d.1 (sym e)

      opened : without item (node l x r) ≡ node l x (without item r)
      opened =
          rw (without, ==_ne x item other)
            (ap (λ u. node u x (without item r))
              (without_fresh item l (AllOf-Has (λ z. Fresh z l) item r has (AreApart-sym l r d.2))))

pub removed :
    (s : Shape) (t : BinaryTree) (bt : Slot) (p fuel item : ℕ)
    → IsTree t.links (read t bt) p s
    → AreDistinct s
    → IsOwned t bt p s
    → size s < fuel
    → Has item s
    → Removed t bt p fuel item s (slot_of t bt item)
removed leaf t bt p fuel item tree d o enough has = absurd (has refl)
removed (node l x r) t bt p fuel item tree d o enough (inl e) =
    subst (λ z. Removed t bt p fuel z (node l x r) (slot_of t bt z)) (sym e)
      (subst (Removed t bt p fuel x (node l x r)) (sym (slot_of_root t bt p x l r tree o))
        (removed_here t bt p fuel x l r tree d o enough))
removed (node l x r) t bt p fuel item tree d o enough (inr (inl has)) =
    subst (Removed t bt p fuel item (node l x r))
      (slot_of_parent t (lhs_of x) bt item
        (parent_nonzero t.links (t.links.lhs x) x item l tree.3 tree.1 has))
      (removed_left t bt p fuel item l x r tree d o (slot_of t (lhs_of x) item) has (
        removed l t (lhs_of x) x fuel item tree.3 d.3
          (
            refl,
            tree.1,
            d.0,
            IsTree-apart t.links (t.links.rhs x) x r l tree.4 (AreApart-sym l r d.2)
                (IsTree-Fresh t.links (t.links.lhs x) x l tree.3),
          )
          (omega arith) has))
removed (node l x r) t bt p fuel item tree d o enough (inr (inr has)) =
    subst (Removed t bt p fuel item (node l x r))
      (slot_of_parent t (rhs_of x) bt item
        (parent_nonzero t.links (t.links.rhs x) x item r tree.4 tree.1 has))
      (removed_right t bt p fuel item l x r tree d o (slot_of t (rhs_of x) item) has (
        removed r t (rhs_of x) x fuel item tree.4 d.4
          (
            refl,
            tree.1,
            d.1,
            IsTree-apart t.links (t.links.lhs x) x l r tree.3 d.2
                (IsTree-Fresh t.links (t.links.rhs x) x r tree.4),
          )
          (omega arith) has))
