-- ===== src/Tree/Insert/Place.antt =====
-- Where `bt_insert` ends: at an empty place, or at an item that compares equal.
use smcp.Prelude.{ℕ, suc, ◌≡◌, ◌≢◌, refl, sym, ap, subst, ◌∙◌, arith}
use smcp.Tree.{BtCompareResult}
use smcp.Tree.Change.{BinaryTree, Slot, root_slot, lhs_of, rhs_of, read, write, replace}
use smcp.Tree.Shape.{
  Shape, leaf, node, IsTree, AllOf, AllOf-map, AllOf-zip, Fresh, AreDistinct, AreApart-sym,
  IsTree-Fresh, IsTree-parent, root_ne,
}
use smcp.Tree.Slots.{
  IsOwned, Framed, read-write, write-parent, write-lhs, write-rhs, write-root, owned-is_lhs,
  owned-is_rhs, owned_fresh,
}
use smcp.Tree.Replace.{
  IsPlace, read-replace, replace-lhs_self, replace-rhs_self, replace-parent_self, replace-lhs,
  replace-rhs, replace-root, replace-parent, replace-parent_left, replace-parent_right,
}
use smcp.Tree.Insert.{IsNew, Outcome, run_leaf}

-- The empty place.
pub insert_leaf :
    (compare : ℕ → ℕ → BtCompareResult) (t : BinaryTree) (bt : Slot) (p item depth fuel : ℕ)
    → read t bt ≡ 0
    → IsOwned t bt p leaf
    → IsNew t p item leaf
    → Outcome compare (suc fuel) t bt p item depth leaf
insert_leaf compare t bt p item depth fuel e o new = record {
  out = record { tree = write t bt item; deleted = 0; depth = depth };
  runs = run_leaf compare fuel t bt item depth e;
  tree = (
    read-write t bt item,
    new.nonzero,
    write-parent t bt item item ∙ new.parent,
    write-lhs t bt item item (owned-is_lhs t bt p item leaf o away) ∙ new.lhs,
    write-rhs t bt item item (owned-is_rhs t bt p item leaf o away) ∙ new.rhs,
  );
  frame = record {
    parent = λ n ne fresh. write-parent t bt item n;
    lhs = λ n ne fresh out. write-lhs t bt item n out;
    rhs = λ n ne fresh out. write-rhs t bt item n out;
    root = λ out. write-root t bt item out;
  };
  deleted = refl;
  depth_lem = omega arith;
}
  where
    away : item ≢ p
    away e = new.outside (sym e)

IsPlace-owned :
    (t : BinaryTree) (bt : Slot) (p item x : ℕ) (l r : Shape)
    → IsTree t.links (read t bt) p (node l x r)
    → IsOwned t bt p (node l x r)
    → p ≢ item
    → IsPlace t bt x item
IsPlace-owned t root_slot p item x l r tree o ne = tree.2 ∙ o
IsPlace-owned t (lhs_of m) p item x l r tree o ne = (
  tree.2 ∙ sym o.0,
  (λ e. o.1 (sym o.0 ∙ e)),
  (λ e. o.2.0 (sym e ∙ o.0)),
  (λ e. ne (sym o.0 ∙ e)),
  (λ e. o.3.0 (sym e ∙ ap t.links.rhs o.0)),
)
IsPlace-owned t (rhs_of m) p item x l r tree o ne = (
  tree.2 ∙ sym o.0,
  (λ e. o.1 (sym o.0 ∙ e)),
  (λ e. o.2.0 (sym e ∙ o.0)),
  (λ e. ne (sym o.0 ∙ e)),
  tree.0,
)

-- The place of an item that compares equal.
module _ (t : BinaryTree) (bt : Slot) (p item x : ℕ) (l r : Shape)
    (tree : IsTree t.links (read t bt) p (node l x r)) (d : AreDistinct (node l x r))
    (o : IsOwned t bt p (node l x r)) (new : IsNew t p item (node l x r)) where
  abbrev pub replaced : BinaryTree
  replaced = replace t bt x item

  place : IsPlace t bt x item
  place = IsPlace-owned t bt p item x l r tree o new.outside

  other : item ≢ x
  other e = new.fresh.0 (sym e)

  apart_lhs : (n : ℕ) → Fresh n l → t.links.lhs x ≢ 0 → n ≢ t.links.lhs x
  apart_lhs n f ne = root_ne t.links (t.links.lhs x) x n l tree.3 f ne

  apart_rhs : (n : ℕ) → Fresh n r → t.links.rhs x ≢ 0 → n ≢ t.links.rhs x
  apart_rhs n f ne = root_ne t.links (t.links.rhs x) x n r tree.4 f ne

  -- A subtree moves below the item.
  moved :
      (at : ℕ) (u : Shape)
      → IsTree t.links at x u
      → AreDistinct u
      → Fresh item u
      → Fresh p u
      → AllOf
          (λ n.
            n ≢ at
            → (t.links.lhs x ≢ 0 → n ≢ t.links.lhs x) × (t.links.rhs x ≢ 0 → n ≢ t.links.rhs x))
          u
      → (at ≢ 0 → replaced.links.parent at ≡ item)
      → IsTree replaced.links at item u
  moved at u sub distinct fresh out ends up =
      IsTree-parent t.links replaced.links at x item u
        (AllOf-map
          (λ n (a, b). (
            replace-lhs t bt x item place other n a (owned-is_lhs t bt p n (node l x r) o b),
            replace-rhs t bt x item place other n a (owned-is_rhs t bt p n (node l x r) o b),
          ))
          u (AllOf-zip (λ n. n ≢ item) (λ n. n ≢ p) u fresh out))
        (AllOf-map
          (λ n (a, b) ne. let (c, c') = b ne in replace-parent t bt x item place other n a c c') u
          (AllOf-zip (λ n. n ≢ item)
            (λ n.
              n ≢ at
              → (t.links.lhs x ≢ 0 → n ≢ t.links.lhs x) × (t.links.rhs x ≢ 0 → n ≢ t.links.rhs x))
            u fresh ends))
        up distinct sub

  pub insert_same_tree : IsTree replaced.links (read replaced bt) p (node l item r)
  insert_same_tree = (
    read-replace t bt x item place other,
    new.nonzero,
    replace-parent_self t bt x item place other
          (λ e. apart_lhs item new.fresh.1 (λ z. new.nonzero (sym e ∙ z)) (sym e))
          (λ e. apart_rhs item new.fresh.2 (λ z. new.nonzero (sym e ∙ z)) (sym e))
        ∙ tree.2,
    subst (λ a. IsTree replaced.links a item l) (sym (replace-lhs_self t bt x item place other))
        (moved (t.links.lhs x) l tree.3 d.3 new.fresh.1 out.1
          (AllOf-map (λ n f ne. ((λ z. ne), apart_rhs n f)) l d.2)
          (replace-parent_left t bt x item place other)),
    subst (λ a. IsTree replaced.links a item r) (sym (replace-rhs_self t bt x item place other))
        (moved (t.links.rhs x) r tree.4 d.4 new.fresh.2 out.2
          (AllOf-map (λ n f ne. (apart_lhs n f, (λ z. ne))) r (AreApart-sym l r d.2))
          (replace-parent_right t bt x item place other)),
  )
    where
      out : Fresh p (node l x r)
      out = owned_fresh t bt p (node l x r) o (IsTree-Fresh t.links (read t bt) p (node l x r) tree)

  pub insert_same_frame : Framed bt item (node l x r) t replaced
  insert_same_frame = record {
    parent = λ n ne fresh.
        replace-parent t bt x item place other n ne (apart_lhs n fresh.1) (apart_rhs n fresh.2);
    lhs = λ n ne fresh out. replace-lhs t bt x item place other n ne out;
    rhs = λ n ne fresh out. replace-rhs t bt x item place other n ne out;
    root = λ out. replace-root t bt x item place other out;
  }
