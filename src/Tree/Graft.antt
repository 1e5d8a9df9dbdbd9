-- ===== src/Tree/Graft.antt =====
-- An operation on one subtree of an item keeps the item and its other subtree.
use smcp.Prelude.{ℕ, ◌≡◌, ◌≢◌, refl, sym, ◌∙◌, subst, ==_ne}
use smcp.Prelude.Bytes.{store}
use smcp.Tree.Change.{BinaryTree, Slot, root_slot, lhs_of, rhs_of, read, set_parent}
use smcp.Tree.Shape.{
  Shape, node, IsTree, AllOf, AllOf-map, AllOf-zip, Fresh, AreDistinct, AreApart-sym, Same,
  IsTree-frame, IsTree-Fresh,
}
use smcp.Tree.Slots.{IsOwned, Framed}

pub store_ne : (m : ℕ → ℕ) (a v b : ℕ) → b ≢ a → store m a v b ≡ m b
unfolding store
store_ne m a v b ne = rw (==_ne b a ne) refl

-- The frame of a subtree is one of the tree.
module _ (bt : Slot) (item : ℕ) (l : Shape) (x : ℕ) (r : Shape) (t t' : BinaryTree) where
  pub Framed-left : Framed (lhs_of x) item l t t' → Framed bt item (node l x r) t t'
  Framed-left f = record {
    parent = λ n ne fresh. f.parent n ne fresh.1;
    lhs = λ n ne fresh out. f.lhs n ne fresh.1 (==_ne x n fresh.0);
    rhs = λ n ne fresh out. f.rhs n ne fresh.1 refl;
    root = λ out. f.root refl;
  }

  pub Framed-right : Framed (rhs_of x) item r t t' → Framed bt item (node l x r) t t'
  Framed-right f = record {
    parent = λ n ne fresh. f.parent n ne fresh.2;
    lhs = λ n ne fresh out. f.lhs n ne fresh.2 refl;
    rhs = λ n ne fresh out. f.rhs n ne fresh.2 (==_ne x n fresh.0);
    root = λ out. f.root refl;
  }

-- The parent of the item itself may be set before.
pub Framed-set_parent :
    (bt : Slot) (item v : ℕ) (s : Shape) (t t' : BinaryTree)
    → Framed bt item s (set_parent t item v) t'
    → Framed bt item s t t'
unfolding store
Framed-set_parent bt item v s t t' f = record {
  parent = λ n ne fresh. f.parent n ne fresh ∙ store_ne t.links.parent item v n ne;
  lhs = f.lhs;
  rhs = f.rhs;
  root = f.root;
}

pub IsTree-set_parent :
    (t : BinaryTree) (at p item v : ℕ) (s : Shape)
    → Fresh item s
    → IsTree t.links at p s
    → IsTree (set_parent t item v).links at p s
unfolding store
IsTree-set_parent t at p item v s fresh tree =
    IsTree-frame t.links (set_parent t item v).links at p s
      (AllOf-map (λ n ne. (refl, refl, store_ne t.links.parent item v n ne)) s fresh) tree

-- The place of a tree is kept by what happens below its root.
pub read-left :
    (t t' : BinaryTree) (bt : Slot) (p item x : ℕ) (l r : Shape)
    → IsOwned t bt p (node l x r)
    → Fresh 0 (node l x r)
    → (item ≢ 0 → p ≢ item)
    → Framed (lhs_of x) item l t t'
    → read t' bt ≡ read t bt
read-left t t' root_slot p item x l r o z ne f = f.root refl
read-left t t' (lhs_of m) p item x l r o z ne f =
    f.lhs m (λ e. ne (λ z. o.1 (sym o.0 ∙ e ∙ z)) (sym o.0 ∙ e))
      (subst (λ y. Fresh y l) (sym o.0) o.2.1) (==_ne x m (λ e. o.2.0 (e ∙ o.0)))
read-left t t' (rhs_of m) p item x l r o z ne f =
    f.rhs m (λ e. ne (λ z. o.1 (sym o.0 ∙ e ∙ z)) (sym o.0 ∙ e))
      (subst (λ y. Fresh y l) (sym o.0) o.2.1) refl

pub read-right :
    (t t' : BinaryTree) (bt : Slot) (p item x : ℕ) (l r : Shape)
    → IsOwned t bt p (node l x r)
    → Fresh 0 (node l x r)
    → (item ≢ 0 → p ≢ item)
    → Framed (rhs_of x) item r t t'
    → read t' bt ≡ read t bt
read-right t t' root_slot p item x l r o z ne f = f.root refl
read-right t t' (lhs_of m) p item x l r o z ne f =
    f.lhs m (λ e. ne (λ z. o.1 (sym o.0 ∙ e ∙ z)) (sym o.0 ∙ e))
      (subst (λ y. Fresh y r) (sym o.0) o.2.2) refl
read-right t t' (rhs_of m) p item x l r o z ne f =
    f.rhs m (λ e. ne (λ z. o.1 (sym o.0 ∙ e ∙ z)) (sym o.0 ∙ e))
      (subst (λ y. Fresh y r) (sym o.0) o.2.2) (==_ne x m (λ e. o.2.0 (e ∙ o.0)))

module _ (t t' : BinaryTree) (bt : Slot) (p item x : ℕ) (l r : Shape)
    (tree : IsTree t.links (read t bt) p (node l x r)) (d : AreDistinct (node l x r))
    (o : IsOwned t bt p (node l x r)) (outside : item ≢ 0 → p ≢ item) (other : x ≢ item) where
  pub graft_left :
      (l' : Shape)
      → Fresh item r
      → Framed (lhs_of x) item l t t'
      → IsTree t'.links (t'.links.lhs x) x l'
      → IsTree t'.links (read t' bt) p (node l' x r)
  graft_left l' fresh f new = (
    read-left t t' bt p item x l r o (IsTree-Fresh t.links (read t bt) p (node l x r) tree) outside
          f
        ∙ tree.0,
    tree.1,
    f.parent x other d.0 ∙ tree.2,
    new,
    subst (λ a. IsTree t'.links a x r) (sym (f.rhs x other d.0 refl))
        (IsTree-frame t.links t'.links (t.links.rhs x) x r kept tree.4),
  )
    where
      kept : AllOf (Same t.links t'.links) r
      kept =
          AllOf-map
            (λ n (a, (b, c)).
              (f.lhs n a b (==_ne x n (λ e. c (sym e))), f.rhs n a b refl, f.parent n a b))
            r
            (AllOf-zip (λ n. n ≢ item) (λ n. Fresh n l × (n ≢ x)) r fresh
              (AllOf-zip (λ n. Fresh n l) (λ n. n ≢ x) r (AreApart-sym l r d.2) d.1))

  pub graft_right :
      (r' : Shape)
      → Fresh item l
      → Framed (rhs_of x) item r t t'
      → IsTree t'.links (t'.links.rhs x) x r'
      → IsTree t'.links (read t' bt) p (node l x r')
  graft_right r' fresh f new = (
    read-right t t' bt p item x l r o (IsTree-Fresh t.links (read t bt) p (node l x r) tree) outside
          f
        ∙ tree.0,
    tree.1,
    f.parent x other d.1 ∙ tree.2,
    subst (λ a. IsTree t'.links a x l) (sym (f.lhs x other d.1 refl))
        (IsTree-frame t.links t'.links (t.links.lhs x) x l kept tree.3),
    new,
  )
    where
      kept : AllOf (Same t.links t'.links) l
      kept =
          AllOf-map
            (λ n (a, (b, c)).
              (f.lhs n a b refl, f.rhs n a b (==_ne x n (λ e. c (sym e))), f.parent n a b))
            l
            (AllOf-zip (λ n. n ≢ item) (λ n. Fresh n r × (n ≢ x)) l fresh
              (AllOf-zip (λ n. Fresh n r) (λ n. n ≢ x) l d.2 d.0))
