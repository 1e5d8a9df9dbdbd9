-- ===== src/Tree/Unbalance.antt =====
-- `bt_unbalance` on trees of items.
use smcp.Prelude.{
  ℕ, zero, suc, ◌+◌, ◌-◌, ◌<◌, ◌≤◌, ◌≡◌, ◌≢◌, refl, sym, ap, subst, ◌∙◌, arith, false, some, ◌==◌,
  ==_ne, List, [], ◌∷◌, append_assoc,
}
use smcp.Tree.Change.{
  BinaryTree, Slot, root_slot, lhs_of, rhs_of, read, bt_rotate_right, bt_unbalance,
}
use smcp.Tree.Shape.{Shape, leaf, node, size, items, IsTree, Fresh, AreDistinct, IsTree-Fresh}
use smcp.Tree.Slots.{IsOwned, Framed, Framed-trans, Framed-refl}
use smcp.Tree.Graft.{Framed-right, graft_right}
use smcp.Tree.Turn.{rotate_right-IsTree, rotate_right-Framed, rotated-AreDistinct}

-- One branch to the right, with the items in order.
abbrev pub spine : List ℕ → Shape
spine [] = leaf
spine (x ∷ xs) = node leaf x (spine xs)

-- The number of the items that are not on the branch to the right.
abbrev pub off_spine : Shape → ℕ
off_spine leaf = 0
off_spine (node l x r) = size l + off_spine r

-- What a run of `bt_unbalance` leaves.
pub record Unbalanced (fuel : ℕ) (t : BinaryTree) (bt : Slot) (p ret : ℕ) (s : Shape) : Type 0 where
  pub out : BinaryTree
  pub runs : bt_unbalance fuel t bt ret ≡ some (out, ret + off_spine s)
  pub tree : IsTree out.links (read out bt) p (spine (items s))
  pub frame : Framed bt 0 s t out

module _ (fuel : ℕ) (t : BinaryTree) (bt : Slot) (ret : ℕ) where
  unbalance_none : read t bt ≡ 0 → bt_unbalance (suc fuel) t bt ret ≡ some (t, ret)
  unfolding bt_unbalance
  unbalance_none e = rw e refl

  unbalance_right :
      (x : ℕ)
      → read t bt ≡ x
      → x ≢ 0
      → t.links.lhs x ≡ 0
      → bt_unbalance (suc fuel) t bt ret ≡ bt_unbalance fuel t (rhs_of x) ret
  unfolding bt_unbalance
  unbalance_right x e ne l =
      run (==_ne (read t bt) 0 (λ z. ne (sym e ∙ z))) (ap t.links.lhs e ∙ l)
      ∙ ap (λ y. bt_unbalance fuel t (rhs_of y) ret) e
    where
      run :
          (read t bt == 0) ≡ false
          → t.links.lhs (read t bt) ≡ 0
          → bt_unbalance (suc fuel) t bt ret ≡ bt_unbalance fuel t (rhs_of (read t bt)) ret
      run a b = rw (a, b) refl

  unbalance_rotate :
      (x : ℕ)
      → read t bt ≡ x
      → x ≢ 0
      → t.links.lhs x ≢ 0
      → bt_unbalance (suc fuel) t bt ret ≡ bt_unbalance fuel (bt_rotate_right t bt) bt (suc ret)
  unfolding bt_unbalance
  unbalance_rotate x e ne l =
      run (==_ne (read t bt) 0 (λ z. ne (sym e ∙ z)))
        (==_ne (t.links.lhs (read t bt)) 0 (λ z. l (ap t.links.lhs (sym e) ∙ z)))
    where
      run :
          (read t bt == 0) ≡ false
          → (t.links.lhs (read t bt) == 0) ≡ false
          → bt_unbalance (suc fuel) t bt ret ≡ bt_unbalance fuel (bt_rotate_right t bt) bt (suc ret)
      run a b = rw (a, b) refl

IsOwned-rotated :
    (t k : BinaryTree) (bt : Slot) (p : ℕ) (s s' : Shape)
    → ((n : ℕ) → Fresh n s → Fresh n s')
    → Framed bt 0 s t k
    → IsOwned t bt p s
    → IsOwned k bt p s'
IsOwned-rotated t k root_slot p s s' sub f o = o
IsOwned-rotated t k (lhs_of m) p s s' sub f o = (
  o.0,
  o.1,
  sub p o.2,
  subst (λ z. Fresh z s') (sym (f.rhs p o.1 o.2 refl)) (sub (t.links.rhs p) o.3),
)
IsOwned-rotated t k (rhs_of m) p s s' sub f o = (
  o.0,
  o.1,
  sub p o.2,
  subst (λ z. Fresh z s') (sym (f.lhs p o.1 o.2 refl)) (sub (t.links.lhs p) o.3),
)

module _ (fuel : ℕ) (t : BinaryTree) (bt : Slot) (p ret x : ℕ) where
  step_right :
      (r : Shape)
      → IsTree t.links (read t bt) p (node leaf x r)
      → AreDistinct (node leaf x r)
      → IsOwned t bt p (node leaf x r)
      → Unbalanced fuel t (rhs_of x) x ret r
      → Unbalanced (suc fuel) t bt p ret (node leaf x r)
  step_right r tree d o rest = record {
    out = rest.out;
    runs =
        unbalance_right fuel t bt ret x tree.0 tree.1 tree.3
        ∙ rest.runs
        ∙ ap (λ n. some (rest.out, n)) (omega arith);
    tree =
        graft_right t rest.out bt p 0 x leaf r tree d o (λ ne e. ne refl) tree.1 (spine (items r))
          tt rest.frame rest.tree;
    frame = Framed-right bt 0 leaf x r t rest.out rest.frame;
  }

  turn :
      (y : ℕ) (a b c : Shape) (n : ℕ)
      → Fresh n (node (node a y b) x c)
      → Fresh n (node a y (node b x c))
  turn y a b c n f = (f.1.0, f.1.1, (f.0, f.1.2, f.2))

  step_rotate :
      (y : ℕ) (a b c : Shape)
      → IsTree t.links (read t bt) p (node (node a y b) x c)
      → Framed bt 0 (node (node a y b) x c) t (bt_rotate_right t bt)
      → Unbalanced fuel (bt_rotate_right t bt) bt p (suc ret) (node a y (node b x c))
      → Unbalanced (suc fuel) t bt p ret (node (node a y b) x c)
  step_rotate y a b c tree frame rest = record {
    out = rest.out;
    runs =
        unbalance_rotate fuel t bt ret x tree.0 tree.1 (λ e. tree.3.1 (sym tree.3.0 ∙ e))
        ∙ rest.runs
        ∙ ap (λ n. some (rest.out, n)) (omega arith);
    tree =
        subst (λ is. IsTree rest.out.links (read rest.out bt) p (spine is))
          (sym (append_assoc (items a) (y ∷ items b) (x ∷ items c))) rest.tree;
    frame =
        Framed-trans bt 0 (node (node a y b) x c) (node a y (node b x c)) t (bt_rotate_right t bt)
          rest.out (turn y a b c) frame rest.frame;
  }

  turned :
      (y : ℕ) (a b c : Shape)
      → IsOwned t bt p (node (node a y b) x c)
      → Framed bt 0 (node (node a y b) x c) t (bt_rotate_right t bt)
      → IsOwned (bt_rotate_right t bt) bt p (node a y (node b x c))
  turned y a b c o frame =
      IsOwned-rotated t (bt_rotate_right t bt) bt p (node (node a y b) x c) (node a y (node b x c))
        (turn y a b c) frame o

bt_unbalance_outcome :
    (fuel : ℕ) (s : Shape) (t : BinaryTree) (bt : Slot) (p ret : ℕ)
    → IsTree t.links (read t bt) p s
    → AreDistinct s
    → IsOwned t bt p s
    → size s + off_spine s < fuel
    → Unbalanced fuel t bt p ret s
bt_unbalance_outcome zero s t bt p ret tree d o enough = absurd (omega arith)
bt_unbalance_outcome (suc fuel) leaf t bt p ret tree d o enough = record {
  out = t;
  runs = unbalance_none fuel t bt ret tree ∙ ap (λ n. some (t, n)) (omega arith);
  tree = tree;
  frame = Framed-refl bt 0 leaf t;
}
bt_unbalance_outcome (suc fuel) (node leaf x r) t bt p ret tree d o enough =
    step_right fuel t bt p ret x r tree d o (
      bt_unbalance_outcome fuel r t (rhs_of x) x ret tree.4 d.4
        (
          refl,
          tree.1,
          d.1,
          subst (λ z. Fresh z r) (sym tree.3) (IsTree-Fresh t.links (t.links.rhs x) x r tree.4),
        )
        (omega arith))
bt_unbalance_outcome (suc fuel) (node (node a y b) x c) t bt p ret tree d o enough =
    let frame = rotate_right-Framed t bt p x y a b c tree d o in
    step_rotate fuel t bt p ret x y a b c tree frame (
      bt_unbalance_outcome fuel (node a y (node b x c)) (bt_rotate_right t bt) bt p (suc ret)
        (rotate_right-IsTree t bt p x y a b c tree d o)
        (rotated-AreDistinct t bt p x y a b c tree d o) (turned fuel t bt p ret x y a b c o frame)
        (omega arith))

-- `bt_unbalance` of a tree ends: it makes one branch to the right of the same items in the same
-- order, by one rotation for each item that was not on that branch, which are all but one at most.
pub bt_unbalance_refines :
    (t : BinaryTree) (s : Shape)
    → IsTree t.links t.root 0 s
    → AreDistinct s
    → (t' : BinaryTree) × (bt_unbalance (suc (size s + off_spine s)) t root_slot 0
        ≡ some (t', off_spine s))
      × IsTree t'.links t'.root 0 (spine (items s))
      × (off_spine s ≤ size s - 1)
bt_unbalance_refines t s tree d =
    let end =
      bt_unbalance_outcome (suc (size s + off_spine s)) s t root_slot 0 0 tree d refl
        (omega arith) in
    (end.out, end.runs ∙ ap (λ n. some (end.out, n)) (omega arith), end.tree, fewer s)
  where
    most : (s : Shape) → off_spine s ≤ size s
    most leaf = omega arith
    most (node l x r) = omega (arith, most r)

    fewer : (s : Shape) → off_spine s ≤ size s - 1
    fewer leaf = omega arith
    fewer (node l x r) = omega (arith, most r)
