-- ===== src/Tree/Remove/Here.antt =====
-- The item at the root of a tree is taken out by `bt_remove`.
use smcp.Prelude.{ℕ, ◌<◌, ◌≡◌, ◌≢◌, refl, sym, ap, subst, ◌∙◌, arith, ==_ne, ==_refl, some}
use smcp.Prelude.Bytes.{store}
use smcp.Tree.{bt_last}
use smcp.Tree.Change.{BinaryTree, Slot, read, write, lift_child, hang, clear_links, unlink_at}
use smcp.Tree.Shape.{Shape, leaf, node, size, IsTree, Fresh, AreDistinct, IsTree-Fresh, root_ne}
use smcp.Tree.Slots.{
  IsOwned, Framed, read-write, write-parent, write-lhs, write-rhs, write-root, owned_fresh,
}
use smcp.Tree.Walk.{bt_last-items}
use smcp.Tree.Remove.{append_right, append_right-AreDistinct, AllOf-append_right}
use smcp.Tree.Remove.Hang.{IsHung, last_item, last-items, AllOf-last_item, hang-IsHung, hung-IsTree}
use smcp.Tree.Slots.{Framed-trans}
use smcp.Tree.Remove.{without}
use smcp.Tree.Remove.Place.{owned-IsOff, lift-IsTree, lift-Framed, clear-IsTree, clear-Framed}

-- What a run leaves, where `slot` is the place of the item.
pub record Removed (t : BinaryTree) (bt : Slot) (p fuel item : ℕ) (s : Shape) (slot : Slot)
    : Type 0 where
  pub out : BinaryTree
  pub runs : unlink_at t fuel slot item ≡ some out
  pub tree : IsTree (clear_links out item).links (read (clear_links out item) bt) p (without item s)
  pub frame : Framed bt 0 s t (clear_links out item)

module _ (t : BinaryTree) (fuel : ℕ) (bt : Slot) (x : ℕ) where
  run_none : t.links.lhs x ≡ 0 → t.links.rhs x ≡ 0 → unlink_at t fuel bt x ≡ some (write t bt 0)
  unfolding unlink_at
  run_none a b = rw (a, b) refl

  run_rhs :
      t.links.lhs x ≡ 0
      → t.links.rhs x ≢ 0
      → unlink_at t fuel bt x ≡ some (lift_child t bt x (t.links.rhs x))
  unfolding unlink_at
  run_rhs a b = rw (a, ==_ne (t.links.rhs x) 0 b) refl

  run_lhs :
      t.links.lhs x ≢ 0
      → t.links.rhs x ≡ 0
      → unlink_at t fuel bt x ≡ some (lift_child t bt x (t.links.lhs x))
  unfolding unlink_at
  run_lhs a b = rw (==_ne (t.links.lhs x) 0 a, b) refl

  run_both :
      (end : ℕ)
      → t.links.lhs x ≢ 0
      → t.links.rhs x ≢ 0
      → bt_last t.links fuel (t.links.lhs x) ≡ some end
      → unlink_at t fuel bt x ≡ some (lift_child (hang t x end) bt x ((hang t x end).links.lhs x))
  unfolding unlink_at
  run_both end a b e = rw (==_ne (t.links.lhs x) 0 a, ==_ne (t.links.rhs x) 0 b, e) refl

hang-root : (t : BinaryTree) (item end : ℕ) → (hang t item end).root ≡ t.root
unfolding store
hang-root t item end = refl

append_right_leaf : (l : Shape) → append_right l leaf ≡ l
append_right_leaf leaf = refl
append_right_leaf (node a x b) = ap (node a x) (append_right_leaf b)

module _ (t : BinaryTree) (bt : Slot) (p fuel x : ℕ) (l r : Shape)
    (tree : IsTree t.links (read t bt) p (node l x r)) (d : AreDistinct (node l x r))
    (o : IsOwned t bt p (node l x r)) where
  -- The links of the item are cleared, last.
  cleared :
      (out : BinaryTree)
      → unlink_at t fuel bt x ≡ some out
      → IsTree out.links (read out bt) p (append_right l r)
      → Framed bt 0 (node l x r) t out
      → Removed t bt p fuel x (node l x r) bt
  cleared out runs new frame = record {
    out = out;
    runs = runs;
    tree =
        subst (λ u. IsTree (clear_links out x).links (read (clear_links out x) bt) p u) (sym found)
          (clear-IsTree out bt p x (append_right l r) (owned-IsOff t bt p (node l x r) o) away
            (AllOf-append_right (λ y. y ≢ x) l r d.0 d.1) new);
    frame = clear-Framed t out bt x (node l x r) (λ n f e. f.0 (sym e)) frame;
  }
    where
      found : without x (node l x r) ≡ append_right l r
      found = rw (without, ==_refl x) refl

      away : x ≢ p
      away =
          (owned_fresh t bt p (node l x r) o
            (IsTree-Fresh t.links (read t bt) p (node l x r) tree)).0

  all_out : Fresh p (node l x r)
  all_out = owned_fresh t bt p (node l x r) o (IsTree-Fresh t.links (read t bt) p (node l x r) tree)

  here_none :
      l ≡ leaf
      → r ≡ leaf
      → t.links.lhs x ≡ 0
      → t.links.rhs x ≡ 0
      → Removed t bt p fuel x (node l x r) bt
  here_none el er a b =
      cleared (write t bt 0) (run_none t fuel bt x a b)
        (subst (λ u. IsTree (write t bt 0).links (read (write t bt 0) bt) p u)
          (sym (ap (λ u. append_right u r) el ∙ er)) (read-write t bt 0))
        (record {
          parent = λ n ne f. write-parent t bt 0 n;
          lhs = λ n ne f off. write-lhs t bt 0 n off;
          rhs = λ n ne f off. write-rhs t bt 0 n off;
          root = λ off. write-root t bt 0 off;
        })

  here_rhs :
      l ≡ leaf → t.links.lhs x ≡ 0 → t.links.rhs x ≢ 0 → Removed t bt p fuel x (node l x r) bt
  here_rhs el a b =
      cleared (lift_child t bt x (t.links.rhs x)) (run_rhs t fuel bt x a b)
        (subst
          (λ u.
            IsTree (lift_child t bt x (t.links.rhs x)).links
              (read (lift_child t bt x (t.links.rhs x)) bt) p u)
          (sym (ap (λ u. append_right u r) el))
          (lift-IsTree t bt p x (t.links.rhs x) tree.2 x r (owned-IsOff t bt p (node l x r) o)
            all_out.2 d.4 tree.4))
        (lift-Framed t bt p x (t.links.rhs x) tree.2 (node l x r)
          (λ n f ne. root_ne t.links (t.links.rhs x) x n r tree.4 f.2 b))

  here_lhs :
      r ≡ leaf → t.links.lhs x ≢ 0 → t.links.rhs x ≡ 0 → Removed t bt p fuel x (node l x r) bt
  here_lhs er a b =
      cleared (lift_child t bt x (t.links.lhs x)) (run_lhs t fuel bt x a b)
        (subst
          (λ u.
            IsTree (lift_child t bt x (t.links.lhs x)).links
              (read (lift_child t bt x (t.links.lhs x)) bt) p u)
          (sym (ap (append_right l) er ∙ append_right_leaf l))
          (lift-IsTree t bt p x (t.links.lhs x) tree.2 x l (owned-IsOff t bt p (node l x r) o)
            all_out.1 d.3 tree.3))
        (lift-Framed t bt p x (t.links.lhs x) tree.2 (node l x r)
          (λ n f ne. root_ne t.links (t.links.lhs x) x n l tree.3 f.1 a))

module _ (t : BinaryTree) (bt : Slot) (p fuel x : ℕ) (a : Shape) (y : ℕ) (b r : Shape)
    (tree : IsTree t.links (read t bt) p (node (node a y b) x r))
    (d : AreDistinct (node (node a y b) x r)) (o : IsOwned t bt p (node (node a y b) x r)) where
  abbrev l : Shape
  l = node a y b

  abbrev t1 : BinaryTree
  t1 = hang t x (last_item l)

  end_out : Fresh (last_item l) r
  end_out = AllOf-last_item (λ z. Fresh z r) a y b d.2

  here_both :
      t.links.lhs x ≢ 0 → t.links.rhs x ≢ 0 → size l < fuel → Removed t bt p fuel x (node l x r) bt
  here_both nl nr enough =
      cleared t bt p fuel x l r tree d o (lift_child t1 bt x (t1.links.lhs x))
        (run_both t fuel bt x (last_item l) nl nr
          (bt_last-items t.links l (t.links.lhs x) x fuel tree.3 enough ∙ ap some (last-items l)))
        (lift-IsTree t1 bt p x (t1.links.lhs x) up x (append_right l r)
          (owned-IsOff t bt p (node l x r) o) (AllOf-append_right (λ z. z ≢ p) l r (out.1) (out.2))
          (append_right-AreDistinct l r d.3 d.4 d.2)
          (subst (λ z. IsTree t1.links z x (append_right l r)) (sym (hung.lhs x))
            (hung-IsTree t.links t1.links (t.links.rhs x) (last_item l) x r hung tree.4 d.4 end_out
              (t.links.lhs x) x a y b refl tree.3 d.3 d.2)))
        (Framed-trans bt 0 (node l x r) (node l x r) t t1 (lift_child t1 bt x (t1.links.lhs x))
          (λ n f. f) (frame hung)
          (lift-Framed t1 bt p x (t1.links.lhs x) up (node l x r)
            (λ n f ne e. root_ne t.links (t.links.lhs x) x n l tree.3 f.1 nl (e ∙ hung.lhs x))))
    where
      hung : IsHung t.links t1.links (t.links.rhs x) (last_item l)
      hung = hang-IsHung t x (last_item l) nr

      up : t1.links.parent x ≡ p
      up = hung.parent x (λ z. root_ne t.links (t.links.rhs x) x x r tree.4 d.1 z) ∙ tree.2

      out : Fresh p (node l x r)
      out = owned_fresh t bt p (node l x r) o (IsTree-Fresh t.links (read t bt) p (node l x r) tree)

      frame : IsHung t.links t1.links (t.links.rhs x) (last_item l) → Framed bt 0 (node l x r) t t1
      frame links = record {
        parent = λ n ne f. links.parent n (λ z. root_ne t.links (t.links.rhs x) x n r tree.4 f.2 z);
        lhs = λ n ne f off. links.lhs n;
        rhs = λ n ne f off. links.rhs n (λ e. AllOf-last_item (λ z. z ≢ n) a y b f.1 (sym e));
        root = λ off. hang-root t x (last_item l);
      }

-- An item at the root of a tree.
pub removed_here :
    (t : BinaryTree) (bt : Slot) (p fuel x : ℕ) (l r : Shape)
    → IsTree t.links (read t bt) p (node l x r)
    → AreDistinct (node l x r)
    → IsOwned t bt p (node l x r)
    → size (node l x r) < fuel
    → Removed t bt p fuel x (node l x r) bt
removed_here t bt p fuel x leaf leaf tree d o enough =
    here_none t bt p fuel x leaf leaf tree d o refl refl tree.3 tree.4
removed_here t bt p fuel x leaf (node b z c) tree d o enough =
    here_rhs t bt p fuel x leaf (node b z c) tree d o refl tree.3 (λ e. tree.4.1 (sym tree.4.0 ∙ e))
removed_here t bt p fuel x (node a y b) leaf tree d o enough =
    here_lhs t bt p fuel x (node a y b) leaf tree d o refl (λ e. tree.3.1 (sym tree.3.0 ∙ e)) tree.4
removed_here t bt p fuel x (node a y b) (node u z v) tree d o enough =
    here_both t bt p fuel x a y b (node u z v) tree d o (λ e. tree.3.1 (sym tree.3.0 ∙ e))
      (λ e. tree.4.1 (sym tree.4.0 ∙ e)) (omega arith)
