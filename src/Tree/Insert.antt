-- ===== src/Tree/Insert.antt =====
-- `bt_insert` as an insertion into a tree of items.
pub mod Place
pub mod Refines
pub mod Lookup
use smcp.Prelude.{
  ℕ, zero, suc, ◌+◌, ◌<◌, ◌≡◌, ◌≢◌, refl, sym, ap, subst, ◌∙◌, arith, Bool, true, false, Option,
  none, some, ◌==◌, if◌then◌else◌, ==_ne, ==_refl,
}
use smcp.Prelude.Bytes.{store}
use smcp.Tree.{TreeHeap, BtCompareResult, below, same, above}
use smcp.Tree.Change.{
  BinaryTree, Slot, root_slot, lhs_of, rhs_of, read, write, set_parent, replace, Inserted,
  bt_insert,
}
use smcp.Tree.Shape.{
  Shape, leaf, node, size, IsTree, AllOf, AllOf-map, AllOf-zip, Fresh, AreDistinct, AreApart-sym,
  IsTree-apart, IsTree-Fresh, IsTree-parent, root_ne,
}
use smcp.Tree.Slots.{
  is_lhs, is_rhs, is_root, IsOwned, Framed, read-write, write-parent, write-lhs, write-rhs,
  write-root, owned-is_lhs, owned-is_rhs, owned_fresh,
}
use smcp.Tree.Replace.{
  IsPlace, read-replace, replace-lhs_self, replace-rhs_self, replace-parent_self, replace-lhs,
  replace-rhs, replace-root, replace-parent, replace-parent_left, replace-parent_right,
}
use smcp.Tree.Graft.{
  store_ne, Framed-left, Framed-right, Framed-set_parent, IsTree-set_parent, graft_left,
  graft_right,
}

module _ (compare : ℕ → ℕ → BtCompareResult) (item : ℕ) where
  abbrev pub insert_item : Shape → Shape
  insert_item leaf = node leaf item leaf
  insert_item (node l x r) = elim (compare x item) [
    | below ↦ node l x (insert_item r)
    | same ↦ node l item r
    | above ↦ node (insert_item l) x r
  ]

  -- The item that it replaces, or 0.
  abbrev pub found_item : Shape → ℕ
  found_item leaf = 0
  found_item (node l x r) = elim (compare x item) [
    | below ↦ found_item r
    | same ↦ x
    | above ↦ found_item l
  ]

  -- How far down it is put.
  abbrev pub item_depth : Shape → ℕ
  item_depth leaf = 0
  item_depth (node l x r) = elim (compare x item) [
    | below ↦ suc (item_depth r)
    | same ↦ 0
    | above ↦ suc (item_depth l)
  ]

module _ (compare : ℕ → ℕ → BtCompareResult) (item : ℕ) (l : Shape) (x : ℕ) (r : Shape) where
  pub insert_below :
      compare x item ≡ below
      → node l x (insert_item compare item r) ≡ insert_item compare item (node l x r)
  insert_below c = rw (insert_item, c) refl

  pub insert_same : compare x item ≡ same → node l item r ≡ insert_item compare item (node l x r)
  insert_same c = rw (insert_item, c) refl

  pub insert_above :
      compare x item ≡ above
      → node (insert_item compare item l) x r ≡ insert_item compare item (node l x r)
  insert_above c = rw (insert_item, c) refl

-- A new item, which is to be put below `p`.
pub record IsNew (t : BinaryTree) (p item : ℕ) (s : Shape) : Type 0 where
  pub nonzero : item ≢ 0
  pub fresh : Fresh item s
  pub outside : p ≢ item
  pub lhs : t.links.lhs item ≡ 0
  pub rhs : t.links.rhs item ≡ 0
  pub parent : t.links.parent item ≡ p

-- What a run leaves.
pub record Outcome (compare : ℕ → ℕ → BtCompareResult) (fuel : ℕ) (t : BinaryTree) (bt : Slot)
    (p item depth : ℕ) (s : Shape) : Type 0 where
  pub out : Inserted
  pub runs : bt_insert compare fuel t bt item depth ≡ some out
  pub tree : IsTree out.tree.links (read out.tree bt) p (insert_item compare item s)
  pub frame : Framed bt item s t out.tree
  pub deleted : out.deleted ≡ found_item compare item s
  pub depth_lem : out.depth ≡ depth + item_depth compare item s

module _ (compare : ℕ → ℕ → BtCompareResult) (fuel : ℕ) (t : BinaryTree) (bt : Slot)
    (item depth : ℕ) where
  pub run_leaf :
      read t bt ≡ 0
      → bt_insert compare (suc fuel) t bt item depth
        ≡ some (record { tree = write t bt item; deleted = 0; depth = depth })
  unfolding bt_insert
  run_leaf e = rw e refl

  pub run_below :
      (x : ℕ)
      → read t bt ≡ x
      → x ≢ 0
      → compare x item ≡ below
      → bt_insert compare (suc fuel) t bt item depth
        ≡ bt_insert compare fuel (set_parent t item x) (rhs_of x) item (suc depth)
  unfolding bt_insert
  run_below x e ne c =
      run (==_ne (read t bt) 0 (λ z. ne (sym e ∙ z))) (ap (λ y. compare y item) e ∙ c)
      ∙ ap (λ y. bt_insert compare fuel (set_parent t item y) (rhs_of y) item (suc depth)) e
    where
      run :
          (read t bt == 0) ≡ false
          → compare (read t bt) item ≡ below
          → bt_insert compare (suc fuel) t bt item depth
            ≡ bt_insert compare fuel
                (set_parent t item (read t bt))
                (rhs_of (read t bt))
                item
                (suc depth)
      run a b = rw (a, b) refl

  pub run_above :
      (x : ℕ)
      → read t bt ≡ x
      → x ≢ 0
      → compare x item ≡ above
      → bt_insert compare (suc fuel) t bt item depth
        ≡ bt_insert compare fuel (set_parent t item x) (lhs_of x) item (suc depth)
  unfolding bt_insert
  run_above x e ne c =
      run (==_ne (read t bt) 0 (λ z. ne (sym e ∙ z))) (ap (λ y. compare y item) e ∙ c)
      ∙ ap (λ y. bt_insert compare fuel (set_parent t item y) (lhs_of y) item (suc depth)) e
    where
      run :
          (read t bt == 0) ≡ false
          → compare (read t bt) item ≡ above
          → bt_insert compare (suc fuel) t bt item depth
            ≡ bt_insert compare fuel
                (set_parent t item (read t bt))
                (lhs_of (read t bt))
                item
                (suc depth)
      run a b = rw (a, b) refl

  pub run_same :
      (x : ℕ)
      → read t bt ≡ x
      → x ≢ 0
      → item ≢ x
      → compare x item ≡ same
      → bt_insert compare (suc fuel) t bt item depth
        ≡ some (record { tree = replace t bt x item; deleted = x; depth = depth })
  unfolding bt_insert
  run_same x e ne other c =
      run (==_ne (read t bt) 0 (λ z. ne (sym e ∙ z))) (ap (λ y. compare y item) e ∙ c)
        (==_ne item (read t bt) (λ z. other (z ∙ e)))
      ∙ ap (λ y. some (record { tree = replace t bt y item; deleted = y; depth = depth })) e
    where
      run :
          (read t bt == 0) ≡ false
          → compare (read t bt) item ≡ same
          → (item == read t bt) ≡ false
          → bt_insert compare (suc fuel) t bt item depth
            ≡ some (record {
              tree = replace t bt (read t bt) item;
              deleted = read t bt;
              depth = depth;
            })
      run a b c = rw (a, b, c) refl
