-- ===== src/Tree/Remove/Place.antt =====
-- What `bt_remove` does at the place of the item.
use smcp.Prelude.{ℕ, ◌≡◌, ◌≢◌, refl, sym, subst, ◌∙◌, false, ==_ne, ==_refl, ne_of_==}
use smcp.Prelude.Bytes.{store}
use smcp.Tree.Change.{
  BinaryTree, Slot, root_slot, lhs_of, rhs_of, read, write, set_parent, lift_child, clear_links,
}
use smcp.Tree.Shape.{Shape, IsTree, AllOf-map, Fresh, AreDistinct, IsTree-parent, IsTree-frame}
use smcp.Tree.Slots.{
  is_lhs, is_rhs, is_root, IsOwned, Framed, read-write, write-parent, write-lhs, write-rhs,
  write-root, owned-is_lhs, owned-is_rhs,
}
use smcp.Tree.Graft.{store_ne}

-- The place is no link of what is not the parent.
abbrev pub IsOff : Slot → ℕ → Type 0
IsOff bt p = (n : ℕ) → n ≢ p → (is_lhs bt n ≡ false) × (is_rhs bt n ≡ false)

pub owned-IsOff : (t : BinaryTree) (bt : Slot) (p : ℕ) (s : Shape) → IsOwned t bt p s → IsOff bt p
owned-IsOff t bt p s o n ne = (owned-is_lhs t bt p n s o ne, owned-is_rhs t bt p n s o ne)

pub read-set_parent :
    (t : BinaryTree) (bt : Slot) (n v : ℕ) → read (set_parent t n v) bt ≡ read t bt
unfolding store
read-set_parent t root_slot n v = refl
read-set_parent t (lhs_of m) n v = refl
read-set_parent t (rhs_of m) n v = refl

-- A tree that is lifted into the place.
module _ (t : BinaryTree) (bt : Slot) (p item child : ℕ) (up : t.links.parent item ≡ p) where
  lift-parent_self : (lift_child t bt item child).links.parent child ≡ p
  unfolding store
  lift-parent_self = rw (==_refl child) (write-parent t bt child item ∙ up)

  lift-parent : (n : ℕ) → n ≢ child → (lift_child t bt item child).links.parent n ≡ t.links.parent n
  unfolding store
  lift-parent n ne = rw (==_ne n child ne) (write-parent t bt child n)

  lift-lhs :
      (n : ℕ) → is_lhs bt n ≡ false → (lift_child t bt item child).links.lhs n ≡ t.links.lhs n
  unfolding store
  lift-lhs n off = write-lhs t bt child n off

  lift-rhs :
      (n : ℕ) → is_rhs bt n ≡ false → (lift_child t bt item child).links.rhs n ≡ t.links.rhs n
  unfolding store
  lift-rhs n off = write-rhs t bt child n off

  lift-root : is_root bt ≡ false → (lift_child t bt item child).root ≡ t.root
  unfolding store
  lift-root off = write-root t bt child off

  read-lift : read (lift_child t bt item child) bt ≡ child
  unfolding store
  read-lift =
      read-set_parent (write t bt child) bt child ((write t bt child).links.parent item)
      ∙ read-write t bt child

  pub lift-IsTree :
      (q : ℕ) (u : Shape)
      → IsOff bt p
      → Fresh p u
      → AreDistinct u
      → IsTree t.links child q u
      → IsTree (lift_child t bt item child).links (read (lift_child t bt item child) bt) p u
  lift-IsTree q u off out d tree =
      subst (λ z. IsTree (lift_child t bt item child).links z p u) (sym read-lift)
        (IsTree-parent t.links (lift_child t bt item child).links child q p u
          (AllOf-map (λ n ne. (lift-lhs n (off n ne).0, lift-rhs n (off n ne).1)) u out)
          (AllOf-map (λ n ne away. lift-parent n away) u out) (λ ne. lift-parent_self) d tree)

  pub lift-Framed :
      (s : Shape)
      → ((n : ℕ) → Fresh n s → n ≢ 0 → n ≢ child)
      → Framed bt 0 s t (lift_child t bt item child)
  lift-Framed s inside = record {
    parent = λ n ne f. lift-parent n (inside n f ne);
    lhs = λ n ne f off. lift-lhs n off;
    rhs = λ n ne f off. lift-rhs n off;
    root = λ off. lift-root off;
  }

-- The item's own links are cleared.
pub clear-IsTree :
    (t : BinaryTree) (bt : Slot) (p item : ℕ) (u : Shape)
    → IsOff bt p
    → item ≢ p
    → Fresh item u
    → IsTree t.links (read t bt) p u
    → IsTree (clear_links t item).links (read (clear_links t item) bt) p u
unfolding store
clear-IsTree t bt p item u off ne out tree =
    subst (λ z. IsTree (clear_links t item).links z p u) (sym (place bt (off item ne)))
      (IsTree-frame t.links (clear_links t item).links (read t bt) p u
        (AllOf-map
          (λ n other. (
            store_ne t.links.lhs item 0 n other,
            store_ne t.links.rhs item 0 n other,
            store_ne t.links.parent item 0 n other,
          ))
          u out)
        tree)
  where
    place :
        (bt : Slot)
        → (is_lhs bt item ≡ false) × (is_rhs bt item ≡ false)
        → read (clear_links t item) bt ≡ read t bt
    place root_slot h = refl
    place (lhs_of m) h = store_ne t.links.lhs item 0 m (ne_of_== m item h.0)
    place (rhs_of m) h = store_ne t.links.rhs item 0 m (ne_of_== m item h.1)

pub clear-Framed :
    (t t' : BinaryTree) (bt : Slot) (item : ℕ) (s : Shape)
    → ((n : ℕ) → Fresh n s → n ≢ item)
    → Framed bt 0 s t t'
    → Framed bt 0 s t (clear_links t' item)
unfolding store
clear-Framed t t' bt item s inside f = record {
  parent = λ n ne fresh. store_ne t'.links.parent item 0 n (inside n fresh) ∙ f.parent n ne fresh;
  lhs = λ n ne fresh off. store_ne t'.links.lhs item 0 n (inside n fresh) ∙ f.lhs n ne fresh off;
  rhs = λ n ne fresh off. store_ne t'.links.rhs item 0 n (inside n fresh) ∙ f.rhs n ne fresh off;
  root = λ off. f.root off;
}
