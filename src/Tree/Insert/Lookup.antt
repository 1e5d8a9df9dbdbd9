-- ===== src/Tree/Insert/Lookup.antt =====
-- A tree that is ordered by keys as a map from keys to items, and `bt_insert` as its update.
use smcp.Prelude.{
  ℕ, suc, ◌<◌, ◌≤◌, ◌≡◌, ◌≢◌, refl, sym, ap, subst, ◌∙◌, arith, Option, some, ◌==◌, if◌then◌else◌,
  inl, inr, Bool, true, false,
}
use smcp.Tree.{BtCompareResult, bt_find}
use smcp.Tree.Change.{BinaryTree, root_slot, Inserted, bt_insert}
use smcp.Tree.Shape.{
  Shape, leaf, node, size, items, IsTree, Fresh, AreDistinct, AreApart, AreApart-sym,
}
use smcp.Tree.Find.{search, bt_find-search, compare-cases}
use smcp.Tree.Ordered.{
  by_number, by_key, IsOrdered, put_ordered, AllOf-insert_item, items-insert_item,
  insert_item-IsOrdered, by_key_below, by_key_same, by_key_above,
}
use smcp.Tree.Insert.{
  insert_item, found_item, item_depth, IsNew, insert_below, insert_same, insert_above,
}
use smcp.Tree.Insert.Refines.{bt_insert_outcome}

module _ (key : ℕ → ℕ) (item : ℕ) where
  -- A search for a key.
  abbrev by : ℕ → ℕ → BtCompareResult
  by k n = by_number (key n) k

  search-insert_item :
      (k : ℕ) (s : Shape)
      → search (by k) (insert_item (by_key key) item s)
        ≡ (if k == key item then item else search (by k) s)
  search-insert_item k leaf = ground arith
  search-insert_item k (node l x r) = elim (compare-cases (by_key key x item)) [
    | inl c ↦
        ap (search (by k)) (sym (insert_below (by_key key) item l x r c))
        ∙ ground (arith, search-insert_item k r, by_key_below key item x c)
    | inr (inl c) ↦
        ap (search (by k)) (sym (insert_same (by_key key) item l x r c))
        ∙ ground (arith, by_key_same key item x c)
    | inr (inr c) ↦
        ap (search (by k)) (sym (insert_above (by_key key) item l x r c))
        ∙ ground (arith, search-insert_item k l, by_key_above key item x c)
  ]

module _ (compare : ℕ → ℕ → BtCompareResult) (item : ℕ) where
  size-insert_item : (s : Shape) → size (insert_item compare item s) ≤ suc (size s)
  size-insert_item leaf = omega arith
  size-insert_item (node l x r) = elim (compare-cases (compare x item)) [
    | inl c ↦ ground (arith, size-insert_item r, insert_below compare item l x r c)
    | inr (inl c) ↦ ground (arith, insert_same compare item l x r c)
    | inr (inr c) ↦ ground (arith, size-insert_item l, insert_above compare item l x r c)
  ]

  found-search : (s : Shape) → found_item compare item s ≡ search (λ n. compare n item) s
  found-search leaf = refl
  found-search (node l x r) = elim (compare-cases (compare x item)) [
    | inl c ↦ rw (found_item, search, c) (found-search r)
    | inr (inl c) ↦ rw (found_item, search, c) refl
    | inr (inr c) ↦ rw (found_item, search, c) (found-search l)
  ]

  item_depth-size : (s : Shape) → item_depth compare item s ≤ size s
  item_depth-size leaf = omega arith
  item_depth-size (node l x r) = ground (arith, item_depth-size l, item_depth-size r)

  AreApart-insert :
      (s u : Shape) → AreApart s u → Fresh item u → AreApart (insert_item compare item s) u
  AreApart-insert s u a f = AllOf-insert_item item (λ y. Fresh y u) compare s f a

  insert_item-AreDistinct :
      (s : Shape) → AreDistinct s → Fresh item s → AreDistinct (insert_item compare item s)
  insert_item-AreDistinct leaf d f = (tt, tt, tt, tt, tt)
  insert_item-AreDistinct (node l x r) d f = elim (compare-cases (compare x item)) [
    | inl c ↦ subst AreDistinct (insert_below compare item l x r c) (
      d.0,
      AllOf-insert_item item (λ y. y ≢ x) compare r (λ e. f.0 (sym e)) d.1,
      AreApart-sym (insert_item compare item r) l (AreApart-insert r l (AreApart-sym l r d.2) f.1),
      d.3,
      insert_item-AreDistinct r d.4 f.2,
    )
    | inr (inl c) ↦ subst AreDistinct (insert_same compare item l x r c) (f.1, f.2, d.2, d.3, d.4)
    | inr (inr c) ↦ subst AreDistinct (insert_above compare item l x r c) (
      AllOf-insert_item item (λ y. y ≢ x) compare l (λ e. f.0 (sym e)) d.0,
      d.1,
      AreApart-insert l r d.2 f.2,
      insert_item-AreDistinct l d.3 f.1,
      d.4,
    )
  ]

-- A tree of distinct items in the order of their keys.
pub record IsSearchTree (key : ℕ → ℕ) (t : BinaryTree) (s : Shape) : Type 0 where
  pub tree : IsTree t.links t.root 0 s
  pub distinct : AreDistinct s
  pub ordered : IsOrdered key s

-- `bt_insert` of a new item into a search tree of n items, on more fuel than n, ends at a
-- depth of at most n, and leaves a search tree; its items in order are those of the ordered list
-- into which the item is put at the place of its key, instead of an item of the same key.
pub bt_insert_refines :
    (key : ℕ → ℕ) (t : BinaryTree) (s : Shape) (item fuel : ℕ)
    → IsSearchTree key t s
    → IsNew t 0 item s
    → size s < fuel
    → (out : Inserted) × (bt_insert (by_key key) fuel t root_slot item 0 ≡ some out)
      × (out.depth ≤ size s)
      × (s' : Shape) × IsSearchTree key out.tree s'
      × (items s' ≡ put_ordered key item (items s))
bt_insert_refines key t s item fuel valid new enough =
    let end =
      bt_insert_outcome (by_key key) s fuel t root_slot 0 item 0 valid.tree valid.distinct refl new
        (omega arith) in
    (
      end.out,
      end.runs,
      omega (arith, end.depth_lem, item_depth-size (by_key key) item s),
      insert_item (by_key key) item s,
      record {
        tree = end.tree;
        distinct = insert_item-AreDistinct (by_key key) item s valid.distinct new.fresh;
        ordered = insert_item-IsOrdered key item s valid.ordered;
      },
      items-insert_item key item s valid.ordered,
    )

-- After `bt_insert`, with enough fuel, `bt_find` of the item's key finds the item and `bt_find` of each other key
-- finds what it found before; the item that is given to `delete_func` is the one that `bt_find`
-- found under the item's key, if any.
pub bt_insert-bt_find :
    (key : ℕ → ℕ) (t : BinaryTree) (s : Shape) (item fuel : ℕ)
    → IsSearchTree key t s
    → IsNew t 0 item s
    → size s < fuel
    → (out : Inserted) × (bt_insert (by_key key) fuel t root_slot item 0 ≡ some out)
      × ((k : ℕ)
          → bt_find out.tree.links (λ n. by_number (key n) k) (suc fuel) out.tree.root ≡ (
              if k == key item
              then some item
              else bt_find t.links (λ n. by_number (key n) k) fuel t.root))
      × (bt_find t.links (λ n. by_number (key n) (key item)) fuel t.root ≡ some out.deleted)
bt_insert-bt_find key t s item fuel valid new enough =
    let end =
      bt_insert_outcome (by_key key) s fuel t root_slot 0 item 0 valid.tree valid.distinct refl new
        (omega arith) in
    (
      end.out,
      end.runs,
      (λ k.
          bt_find-search end.out.tree.links (λ n. by_number (key n) k)
            (insert_item (by_key key) item s) end.out.tree.root 0 (suc fuel) end.tree
            (omega (arith, size-insert_item (by_key key) item s))
          ∙ ap some (search-insert_item key item k s)
          ∙ chosen item (search (λ n. by_number (key n) k) s) (k == key item)
          ∙ ap (λ (o : Option ℕ). if k == key item then some item else o) (sym (before k))),
      before (key item)
          ∙ ap some (sym (found-search (by_key key) item s))
          ∙ ap some (sym end.deleted),
    )
  where
    chosen : (a b : ℕ) (c : Bool) → some (if c then a else b) ≡ (if c then some a else some b)
    chosen a b true = refl
    chosen a b false = refl

    before :
        (k : ℕ)
        → bt_find t.links (λ n. by_number (key n) k) fuel t.root
          ≡ some (search (λ n. by_number (key n) k) s)
    before k =
        bt_find-search t.links (λ n. by_number (key n) k) s t.root 0 fuel valid.tree (omega arith)
