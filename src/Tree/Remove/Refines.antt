-- ===== src/Tree/Remove/Refines.antt =====
-- `bt_remove` refines the removal from a tree of items, and from their list.
use smcp.Prelude.{
  ℕ, ◌≤◌, ◌<◌, ◌≡◌, ◌≢◌, refl, sym, ap, subst, ◌∙◌, arith, ==_ne, ==_iff, some, inl, inr, ◌⊎◌,
}
use native.Mathlib.Decide.{ℕ_discrete}
use smcp.Tree.{BtCompareResult, bt_find}
use smcp.Tree.Change.{BinaryTree, root_slot, slot_of, clear_links, unlink_at, bt_remove}
use smcp.Tree.Shape.{Shape, leaf, node, size, items, Fresh, AllOf, AllOf-map}
use smcp.Tree.Find.{search_below, search_same, search_above, search, bt_find-search, compare-cases}
use smcp.Tree.Insert.Lookup.{IsSearchTree}
use smcp.Prelude.Bytes.{store}
use smcp.Tree.Insert.{IsNew}
use smcp.Tree.Remove.{
  Fresh-without, AllOf-without, size-without, Has, without, append_right, list_without,
  items-without, without-IsOrdered, without-AreDistinct,
}
use smcp.Tree.Remove.Inside.{removed}

pub search-Has :
    (compare : ℕ → BtCompareResult) (s : Shape) → search compare s ≢ 0 → Has (search compare s) s
search-Has compare leaf ne = absurd (ne refl)
search-Has compare (node l x r) ne = elim (compare-cases (compare x)) [
  | inl c ↦
      subst (λ z. Has z (node l x r)) (sym (search_below compare l x r c))
        (inr (inr (search-Has compare r (λ e. ne (search_below compare l x r c ∙ e)))))
  | inr (inl c) ↦ subst (λ z. Has z (node l x r)) (sym (search_same compare l x r c)) (inl refl)
  | inr (inr c) ↦
      subst (λ z. Has z (node l x r)) (sym (search_above compare l x r c))
        (inr (inl (search-Has compare l (λ e. ne (search_above compare l x r c ∙ e)))))
]

Has-append_right : (n : ℕ) (l r : Shape) → Has n l ⊎ Has n r → Has n (append_right l r)
Has-append_right n leaf r (inl h) = absurd (h refl)
Has-append_right n leaf r (inr h) = h
Has-append_right n (node a x b) r (inl (inl e)) = inl e
Has-append_right n (node a x b) r (inl (inr (inl h))) = inr (inl h)
Has-append_right n (node a x b) r (inl (inr (inr h))) = inr (inr (Has-append_right n b r (inl h)))
Has-append_right n (node a x b) r (inr h) = inr (inr (Has-append_right n b r (inr h)))

kept_in :
    (n x : ℕ) (l r l' r' : Shape)
    → (Has n l → Has n l')
    → (Has n r → Has n r')
    → Has n (node l x r)
    → Has n (node l' x r')
kept_in n x l r l' r' f g (inl e) = inl e
kept_in n x l r l' r' f g (inr (inl h)) = inr (inl (f h))
kept_in n x l r l' r' f g (inr (inr h)) = inr (inr (g h))

-- The other items are still in the tree, and no others.
Has-without : (n item : ℕ) (s : Shape) → n ≢ item → Has n s → Has n (without item s)
Has-without n item leaf ne h = h
Has-without n item (node l x r) ne h = elim (ℕ_discrete x item) [
  | yes e ↦ rw (without, (==_iff x item).1 e) (Has-append_right n l r (below_root e h))
  | no other ↦
      rw (without, ==_ne x item other)
        (kept_in n x l r (without item l) (without item r) (Has-without n item l ne)
          (Has-without n item r ne) h)
]
  where
    below_root : x ≡ item → Has n (node l x r) → Has n l ⊎ Has n r
    below_root e (inl here) = absurd (ne (here ∙ e))
    below_root e (inr there) = there

AllOf-Has_self : (s : Shape) → AllOf (λ n. Has n s) s
AllOf-Has_self leaf = tt
AllOf-Has_self (node l x r) = (
  inl refl,
  AllOf-map (λ n h. inr (inl h)) l (AllOf-Has_self l),
  AllOf-map (λ n h. inr (inr h)) r (AllOf-Has_self r),
)

module _ (t : BinaryTree) (fuel : ℕ) (compare : ℕ → BtCompareResult) where
  run_absent :
      bt_find t.links compare fuel t.root ≡ some 0
      → bt_remove t fuel root_slot compare ≡ some (t, 0)
  unfolding bt_remove
  run_absent e = rw (bt_remove, e) refl

  run_found :
      (item : ℕ) (out : BinaryTree)
      → bt_find t.links compare fuel t.root ≡ some item
      → item ≢ 0
      → unlink_at t fuel (slot_of t root_slot item) item ≡ some out
      → bt_remove t fuel root_slot compare ≡ some (clear_links out item, item)
  unfolding bt_remove
  run_found item out e ne r = rw (bt_remove, e, ==_ne item 0 ne, r) refl

clear-IsNew :
    (t : BinaryTree) (item : ℕ) (s : Shape)
    → item ≢ 0
    → Fresh item s
    → IsNew (clear_links t item) 0 item s
unfolding store
clear-IsNew t item s ne f = record {
  nonzero = ne;
  fresh = f;
  outside = λ e. ne (sym e);
  lhs = ground arith;
  rhs = ground arith;
  parent = ground arith;
}

-- What `bt_remove` leaves of a tree; the item can be inserted again.
pub record IsRemoved (key : ℕ → ℕ) (t : BinaryTree) (fuel : ℕ) (compare : ℕ → BtCompareResult)
    (s : Shape) (item : ℕ) : Type 0 where
  pub out : BinaryTree
  pub runs : bt_remove t fuel root_slot compare ≡ some (out, item)
  pub rest : Shape
  pub valid : IsSearchTree key out rest
  pub items_lem : items rest ≡ list_without item (items s)
  pub new : IsNew out 0 item rest
  pub smaller : size rest ≤ size s
  pub keeps : (n : ℕ) → n ≢ item → Has n s → Has n rest
  pub from_before : AllOf (λ n. Has n s) rest
  pub others :
      (n : ℕ)
      → n ≢ 0
      → Fresh n s
      → (out.links.lhs n ≡ t.links.lhs n)
        × (out.links.rhs n ≡ t.links.rhs n)
        × (out.links.parent n ≡ t.links.parent n)
        × Fresh n rest

-- `bt_remove` of what `bt_find` finds in a search tree of n items ends, where a walk has more
-- fuel than n: where nothing is found, nothing changes and its result is false; where an item is found,
-- exactly that item is taken out, wherever it stands and however many children it has, what is
-- left is a search tree, its items are the other items in the same order, and the item is ready to
-- be inserted again.
pub bt_remove_refines :
    (key : ℕ → ℕ) (t : BinaryTree) (s : Shape) (compare : ℕ → BtCompareResult) (fuel : ℕ)
    → IsSearchTree key t s
    → size s < fuel
    → (item : ℕ) × (bt_find t.links compare fuel t.root ≡ some item)
      × (((item ≡ 0) × (bt_remove t fuel root_slot compare ≡ some (t, 0)))
          ⊎ IsRemoved key t fuel compare s item)
bt_remove_refines key t s compare fuel valid enough = (
  search compare s,
  find,
  elim (ℕ_discrete (search compare s) 0) [
    | yes e ↦ inl (e, run_absent t fuel compare (find ∙ ap some e))
    | no ne ↦ inr (taken ne)
  ],
)
  where
    find : bt_find t.links compare fuel t.root ≡ some (search compare s)
    find = bt_find-search t.links compare s t.root 0 fuel valid.tree enough

    taken : search compare s ≢ 0 → IsRemoved key t fuel compare s (search compare s)
    taken ne =
        let end =
          removed s t root_slot 0 fuel (search compare s) valid.tree valid.distinct refl
            (omega arith) (search-Has compare s ne) in
        record {
          out = clear_links end.out (search compare s);
          runs = run_found t fuel compare (search compare s) end.out find ne end.runs;
          rest = without (search compare s) s;
          valid = record {
            tree = end.tree;
            distinct = without-AreDistinct (search compare s) s valid.distinct;
            ordered = without-IsOrdered key (search compare s) s valid.ordered;
          };
          items_lem = items-without (search compare s) s valid.distinct;
          new =
              clear-IsNew end.out (search compare s) (without (search compare s) s) ne
                (Fresh-without (search compare s) s valid.distinct);
          smaller = size-without (search compare s) s;
          keeps = λ n other h. Has-without n (search compare s) s other h;
          from_before = AllOf-without (λ n. Has n s) (search compare s) s (AllOf-Has_self s);
          others = λ n nz f. (
            end.frame.lhs n nz f refl,
            end.frame.rhs n nz f refl,
            end.frame.parent n nz f,
            AllOf-without (λ y. y ≢ n) (search compare s) s f,
          );
        }
