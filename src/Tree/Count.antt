-- ===== src/Tree/Count.antt =====
-- The walk over a whole tree with `bt_first` and `bt_next`, and `bt_count`.
use smcp.Prelude.{
  ℕ, zero, suc, ◌<◌, ◌≤◌, ◌≡◌, ◌≢◌, refl, sym, ap, ◌∙◌, arith, false, some, ◌==◌, ==_ne, ==_iff,
  List, [], ◌∷◌, ◌++◌, All, length,
}
use smcp.Tree.{TreeHeap, bt_first, bt_last, climb, bt_next}
use smcp.Tree.Change.{count_to, bt_count}
use smcp.Tree.Shape.{
  Shape, leaf, node, size, items, IsTree, Fresh, AreDistinct, AllOf-map, AllOf-zip,
}
use smcp.Tree.Ordered.{All-items, All-append}
use smcp.Tree.Walk.{first, last, Follows, follows, bt_first-items, bt_last-items, length-items}

climb_root : (h : TreeHeap) (at m : ℕ) → h.parent at ≡ 0 → 1 ≤ m → climb h h.rhs m at ≡ some 0
unfolding climb
climb_root h at zero e le = absurd (omega arith)
climb_root h at (suc m) e le = rw e refl

-- From `bt_first` of a tree, `bt_next` leads through all of its items in order, once each, and
-- from the last one to NULL, where a walk has one step of fuel more than the tree has items.
pub bt_next-Follows :
    (h : TreeHeap) (root : ℕ) (s : Shape) (fuel : ℕ)
    → IsTree h root 0 s
    → AreDistinct s
    → size s < fuel
    → (bt_first h fuel root ≡ some (first 0 (items s))) × Follows h fuel (items s) 0
bt_next-Follows h root s fuel t d enough = (
  bt_first-items h s root 0 fuel t enough,
  follows h s root 0 1 fuel 0 t d (λ ne m le. climb_root h root m (up s t ne) le) (omega arith),
)
  where
    up : (s : Shape) → IsTree h root 0 s → root ≢ 0 → h.parent root ≡ 0
    up leaf t ne = absurd (ne t)
    up (node l x r) t ne = ap h.parent t.0 ∙ t.2

-- No number stands twice in the list.
abbrev pub IsUnique : List ℕ → Type 0
IsUnique [] = Unit
IsUnique (x ∷ xs) = All (λ y. y ≢ x) xs × IsUnique xs

IsUnique-append :
    (xs ys : List ℕ)
    → IsUnique xs
    → IsUnique ys
    → All (λ x. All (λ y. y ≢ x) ys) xs
    → IsUnique (xs ++ ys)
IsUnique-append [] ys u v a = v
IsUnique-append (x ∷ xs) ys u v a =
    (All-append (λ y. y ≢ x) xs ys u.0 a.0, IsUnique-append xs ys u.1 v a.1)

pub items-IsUnique : (s : Shape) → AreDistinct s → IsUnique (items s)
items-IsUnique leaf d = tt
items-IsUnique (node l x r) d =
    IsUnique-append (items l) (x ∷ items r) (items-IsUnique l d.3)
      (All-items (λ y. y ≢ x) r d.1, items-IsUnique r d.4)
      (All-items (λ y. All (λ z. z ≢ y) (x ∷ items r)) l
        (AllOf-map (λ y f. (f.0, All-items (λ z. z ≢ y) r f.1)) l
          (AllOf-zip (λ y. x ≢ y) (λ y. Fresh y r) l (AllOf-map (λ y ne e. ne (sym e)) l d.0) d.2)))

All-last {ℓ} : (P : ℕ → Type ℓ) (x : ℕ) (xs : List ℕ) → P x → All P xs → P (last x xs)
All-last P x [] p a = p
All-last P x (y ∷ ys) p a = All-last P y ys a.0 a.1

module _ (h : TreeHeap) (walk : ℕ) where
  count_end : (fuel end x : ℕ) → x ≡ end → count_to h walk end (suc fuel) x ≡ some 1
  unfolding count_to
  count_end fuel end x e = rw ((==_iff x end).1 e) refl

  count_on :
      (fuel end x y n : ℕ)
      → x ≢ end
      → bt_next h walk x ≡ some y
      → count_to h walk end fuel y ≡ some n
      → count_to h walk end (suc fuel) x ≡ some (suc n)
  unfolding count_to
  count_on fuel end x y n ne e r = rw (==_ne x end ne, e, r) refl

  count_to-list :
      (x : ℕ) (xs : List ℕ) (fuel : ℕ)
      → Follows h walk (x ∷ xs) 0
      → IsUnique (x ∷ xs)
      → length xs < fuel
      → count_to h walk (last x xs) fuel x ≡ some (length (x ∷ xs))
  count_to-list x xs zero f u enough = absurd (omega arith)
  count_to-list x [] (suc fuel) f u enough = count_end fuel x x refl
  count_to-list x (y ∷ ys) (suc fuel) f u enough =
      count_on fuel (last y ys) x y (length (y ∷ ys))
        (λ e. All-last (λ z. z ≢ x) y ys u.0.0 u.0.1 (sym e)) f.0
        (count_to-list y ys fuel f.1 u.1 (omega arith))

-- `bt_count` ends, and is the number of the items.
pub bt_count-size :
    (h : TreeHeap) (root : ℕ) (s : Shape) (fuel : ℕ)
    → IsTree h root 0 s
    → AreDistinct s
    → size s < fuel
    → bt_count h fuel root ≡ some (size s)
unfolding bt_count
bt_count-size h root leaf fuel t d enough = rw t refl
bt_count-size h root (node l x r) fuel t d enough =
    counted (first 0 (items (node l x r))) (last 0 (items (node l x r)))
      (==_ne root 0 (λ e. t.1 (sym t.0 ∙ e))) (bt_first-items h (node l x r) root 0 fuel t enough)
      (bt_last-items h (node l x r) root 0 fuel t enough)
      (from_list (items (node l x r)) (bt_next-Follows h root (node l x r) fuel t d enough).1
        (items-IsUnique (node l x r) d) (length-items (node l x r)))
  where
    counted :
        (a b : ℕ)
        → (root == 0) ≡ false
        → bt_first h fuel root ≡ some a
        → bt_last h fuel root ≡ some b
        → count_to h fuel b fuel a ≡ some (size (node l x r))
        → bt_count h fuel root ≡ some (size (node l x r))
    counted a b e f g r = rw (e, f, g) r

    from_list :
        (xs : List ℕ)
        → Follows h fuel xs 0
        → IsUnique xs
        → length xs ≡ size (node l x r)
        → count_to h fuel (last 0 xs) fuel (first 0 xs) ≡ some (size (node l x r))
    from_list [] f u e = absurd (omega arith)
    from_list (y ∷ ys) f u e = count_to-list h fuel y ys fuel f u (omega arith) ∙ ap some e
