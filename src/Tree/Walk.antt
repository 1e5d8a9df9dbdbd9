-- ===== src/Tree/Walk.antt =====
-- `bt_first`, `bt_last`, `bt_next` and `bt_count` on trees of items.
use smcp.Prelude.{
  ℕ, zero, suc, ◌+◌, ◌<◌, ◌≤◌, ◌≡◌, ◌≢◌, refl, sym, ap, subst, ◌∙◌, arith, some, ◌==◌, ==_ne, List,
  [], ◌∷◌, ◌++◌, length, length-append, true, false, ==_iff,
}
use smcp.Tree.{TreeHeap, bt_first, bt_last, climb, bt_next}
use smcp.Tree.Shape.{Shape, leaf, node, size, items, IsTree, Fresh, AreDistinct, AreApart, root_ne}

IsTree-root : (h : TreeHeap) (at p : ℕ) (s : Shape) → IsTree h at p s → at ≢ 0 → h.parent at ≡ p
IsTree-root h at p leaf t ne = absurd (ne t)
IsTree-root h at p (node l x r) t ne = ap h.parent t.0 ∙ t.2

-- The two children of an item differ.
apart_children :
    (h : TreeHeap) (x : ℕ) (l r : Shape)
    → IsTree h (h.lhs x) x l
    → IsTree h (h.rhs x) x r
    → AreApart l r
    → h.lhs x ≢ 0
    → h.lhs x ≢ h.rhs x
apart_children h x leaf r tl tr a ne e = ne tl
apart_children h x (node ll y lr) r tl tr a ne e =
    root_ne h (h.rhs x) x (h.lhs x) r tr (subst (λ z. Fresh z r) (sym tl.0) a.0) (λ z. ne (e ∙ z)) e

-- The first of a list, or a default.
abbrev pub first : ℕ → List ℕ → ℕ
first d [] = d
first d (x ∷ xs) = x

abbrev pub last : ℕ → List ℕ → ℕ
last d [] = d
last d (x ∷ xs) = last x xs

first-append : (d : ℕ) (xs ys : List ℕ) → first d (xs ++ ys) ≡ first (first d ys) xs
first-append d [] ys = refl
first-append d (x ∷ xs) ys = refl

pub last-append : (d : ℕ) (xs ys : List ℕ) → last d (xs ++ ys) ≡ last (last d xs) ys
last-append d [] ys = refl
last-append d (x ∷ xs) ys = last-append x xs ys

pub length-items : (s : Shape) → length (items s) ≡ size s
length-items leaf = refl
length-items (node l x r) =
    omega (arith, length-append (items l) (x ∷ items r), length-items l, length-items r)

module _ (h : TreeHeap) where
  first_here : (fuel at : ℕ) → at ≢ 0 → h.lhs at ≡ 0 → bt_first h (suc fuel) at ≡ some at
  unfolding bt_first
  first_here fuel at ne e = rw (==_ne at 0 ne, e) refl

  first_below :
      (fuel at : ℕ) → at ≢ 0 → h.lhs at ≢ 0 → bt_first h (suc fuel) at ≡ bt_first h fuel (h.lhs at)
  unfolding bt_first
  first_below fuel at ne e = rw (==_ne at 0 ne, ==_ne (h.lhs at) 0 e) refl

  pub bt_first-items :
      (s : Shape) (at p fuel : ℕ)
      → IsTree h at p s
      → size s < fuel
      → bt_first h fuel at ≡ some (first 0 (items s))
  unfolding bt_first
  bt_first-items s at p zero t enough = absurd (omega arith)
  bt_first-items leaf at p (suc fuel) t enough = rw t refl
  bt_first-items (node leaf x r) at p (suc fuel) t enough =
      ap (bt_first h (suc fuel)) t.0 ∙ first_here fuel x t.1 t.3
  bt_first-items (node (node ll y lr) x r) at p (suc fuel) t enough =
      ap (bt_first h (suc fuel)) t.0
      ∙ first_below fuel x t.1 (λ e. t.3.1 (sym t.3.0 ∙ e))
      ∙ bt_first-items (node ll y lr) (h.lhs x) x fuel t.3 (omega arith)
      ∙ ap some (
          first-append 0 (items ll) (y ∷ items lr)
          ∙ sym (first-append (first 0 (x ∷ items r)) (items ll) (y ∷ items lr))
          ∙ sym (first-append 0 (items ll ++ (y ∷ items lr)) (x ∷ items r)))

  last_here : (fuel at : ℕ) → at ≢ 0 → h.rhs at ≡ 0 → bt_last h (suc fuel) at ≡ some at
  unfolding bt_last
  last_here fuel at ne e = rw (==_ne at 0 ne, e) refl

  last_below :
      (fuel at : ℕ) → at ≢ 0 → h.rhs at ≢ 0 → bt_last h (suc fuel) at ≡ bt_last h fuel (h.rhs at)
  unfolding bt_last
  last_below fuel at ne e = rw (==_ne at 0 ne, ==_ne (h.rhs at) 0 e) refl

  pub bt_last-items :
      (s : Shape) (at p fuel : ℕ)
      → IsTree h at p s
      → size s < fuel
      → bt_last h fuel at ≡ some (last 0 (items s))
  unfolding bt_last
  bt_last-items s at p zero t enough = absurd (omega arith)
  bt_last-items leaf at p (suc fuel) t enough = rw t refl
  bt_last-items (node l x leaf) at p (suc fuel) t enough =
      ap (bt_last h (suc fuel)) t.0
      ∙ last_here fuel x t.1 t.4
      ∙ ap some (sym (last-append 0 (items l) (x ∷ [])))
  bt_last-items (node l x (node rl y rr)) at p (suc fuel) t enough =
      ap (bt_last h (suc fuel)) t.0
      ∙ last_below fuel x t.1 (λ e. t.4.1 (sym t.4.0 ∙ e))
      ∙ bt_last-items (node rl y rr) (h.rhs x) x fuel t.4 (omega arith)
      ∙ ap some (
          last-append 0 (items rl) (y ∷ items rr)
          ∙ sym (last-append x (items rl) (y ∷ items rr))
          ∙ sym (last-append 0 (items l) (x ∷ (items rl ++ (y ∷ items rr)))))

  climb_up :
      (fuel at p : ℕ)
      → h.parent at ≡ p
      → p ≢ 0
      → h.rhs p ≡ at
      → climb h h.rhs (suc fuel) at ≡ climb h h.rhs fuel p
  unfolding climb
  climb_up fuel at p e ne r =
      climb_step (==_ne (h.parent at) 0 (λ z. ne (sym e ∙ z)))
        ((==_iff (h.rhs (h.parent at)) at).1 (ap h.rhs e ∙ r))
      ∙ ap (climb h h.rhs fuel) e
    where
      climb_step :
          (h.parent at == 0) ≡ false
          → (h.rhs (h.parent at) == at) ≡ true
          → climb h h.rhs (suc fuel) at ≡ climb h h.rhs fuel (h.parent at)
      climb_step a b = rw (a, b) refl

  climb_stop :
      (fuel at p : ℕ) → h.parent at ≡ p → h.rhs p ≢ at → climb h h.rhs (suc fuel) at ≡ some p
  unfolding climb
  climb_stop fuel at p e ne =
      climb_step (==_ne (h.rhs (h.parent at)) at (λ z. ne (ap h.rhs (sym e) ∙ z))) ∙ ap some e
    where
      climb_step :
          (h.rhs (h.parent at) == at) ≡ false → climb h h.rhs (suc fuel) at ≡ some (h.parent at)
      climb_step a = ground (arith, a)

  -- Each item of the list is followed by the next one, and the last one by `end`.
  abbrev pub Follows : ℕ → List ℕ → ℕ → Type 0
  Follows fuel [] end = Unit
  Follows fuel (x ∷ xs) end = (bt_next h fuel x ≡ some (first end xs)) × Follows fuel xs end

  Follows-append :
      (fuel : ℕ) (xs ys : List ℕ) (end : ℕ)
      → Follows fuel xs (first end ys)
      → Follows fuel ys end
      → Follows fuel (xs ++ ys) end
  Follows-append fuel [] ys end f g = g
  Follows-append fuel (x ∷ xs) ys end f g =
      (f.0 ∙ ap some (sym (first-append end xs ys)), Follows-append fuel xs ys end f.1 g)

  next_up : (fuel x : ℕ) → x ≢ 0 → h.rhs x ≡ 0 → bt_next h fuel x ≡ climb h h.rhs fuel x
  unfolding bt_next
  next_up fuel x ne e = rw (==_ne x 0 ne, e) refl

  next_down : (fuel x : ℕ) → x ≢ 0 → h.rhs x ≢ 0 → bt_next h fuel x ≡ bt_first h fuel (h.rhs x)
  unfolding bt_next
  next_down fuel x ne e = rw (==_ne x 0 ne, ==_ne (h.rhs x) 0 e) refl

  -- The items of a subtree, from which the walk up leads to `end`.
  pub follows :
      (s : Shape) (at p k fuel end : ℕ)
      → IsTree h at p s
      → AreDistinct s
      → (at ≢ 0 → (m : ℕ) → k ≤ m → climb h h.rhs m at ≡ some end)
      → k + size s ≤ fuel
      → Follows fuel (items s) end
  follows leaf at p k fuel end t d up enough = tt
  follows (node l x r) at p k fuel end t d up enough =
      Follows-append fuel (items l) (x ∷ items r) end
        (follows l (h.lhs x) x 1 fuel x t.3 d.3 from_left (omega arith))
        (
          here r t.4 (omega arith) (omega arith),
          follows r (h.rhs x) x (suc k) fuel end t.4 d.4 from_right (omega arith),
        )
    where
      up_here : (m : ℕ) → k ≤ m → climb h h.rhs m x ≡ some end
      up_here m le =
          subst (λ z. climb h h.rhs m z ≡ some end) t.0 (up (λ e. t.1 (sym t.0 ∙ e)) m le)

      from_left : h.lhs x ≢ 0 → (m : ℕ) → 1 ≤ m → climb h h.rhs m (h.lhs x) ≡ some x
      from_left ne zero le = absurd (omega arith)
      from_left ne (suc m) le =
          climb_stop m (h.lhs x) x (IsTree-root h (h.lhs x) x l t.3 ne)
            (λ e. apart_children h x l r t.3 t.4 d.2 ne (sym e))

      from_right : h.rhs x ≢ 0 → (m : ℕ) → suc k ≤ m → climb h h.rhs m (h.rhs x) ≡ some end
      from_right ne zero le = absurd (omega arith)
      from_right ne (suc m) le =
          climb_up m (h.rhs x) x (IsTree-root h (h.rhs x) x r t.4 ne) t.1 refl
          ∙ up_here m (omega arith)

      here :
          (u : Shape)
          → IsTree h (h.rhs x) x u
          → size u < fuel
          → k ≤ fuel
          → bt_next h fuel x ≡ some (first end (items u))
      here leaf tu su ku = next_up fuel x t.1 tu ∙ up_here fuel ku
      here (node a y b) tu su ku =
          next_down fuel x t.1 (λ e. tu.1 (sym tu.0 ∙ e))
          ∙ bt_first-items (node a y b) (h.rhs x) x fuel tu su
          ∙ ap some (
              first-append 0 (items a) (y ∷ items b)
              ∙ sym (first-append end (items a) (y ∷ items b)))
