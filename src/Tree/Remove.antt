-- ===== src/Tree/Remove.antt =====
-- `bt_remove`: the trees of items without one item, and the links that it changes.
pub mod Hang
pub mod Place
pub mod Here
pub mod Inside
pub mod Refines
use smcp.Prelude.{
  ℕ, zero, suc, ◌+◌, ◌<◌, ◌≤◌, ◌≡◌, ◌≢◌, refl, sym, ap, subst, ◌∙◌, arith, Bool, true, false, ◌==◌,
  if◌then◌else◌, ==_ne, ==_refl, ==_iff, List, [], ◌∷◌, ◌++◌, append_assoc, ◌⊎◌, inl, inr,
}
use native.Mathlib.Decide.{ℕ_discrete}
use smcp.Tree.Shape.{
  Shape, leaf, node, size, items, AllOf, AllOf-map, AllOf-zip, Fresh, AreDistinct, AreApart,
  AreApart-sym, AreApart-node,
}
use smcp.Tree.Ordered.{IsOrdered}

-- The right tree hung on the last item of the left one.
abbrev pub append_right : Shape → Shape → Shape
append_right leaf r = r
append_right (node a x b) r = node a x (append_right b r)

abbrev pub without : ℕ → Shape → Shape
without item leaf = leaf
without item (node l x r) =
    if x == item then append_right l r else node (without item l) x (without item r)

-- The list without an item.
abbrev pub list_without : ℕ → List ℕ → List ℕ
list_without item [] = []
list_without item (x ∷ xs) = if x == item then list_without item xs else x ∷ list_without item xs

abbrev pub Has : ℕ → Shape → Type 0
Has item leaf = item ≢ item
Has item (node l x r) = (item ≡ x) ⊎ (Has item l ⊎ Has item r)

pub items-append_right : (l r : Shape) → items (append_right l r) ≡ items l ++ items r
items-append_right leaf r = refl
items-append_right (node a x b) r =
    ap (λ ys. items a ++ (x ∷ ys)) (items-append_right b r)
    ∙ sym (append_assoc (items a) (x ∷ items b) (items r))

pub AllOf-append_right {ℓ} :
    (P : ℕ → Type ℓ) (l r : Shape) → AllOf P l → AllOf P r → AllOf P (append_right l r)
AllOf-append_right P leaf r a b = b
AllOf-append_right P (node c x d) r a b = (a.0, a.1, AllOf-append_right P d r a.2 b)

pub append_right-AreDistinct :
    (l r : Shape) → AreDistinct l → AreDistinct r → AreApart l r → AreDistinct (append_right l r)
append_right-AreDistinct leaf r d e a = e
append_right-AreDistinct (node u x v) r d e a = (
  d.0,
  AllOf-append_right (λ y. y ≢ x) v r d.1 a.0,
  AreApart-sym (append_right v r) u
      (AllOf-append_right (λ y. Fresh y u) v r (AreApart-sym u v d.2) (AreApart-sym u r a.1)),
  d.3,
  append_right-AreDistinct v r d.4 e a.2,
)

pub append_right-IsOrdered :
    (key : ℕ → ℕ) (x : ℕ) (l r : Shape)
    → AllOf (λ y. key y < key x) l
    → AllOf (λ y. key x < key y) r
    → IsOrdered key l
    → IsOrdered key r
    → IsOrdered key (append_right l r)
append_right-IsOrdered key x leaf r a b o q = q
append_right-IsOrdered key x (node u y v) r a b o q = (
  o.0,
  AllOf-append_right (λ z. key y < key z) v r o.1 (AllOf-map (λ z h. omega (arith, a.0)) r b),
  o.2,
  append_right-IsOrdered key x v r a.2 b o.3 q,
)

pub AllOf-without {ℓ} :
    (P : ℕ → Type ℓ) (item : ℕ) (s : Shape) → AllOf P s → AllOf P (without item s)
AllOf-without P item leaf a = a
AllOf-without P item (node l x r) a =
    elim (x == item)
      as (λ c. AllOf P (if c then append_right l r else node (without item l) x (without item r))) [
        | true ↦ AllOf-append_right P l r a.1 a.2
        | false ↦ (a.0, AllOf-without P item l a.1, AllOf-without P item r a.2)
      ]

pub without-IsOrdered :
    (key : ℕ → ℕ) (item : ℕ) (s : Shape) → IsOrdered key s → IsOrdered key (without item s)
without-IsOrdered key item leaf o = o
without-IsOrdered key item (node l x r) o =
    elim (x == item)
      as (λ c.
        IsOrdered key (if c then append_right l r else node (without item l) x (without item r))) [
          | true ↦ append_right-IsOrdered key x l r o.0 o.1 o.2 o.3
          | false ↦ (
            AllOf-without (λ y. key y < key x) item l o.0,
            AllOf-without (λ y. key x < key y) item r o.1,
            without-IsOrdered key item l o.2,
            without-IsOrdered key item r o.3,
          )
        ]

pub without-AreDistinct : (item : ℕ) (s : Shape) → AreDistinct s → AreDistinct (without item s)
without-AreDistinct item leaf d = d
without-AreDistinct item (node l x r) d =
    elim (x == item)
      as (λ c.
        AreDistinct (if c then append_right l r else node (without item l) x (without item r))) [
          | true ↦ append_right-AreDistinct l r d.3 d.4 d.2
          | false ↦ (
            AllOf-without (λ y. y ≢ x) item l d.0,
            AllOf-without (λ y. y ≢ x) item r d.1,
            AllOf-without (λ y. Fresh y (without item r)) item l
                (AllOf-map (λ y f. AllOf-without (λ z. z ≢ y) item r f) l d.2),
            without-AreDistinct item l d.3,
            without-AreDistinct item r d.4,
          )
        ]

pub without_fresh : (item : ℕ) (s : Shape) → Fresh item s → without item s ≡ s
without_fresh item leaf f = refl
without_fresh item (node l x r) f =
    rw (without, ==_ne x item f.0)
      (ap (λ l'. node l' x (without item r)) (without_fresh item l f.1)
        ∙ ap (node l x) (without_fresh item r f.2))

-- The item is no longer in the tree.
pub Fresh-without : (item : ℕ) (s : Shape) → AreDistinct s → Fresh item (without item s)
Fresh-without item leaf d = tt
Fresh-without item (node l x r) d = elim (ℕ_discrete x item) [
  | yes e ↦
      rw (without, (==_iff x item).1 e)
        (AllOf-append_right (λ y. y ≢ item) l r (subst (λ z. Fresh z l) e d.0)
          (subst (λ z. Fresh z r) e d.1))
  | no ne ↦ rw (without, ==_ne x item ne) (ne, Fresh-without item l d.3, Fresh-without item r d.4)
]

size-append_right : (l r : Shape) → size (append_right l r) ≡ size l + size r
size-append_right leaf r = omega arith
size-append_right (node a x b) r = omega (arith, size-append_right b r)

pub size-without : (item : ℕ) (s : Shape) → size (without item s) ≤ size s
size-without item leaf = omega arith
size-without item (node l x r) =
    ground (arith, size-append_right l r, size-without item l, size-without item r)

list_without-append :
    (item : ℕ) (xs ys : List ℕ)
    → list_without item (xs ++ ys) ≡ list_without item xs ++ list_without item ys
list_without-append item [] ys = refl
list_without-append item (x ∷ xs) ys = ground (arith, list_without-append item xs ys)

pub list_without_fresh :
    (item : ℕ) (s : Shape) → Fresh item s → list_without item (items s) ≡ items s
list_without_fresh item leaf f = refl
list_without_fresh item (node l x r) f =
    list_without-append item (items l) (x ∷ items r)
    ∙ rw (list_without_fresh item l f.1, ==_ne x item f.0)
        (ap (λ ys. items l ++ (x ∷ ys)) (list_without_fresh item r f.2))

pub items-without :
    (item : ℕ) (s : Shape) → AreDistinct s → items (without item s) ≡ list_without item (items s)
items-without item leaf d = refl
items-without item (node l x r) d = elim (ℕ_discrete x item) [
  | yes e ↦
      ap items (without_here e)
      ∙ items-append_right l r
      ∙ ap (λ ys. ys ++ items r) (sym (list_without_fresh item l (subst (λ z. Fresh z l) e d.0)))
      ∙ ap (λ ys. list_without item (items l) ++ ys)
          (sym (list_without_fresh item r (subst (λ z. Fresh z r) e d.1)) ∙ sym (skipped e))
      ∙ sym (list_without-append item (items l) (x ∷ items r))
  | no ne ↦
      ap items (without_other ne)
      ∙ ap (λ ys. ys ++ (x ∷ items (without item r))) (items-without item l d.3)
      ∙ ap (λ ys. list_without item (items l) ++ (x ∷ ys)) (items-without item r d.4)
      ∙ ap (λ ys. list_without item (items l) ++ ys) (sym (kept ne))
      ∙ sym (list_without-append item (items l) (x ∷ items r))
]
  where
    without_here : x ≡ item → without item (node l x r) ≡ append_right l r
    without_here e = rw (without, (==_iff x item).1 e) refl

    without_other : x ≢ item → without item (node l x r) ≡ node (without item l) x (without item r)
    without_other ne = rw (without, ==_ne x item ne) refl

    skipped : x ≡ item → list_without item (x ∷ items r) ≡ list_without item (items r)
    skipped e = rw (list_without, (==_iff x item).1 e) refl

    kept : x ≢ item → list_without item (x ∷ items r) ≡ x ∷ list_without item (items r)
    kept ne = rw (list_without, ==_ne x item ne) refl
