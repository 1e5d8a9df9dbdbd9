-- ===== src/Tree/Shape.antt =====
-- What a heap holds as a tree.
use smcp.Prelude.{ℕ, suc, ◌+◌, ◌≡◌, ◌≢◌, sym, subst, ◌∙◌, List, [], ◌∷◌, ◌++◌}
use smcp.Tree.{TreeHeap}

-- A tree of items.
pub data Shape : Type 0 where
  leaf : Shape
  node : Shape → ℕ → Shape → Shape

-- The items of a tree, in order.
abbrev pub items : Shape → List ℕ
items leaf = []
items (node l x r) = items l ++ (x ∷ items r)

abbrev pub size : Shape → ℕ
size leaf = 0
size (node l x r) = suc (size l + size r)

-- The tree at `at`, whose root has the parent `p` (0 for none).
abbrev pub IsTree : TreeHeap → ℕ → ℕ → Shape → Type 0
IsTree h at p leaf = at ≡ 0
IsTree h at p (node l x r) =
    (at ≡ x) × (x ≢ 0) × (h.parent x ≡ p) × IsTree h (h.lhs x) x l × IsTree h (h.rhs x) x r

abbrev pub AllOf {ℓ} : (ℕ → Type ℓ) → Shape → Type ℓ
AllOf P leaf = Unit
AllOf P (node l x r) = P x × AllOf P l × AllOf P r

-- `y` is not an item of the tree.
abbrev pub Fresh : ℕ → Shape → Type 0
Fresh y s = AllOf (λ x. x ≢ y) s

abbrev pub AreApart : Shape → Shape → Type 0
AreApart s t = AllOf (λ y. Fresh y t) s

-- No item stands twice in the tree.
abbrev pub AreDistinct : Shape → Type 0
AreDistinct leaf = Unit
AreDistinct (node l x r) = Fresh x l × Fresh x r × AreApart l r × AreDistinct l × AreDistinct r

pub AllOf-map {ℓ κ} :
    {P : ℕ → Type ℓ} {Q : ℕ → Type κ} → ((x : ℕ) → P x → Q x) → (s : Shape) → AllOf P s → AllOf Q s
AllOf-map f leaf a = tt
AllOf-map f (node l x r) a = (f x a.0, AllOf-map f l a.1, AllOf-map f r a.2)

pub AllOf-zip {ℓ κ} :
    (P : ℕ → Type ℓ) (Q : ℕ → Type κ) (s : Shape) → AllOf P s → AllOf Q s → AllOf (λ x. P x × Q x) s
AllOf-zip P Q leaf a b = tt
AllOf-zip P Q (node l x r) a b = ((a.0, b.0), AllOf-zip P Q l a.1 b.1, AllOf-zip P Q r a.2 b.2)

pub apart_root : (s l r : Shape) (x : ℕ) → AreApart s (node l x r) → Fresh x s
apart_root s l r x a = AllOf-map (λ y f e. f.0 (sym e)) s a

pub apart_left : (s l r : Shape) (x : ℕ) → AreApart s (node l x r) → AreApart s l
apart_left s l r x a = AllOf-map (λ y f. f.1) s a

pub apart_right : (s l r : Shape) (x : ℕ) → AreApart s (node l x r) → AreApart s r
apart_right s l r x a = AllOf-map (λ y f. f.2) s a

pub AreApart-leaf : (s : Shape) → AreApart s leaf
AreApart-leaf leaf = tt
AreApart-leaf (node l x r) = (tt, AreApart-leaf l, AreApart-leaf r)

pub AreApart-node :
    (s l r : Shape) (x : ℕ) → Fresh x s → AreApart s l → AreApart s r → AreApart s (node l x r)
AreApart-node s l r x f a b =
    AllOf-map (λ y (n, (c, d)). ((λ e. n (sym e)), c, d)) s
      (AllOf-zip (λ y. y ≢ x) (λ y. Fresh y l × Fresh y r) s f
        (AllOf-zip (λ y. Fresh y l) (λ y. Fresh y r) s a b))

pub AreApart-sym : (s t : Shape) → AreApart s t → AreApart t s
AreApart-sym leaf t a = AreApart-leaf t
AreApart-sym (node l x r) t a =
    AreApart-node t l r x a.0 (AreApart-sym l t a.1) (AreApart-sym r t a.2)

pub IsTree-Fresh : (h : TreeHeap) (at p : ℕ) (s : Shape) → IsTree h at p s → Fresh 0 s
IsTree-Fresh h at p leaf t = tt
IsTree-Fresh h at p (node l x r) t =
    (t.1, IsTree-Fresh h (h.lhs x) x l t.3, IsTree-Fresh h (h.rhs x) x r t.4)

-- The same links at an item.
abbrev pub Same : TreeHeap → TreeHeap → ℕ → Type 0
Same h k n = (k.lhs n ≡ h.lhs n) × (k.rhs n ≡ h.rhs n) × (k.parent n ≡ h.parent n)

-- Items whose links do not change stay a tree.
pub IsTree-frame :
    (h k : TreeHeap) (at p : ℕ) (s : Shape) → AllOf (Same h k) s → IsTree h at p s → IsTree k at p s
IsTree-frame h k at p leaf same t = t
IsTree-frame h k at p (node l x r) same t = (
  t.0,
  t.1,
  same.0.2 ∙ t.2,
  subst (λ a. IsTree k a x l) (sym same.0.0) (IsTree-frame h k (h.lhs x) x l same.1 t.3),
  subst (λ a. IsTree k a x r) (sym same.0.1) (IsTree-frame h k (h.rhs x) x r same.2 t.4),
)

-- A tree whose root is given another parent, and the links of whose items are kept.
pub IsTree-parent :
    (h k : TreeHeap) (at p q : ℕ) (s : Shape)
    → AllOf (λ n. (k.lhs n ≡ h.lhs n) × (k.rhs n ≡ h.rhs n)) s
    → AllOf (λ n. n ≢ at → k.parent n ≡ h.parent n) s
    → (at ≢ 0 → k.parent at ≡ q)
    → AreDistinct s
    → IsTree h at p s
    → IsTree k at q s
IsTree-parent h k at p q leaf links parents new d t = t
IsTree-parent h k at p q (node l x r) links parents new d t = (
  t.0,
  t.1,
  subst (λ z. k.parent z ≡ q) t.0 (new (λ e. t.1 (sym t.0 ∙ e))),
  subst (λ a. IsTree k a x l) (sym links.0.0)
      (IsTree-frame h k (h.lhs x) x l (kept l links.1 parents.1 d.0) t.3),
  subst (λ a. IsTree k a x r) (sym links.0.1)
      (IsTree-frame h k (h.rhs x) x r (kept r links.2 parents.2 d.1) t.4),
)
  where
    kept :
        (u : Shape)
        → AllOf (λ n. (k.lhs n ≡ h.lhs n) × (k.rhs n ≡ h.rhs n)) u
        → AllOf (λ n. n ≢ at → k.parent n ≡ h.parent n) u
        → Fresh x u
        → AllOf (Same h k) u
    kept u a b f =
        AllOf-map (λ n ((c, c'), (e, g)). (c, c', e (λ z. g (z ∙ t.0)))) u
          (AllOf-zip (λ n. (k.lhs n ≡ h.lhs n) × (k.rhs n ≡ h.rhs n))
            (λ n. (n ≢ at → k.parent n ≡ h.parent n) × (n ≢ x)) u a
            (AllOf-zip (λ n. n ≢ at → k.parent n ≡ h.parent n) (λ n. n ≢ x) u b f))

-- The root of a tree, or none, is not in a tree apart from it.
pub IsTree-apart :
    (h : TreeHeap) (at p : ℕ) (s t : Shape)
    → IsTree h at p s
    → AreApart s t
    → Fresh 0 t
    → Fresh at t
IsTree-apart h at p leaf t tree a f = subst (λ z. Fresh z t) (sym tree) f
IsTree-apart h at p (node l x r) t tree a f = subst (λ z. Fresh z t) (sym tree.0) a.0

-- What is not in the tree is not its root.
pub root_ne :
    (h : TreeHeap) (at p n : ℕ) (s : Shape) → IsTree h at p s → Fresh n s → at ≢ 0 → n ≢ at
root_ne h at p n leaf tree f ne e = ne tree
root_ne h at p n (node l x r) tree f ne e = f.0 (sym tree.0 ∙ sym e)
