-- ===== src/Tree/Ordered.antt =====
-- Trees in the order of their keys: the insertion of `bt_insert` as one into an ordered list.
use smcp.Prelude.{
  ℕ, ◌<◌, ◌≡◌, refl, sym, ap, subst, ◌∙◌, arith, ltb, lt→ltb, inl, inr, if◌then◌else◌, List, [],
  ◌∷◌, ◌++◌, All,
}
use smcp.Tree.{BtCompareResult, below, same, above}
use smcp.Tree.Shape.{Shape, leaf, node, items, AllOf, AllOf-map}
use smcp.Tree.Insert.{insert_item, insert_below, insert_same, insert_above}
use smcp.Tree.Find.{compare-cases}

-- How two numbers compare, and two items by a number that each has.
abbrev pub by_number : ℕ → ℕ → BtCompareResult
by_number a b = if ltb b a then above else if ltb a b then below else same

abbrev pub by_key : (ℕ → ℕ) → ℕ → ℕ → BtCompareResult
by_key key a b = by_number (key a) (key b)

abbrev pub IsOrdered : (ℕ → ℕ) → Shape → Type 0
IsOrdered key leaf = Unit
IsOrdered key (node l x r) =
    AllOf (λ y. key y < key x) l × AllOf (λ y. key x < key y) r × IsOrdered key l × IsOrdered key r

pub All-append {ℓ} : (P : ℕ → Type ℓ) (xs ys : List ℕ) → All P xs → All P ys → All P (xs ++ ys)
All-append P [] ys b c = c
All-append P (z ∷ zs) ys b c = (b.0, All-append P zs ys b.1 c)

pub All-items {ℓ} : (P : ℕ → Type ℓ) (s : Shape) → AllOf P s → All P (items s)
All-items P leaf a = tt
All-items P (node l x r) a =
    All-append P (items l) (x ∷ items r) (All-items P l a.1) (a.0, All-items P r a.2)

module _ (key : ℕ → ℕ) (item : ℕ) where
  -- The item in the place of its key in an ordered list, instead of one that has the same key.
  abbrev pub put_ordered : List ℕ → List ℕ
  put_ordered [] = item ∷ []
  put_ordered (x ∷ xs) =
      if ltb (key x) (key item)
      then x ∷ put_ordered xs
      else if ltb (key item) (key x)
      then item ∷ (x ∷ xs)
      else item ∷ xs

  put-append_above :
      (xs ys : List ℕ)
      → All (λ y. key y < key item) xs
      → put_ordered (xs ++ ys) ≡ xs ++ put_ordered ys
  put-append_above [] ys a = refl
  put-append_above (x ∷ xs) ys a = ground (arith, put-append_above xs ys a.1)

  put-append_below :
      (xs : List ℕ) (y : ℕ) (ys : List ℕ)
      → key item < key y
      → put_ordered (xs ++ (y ∷ ys)) ≡ put_ordered xs ++ (y ∷ ys)
  put-append_below [] y ys a = ground arith
  put-append_below (x ∷ xs) y ys a = ground (arith, put-append_below xs y ys a)

  put_behind : (x : ℕ) (xs : List ℕ) → key x < key item → put_ordered (x ∷ xs) ≡ x ∷ put_ordered xs
  put_behind x xs h = rw (lt→ltb (key x) (key item) h) refl

  put_instead : (x : ℕ) (xs : List ℕ) → key x ≡ key item → put_ordered (x ∷ xs) ≡ item ∷ xs
  put_instead x xs h = ground arith

module _ (item : ℕ) where
  -- What holds of the item and of the tree holds of the tree with it.
  pub AllOf-insert_item {ℓ} :
      (P : ℕ → Type ℓ) (compare : ℕ → ℕ → BtCompareResult) (s : Shape)
      → P item
      → AllOf P s
      → AllOf P (insert_item compare item s)
  AllOf-insert_item P compare leaf h a = (h, tt, tt)
  AllOf-insert_item P compare (node l x r) h a =
      elim (compare x item)
        as (λ c. AllOf P (elim c [
          | below ↦ node l x (insert_item compare item r)
          | same ↦ node l item r
          | above ↦ node (insert_item compare item l) x r
        ])) [
          | below ↦ (a.0, a.1, AllOf-insert_item P compare r h a.2)
          | same ↦ (h, a.1, a.2)
          | above ↦ (a.0, AllOf-insert_item P compare l h a.1, a.2)
        ]

module _ (key : ℕ → ℕ) (item : ℕ) where
  pub by_key_below : (x : ℕ) → by_key key x item ≡ below → key x < key item
  by_key_below x c = ground (arith, c)

  pub by_key_same : (x : ℕ) → by_key key x item ≡ same → key x ≡ key item
  by_key_same x c = ground (arith, c)

  pub by_key_above : (x : ℕ) → by_key key x item ≡ above → key item < key x
  by_key_above x c = ground (arith, c)

  -- The items in order.
  pub items-insert_item :
      (s : Shape)
      → IsOrdered key s
      → items (insert_item (by_key key) item s) ≡ put_ordered key item (items s)
  items-insert_item leaf o = refl
  items-insert_item (node l x r) o = elim (compare-cases (by_key key x item)) [
    | inl c ↦
        ap items (sym (insert_below (by_key key) item l x r c))
        ∙ ap (λ ys. items l ++ (x ∷ ys)) (items-insert_item r o.3)
        ∙ ap (λ ys. items l ++ ys) (sym (put_behind key item x (items r) (by_key_below x c)))
        ∙ sym (
            put-append_above key item (items l) (x ∷ items r) (
              All-items (λ y. key y < key item) l
                (AllOf-map (λ y h. omega (arith, by_key_below x c)) l o.0)))
    | inr (inl c) ↦
        ap items (sym (insert_same (by_key key) item l x r c))
        ∙ ap (λ ys. items l ++ ys) (sym (put_instead key item x (items r) (by_key_same x c)))
        ∙ sym (
            put-append_above key item (items l) (x ∷ items r) (
              All-items (λ y. key y < key item) l
                (AllOf-map (λ y h. omega (arith, by_key_same x c)) l o.0)))
    | inr (inr c) ↦
        ap items (sym (insert_above (by_key key) item l x r c))
        ∙ ap (λ ys. ys ++ (x ∷ items r)) (items-insert_item l o.2)
        ∙ sym (put-append_below key item (items l) x (items r) (by_key_above x c))
  ]

  pub insert_item-IsOrdered :
      (s : Shape) → IsOrdered key s → IsOrdered key (insert_item (by_key key) item s)
  insert_item-IsOrdered leaf o = (tt, tt, tt, tt)
  insert_item-IsOrdered (node l x r) o = elim (compare-cases (by_key key x item)) [
    | inl c ↦ subst (IsOrdered key) (insert_below (by_key key) item l x r c) (
      o.0,
      AllOf-insert_item item (λ y. key x < key y) (by_key key) r (by_key_below x c) o.1,
      o.2,
      insert_item-IsOrdered r o.3,
    )
    | inr (inl c) ↦ subst (IsOrdered key) (insert_same (by_key key) item l x r c) (
      AllOf-map (λ y h. omega (arith, by_key_same x c)) l o.0,
      AllOf-map (λ y h. omega (arith, by_key_same x c)) r o.1,
      o.2,
      o.3,
    )
    | inr (inr c) ↦ subst (IsOrdered key) (insert_above (by_key key) item l x r c) (
      AllOf-insert_item item (λ y. key y < key x) (by_key key) l (by_key_above x c) o.0,
      o.1,
      insert_item-IsOrdered l o.2,
      o.3,
    )
  ]
