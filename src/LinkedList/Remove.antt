-- ===== src/LinkedList/Remove.antt =====
-- `ll_remove` and `ll_count` on well-formed lists.
use smcp.Prelude.{ℕ, suc, ◌≡◌, ◌≢◌, refl, sym, subst, ◌∙◌, arith, ==_ne, ==_iff}
use smcp.Prelude.{some, ◌==◌, if◌then◌else◌}
use smcp.Prelude.{List, [], ◌∷◌, ◌++◌, All, length}
use smcp.Prelude.Bytes.{store}
use smcp.LinkedList.{Heap, remove, count}
use smcp.LinkedList.Chain.{Chain, Fresh, Distinct, Chain-frame, Chain-Fresh, All-map, All-zip}

-- The list without an item.
unfoldable pub without : ℕ → List ℕ → List ℕ
without item [] = []
without item (x ∷ xs) = if x == item then xs else x ∷ without item xs

-- The links after `ll_remove`, for an item that is not linked to itself.
module _ (h : Heap) (list item : ℕ) where
  remove-next : (y : ℕ) → y ≢ 0 → y ≢ h.prev item → (remove h list item).0.next y ≡ h.next y
  unfolding remove store
  remove-next y a b = ground arith

  remove-prev :
      (y : ℕ)
      → y ≢ 0
      → h.prev item ≢ item
      → y ≢ h.next item
      → (remove h list item).0.prev y ≡ h.prev y
  unfolding remove store
  remove-prev y a c b = ground arith

  remove-before :
      h.prev item ≢ 0
      → h.next item ≢ h.prev item
      → (remove h list item).0.next (h.prev item) ≡ h.next item
  unfolding remove store
  remove-before a b = ground arith

  remove-behind :
      h.next item ≢ 0 → h.prev item ≢ item → (remove h list item).0.prev (h.next item) ≡ h.prev item
  unfolding remove store
  remove-behind a b = ground arith

  remove-head :
      h.prev item ≢ item → (remove h list item).1 ≡ (if list == item then h.next item else list)
  unfolding remove store
  remove-head a = ground arith

-- `ll_count` of a well-formed list, with fuel for each item and for its end.
pub count-Chain :
    (h : Heap) (p a : ℕ) (xs : List ℕ)
    → Chain h p a xs
    → count h (suc (length xs)) a ≡ some (length xs)
unfolding count
count-Chain h p a [] c = ground arith
count-Chain h p a (x ∷ xs) c =
    rw (==_ne a 0 (λ z. c.1 (sym c.0 ∙ z)), c.0, count-Chain h x (h.next x) xs c.3)

pub All-split {ℓ κ} :
    {A : Type ℓ} (P : A → Type κ) (xs ys : List A) → All P (xs ++ ys) → All P xs × All P ys
All-split P [] ys h = (tt, h)
All-split P (x ∷ xs) ys h = let (a, b) = All-split P xs ys h.1 in ((h.0, a), b)

-- The links of an item to its neighbours, and the items apart from them.
Chain-head : (h : Heap) (p a x : ℕ) (xs : List ℕ) → Chain h p a xs → x ≢ 0 → Fresh x xs → a ≢ x
Chain-head h p a x [] c nx f e = nx (sym e ∙ c)
Chain-head h p a x (y ∷ ys) c nx f e = f.0 (sym c.0 ∙ e)

pub Chain-prev :
    (h : Heap) (p a x item : ℕ) (before after : List ℕ)
    → Chain h p a (before ++ (item ∷ after))
    → p ≢ x
    → Fresh x before
    → h.prev item ≢ x
Chain-prev h p a x item [] after c ne f e = ne (sym c.2 ∙ e)
Chain-prev h p a x item (y ∷ before) after c ne f e =
    Chain-prev h y (h.next y) x item before after c.3 f.0 f.1 e

pub Distinct-before :
    (item : ℕ) (before after : List ℕ) → Distinct (before ++ (item ∷ after)) → Fresh item before
Distinct-before item [] after d = tt
Distinct-before item (x ∷ before) after d = (
  (λ e. (All-split (λ z. z ≢ x) before (item ∷ after) d.0).1.0 (sym e)),
  Distinct-before item before after d.1,
)

-- The first item, or what follows.
abbrev first : ℕ → List ℕ → ℕ
first d [] = d
first d (x ∷ xs) = x

module _ (h : Heap) (list item : ℕ) (loop : h.prev item ≢ item) where
  abbrev removed : Heap
  removed = (remove h list item).0

  behind_item :
      (p a : ℕ) (after : List ℕ)
      → Chain h p a (item ∷ after)
      → Distinct (item ∷ after)
      → Fresh p (item ∷ after)
      → Chain removed p (h.next item) after
  behind_item p a [] c d f = c.3
  behind_item p a (y ∷ ys) c d f = (
    c.3.0,
    c.3.1,
    subst (λ z. removed.prev z ≡ p) c.3.0
        (remove-behind h list item (λ e. c.3.1 (sym c.3.0 ∙ e)) loop ∙ c.2),
    subst (λ z. Chain removed y z ys) (sym (remove-next h list item y c.3.1 (λ e. f.1.0 (e ∙ c.2))))
        (Chain-frame h removed y (h.next y) ys same c.3.3),
  )
    where
      same : All (λ z. (removed.next z ≡ h.next z) × (removed.prev z ≡ h.prev z)) ys
      same =
          All-map
            (λ z (a, (b, e)). (
              remove-next h list item z a (λ q. b (q ∙ c.2)),
              remove-prev h list item z a loop (λ q. e (q ∙ c.3.0)),
            ))
            ys
            (All-zip (λ z. z ≢ 0) (λ z. (z ≢ p) × (z ≢ y)) ys (Chain-Fresh h y (h.next y) ys c.3.3)
              (All-zip (λ z. z ≢ p) (λ z. z ≢ y) ys f.1.1 d.1.0))

  link_before :
      (p a x : ℕ) (before after : List ℕ)
      → Chain h p a (x ∷ (before ++ (item ∷ after)))
      → Fresh x (before ++ (item ∷ after))
      → removed.next x ≡ first (h.next item) before
  link_before p a x [] after c f =
      subst (λ z. removed.next z ≡ h.next item) c.3.2
        (remove-before h list item (λ e. c.1 (sym c.3.2 ∙ e))
          (λ e. Chain-head h item (h.next item) x after c.3.3 c.1 f.1 (e ∙ c.3.2)))
  link_before p a x (y ∷ before) after c f =
      remove-next h list item x c.1 (λ e.
        Chain-prev h y (h.next y) x item before after c.3.3 f.0
          (All-split (λ z. z ≢ x) before (item ∷ after) f.1).0 (sym e))
      ∙ c.3.0

  remove_from :
      (p a : ℕ) (before after : List ℕ)
      → Chain h p a (before ++ (item ∷ after))
      → Distinct (before ++ (item ∷ after))
      → Fresh p (before ++ (item ∷ after))
      → Chain removed p (first (h.next item) before) (before ++ after)
  remove_from p a [] after c d f = behind_item p a after c d f
  remove_from p a (x ∷ before) after c d f = (
    refl,
    c.1,
    remove-prev h list item x c.1 loop (λ e.
          Chain-head h item (h.next item) x after (ending x before c.3) c.1
            (All-split (λ z. z ≢ x) before (item ∷ after) d.0).1.1 (sym e))
        ∙ c.2,
    subst (λ z. Chain removed x z (before ++ after)) (sym (link_before p a x before after c d.0))
        (remove_from x (h.next x) before after c.3 d.1 d.0),
  )
    where
      ending :
          (q : ℕ) (before : List ℕ)
          → Chain h q (h.next q) (before ++ (item ∷ after))
          → Chain h item (h.next item) after
      ending q [] c = c.3
      ending q (y ∷ before) c = ending y before c.3

-- `ll_remove` takes an item out of a well-formed list, wherever it stands, and leaves a well-formed
-- list of the other items in their order.
pub remove_refines :
    (h : Heap) (list item : ℕ) (before after : List ℕ)
    → Chain h 0 list (before ++ (item ∷ after))
    → Distinct (before ++ (item ∷ after))
    → let (k, list') = remove h list item in Chain k 0 list' (before ++ after)
remove_refines h list item before after c d =
    subst (λ a. Chain (remove h list item).0 0 a (before ++ after))
      (sym (remove-head h list item loop ∙ start before c d))
      (remove_from h list item loop 0 list before after c d
        (Chain-Fresh h 0 list (before ++ (item ∷ after)) c))
  where
    nonzero : item ≢ 0
    nonzero =
        (All-split (λ z. z ≢ 0) before (item ∷ after)
          (Chain-Fresh h 0 list (before ++ (item ∷ after)) c)).1.0

    loop : h.prev item ≢ item
    loop =
        Chain-prev h 0 list item item before after c (λ e. nonzero (sym e))
          (Distinct-before item before after d)

    start :
        (before : List ℕ)
        → Chain h 0 list (before ++ (item ∷ after))
        → Distinct (before ++ (item ∷ after))
        → (if list == item then h.next item else list) ≡ first (h.next item) before
    start [] c d = rw ((==_iff list item).1 c.0)
    start (x ∷ before) c d =
        rw
          (==_ne list item
            (λ e. (All-split (λ z. z ≢ x) before (item ∷ after) d.0).1.0 (sym e ∙ c.0)))
          c.0
