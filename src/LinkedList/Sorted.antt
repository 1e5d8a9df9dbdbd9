-- ===== src/LinkedList/Sorted.antt =====
-- `ll_sorted_insert` and insertion into a list.
use smcp.Prelude.{ℕ, zero, suc, ◌<◌, ◌≡◌, ◌≢◌, ◌⊎◌, inl, inr, refl, sym, ap, subst, ◌∙◌, arith}
use smcp.Prelude.{Bool, false, some, ◌==◌, if◌then◌else◌, Bool-cases, ==_ne, ==_iff}
use smcp.Prelude.{List, [], ◌∷◌, All, length}
use smcp.Prelude.Bytes.{store}
use smcp.LinkedList.{Heap, insert, insert_after, prepend, sorted_insert_at, sorted_insert}
use smcp.LinkedList.Chain.{Chain, Fresh, Distinct, Chain-frame, Chain-Fresh, All-map, All-zip}

-- The specification: behind every item that the new one is not less than.
unfoldable pub add_sorted : (ℕ → ℕ → Bool) → ℕ → List ℕ → List ℕ
add_sorted ge item [] = item ∷ []
add_sorted ge item (x ∷ xs) = if ge item x then x ∷ add_sorted ge item xs else item ∷ x ∷ xs

-- The links after `ll_insert`.
module _ (h : Heap) (x item : ℕ) (apart : x ≢ item) (fresh : h.prev x ≢ item) (pos : item ≢ 0) where
  insert-item :
      ((insert h x item).next item ≡ x)
      × ((insert h x item).prev item ≡ h.prev x)
      × ((insert h x item).prev x ≡ item)
  unfolding insert store
  insert-item = ground arith

  insert-before : h.prev x ≢ 0 → (insert h x item).next (h.prev x) ≡ item
  unfolding insert store
  insert-before ne = ground arith

  insert-next : (y : ℕ) → y ≢ item → y ≢ h.prev x → (insert h x item).next y ≡ h.next y
  unfolding insert store
  insert-next y a b = ground arith

  insert-prev : (y : ℕ) → y ≢ item → y ≢ x → (insert h x item).prev y ≡ h.prev y
  unfolding insert store
  insert-prev y a b = ground arith

-- The links after `ll_insert_after` behind the last item.
module _ (h : Heap) (x item : ℕ) (apart : x ≢ item) (last : h.next x ≡ 0) where
  after-item :
      ((insert_after h x item).next x ≡ item)
      × ((insert_after h x item).next item ≡ 0)
      × ((insert_after h x item).prev item ≡ x)
  unfolding insert_after store
  after-item = ground arith

  after-next : (y : ℕ) → y ≢ item → y ≢ x → (insert_after h x item).next y ≡ h.next y
  unfolding insert_after store
  after-next y a b = ground arith

  after-prev : (y : ℕ) → y ≢ item → (insert_after h x item).prev y ≡ h.prev y
  unfolding insert_after store
  after-prev y a = ground arith

-- What an insertion leaves behind the item `p`: the new items, and all else as it was.
pub record Placed (h : Heap) (p item : ℕ) (xs ys : List ℕ) (k : Heap) (head : ℕ) : Type 0 where
  pub chain : Chain k p head ys
  pub linked : p ≢ 0 → k.next p ≡ head
  pub back : p ≢ item → p ≢ 0 → k.prev p ≡ h.prev p
  pub frame :
      (y : ℕ) → y ≢ item → y ≢ p → Fresh y xs → (k.next y ≡ h.next y) × (k.prev y ≡ h.prev y)

module _ (ge : ℕ → ℕ → Bool) (h : Heap) (item : ℕ) (pos : item ≢ 0) where
  insert-Placed :
      (p x : ℕ) (xs : List ℕ)
      → Chain h p x (x ∷ xs)
      → Distinct (x ∷ xs)
      → Fresh item (x ∷ xs)
      → Fresh p (x ∷ xs)
      → p ≢ item
      → Placed h p item (x ∷ xs) (item ∷ x ∷ xs) (insert h x item) item
  insert-Placed p x xs c d f fp ne = record {
    chain = (refl, pos, facts.1 ∙ c.2, (facts.0, c.1, facts.2, rest));
    linked = λ np.
        subst (λ q. (insert h x item).next q ≡ item) c.2
          (insert-before h x item f.0 fresh pos (λ z. np (sym c.2 ∙ z)));
    back = λ a b. insert-prev h x item f.0 fresh pos p a (λ e. fp.0 (sym e));
    frame = λ y a b g. (
      insert-next h x item f.0 fresh pos y a (λ e. b (e ∙ c.2)),
      insert-prev h x item f.0 fresh pos y a (λ e. g.0 (sym e)),
    );
  }
    where
      fresh : h.prev x ≢ item
      fresh e = ne (sym c.2 ∙ e)

      facts :
          ((insert h x item).next item ≡ x)
          × ((insert h x item).prev item ≡ h.prev x)
          × ((insert h x item).prev x ≡ item)
      facts = insert-item h x item f.0 fresh pos

      same :
          All
            (λ y. ((insert h x item).next y ≡ h.next y) × ((insert h x item).prev y ≡ h.prev y))
            xs
      same =
          All-map
            (λ y (a, (b, e)). (
              insert-next h x item f.0 fresh pos y a (λ z. e (z ∙ c.2)),
              insert-prev h x item f.0 fresh pos y a b,
            ))
            xs
            (All-zip (λ y. y ≢ item) (λ y. (y ≢ x) × (y ≢ p)) xs f.1
              (All-zip (λ y. y ≢ x) (λ y. y ≢ p) xs d.0 fp.1))

      rest : Chain (insert h x item) x ((insert h x item).next x) xs
      rest =
          subst (λ b. Chain (insert h x item) x b xs)
            (sym (insert-next h x item f.0 fresh pos x f.0 (λ e. fp.0 (e ∙ c.2))))
            (Chain-frame h (insert h x item) x (h.next x) xs same c.3)

  after-Placed :
      (p x : ℕ)
      → Chain h p x (x ∷ [])
      → Fresh item (x ∷ [])
      → Fresh p (x ∷ [])
      → p ≢ item
      → (p ≢ 0 → h.next p ≡ x)
      → Placed h p item (x ∷ []) (x ∷ item ∷ []) (insert_after h x item) x
  after-Placed p x c f fp ne before = record {
    chain = (refl, c.1, after-prev h x item f.0 c.3 x f.0 ∙ c.2, (facts.0, pos, facts.2, facts.1));
    linked = λ np. after-next h x item f.0 c.3 p ne (λ e. fp.0 (sym e)) ∙ before np;
    back = λ a b. after-prev h x item f.0 c.3 p a;
    frame = λ y a b g.
        (after-next h x item f.0 c.3 y a (λ e. g.0 (sym e)), after-prev h x item f.0 c.3 y a);
  }
    where
      facts :
          ((insert_after h x item).next x ≡ item)
          × ((insert_after h x item).next item ≡ 0)
          × ((insert_after h x item).prev item ≡ x)
      facts = after-item h x item f.0 c.3

  behind-Placed :
      (p x y : ℕ) (xs ys : List ℕ) (k : Heap) (head : ℕ)
      → Chain h p x (x ∷ y ∷ xs)
      → Distinct (x ∷ y ∷ xs)
      → Fresh item (x ∷ y ∷ xs)
      → Fresh p (x ∷ y ∷ xs)
      → p ≢ item
      → (p ≢ 0 → h.next p ≡ x)
      → Placed h x item (y ∷ xs) ys k head
      → Placed h p item (x ∷ y ∷ xs) (x ∷ ys) k x
  behind-Placed p x y xs ys k head c d f fp ne before r = record {
    chain =
        (refl, c.1, r.back f.0 c.1 ∙ c.2, subst (λ a. Chain k x a ys) (sym (r.linked c.1)) r.chain);
    linked = λ np. (r.frame p ne (λ e. fp.0 (sym e)) fp.1).0 ∙ before np;
    back = λ a b. (r.frame p ne (λ e. fp.0 (sym e)) fp.1).1;
    frame = λ z a b g. r.frame z a (λ e. g.0 (sym e)) g.1;
  }

  -- `list` is the first item, or none of those from `x` on.
  abbrev Starts : ℕ → ℕ → ℕ → List ℕ → Type 0
  Starts list p x xs = ((list ≡ x) × (p ≡ 0)) ⊎ ((p ≢ 0) × Fresh list (x ∷ xs))

  abbrev Inserted : ℕ → ℕ → ℕ → ℕ → List ℕ → Type 0
  Inserted fuel list p x xs =
      (k : Heap) × (head : ℕ) × (sorted_insert_at ge h list item fuel x
        ≡ some (k, if p == 0 then head else list))
      × Placed h p item (x ∷ xs) (add_sorted ge item (x ∷ xs)) k head

  head_of : (list p x : ℕ) (xs : List ℕ) → Starts list p x xs → (if p == 0 then x else list) ≡ list
  head_of list p x xs (inl (e, z)) = rw ((==_iff p 0).1 z) (sym e)
  head_of list p x xs (inr (np, g)) = rw (==_ne p 0 np)

  Starts-behind :
      (list p x y : ℕ) (xs : List ℕ)
      → x ≢ 0
      → Fresh x (y ∷ xs)
      → Starts list p x (y ∷ xs)
      → Starts list x y xs
  Starts-behind list p x y xs nx g (inl (e, z)) = inr (nx, subst (λ l. Fresh l (y ∷ xs)) (sym e) g)
  Starts-behind list p x y xs nx g (inr (np, f)) = inr (nx, f.1)

  stops :
      (fuel list p x : ℕ) (xs : List ℕ)
      → ge item x ≡ false
      → Chain h p x (x ∷ xs)
      → Distinct (x ∷ xs)
      → Fresh item (x ∷ xs)
      → Fresh p (x ∷ xs)
      → p ≢ item
      → Starts list p x xs
      → Inserted (suc fuel) list p x xs
  unfolding sorted_insert_at add_sorted prepend
  stops fuel list p x xs less c d f fp ne start =
      (insert h x item, item, found start, rw less (insert-Placed p x xs c d f fp ne))
    where
      found :
          Starts list p x xs
          → sorted_insert_at ge h list item (suc fuel) x
            ≡ some (insert h x item, if p == 0 then item else list)
      found (inl (e, z)) =
          rw
            (
              less,
              (==_iff x list).1 (sym e),
              (==_iff p 0).1 z,
              ==_ne list 0 (λ q. c.1 (sym e ∙ q)),
              e,
            )
            refl
      found (inr (np, g)) = rw (less, ==_ne x list g.0, ==_ne p 0 np) refl

  insert_from :
      (fuel list p x : ℕ) (xs : List ℕ)
      → length xs < fuel
      → Chain h p x (x ∷ xs)
      → Distinct (x ∷ xs)
      → Fresh item (x ∷ xs)
      → Fresh p (x ∷ xs)
      → p ≢ item
      → (p ≢ 0 → h.next p ≡ x)
      → Starts list p x xs
      → Inserted fuel list p x xs
  unfolding sorted_insert_at add_sorted
  insert_from zero list p x xs hf c d f fp ne before start = absurd (omega arith)
  insert_from (suc fuel) list p x [] hf c d f fp ne before start = elim (Bool-cases (ge item x)) [
    | inr less ↦ stops fuel list p x [] less c d f fp ne start
    | inl more ↦ (
      insert_after h x item,
      x,
      rw (more, (==_iff (h.next x) 0).1 c.3)
          (ap (λ (l : ℕ). some (insert_after h x item, l)) (sym (head_of list p x [] start))),
      rw more (after-Placed p x c f fp ne before),
    )
  ]
  insert_from (suc fuel) list p x (y ∷ xs) hf c d f fp ne before start =
      elim (Bool-cases (ge item x)) [
        | inr less ↦ stops fuel list p x (y ∷ xs) less c d f fp ne start
        | inl more ↦
            let (k, head, found, r) =
              insert_from fuel list x y xs (omega arith) (refl, c.3.1, c.3.2, c.3.3) d.1 f.1 d.0 f.0
                (λ z. c.3.0) (Starts-behind list p x y xs c.1 d.0 start) in
            (
              k,
              x,
              rw
                  (
                    more,
                    ==_ne (h.next x) 0 (λ z. c.3.1 (sym c.3.0 ∙ z)),
                    c.3.0,
                    found,
                    ==_ne x 0 c.1,
                  )
                  (ap (λ (l : ℕ). some (k, l)) (sym (head_of list p x (y ∷ xs) start))),
              rw more (behind-Placed p x y xs _ k head c d f fp ne before r),
            )
      ]

not_empty :
    (ge : ℕ → ℕ → Bool) (fuel : ℕ) (h : Heap) (list item : ℕ)
    → list ≢ 0
    → sorted_insert ge fuel h list item ≡ sorted_insert_at ge h list item fuel list
unfolding sorted_insert
not_empty ge fuel h list item ne = rw (==_ne list 0 ne)

-- The links of the items outside of the list are as before.
pub record Kept (h : Heap) (item : ℕ) (xs : List ℕ) (k : Heap) : Type 0 where
  pub next : (y : ℕ) → y ≢ 0 → y ≢ item → Fresh y xs → k.next y ≡ h.next y
  pub prev : (y : ℕ) → y ≢ 0 → y ≢ item → Fresh y xs → k.prev y ≡ h.prev y

-- `ll_sorted_insert` puts an item that is in no list into a well-formed list: the call ends, and
-- leaves a well-formed list that is the old one with the item behind every item that it does not
-- compare less than, up to the first one that it does; the links of all other items are kept.
pub sorted_insert_refines :
    (ge : ℕ → ℕ → Bool) (h : Heap) (list item : ℕ) (xs : List ℕ)
    → item ≢ 0
    → h.next item ≡ 0
    → h.prev item ≡ 0
    → Chain h 0 list xs
    → Distinct xs
    → Fresh item xs
    → (k : Heap) × (head : ℕ) × (sorted_insert ge (length xs) h list item ≡ some (k, head))
      × Chain k 0 head (add_sorted ge item xs)
      × Kept h item xs k
unfolding add_sorted
sorted_insert_refines ge h list item [] pos hn hp c d f = (
  h,
  item,
  unfold sorted_insert in rw ((==_iff list 0).1 c),
  (refl, pos, hp, hn),
  record { next = λ y a b g. refl; prev = λ y a b g. refl },
)
sorted_insert_refines ge h list item (x ∷ xs) pos hn hp c d f =
    let (k, head, found, r) =
      insert_from ge h item pos (suc (length xs)) list 0 x xs (omega arith) (refl, c.1, c.2, c.3) d
        f (Chain-Fresh h 0 list (x ∷ xs) c) (λ e. pos (sym e)) (λ np. absurd (np refl))
        (inl (c.0, refl)) in
    (
      k,
      head,
      not_empty ge (suc (length xs)) h list item (λ z. c.1 (sym c.0 ∙ z))
          ∙ ap (λ l. sorted_insert_at ge h list item (suc (length xs)) l) c.0
          ∙ found,
      r.chain,
      record { next = λ y a b g. (r.frame y b a g).0; prev = λ y a b g. (r.frame y b a g).1 },
    )
