-- ===== src/LinkedList/Order.antt =====
-- Insertion by a total preorder keeps a list sorted, and its items distinct.
use smcp.Prelude.{ℕ, ◌≡◌, ◌≢◌, sym, inl, inr, Bool, true, false, Bool-cases}
use smcp.Prelude.{List, [], ◌∷◌, ◌++◌, All}
use smcp.LinkedList.Chain.{Fresh, Distinct, All-map}
use smcp.LinkedList.Sorted.{add_sorted}

-- No item is less than one before it.
abbrev pub IsSorted : (ℕ → ℕ → Bool) → List ℕ → Type 0
IsSorted ge [] = Unit
IsSorted ge (x ∷ xs) = All (λ y. ge y x ≡ true) xs × IsSorted ge xs

module _ (ge : ℕ → ℕ → Bool) (item : ℕ) where
  pub All-add_sorted {ℓ} :
      (P : ℕ → Type ℓ) (xs : List ℕ) → P item → All P xs → All P (add_sorted ge item xs)
  unfolding add_sorted
  All-add_sorted P [] p h = (p, tt)
  All-add_sorted P (x ∷ xs) p h = elim (Bool-cases (ge item x)) [
    | inl more ↦ rw more (h.0, All-add_sorted P xs p h.1)
    | inr less ↦ rw less (p, h)
  ]

  pub Distinct-add_sorted :
      (xs : List ℕ) → Fresh item xs → Distinct xs → Distinct (add_sorted ge item xs)
  unfolding add_sorted
  Distinct-add_sorted [] f d = (tt, tt)
  Distinct-add_sorted (x ∷ xs) f d = elim (Bool-cases (ge item x)) [
    | inl more ↦
        rw more
          (All-add_sorted (λ y. y ≢ x) xs (λ e. f.0 (sym e)) d.0, Distinct-add_sorted xs f.1 d.1)
    | inr less ↦ rw less (f, d)
  ]

  pub IsSorted-add_sorted :
      ((a b : ℕ) → ge a b ≡ false → ge b a ≡ true)
      → ((a b c : ℕ) → ge a b ≡ true → ge b c ≡ true → ge a c ≡ true)
      → (xs : List ℕ) → IsSorted ge xs
      → IsSorted ge (add_sorted ge item xs)
  unfolding add_sorted
  IsSorted-add_sorted total trans [] h = (tt, tt)
  IsSorted-add_sorted total trans (x ∷ xs) h = elim (Bool-cases (ge item x)) [
    | inl more ↦
        rw more
          (All-add_sorted (λ y. ge y x ≡ true) xs more h.0, IsSorted-add_sorted total trans xs h.1)
    | inr less ↦
        rw less
          ((total item x less, All-map (λ y p. trans y x item p (total item x less)) xs h.0), h)
  ]

-- What stays of a sorted list of distinct items without one of them.
pub All-without {ℓ} :
    (P : ℕ → Type ℓ) (item : ℕ) (before after : List ℕ)
    → All P (before ++ (item ∷ after))
    → All P (before ++ after)
All-without P item [] after h = h.1
All-without P item (x ∷ before) after h = (h.0, All-without P item before after h.1)

pub IsSorted-without :
    (ge : ℕ → ℕ → Bool) (item : ℕ) (before after : List ℕ)
    → IsSorted ge (before ++ (item ∷ after))
    → IsSorted ge (before ++ after)
IsSorted-without ge item [] after h = h.1
IsSorted-without ge item (x ∷ before) after h = (
  All-without (λ y. ge y x ≡ true) item before after h.0,
  IsSorted-without ge item before after h.1,
)

pub Distinct-without :
    (item : ℕ) (before after : List ℕ)
    → Distinct (before ++ (item ∷ after))
    → Distinct (before ++ after) × Fresh item (before ++ after)
Distinct-without item [] after d = (d.1, d.0)
Distinct-without item (x ∷ before) after d =
    let (rest, fresh) = Distinct-without item before after d.1 in
    (
      (All-without (λ y. y ≢ x) item before after d.0, rest),
      ((λ e. (middle before d.0) (sym e)), fresh),
    )
  where
    middle : (before : List ℕ) → Fresh x (before ++ (item ∷ after)) → item ≢ x
    middle [] f = f.0
    middle (y ∷ before) f = middle before f.1
