-- ===== src/LinkedList/Chain.antt =====
-- What a heap holds as a list.
use smcp.Prelude.{ℕ, ◌≡◌, ◌≢◌, sym, subst, ◌∙◌, List, [], ◌∷◌, All}
use smcp.LinkedList.{Heap}

-- The items of a list, from `a` on, behind the item `p` (0 for none).
abbrev pub Chain : Heap → ℕ → ℕ → List ℕ → Type 0
Chain h p a [] = a ≡ 0
Chain h p a (x ∷ xs) = (a ≡ x) × (x ≢ 0) × (h.prev x ≡ p) × Chain h x (h.next x) xs

-- `y` is not one of them.
abbrev pub Fresh : ℕ → List ℕ → Type 0
Fresh y xs = All (λ x. x ≢ y) xs

abbrev pub Distinct : List ℕ → Type 0
Distinct [] = Unit
Distinct (x ∷ xs) = Fresh x xs × Distinct xs

-- Items whose links do not change stay a list.
pub Chain-frame :
    (h k : Heap) (p a : ℕ) (xs : List ℕ)
    → All (λ x. (k.next x ≡ h.next x) × (k.prev x ≡ h.prev x)) xs
    → Chain h p a xs
    → Chain k p a xs
Chain-frame h k p a [] same c = c
Chain-frame h k p a (x ∷ xs) same c = (
  c.0,
  c.1,
  same.0.1 ∙ c.2,
  subst (λ b. Chain k x b xs) (sym same.0.0) (Chain-frame h k x (h.next x) xs same.1 c.3),
)

pub All-map {ℓ κ μ} :
    {A : Type ℓ} {P : A → Type κ} {Q : A → Type μ}
    → ((x : A) → P x → Q x)
    → (xs : List A) → All P xs
    → All Q xs
All-map f [] h = tt
All-map f (x ∷ xs) h = (f x h.0, All-map f xs h.1)

pub All-zip {ℓ κ μ} :
    {A : Type ℓ} (P : A → Type κ) (Q : A → Type μ) (xs : List A)
    → All P xs
    → All Q xs
    → All (λ x. P x × Q x) xs
All-zip P Q [] h k = tt
All-zip P Q (x ∷ xs) h k = ((h.0, k.0), All-zip P Q xs h.1 k.1)

-- No item is NULL.
pub Chain-Fresh : (h : Heap) (p a : ℕ) (xs : List ℕ) → Chain h p a xs → Fresh 0 xs
Chain-Fresh h p a [] c = tt
Chain-Fresh h p a (x ∷ xs) c = (c.1, Chain-Fresh h x (h.next x) xs c.3)
