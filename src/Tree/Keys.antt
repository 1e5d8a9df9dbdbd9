-- ===== src/Tree/Keys.antt =====
-- The keys of a search tree: the item of a key, and a change of one item's key.
use smcp.Prelude.{ℕ, ◌<◌, ◌≡◌, ◌≢◌, refl, sym, ap, subst, ◌∙◌, arith, inl, inr, ◌⊎◌}
use smcp.Tree.{below, same, above}
use smcp.Tree.Shape.{Shape, leaf, node, AllOf, AllOf-map, AllOf-zip}
use smcp.Tree.Find.{search, search_below, search_same, search_above, compare-cases}
use smcp.Tree.Ordered.{by_number, IsOrdered}
use smcp.Tree.Remove.{Has}

pub AllOf-Has {ℓ} : (P : ℕ → Type ℓ) (item : ℕ) (s : Shape) → Has item s → AllOf P s → P item
AllOf-Has P item leaf h a = absurd (h refl)
AllOf-Has P item (node l x r) (inl e) a = subst P (sym e) a.0
AllOf-Has P item (node l x r) (inr (inl h)) a = AllOf-Has P item l h a.1
AllOf-Has P item (node l x r) (inr (inr h)) a = AllOf-Has P item r h a.2

-- A search for the key of an item of the tree finds that item.
pub search_self :
    (key : ℕ → ℕ) (item : ℕ) (s : Shape)
    → IsOrdered key s
    → Has item s
    → search (λ n. by_number (key n) (key item)) s ≡ item
search_self key item leaf o h = absurd (h refl)
search_self key item (node l x r) o (inl e) =
    search_same (λ n. by_number (key n) (key item)) l x r (ground (arith, ap key e)) ∙ sym e
search_self key item (node l x r) o (inr (inl h)) =
    search_above (λ n. by_number (key n) (key item)) l x r
      (ground (arith, AllOf-Has (λ y. key y < key x) item l h o.0))
    ∙ search_self key item l o.2 h
search_self key item (node l x r) o (inr (inr h)) =
    search_below (λ n. by_number (key n) (key item)) l x r
      (ground (arith, AllOf-Has (λ y. key x < key y) item r h o.1))
    ∙ search_self key item r o.3 h

-- What a search finds has the key.
pub search-key :
    (key : ℕ → ℕ) (k : ℕ) (s : Shape)
    → search (λ n. by_number (key n) k) s ≢ 0
    → key (search (λ n. by_number (key n) k) s) ≡ k
search-key key k leaf ne = absurd (ne refl)
search-key key k (node l x r) ne = elim (three (key x) k) [
  | inl c ↦
      ap key (search_below (λ n. by_number (key n) k) l x r c)
      ∙ search-key key k r (λ e. ne (search_below (λ n. by_number (key n) k) l x r c ∙ e))
  | inr (inl c) ↦ ap key (search_same (λ n. by_number (key n) k) l x r c) ∙ ground (arith, c)
  | inr (inr c) ↦
      ap key (search_above (λ n. by_number (key n) k) l x r c)
      ∙ search-key key k l (λ e. ne (search_above (λ n. by_number (key n) k) l x r c ∙ e))
]
  where
    three : (a b : ℕ) → (by_number a b ≡ below) ⊎ ((by_number a b ≡ same) ⊎ (by_number a b ≡ above))
    three a b = ground arith

-- Other keys of the same items: the order, and the searches.
pub IsOrdered-agree :
    (key key' : ℕ → ℕ) (s : Shape)
    → AllOf (λ n. key' n ≡ key n) s
    → IsOrdered key s
    → IsOrdered key' s
IsOrdered-agree key key' leaf a o = o
IsOrdered-agree key key' (node l x r) a o = (
  AllOf-map (λ n (e, h). omega (arith, a.0)) l
      (AllOf-zip (λ n. key' n ≡ key n) (λ n. key n < key x) l a.1 o.0),
  AllOf-map (λ n (e, h). omega (arith, a.0)) r
      (AllOf-zip (λ n. key' n ≡ key n) (λ n. key x < key n) r a.2 o.1),
  IsOrdered-agree key key' l a.1 o.2,
  IsOrdered-agree key key' r a.2 o.3,
)

pub search-agree :
    (key key' : ℕ → ℕ) (k : ℕ) (s : Shape)
    → AllOf (λ n. key' n ≡ key n) s
    → search (λ n. by_number (key' n) k) s ≡ search (λ n. by_number (key n) k) s
search-agree key key' k leaf a = refl
search-agree key key' k (node l x r) a = elim (compare-cases (by_number (key x) k)) [
  | inl c ↦
      search_below (λ n. by_number (key' n) k) l x r (ap (λ m. by_number m k) a.0 ∙ c)
      ∙ search-agree key key' k r a.2
      ∙ sym (search_below (λ n. by_number (key n) k) l x r c)
  | inr (inl c) ↦
      search_same (λ n. by_number (key' n) k) l x r (ap (λ m. by_number m k) a.0 ∙ c)
      ∙ sym (search_same (λ n. by_number (key n) k) l x r c)
  | inr (inr c) ↦
      search_above (λ n. by_number (key' n) k) l x r (ap (λ m. by_number m k) a.0 ∙ c)
      ∙ search-agree key key' k l a.1
      ∙ sym (search_above (λ n. by_number (key n) k) l x r c)
]
