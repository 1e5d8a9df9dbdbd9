-- ===== src/Tree/Find.antt =====
-- `bt_find` on trees of items, alone and after `bt_insert`.
use smcp.Prelude.{
  ℕ, zero, suc, ◌<◌, ◌≡◌, ◌≢◌, refl, sym, ap, ◌∙◌, arith, some, ==_ne, ◌⊎◌, inl, inr,
}
use smcp.Tree.{TreeHeap, BtCompareResult, below, same, above, bt_find}
use smcp.Tree.Shape.{Shape, leaf, node, size, IsTree}

-- The item that a comparison leads to, or 0.
abbrev pub search : (ℕ → BtCompareResult) → Shape → ℕ
search compare leaf = 0
search compare (node l x r) = elim (compare x) [
  | below ↦ search compare r
  | same ↦ x
  | above ↦ search compare l
]

pub compare-cases : (c : BtCompareResult) → (c ≡ below) ⊎ (c ≡ same) ⊎ (c ≡ above)
compare-cases below = inl refl
compare-cases same = inr (inl refl)
compare-cases above = inr (inr refl)

module _ (compare : ℕ → BtCompareResult) (l : Shape) (x : ℕ) (r : Shape) where
  pub search_below : compare x ≡ below → search compare (node l x r) ≡ search compare r
  search_below c = rw (search, c) refl

  pub search_same : compare x ≡ same → search compare (node l x r) ≡ x
  search_same c = rw (search, c) refl

  pub search_above : compare x ≡ above → search compare (node l x r) ≡ search compare l
  search_above c = rw (search, c) refl

module _ (h : TreeHeap) (compare : ℕ → BtCompareResult) (fuel at : ℕ) (ne : at ≢ 0) where
  find_below :
      compare at ≡ below → bt_find h compare (suc fuel) at ≡ bt_find h compare fuel (h.rhs at)
  unfolding bt_find
  find_below c = rw (==_ne at 0 ne, c) refl

  find_same : compare at ≡ same → bt_find h compare (suc fuel) at ≡ some at
  unfolding bt_find
  find_same c = rw (==_ne at 0 ne, c) refl

  find_above :
      compare at ≡ above → bt_find h compare (suc fuel) at ≡ bt_find h compare fuel (h.lhs at)
  unfolding bt_find
  find_above c = rw (==_ne at 0 ne, c) refl

pub bt_find-search :
    (h : TreeHeap) (compare : ℕ → BtCompareResult) (s : Shape) (at p fuel : ℕ)
    → IsTree h at p s
    → size s < fuel
    → bt_find h compare fuel at ≡ some (search compare s)
unfolding bt_find
bt_find-search h compare s at p zero tree enough = absurd (omega arith)
bt_find-search h compare leaf at p (suc fuel) tree enough = rw tree refl
bt_find-search h compare (node l x r) at p (suc fuel) tree enough =
    ap (bt_find h compare (suc fuel)) tree.0 ∙ elim (compare-cases (compare x)) [
      | inl c ↦
          find_below h compare fuel x tree.1 c
          ∙ bt_find-search h compare r (h.rhs x) x fuel tree.4 (omega arith)
          ∙ ap some (sym (search_below compare l x r c))
      | inr (inl c) ↦
          find_same h compare fuel x tree.1 c ∙ ap some (sym (search_same compare l x r c))
      | inr (inr c) ↦
          find_above h compare fuel x tree.1 c
          ∙ bt_find-search h compare l (h.lhs x) x fuel tree.3 (omega arith)
          ∙ ap some (sym (search_above compare l x r c))
    ]
