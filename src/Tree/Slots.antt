-- ===== src/Tree/Slots.antt =====
-- The places of the pointers of a tree, what a write changes, and what an operation may change.
use smcp.Prelude.{ℕ, ◌≡◌, ◌≢◌, refl, sym, subst, ◌∙◌, arith, Bool, true, false, ◌==◌, ==_ne}
use smcp.Prelude.Bytes.{store}
use smcp.Tree.Change.{BinaryTree, Slot, root_slot, lhs_of, rhs_of, read, write}
use smcp.Tree.Shape.{Shape, Fresh}

abbrev pub is_lhs : Slot → ℕ → Bool
is_lhs (lhs_of m) n = m == n
is_lhs _ n = false

abbrev pub is_rhs : Slot → ℕ → Bool
is_rhs (rhs_of m) n = m == n
is_rhs _ n = false

abbrev pub is_root : Slot → Bool
is_root root_slot = true
is_root _ = false

-- The place of a tree whose root has the parent `p`, which is outside of the tree.
abbrev pub IsOwned : BinaryTree → Slot → ℕ → Shape → Type 0
IsOwned t root_slot p s = p ≡ 0
IsOwned t (lhs_of n) p s = (n ≡ p) × (p ≢ 0) × Fresh p s × Fresh (t.links.rhs p) s
IsOwned t (rhs_of n) p s = (n ≡ p) × (p ≢ 0) × Fresh p s × Fresh (t.links.lhs p) s

-- An operation at `bt` changes that place, `item` and the items of the tree, and nothing else.
pub record Framed (bt : Slot) (item : ℕ) (s : Shape) (t t' : BinaryTree) : Type 0 where
  pub parent : (n : ℕ) → n ≢ item → Fresh n s → t'.links.parent n ≡ t.links.parent n
  pub lhs : (n : ℕ) → n ≢ item → Fresh n s → is_lhs bt n ≡ false → t'.links.lhs n ≡ t.links.lhs n
  pub rhs : (n : ℕ) → n ≢ item → Fresh n s → is_rhs bt n ≡ false → t'.links.rhs n ≡ t.links.rhs n
  pub root : is_root bt ≡ false → t'.root ≡ t.root

pub Framed-trans :
    (bt : Slot) (item : ℕ) (s s' : Shape) (t t1 t2 : BinaryTree)
    → ((n : ℕ) → Fresh n s → Fresh n s')
    → Framed bt item s t t1
    → Framed bt item s' t1 t2
    → Framed bt item s t t2
Framed-trans bt item s s' t t1 t2 sub f g = record {
  parent = λ n ne fresh. g.parent n ne (sub n fresh) ∙ f.parent n ne fresh;
  lhs = λ n ne fresh w. g.lhs n ne (sub n fresh) w ∙ f.lhs n ne fresh w;
  rhs = λ n ne fresh w. g.rhs n ne (sub n fresh) w ∙ f.rhs n ne fresh w;
  root = λ w. g.root w ∙ f.root w;
}

pub Framed-refl : (bt : Slot) (item : ℕ) (s : Shape) (t : BinaryTree) → Framed bt item s t t
Framed-refl bt item s t = record {
  parent = λ n ne fresh. refl;
  lhs = λ n ne fresh w. refl;
  rhs = λ n ne fresh w. refl;
  root = λ w. refl;
}

pub read-write : (t : BinaryTree) (bt : Slot) (v : ℕ) → read (write t bt v) bt ≡ v
unfolding store
read-write t root_slot v = refl
read-write t (lhs_of n) v = ground arith
read-write t (rhs_of n) v = ground arith

pub write-parent :
    (t : BinaryTree) (bt : Slot) (v n : ℕ) → (write t bt v).links.parent n ≡ t.links.parent n
unfolding store
write-parent t root_slot v n = refl
write-parent t (lhs_of m) v n = refl
write-parent t (rhs_of m) v n = refl

pub write-lhs :
    (t : BinaryTree) (bt : Slot) (v n : ℕ)
    → is_lhs bt n ≡ false
    → (write t bt v).links.lhs n ≡ t.links.lhs n
unfolding store
write-lhs t root_slot v n h = refl
write-lhs t (lhs_of m) v n h = ground arith
write-lhs t (rhs_of m) v n h = refl

pub write-rhs :
    (t : BinaryTree) (bt : Slot) (v n : ℕ)
    → is_rhs bt n ≡ false
    → (write t bt v).links.rhs n ≡ t.links.rhs n
unfolding store
write-rhs t root_slot v n h = refl
write-rhs t (lhs_of m) v n h = refl
write-rhs t (rhs_of m) v n h = ground arith

pub write-root :
    (t : BinaryTree) (bt : Slot) (v : ℕ) → is_root bt ≡ false → (write t bt v).root ≡ t.root
unfolding store
write-root t root_slot v h = cc h
write-root t (lhs_of m) v h = refl
write-root t (rhs_of m) v h = refl

-- Only the parent has the place among its links.
pub owned-is_lhs :
    (t : BinaryTree) (bt : Slot) (p n : ℕ) (s : Shape)
    → IsOwned t bt p s
    → n ≢ p
    → is_lhs bt n ≡ false
owned-is_lhs t root_slot p n s o ne = refl
owned-is_lhs t (lhs_of m) p n s o ne = ==_ne m n (λ e. ne (sym e ∙ o.0))
owned-is_lhs t (rhs_of m) p n s o ne = refl

pub owned-is_rhs :
    (t : BinaryTree) (bt : Slot) (p n : ℕ) (s : Shape)
    → IsOwned t bt p s
    → n ≢ p
    → is_rhs bt n ≡ false
owned-is_rhs t root_slot p n s o ne = refl
owned-is_rhs t (lhs_of m) p n s o ne = refl
owned-is_rhs t (rhs_of m) p n s o ne = ==_ne m n (λ e. ne (sym e ∙ o.0))

pub owned_fresh :
    (t : BinaryTree) (bt : Slot) (p : ℕ) (s : Shape) → IsOwned t bt p s → Fresh 0 s → Fresh p s
owned_fresh t root_slot p s o f = subst (λ z. Fresh z s) (sym o) f
owned_fresh t (lhs_of m) p s o f = o.2
owned_fresh t (rhs_of m) p s o f = o.2
