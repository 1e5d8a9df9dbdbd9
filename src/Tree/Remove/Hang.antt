-- ===== src/Tree/Remove/Hang.antt =====
-- A right subtree that `bt_remove` hangs on the last item of the left one.
use smcp.Prelude.{ℕ, ◌≡◌, ◌≢◌, refl, sym, ap, subst, ◌∙◌, arith, [], ◌∷◌, ◌++◌}
use smcp.Prelude.Bytes.{store}
use smcp.Tree.{TreeHeap}
use smcp.Tree.Change.{BinaryTree, hang}
use smcp.Tree.Shape.{
  Shape, leaf, node, items, IsTree, AllOf, AllOf-map, AllOf-zip, Fresh, AreDistinct, AreApart,
  AreApart-sym, IsTree-parent, IsTree-frame, root_ne, Same,
}
use smcp.Tree.Walk.{last, last-append}
use smcp.Tree.Remove.{append_right}

abbrev pub last_item : Shape → ℕ
last_item leaf = 0
last_item (node a x leaf) = x
last_item (node a x (node b y c)) = last_item (node b y c)

pub last-items : (s : Shape) → last 0 (items s) ≡ last_item s
last-items leaf = refl
last-items (node a x leaf) = last-append 0 (items a) (x ∷ [])
last-items (node a x (node b y c)) =
    last-append 0 (items a) (x ∷ (items b ++ (y ∷ items c)))
    ∙ last-append x (items b) (y ∷ items c)
    ∙ sym (last-append 0 (items b) (y ∷ items c))
    ∙ last-items (node b y c)

pub AllOf-last_item {ℓ} :
    (P : ℕ → Type ℓ) (a : Shape) (x : ℕ) (b : Shape)
    → AllOf P (node a x b)
    → P (last_item (node a x b))
AllOf-last_item P a x leaf h = h.0
AllOf-last_item P a x (node b y c) h = AllOf-last_item P b y c h.2

-- The links after the right tree of an item hangs on `end`.
pub record IsHung (h k : TreeHeap) (moved end : ℕ) : Type 0 where
  pub lhs : (n : ℕ) → k.lhs n ≡ h.lhs n
  pub rhs : (n : ℕ) → n ≢ end → k.rhs n ≡ h.rhs n
  pub rhs_end : k.rhs end ≡ moved
  pub parent : (n : ℕ) → (moved ≢ 0 → n ≢ moved) → k.parent n ≡ h.parent n
  pub parent_moved : moved ≢ 0 → k.parent moved ≡ end

pub hang-IsHung :
    (t : BinaryTree) (item end : ℕ)
    → t.links.rhs item ≢ 0
    → IsHung t.links (hang t item end).links (t.links.rhs item) end
unfolding store
hang-IsHung t item end ne = record {
  lhs = λ n. refl;
  rhs = λ n other. ground arith;
  rhs_end = ground arith;
  parent = λ n other. ground (arith, other ne);
  parent_moved = λ z. ground arith;
}

module _ (h k : TreeHeap) (moved end q : ℕ) (r : Shape) (hung : IsHung h k moved end)
    (right : IsTree h moved q r) (dr : AreDistinct r) (out : Fresh end r) where
  -- An item of neither end.
  unchanged : (u : Shape) → Fresh end u → AreApart u r → AllOf (Same h k) u
  unchanged u fe a =
      AllOf-map
        (λ n (ne, f).
          (hung.lhs n, hung.rhs n ne, hung.parent n (λ z. root_ne h moved q n r right f z)))
        u (AllOf-zip (λ n. n ≢ end) (λ n. Fresh n r) u fe a)

  moved-IsTree : IsTree k moved end r
  moved-IsTree =
      IsTree-parent h k moved q end r (AllOf-map (λ n ne. (hung.lhs n, hung.rhs n ne)) r out)
        (AllOf-map (λ n ne away. hung.parent n (λ z. away)) r out) hung.parent_moved dr right

  pub hung-IsTree :
      (at p : ℕ) (a : Shape) (x : ℕ) (b : Shape)
      → end ≡ last_item (node a x b)
      → IsTree h at p (node a x b)
      → AreDistinct (node a x b)
      → AreApart (node a x b) r
      → IsTree k at p (append_right (node a x b) r)
  hung-IsTree at p a x leaf e t d ap = (
    t.0,
    t.1,
    hung.parent x (λ z. root_ne h moved q x r right ap.0 z) ∙ t.2,
    subst (λ z. IsTree k z x a) (sym (hung.lhs x))
        (IsTree-frame h k (h.lhs x) x a (unchanged a (subst (λ z. Fresh z a) (sym e) d.0) ap.1)
          t.3),
    subst (λ z. IsTree k z x r) (sym (subst (λ z. k.rhs z ≡ moved) e hung.rhs_end))
        (subst (λ z. IsTree k moved z r) e moved-IsTree),
  )
  hung-IsTree at p a x (node b y c) e t d ap = (
    t.0,
    t.1,
    hung.parent x (λ z. root_ne h moved q x r right ap.0 z) ∙ t.2,
    subst (λ z. IsTree k z x a) (sym (hung.lhs x))
        (IsTree-frame h k (h.lhs x) x a
          (unchanged a
            (subst (λ z. Fresh z a) (sym e)
              (AllOf-last_item (λ z. Fresh z a) b y c (AreApart-sym a (node b y c) d.2)))
            ap.1)
          t.3),
    subst (λ z. IsTree k z x (append_right (node b y c) r))
        (sym (hung.rhs x (λ z. AllOf-last_item (λ w. w ≢ x) b y c d.1 (sym e ∙ sym z))))
        (hung-IsTree (h.rhs x) x b y c e t.4 d.4 ap.2),
  )
