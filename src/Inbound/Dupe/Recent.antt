-- ===== src/Inbound/Dupe/Recent.antt =====
-- The buffer as a list of recent packets, the newest first.
use smcp.Prelude.{ℕ, zero, suc, ◌+◌, ◌-◌, ◌%◌, ◌<◌, ◌≤◌, ◌≡◌, refl, sym, ap, ap₂, ◌∙◌, arith}
use smcp.Prelude.{true, List, [], ◌∷◌, take, length}
use smcp.Prelude.{get_or, set, get_or-set_self, get_or-set_ne}
use smcp.Inbound.Dupe.{Entry, blank, matches, same_bytes}

-- The `n` elements in front of index `j`, going back round the buffer.
unfoldable pub recent : List Entry → ℕ → ℕ → List Entry
recent dupe j zero = []
recent dupe j (suc n) = get_or dupe ((j + 15) % 16) blank ∷ recent dupe ((j + 15) % 16) n

-- Writing at `i` leaves the elements that are reached before `i`.
recent-set :
    (dupe : List Entry) (i j n : ℕ) (e : Entry)
    → i < 16
    → n ≤ (j + 31 - i) % 16
    → recent (set dupe i e) j n ≡ recent dupe j n
unfolding recent
recent-set dupe i j zero e hi hn = refl
recent-set dupe i j (suc n) e hi hn =
    ap₂ ◌∷◌ (get_or-set_ne dupe i ((j + 15) % 16) e blank (λ p. omega arith))
      (recent-set dupe i ((j + 15) % 16) n e hi (omega arith))

recent-take : (dupe : List Entry) (j n k : ℕ) → k ≤ n → take k (recent dupe j n) ≡ recent dupe j k
unfolding recent
recent-take dupe j n zero h = refl
recent-take dupe j zero (suc k) h = absurd (omega arith)
recent-take dupe j (suc n) (suc k) h =
    ap (λ (r : List Entry). get_or dupe ((j + 15) % 16) blank ∷ r)
      (recent-take dupe ((j + 15) % 16) n k (omega arith))

front :
    (dupe : List Entry) (i n : ℕ) (e : Entry)
    → length dupe ≡ 16
    → i < 16
    → n ≤ 15
    → recent (set dupe i e) ((i + 1) % 16) (suc n) ≡ e ∷ recent dupe i n
unfolding recent
front dupe i n e hl hi hn = rw back (
    ap₂ ◌∷◌ (get_or-set_self dupe i e blank (omega arith))
      (recent-set dupe i i n e hi (omega arith)))
  where
    back : ((i + 1) % 16 + 15) % 16 ≡ i
    back = omega arith

-- A new packet goes to the front, and the oldest of the sixteen is forgotten.
pub recent-write :
    (dupe : List Entry) (i : ℕ) (e : Entry)
    → length dupe ≡ 16
    → i < 16
    → recent (set dupe i e) ((i + 1) % 16) 16 ≡ e ∷ take 15 (recent dupe i 16)
recent-write dupe i e hl hi =
    front dupe i 15 e hl hi (omega arith)
    ∙ ap (λ (r : List Entry). e ∷ r) (sym (recent-take dupe i 16 15 (omega arith)))

same_bytes-eq : (xs ys : List ℕ) → same_bytes xs ys ≡ true → xs ≡ ys
unfolding same_bytes
same_bytes-eq [] [] h = refl
same_bytes-eq [] (y ∷ ys) h = cc
same_bytes-eq (x ∷ xs) [] h = cc
same_bytes-eq (x ∷ xs) (y ∷ ys) h = ground (arith, same_bytes-eq xs ys)

same_bytes_refl : (xs : List ℕ) → same_bytes xs xs ≡ true
unfolding same_bytes
same_bytes_refl [] = refl
same_bytes_refl (x ∷ xs) = ground (arith, same_bytes_refl xs)

pub matches-eq : (e f : Entry) → matches e f ≡ true → e ≡ f
unfolding matches
matches-eq e f h = ground (arith, same_bytes-eq e.from f.from)

pub matches_refl : (e : Entry) → matches e e ≡ true
unfolding matches
matches_refl e = ground (arith, same_bytes_refl e.from)
