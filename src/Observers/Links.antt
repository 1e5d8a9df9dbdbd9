-- ===== src/Observers/Links.antt =====
-- The list of the observers of an observable, and their number.
use smcp.Prelude.{ℕ, zero, suc, ◌+◌, ◌-◌, ◌<◌, ◌≤◌, ◌≡◌, ◌≢◌, refl, sym, ap, ◌∙◌, arith}
use smcp.Prelude.{Bool, true, false, some, List, [], ◌∷◌, length, All, if◌then◌else◌}
use smcp.Prelude.{==_ne, ==_iff}
use native.Mathlib.Decide.{ℕ_discrete}
use smcp.Observers.{
  Observer, Table, Observable, is_other_key, count_from, observer_count, max_observers, put,
}

-- The indices of the list that starts at `at`.
abbrev pub IsLinked : Table → ℕ → List ℕ → Type 0
IsLinked table at [] = at ≡ 0
IsLinked table at (i ∷ is) = (at ≡ i + 1) × IsLinked table (table i).next is

-- No index stands twice in the list.
abbrev pub AreDistinct : List ℕ → Type 0
AreDistinct [] = Unit
AreDistinct (i ∷ is) = All (λ j. j ≢ i) is × AreDistinct is

pub put_self : (table : Table) (i j : ℕ) (o : Observer) → j ≡ i → put table i o j ≡ o
unfolding put
put_self table i j o e = rw ((==_iff j i).1 e) refl

pub put-ne : (table : Table) (i j : ℕ) (o : Observer) → j ≢ i → put table i o j ≡ table j
unfolding put
put-ne table i j o ne = rw (==_ne j i ne) refl

pub put-next :
    (table : Table) (i j : ℕ) (o : Observer)
    → o.next ≡ (table i).next
    → (put table i o j).next ≡ (table j).next
put-next table i j o same = elim (ℕ_discrete j i) [
  | yes e ↦
      ap (λ (x : Observer). x.next) (put_self table i j o e)
      ∙ same
      ∙ ap (λ (k : ℕ). (table k).next) (sym e)
  | no n ↦ ap (λ (x : Observer). x.next) (put-ne table i j o n)
]

-- The links of a list are those of its items.
pub IsLinked-agree :
    (table table' : Table) (at : ℕ) (is : List ℕ)
    → ((j : ℕ) → (table' j).next ≡ (table j).next)
    → IsLinked table at is
    → IsLinked table' at is
IsLinked-agree table table' at [] agree l = l
IsLinked-agree table table' at (i ∷ is) agree l =
    (l.0, rw (agree i) (IsLinked-agree table table' (table i).next is agree l.1))

-- An item that is not in the list.
pub IsLinked-put :
    (table : Table) (k at : ℕ) (o : Observer) (is : List ℕ)
    → All (λ j. j ≢ k) is
    → IsLinked table at is
    → IsLinked (put table k o) at is
IsLinked-put table k at o [] out l = l
IsLinked-put table k at o (i ∷ is) out l =
    (l.0, rw (put-ne table k i o out.0) (IsLinked-put table k (table i).next o is out.1 l.1))

-- How many observers of the list a key concerns.
abbrev pub concerned : Table → ℕ → List ℕ → ℕ
concerned table key [] = 0
concerned table key (i ∷ is) =
    if is_other_key (table i) key then concerned table key is else concerned table key is + 1

pub before : (i : ℕ) → i + 1 - 1 ≡ i
before i = omega arith

count_from-step :
    (table : Table) (key fuel i count : ℕ)
    → count_from table key (suc fuel) (i + 1) count
      ≡ count_from table key fuel
          (table i).next
          (if is_other_key (table i) key then count else count + 1)
unfolding count_from
count_from-step table key fuel i count = rw (==_ne (i + 1) 0 (omega arith)) (
    ap
      (λ (j : ℕ).
        count_from table key fuel (table j).next
          (if is_other_key (table j) key then count else count + 1))
      (before i))

added : (b : Bool) (n m : ℕ) → (if b then n else n + 1) + m ≡ n + (if b then m else m + 1)
added true n m = refl
added false n m = omega arith

count_from-concerned :
    (table : Table) (key fuel at count : ℕ) (is : List ℕ)
    → length is < fuel
    → IsLinked table at is
    → count_from table key fuel at count ≡ some (count + concerned table key is)
unfolding count_from
count_from-concerned table key zero at count is hf l = absurd (omega arith)
count_from-concerned table key (suc fuel) at count [] hf l = rw l (ap some (omega arith))
count_from-concerned table key (suc fuel) at count (i ∷ is) hf l =
    ap (λ (a : ℕ). count_from table key (suc fuel) a count) l.0
    ∙ count_from-step table key fuel i count
    ∙ count_from-concerned table key fuel (table i).next _ is (omega arith) l.1
    ∙ ap some (added (is_other_key (table i) key) count (concerned table key is))

-- `smcp_observable_observer_count` ends on every list of at most SMCP_MAX_OBSERVERS observers, and
-- counts those that the key concerns: those of the same key, and all for the broadcast key.
pub observer_count_lem :
    (self : Observable) (key : ℕ) (is : List ℕ)
    → length is ≤ max_observers
    → IsLinked self.table self.first_observer is
    → observer_count self key ≡ some (concerned self.table key is)
observer_count_lem self key is short l =
    count_from-concerned self.table key (max_observers + 1) self.first_observer 0 is (omega arith) l
    ∙ ap some (omega arith)
