-- ===== src/Observers/Free.antt =====
-- `free_observer`.
use smcp.Prelude.{ℕ, suc, ◌+◌, ◌≡◌, ◌≢◌, refl, sym, ap, ◌∙◌, arith}
use smcp.Prelude.{Bool, true, false, List, [], ◌∷◌, All, if◌then◌else◌, ==_ne, ==_iff}
use smcp.Observers.{
  Table, Observable, leaves, invalid_access, outside, unlink, unlink_observer, free_observer,
  end_transaction, finish_response, after_loop, max_observers,
}
use smcp.Observers.Links.{IsLinked, AreDistinct, IsLinked-put, before, put-next, IsLinked-agree}

-- The last observer of a list that starts with `i`.
abbrev pub last_of : ℕ → List ℕ → ℕ
last_of i [] = i
last_of i (k ∷ is) = last_of k is

pub last_of-ne : (i k : ℕ) (is : List ℕ) → All (λ j. j ≢ i) (k ∷ is) → last_of k is ≢ i
last_of-ne i k [] h = h.0
last_of-ne i k (n ∷ is) h = last_of-ne i n is h.1

-- The walk of `free_observer` at the end of the list.
unlink-end :
    (table : Table) (prev fuel i : ℕ)
    → (table prev).next ≢ i
    → (table i).next ≡ 0
    → unlink table prev (suc (suc fuel)) (i + 1) ≡ outside
unfolding unlink
unlink-end table prev fuel i ne end =
    rw (before i, ==_ne (i + 1) 0 (omega arith), ==_ne (table prev).next i ne, end) refl

unlink_observer-end :
    (self : Observable) (i first : ℕ)
    → self.first_observer ≡ first + 1
    → first ≢ i
    → (self.table first).next ≢ i
    → (self.table i).next ≡ 0
    → unlink_observer self i ≡ invalid_access
unfolding unlink_observer
unlink_observer-end self i first e ne link end =
    rw (==_ne self.first_observer (i + 1) (omega arith), ==_ne self.first_observer 0 (omega arith))
      (ap (after_loop self i) (
        ap (λ (p : ℕ). unlink self.table p (max_observers + 1) (i + 1)) (omega arith)
        ∙ unlink-end self.table first 7 i link end))

-- An item at the head of a list: its link is the new head.
unlink_observer-head :
    (self : Observable) (i : ℕ) (is : List ℕ)
    → self.first_observer ≡ i + 1
    → self.last_observer ≡ last_of i is + 1
    → AreDistinct (i ∷ is)
    → IsLinked self.table (self.table i).next is
    → (self' : Observable) × (unlink_observer self i ≡ leaves self')
      × IsLinked self'.table self'.first_observer is
unfolding unlink_observer
unlink_observer-head self i [] e last d l = (
  finish_response (record self { first_observer = 0; last_observer = 0 }) i,
  rw ((==_iff self.first_observer (i + 1)).1 e, (==_iff self.last_observer (i + 1)).1 last) refl,
  refl,
)
unlink_observer-head self i (k ∷ is) e last d l = (
  finish_response (record self { first_observer = (self.table i).next }) i,
  rw ((==_iff self.first_observer (i + 1)).1 e, ==_ne self.last_observer (i + 1) other) refl,
  IsLinked-put self.table i (self.table i).next _ (k ∷ is) d.0 l,
)
  where
    other : self.last_observer ≢ i + 1
    other x = last_of-ne i k is d.0 (omega arith)

module _ (self : Observable) (i : ℕ) (has : (self.table i).has_observable ≡ true) where
  abbrev ended : Observable
  ended = end_transaction self i

  kept : (j : ℕ) → (ended.table j).next ≡ (self.table j).next
  kept j = put-next self.table i j (record (self.table i) { active = false }) refl

  calls : free_observer self i ≡ unlink_observer ended i
  unfolding free_observer
  calls =
      ap (λ (b : Bool). if b then unlink_observer ended i else leaves (finish_response self i)) has

-- `free_observer` at the last observer of a list: if it is not the first one, and the first one's
-- link is not by chance the number that the loop compares with, the call reads the table at the
-- index -1.
pub free_observer_end :
    (self : Observable) (i first : ℕ)
    → (self.table i).has_observable ≡ true
    → self.first_observer ≡ first + 1
    → first ≢ i
    → (self.table first).next ≢ i
    → (self.table i).next ≡ 0
    → free_observer self i ≡ invalid_access
free_observer_end self i first has e ne link end =
    calls self i has
    ∙ unlink_observer-end (ended self i has) i first e ne
        (λ x. link (sym (kept self i has first) ∙ x)) (kept self i has i ∙ end)

-- `free_observer` at the first observer of a list, the only one or not: the call ends, and the
-- others are the list.
pub free_observer_head :
    (self : Observable) (i : ℕ) (is : List ℕ)
    → (self.table i).has_observable ≡ true
    → IsLinked self.table self.first_observer (i ∷ is)
    → self.last_observer ≡ last_of i is + 1
    → AreDistinct (i ∷ is)
    → (self' : Observable) × (free_observer self i ≡ leaves self')
      × IsLinked self'.table self'.first_observer is
free_observer_head self i is has l last d =
    let (self', e, l') = unlink_observer-head (ended self i has) i is l.0 last d (
      IsLinked-agree self.table (ended self i has).table _ is (kept self i has)
        (rw (kept self i has i) l.1)) in
    (self', calls self i has ∙ e, l')
