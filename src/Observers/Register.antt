-- ===== src/Observers/Register.antt =====
-- `smcp_observable_update` for a new observer.
use smcp.Prelude.{
  ℕ, zero, suc, ◌+◌, ◌<◌, ◌≤◌, ◌≡◌, ◌≢◌, ◌⊎◌, inl, inr, refl, sym, ap, subst, ◌∙◌, arith,
}
use smcp.Prelude.{
  true, false, Option, none, some, List, [], ◌∷◌, ◌++◌, All, ==_ne, ==_iff, Bool-cases,
}
use native.Mathlib.Decide.{ℕ_discrete}
use smcp.Observers.{
  Observer, Table, Observable, put, is_unused, unused_from, append_observer, max_observers,
  find_observer, observable_update, observe, renew, start_response, leaves, Updated,
  get_unused_observer_index,
}
use smcp.Observers.Links.{IsLinked, AreDistinct, IsLinked-agree, put_self, put-ne, put-next}
use smcp.Observers.Free.{last_of, last_of-ne}

-- An index that is found is one of the table's, and its observer is unused.
unused_from-found :
    (table : Table) (left i found : ℕ)
    → unused_from table left i ≡ some found
    → (found < i + left) × (is_unused (table found) ≡ true)
unfolding unused_from
unused_from-found table zero i found e = ground (arith, e)
unused_from-found table (suc left) i found e =
    ground (arith, e, unused_from-found table left (i + 1) found)

-- Where no index is found, no observer is unused.
unused_from-none :
    (table : Table) (left i j : ℕ)
    → unused_from table left i ≡ none
    → i ≤ j
    → j < i + left
    → is_unused (table j) ≡ false
unfolding unused_from
unused_from-none table zero i j e le lt = absurd (omega arith)
unused_from-none table (suc left) i j e le lt = elim (Bool-cases (is_unused (table i))) [
  | inl here ↦ absurd (ground (arith, e, here))
  | inr used ↦ elim (ℕ_discrete i j) [
    | yes same ↦ subst (λ k. is_unused (table k) ≡ false) same used
    | no other ↦
        unused_from-none table left (i + 1) j (ground (arith, e, used)) (omega arith) (omega arith)
  ]
]

-- Where the last link of a list changes, the list goes on.
IsLinked-append :
    (table table' : Table) (first i : ℕ) (is : List ℕ)
    → AreDistinct (first ∷ is)
    → All (λ j. j ≢ i) (first ∷ is)
    → ((j : ℕ) → j ≢ last_of first is → j ≢ i → (table' j).next ≡ (table j).next)
    → (table' (last_of first is)).next ≡ i + 1
    → (table' i).next ≡ 0
    → IsLinked table (table first).next is
    → IsLinked table' (table' first).next (is ++ i ∷ [])
IsLinked-append table table' first i [] d out agree here end l = (here, end)
IsLinked-append table table' first i (k ∷ is) d out agree here end l = (
  agree first (λ p. last_of-ne first k is d.0 (sym p)) out.0 ∙ l.0,
  IsLinked-append table table' k i is d.1 out.1 agree here end l.1,
)

-- The two ends of a list.
abbrev pub AreEnds : Observable → List ℕ → Type 0
AreEnds self [] = (self.first_observer ≡ 0) × (self.last_observer ≡ 0)
AreEnds self (i ∷ is) = (self.first_observer ≡ i + 1) × (self.last_observer ≡ last_of i is + 1)

module _ (table : Table) (first i key : ℕ) (is : List ℕ) where
  abbrev linked : Table
  linked = put table (last_of first is) (record (table (last_of first is)) { next = i + 1 })

  abbrev taken : Table
  taken = put linked i (record (linked i) { key = key; seq = 0; has_observable = true })

  last-ne : All (λ j. j ≢ i) (first ∷ is) → last_of first is ≢ i
  last-ne out = last_of-ne i first is out

  taken-next : (j : ℕ) → (taken j).next ≡ (linked j).next
  taken-next j = put-next linked i j _ refl

  taken-IsLinked :
      AreDistinct (first ∷ is)
      → All (λ j. j ≢ i) (first ∷ is)
      → (table i).next ≡ 0
      → IsLinked table (table first).next is
      → IsLinked taken (taken first).next (is ++ i ∷ [])
  taken-IsLinked d out end l =
      IsLinked-append table taken first i is d out
        (λ j ne other. taken-next j ∙ ap (λ (o : Observer). o.next) (put-ne table _ j _ ne))
        (taken-next _ ∙ ap (λ (o : Observer). o.next) (put_self table _ _ _ refl))
        (taken-next i
          ∙ ap (λ (o : Observer). o.next) (put-ne table _ i _ (λ p. last-ne out (sym p)))
          ∙ end)
        l

-- The call on a list that is not empty, its last observer being `last`.
behind_last : Observable → ℕ → ℕ → ℕ → Observable
behind_last self i key last =
    let linked = put self.table last (record (self.table last) { next = i + 1 }) in
    record {
      table = put linked i (record (linked i) { key = key; seq = 0; has_observable = true });
      first_observer = self.first_observer;
      last_observer = i + 1;
    }

append_observer-behind_last :
    (self : Observable) (i key last : ℕ)
    → self.last_observer ≡ last + 1
    → append_observer self i key ≡ behind_last self i key last
unfolding append_observer behind_last
append_observer-behind_last self i key last e =
    rw (==_ne self.last_observer 0 (omega arith)) (ap (behind_last self i key) (omega arith))

-- Where the new observer goes: behind the last one.
append_observer-append :
    (self : Observable) (i key : ℕ) (is : List ℕ)
    → AreEnds self is
    → IsLinked self.table self.first_observer is
    → AreDistinct is
    → All (λ j. j ≢ i) is
    → (self.table i).next ≡ 0
    → let self' = append_observer self i key in
      IsLinked self'.table self'.first_observer (is ++ i ∷ []) × (self'.last_observer ≡ i + 1)
unfolding append_observer behind_last
append_observer-append self i key [] ends l d out end =
    rw ((==_iff self.last_observer 0).1 ends.1) ((refl, put-next self.table i i _ refl ∙ end), refl)
append_observer-append self i key (first ∷ is) ends l d out end =
    subst
      (λ s. IsLinked s.table s.first_observer (first ∷ is ++ i ∷ []) × (s.last_observer ≡ i + 1))
      (sym (append_observer-behind_last self i key (last_of first is) ends.1))
      ((ends.0, taken-IsLinked self.table first i key is d out end l.1), refl)

start-next :
    (table : Table) (i remote : ℕ) (request : Option ℕ) (j : ℕ)
    → (start_response table i remote request j).next ≡ (table j).next
unfolding start_response
start-next table i remote none j = refl
start-next table i remote (some n) j = put-next table i j _ refl

append-seq : (self : Observable) (i key : ℕ) → ((append_observer self i key).table i).seq ≡ 0
unfolding append_observer
append-seq self i key = ap (λ (o : Observer). o.seq) (put_self _ i i _ refl)

unused-next : (o : Observer) → is_unused o ≡ true → o.next ≡ 0
unused-next o e = ground (arith, e)

used-ne :
    (table : Table) (i : ℕ) (is : List ℕ)
    → is_unused (table i) ≡ true
    → All (λ j. is_unused (table j) ≡ false) is
    → All (λ j. j ≢ i) is
used-ne table i [] e h = tt
used-ne table i (j ∷ is) e h = (apart, used-ne table i is e h.1)
  where
    apart : j ≢ i
    apart p = cc (e, h.0, ap (λ (k : ℕ). is_unused (table k)) p)

module _ (self : Observable) (key remote : ℕ) (request : Option ℕ) (is : List ℕ) where
  -- What the call does for a new observer.
  abbrev pub Registered : Updated → Type 0
  Registered out =
      (((j : ℕ) → j < max_observers → is_unused (self.table j) ≡ false)
        × (out ≡ (leaves self, none)))
      ⊎ ((i : ℕ) × (self' : Observable) × (i < max_observers)
          × (is_unused (self.table i) ≡ true)
          × (out ≡ (leaves self', some 0))
          × IsLinked self'.table self'.first_observer (is ++ i ∷ [])
          × (self'.last_observer ≡ i + 1))

  abbrev added : Option ℕ → Updated
  added o = elim o [
    | none ↦ (leaves self, none)
    | some i ↦ renew (append_observer self i key) i remote request
  ]

  calls :
      find_observer self.table key remote (max_observers + 1) self.first_observer ≡ some 0
      → observable_update self true true key remote request
        ≡ added (get_unused_observer_index self.table)
  unfolding observable_update observe
  calls found = rw found refl

  added-Registered :
      (o : Option ℕ)
      → AreEnds self is
      → IsLinked self.table self.first_observer is
      → AreDistinct is
      → All (λ j. is_unused (self.table j) ≡ false) is
      → get_unused_observer_index self.table ≡ o
      → Registered (added o)
  unfolding renew
  added-Registered none ends l d used e =
      inl (
        (λ j lt. unused_from-none self.table max_observers 0 j e (omega arith) (omega arith)),
        refl,
      )
  added-Registered (some i) ends l d used e =
      let (inside, unused) = unused_from-found self.table max_observers 0 i e in
      let (linked, last) =
        append_observer-append self i key is ends l d (used-ne self.table i is unused used)
          (unused-next (self.table i) unused) in
      inr (
        i,
        record (append_observer self i key) {
          table = start_response (append_observer self i key).table i remote request;
        },
        inside,
        unused,
        ap
            (λ (n : ℕ). (
              leaves (record (append_observer self i key) {
                table = start_response (append_observer self i key).table i remote request;
              }),
              some n,
            ))
            (append-seq self i key),
        IsLinked-agree (append_observer self i key).table
            (start_response (append_observer self i key).table i remote request)
            (append_observer self i key).first_observer (is ++ i ∷ [])
            (start-next (append_observer self i key).table i remote request) linked,
        last,
      )

-- `smcp_observable_update`, for a request with an observe option from a new observer: if an
-- observer of the table is unused, one that is becomes the last of the list, and the request gets an
-- observe option with the sequence number 0; only where none is unused, nothing changes and there
-- is no observe option.
pub observable_update_new :
    (self : Observable) (key remote : ℕ) (request : Option ℕ) (is : List ℕ)
    → AreEnds self is
    → IsLinked self.table self.first_observer is
    → AreDistinct is
    → All (λ j. is_unused (self.table j) ≡ false) is
    → find_observer self.table key remote (max_observers + 1) self.first_observer ≡ some 0
    → Registered self key remote request is (observable_update self true true key remote request)
observable_update_new self key remote request is ends l d used found =
    rw (calls self key remote request is found) (
      added-Registered self key remote request is (get_unused_observer_index self.table) ends l d
        used refl)
