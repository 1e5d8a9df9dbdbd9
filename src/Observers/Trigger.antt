-- ===== src/Observers/Trigger.antt =====
-- `smcp_observable_trigger`.
use smcp.Prelude.{
  ◌%◌, ◌^◌, not, ◌&&◌, ◌||◌, ◌==◌, ℕ, zero, suc, ◌+◌, ◌<◌, ◌≤◌, ◌≡◌, ◌≢◌, refl, sym, ap, ◌∙◌, arith,
}
use smcp.Prelude.{Bool, true, false, some, List, [], ◌∷◌, ◌++◌, length, All, if◌then◌else◌, ==_ne}
use native.Mathlib.Decide.{ℕ_discrete}
use smcp.Observers.{
  Observer, Table, Observable, is_other_key, notified, put, trigger_from, observable_trigger,
  max_observers,
}
use smcp.Observers.Links.{IsLinked, before, AreDistinct, put_self, put-ne, put-next, IsLinked-agree}

-- The specification: an event of a key concerns an observer of the same key, and every observer if
-- one of the two is the broadcast key.
abbrev pub is_concerned : ℕ → Observer → Bool
is_concerned key o = o.key == 0xff || (key == 0xff || o.key == key)

-- What an event does to an observer.
abbrev pub after_event : ℕ → Observer → Observer
after_event key o =
    if is_concerned key o then record o { seq = (o.seq + 1) % 2 ^ 32; active = true } else o

-- The body of the loop.
abbrev outcome_of : ℕ → Observer → Observer
outcome_of key o = if is_other_key o key then o else notified o

-- The table after the loop over a list.
unfoldable notify : ℕ → List ℕ → Table → Table
notify key [] table = table
notify key (i ∷ is) table = notify key is (put table i (outcome_of key (table i)))

outcome_of-next : (key : ℕ) (o : Observer) → (outcome_of key o).next ≡ o.next
outcome_of-next key o = of_test (is_other_key o key)
  where
    of_test : (b : Bool) → (if b then o else notified o).next ≡ o.next
    of_test true = refl
    of_test false = refl

put_unchanged : (table : Table) (i : ℕ) → put table i (table i) ≡ table
put_unchanged table i = λ k j. at_index j k
  where
    at_index : (j : ℕ) → put table i (table i) j ≡ table j
    at_index j = elim (ℕ_discrete j i) [
      | yes e ↦ put_self table i j (table i) e ∙ ap table (sym e)
      | no n ↦ put-ne table i j (table i) n
    ]

same_put :
    (table : Table) (key i : ℕ)
    → (if is_other_key (table i) key then table else put table i (notified (table i)))
      ≡ put table i (outcome_of key (table i))
same_put table key i = of_test (is_other_key (table i) key)
  where
    of_test :
        (b : Bool)
        → (if b then table else put table i (notified (table i)))
          ≡ put table i (if b then table i else notified (table i))
    of_test true = sym (put_unchanged table i)
    of_test false = refl

trigger_from-step :
    (key fuel i : ℕ) (table : Table)
    → trigger_from key (suc fuel) (i + 1) table
      ≡ trigger_from key fuel (table i).next (put table i (outcome_of key (table i)))
unfolding trigger_from
trigger_from-step key fuel i table = rw (==_ne (i + 1) 0 (omega arith)) (
    ap
      (λ (j : ℕ).
        trigger_from key fuel (table j).next
          (if is_other_key (table j) key then table else put table j (notified (table j))))
      (before i)
    ∙ ap (trigger_from key fuel (table i).next) (same_put table key i))

trigger_from-notify :
    (key fuel at : ℕ) (is : List ℕ) (table : Table)
    → length is < fuel
    → IsLinked table at is
    → trigger_from key fuel at table ≡ some (notify key is table)
unfolding trigger_from notify
trigger_from-notify key zero at is table hf l = absurd (omega arith)
trigger_from-notify key (suc fuel) at [] table hf l = rw l refl
trigger_from-notify key (suc fuel) at (i ∷ is) table hf l =
    ap (λ (a : ℕ). trigger_from key (suc fuel) a table) l.0
    ∙ trigger_from-step key fuel i table
    ∙ trigger_from-notify key fuel (table i).next is (put table i (outcome_of key (table i)))
        (omega arith)
        (IsLinked-agree table (put table i (outcome_of key (table i))) (table i).next is
          (λ j. put-next table i j (outcome_of key (table i)) (outcome_of-next key (table i))) l.1)

notify-outside :
    (key j : ℕ) (is : List ℕ) (table : Table)
    → All (λ i. i ≢ j) is
    → notify key is table j ≡ table j
unfolding notify
notify-outside key j [] table out = refl
notify-outside key j (i ∷ is) table out =
    notify-outside key j is _ out.1 ∙ put-ne table i j _ (λ e. out.0 (sym e))

All-middle : (i j : ℕ) (earlier behind : List ℕ) → All (λ k. k ≢ i) (earlier ++ j ∷ behind) → j ≢ i
All-middle i j [] behind h = h.0
All-middle i j (k ∷ earlier) behind h = All-middle i j earlier behind h.1

notify-inside :
    (key j : ℕ) (earlier behind : List ℕ) (table : Table)
    → AreDistinct (earlier ++ j ∷ behind)
    → notify key (earlier ++ j ∷ behind) table j ≡ outcome_of key (table j)
unfolding notify
notify-inside key j [] behind table d =
    notify-outside key j behind _ d.0 ∙ put_self table j j _ refl
notify-inside key j (i ∷ earlier) behind table d =
    notify-inside key j earlier behind (put table i (outcome_of key (table i))) d.1
    ∙ ap (outcome_of key)
        (put-ne table i j (outcome_of key (table i)) (All-middle i j earlier behind d.0))

either_way {ℓ} :
    {A : Type ℓ} (a b c : Bool) (x y : A)
    → (if not a && (not b && not c) then x else y) ≡ (if a || (b || c) then y else x)
either_way true b c x y = refl
either_way false true c x y = refl
either_way false false true x y = refl
either_way false false false x y = refl

outcome_of-after_event : (key : ℕ) (o : Observer) → outcome_of key o ≡ after_event key o
outcome_of-after_event key o =
    either_way (o.key == 0xff) (key == 0xff) (o.key == key) o
      (record o { seq = (o.seq + 1) % 2 ^ 32; active = true })

-- `smcp_observable_trigger` ends on every list of at most SMCP_MAX_OBSERVERS different observers.
-- An observer of the list gets one event, with the next sequence number and an active transaction,
-- if its key is the one triggered or one of the two is the broadcast key, and none else; the other
-- observers of the table stay as they are.
pub observable_trigger_lem :
    (self : Observable) (key j : ℕ) (earlier behind : List ℕ)
    → length (earlier ++ j ∷ behind) ≤ max_observers
    → IsLinked self.table self.first_observer (earlier ++ j ∷ behind)
    → AreDistinct (earlier ++ j ∷ behind)
    → (table : Table) × (observable_trigger self key ≡ some table)
      × (table j ≡ after_event key (self.table j))
      × ((i : ℕ) → All (λ k. k ≢ i) (earlier ++ j ∷ behind) → table i ≡ self.table i)
observable_trigger_lem self key j earlier behind short l d = (
  notify key (earlier ++ j ∷ behind) self.table,
  trigger_from-notify key (max_observers + 1) self.first_observer (earlier ++ j ∷ behind) self.table
      (omega arith) l,
  notify-inside key j earlier behind self.table d ∙ outcome_of-after_event key (self.table j),
  λ i out. notify-outside key i (earlier ++ j ∷ behind) self.table out,
)
