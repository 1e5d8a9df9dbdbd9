-- ===== src/Tests/Observers.antt =====
-- A table with two or three observers, for the theorems on observers.
use smcp.Prelude.{ℕ, ◌≡◌, ◌≢◌, refl, arith, true, false, some, [], ◌∷◌, ◌++◌, All, get_or}
use smcp.Observers.{
  Observer, Table, Observable, invalid_access, observable_update, observable_trigger, find_observer,
  free_observer,
}
use smcp.Observers.Register.{Registered, observable_update_new}
use smcp.Observers.Trigger.{after_event, observable_trigger_lem}
use smcp.Observers.Free.{free_observer_end}

abbrev observer : ℕ → ℕ → Observer
observer next key = record {
  has_observable = true;
  next = next;
  key = key;
  seq = 4;
  request_len = 20;
  remote = 9;
  active = false;
}

abbrev blank : Observer
blank = record {
  has_observable = false;
  next = 0;
  key = 0;
  seq = 0;
  request_len = 0;
  remote = 0;
  active = false;
}

-- The observers 2, 0 and 3, in this order.
abbrev three : Table
three i = get_or (observer 4 1 ∷ blank ∷ observer 1 7 ∷ observer 0 7 ∷ []) i blank

abbrev list_of_three : Observable
list_of_three = record { table = three; first_observer = 3; last_observer = 4 }

observable_trigger_lem_example :
    (table : Table) × (observable_trigger list_of_three 1 ≡ some table)
    × (table 0 ≡ after_event 1 (three 0))
    × ((i : ℕ) → All (λ k. k ≢ i) ((2 ∷ []) ++ 0 ∷ 3 ∷ []) → table i ≡ three i)
observable_trigger_lem_example =
    observable_trigger_lem list_of_three 1 0 (2 ∷ []) (3 ∷ []) (omega arith)
      (refl, (refl, (refl, refl)))
      (
        ((λ e. absurd (omega arith)), ((λ e. absurd (omega arith)), tt)),
        (((λ e. absurd (omega arith)), tt), (tt, tt)),
      )

free_observer_end_example : free_observer list_of_three 3 ≡ invalid_access
free_observer_end_example =
    free_observer_end list_of_three 3 2 refl refl (λ e. absurd (omega arith))
      (λ e. absurd (omega arith)) refl

not_found : find_observer three 5 8 9 3 ≡ some 0
unfolding find_observer
not_found = refl

observable_update_new_example :
    Registered list_of_three 5 8
      (some 30)
      (2 ∷ 0 ∷ 3 ∷ [])
      (observable_update list_of_three true true 5 8 (some 30))
observable_update_new_example =
    observable_update_new list_of_three 5 8 (some 30) (2 ∷ 0 ∷ 3 ∷ []) (refl, refl)
      (refl, (refl, (refl, refl)))
      (
        ((λ e. absurd (omega arith)), ((λ e. absurd (omega arith)), tt)),
        (((λ e. absurd (omega arith)), tt), (tt, tt)),
      )
      (refl, (refl, (refl, tt))) not_found
