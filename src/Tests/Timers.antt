-- ===== src/Tests/Timers.antt =====
-- Concrete lists and timers, for the theorems on src/smcp/ll.h and src/smcp/smcp-timer.c.
use smcp.Prelude.{ℕ, ◌≡◌, refl, arith, Bool, some, [], ◌∷◌, ◌==◌, leb, if◌then◌else◌}
use smcp.LinkedList.{Heap, sorted_insert, remove}
use smcp.LinkedList.Chain.{Chain}
use smcp.LinkedList.Sorted.{add_sorted, Kept, sorted_insert_refines}
use smcp.LinkedList.Remove.{remove_refines}
use smcp.Timer.{Timeval, Timers}

-- The items 1 and 3, in that order.
abbrev links : Heap
links = record { next = λ a. if a == 1 then 3 else 0; prev = λ a. if a == 3 then 1 else 0 }

abbrev ge : ℕ → ℕ → Bool
ge a b = leb b a

sorted_insert_refines_example :
    (k : Heap) × (head : ℕ) × (sorted_insert ge 2 links 1 2 ≡ some (k, head))
    × Chain k 0 head (add_sorted ge 2 (1 ∷ 3 ∷ []))
    × Kept links 2 (1 ∷ 3 ∷ []) k
sorted_insert_refines_example =
    sorted_insert_refines ge links 1 2 (1 ∷ 3 ∷ []) (omega arith) refl refl
      (refl, (omega arith), refl, (refl, (omega arith), refl, refl)) ((omega arith, tt), (tt, tt))
      (omega arith, (omega arith, tt))

remove_refines_example : let (k, list') = remove links 1 3 in Chain k 0 list' (1 ∷ [])
remove_refines_example =
    remove_refines links 1 3 (1 ∷ []) []
      (refl, (omega arith), refl, (refl, (omega arith), refl, refl)) ((omega arith, tt), (tt, tt))

abbrev now : Timeval
now = record { tv_sec = 10; tv_usec = 999000 }

-- Timer 1 fires at second 5, timer 3 at second 20.
abbrev timers : Timers
timers = record {
  links = links;
  timer = λ a. record {
    fire_date = record { tv_sec = if a == 1 then 5 else 20; tv_usec = 0 };
    context = a;
    callback = some 7;
    cancel = some 8;
  };
  timers = 1;
}
