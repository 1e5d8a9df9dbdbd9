-- ===== src/Timer/Queue.antt =====
-- The queue of the scheduled timers.
use smcp.Prelude.{ℕ, ◌≡◌, refl, subst, true}
use smcp.Prelude.{==_ne}
use smcp.Prelude.{List, [], ◌∷◌, All}
use smcp.LinkedList.Chain.{Chain, Fresh, Distinct}
use smcp.LinkedList.Order.{IsSorted}
use smcp.Timer.{ℤ, at_least_zero, Timeval, Timer, Timers, convert_cms_to_timeval}
use smcp.Timer.{fires_no_sooner}
use smcp.Timer.{is_not_less, compare_func}
use smcp.Timer.{set_timer}

-- The timers of the queue, the next one to fire first.
pub record IsQueue (self : Timers) (ts : List ℕ) : Type 0 where
  pub chain : Chain self.links 0 self.timers ts
  pub distinct : Distinct ts
  pub sorted : IsSorted (fires_no_sooner self.timer) ts

-- The timer with its new date.
abbrev pub dated : Timeval → Timers → ℕ → ℤ → ℕ → Timer
dated now self t cms =
    set_timer self.timer t
      (record (self.timer t) { fire_date = convert_cms_to_timeval now (at_least_zero cms) })

-- The order is that of the dates.
pub IsSorted-dated :
    (f g : ℕ → Timer) (ts : List ℕ)
    → All (λ y. (f y).fire_date ≡ (g y).fire_date) ts
    → IsSorted (fires_no_sooner f) ts
    → IsSorted (fires_no_sooner g) ts
IsSorted-dated f g [] same s = tt
IsSorted-dated f g (x ∷ ts) same s = (
  subst (λ (u : Timeval). All (λ y. is_not_less (compare_func (g y).fire_date u) ≡ true) ts) same.0
      (no_sooner ts same.1 s.0),
  IsSorted-dated f g ts same.1 s.1,
)
  where
    no_sooner :
        (ys : List ℕ)
        → All (λ y. (f y).fire_date ≡ (g y).fire_date) ys
        → All (λ y. is_not_less (compare_func (f y).fire_date (f x).fire_date) ≡ true) ys
        → All (λ y. is_not_less (compare_func (g y).fire_date (f x).fire_date) ≡ true) ys
    no_sooner [] e h = tt
    no_sooner (y ∷ ys) e h = (
      subst (λ (u : Timeval). is_not_less (compare_func u (f x).fire_date) ≡ true) e.0 h.0,
      no_sooner ys e.1 h.1,
    )

-- Other timers keep their dates.
pub set_timer-Fresh :
    (f : ℕ → Timer) (t : ℕ) (v : Timer) (ts : List ℕ)
    → Fresh t ts
    → All (λ y. (f y).fire_date ≡ (set_timer f t v y).fire_date) ts
set_timer-Fresh f t v [] h = tt
set_timer-Fresh f t v (y ∷ ts) h = (rw (==_ne y t h.0) refl, set_timer-Fresh f t v ts h.1)
