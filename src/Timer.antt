-- ===== src/Timer.antt =====
-- src/smcp/smcp-timer.c: timers, in a list sorted by the date at which they fire.
-- `gettimeofday` is the parameter `now`. The seconds are those since the epoch, and no sum of them
-- overflows; a `cms_t` is an integer, and a period wraps to its 32 bits.
pub mod Dates
pub mod Queue
pub mod Handle
use smcp.Prelude.{
  ℕ, zero, suc, ◌+◌, ◌-◌, ◌*◌, ◌/◌, ◌%◌, ◌^◌, min, Bool, true, false, not, ◌&&◌, ◌||◌,
}
use smcp.Prelude.{Option, none, some, ltb, leb, ◌==◌, if◌then◌else◌}
use smcp.LinkedList.{Heap, sorted_insert, remove, set_next, set_prev}

-- `negsuc n` is -(n + 1).
pub data ℤ : Type 0 where
  pos negsuc : ℕ → ℤ

infixl 20 ◌⊖◌
infixl 20 ◌+ℤ◌
-- The difference of two numbers.
abbrev pub ◌⊖◌ : ℕ → ℕ → ℤ
m ⊖ n = if ltb m n then negsuc (n - m - 1) else pos (m - n)

abbrev pub ◌+ℤ◌ : ℤ → ℤ → ℤ
pos m +ℤ pos n = pos (m + n)
pos m +ℤ negsuc n = m ⊖ (n + 1)
negsuc m +ℤ pos n = n ⊖ (m + 1)
negsuc m +ℤ negsuc n = negsuc (m + n + 1)

-- Times a number, and divided by one towards 0, as C does.
abbrev pub scale : ℕ → ℤ → ℤ
scale k (pos n) = pos (n * k)
scale k (negsuc n) = 0 ⊖ ((n + 1) * k)

abbrev pub quotient : ℤ → ℕ → ℤ
quotient (pos n) k = pos (n / k)
quotient (negsuc n) k = 0 ⊖ ((n + 1) / k)

-- `MAX(…, 0)`
abbrev pub at_least_zero : ℤ → ℕ
at_least_zero (pos n) = n
at_least_zero (negsuc n) = 0

-- `struct timeval`
pub record Timeval : Type 0 where
  pub tv_sec : ℕ
  pub tv_usec : ℕ

-- `convert_cms_to_timeval`, on a `cms` that is not negative.
pub convert_cms_to_timeval : Timeval → ℕ → Timeval
convert_cms_to_timeval now cms =
    let rest = cms - cms / 1000 * 1000 in
    let usec = now.tv_usec + rest % 1000 * 1000 in
    record { tv_sec = now.tv_sec + cms / 1000 + usec / 1000000; tv_usec = usec % 1000000 }

-- The 32 bits of an int32_t.
abbrev pub to_signed : ℕ → ℤ
to_signed n = if ltb n (2 ^ 31) then pos n else negsuc (2 ^ 32 - 1 - n)

-- The conversion to a `cms_t`, an int32_t, which wraps.
pub cms_of : ℤ → ℤ
cms_of (pos n) = to_signed (n % 2 ^ 32)
cms_of (negsuc n) = to_signed (2 ^ 32 - 1 - n % 2 ^ 32)

pub period_between_timevals_in_cms : Timeval → Timeval → ℤ
unfolding cms_of
period_between_timevals_in_cms lhs rhs =
    let ret = cms_of (scale 1000 (cms_of (lhs.tv_sec ⊖ rhs.tv_sec))) in
    cms_of (ret +ℤ quotient (cms_of (lhs.tv_usec ⊖ rhs.tv_usec)) 1000)

pub convert_timeval_to_cms : Timeval → Timeval → ℕ
unfolding period_between_timevals_in_cms
convert_timeval_to_cms now tv = at_least_zero (period_between_timevals_in_cms tv now)

-- The result 1, -1 or 0 of `smcp_timer_compare_func`.
pub data CompareResult : Type 0 where
  greater less equal : CompareResult

unfoldable pub compare_func : Timeval → Timeval → CompareResult
compare_func lhs rhs =
    if ltb rhs.tv_sec lhs.tv_sec
    then greater
    else if ltb lhs.tv_sec rhs.tv_sec
    then less
    else if ltb rhs.tv_usec lhs.tv_usec
    then greater
    else if ltb lhs.tv_usec rhs.tv_usec
    then less
    else equal

-- `… >= 0`
abbrev pub is_not_less : CompareResult → Bool
is_not_less greater = true
is_not_less less = false
is_not_less equal = true

-- `struct smcp_timer_s`, less its links: the date, the context, and the two callbacks by an
-- identity, NULL being `none`.
pub record Timer : Type 0 where
  pub fire_date : Timeval
  pub context : ℕ
  pub callback : Option ℕ
  pub cancel : Option ℕ

-- The timers of an `smcp_t`: their links, the other fields of each, and `self->timers`.
pub record Timers : Type 0 where
  pub links : Heap
  pub timer : ℕ → Timer
  pub timers : ℕ

abbrev pub set_timer : (ℕ → Timer) → ℕ → Timer → ℕ → Timer
set_timer f t v y = if y == t then v else f y

-- `smcp_timer_init`: the links are cleared too. A NULL timer is left alone.
pub timer_init : Timers → ℕ → Option ℕ → Option ℕ → ℕ → Timers
timer_init self t callback cancel context = if t == 0 then self else record self {
  links = set_prev (set_next self.links t 0) t 0;
  timer = set_timer self.timer t (record {
    fire_date = record { tv_sec = 0; tv_usec = 0 };
    context = context;
    callback = callback;
    cancel = cancel;
  });
}

pub timer_is_scheduled : Timers → ℕ → Bool
timer_is_scheduled self t =
    not (self.links.next t == 0) || (not (self.links.prev t == 0) || self.timers == t)

-- `compare_func(a, b, NULL) >= 0` on the addresses of two timers.
abbrev pub fires_no_sooner : (ℕ → Timer) → ℕ → ℕ → Bool
fires_no_sooner timer a b = is_not_less (compare_func (timer a).fire_date (timer b).fire_date)

-- `smcp_schedule_timer`: whether the status is SMCP_STATUS_OK, and the new state. `none` if the
-- walk over the list ran out of fuel.
pub schedule_timer : Timeval → ℕ → Timers → ℕ → ℤ → Option (Bool × Timers)
unfolding timer_is_scheduled convert_cms_to_timeval compare_func
schedule_timer now fuel self t cms =
    if timer_is_scheduled self t
    then some (false, self)
    else elim (sorted_insert (fires_no_sooner dated) fuel self.links self.timers t) [
      | none ↦ none
      | some (links, timers) ↦ some (true, record { links = links; timer = dated; timers = timers })
    ]
  where
    date : Timeval
    date = convert_cms_to_timeval now (at_least_zero cms)

    dated : ℕ → Timer
    dated = set_timer self.timer t (record (self.timer t) { fire_date = date })

-- A call of a callback that belongs to a timer, with its context.
pub record Call : Type 0 where
  pub function : ℕ
  pub context : ℕ

abbrev pub call_of : Option ℕ → ℕ → Option Call
call_of none context = none
call_of (some f) context = some (record { function = f; context = context })

-- `smcp_invalidate_timer`: the new state, and the call of `cancel`.
pub invalidate_timer : Timers → ℕ → Timers × Option Call
invalidate_timer self t =
    let (links, timers) = remove self.links self.timers t in
    (
      record self { links = set_prev (set_next links t 0) t 0; timers = timers },
      call_of (self.timer t).cancel (self.timer t).context,
    )

-- SMCP_MAX_TIMEOUT, in milliseconds.
abbrev pub max_timeout : ℕ
max_timeout = 30 * 1000

pub get_timeout : Timeval → Timers → ℕ
unfolding convert_timeval_to_cms
get_timeout now self =
    if self.timers == 0
    then max_timeout
    else min max_timeout (convert_timeval_to_cms now (self.timer self.timers).fire_date)

-- The body of `smcp_handle_timers` on the first timer: its callback's call is given back, and the
-- state before the callback's own effects. `cancel` is cleared first, so it is not called.
pub fire : Timers → ℕ → Timers × Option Call
unfolding invalidate_timer
fire self t =
    let uncancelled = record self {
      timer = set_timer self.timer t (record (self.timer t) { cancel = none });
    } in
    ((invalidate_timer uncancelled t).0, call_of (self.timer t).callback (self.timer t).context)

pub handle_timers : Timeval → Timers → Timers × Option Call
unfolding convert_timeval_to_cms fire
handle_timers now self =
    if self.timers == 0
    then (self, none)
    else if leb (convert_timeval_to_cms now (self.timer self.timers).fire_date) 0
    then fire self self.timers
    else (self, none)
