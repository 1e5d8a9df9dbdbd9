-- ===== src/Timer/Dates.antt =====
-- Dates and periods, and the order of dates.
use smcp.Prelude.{ℕ, ◌+◌, ◌*◌, ◌<◌, ◌≤◌, ◌≡◌, ◌≢◌, sym, ap, ◌∙◌, arith, true, false}
use smcp.Timer.{ℤ, pos, negsuc, ◌⊖◌, ◌+ℤ◌, scale, quotient, at_least_zero, Timeval, cms_of}
use smcp.Timer.{period_between_timevals_in_cms, convert_timeval_to_cms}
use smcp.Timer.{compare_func, is_not_less}

-- An integer of at most this size, above and below 0.
abbrev Fits : ℕ → ℤ → Type 0
Fits b (pos n) = n ≤ b
Fits b (negsuc n) = n < b

cms_of-Fits : (z : ℤ) → Fits 2147483647 z → cms_of z ≡ z
unfolding cms_of
cms_of-Fits (pos n) h = ground (arith, h)
cms_of-Fits (negsuc n) h = ground (arith, h)

Fits-⊖ : (b m n : ℕ) → m ≤ n + b → n ≤ m + b → Fits b (m ⊖ n)
Fits-⊖ b m n h k = ground (arith, h, k)

Fits-mono : (b c : ℕ) (z : ℤ) → b ≤ c → Fits b z → Fits c z
Fits-mono b c (pos n) le h = omega (arith, h)
Fits-mono b c (negsuc n) le h = omega (arith, h)

Fits-scale : (z : ℤ) → Fits 2147482 z → Fits 2147482000 (scale 1000 z)
Fits-scale (pos n) h = omega (arith, h)
Fits-scale (negsuc n) h = ground (arith, h)

Fits-quotient : (z : ℤ) → Fits 999999 z → Fits 999 (quotient z 1000)
Fits-quotient (pos n) h = omega (arith, h)
Fits-quotient (negsuc n) h = ground (arith, h)

Fits-+ℤ : (b c : ℕ) (x y : ℤ) → Fits b x → Fits c y → Fits (b + c) (x +ℤ y)
Fits-+ℤ b c (pos m) (pos n) h k = omega (arith, h, k)
Fits-+ℤ b c (pos m) (negsuc n) h k = ground (arith, h, k)
Fits-+ℤ b c (negsuc m) (pos n) h k = ground (arith, h, k)
Fits-+ℤ b c (negsuc m) (negsuc n) h k = omega (arith, h, k)

-- A date of less than a second's microseconds, at most 2147482 seconds before or behind now.
pub record IsNear (now date : Timeval) : Type 0 where
  pub now_usec : now.tv_usec < 1000000
  pub date_usec : date.tv_usec < 1000000
  pub ahead : date.tv_sec ≤ now.tv_sec + 2147482
  pub behind : now.tv_sec ≤ date.tv_sec + 2147482

-- The period without the wrap.
plain_period : Timeval → Timeval → ℤ
plain_period lhs rhs =
    scale 1000 (lhs.tv_sec ⊖ rhs.tv_sec) +ℤ quotient (lhs.tv_usec ⊖ rhs.tv_usec) 1000

period-plain :
    (now date : Timeval)
    → IsNear now date
    → period_between_timevals_in_cms date now ≡ plain_period date now
unfolding period_between_timevals_in_cms plain_period
period-plain now date near =
    ap (λ z. cms_of (cms_of (scale 1000 z) +ℤ quotient (cms_of (date.tv_usec ⊖ now.tv_usec)) 1000))
      (cms_of-Fits seconds (Fits-mono 2147482 2147483647 seconds (omega arith) near_seconds))
    ∙ ap (λ z. cms_of (z +ℤ quotient (cms_of (date.tv_usec ⊖ now.tv_usec)) 1000))
        (cms_of-Fits (scale 1000 seconds) (
          Fits-mono 2147482000 2147483647 (scale 1000 seconds) (omega arith)
            (Fits-scale seconds near_seconds)))
    ∙ ap (λ z. cms_of (scale 1000 seconds +ℤ quotient z 1000))
        (cms_of-Fits micros (Fits-mono 999999 2147483647 micros (omega arith) near_micros))
    ∙ cms_of-Fits (scale 1000 seconds +ℤ quotient micros 1000) (
        Fits-mono 2147482999 2147483647 (scale 1000 seconds +ℤ quotient micros 1000) (omega arith) (
          Fits-+ℤ 2147482000 999 (scale 1000 seconds) (quotient micros 1000)
            (Fits-scale seconds near_seconds) (Fits-quotient micros near_micros)))
  where
    seconds : ℤ
    seconds = date.tv_sec ⊖ now.tv_sec

    micros : ℤ
    micros = date.tv_usec ⊖ now.tv_usec

    near_seconds : Fits 2147482 seconds
    near_seconds = Fits-⊖ 2147482 date.tv_sec now.tv_sec near.ahead near.behind

    near_micros : Fits 999999 micros
    near_micros =
        Fits-⊖ 999999 date.tv_usec now.tv_usec (omega (arith, near.date_usec))
          (omega (arith, near.now_usec))

-- A date as a number of microseconds.
abbrev pub microseconds : Timeval → ℕ
microseconds tv = tv.tv_sec * 1000000 + tv.tv_usec

plain_due :
    (now date : Timeval)
    → now.tv_usec < 1000000
    → date.tv_usec < 1000000
    → at_least_zero (plain_period date now) ≡ 0
    → microseconds date < microseconds now + 1000
unfolding plain_period
plain_due now date hn hd e = ground (arith, hn, hd, e)

plain_later :
    (now date : Timeval)
    → now.tv_usec < 1000000
    → date.tv_usec < 1000000
    → at_least_zero (plain_period date now) ≢ 0
    → microseconds now < microseconds date
unfolding plain_period
plain_later now date hn hd e = ground (arith, hn, hd, e)

-- A date is taken for reached less than a millisecond early at most, and for not reached only before.
pub due :
    (now date : Timeval)
    → IsNear now date
    → convert_timeval_to_cms now date ≡ 0
    → microseconds date < microseconds now + 1000
unfolding convert_timeval_to_cms
due now date near e =
    plain_due now date near.now_usec near.date_usec
      (ap at_least_zero (sym (period-plain now date near)) ∙ e)

pub later :
    (now date : Timeval)
    → IsNear now date
    → convert_timeval_to_cms now date ≢ 0
    → microseconds now < microseconds date
unfolding convert_timeval_to_cms
later now date near e =
    plain_later now date near.now_usec near.date_usec
      (λ z. e (ap at_least_zero (period-plain now date near) ∙ z))

pub not_less_total :
    (a b : Timeval) → is_not_less (compare_func a b) ≡ false → is_not_less (compare_func b a) ≡ true
unfolding compare_func
not_less_total a b h = ground arith

pub not_less_trans :
    (a b c : Timeval)
    → is_not_less (compare_func a b) ≡ true
    → is_not_less (compare_func b c) ≡ true
    → is_not_less (compare_func a c) ≡ true
unfolding compare_func
not_less_trans a b c h k = ground arith
