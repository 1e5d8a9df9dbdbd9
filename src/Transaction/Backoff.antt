-- ===== src/Transaction/Backoff.antt =====
-- The time until a request is sent again.
use smcp.Prelude.{ℕ, ◌+◌, ◌*◌, ◌/◌, ◌%◌, ◌^◌, ◌<◌, ◌≤◌, ◌≡◌, min, refl, ap, arith}
use smcp.Prelude.{leb, true}
use smcp.Prelude.Bytes.{passes, passes_each}
use smcp.Timer.{ℤ, pos, to_signed}
use smcp.Transaction.{calc_retransmit_timeout, quotient_512, capped}

-- At each number of retries.
power_le : (r : ℕ) → r ≤ 10 → leb (2 ^ r) 1024 ≡ true
unfolding passes
power_le r le = passes_each (λ i. leb (2 ^ i) 1024) 11 r refl (omega arith)

-- The product with the random factor, of `p` for the power and `q` for the random part.
product_bounds :
    (p q : ℕ)
    → p ≤ 1024
    → q ≤ 255
    → (768000 * p ≤ 1500 * p * (512 + q)) × (1500 * p * (512 + q) ≤ 1150500 * p)
product_bounds p q hp hq = (grind arith, grind arith)

in_range :
    (n low high : ℕ)
    → n < 2 ^ 31
    → low * 512 ≤ n
    → n ≤ high * 512
    → (v : ℕ) × (capped (quotient_512 (to_signed (n % 2 ^ 32))) ≡ pos v)
      × (min low 14000 ≤ v)
      × (v ≤ min high 14000)
in_range n low high small lo hi =
    (min (n / 512) 14000, ap (λ (x : ℤ). capped (quotient_512 x)) signed, omega arith, omega arith)
  where
    signed : to_signed (n % 2 ^ 32) ≡ pos n
    signed = ground arith

-- Up to ten retries nothing overflows: the time is at least 1.5 seconds times two to the power of
-- the number of retries, at most half as much again, and at most 14 seconds in any case.
pub calc_retransmit_timeout_bounds :
    (random retries : ℕ)
    → retries ≤ 10
    → (v : ℕ) × (calc_retransmit_timeout random retries ≡ pos v)
      × (min (1500 * 2 ^ retries) 14000 ≤ v)
      × (v ≤ min (2250 * 2 ^ retries) 14000)
unfolding calc_retransmit_timeout
calc_retransmit_timeout_bounds random retries le =
    let (lo, hi) =
      product_bounds (2 ^ retries) (random % 256) (ground (arith, power_le retries le))
        (omega arith) in
    in_range (1500 * 2 ^ retries * (512 + random % 256)) (1500 * 2 ^ retries) (2250 * 2 ^ retries)
      (ground (arith, hi, power_le retries le)) (omega (arith, lo)) (omega (arith, hi))
