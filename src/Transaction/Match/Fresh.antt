-- ===== src/Transaction/Match/Fresh.antt =====
-- The order of notifications, as RFC 7641 has it and as `smcp_handle_response` tests it.
use smcp.Prelude.{ℕ, ◌-◌, ◌^◌, ◌≤◌, ◌≡◌, ◌≢◌, Bool, true, ◌&&◌, ◌||◌, ltb, leb, arith}
use smcp.Transaction.{Transaction, observes}
use smcp.Transaction.Match.{Response, skips_observation}

-- A sequence number is newer than the last one: modulo 2 ^ 24, by less than half of that.
abbrev pub is_newer : ℕ → ℕ → Bool
is_newer last v = (ltb last v && ltb (v - last) (2 ^ 23)) || (ltb v last && ltb (2 ^ 23) (last - v))

-- Where a notification's number is not above the last one, and not below it by exactly 2 ^ 23,
-- `smcp_handle_response` skips it if and only if it is newer in the order of RFC 7641, as the
-- numbers have passed 2 ^ 24 then; it handles older ones, and a repeated one again.
pub skips_observation-is_newer :
    (t : Transaction) (r : Response)
    → observes t ≡ true
    → r.has_observe_option ≡ true
    → r.observe_value ≤ t.last_observe
    → t.last_observe - r.observe_value ≢ 2 ^ 23
    → skips_observation t r ≡ is_newer t.last_observe r.observe_value
unfolding skips_observation
skips_observation-is_newer t r o h le ne = rw (o, h) (order t.last_observe r.observe_value le ne)
  where
    order :
        (last v : ℕ)
        → v ≤ last
        → last - v ≢ 2 ^ 23
        → (leb v last && ltb 0x7FFFFF (last - v)) ≡ is_newer last v
    order last v le ne = ground arith
