-- ===== src/Transaction/Start.antt =====
-- How a transaction starts.
use smcp.Prelude.{ℕ, ◌+◌, ◌%◌, ◌^◌, ◌<◌, ◌≡◌, ◌≢◌, refl, ap, ◌∙◌, arith}
use smcp.Prelude.{Bool, true, false, some, bit_and, ◌==◌, ==_ne, not, ◌&&◌, if◌then◌else◌}
use smcp.Prelude.Bytes.{passes, passes_each}
use smcp.Timer.{ℤ, pos}
use smcp.Transaction.{
  Transaction, Timeout, ResendStatus, init, begin, restart, delays_start, observes,
  keepalive_limited, next_msg_id, transaction_timeout, before_callback, after_callback,
}

low_byte : (f : ℕ) → f < 256 → (bit_and f 256 == 0) ≡ true
unfolding passes
low_byte f small = passes_each (λ i. bit_and i 256 == 0) 256 f refl small

no_delay : (flags : ℕ) (r c : Bool) → delays_start (init flags r c) ≡ false
unfolding init
no_delay flags r c = rw (low_byte (flags % 256) (omega arith)) refl

no_limit : (t : Transaction) → keepalive_limited t 0 ≡ 0
no_limit t = ground arith

-- A restart only happens in a transaction that observes, and leaves its flags as `init` set them.
restarted :
    (t : Transaction) (flags random id : ℕ) (resend_status : ResendStatus)
    (has_callback current : Bool)
    → t.flags ≡ (init flags true has_callback).flags
    → t.has_resend_callback ≡ true
    → t.attempt_count ≢ 0
    → observes t ≡ true
    → transaction_timeout t 0 random id resend_status current ≡ restart t id random
unfolding transaction_timeout before_callback after_callback
restarted t flags random id resend_status has_callback current f r a o =
    rw (==_ne t.attempt_count 0 a, o) (unfold restart in refl)

-- Whatever flags a transaction is initialized with, SMCP_TRANSACTION_DELAY_START among them, its
-- first attempt is scheduled at once; and where one with these flags observes and expires after an
-- attempt, it starts over, from no attempt, and the first one is scheduled at once too.
pub begin-init :
    (flags id random : ℕ) (has_callback current : Bool) (expiration : ℤ) (t : Transaction)
    (resend_status : ResendStatus)
    → t.flags ≡ (init flags true has_callback).flags
    → t.has_resend_callback ≡ true
    → t.attempt_count ≢ 0
    → observes t ≡ true
    → let over = transaction_timeout t 0 random id resend_status current in
      ((begin (init flags true has_callback) id expiration random).2 ≡ 0)
      × (over.scheduled ≡ some (pos 0))
      × (over.transaction.attempt_count ≡ 0)
unfolding begin restart init
begin-init flags id random has_callback current expiration t resend_status f r a o = (
  rw (no_delay flags true has_callback) (no_limit (init flags true has_callback)),
  ap (λ (out : Timeout). out.scheduled) same
      ∙ rw delay (ap (λ (n : ℕ). some (pos n)) (at_once t.has_resend_callback)),
  ap (λ (out : Timeout). out.transaction.attempt_count) same,
)
  where
    same : transaction_timeout t 0 random id resend_status current ≡ restart t id random
    same = restarted t flags random id resend_status has_callback current f r a o

    delay : delays_start t ≡ false
    delay = ap (λ (n : ℕ). not (bit_and n 256 == 0)) f ∙ no_delay flags true has_callback

    at_once : (c : Bool) → keepalive_limited t (if c && false then 10 + random % 290 else 0) ≡ 0
    at_once true = no_limit t
    at_once false = no_limit t

-- Message ids do not repeat from one to the next: two different last ids, neither of them 0, are
-- followed by two different ids.
pub next_msg_id_injective :
    (a b r s : ℕ)
    → 0 < a
    → 0 < b
    → a < 2 ^ 16
    → b < 2 ^ 16
    → a ≢ b
    → next_msg_id a r ≢ next_msg_id b s
unfolding next_msg_id
next_msg_id_injective a b r s pa pb ha hb ne e = ground (arith, e, ne)
