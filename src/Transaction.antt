-- ===== src/Transaction.antt =====
-- src/smcp/smcp-transaction.c: the life of a transaction between its timer's calls, with the block
-- and observe options enabled.
pub mod Backoff
pub mod Alive
pub mod Start
pub mod Table
pub mod Stored
pub mod Registry
pub mod Match
use smcp.Prelude.{ℕ, ◌+◌, ◌-◌, ◌*◌, ◌/◌, ◌%◌, ◌^◌, Bool, true, false, not, ◌&&◌, ◌||◌, min}
use smcp.Prelude.{Option, none, some, ltb, ◌==◌, bit_and, if◌then◌else◌}
use smcp.Timer.{ℤ, pos, negsuc, to_signed}

-- The fields of `struct smcp_transaction_s` that its timeouts read and set. A callback is only
-- known to be there or not.
pub record Transaction : Type 0 where
  pub has_resend_callback : Bool
  pub has_callback : Bool
  pub token : ℕ
  pub msg_id : ℕ
  pub last_observe : ℕ
  pub next_block2 : ℕ
  pub flags : ℕ
  pub attempt_count : ℕ
  pub waiting_for_async_response : Bool
  pub active : Bool

-- What the resend callback returns; `other` is any status but these two.
pub data ResendStatus : Type 0 where
  resent wait_for_dns : ResendStatus
  other : ℕ → ResendStatus

-- The status of a timeout: SMCP_STATUS_OK, SMCP_STATUS_TIMEOUT, or what the resend returned.
pub data Status : Type 0 where
  ok timeout : Status
  of_resend : ℕ → Status

abbrev pub max_attempts : ℕ
max_attempts = 15

-- The tests on the flags.
abbrev pub always_invalidates : Transaction → Bool
always_invalidates t = not (bit_and t.flags 1 == 0)

abbrev pub observes : Transaction → Bool
observes t = not (bit_and t.flags 2 == 0)

abbrev pub keeps_alive : Transaction → Bool
keeps_alive t = not (bit_and t.flags 4 == 0)

abbrev pub no_auto_end : Transaction → Bool
no_auto_end t = not (bit_and t.flags 8 == 0)

abbrev pub delays_start : Transaction → Bool
delays_start t = not (bit_and t.flags 256 == 0)

-- SMCP_OBSERVATION_KEEPALIVE_INTERVAL
abbrev pub keepalive_interval : ℕ
keepalive_interval = 45 * 1000

-- `smcp_transaction_init`; the flags are cut to a uint8_t.
unfoldable pub init : ℕ → Bool → Bool → Transaction
init flags has_resend_callback has_callback = record {
  has_resend_callback = has_resend_callback;
  has_callback = has_callback;
  token = 0;
  msg_id = 0;
  last_observe = 0;
  next_block2 = 0;
  flags = flags % 2 ^ 8;
  attempt_count = 0;
  waiting_for_async_response = false;
  active = false;
}

-- `ret /= 512`, which rounds to zero.
abbrev pub quotient_512 : ℤ → ℤ
quotient_512 (pos n) = pos (n / 512)
quotient_512 (negsuc n) = if (n + 1) / 512 == 0 then pos 0 else negsuc ((n + 1) / 512 - 1)

abbrev pub capped : ℤ → ℤ
capped (pos n) = pos (min n 14000)
capped (negsuc n) = negsuc n

-- `random` is a uint32_t; the product is one of 32 bits, and COAP_ACK_TIMEOUT is 1.5 seconds.
unfoldable pub calc_retransmit_timeout : ℕ → ℕ → ℤ
calc_retransmit_timeout random retries =
    capped (quotient_512 (to_signed (1500 * 2 ^ retries * (512 + random % 256) % 2 ^ 32)))

-- `MIN(cms, …)`
abbrev pub sooner : ℕ → ℤ → ℤ
sooner cms (pos n) = pos (min cms n)
sooner cms (negsuc n) = negsuc n

-- What `smcp_get_next_msg_id` does to `last_msg_id` in a build without DEBUG; the result is the id.
unfoldable pub next_msg_id : ℕ → ℕ → ℕ
next_msg_id last random =
    let seed = if last == 0 then random % 2 ^ 16 else last in (seed * 23873 + 41) % 2 ^ 16

-- How a timeout leaves the transaction: with its status, and the time for which the timer is
-- scheduled again, if it is.
pub record Timeout : Type 0 where
  pub transaction : Transaction
  pub status : Status
  pub scheduled : Option ℤ

-- No more than SMCP_OBSERVATION_KEEPALIVE_INTERVAL.
abbrev pub keepalive_limited : Transaction → ℕ → ℕ
keepalive_limited t cms =
    if keeps_alive t && ltb keepalive_interval cms then keepalive_interval else cms

abbrev pub next_attempt : Transaction → Transaction
next_attempt t =
    if max_attempts == t.attempt_count
    then t
    else record t { attempt_count = (t.attempt_count + 1) % 16 }

-- COAP_EXCHANGE_LIFETIME, in milliseconds.
abbrev pub exchange_lifetime : ℕ
exchange_lifetime = 1500 * 31 * 3 / 2 + 2 * 100 * 1000 + 1500

-- `smcp_transaction_begin`, apart from the tree of transactions: the transaction, the time until
-- it expires, and the time for which its timer is scheduled.
unfoldable pub begin : Transaction → ℕ → ℤ → ℕ → Transaction × ℕ × ℕ
begin t id expiration random =
    let time : ℕ = elim expiration [ pos n ↦ n | negsuc n ↦ exchange_lifetime ] in
    let first : ℕ =
      if t.has_resend_callback
      then (if delays_start t then 10 + random % (1000 * 5) else 0)
      else time in
    (
      record t {
        token = id;
        msg_id = id;
        waiting_for_async_response = false;
        attempt_count = 0;
        last_observe = 0;
        next_block2 = 0;
        active = true;
      },
      time,
      keepalive_limited t first,
    )

-- After the call of the resend callback.
unfoldable pub resend : Transaction → ℕ → ℕ → ResendStatus → Timeout
resend t cms random resent = record {
  transaction = next_attempt t;
  status = ok;
  scheduled = some (sooner cms (calc_retransmit_timeout random t.attempt_count));
}
resend t cms random wait_for_dns = record {
  transaction = t;
  status = ok;
  scheduled = some (pos 100);
}
resend t cms random (other s) = record {
  transaction = t;
  status = of_resend s;
  scheduled = some (pos cms);
}

-- Only an answer that comes later is waited for.
abbrev pub only_waits : Transaction → Bool
only_waits t = t.attempt_count == 0 && (t.waiting_for_async_response && not (keeps_alive t))

-- The first branch: the transaction has not expired, or was not sent yet.
unfoldable pub attempt : Transaction → ℕ → ℕ → ResendStatus → Timeout
attempt t cms random result =
    if not (only_waits t) && t.has_resend_callback
    then resend t (keepalive_limited t cms) random result
    else record {
      transaction = if t.attempt_count == 0 then record t { attempt_count = 1 } else t;
      status = if only_waits t then ok else timeout;
      scheduled = some (pos (keepalive_limited t cms));
    }

-- The second branch: an observing transaction starts over, with a new message id, which no other one
-- has.
unfoldable pub restart : Transaction → ℕ → ℕ → Timeout
restart t new_msg_id random = record {
  transaction = record t {
    waiting_for_async_response = false;
    attempt_count = 0;
    last_observe = 0;
    next_block2 = 0;
    msg_id = if t.active then new_msg_id else t.msg_id;
  };
  status = ok;
  scheduled = some (
      pos (
        keepalive_limited t
          (if t.has_resend_callback && delays_start t then 10 + random % 290 else 0)));
}

-- `smcp_internal_transaction_timeout_` up to the call of the callback, `cms` before the expiration.
unfoldable pub before_callback : Transaction → ℕ → ℕ → ℕ → ResendStatus → Timeout
before_callback t cms random new_msg_id result =
    if ltb 0 cms || t.attempt_count == 0
    then attempt t cms random result
    else if observes t
    then restart t new_msg_id random
    else record { transaction = t; status = timeout; scheduled = none }

abbrev pub is_ok : Status → Bool
is_ok ok = true
is_ok _ = false

-- `handler->callback = NULL`, before the call, unless a flag keeps it.
abbrev pub forget_callback : Transaction → Transaction
forget_callback t =
    if not (always_invalidates t) && not (no_auto_end t)
    then record t { has_callback = false }
    else t

-- `smcp_transaction_end`: an active transaction stands in the tree, from which it is deleted, and its
-- timer is invalidated.
unfoldable pub transaction_end : Timeout → Timeout
transaction_end out =
    if out.transaction.active
    then record out { transaction = record out.transaction { active = false }; scheduled = none }
    else out

-- The rest, where the callback is called with a status that is not OK. Whether the callback has left
-- `current_transaction` as it was is an argument; what else it does to the transaction is left out.
unfoldable pub after_callback : Bool → Timeout → Timeout
unfolding transaction_end
after_callback still_current out =
    let called = record out { transaction = forget_callback out.transaction } in
    if is_ok out.status
    then out
    else if still_current && not (no_auto_end out.transaction)
    then transaction_end called
    else called

-- `smcp_internal_transaction_timeout_`, `cms` before the expiration.
unfoldable pub transaction_timeout : Transaction → ℕ → ℕ → ℕ → ResendStatus → Bool → Timeout
unfolding before_callback after_callback
transaction_timeout t cms random new_msg_id result still_current =
    after_callback still_current (before_callback t cms random new_msg_id result)
