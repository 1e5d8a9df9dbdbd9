-- ===== src/Transaction/Alive.antt =====
-- What a timeout leaves of a transaction.
use smcp.Prelude.{of_if, of_else}
use smcp.Prelude.{ℕ, ◌≤◌, ◌≡◌, ◌≢◌, ◌⊎◌, inl, inr, refl, sym, ap, subst, ◌∙◌, arith, bit_and}
use smcp.Prelude.{true, false, not, ◌&&◌, ◌||◌, none, some, ltb, ◌==◌, if◌then◌else◌, Bool-cases}
use smcp.Timer.{ℤ}
use smcp.Transaction.{
  Transaction, ResendStatus, resent, wait_for_dns, other, ok, timeout, of_resend, Timeout,
}
use smcp.Transaction.{
  transaction_timeout, before_callback, after_callback, transaction_end, forget_callback, is_ok,
  attempt, restart, resend, next_attempt, observes, only_waits, keepalive_limited, no_auto_end,
}

-- The timer is scheduled.
abbrev pub IsScheduled : Timeout → Type 0
IsScheduled out = (at : ℤ) × (out.scheduled ≡ some at)

-- The time is up, and nothing starts over.
abbrev pub HasExpired : Transaction → ℕ → Type 0
HasExpired t cms = (cms ≡ 0) × (t.attempt_count ≢ 0) × (observes t ≡ false)

-- Why a transaction does not go on: it has expired, it cannot be sent again, or sending it failed.
abbrev pub HasFailed : Transaction → ℕ → ResendStatus → Timeout → Type 0
HasFailed t cms result out =
    ((out.status ≡ timeout) × (HasExpired t cms ⊎ (t.has_resend_callback ≡ false)))
    ⊎ ((s : ℕ) × (result ≡ other s) × (out.status ≡ of_resend s))

-- Before the callback, where the timer is scheduled.
record GoesOn (t : Transaction) (cms : ℕ) (result : ResendStatus) (out : Timeout) : Type 0 where
  scheduled : IsScheduled out
  same_active : out.transaction.active ≡ t.active
  same_flags : out.transaction.flags ≡ t.flags
  few : out.transaction.attempt_count ≤ 15
  reason : (is_ok out.status ≡ true) ⊎ HasFailed t cms result out

next_attempt_lem :
    (t : Transaction)
    → t.attempt_count ≤ 15
    → ((next_attempt t).attempt_count ≤ 15)
      × ((next_attempt t).active ≡ t.active)
      × ((next_attempt t).flags ≡ t.flags)
next_attempt_lem t le = ground (arith, le)

resend-GoesOn :
    (t : Transaction) (cms limited random : ℕ) (result : ResendStatus)
    → t.attempt_count ≤ 15
    → GoesOn t cms result (resend t limited random result)
unfolding resend
resend-GoesOn t cms limited random resent le =
    let (few, active, flags) = next_attempt_lem t le in
    record {
      scheduled = (_, refl);
      same_active = active;
      same_flags = flags;
      few = few;
      reason = inl refl;
    }
resend-GoesOn t cms limited random wait_for_dns le = record {
  scheduled = (_, refl);
  same_active = refl;
  same_flags = refl;
  few = le;
  reason = inl refl;
}
resend-GoesOn t cms limited random (other s) le = record {
  scheduled = (_, refl);
  same_active = refl;
  same_flags = refl;
  few = le;
  reason = inr (inr (s, refl, refl));
}

attempt-GoesOn :
    (t : Transaction) (cms random : ℕ) (result : ResendStatus)
    → t.attempt_count ≤ 15
    → GoesOn t cms result (attempt t cms random result)
unfolding attempt
attempt-GoesOn t cms random result le =
    elim (Bool-cases (not (only_waits t) && t.has_resend_callback)) [
      | inl e ↦ rw (attempt, e) (resend-GoesOn t cms (keepalive_limited t cms) random result le)
      | inr e ↦
          rw (attempt, e)
            (record {
              scheduled = (_, refl);
              same_active = ground arith;
              same_flags = ground arith;
              few = ground (arith, le);
              reason = waits_or_fails e;
            })
    ]
  where
    waits_or_fails :
        (not (only_waits t) && t.has_resend_callback) ≡ false
        → (is_ok (if only_waits t then ok else timeout) ≡ true)
          ⊎ (((if only_waits t then ok else timeout) ≡ timeout)
                × (HasExpired t cms ⊎ (t.has_resend_callback ≡ false))
              ⊎ ((s : ℕ) × (result ≡ other s)
                  × ((if only_waits t then ok else timeout) ≡ of_resend s)))
    waits_or_fails e = elim (Bool-cases (only_waits t)) [
      | inl w ↦ rw w (inl refl)
      | inr n ↦ rw n (inr (inl (refl, inr (ground (arith, e, n)))))
    ]

-- How a timeout of an active transaction ends, if its callbacks leave it alone.
abbrev pub IsTimedOut : Transaction → ℕ → ResendStatus → Timeout → Type 0
IsTimedOut t cms result out =
    ((out.transaction.active ≡ true)
      × IsScheduled out
      × ((is_ok out.status ≡ true) ⊎ ((no_auto_end t ≡ true) × HasFailed t cms result out)))
    ⊎ (((out.transaction.active ≡ false)
          × (out.scheduled ≡ none)
          × (no_auto_end t ≡ false)
          × HasFailed t cms result out)
        ⊎ ((out.transaction.active ≡ true)
            × (out.scheduled ≡ none)
            × (no_auto_end t ≡ true)
            × HasExpired t cms
            × (out.status ≡ timeout)))

forget_callback_lem :
    (t : Transaction)
    → ((forget_callback t).active ≡ t.active)
      × ((forget_callback t).attempt_count ≡ t.attempt_count)
forget_callback_lem t = ground arith

called : Timeout → Timeout
called out = record out { transaction = forget_callback out.transaction }

ended : Timeout → Timeout
ended out = record {
  transaction = record (forget_callback out.transaction) { active = false };
  status = out.status;
  scheduled = none;
}

-- The three ways on from the callback.
module _ (out : Timeout) where
  callback_not_called : is_ok out.status ≡ true → after_callback true out ≡ out
  unfolding after_callback
  callback_not_called e = rw e refl

  callback_only :
      is_ok out.status ≡ false
      → no_auto_end out.transaction ≡ true
      → after_callback true out ≡ called out
  unfolding after_callback called
  callback_only e n = rw (e, n) refl

  callback_and_end :
      is_ok out.status ≡ false
      → no_auto_end out.transaction ≡ false
      → out.transaction.active ≡ true
      → after_callback true out ≡ ended out
  unfolding after_callback transaction_end ended called
  callback_and_end e n live =
      of_else (is_ok out.status) out _ e
      ∙ of_if (not (no_auto_end out.transaction)) (transaction_end (called out)) (called out)
          (ap not n)
      ∙ of_if (forget_callback out.transaction).active (ended out) (called out)
          ((forget_callback_lem out.transaction).0 ∙ live)

-- What the call and the end of a transaction leave.
Outcome : Transaction → ℕ → ResendStatus → Timeout → Type 0
Outcome t cms result out = (out.transaction.attempt_count ≤ 15) × IsTimedOut t cms result out

module _ (t : Transaction) (cms : ℕ) (result : ResendStatus) (live : t.active ≡ true) where
  gone_on :
      (out : Timeout) → GoesOn t cms result out → Outcome t cms result (after_callback true out)
  unfolding Outcome called ended
  gone_on out g = elim (Bool-cases (is_ok out.status)) [
    | inl fine ↦
        subst (Outcome t cms result) (sym (callback_not_called out fine))
          (g.few, inl (g.same_active ∙ live, g.scheduled, inl fine))
    | inr bad ↦ elim (Bool-cases (no_auto_end out.transaction)) [
      | inl keeps ↦ subst (Outcome t cms result) (sym (callback_only out bad keeps)) (
        omega (arith, (forget_callback_lem out.transaction).1, g.few),
        inl (
          (forget_callback_lem out.transaction).0 ∙ g.same_active ∙ live,
          g.scheduled,
          inr (sym flags ∙ keeps, failed bad),
        ),
      )
      | inr auto_ends ↦
          subst (Outcome t cms result)
            (sym (callback_and_end out bad auto_ends (g.same_active ∙ live)))
            (
              omega (arith, (forget_callback_lem out.transaction).1, g.few),
              inr (inl (refl, refl, sym flags ∙ auto_ends, failed bad)),
            )
    ]
  ]
    where
      flags : no_auto_end out.transaction ≡ no_auto_end t
      flags = ap (λ (f : ℕ). not (bit_and f 8 == 0)) g.same_flags

      failed : is_ok out.status ≡ false → HasFailed t cms result out
      failed bad = elim g.reason [ inl fine ↦ absurd (cc (fine, bad)) | inr f ↦ f ]

  expired :
      t.attempt_count ≤ 15
      → HasExpired t cms
      → Outcome t cms result
          (after_callback true (record { transaction = t; status = timeout; scheduled = none }))
  unfolding Outcome called ended
  expired le e = elim (Bool-cases (no_auto_end t)) [
    | inl keeps ↦
        subst (Outcome t cms result)
          (sym (
            callback_only (record { transaction = t; status = timeout; scheduled = none }) refl
              keeps))
          (
            omega (arith, (forget_callback_lem t).1, le),
            inr (inr ((forget_callback_lem t).0 ∙ live, refl, keeps, e, refl)),
          )
    | inr auto_ends ↦
        subst (Outcome t cms result)
          (sym (
            callback_and_end (record { transaction = t; status = timeout; scheduled = none }) refl
              auto_ends live))
          (
            omega (arith, (forget_callback_lem t).1, le),
            inr (inl (refl, refl, auto_ends, inl (refl, inl e))),
          )
  ]

-- A timeout of an active transaction that its callbacks leave alone. Either the transaction stays
-- active with its timer scheduled, where the status is SMCP_STATUS_OK or SMCP_TRANSACTION_NO_AUTO_END
-- is set; or it has failed, and has ended without a timer; or it has expired, and NO_AUTO_END leaves it
-- active without a timer. It fails where it has expired, after an attempt and without observing, where
-- it has no resend callback, or with the status of the resend callback. The attempts are counted up to
-- SMCP_TRANSACTION_MAX_ATTEMPTS at most.
pub transaction_timeout-IsTimedOut :
    (t : Transaction) (cms random new_msg_id : ℕ) (result : ResendStatus)
    → t.attempt_count ≤ 15
    → t.active ≡ true
    → let out = transaction_timeout t cms random new_msg_id result true in
      (out.transaction.attempt_count ≤ 15) × IsTimedOut t cms result out
unfolding transaction_timeout Outcome restart
transaction_timeout-IsTimedOut t cms random new_msg_id result le live =
    elim (Bool-cases (ltb 0 cms || t.attempt_count == 0)) [
      | inl e ↦
          through (attempt t cms random result) (tries e)
            (gone_on t cms result live _ (attempt-GoesOn t cms random result le))
      | inr e ↦ elim (Bool-cases (observes t)) [
        | inl o ↦ through (restart t new_msg_id random) (restarts e o) (
            gone_on t cms result live (restart t new_msg_id random) (record {
              scheduled = (_, refl);
              same_active = refl;
              same_flags = refl;
              few = omega arith;
              reason = inl refl;
            }))
        | inr o ↦
            through _ (expires e o)
              (expired t cms result live le (ground (arith, e), ground (arith, e), o))
      ]
    ]
  where
    through :
        (b : Timeout)
        → before_callback t cms random new_msg_id result ≡ b
        → Outcome t cms result (after_callback true b)
        → Outcome t cms result (transaction_timeout t cms random new_msg_id result true)
    through b e h = subst (λ c. Outcome t cms result (after_callback true c)) (sym e) h

    tries :
        (ltb 0 cms || t.attempt_count == 0) ≡ true
        → before_callback t cms random new_msg_id result ≡ attempt t cms random result
    tries e = rw (before_callback, e) refl

    restarts :
        (ltb 0 cms || t.attempt_count == 0) ≡ false
        → observes t ≡ true
        → before_callback t cms random new_msg_id result ≡ restart t new_msg_id random
    restarts e o = rw (before_callback, e, o) refl

    expires :
        (ltb 0 cms || t.attempt_count == 0) ≡ false
        → observes t ≡ false
        → before_callback t cms random new_msg_id result
          ≡ record { transaction = t; status = timeout; scheduled = none }
    expires e o = rw (before_callback, e, o) refl
