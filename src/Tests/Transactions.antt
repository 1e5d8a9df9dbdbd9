-- ===== src/Tests/Transactions.antt =====
-- A transaction with a resend callback, for the theorems on transactions.
use smcp.Prelude.{ℕ, ◌*◌, ◌^◌, ◌≡◌, ◌≢◌, ◌≤◌, ◌⊎◌, min, arith, true, false, some}
use smcp.Prelude.{refl, ◌==◌, if◌then◌else◌, inl, inr, [], ◌∷◌}
use smcp.Tree.Shape.{Shape, leaf, node, items}
use smcp.Tree.Ordered.{put_ordered}
use smcp.Tree.Insert.{IsNew}
use smcp.Transaction.Registry.Begin.{begin_pending_refines}
use smcp.Tree.Remove.{list_without}
use smcp.Transaction.Table.{
  Pending, Transactions, find_via_msg_id, new_msg_id, begin_pending, end_pending, assertion_failed,
}
use smcp.Transaction.Stored.{IsRegistry, msg_id_of}
use smcp.Transaction.Registry.{Renewed, new_msg_id_refines, end_pending_refines}
use smcp.Transaction.Match.{Response, match_response, skips_observation}
use smcp.Transaction.Match.Found.{Answers, IsFromPeer}
use smcp.Transaction.Match.Sound.{match_response-Answers, match_response_own}
use smcp.Transaction.Match.Fresh.{is_newer, skips_observation-is_newer}
use smcp.Timer.{pos}
use smcp.Transaction.{
  Transaction, init, begin, transaction_timeout, resent, other, calc_retransmit_timeout,
}
use smcp.Transaction.Backoff.{calc_retransmit_timeout_bounds}
use smcp.Transaction.Alive.{IsTimedOut, transaction_timeout-IsTimedOut}
use smcp.Transaction.Start.{begin-init}

calc_retransmit_timeout_bounds_example :
    (v : ℕ) × (calc_retransmit_timeout 77 3 ≡ pos v)
    × (min (1500 * 2 ^ 3) 14000 ≤ v)
    × (v ≤ min (2250 * 2 ^ 3) 14000)
calc_retransmit_timeout_bounds_example = calc_retransmit_timeout_bounds 77 3 (omega arith)

abbrev sent : Transaction
sent = record {
  has_resend_callback = true;
  has_callback = true;
  token = 5;
  msg_id = 5;
  last_observe = 0;
  next_block2 = 0;
  flags = 2;
  attempt_count = 3;
  waiting_for_async_response = false;
  active = true;
}

abbrev remaining : ℕ
remaining = 4000

transaction_timeout-IsTimedOut_example :
    let out = transaction_timeout sent remaining 77 9 (other 12) true in
    (out.transaction.attempt_count ≤ 15) × IsTimedOut sent remaining (other 12) out
transaction_timeout-IsTimedOut_example =
    transaction_timeout-IsTimedOut sent remaining 77 9 (other 12) (omega arith) refl

begin-init_example :
    let over = transaction_timeout sent 0 77 9 resent true in
    ((begin (init 258 true true) 9 (pos 3000) 77).2 ≡ 0)
    × (over.scheduled ≡ some (pos 0))
    × (over.transaction.attempt_count ≡ 0)
begin-init_example =
    begin-init 258 9 77 true true (pos 3000) sent resent (unfold init in refl) refl (omega arith)
      refl

-- Three transactions of one peer, in the order of their message ids.
abbrev pending : ℕ → Pending
pending n = record {
  token = n * 100;
  msg_id = n * 10;
  saddr = 9;
  port = 5683;
  sent_code = 1;
  active = true;
  multicast = false;
}

abbrev registry : Transactions
registry = record {
  tree = record {
    root = 2;
    links = record {
      lhs = λ n. if n == 2 then 1 else 0;
      rhs = λ n. if n == 2 then 3 else 0;
      parent = λ n. if n == 1 then 2 else if n == 3 then 2 else 0;
    };
  };
  pending = pending;
}

abbrev shape : Shape
shape = node (node leaf 1 leaf) 2 (node leaf 3 leaf)

registry-IsRegistry : IsRegistry registry shape
registry-IsRegistry = record {
  tree = (
    refl,
    omega arith,
    refl,
    (refl, omega arith, refl, refl, refl),
    (refl, omega arith, refl, refl, refl),
  );
  distinct = (
    (omega arith, tt, tt),
    (omega arith, tt, tt),
    ((omega arith, tt, tt), tt, tt),
    (tt, tt, tt, tt, tt),
    (tt, tt, tt, tt, tt),
  );
  ordered = ((omega arith, tt, tt), (omega arith, tt, tt), (tt, tt, tt, tt), (tt, tt, tt, tt));
}

new_msg_id_refines_example :
    (other : ℕ) × (find_via_msg_id registry 4 25 ≡ some other)
    × (((other ≢ 0) × (other ≢ 1) × (new_msg_id registry 4 1 25 ≡ some assertion_failed))
        ⊎ (((other ≡ 0) ⊎ (other ≡ 1)) × Renewed registry shape 1 4 25))
new_msg_id_refines_example =
    new_msg_id_refines registry shape 1 4 25 registry-IsRegistry (inr (inl (inl refl)))
      (omega arith) refl (omega arith)

four-IsNew : IsNew registry.tree 0 4 shape
four-IsNew = record {
  nonzero = omega arith;
  fresh = (omega arith, (omega arith, tt, tt), (omega arith, tt, tt));
  outside = omega arith;
  lhs = refl;
  rhs = refl;
  parent = refl;
}

begin_pending_refines_example :
    (found : ℕ) × (find_via_msg_id registry 4 (msg_id_of pending 4) ≡ some found)
    × (self' : Transactions) × (deleted : ℕ) × (begin_pending registry 4 4 25
        ≡ some (self', deleted))
    × (s' : Shape) × IsRegistry self' s'
    × (items s' ≡ put_ordered (msg_id_of self'.pending) 4 (list_without found (items shape)))
    × (find_via_msg_id self' 5 25 ≡ some 4)
begin_pending_refines_example =
    begin_pending_refines registry shape 4 4 25 registry-IsRegistry four-IsNew (omega arith)

end_pending_refines_example :
    (self' : Transactions) × (end_pending registry 4 3 ≡ some (self', 3))
    × (s' : Shape) × IsRegistry self' s'
    × (items s' ≡ list_without 3 (items shape))
    × (end_pending self' 4 3 ≡ some (self', 0))
end_pending_refines_example =
    end_pending_refines registry shape 3 4 registry-IsRegistry (inr (inr (inl refl))) (omega arith)
      refl (omega arith)

-- A response of code 2.05 with the token 300.
abbrev response : Response
response = record {
  tt = 2;
  code = 69;
  msg_id = 30;
  token = 44 ∷ 1 ∷ [];
  saddr = 9;
  port = 5683;
  has_observe_option = true;
  observe_value = 5;
}

match_response-Answers_example :
    (found : ℕ) × (match_response registry 4 response ≡ some found)
    × ((found ≡ 0) ⊎ (Answers registry response found × IsFromPeer registry response found))
match_response-Answers_example =
    match_response-Answers registry shape 4 response registry-IsRegistry (omega arith)

match_response_own_example : match_response registry 4 response ≡ some 3
match_response_own_example =
    match_response_own registry shape 4 3 response registry-IsRegistry (omega arith)
      (inr (inr (inl refl))) (omega arith) refl (inr refl) (inr (refl, refl))

-- The last notification had the number 2 ^ 24 - 1.
abbrev observing : Transaction
observing = record sent { last_observe = 16777215 }

skips_observation-is_newer_example : skips_observation observing response ≡ is_newer 16777215 5
skips_observation-is_newer_example =
    skips_observation-is_newer observing response refl refl (omega arith) (omega arith)
