-- ===== src/Tests/Finish.antt =====
-- A request that its handler leaves unanswered, for the theorems on `smcp_inbound_finish_packet`.
use smcp.Prelude.{
  ℕ, ◌-◌, ◌≡◌, refl, arith, true, false, none, inl, ◌∷◌, [], get_or, ◌==◌, if◌then◌else◌,
}
use smcp.Prelude.Bytes.{Mem}
use smcp.Outbound.{Session, Status}
use smcp.Inbound.Finish.{HandlerStatus, not_found, ok, reply}
use smcp.Inbound.Finish.Reply.{IsAnswer, reply-IsAnswer}

-- A GET request with a token of two bytes at the address 100.
abbrev request : ℕ → Mem
request first a = get_or (first ∷ 1 ∷ 0x12 ∷ 0x34 ∷ 7 ∷ 9 ∷ []) (a - 100) 0

abbrev serving : ℕ → Session
serving first = record {
  mem = request first;
  inbound_packet = 100;
  is_processing_message = true;
  is_responding = false;
  did_respond = false;
  force_current_outbound_code = false;
  current_transaction = none;
  outbound = record {
    packet = 0;
    max_packet_len = 0;
    content_ptr = 0;
    content_len = 0;
    next_tid = 7;
    last_option_key = 0;
    packet_bytes = 2000;
  };
  block2 = 20;
  uint = 40;
}

abbrev unexplained : HandlerStatus → Session → Session
unexplained ret self = self

-- 4.04 for a confirmable request.
reply-IsAnswer_example :
    (begun : Session) × IsAnswer (serving 0x42) begun 132
    × (reply unexplained (serving 0x42) false not_found
        ≡ (if 132 == 160 then unexplained (if false then ok else not_found) begun else begun))
reply-IsAnswer_example =
    reply-IsAnswer unexplained (serving 0x42) false not_found refl (omega arith) refl refl
      (omega arith) (omega arith) (omega arith) (inl (omega arith))

abbrev handler : Session → HandlerStatus × Session
handler self = (not_found, self)

abbrev sends : Session → Status
sends self = Status.ok
