-- ===== src/Inbound/Finish/Unanswered.antt =====
-- `smcp_inbound_finish_packet` for a request that its handler leaves unanswered.
use smcp.Prelude.{Option, none, some}
use smcp.Outbound.{Session, Status}
use smcp.Inbound.Finish.{Finished, replied, finished}

-- What the sending of the reply leaves.
abbrev pub sent : Option (Status × Session) → Option (Finished × Session)
sent o = elim o [ none ↦ none | some (status, self) ↦ some (replied status, finished self) ]
