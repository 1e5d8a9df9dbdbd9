-- ===== src/Inbound/Finish.antt =====
-- src/smcp/smcp-inbound.c: `smcp_inbound_finish_packet` around the scan of the options, which
-- Inbound/Scan.antt has, without cascade counts.
pub mod Reply
pub mod Unanswered
use smcp.Prelude.{ℕ, Bool, true, false, not, ◌&&◌, ◌||◌, Option, none, some, ◌==◌, if◌then◌else◌}
use smcp.Coap.Packet.{tt_of, code_of}
use smcp.Coap.Codes.{is_request, is_result}
use smcp.Outbound.{Session, Status, reset, begin_response, set_tt, set_token, send}

-- What the handler of a packet returns: the statuses that have a result code of their own.
pub data HandlerStatus : Type 0 where
  ok not_found not_implemented not_allowed unsupported_uri bad_option : HandlerStatus
  other : ℕ → HandlerStatus

abbrev pub is_success : HandlerStatus → Bool
is_success ok = true
is_success _ = false

-- `smcp_convert_status_to_result_code` of smcp.c
abbrev pub convert_status_to_result_code : HandlerStatus → ℕ
convert_status_to_result_code ok = 64
convert_status_to_result_code not_found = 132
convert_status_to_result_code not_implemented = 161
convert_status_to_result_code not_allowed = 133
convert_status_to_result_code unsupported_uri = 128
convert_status_to_result_code bad_option = 130
convert_status_to_result_code (other n) = 160

-- The code of the response to a request, 2.05, 2.04 or 2.02 where all went well.
abbrev pub reply_code : ℕ → Bool → HandlerStatus → ℕ
reply_code code is_dupe ret =
    if is_dupe || is_success ret
    then (if code == 1
        then 69
        else if code == 2 || code == 3
        then 68
        else if code == 4
        then 66
        else convert_status_to_result_code ret)
    else convert_status_to_result_code ret

-- An empty message: a reset for an error, or else an acknowledgement.
abbrev pub empty_reply : Session → Bool → HandlerStatus → Session
empty_reply self is_dupe ret =
    let self1 = (begin_response self 0).1 in
    let tt = if not (is_success ret) && not is_dupe then 3 else 2 in
    (set_token (record self1 { mem = set_tt self1.mem self1.outbound.packet tt }) 0 0).1

-- The packet that is sent where no response has been sent. `explain` stands for
-- `smcp_outbound_set_var_content_int`, which prints the status.
unfoldable pub reply :
    (HandlerStatus → Session → Session) → Session → Bool → HandlerStatus → Session
unfolding reset begin_response set_tt set_token
reply explain self is_dupe ret =
    let code = code_of self.mem self.inbound_packet in
    let result_code = reply_code code is_dupe ret in
    let self1 = (begin_response (reset self) result_code).1 in
    if is_request code
    then (if result_code == 160 then explain (if is_dupe then ok else ret) self1 else self1)
    else empty_reply (reset self) is_dupe ret

-- The statuses of the whole: that of the handler, that of the sending, or SMCP_STATUS_FAILURE.
pub data Finished : Type 0 where
  refused : Finished
  handled : HandlerStatus → Finished
  replied : Status → Finished

-- The label `bail`.
abbrev pub finished : Session → Session
finished self = record self {
  is_processing_message = false;
  force_current_outbound_code = false;
  inbound_packet = 0;
}

-- The handlers of requests and of responses; a message with another code has none.
abbrev pub dispatch :
    (Session → HandlerStatus × Session)
    → (Session → HandlerStatus × Session)
    → Session
    → HandlerStatus × Session
dispatch handle_request handle_response self =
    let code = code_of self.mem self.inbound_packet in
    if is_request code
    then handle_request self
    else if is_result code
    then handle_response self
    else (ok, self)

-- Whether the packet is confirmable and was not answered by its handler.
abbrev pub needs_reply : ℕ → Session → Bool
needs_reply tt self = not self.did_respond && tt == 0

unfoldable pub after_handler :
    (Session → Status)
    → (HandlerStatus → Session → Session)
    → ℕ
    → Bool
    → HandlerStatus × Session
    → Option (Finished × Session)
after_handler hook explain tt is_dupe (ret, self) =
    if needs_reply tt self
    then elim (send hook (reply explain self is_dupe ret)) [
      | none ↦ none
      | some (status, self') ↦ some (replied status, finished self')
    ]
    else some (handled ret, finished self)

-- `smcp_inbound_finish_packet`, for what the check of duplicates and the scan have found; the
-- transaction type is that of the packet.
unfoldable pub finish_packet :
    (Session → Status)
    → (HandlerStatus → Session → Session)
    → (Session → HandlerStatus × Session)
    → (Session → HandlerStatus × Session)
    → Bool
    → Bool
    → Session
    → Option (Finished × Session)
finish_packet hook explain handle_request handle_response was_sent_to_multicast is_dupe self =
    let tt = tt_of self.mem self.inbound_packet in
    if not self.is_processing_message || (was_sent_to_multicast && tt == 0)
    then some (refused, finished self)
    else after_handler hook explain tt is_dupe (dispatch handle_request handle_response self)
