-- ===== src/Outbound/Answer.antt =====
-- `smcp_outbound_begin` for an answer.
use smcp.Prelude.{ℕ, ◌+◌, ◌%◌, ◌^◌, ◌<◌, ◌≤◌, ◌≡◌, ◌≢◌, ◌⊎◌, refl, ap, arith}
use smcp.Prelude.{true, ==_ne}
use smcp.Prelude.Bytes.{Mem, read, read-agree, store, copy}
use smcp.Coap.Packet.{token_len, token}
use smcp.Coap.Option.Encode.{Outside}
use smcp.Outbound.{
  Session, set_token_len, start_content, choose_token, begin_header, begin, max_packet_length,
}
use smcp.Outbound.Begin.{
  Begun, begin_lem, begin_header_lem, set_token_len-fields, set_token_len-frame,
}

module _ (self : Session) (code tt_value : ℕ) (small : self.outbound.next_tid < 2 ^ 16)
    (le : token_len self.mem self.inbound_packet ≤ 8)
    (apart : (self.inbound_packet + 12 ≤ self.outbound.packet_bytes)
      ⊎ (self.outbound.packet_bytes + max_packet_length ≤ self.inbound_packet)) where
  abbrev q : ℕ
  q = self.inbound_packet

  abbrev n : ℕ
  n = token_len self.mem q

  abbrev head : Mem
  head = begin_header self code tt_value

  abbrev buffer : ℕ
  buffer = self.outbound.packet_bytes

  head-frame : (x : ℕ) → Outside x buffer (buffer + 4) → head x ≡ self.mem x
  head-frame = (begin_header_lem self code tt_value small).4

  same_length : token_len head q ≡ n
  same_length = ap (λ (x : ℕ). x % 16) (head-frame q (omega (arith, apart)))

  abbrev answer : Mem
  answer = copy (set_token_len head buffer n) (token buffer) (token q) n

  chosen :
      self.is_processing_message ≡ true
      → q ≢ 0
      → n ≢ 0
      → code ≢ 0
      → choose_token self code head buffer ≡ answer
  unfolding choose_token
  chosen processing some_packet some_token some_code =
      rw
        (
          same_length,
          processing,
          ==_ne q 0 some_packet,
          ==_ne n 0 some_token,
          ==_ne code 0 some_code,
        )
        refl

  answer-length : token_len answer buffer ≡ n
  unfolding copy
  answer-length = ground (arith, set_token_len-fields head buffer n le)

  answer-byte : (i : ℕ) → i < n → answer (token buffer + i) ≡ self.mem (token q + i)
  unfolding copy
  answer-byte i lt = ground (
    arith,
    set_token_len-frame head buffer n (token q + i) (omega (arith, apart, lt)),
    head-frame (token q + i) (omega (arith, apart, lt)),
  )

  marked-length : token_len (store answer (token buffer + token_len answer buffer) 0xff) buffer ≡ n
  unfolding store
  marked-length = ground (arith, answer-length)

  marked-token :
      read (store answer (token buffer + token_len answer buffer) 0xff) (token buffer) n
      ≡ read self.mem (token q) n
  unfolding store
  marked-token =
      read-agree _ self.mem (token buffer) (token q) n
        (λ i lt. ground (arith, answer-length, answer-byte i lt))

-- `smcp_outbound_begin` in answer to a message with a token of at most 8 bytes, its code not 0, that
-- stands outside of the buffer: a packet has begun as it does for any message, and it has the
-- token of the message that is answered.
pub begin_answer :
    (self : Session) (code tt_value : ℕ)
    → self.outbound.next_tid < 2 ^ 16
    → token_len self.mem self.inbound_packet ≤ 8
    → (self.inbound_packet + 12 ≤ self.outbound.packet_bytes)
      ⊎ (self.outbound.packet_bytes + max_packet_length ≤ self.inbound_packet)
    → self.is_processing_message ≡ true
    → self.inbound_packet ≢ 0
    → token_len self.mem self.inbound_packet ≢ 0
    → code ≢ 0
    → let self' = begin self code tt_value in
      Begun self code tt_value self'
      × (token_len self'.mem self'.outbound.packet ≡ token_len self.mem self.inbound_packet)
      × (read self'.mem (token self'.outbound.packet) (token_len self.mem self.inbound_packet)
          ≡ read self.mem (token self.inbound_packet) (token_len self.mem self.inbound_packet))
unfolding begin start_content
begin_answer self code tt_value small le apart processing some_packet some_token some_code = (
  begin_lem self code tt_value small le (omega (arith, apart)),
  rw (chosen self code tt_value small le apart processing some_packet some_token some_code)
      (marked-length self code tt_value small le apart),
  rw (chosen self code tt_value small le apart processing some_packet some_token some_code)
      (marked-token self code tt_value small le apart),
)
