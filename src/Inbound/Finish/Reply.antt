-- ===== src/Inbound/Finish/Reply.antt =====
-- The packet that `smcp_inbound_finish_packet` answers a request with by itself.
use smcp.Prelude.{
  ℕ, ◌+◌, ◌*◌, ◌/◌, ◌%◌, ◌^◌, ◌<◌, ◌≤◌, ◌≡◌, ◌≢◌, ◌⊎◌, refl, sym, ap, subst, ◌∙◌, arith, Bool, true,
  false, ◌==◌, if◌then◌else◌, inl, inr,
}
use smcp.Prelude.Bytes.{Mem, read, read-agree, store}
use smcp.Coap.Packet.{tt_of, token_len, code_of, token}
use smcp.Coap.Codes.{is_request}
use smcp.Coap.Option.Encode.{Outside}
use smcp.Outbound.{
  start_content, Session, reset, clear, begin, begin_response, set_msg_id, store16, inbound_msg_id,
  max_packet_length,
}
use smcp.Outbound.Begin.{Begun}
use smcp.Outbound.Answer.{begin_answer}
use smcp.Inbound.Finish.{HandlerStatus, ok, reply_code, reply}

-- What the store of a message id leaves of a packet.
module _ (m : Mem) (p v : ℕ) (small : v < 2 ^ 16) where
  store_id-frame : (x : ℕ) → Outside x (p + 2) (p + 4) → store16 m (p + 2) v x ≡ m x
  unfolding store16 store
  store_id-frame x out = ground (arith, out)

  store_id-value : store16 m (p + 2) v (p + 2) + store16 m (p + 2) v (p + 3) * 256 ≡ v
  unfolding store16 store
  store_id-value = ground arith

-- The fields of the packet of `self'` that make it the answer to the inbound packet of `self`.
pub record IsAnswer (self self' : Session) (code : ℕ) : Type 0 where
  pub at_buffer : self'.outbound.packet ≡ self.outbound.packet_bytes
  pub acknowledges : tt_of self'.mem self'.outbound.packet ≡ 2
  pub code_set : code_of self'.mem self'.outbound.packet ≡ code
  pub msg_id_set :
      self'.mem (self'.outbound.packet + 2) + self'.mem (self'.outbound.packet + 3) * 256
      ≡ inbound_msg_id self
  pub token_length :
      token_len self'.mem self'.outbound.packet ≡ token_len self.mem self.inbound_packet
  pub token_bytes :
      read self'.mem (token self'.outbound.packet) (token_len self.mem self.inbound_packet)
      ≡ read self.mem (token self.inbound_packet) (token_len self.mem self.inbound_packet)

module _ (self : Session) (code : ℕ) (processing : self.is_processing_message ≡ true)
    (some_packet : self.inbound_packet ≢ 0) (confirmable : tt_of self.mem self.inbound_packet ≡ 0)
    (small_id : inbound_msg_id self < 2 ^ 16) (le : token_len self.mem self.inbound_packet ≤ 8)
    (some_token : token_len self.mem self.inbound_packet ≢ 0)
    (apart : (self.inbound_packet + 12 ≤ self.outbound.packet_bytes)
      ⊎ (self.outbound.packet_bytes + max_packet_length + 1 ≤ self.inbound_packet))
    (some_code : code ≢ 0) (small_code : code < 256) where
  abbrev q : ℕ
  q = self.inbound_packet

  clear-frame : (i : ℕ) → i < 12 → (reset self).mem (q + i) ≡ self.mem (q + i)
  unfolding reset clear
  clear-frame i lt = ground (arith, apart)

  clear-start : (reset self).mem q ≡ self.mem q
  unfolding reset clear
  clear-start = ground (arith, apart)

  clear-token : (i : ℕ) → i < 8 → (reset self).mem (token q + i) ≡ self.mem (token q + i)
  unfolding reset clear
  clear-token i lt = ground (arith, apart)

  -- The session that the response begins in.
  abbrev start : Session
  start = record (reset self) {
    outbound = record (reset self).outbound { next_tid = inbound_msg_id (reset self) };
  }

  same_id : inbound_msg_id (reset self) ≡ inbound_msg_id self
  unfolding reset
  same_id = omega (arith, clear-frame 2 (omega arith), clear-frame 3 (omega arith))

  abbrev begun : Session
  begun = record (begin start code 2) { is_responding = true }

  begin_reply : (begin_response (reset self) code).1 ≡ set_msg_id begun (inbound_msg_id begun)
  unfolding begin_response reset
  begin_reply = rw (processing, ap (λ (b : ℕ). b / 16 % 4) clear-start ∙ confirmable) refl

  answer :
      Begun start code 2 (begin start code 2)
      × (token_len (begin start code 2).mem (begin start code 2).outbound.packet
          ≡ token_len start.mem start.inbound_packet)
      × (read
            (begin start code 2).mem
            (token (begin start code 2).outbound.packet)
            (token_len start.mem start.inbound_packet)
          ≡ read start.mem (token start.inbound_packet) (token_len start.mem start.inbound_packet))
  unfolding reset
  answer =
      begin_answer start code 2 (omega (arith, same_id, small_id)) (omega (arith, clear-start, le))
        (omega (arith, apart)) processing some_packet
        (λ e. some_token (ap (λ (b : ℕ). b % 16) (sym clear-start) ∙ e)) some_code

  outside :
      (i : ℕ)
      → i < 12
      → Outside (q + i) self.outbound.packet_bytes (self.outbound.packet_bytes + max_packet_length)
  outside i lt = omega (arith, apart)

  begun_byte : (i : ℕ) → i < 12 → begun.mem (q + i) ≡ self.mem (q + i)
  unfolding reset
  begun_byte i lt = answer.0.frame (q + i) (outside i lt) ∙ clear-frame i lt

  begun_id : inbound_msg_id begun ≡ inbound_msg_id self
  unfolding reset begin start_content
  begun_id = omega (arith, begun_byte 2 (omega arith), begun_byte 3 (omega arith))

  same_length :
      read begun.mem (token begun.outbound.packet) (token_len self.mem q)
      ≡ read (reset self).mem (token q) (token_len self.mem q)
  unfolding reset
  same_length =
      subst
        (λ n. read begun.mem (token begun.outbound.packet) n ≡ read (reset self).mem (token q) n)
        (ap (λ (b : ℕ). b % 16) clear-start) answer.2

  answered : IsAnswer self (set_msg_id begun (inbound_msg_id begun)) code
  unfolding set_msg_id reset
  answered =
      let p = begun.outbound.packet in
      let v = inbound_msg_id begun in
      let small : v < 2 ^ 16 = omega (arith, begun_id, small_id) in
      let k = store16 begun.mem (p + 2) v in
      let first : k p ≡ begun.mem p = store_id-frame begun.mem p v small p (inl (omega arith)) in
      record {
        at_buffer = answer.0.at_buffer;
        acknowledges = ap (λ (b : ℕ). b / 16 % 4) first ∙ answer.0.tt_set;
        code_set =
            store_id-frame begun.mem p v small (p + 1) (inl (omega arith))
            ∙ answer.0.code_set
            ∙ omega (arith, small_code);
        msg_id_set = store_id-value begun.mem p v small ∙ begun_id;
        token_length = ap (λ (b : ℕ). b % 16) first ∙ answer.1 ∙ ap (λ (b : ℕ). b % 16) clear-start;
        token_bytes =
            read-agree k begun.mem (token p) (token p) (token_len self.mem q)
              (λ i lt. store_id-frame begun.mem p v small (token p + i) (inr (omega arith)))
            ∙ same_length
            ∙ read-agree (reset self).mem self.mem (token q) (token q) (token_len self.mem q)
                (λ i lt. clear-token i (omega (arith, lt, le)));
      }

of_true {ℓ} : {A : Type ℓ} (a b : A) (c : Bool) → c ≡ true → (if c then a else b) ≡ a
of_true a b true e = refl
of_true a b false e = cc e

reply_code_range :
    (code : ℕ) (is_dupe : Bool) (ret : HandlerStatus)
    → (reply_code code is_dupe ret ≢ 0) × (reply_code code is_dupe ret < 256)
reply_code_range code is_dupe ret = elim ret [ ok ↦ ground arith | _ ↦ ground arith ]

-- Where `smcp_inbound_finish_packet` answers a confirmable request with a token of 1 to 8 bytes by
-- itself, whatever was in the buffer, which stands apart from the inbound packet, the packet that
-- it begins is an acknowledgement in the buffer with the message id and the token of the request,
-- and with the code for the handler's status; only for 5.00 a content is added, which says more.
pub reply-IsAnswer :
    (explain : HandlerStatus → Session → Session) (self : Session) (is_dupe : Bool)
    (ret : HandlerStatus)
    → self.is_processing_message ≡ true
    → self.inbound_packet ≢ 0
    → tt_of self.mem self.inbound_packet ≡ 0
    → is_request (code_of self.mem self.inbound_packet) ≡ true
    → inbound_msg_id self < 2 ^ 16
    → token_len self.mem self.inbound_packet ≤ 8
    → token_len self.mem self.inbound_packet ≢ 0
    → (self.inbound_packet + 12 ≤ self.outbound.packet_bytes)
      ⊎ (self.outbound.packet_bytes + max_packet_length + 1 ≤ self.inbound_packet)
    → let code = reply_code (code_of self.mem self.inbound_packet) is_dupe ret in
      (begun : Session) × IsAnswer self begun code
      × (reply explain self is_dupe ret
          ≡ (if code == 160 then explain (if is_dupe then ok else ret) begun else begun))
unfolding reply
reply-IsAnswer explain self is_dupe ret processing some_packet confirmable request small_id le
      some_token apart =
    let code = reply_code (code_of self.mem self.inbound_packet) is_dupe ret in
    let (some_code, small_code) =
      reply_code_range (code_of self.mem self.inbound_packet) is_dupe ret in
    (
      (begin_response (reset self) code).1,
      subst (λ (s : Session). IsAnswer self s code)
          (sym (
            begin_reply self code processing some_packet confirmable small_id le some_token apart
              some_code small_code))
          (answered self code processing some_packet confirmable small_id le some_token apart
            some_code small_code),
      of_true _ _ (is_request (code_of self.mem self.inbound_packet)) request,
    )
