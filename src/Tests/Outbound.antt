-- ===== src/Tests/Outbound.antt =====
-- A session with a buffer at the address 2000, for the theorems on outbound packets.
use smcp.Prelude.{
  ℕ, ◌+◌, ◌-◌, ◌≡◌, ◌≢◌, ◌≤◌, refl, arith, inl, inr, true, false, some, none, List, [], ◌∷◌, get_or,
  if◌then◌else◌, ◌==◌, ◌∙◌,
}
use smcp.Prelude.Bytes.{read, Mem}
use smcp.Coap.Packet.{verify_packet, token_len, code_of, token}
use smcp.Coap.Packet.Walk.{verify_packet_sound}
use smcp.Coap.Packet.Accepts.{verify_packet_complete}
use smcp.Inbound.Options.{Inbound}
use smcp.Inbound.Scan.{Header, no_header, Content, scan_packet}
use smcp.Inbound.Scan.Inside.{scan_packet-Verified}
use smcp.Inbound.Scan.Collect.{collect, scan_packet_lem}
use smcp.Outbound.{
  Session, Status, start_content, begin, add_option_uint, add_sized, message_size,
  max_packet_length,
}
use smcp.Outbound.{ok, response_not_allowed, send, after_hook, begin_response}
use smcp.Outbound.Underway.{IsUnderway, with_fields-IsUnderway, send-goes}
use smcp.Outbound.Respond.{respond_once}
use smcp.Outbound.Answer.{begin_answer}
use smcp.Outbound.{get_space_remaining}
use smcp.Outbound.Built.{space_lem}
use smcp.Inbound.Scan.Collect.{AreValid}
use smcp.Coap.Option.Sequence.{add}
use smcp.Outbound.Begin.{Begun, begin_lem}
use smcp.Outbound.Built.{Added, add_sized_refines}
use smcp.Outbound.Progress.{Placed, Goes}
use smcp.Outbound.Adding.{add_option_uint-goes}
use smcp.Outbound.Reach.{none_left, then_step, adds_uint}
use smcp.Outbound.Accepted.{message_accepted, received, scan_packet-IsBuilt}

abbrev packet : List ℕ
packet = 0x40 ∷ 1 ∷ 0x12 ∷ 0x34 ∷ 0x31 ∷ b'a' ∷ 0xff ∷ 5 ∷ []

abbrev mem : Mem
mem a = get_or packet (a - 100) 0

abbrev inbound : Inbound
inbound = record { packet = 100; packet_len = 8; last_option_key = 0; this_option = 0 }

accepted : verify_packet mem 100 8 ≡ some true
accepted =
    verify_packet_complete mem 100 8 106 ((3, b'a' ∷ []) ∷ []) refl (omega arith) (omega arith)
      (λ e. absurd (omega arith)) (omega arith, omega arith, omega arith, tt) (refl, (refl, tt))
      refl (inr (omega arith, refl))

scan_packet-Verified_example :
    (h : Header) × (c : Content) × (scan_packet mem inbound ≡ some (h, c))
    × (token 100 + token_len mem 100 ≤ c.content_ptr)
    × (c.content_ptr + c.content_len ≡ 100 + 8)
scan_packet-Verified_example =
    scan_packet-Verified mem inbound (verify_packet_sound mem 100 8 accepted)

scan_packet_lem_example :
    scan_packet mem inbound
    ≡ some (
      collect ((3, b'a' ∷ []) ∷ []) no_header,
      if 106 == 100 + 8
          then record { content_ptr = 106; content_len = 0 }
          else record { content_ptr = 106 + 1; content_len = 100 + 8 - (106 + 1) },
    )
scan_packet_lem_example =
    scan_packet_lem mem inbound ((3, b'a' ∷ []) ∷ []) 106 (omega arith)
      (omega arith, omega arith, omega arith, tt) ((λ e. absurd (omega arith)), tt)
      (refl, (refl, tt)) refl (inr (omega arith, refl))

abbrev session : Session
session = record {
  mem = λ a. 0;
  inbound_packet = 0;
  is_processing_message = false;
  is_responding = false;
  did_respond = false;
  force_current_outbound_code = false;
  current_transaction = none;
  outbound = record {
    packet = 0;
    max_packet_len = 0;
    content_ptr = 0;
    content_len = 0;
    next_tid = 7;
    last_option_key = 0;
    packet_bytes = 2000;
  };
  block2 = 100;
  uint = 200;
}

Begun-session : Begun session 69 2 (begin session 69 2)
Begun-session = begin_lem session 69 2 (omega arith) (omega arith) (inl (omega arith))

placed : Placed (begin session 69 2)
unfolding begin start_content
placed = record {
  block2_elsewhere = inl (omega arith);
  uint_elsewhere = inl (omega arith);
  apart = inl (omega arith);
  block2_small = omega arith;
}

add_sized_refines_example :
    (status : Status) × (self' : Session) × (add_sized (begin session 69 2) 11 200 0
      ≡ some (status, self'))
    × Added (begin session 69 2) [] 11 0 [] status self'
add_sized_refines_example =
    add_sized_refines (begin session 69 2) [] 11 200 [] Begun-session.built (omega arith) tt
      (rw Begun-session.at_buffer (inl (omega arith)))

-- With the number 40 as its content type.
with_type :
    Goes (begin session 69 2).uint (begin session 69 2) (add_option_uint (begin session 69 2) 12 40)
with_type =
    add_option_uint-goes (begin session 69 2) [] 12 40 Begun-session.built placed (omega arith)
      (omega arith)

at_buffer : with_type.1.outbound.packet ≡ 2000
at_buffer = with_type.3.same.2 ∙ Begun-session.at_buffer

code_kept : with_type.1.mem 2001 ≡ (begin session 69 2).mem 2001
unfolding begin start_content
code_kept = with_type.3.kept 2001 (inl (omega arith)) (inr (omega arith)) (inr (omega arith))

begun_code : (begin session 69 2).mem 2001 ≡ 69
begun_code = rw Begun-session.at_buffer at Begun-session.code_set

code_lem : code_of with_type.1.mem with_type.1.outbound.packet ≢ 0
code_lem e = absurd (omega (arith, code_kept, begun_code, rw at_buffer at e))

message_accepted_example :
    (verify_packet with_type.1.mem with_type.1.outbound.packet (message_size with_type.1.outbound)
      ≡ some true)
    × (message_size with_type.1.outbound ≤ max_packet_length)
message_accepted_example =
    message_accepted session with_type.1 69 2 (omega arith) (omega arith) (inl (omega arith)) placed
      (then_step none_left (adds_uint 12 40 (omega arith) (omega arith) with_type.2)) code_lem

-- With an option of the key 11 and no value.
with_path :
    (status : Status) × (self' : Session) × (add_sized (begin session 69 2) 11 200 0
      ≡ some (status, self'))
    × Added (begin session 69 2) [] 11 0 [] status self'
with_path =
    add_sized_refines (begin session 69 2) [] 11 200 [] Begun-session.built (omega arith) tt
      (rw Begun-session.at_buffer (inl (omega arith)))

no_content : (begin session 69 2).outbound.content_len ≡ 0
unfolding begin start_content
no_content = refl

room : 8 ≤ get_space_remaining (begin session 69 2).outbound
room = omega (
  arith,
  space_lem (begin session 69 2) [] Begun-session.built,
  Begun-session.built.content,
  Begun-session.built.token_small,
  no_content,
)

now-AreValid : AreValid with_path.3.now
unfolding add
now-AreValid = elim with_path.3.outcome [
  | inl (e, now, enough) ↦ rw now ((λ e. absurd (omega arith)), tt)
  | inr (e, same, full) ↦ absurd (omega (arith, full, room))
]

scan_packet-IsBuilt_example :
    scan_packet with_path.1.mem (received with_path.1)
    ≡ some (
      collect with_path.3.now no_header,
      if with_path.1.outbound.content_len == 0
          then record { content_ptr = with_path.1.outbound.content_ptr - 1; content_len = 0 }
          else record {
            content_ptr = with_path.1.outbound.content_ptr;
            content_len = with_path.1.outbound.content_len;
          },
    )
scan_packet-IsBuilt_example =
    scan_packet-IsBuilt with_path.1 with_path.3.now with_path.3.built now-AreValid

-- The response whose packet has begun.
abbrev answering : Session
answering = record (begin session 69 2) { is_responding = true }

answering-IsUnderway : IsUnderway answering
answering-IsUnderway =
    with_fields-IsUnderway (begin session 69 2) (begin session 69 2).current_transaction true
      (begin session 69 2).did_respond refl ([], Begun-session.built, placed)

abbrev always : Session → Status
always s = ok

answered :
    (s : Session) × (send always answering ≡ some (after_hook ok s))
    × IsUnderway (after_hook ok s).1
    × (s.is_responding ≡ true)
answered = send-goes always answering answering-IsUnderway

respond_once_example :
    ((after_hook ok answered.0).1.did_respond ≡ true)
    × ((begin_response (after_hook ok answered.0).1 69).0 ≡ response_not_allowed)
respond_once_example =
    respond_once always answering (after_hook ok answered.0).1 69 answering-IsUnderway refl
      answered.1

-- A message at the address 100 with a token of two bytes, and the session that answers it.
abbrev question : Mem
question a = get_or (0x42 ∷ 1 ∷ 0x12 ∷ 0x34 ∷ 7 ∷ 9 ∷ []) (a - 100) 0

abbrev answerer : Session
answerer = record session { mem = question; inbound_packet = 100; is_processing_message = true }

begin_answer_example :
    let self' = begin answerer 69 2 in
    Begun answerer 69 2 self'
    × (token_len self'.mem self'.outbound.packet ≡ token_len question 100)
    × (read self'.mem (token self'.outbound.packet) (token_len question 100)
        ≡ read question (token 100) (token_len question 100))
begin_answer_example =
    begin_answer answerer 69 2 (omega arith) (omega arith) (inl (omega arith)) refl
      (λ e. absurd (omega arith)) (λ e. absurd (omega arith)) (λ e. absurd (omega arith))
