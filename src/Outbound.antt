-- ===== src/Outbound.antt =====
-- src/smcp/smcp-outbound.c: the building of an outbound packet, with BSD sockets and without
-- cascade counts. `header` bit fields are those of a little-endian machine.
pub mod Sizes
pub mod Built
pub mod Begin
pub mod Answer
pub mod Values
pub mod Progress
pub mod Automatic
pub mod Adding
pub mod Underway
pub mod Edits
pub mod Reach
pub mod Respond
pub mod Accepted
use smcp.Prelude.{ℕ, zero, suc, ◌+◌, ◌-◌, ◌*◌, ◌/◌, ◌%◌, ◌^◌, Bool, true, false, not, ◌&&◌, ◌||◌}
use smcp.Prelude.{Option, none, some, List, [], ◌∷◌, length, ltb, ◌==◌, bit_and, if◌then◌else◌}
use smcp.Prelude.Bytes.{Mem, store, copy}
use smcp.Coap.Option.{insert_option, invalid}
use smcp.Coap.Packet.{version, tt_of, token_len, code_of, token}
use smcp.Coap.Codes.{result_100}
use smcp.Coap.Uint.{uint_value}

-- The results of the calls of this file, of the enum of smcp.h.
pub data Status : Type 0 where
  ok failure invalid_argument response_not_allowed message_too_big : Status

-- The fields of the current transaction that an outbound packet depends on.
pub record Transaction : Type 0 where
  pub token : ℕ
  pub next_block2 : ℕ
  pub flags : ℕ
  pub sent_code : ℕ

-- `self->outbound`, and the address of its `packet_bytes`.
pub record Outbound : Type 0 where
  pub packet : ℕ
  pub max_packet_len : ℕ
  pub content_ptr : ℕ
  pub content_len : ℕ
  pub next_tid : ℕ
  pub last_option_key : ℕ
  pub packet_bytes : ℕ

-- The instance with the memory that its pointers address. `block2` is the address of the local
-- variable of `smcp_outbound_add_options_up_to_key_`, and `uint` that of the parameter of
-- `smcp_outbound_add_option_uint`. The inbound packet is 0 if there is none.
pub record Session : Type 0 where
  pub mem : Mem
  pub inbound_packet : ℕ
  pub is_processing_message : Bool
  pub is_responding : Bool
  pub did_respond : Bool
  pub force_current_outbound_code : Bool
  pub current_transaction : Option Transaction
  pub outbound : Outbound
  pub block2 : ℕ
  pub uint : ℕ

-- SMCP_MAX_PACKET_LENGTH, of SMCP_MAX_CONTENT_LENGTH.
abbrev pub max_packet_length : ℕ
max_packet_length = 1024 + 8

-- SMCP_CSTR_LEN
abbrev pub cstr_len : ℕ
cstr_len = 65535

abbrev pub option_observe : ℕ
option_observe = 6

abbrev pub option_block2 : ℕ
option_block2 = 23

-- The stores into the header's fields.
unfoldable pub set_token_len : Mem → ℕ → ℕ → Mem
set_token_len m p v = store m p (m p / 16 * 16 + v % 16)

unfoldable pub set_tt : Mem → ℕ → ℕ → Mem
set_tt m p v = store m p (m p / 64 * 64 + v % 4 * 16 + m p % 16)

unfoldable pub set_version : Mem → ℕ → ℕ → Mem
set_version m p v = store m p (v % 4 * 64 + m p % 64)

unfoldable pub set_code_of : Mem → ℕ → ℕ → Mem
set_code_of m p v = store m (p + 1) (v % 256)

-- A uint16_t as it stands in memory.
unfoldable pub store16 : Mem → ℕ → ℕ → Mem
store16 m a v = store (store m a (v % 256)) (a + 1) (v / 256 % 256)

-- `packet->msg_id`
abbrev pub set_msg_id_of : Mem → ℕ → ℕ → Mem
set_msg_id_of m p v = store16 m (p + 2) v

unfoldable pub store_list : Mem → ℕ → List ℕ → Mem
store_list m a [] = m
store_list m a (x ∷ xs) = store_list (store m a x) (a + 1) xs

-- The place behind the token, where the options start.
abbrev pub options_start : Mem → ℕ → ℕ
options_start m p = token p + token_len m p

unfoldable pub drop : Session → Session
drop self = record self { is_responding = false; did_respond = true }

-- `memset(a, 0, n)`
unfoldable pub clear : Mem → ℕ → ℕ → Mem
clear m a n b = if ltb b a || not (ltb b (a + n)) then m b else 0

-- The whole of `self->outbound`, its buffer included.
unfoldable pub reset : Session → Session
reset self = record self {
  mem = clear self.mem self.outbound.packet_bytes (max_packet_length + 1);
  outbound = record {
    packet = 0;
    max_packet_len = 0;
    content_ptr = 0;
    content_len = 0;
    next_tid = 0;
    last_option_key = 0;
    packet_bytes = self.outbound.packet_bytes;
  };
  is_responding = false;
  did_respond = false;
}

-- `*content_ptr++ = 0xFF` behind the token, with no options and no content.
unfoldable pub start_content : Session → Session
start_content self =
    let at = options_start self.mem self.outbound.packet in
    record self {
      mem = store self.mem at 0xff;
      outbound = record self.outbound { content_ptr = at + 1; content_len = 0 };
    }

-- The token of the message that is answered, or that of the current transaction.
unfoldable pub choose_token : Session → ℕ → Mem → ℕ → Mem
choose_token self code m p =
    let answers =
      self.is_processing_message
      && not (self.inbound_packet == 0)
      && not (token_len m self.inbound_packet == 0)
      && not (code == 0) in
    if answers
    then copy (set_token_len m p (token_len m self.inbound_packet)) (token p)
        (token self.inbound_packet) (token_len m self.inbound_packet)
    else if not (code == 0) && ltb code result_100
    then elim self.current_transaction [
      | none ↦ set_token_len m p 0
      | some t ↦ store16 (set_token_len m p 2) (token p) t.token
    ]
    else set_token_len m p 0

-- The header that `smcp_outbound_begin` writes.
abbrev pub begin_header : Session → ℕ → ℕ → Mem
begin_header self code tt_value =
    let p = self.outbound.packet_bytes in
    set_version
      (set_code_of (set_msg_id_of (set_tt self.mem p tt_value) p self.outbound.next_tid) p code) p 1

unfoldable pub begin : Session → ℕ → ℕ → Session
begin self code tt_value =
    let p = self.outbound.packet_bytes in
    let self' = start_content (record self {
      mem = choose_token self code (begin_header self code tt_value) p;
      outbound = record self.outbound {
        packet = p;
        max_packet_len = max_packet_length;
        last_option_key = 0;
      };
    }) in
    record self' { force_current_outbound_code = false; is_responding = false }

unfoldable pub set_msg_id : Session → ℕ → Session
set_msg_id self tid = record self { mem = set_msg_id_of self.mem self.outbound.packet tid }

-- `smcp_inbound_get_msg_id`
abbrev pub inbound_msg_id : Session → ℕ
inbound_msg_id self = self.mem (self.inbound_packet + 2) + self.mem (self.inbound_packet + 3) * 256

-- A response that has begun is not begun again, and a second one is refused.
unfoldable pub begin_response : Session → ℕ → Status × Session
begin_response self code =
    let self1 =
      if self.is_processing_message
      then record self { outbound = record self.outbound { next_tid = inbound_msg_id self } }
      else self in
    let tt_value = if tt_of self.mem self.inbound_packet == 1 then 1 else 2 in
    let self2 = record (begin self1 code tt_value) { is_responding = true } in
    if self.did_respond
    then (response_not_allowed, record self { is_responding = false })
    else if self.is_responding
    then (ok, self)
    else if self.is_processing_message
    then (ok, set_msg_id self2 (inbound_msg_id self2))
    else (ok, self2)

unfoldable pub set_code : Session → ℕ → Session
set_code self code =
    if self.force_current_outbound_code
    then self
    else record self { mem = set_code_of self.mem self.outbound.packet code }

-- The content starts anew if the token's length changes.
unfoldable pub set_token : Session → ℕ → ℕ → Status × Session
set_token self from token_length =
    let p = self.outbound.packet in
    let self1 =
      if token_len self.mem p == token_length
      then self
      else start_content (record self { mem = set_token_len self.mem p token_length }) in
    if ltb 8 token_length
    then (invalid_argument, self)
    else (ok, record self1 { mem = copy self1.mem (token p) from token_length })

-- A coap_size_t has 16 bits.
unfoldable pub get_space_remaining : Outbound → ℕ
get_space_remaining out =
    let len = ((out.content_ptr - out.packet) % 2 ^ 16 + out.content_len) % 2 ^ 16 in
    if ltb len out.max_packet_len then out.max_packet_len - len else 0

-- `strlen`, over at most `fuel` characters; `none`: no NUL among them.
unfoldable pub strlen : Mem → ℕ → ℕ → Option ℕ
strlen m zero a = none
strlen m (suc fuel) a = elim (m a == 0) [
  | true ↦ some 0
  | false ↦ elim (strlen m fuel (a + 1)) [ none ↦ none | some n ↦ some (suc n) ]
]

-- The value's length, where SMCP_CSTR_LEN stands for that of a C string.
unfoldable pub value_length : Mem → ℕ → ℕ → Option ℕ
value_length m value len = if len == cstr_len then strlen m cstr_len value else some len

-- Where the options end: the marker behind them is removed, if there is one.
abbrev pub options_end : Session → ℕ
options_end self =
    let out = self.outbound in
    if out.content_ptr == options_start self.mem out.packet
    then out.content_ptr
    else out.content_ptr - 1

-- The new memory, with the marker behind the options at `end`.
abbrev pub with_option : Session → ℕ → ℕ → Mem → Session
with_option self key end m =
    let out = self.outbound in
    record self {
      mem = store m end 0xff;
      outbound = record out {
        content_ptr = end + 1;
        last_option_key = if ltb out.last_option_key key then key else out.last_option_key;
      };
    }

-- `smcp_outbound_add_option_` for a value of `len` bytes.
unfoldable pub add_sized : Session → ℕ → ℕ → ℕ → Option (Status × Session)
add_sized self key value len =
    let out = self.outbound in
    if ltb (get_space_remaining out) (len + 8)
    then some (message_too_big, self)
    else elim (insert_option self.mem (options_start self.mem out.packet) (options_end self) key
        value len) [
          | none ↦ none
          | some (m, size) ↦ some (ok, with_option self key (options_end self + size) m)
        ]

-- `smcp_outbound_add_option_`
unfoldable pub add_option_ : Session → ℕ → ℕ → ℕ → Option (Status × Session)
add_option_ self key value len = elim (value_length self.mem value len) [
  | none ↦ none
  | some n ↦ add_sized self key value n
]

-- The block that the current transaction asks for next; 0 if none.
abbrev pub next_block2_of : Session → ℕ
next_block2_of self = elim self.current_transaction [ none ↦ 0 | some t ↦ t.next_block2 ]

-- SMCP_TRANSACTION_OBSERVE
abbrev pub is_observing : Session → Bool
is_observing self = elim self.current_transaction [
  | none ↦ false
  | some t ↦ not (bit_and t.flags 2 == 0)
]

-- The conditions of the two options that are added by themselves.
abbrev pub wants_block2 : Session → ℕ → Bool
wants_block2 self key =
    not (next_block2_of self == 0)
    && (ltb self.outbound.last_option_key option_block2 && ltb option_block2 key)

-- A request's code.
abbrev pub is_request : Session → Bool
is_request self =
    let code = code_of self.mem self.outbound.packet in not (code == 0) && ltb code result_100

abbrev pub wants_observe : Session → ℕ → Bool
wants_observe self key =
    is_observing self
    && (ltb self.outbound.last_option_key option_observe
        && (ltb option_observe key && is_request self))

-- Where the bytes of a number stand in the four bytes of a local variable.
abbrev pub uint_at : ℕ → ℕ → ℕ
uint_at local number = local + (4 - length (uint_value number))

abbrev pub with_uint : Session → ℕ → ℕ → Session
with_uint self local number = record self {
  mem = store_list self.mem (uint_at local number) (uint_value number);
}

unfoldable pub add_block2 : Session → ℕ → Option (Status × Session)
add_block2 self key =
    if wants_block2 self key
    then add_option_ (with_uint self self.block2 (next_block2_of self)) option_block2
        (uint_at self.block2 (next_block2_of self)) (length (uint_value (next_block2_of self)))
    else some (ok, self)

-- With the status of what was added before it.
unfoldable pub add_observe : Status × Session → ℕ → Option (Status × Session)
add_observe (ret, self) key =
    if wants_observe self key then add_option_ self option_observe 0 0 else some (ret, self)

-- `smcp_outbound_add_options_up_to_key_`
unfoldable pub add_options_up_to_key : Session → ℕ → Option (Status × Session)
add_options_up_to_key self key = elim (add_block2 self key) [
  | none ↦ none
  | some done ↦ add_observe done key
]

-- What follows the options that are added by themselves, if that went well.
unfoldable pub add_given : Status × Session → ℕ → ℕ → ℕ → Option (Status × Session)
add_given (ok, self) key value len =
    if key == option_block2 && not (next_block2_of self == 0)
    then some (ok, self)
    else add_option_ self key value len
add_given (failure, self) key value len = some (failure, self)
add_given (invalid_argument, self) key value len = some (invalid_argument, self)
add_given (response_not_allowed, self) key value len = some (response_not_allowed, self)
add_given (message_too_big, self) key value len = some (message_too_big, self)

unfoldable pub add_option : Session → ℕ → ℕ → ℕ → Option (Status × Session)
add_option self key value len = elim (add_options_up_to_key self key) [
  | none ↦ none
  | some done ↦ add_given done key value len
]

unfoldable pub add_option_uint : Session → ℕ → ℕ → Option (Status × Session)
add_option_uint self key value =
    add_option (with_uint self self.uint value) key (uint_at self.uint value)
      (length (uint_value value))

-- The session whose `content_ptr` `smcp_outbound_get_content_ptr` returns.
unfoldable pub get_content_ptr : Session → Option Session
get_content_ptr self =
    if code_of self.mem self.outbound.packet == 0
    then some self
    else elim (add_options_up_to_key self invalid) [ none ↦ none | some (ret, self') ↦ some self' ]

-- What is appended behind the content; the pointer is not NULL.
abbrev pub with_content : Session → ℕ → ℕ → Session
with_content self value len =
    let out = self.outbound in
    record self {
      mem = copy self.mem (out.content_ptr + out.content_len) value len;
      outbound = record out { content_len = (out.content_len + len) % 2 ^ 16 };
    }

-- `smcp_outbound_append_content` for `len` bytes.
unfoldable pub append_sized : Session → ℕ → ℕ → Option (Status × Session)
append_sized self value len =
    if ltb len (get_space_remaining self.outbound)
    then elim (get_content_ptr self) [
      | none ↦ none
      | some self' ↦ some (ok, with_content self' value len)
    ]
    else some (message_too_big, self)

unfoldable pub append_content : Session → ℕ → ℕ → Option (Status × Session)
append_content self value len = elim (value_length self.mem value len) [
  | none ↦ none
  | some n ↦ append_sized self value n
]

unfoldable pub set_content_len : Session → ℕ → Session
set_content_len self len = record self { outbound = record self.outbound { content_len = len } }

-- The size of the packet that `smcp_outbound_send_hook` hands to the socket: without the marker if
-- there is no content.
unfoldable pub message_size : Outbound → ℕ
message_size out =
    if out.content_len == 0
    then out.content_ptr - out.packet - 1
    else out.content_ptr - out.packet + out.content_len

abbrev pub is_ok : Status → Bool
is_ok ok = true
is_ok failure = false
is_ok invalid_argument = false
is_ok response_not_allowed = false
is_ok message_too_big = false

-- `sent_code` of the current transaction.
abbrev pub with_sent_code : Session → Session
with_sent_code self = record self {
  current_transaction = elim self.current_transaction [
    | none ↦ none
    | some t ↦ some (record t { sent_code = code_of self.mem self.outbound.packet })
  ];
}

-- After the hook.
abbrev pub after_hook : Status → Session → Status × Session
after_hook status self =
    if is_ok status
    then (
      ok,
      record self {
        did_respond = if self.is_responding then true else self.did_respond;
        is_responding = false;
      },
    )
    else (status, self)

-- `hook` stands for what `smcp_outbound_send_hook` does behind its call of
-- `smcp_outbound_get_content_ptr`: the socket's result.
unfoldable pub send : (Session → Status) → Session → Option (Status × Session)
send hook self = elim (get_content_ptr (with_sent_code self)) [
  | none ↦ none
  | some self' ↦ some (after_hook (hook self') self')
]
