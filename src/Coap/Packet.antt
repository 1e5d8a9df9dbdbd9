-- ===== src/Coap/Packet.antt =====
-- src/smcp/coap.c: `coap_verify_packet`, over `struct coap_header_s` of coap.h.
pub mod Walk
pub mod Accepts
use smcp.Prelude.{ℕ, zero, suc, ◌+◌, ◌-◌, ◌*◌, ◌/◌, ◌%◌, Bool, true, false, not, ◌&&◌, ◌||◌}
use smcp.Prelude.{Option, none, some, ltb, leb, ◌==◌, if◌then◌else◌}
use smcp.Prelude.Bytes.{Mem}
use smcp.Coap.Option.{decode_option}

-- The fields of the header at `p`, on a little-endian machine.
abbrev pub version : Mem → ℕ → ℕ
version m p = m p / 64

abbrev pub tt_of : Mem → ℕ → ℕ
tt_of m p = m p / 16 % 4

abbrev pub token_len : Mem → ℕ → ℕ
token_len m p = m p % 16

abbrev pub code_of : Mem → ℕ → ℕ
code_of m p = m (p + 1)

-- `header->token`
abbrev pub token : ℕ → ℕ
token p = p + 4

-- COAP_VERSION and COAP_MAX_MESSAGE_SIZE
abbrev pub coap_version : ℕ
coap_version = 1

abbrev pub max_message_size : ℕ
max_message_size = 1240

-- How the walk over the options ends. `stuck` is no outcome of the code: the fuel ran out.
pub data Walked : Type 0 where
  stuck corrupted : Walked
  stopped : ℕ → Walked

-- The `for` loop, from `option_ptr = at`; `end` is the end of the packet. The pointer is NULL only
-- right after `coap_decode_option`, where the body returns.
pub walk : Mem → ℕ → ℕ → ℕ → ℕ → Walked
walk m end zero key at = stuck
walk m end (suc fuel) key at =
    let d = decode_option m at key in
    if ltb at end && not (m at == 0xff)
    then elim d.next [
      | none ↦ corrupted
      | some next ↦ if ltb end next then corrupted else walk m end fuel d.key next
    ]
    else stopped at

-- What follows the loop.
abbrev check_end : Mem → ℕ → Walked → Option Bool
check_end m end stuck = none
check_end m end corrupted = some false
check_end m end (stopped at) =
    if ltb end at
    then some false
    else if ltb at end
    then (if m at == 0xff then some true else some false)
    else some true

-- `none` if the fuel ran out. Each round moves on by a byte at least.
pub verify_packet : Mem → ℕ → ℕ → Option Bool
verify_packet m packet size =
    if ltb size 4
    then some false
    else if not (version m packet == coap_version)
    then some false
    else if ltb max_message_size size
    then some false
    else if ltb 8 (token_len m packet)
    then some false
    else if code_of m packet == 0 && not (size == 4)
    then some false
    else check_end m (packet + size)
        (walk m (packet + size) (size + 1) 0 (token packet + token_len m packet))
