-- ===== src/Coap/Option.antt =====
-- src/smcp/coap.c: `coap_decode_option`, `coap_encode_option` and `coap_insert_option`.
-- A `uint8_t*` is an address of `Mem`; NULL is `none`.
pub mod Format
pub mod Decode
pub mod Encode
pub mod RoundTrip
pub mod Sequence
pub mod Insert
pub mod Ordered
use smcp.Prelude.{ℕ, zero, suc, ◌+◌, ◌-◌, ◌*◌, ◌/◌, ◌%◌, ◌^◌, bit_or, Bool, true, false, ◌&&◌, ◌||◌}
use smcp.Prelude.{Option, none, some, ltb, leb, ◌==◌, if◌then◌else◌}
use smcp.Prelude.Bytes.{Mem, store, copy}
use mathlib.Core.Option

-- COAP_MAX_OPTION_VALUE_SIZE
abbrev pub max_value_size : ℕ
max_value_size = 1034

-- COAP_OPTION_INVALID
abbrev pub invalid : ℕ
invalid = 65535

-- What `coap_decode_option` leaves in `*key`, `*value` and `*lenP`, and its return value.
pub record Decoded : Type 0 where
  pub key : ℕ
  pub value : Option ℕ
  pub len : ℕ
  pub next : Option ℕ

-- `*key += delta`, on the 32 bits of the enum.
abbrev pub add_key : ℕ → ℕ → ℕ
add_key key delta = (key + delta) % 2 ^ 32

-- The end-of-options marker: either nibble is 15.
abbrev pub end_marker : Decoded
end_marker = record { key = invalid; value = none; len = 0; next = none }

-- The second `switch`, at the length nibble `len`, with `buffer` behind the delta.
decode_len : Mem → ℕ → ℕ → ℕ → Decoded
decode_len m buffer key len =
    if len == 13
    then found (13 + m buffer) (buffer + 1)
    else if len == 14
    then found ((269 + m (buffer + 1) + m buffer * 256) % 2 ^ 16) (buffer + 2)
    else if len == 15
    then end_marker
    else found len buffer
  where
    found : ℕ → ℕ → Decoded
    found l at = record { key = key; value = some at; len = l; next = some (at + l) }

-- The first `switch`, at the delta nibble. The length nibble was read before it.
pub decode_option : Mem → ℕ → ℕ → Decoded
decode_option m buffer key =
    if delta == 13
    then decode_len m (buffer + 2) (add_key key (13 + m (buffer + 1))) len
    else if delta == 14
    then decode_len m (buffer + 3) (add_key key (269 + m (buffer + 2) + m (buffer + 1) * 256)) len
    else if delta == 15
    then end_marker
    else decode_len m (buffer + 1) (add_key key delta) len
  where
    delta : ℕ
    delta = m buffer / 16

    len : ℕ
    len = m buffer % 16

-- The delta part of the header, and `value_offset` behind it.
encode_delta : Mem → ℕ → ℕ → Mem × ℕ
encode_delta m buffer delta =
    if leb 269 delta
    then (
      store (store (store m buffer (14 * 16)) (buffer + 1) ((delta - 269) / 256)) (buffer + 2)
          ((delta - 269) % 256),
      3,
    )
    else if leb 13 delta
    then (store (store m buffer (13 * 16)) (buffer + 1) ((delta % 256 + 256 - 13) % 256), 2)
    else (store m buffer (delta * 16 % 256), 1)

-- The length part of the header.
encode_len : Mem → ℕ → ℕ → ℕ → Mem × ℕ
encode_len m buffer offset len =
    if leb 269 len
    then (
      store
          (store (store m buffer (bit_or (m buffer) 14)) (buffer + offset)
            ((len - 269) / 256 % 256))
          (buffer + (offset + 1)) ((len - 269) % 256),
      offset + 2,
    )
    else if leb 13 len
    then (
      store (store m buffer (bit_or (m buffer) 13)) (buffer + offset)
          ((len % 256 + 256 - 13) % 256),
      offset + 1,
    )
    else (store m buffer (bit_or (m buffer) (len % 16)), offset)

-- `option_delta`, a uint16_t.
abbrev pub option_delta : ℕ → ℕ → ℕ
option_delta prev_key key = (key + 2 ^ 32 - prev_key) % 2 ^ 16

-- The new memory, and the address behind the option.
pub encode_option : Mem → ℕ → ℕ → ℕ → ℕ → ℕ → Mem × ℕ
encode_option m buffer prev_key key value len =
    let (m1, offset) = encode_delta m buffer (option_delta prev_key key) in
    let n = if ltb max_value_size len then max_value_size else len in
    let (m2, offset2) = encode_len m1 buffer offset n in
    (copy m2 (buffer + offset2) value n, buffer + offset2 + n)

-- The state of the search loop of `coap_insert_option`.
pub record Search : Type 0 where
  pub iter : Option ℕ
  pub iter_key : ℕ
  pub insertion_point : Option ℕ
  pub prev_key : ℕ

-- The body of the `do` loop, up to its tests.
abbrev pub advance : Mem → ℕ → Search → ℕ → Search
advance m key s at =
    let d = decode_option m at s.iter_key in
    if leb d.key key
    then record { iter = d.next; iter_key = d.key; insertion_point = d.next; prev_key = d.key }
    else record s { iter = d.next; iter_key = d.key }

-- `do … while(iter && iter<end_of_options)`, from the address `at`. `none`: out of fuel.
pub search : Mem → ℕ → ℕ → ℕ → Search → ℕ → Option Search
search m end key zero s at = none
search m end key (suc fuel) s at =
    let s' = advance m key s at in
    if ltb key s'.iter_key then some s' else elim s'.iter [
      | none ↦ some s'
      | some at' ↦ if ltb at' end then search m end key fuel s' at' else some s'
    ]

-- The unsigned difference of two keys.
abbrev sub_key : ℕ → ℕ → ℕ
sub_key a b = (a + 2 ^ 32 - b) % 2 ^ 32

abbrev bump : Bool → ℕ → ℕ
bump test n = if test then (n + 1) % 2 ^ 16 else n

-- `size_diff`, a uint16_t, in three steps: the size of the new option, less the bytes that extend
-- the delta of the option at `insertion_point`, and with those that extend its new delta.
pub new_option_size : ℕ → ℕ → ℕ → ℕ
new_option_size prev_key key len = bump (leb 269 (sub_key key prev_key)) (
    bump (leb 13 (sub_key key prev_key))
      (bump (leb 269 len) (bump (leb 13 len) ((len + 1) % 2 ^ 16))))

drop_extension : ℕ → ℕ → ℕ
drop_extension byte size =
    if byte / 16 == 13
    then (size + 2 ^ 16 - 1) % 2 ^ 16
    else if byte / 16 == 14
    then (size + 2 ^ 16 - 2) % 2 ^ 16
    else size

pub insertion_size : Mem → ℕ → ℕ → ℕ → ℕ → ℕ → ℕ
insertion_size m insertion_point prev_key key iter_key len = bump (leb 269 (sub_key iter_key key)) (
    bump (leb 13 (sub_key iter_key key))
      (drop_extension (m insertion_point) (new_option_size prev_key key len)))

-- NULL, with length 0, for the value behind a marker.
abbrev pub address : Option ℕ → ℕ
address none = 0
address (some a) = a

-- Encode the new option, and encode the first option behind it again for its new delta. That one
-- has been moved on by `size`.
pub encode_both : Mem → ℕ → ℕ → ℕ → ℕ → ℕ → ℕ → ℕ → Mem
encode_both moved ip size prev_key key iter_key value len =
    let next = decode_option moved (ip + size) 0 in
    let (m1, iter) = encode_option moved ip prev_key key value len in
    (encode_option m1 iter key iter_key (address next.value) next.len).0

-- The first branch: move the options from `insertion_point` on, then encode.
pub insert_before : Mem → ℕ → ℕ → ℕ → ℕ → ℕ → ℕ → ℕ → Mem × ℕ
insert_before m end ip prev_key key iter_key value len =
    let size = insertion_size m ip prev_key key iter_key len in
    let moved = if size == 0 then m else copy m (ip + size) ip (end - ip) in
    (encode_both moved ip size prev_key key iter_key value len, size)

pub append_option : Mem → ℕ → ℕ → ℕ → ℕ → ℕ → Mem × ℕ
append_option m end prev_key key value len =
    let (m1, iter) = encode_option m end prev_key key value len in (m1, (iter - end) % 2 ^ 16)

-- `iter && ((iter_key > key) || (iter < end_of_options))`
abbrev pub is_inside : ℕ → ℕ → Search → Bool
is_inside end key s = elim s.iter [ none ↦ false | some at ↦ ltb key s.iter_key || ltb at end ]

pub finish_insert : Mem → ℕ → ℕ → ℕ → ℕ → Search → Mem × ℕ
finish_insert m end key value len s =
    if is_inside end key s
    then insert_before m end (address s.insertion_point) s.prev_key key s.iter_key value len
    else append_option m end s.prev_key key value len

-- The new memory and `size_diff`. Each round of the search moves on by a byte at least.
pub insert_option : Mem → ℕ → ℕ → ℕ → ℕ → ℕ → Option (Mem × ℕ)
insert_option m start end key value len =
    if start == end
    then some (
        finish_insert m end key value len
          (record { iter = none; iter_key = 0; insertion_point = some start; prev_key = 0 }))
    else Option.map (finish_insert m end key value len) (
        search m end key (end - start + 1)
          (record { iter = some start; iter_key = 0; insertion_point = some start; prev_key = 0 })
          start)
