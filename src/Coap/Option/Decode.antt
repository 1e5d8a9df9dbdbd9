-- ===== src/Coap/Option/Decode.antt =====
-- `coap_decode_option` against the wire format.
use smcp.Prelude.{ℕ, ◌+◌, ◌^◌, ◌<◌, ◌≡◌, arith}
use smcp.Prelude.{some, length}
use smcp.Prelude.Bytes.{Mem}
use smcp.Coap.Option.{decode_option, decode_len}
use smcp.Coap.Option.Format.{Holds, header, nibble, extension}

-- The length part alone.
decode_len_lem :
    (m : Mem) (a key len : ℕ)
    → len < 2 ^ 16
    → Holds m a (extension len)
    → decode_len m a key (nibble len) ≡ record {
      key = key;
      value = some (a + length (extension len));
      len = len;
      next = some (a + length (extension len) + len);
    }
unfolding decode_len
decode_len_lem m a key len hl h = ground arith

-- A header in memory is decoded to its delta and its length, and to the address behind it.
pub decode_option-header :
    (m : Mem) (a key delta len : ℕ)
    → delta < 2 ^ 16
    → len < 2 ^ 16
    → key + delta < 2 ^ 32
    → Holds m a (header delta len)
    → decode_option m a key ≡ record {
      key = key + delta;
      value = some (a + length (header delta len));
      len = len;
      next = some (a + length (header delta len) + len);
    }
unfolding decode_option
decode_option-header m a key delta len hd hl hk h = ground (
  arith,
  decode_len_lem m (a + 1) (key + delta) len hl,
  decode_len_lem m (a + 1 + 1) (key + delta) len hl,
  decode_len_lem m (a + 1 + 1 + 1) (key + delta) len hl,
)

-- A decoded option ends behind its first byte.
pub decode_option_advances :
    (m : Mem) (a key next : ℕ) → (decode_option m a key).next ≡ some next → a < next
unfolding decode_option decode_len
decode_option_advances m a key next e = ground arith
