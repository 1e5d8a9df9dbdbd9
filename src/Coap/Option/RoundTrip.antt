-- ===== src/Coap/Option/RoundTrip.antt =====
-- `coap_decode_option` after `coap_encode_option`.
use smcp.Prelude.{ℕ, ◌+◌, ◌-◌, ◌^◌, ◌<◌, ◌≤◌, ◌≡◌, ◌⊎◌, arith, some, length}
use smcp.Prelude.Bytes.{Mem}
use smcp.Coap.Option.{decode_option, encode_option}
use smcp.Coap.Option.Format.{header}
use smcp.Coap.Option.Decode.{decode_option-header}
use smcp.Coap.Option.Encode.{Encoded, encode_option_lem}

-- An option that `coap_encode_option` wrote behind an option of key `prev` is read back with its
-- key, its length and its value's bytes, and the next address is the one that the encoder returned.
-- The keys ascend by less than 2 ^ 16, the value has at most 1034 bytes, and these stood anywhere
-- but under the new header.
pub decode_option-encode_option :
    (m : Mem) (b prev key src n : ℕ)
    → prev ≤ key
    → key < prev + 2 ^ 16
    → key < 2 ^ 32
    → n ≤ 1034
    → (src + n ≤ b) ⊎ (b + length (header (key - prev) n) ≤ src)
    → let (k, end) = encode_option m b prev key src n in
      (at : ℕ) × (decode_option k b prev
        ≡ record { key = key; value = some at; len = n; next = some end })
      × ((i : ℕ) → i < n → k (at + i) ≡ m (src + i))
decode_option-encode_option m b prev key src n le near small hn apart =
    (b + length (header (key - prev) n), ground (arith, read_back, w.end), w.value)
  where
    w : Encoded m b (key - prev) src n (encode_option m b prev key src n)
    w = encode_option_lem m b prev key src n le near small hn apart

    read_back : decode_option (encode_option m b prev key src n).0 b prev ≡ record {
      key = prev + (key - prev);
      value = some (b + length (header (key - prev) n));
      len = n;
      next = some (b + length (header (key - prev) n) + n);
    }
    read_back =
        decode_option-header (encode_option m b prev key src n).0 b prev (key - prev) n
          (omega arith) (omega arith) (omega arith) w.head
