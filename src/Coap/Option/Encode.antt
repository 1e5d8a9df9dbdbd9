-- ===== src/Coap/Option/Encode.antt =====
-- `coap_encode_option` against the wire format.
use smcp.Prelude.{ℕ, ◌+◌, ◌-◌, ◌*◌, ◌%◌, ◌^◌, ◌<◌, ◌≤◌, ◌≡◌, ◌≢◌, ◌⊎◌, ap, ◌∙◌, arith}
use smcp.Prelude.{length, le→not-ltb}
use smcp.Prelude.Bytes.{Mem, store, copy, bit_or-nibbles}
use smcp.Coap.Option.{encode_option, encode_delta, encode_len}
use smcp.Coap.Option.Format.{Holds, Holds-append, Holds-agree, header, nibble, extension}

-- The address `x` lies outside of [a, b).
abbrev pub Outside : ℕ → ℕ → ℕ → Type 0
Outside x a b = (x < a) ⊎ (b ≤ x)

module _ (m : Mem) (b d : ℕ) (hd : d < 2 ^ 16) where
  encode_delta-offset : (encode_delta m b d).1 ≡ 1 + length (extension d)
  unfolding encode_delta
  encode_delta-offset = ground arith

  encode_delta-nibble : (encode_delta m b d).0 b ≡ nibble d * 16
  unfolding encode_delta store
  encode_delta-nibble = ground arith

  encode_delta-extension : Holds (encode_delta m b d).0 (b + 1) (extension d)
  unfolding encode_delta store
  encode_delta-extension = ground arith

  encode_delta-frame :
      (x : ℕ) → Outside x b (b + (encode_delta m b d).1) → (encode_delta m b d).0 x ≡ m x
  unfolding encode_delta store
  encode_delta-frame x h = ground arith

module _ (m : Mem) (b o n hi : ℕ) (ho : 0 < o) (hn : n ≤ 1034) (hh : hi < 16)
    (h : m b ≡ hi * 16) where
  encode_len-offset : (encode_len m b o n).1 ≡ o + length (extension n)
  unfolding encode_len
  encode_len-offset = ground arith

  encode_len-nibble : (encode_len m b o n).0 b ≡ hi * 16 + nibble n
  unfolding encode_len store
  encode_len-nibble =
      ground (arith, bit_or-nibbles hi (n % 16), bit_or-nibbles hi 13, bit_or-nibbles hi 14)

  encode_len-extension : Holds (encode_len m b o n).0 (b + o) (extension n)
  unfolding encode_len store
  encode_len-extension = ground arith

  encode_len-frame :
      (x : ℕ)
      → x ≢ b
      → Outside x (b + o) (b + (encode_len m b o n).1)
      → (encode_len m b o n).0 x ≡ m x
  unfolding encode_len store
  encode_len-frame x ne out = ground arith

-- What a call of `coap_encode_option` leaves, for an option of the given delta whose value's `n`
-- bytes stood at `src`.
pub record Encoded (m : Mem) (b delta src n : ℕ) (out : Mem × ℕ) : Type 0 where
  pub end : out.1 ≡ b + (length (header delta n) + n)
  pub head : Holds out.0 b (header delta n)
  pub value : (i : ℕ) → i < n → out.0 (b + length (header delta n) + i) ≡ m (src + i)
  pub frame : (x : ℕ) → Outside x b (b + (length (header delta n) + n)) → out.0 x ≡ m x

length-header : (d n : ℕ) → length (header d n) ≡ 1 + length (extension d) + length (extension n)
length-header d n = ground arith

nibble-lt : (n : ℕ) → nibble n < 16
nibble-lt n = ground arith

-- The call's writes for a delta and a length in range: the two parts of the header, then the value.
abbrev header_part : Mem → ℕ → ℕ → ℕ → Mem × ℕ
header_part m b d n = encode_len (encode_delta m b d).0 b (encode_delta m b d).1 n

abbrev written : Mem → ℕ → ℕ → ℕ → ℕ → Mem × ℕ
written m b d src n = let (k, o) = header_part m b d n in (copy k (b + o) src n, b + o + n)

module _ (m : Mem) (b d n : ℕ) (hd : d < 2 ^ 16) (hn : n ≤ 1034) where
  abbrev delta_part : Mem × ℕ
  delta_part = encode_delta m b d

  abbrev len_part : Mem × ℕ
  len_part = header_part m b d n

  delta_offset : delta_part.1 ≡ 1 + length (extension d)
  delta_offset = encode_delta-offset m b d hd

  module _ (hi : ℕ) (hh : hi < 16) (h : delta_part.0 b ≡ hi * 16) where
    later_offset : len_part.1 ≡ delta_part.1 + length (extension n)
    later_offset =
        encode_len-offset delta_part.0 b delta_part.1 n hi (omega (arith, delta_offset)) hn hh h

  part_offset : len_part.1 ≡ length (header d n)
  part_offset = omega (
    arith,
    length-header d n,
    delta_offset,
    later_offset (nibble d) (nibble-lt d) (encode_delta-nibble m b d hd),
  )

  part_head : Holds len_part.0 b (header d n)
  part_head = (
    encode_len-nibble delta_part.0 b delta_part.1 n (nibble d) positive hn (nibble-lt d) first,
    Holds-append len_part.0 (b + 1) (extension d) (extension n)
        (Holds-agree delta_part.0 len_part.0 (b + 1) (b + 1) (extension d)
          (λ i p.
            encode_len-frame delta_part.0 b delta_part.1 n (nibble d) positive hn (nibble-lt d)
              first (b + 1 + i) (omega arith) (omega (arith, delta_offset)))
          (encode_delta-extension m b d hd))
        (rw place at (
          encode_len-extension delta_part.0 b delta_part.1 n (nibble d) positive hn (nibble-lt d)
            first)),
  )
    where
      first : delta_part.0 b ≡ nibble d * 16
      first = encode_delta-nibble m b d hd

      positive : 0 < delta_part.1
      positive = omega (arith, delta_offset)

      place : b + delta_part.1 ≡ b + 1 + length (extension d)
      place = omega (arith, delta_offset)

  part_frame : (x : ℕ) → Outside x b (b + length (header d n)) → len_part.0 x ≡ m x
  part_frame x out =
      encode_len-frame delta_part.0 b delta_part.1 n (nibble d) (omega (arith, delta_offset)) hn
        (nibble-lt d) (encode_delta-nibble m b d hd) x (omega (arith, length-header d n))
        (omega (arith, part_offset, delta_offset, length-header d n))
      ∙ encode_delta-frame m b d hd x (omega (arith, delta_offset, length-header d n))

  -- The value's copy behind the header.
  copied :
      (src : ℕ)
      → (src + n ≤ b) ⊎ (b + length (header d n) ≤ src)
      → Encoded m b d src n (written m b d src n)
  unfolding copy
  copied src apart = record {
    end = omega (arith, part_offset);
    head = Holds-agree len_part.0 _ b b (header d n) (λ i p. ground (arith, part_offset)) part_head;
    value = λ i p. ground (arith, part_offset, part_frame (src + i) (omega arith));
    frame = λ x out. ground (arith, part_offset, part_frame x (omega arith));
  }

-- The truncations of `coap_encode_option` do nothing in range.
encode_option-parts :
    (m : Mem) (b prev key src n : ℕ)
    → prev ≤ key
    → key < prev + 2 ^ 16
    → key < 2 ^ 32
    → n ≤ 1034
    → encode_option m b prev key src n ≡ written m b (key - prev) src n
unfolding encode_option
encode_option-parts m b prev key src n le near small hn =
    rw (le→not-ltb 1034 n hn) (ap (λ (d : ℕ). written m b d src n) same)
  where
    same : (key + 2 ^ 32 - prev) % 2 ^ 16 ≡ key - prev
    same = omega arith

-- An option of at most COAP_MAX_OPTION_VALUE_SIZE bytes is written in the wire format, whatever was
-- in memory; the value's bytes may stand anywhere but under the header that is written.
pub encode_option_lem :
    (m : Mem) (b prev key src n : ℕ)
    → prev ≤ key
    → key < prev + 2 ^ 16
    → key < 2 ^ 32
    → n ≤ 1034
    → (src + n ≤ b) ⊎ (b + length (header (key - prev) n) ≤ src)
    → Encoded m b (key - prev) src n (encode_option m b prev key src n)
encode_option_lem m b prev key src n le near small hn apart =
    rw (encode_option-parts m b prev key src n le near small hn)
      (copied m b (key - prev) n (omega arith) hn src apart)
