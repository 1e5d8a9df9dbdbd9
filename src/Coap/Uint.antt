-- ===== src/Coap/Uint.antt =====
-- Numbers in option values: `coap_decode_uint32` and `coap_decode_block` of src/smcp/coap.c, and the
-- encoding side, `smcp_calc_uint32_option_size` and `smcp_outbound_add_option_uint` of
-- src/smcp/smcp-outbound.c.
use smcp.Prelude.{
  ℕ, zero, suc, ◌+◌, ◌-◌, ◌*◌, ◌/◌, ◌%◌, ◌^◌, ◌<◌, ◌≤◌, ◌≡◌, refl, ap, ap₂, ◌∙◌, arith,
}
use smcp.Prelude.{Bool, true, false, List, [], ◌∷◌, length, All, not, ◌==◌, if◌then◌else◌}
use smcp.Prelude.Bytes.{IsByte}

-- The loop of `coap_decode_uint32`, over the `value_len` bytes that are left.
decode_from : ℕ → List ℕ → ℕ
decode_from ret [] = ret
decode_from ret (b ∷ value) = decode_from ((ret * 256 % 2 ^ 32 + b) % 2 ^ 32) value

unfoldable pub decode_uint32 : List ℕ → ℕ
unfolding decode_from
decode_uint32 value = decode_from 0 value

-- `htonl(value)` in memory: the bytes of `value`, the highest first.
abbrev pub network_bytes : ℕ → List ℕ
network_bytes v = v / 2 ^ 24 % 256 ∷ v / 2 ^ 16 % 256 ∷ v / 256 % 256 ∷ v % 256 ∷ []

-- On the bytes of a big-endian value in memory.
unfoldable pub calc_uint32_option_size : ℕ → ℕ
calc_uint32_option_size v =
    if not (v / 2 ^ 24 % 256 == 0)
    then 4
    else if not (v / 2 ^ 16 % 256 == 0)
    then 3
    else if not (v / 256 % 256 == 0)
    then 2
    else if not (v % 256 == 0)
    then 1
    else 0

drop : ℕ → List ℕ → List ℕ
drop zero xs = xs
drop (suc n) [] = []
drop (suc n) (x ∷ xs) = drop n xs

-- The value that `smcp_outbound_add_option_uint` hands on: `((char*)&value)+(4-size)`, `size` bytes.
unfoldable pub uint_value : ℕ → List ℕ
unfolding drop calc_uint32_option_size
uint_value v = drop (4 - calc_uint32_option_size v) (network_bytes v)

-- Every uint32_t comes back from the option value that is written for it; that value has
-- `calc_uint32_option_size` bytes.
pub decode_uint32-uint_value :
    (v : ℕ)
    → v < 2 ^ 32
    → (decode_uint32 (uint_value v) ≡ v)
      × (length (uint_value v) ≡ calc_uint32_option_size v)
      × All IsByte (uint_value v)
unfolding decode_uint32 uint_value
decode_uint32-uint_value v h = ground arith

pub record BlockInfo : Type 0 where
  pub block_offset : ℕ
  pub block_size : ℕ
  pub block_m : Bool

-- `block_offset` is a uint32_t and `block_size` a uint16_t.
unfoldable pub decode_block : ℕ → BlockInfo
decode_block block =
    let size = 2 ^ (block % 8 + 4) % 2 ^ 16 in
    record {
      block_offset = block / 16 * size % 2 ^ 32;
      block_size = size;
      block_m = not (block / 8 % 2 == 0);
    }

abbrev pub more_bit : Bool → ℕ
more_bit true = 1
more_bit false = 0

-- At each of the eight exponents.
size_bound : (szx : ℕ) → szx < 8 → 2 ^ (szx + 4) ≤ 2048
size_bound zero h = omega arith
size_bound (suc zero) h = omega arith
size_bound (suc (suc zero)) h = omega arith
size_bound (suc (suc (suc zero))) h = omega arith
size_bound (suc (suc (suc (suc zero)))) h = omega arith
size_bound (suc (suc (suc (suc (suc zero))))) h = omega arith
size_bound (suc (suc (suc (suc (suc (suc zero)))))) h = omega arith
size_bound (suc (suc (suc (suc (suc (suc (suc zero))))))) h = omega arith
size_bound (suc (suc (suc (suc (suc (suc (suc (suc n)))))))) h = absurd (omega arith)

more_bit-read : (m : Bool) → not (more_bit m == 0) ≡ m
more_bit-read true = refl
more_bit-read false = refl

more_bit-le : (m : Bool) → more_bit m ≤ 1
more_bit-le true = omega arith
more_bit-le false = omega arith

-- A block option of block number `num`, more-flag `m` and size exponent `szx`: each field is read
-- as the block draft has it, for the 20-bit numbers of a 3-byte option.
pub decode_block_fields :
    (num szx : ℕ) (m : Bool)
    → num < 2 ^ 20
    → szx < 8
    → decode_block (num * 16 + more_bit m * 8 + szx)
      ≡ record { block_offset = num * 2 ^ (szx + 4); block_size = 2 ^ (szx + 4); block_m = m }
unfolding decode_block
decode_block_fields num szx m hn hs = λ i. record {
  block_offset =
      (ap₂ (λ (n s : ℕ). n * (2 ^ (s + 4) % 2 ^ 16) % 2 ^ 32) number exponent ∙ offset) i;
  block_size = (ap (λ (s : ℕ). 2 ^ (s + 4) % 2 ^ 16) exponent ∙ size) i;
  block_m = (ap (λ (b : ℕ). not (b == 0)) flag ∙ more_bit-read m) i;
}
  where
    block : ℕ
    block = num * 16 + more_bit m * 8 + szx

    number : block / 16 ≡ num
    number = omega (arith, more_bit-le m)

    exponent : block % 8 ≡ szx
    exponent = omega arith

    flag : block / 8 % 2 ≡ more_bit m
    flag = omega (arith, more_bit-le m)

    size : 2 ^ (szx + 4) % 2 ^ 16 ≡ 2 ^ (szx + 4)
    size = omega (arith, size_bound szx hs)

    bounded : num * 2 ^ (szx + 4) ≤ num * 2048
    bounded = grind (arith, size_bound szx hs)

    offset : num * (2 ^ (szx + 4) % 2 ^ 16) % 2 ^ 32 ≡ num * 2 ^ (szx + 4)
    offset = rw size (omega (arith, bounded))
