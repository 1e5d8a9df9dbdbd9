-- ===== src/FastHash.antt =====
-- src/smcp/fasthash.c: an incremental 32-bit hash.
use smcp.Prelude.{ℕ, ◌+◌, ◌*◌, ◌/◌, ◌%◌, ◌^◌, ◌<◌, ◌≡◌, refl, sym, arith}
use smcp.Prelude.{List, [], ◌∷◌, ◌++◌, ◌==◌, if◌then◌else◌, bit_or, bit_xor, length}

-- `struct fasthash_state_s`; all fields are uint32_t.
pub record State : Type 0 where
  pub hash : ℕ
  pub bytes : ℕ
  pub next : ℕ

unfoldable pub feed_block : State → ℕ → State
feed_block s blk = record s {
  hash = (bit_xor s.hash (bit_xor blk (s.bytes / 4)) * 1664525 + 1013904223) % 2 ^ 32;
}

unfoldable pub start : ℕ → State
unfolding feed_block
start salt = feed_block (record { hash = 0; bytes = 0; next = 0 }) salt

-- The byte is shifted to its place by the count before it is raised.
unfoldable pub feed_byte : State → ℕ → State
unfolding feed_block
feed_byte s byte =
    let next = bit_or s.next (byte * 2 ^ (8 * (s.bytes % 4)) % 2 ^ 32) in
    let s' = record s { bytes = (s.bytes + 1) % 2 ^ 32; next = next } in
    if s'.bytes % 4 == 0 then record (feed_block s' next) { next = 0 } else s'

unfoldable pub feed : State → List ℕ → State
unfolding feed_byte
feed s [] = s
feed s (byte ∷ rest) = feed (feed_byte s byte) rest

unfoldable pub finish : State → State
unfolding feed_block
finish s = if s.bytes % 4 == 0 then s else record (feed_block s s.next) { bytes = 0 }

unfoldable pub finish_uint32 : State → ℕ
unfolding finish
finish_uint32 s = (finish s).hash

unfoldable pub finish_uint16 : State → ℕ
unfolding finish
finish_uint16 s = (finish s).hash / 2 ^ 16 % 2 ^ 16

unfoldable pub finish_uint8 : State → ℕ
unfolding finish
finish_uint8 s = (finish s).hash / 2 ^ 24 % 2 ^ 8

feed-append : (s : State) (xs ys : List ℕ) → feed s (xs ++ ys) ≡ feed (feed s xs) ys
unfolding feed
feed-append s [] ys = refl
feed-append s (x ∷ xs) ys = feed-append (feed_byte s x) xs ys

-- The count of bytes, which wraps.
bytes-feed :
    (s : State) (xs : List ℕ)
    → s.bytes < 2 ^ 32
    → (feed s xs).bytes ≡ (s.bytes + length xs) % 2 ^ 32
unfolding feed
bytes-feed s [] h = omega arith
bytes-feed s (x ∷ xs) h = ground (arith, bytes-feed (feed_byte s x) xs)

feed-hash : (s : State) (xs : List ℕ) → s.hash < 2 ^ 32 → (feed s xs).hash < 2 ^ 32
unfolding feed
feed-hash s [] h = h
feed-hash s (x ∷ xs) h = ground (arith, feed-hash (feed_byte s x) xs)

-- The hash does not depend on how its input is cut into calls of `fasthash_feed`, the count of
-- bytes is that of all the input, and the finished hash fits 32 bits.
pub feed_incremental :
    (salt : ℕ) (xs ys : List ℕ)
    → (feed (feed (start salt) xs) ys ≡ feed (start salt) (xs ++ ys))
      × ((feed (start salt) xs).bytes ≡ length xs % 2 ^ 32)
      × (finish_uint32 (feed (start salt) xs) < 2 ^ 32)
feed_incremental salt xs ys = (
  sym (feed-append (start salt) xs ys),
  omega (arith, bytes-feed (start salt) xs (unfold start in omega arith), start_bytes),
  finished (feed (start salt) xs) (feed-hash (start salt) xs (unfold start in omega arith)),
)
  where
    start_bytes : (start salt).bytes ≡ 0
    start_bytes = unfold start in refl

    finished : (s : State) → s.hash < 2 ^ 32 → finish_uint32 s < 2 ^ 32
    finished s h = unfold finish_uint32 in ground arith
