-- ===== src/Prelude/Bytes.antt =====
-- Bytes, and the memory that C pointers address: one byte at each address.
use Prim.Native.Nat.{ℕ, zero, suc, ◌+◌, ◌-◌, ◌*◌, ◌/◌, ◌%◌, ◌<◌, bit_or}
use Prim.Native.Char.{code}
use Prim.Native.String.{String}
use mathlib.Core.Path.{◌≡◌, refl, ap}
use mathlib.Core.Bool.{Bool, true, ◌&&◌, false}
use mathlib.Core.List.{List, [], ◌∷◌}
use native.Mathlib.Omega.{arith}
use smcp.Prelude.Tests.{ltb, leb, ◌==◌, ==_iff, if◌then◌else◌}

abbrev pub IsByte : ℕ → Type 0
IsByte b = b < 256

-- The characters of a string literal.
abbrev pub codes : String → List ℕ
codes String.[] = []
codes (String.◌∷◌ c s) = code c ∷ codes s

abbrev pub Mem : Type 0
Mem = ℕ → ℕ

-- `*a = v`
unfoldable pub store : Mem → ℕ → ℕ → Mem
store m a v b = if b == a then v else m b

-- `memmove(dst, src, n)`; also `memcpy`, where the two ranges are apart or the same.
unfoldable pub copy : Mem → ℕ → ℕ → ℕ → Mem
copy m dst src n b = if leb dst b && ltb b (dst + n) then m (src + (b - dst)) else m b

-- The `n` bytes from address `a` on.
abbrev pub read : Mem → ℕ → ℕ → List ℕ
read m a zero = []
read m a (suc n) = m a ∷ read m (a + 1) n

-- Two memories agree on `n` bytes from `a` on.
pub read-agree :
    (m k : Mem) (a b n : ℕ) → ((i : ℕ) → i < n → m (a + i) ≡ k (b + i)) → read m a n ≡ read k b n
read-agree m k a b zero h = refl
read-agree m k a b (suc n) h =
    grind (arith, h 0, read-agree m k (a + 1) (b + 1) n (λ i p. grind (arith, h (i + 1))))

pub read-copy : (m : Mem) (dst src n : ℕ) → read (copy m dst src n) dst n ≡ read m src n
unfolding copy
read-copy m dst src n = read-agree (copy m dst src n) m dst src n (λ i p. ground arith)

-- A test on each of the first numbers, the last one first.
unfoldable pub passes : (ℕ → Bool) → ℕ → Bool
passes test zero = true
passes test (suc last) = if test last then passes test last else false

pub passes_each :
    (test : ℕ → Bool) (count i : ℕ) → passes test count ≡ true → i < count → test i ≡ true
unfolding passes
passes_each test zero i all_pass inside = absurd (omega arith)
passes_each test (suc last) i all_pass inside = ground (arith, passes_each test last i)

-- An equation between two functions, from their values at each number below `count`.
pub by_table :
    (count : ℕ) (left right : ℕ → ℕ)
    → passes (λ i. left i == right i) count ≡ true
    → (i : ℕ) → i < count
    → left i ≡ right i
by_table count left right all_pass i inside =
    (==_iff (left i) (right i)).0 (passes_each (λ i. left i == right i) count i all_pass inside)

nibbles_table : (x : ℕ) → x < 256 → bit_or (x / 16 * 16) (x % 16) ≡ x / 16 * 16 + x % 16
unfolding passes
nibbles_table = by_table 256 _ _ refl

-- `hi << 4 | lo` on two nibbles.
pub bit_or-nibbles : (hi lo : ℕ) → hi < 16 → lo < 16 → bit_or (hi * 16) lo ≡ hi * 16 + lo
bit_or-nibbles hi lo h l =
    let t : bit_or ((hi * 16 + lo) / 16 * 16) ((hi * 16 + lo) % 16)
        ≡ (hi * 16 + lo) / 16 * 16 + (hi * 16 + lo) % 16 =
      nibbles_table (hi * 16 + lo) (omega arith) in
    let e : (hi * 16 + lo) / 16 ≡ hi = omega arith in
    let f : (hi * 16 + lo) % 16 ≡ lo = omega arith in
    cc (t, ap (λ (z : ℕ). z * 16) e, f, ap (λ (z : ℕ). bit_or (z * 16) ((hi * 16 + lo) % 16)) e)
