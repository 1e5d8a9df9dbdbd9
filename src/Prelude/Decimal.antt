-- ===== src/Prelude/Decimal.antt =====
-- Decimal numbers as the C library prints (`%u`) and reads (`atoi`) them.
use Prim.Native.Nat.{ℕ, zero, suc, ◌+◌, ◌-◌, ◌*◌, ◌/◌, ◌%◌, ◌^◌, ◌<◌, ◌≤◌}
use mathlib.Core.Path.{◌≡◌, ap, ◌∙◌}
use mathlib.Core.Bool.{Bool, true, false, ◌&&◌}
use mathlib.Core.List.{List, [], ◌∷◌, ◌++◌, append_assoc}
use native.Mathlib.Omega.{arith}
use native.Mathlib.Decide.{dec_lt}
use smcp.Prelude.Tests.{ltb, leb, if◌then◌else◌}

-- With a digit of fuel for each digit.
pub digits : ℕ → ℕ → List ℕ
digits zero n = []
digits (suc fuel) n =
    let high = digits fuel (n / 10) in
    if ltb n 10 then (n + b'0') ∷ [] else high ++ ((n % 10 + b'0') ∷ [])

-- `%u` of a 32-bit number.
unfoldable pub print_dec : ℕ → List ℕ
unfolding digits
print_dec n = digits 10 n

-- The digits in front of a string, behind those that make `acc`.
unfoldable pub read_dec : ℕ → List ℕ → ℕ
read_dec acc [] = acc
read_dec acc (c ∷ s) = if leb b'0' c && leb c b'9' then read_dec (acc * 10 + (c - b'0')) s else acc

-- The numbers of at most `fuel + 1` digits are those below this.
abbrev capacity : ℕ → ℕ
capacity zero = 10
capacity (suc fuel) = 10 * capacity fuel

one_digit :
    (fuel n : ℕ) (rest : List ℕ)
    → n < 10
    → read_dec 0 (digits (suc fuel) n ++ rest) ≡ read_dec n rest
unfolding read_dec digits
one_digit fuel n rest h = ground arith

last_digit :
    (fuel n : ℕ) → 10 ≤ n → digits (suc fuel) n ≡ digits fuel (n / 10) ++ ((n % 10 + b'0') ∷ [])
unfolding digits
last_digit fuel n h = ground arith

read_digit : (n : ℕ) (rest : List ℕ) → read_dec (n / 10) ((n % 10 + b'0') ∷ rest) ≡ read_dec n rest
unfolding read_dec
read_digit n rest = ground (arith, ap (λ (k : ℕ). read_dec k rest) same)
  where
    same : n / 10 * 10 + (n % 10 + b'0' - b'0') ≡ n
    same = omega arith

read_dec-digits :
    (fuel n : ℕ) (rest : List ℕ)
    → n < capacity fuel
    → read_dec 0 (digits (suc fuel) n ++ rest) ≡ read_dec n rest
read_dec-digits zero n rest h = one_digit zero n rest h
read_dec-digits (suc fuel) n rest h = elim (dec_lt n 10) [
  | yes small ↦ one_digit (suc fuel) n rest small
  | no large ↦
      rw
        (
          last_digit (suc fuel) n (omega arith),
          append_assoc (digits (suc fuel) (n / 10)) ((n % 10 + b'0') ∷ []) rest,
        )
        (read_dec-digits fuel (n / 10) ((n % 10 + b'0') ∷ rest) (omega arith) ∙ read_digit n rest)
]

pub read_dec-print_dec :
    (n : ℕ) (rest : List ℕ) → n < 2 ^ 32 → read_dec 0 (print_dec n ++ rest) ≡ read_dec n rest
unfolding print_dec
read_dec-print_dec n rest h = read_dec-digits 9 n rest (omega arith)

-- The first character of a printed number is a digit.
abbrev pub starts_with_digit : List ℕ → Bool
starts_with_digit [] = false
starts_with_digit (c ∷ s) = leb b'0' c && leb c b'9'

digits-start : (fuel n : ℕ) (rest : List ℕ) → starts_with_digit (digits (suc fuel) n ++ rest) ≡ true
unfolding digits
digits-start zero n rest = elim (dec_lt n 10) [ yes small ↦ ground arith | no large ↦ ground arith ]
digits-start (suc fuel) n rest = elim (dec_lt n 10) [
  | yes small ↦ ground arith
  | no large ↦
      rw
        (
          last_digit (suc fuel) n (omega arith),
          append_assoc (digits (suc fuel) (n / 10)) ((n % 10 + b'0') ∷ []) rest,
        )
        (digits-start fuel (n / 10) ((n % 10 + b'0') ∷ rest))
]

pub print_dec-start : (n : ℕ) (rest : List ℕ) → starts_with_digit (print_dec n ++ rest) ≡ true
unfolding print_dec
print_dec-start n rest = digits-start 9 n rest
