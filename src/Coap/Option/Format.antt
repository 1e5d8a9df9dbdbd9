-- ===== src/Coap/Option/Format.antt =====
-- The format of an option on the wire (RFC 7252, section 3.1), independent of the code in coap.c.
use smcp.Prelude.{ℕ, ◌+◌, ◌-◌, ◌*◌, ◌/◌, ◌%◌, ◌<◌, ◌≡◌, arith}
use smcp.Prelude.{List, [], ◌∷◌, ◌++◌, length, ltb, if◌then◌else◌}
use smcp.Prelude.Bytes.{Mem}

-- `bs` stands in memory from address `a` on.
abbrev pub Holds : Mem → ℕ → List ℕ → Type 0
Holds m a [] = Unit
Holds m a (x ∷ xs) = (m a ≡ x) × Holds m (a + 1) xs

-- A number in a header: its nibble, and the bytes that extend it.
abbrev pub nibble : ℕ → ℕ
nibble n = if ltb n 13 then n else if ltb n 269 then 13 else 14

abbrev pub extension : ℕ → List ℕ
extension n =
    if ltb n 13
    then []
    else if ltb n 269
    then (n - 13) ∷ []
    else (n - 269) / 256 ∷ (n - 269) % 256 ∷ []

abbrev pub header : ℕ → ℕ → List ℕ
header delta len = (nibble delta * 16 + nibble len) ∷ (extension delta ++ extension len)

abbrev pub option_bytes : ℕ → List ℕ → List ℕ
option_bytes delta value = header delta (length value) ++ value

module _ (m : Mem) where
  pub Holds-append :
      (a : ℕ) (xs ys : List ℕ) → Holds m a xs → Holds m (a + length xs) ys → Holds m a (xs ++ ys)
  Holds-append a [] ys h k = grind (arith)
  Holds-append a (x ∷ xs) ys h k = grind (arith, Holds-append (a + 1) xs ys)

-- What stands at `a` in `m` stands at `b` in `k`, if the bytes agree.
pub Holds-agree :
    (m k : Mem) (a b : ℕ) (xs : List ℕ)
    → ((i : ℕ) → i < length xs → k (b + i) ≡ m (a + i))
    → Holds m a xs
    → Holds k b xs
Holds-agree m k a b [] agree h = tt
Holds-agree m k a b (x ∷ xs) agree h = (
  grind (arith, agree 0),
  Holds-agree m k (a + 1) (b + 1) xs (λ i p. grind (arith, agree (i + 1))) h.1,
)

pub Holds-split :
    (m : Mem) (a : ℕ) (xs ys : List ℕ)
    → Holds m a (xs ++ ys)
    → Holds m a xs × Holds m (a + length xs) ys
Holds-split m a [] ys h = (tt, grind arith)
Holds-split m a (x ∷ xs) ys h = grind (arith, Holds-split m (a + 1) xs ys)
