-- ===== src/Outbound/Values.antt =====
-- The values that options and contents are made of: bytes at an address, or a C string.
use smcp.Prelude.{ℕ, zero, suc, ◌+◌, ◌<◌, ◌≡◌, ◌≢◌, ◌⊎◌, inl, inr, refl, ap, ◌∙◌, arith}
use smcp.Prelude.{some, List, [], ◌∷◌, ◌++◌, length, length-append, All, if◌then◌else◌, ◌==◌, ==_ne}
use smcp.Prelude.Bytes.{Mem, store}
use smcp.Coap.Option.Format.{Holds, Holds-agree, Holds-split}
use smcp.Coap.Option.Encode.{Outside}
use smcp.Outbound.{strlen, value_length, cstr_len, store_list}

-- The value of the call's `value` and `len`: `len` bytes, or with SMCP_CSTR_LEN the characters in
-- front of a NUL.
abbrev pub IsValue : Mem → ℕ → ℕ → List ℕ → Type 0
IsValue m value len v =
    ((len ≢ cstr_len) × (len ≡ length v) × Holds m value v)
    ⊎ ((len ≡ cstr_len) × Holds m value (v ++ 0 ∷ []) × All (λ c. c ≢ 0) v)

strlen_lem :
    (m : Mem) (fuel a : ℕ) (v : List ℕ)
    → length v < fuel
    → Holds m a (v ++ 0 ∷ [])
    → All (λ c. c ≢ 0) v
    → strlen m fuel a ≡ some (length v)
unfolding strlen
strlen_lem m zero a v hf h nz = absurd (omega arith)
strlen_lem m (suc fuel) a [] hf h nz = rw (strlen, h.0) refl
strlen_lem m (suc fuel) a (c ∷ v) hf h nz =
    rw (strlen, h.0, ==_ne c 0 nz.0, strlen_lem m fuel (a + 1) v (omega arith) h.1 nz.1) refl

pub value_length_lem :
    (m : Mem) (value len : ℕ) (v : List ℕ)
    → length v < cstr_len
    → IsValue m value len v
    → value_length m value len ≡ some (length v)
unfolding value_length
value_length_lem m value len v small (inl (ne, e, h)) = rw (==_ne len cstr_len ne) (ap some e)
value_length_lem m value len v small (inr (e, h, nz)) =
    rw e (strlen_lem m cstr_len value v small h nz)

pub value-Holds : (m : Mem) (value len : ℕ) (v : List ℕ) → IsValue m value len v → Holds m value v
value-Holds m value len v (inl (ne, e, h)) = h
value-Holds m value len v (inr (e, h, nz)) = (Holds-split m value v (0 ∷ []) h).0

-- How many bytes of memory it is: with the NUL of a C string.
abbrev pub footprint : ℕ → List ℕ → ℕ
footprint len v = if len == cstr_len then length v + 1 else length v

-- A value stays where the memory around it does.
pub IsValue-agree :
    (m k : Mem) (value len : ℕ) (v : List ℕ)
    → ((i : ℕ) → i < footprint len v → k (value + i) ≡ m (value + i))
    → IsValue m value len v
    → IsValue k value len v
IsValue-agree m k value len v agree (inl (ne, e, h)) =
    inl (ne, e, Holds-agree m k value value v (λ i p. agree i (ground (arith, p, ne))) h)
IsValue-agree m k value len v agree (inr (e, h, nz)) = inr (
  e,
  Holds-agree m k value value (v ++ 0 ∷ [])
      (λ i p. agree i (ground (arith, length-append v (0 ∷ []), p, e))) h,
  nz,
)

pub store_list-frame :
    (m : Mem) (a : ℕ) (xs : List ℕ) (x : ℕ)
    → Outside x a (a + length xs)
    → store_list m a xs x ≡ m x
unfolding store_list store
store_list-frame m a [] x out = refl
store_list-frame m a (y ∷ xs) x out =
    store_list-frame (store m a y) (a + 1) xs x (omega (arith, out)) ∙ ground (arith, out)

pub store_list-Holds : (m : Mem) (a : ℕ) (xs : List ℕ) → Holds (store_list m a xs) a xs
unfolding store_list store
store_list-Holds m a [] = tt
store_list-Holds m a (y ∷ xs) = (
  store_list-frame (store m a y) (a + 1) xs a (inl (omega arith)) ∙ ground arith,
  store_list-Holds (store m a y) (a + 1) xs,
)
