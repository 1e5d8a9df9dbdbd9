-- ===== src/Url/Pieces/Quoted.antt =====
-- `quoted_cstr` and its destination.
use smcp.Prelude.{ℕ, zero, suc, ◌+◌, ◌≤◌, ◌≡◌, refl, arith}
use smcp.Prelude.{List, [], ◌∷◌, ◌==◌, if◌then◌else◌, length, length-append}
use smcp.Url.Pieces.{quoted_loop, quoted_cstr}

quoted_loop-fits :
    (src : List ℕ) (room : ℕ)
    → (length (quoted_loop src room) ≤ room) × (length (quoted_loop src room) ≤ length src)
unfolding quoted_loop
quoted_loop-fits [] zero = (omega arith, omega arith)
quoted_loop-fits (c ∷ src) zero = (omega arith, omega arith)
quoted_loop-fits [] (suc room) = (omega arith, omega arith)
quoted_loop-fits (c ∷ []) (suc room) = ground arith
quoted_loop-fits (c ∷ d ∷ src) (suc room) =
    ground (arith, quoted_loop-fits src room, quoted_loop-fits (d ∷ src) room)

-- `quoted_cstr` stores at most `dest_max_size` bytes, unless that is 0: then it stores one. It
-- stores at most three bytes more than the text has, and returns the number of bytes before its
-- NUL.
pub length-quoted_cstr :
    (src : List ℕ) (dest_max_size : ℕ)
    → (length (quoted_cstr src dest_max_size).0
        ≤ dest_max_size + (if dest_max_size == 0 then 1 else 0))
      × (length (quoted_cstr src dest_max_size).0 ≤ length src + 3)
      × (length (quoted_cstr src dest_max_size).0 ≡ (quoted_cstr src dest_max_size).1 + 1)
      × (length (quoted_cstr src 0).0 ≡ 1)
unfolding quoted_cstr
length-quoted_cstr src zero = (omega arith, omega arith, refl, refl)
length-quoted_cstr src (suc zero) = (omega arith, omega arith, refl, refl)
length-quoted_cstr src (suc (suc zero)) = (omega arith, omega arith, refl, refl)
length-quoted_cstr src (suc (suc (suc room))) =
    ground (arith, quoted_loop-fits src room, length-append (quoted_loop src room) (b'"' ∷ 0 ∷ []))
