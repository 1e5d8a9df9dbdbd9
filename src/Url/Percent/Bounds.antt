-- ===== src/Url/Percent/Bounds.antt =====
-- What the percent codecs store fits the destination.
use smcp.Prelude.{ℕ, ◌+◌, ◌-◌, ◌≤◌, ◌≡◌, arith}
use smcp.Prelude.{Bool, List, [], ◌∷◌, length, ◌==◌, if◌then◌else◌}
use smcp.Url.Percent.{encode_loop, url_encode_cstr, decode_loop, url_decode_cstr, url_decode_str}
use smcp.Url.Percent.{is_escape, is_escape_str}

encode_loop-fits : (src : List ℕ) (room : ℕ) → length (encode_loop src room).0 ≤ room + 1
unfolding encode_loop
encode_loop-fits [] room = omega arith
encode_loop-fits (c ∷ src) room =
    ground (arith, encode_loop-fits src (room - 1), encode_loop-fits src (room - 3))

-- `url_encode_cstr` stores at most `max_size` bytes, its NUL included.
pub length-url_encode_cstr :
    (src : List ℕ) (max_size : ℕ) → length (url_encode_cstr src max_size).0 ≤ max_size
unfolding url_encode_cstr
length-url_encode_cstr src max_size = ground (arith, encode_loop-fits src (max_size - 1))

module _ (escape : ℕ → ℕ → ℕ → Bool) where
  decode_loop-fits :
      (src : List ℕ) (room : ℕ)
      → (length (decode_loop escape src room).0 ≤ room + 1)
        × (length (decode_loop escape src room).0 ≤ length src + 1)
  unfolding decode_loop
  decode_loop-fits [] room = omega arith
  decode_loop-fits (c ∷ []) room = ground arith
  decode_loop-fits (c ∷ hi ∷ []) room = ground (arith, decode_loop-fits (hi ∷ []) (room - 1))
  decode_loop-fits (c ∷ hi ∷ lo ∷ src) room =
      ground (arith, decode_loop-fits src (room - 1), decode_loop-fits (hi ∷ lo ∷ src) (room - 1))

-- Both decoders store at most one byte more than they read, so that a string can be decoded in
-- place. `url_decode_str` stores at most `max_size` bytes; `url_decode_cstr` does so too, unless
-- `max_size` is 0: then it stores one.
pub length-url_decode :
    (src : List ℕ) (max_size : ℕ)
    → (length (url_decode_str max_size src).0 ≤ max_size)
      × (length (url_decode_str max_size src).0 ≤ length src + 1)
      × (length (url_decode_cstr src max_size).0 ≤ max_size + (if max_size == 0 then 1 else 0))
      × (length (url_decode_cstr src max_size).0 ≤ length src + 1)
      × (length (url_decode_cstr src 0).0 ≡ 1)
unfolding url_decode_str url_decode_cstr
length-url_decode src max_size = ground (
  arith,
  decode_loop-fits is_escape src (max_size - 1),
  decode_loop-fits is_escape_str src (max_size - 1),
)
