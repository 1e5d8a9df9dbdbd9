-- ===== src/Url/Percent/RoundTrip.antt =====
-- Decoding after encoding.
use smcp.Prelude.{
  ℕ, ◌+◌, ◌-◌, ◌*◌, ◌/◌, ◌%◌, ◌^◌, ◌<◌, ◌≤◌, ◌≡◌, ◌≢◌, ◌⊎◌, inl, inr, refl, sym, ap, ◌∙◌, arith,
  ==_ne,
}
use native.Mathlib.Decide.{ℕ_discrete}
use smcp.Prelude.{true, false, List, [], ◌∷◌, ◌++◌, map, length, All, if◌then◌else◌, Bool-cases}
use smcp.Url.Chars.{is_url_char, int_to_hex_digit, hex_digit_to_int}
use smcp.Url.Chars.{
  hex_digit_to_int-int_to_hex_digit, is_url_char-int_to_hex_digit, is_url_char-ne_zero,
}
use smcp.Url.Percent.{
  encode_loop, url_encode_cstr, decode_loop, url_decode_cstr, url_decode_cstr_inplace, text_of,
}
use smcp.Url.Percent.{is_escape, plain, hex_pair}

-- The characters of a C string: bytes, none of them NUL.
abbrev pub IsText : List ℕ → Type 0
IsText s = All (λ c. (c < 256) × (c ≢ 0)) s

-- The encoding of a string, with no limit.
abbrev pub encoding : List ℕ → List ℕ
encoding [] = []
encoding (c ∷ src) =
    if is_url_char c
    then c ∷ encoding src
    else b'%' ∷ int_to_hex_digit (c / 16) ∷ int_to_hex_digit (c % 16) ∷ encoding src

-- With room for the whole encoding the loop stores it and its NUL.
encode_loop-encoding :
    (src : List ℕ) (room : ℕ)
    → IsText src
    → length (encoding src) ≤ room
    → encode_loop src room ≡ (encoding src ++ (0 ∷ []), length (encoding src))
unfolding encode_loop
encode_loop-encoding [] room h fits = refl
encode_loop-encoding (c ∷ src) room h fits =
    ground (arith, encode_loop-encoding src (room - 1), encode_loop-encoding src (room - 3))

decode_loop-plain :
    (c : ℕ) (src : List ℕ) (room : ℕ)
    → c ≢ 0
    → c ≢ b'%'
    → 0 < room
    → decode_loop is_escape (c ∷ src) room ≡ (
      plain c ∷ (decode_loop is_escape src (room - 1)).0,
      (decode_loop is_escape src (room - 1)).1 + 1,
    )
unfolding decode_loop
decode_loop-plain c [] room ne np pos = ground arith
decode_loop-plain c (hi ∷ []) room ne np pos = ground arith
decode_loop-plain c (hi ∷ lo ∷ src) room ne np pos = ground arith

decode_loop-escape :
    (hi lo : ℕ) (src : List ℕ) (room : ℕ)
    → hi ≢ 0
    → lo ≢ 0
    → (hi ≢ b'0') ⊎ (lo ≢ b'0')
    → 0 < room
    → decode_loop is_escape (b'%' ∷ hi ∷ lo ∷ src) room ≡ (
      hex_pair hi lo ∷ (decode_loop is_escape src (room - 1)).0,
      (decode_loop is_escape src (room - 1)).1 + 1,
    )
unfolding decode_loop
decode_loop-escape hi lo src room nh nl nz pos = ground arith

is_url_char-plus : is_url_char b'+' ≡ true
unfolding is_url_char
is_url_char-plus = refl

is_url_char-percent : is_url_char b'%' ≡ false
unfolding is_url_char
is_url_char-percent = refl

-- The digit of 0 is the only one that is `0`.
digit_zero : (x : ℕ) → x < 16 → int_to_hex_digit x ≡ b'0' → x ≡ 0
digit_zero x h e =
    sym (hex_digit_to_int-int_to_hex_digit x h)
    ∙ ap hex_digit_to_int e
    ∙ (unfold hex_digit_to_int in refl)

-- An escaped character is read back.
decode_loop-byte :
    (c : ℕ) (src : List ℕ) (room : ℕ)
    → c < 256
    → c ≢ 0
    → 0 < room
    → decode_loop is_escape
        (b'%' ∷ int_to_hex_digit (c / 16) ∷ int_to_hex_digit (c % 16) ∷ src)
        room
      ≡ (c ∷ (decode_loop is_escape src (room - 1)).0, (decode_loop is_escape src (room - 1)).1 + 1)
decode_loop-byte c src room h ne pos =
    decode_loop-escape (int_to_hex_digit (c / 16)) (int_to_hex_digit (c % 16)) src room
      (is_url_char-ne_zero _ (is_url_char-int_to_hex_digit (c / 16) (omega arith)))
      (is_url_char-ne_zero _ (is_url_char-int_to_hex_digit (c % 16) (omega arith))) not_both pos
    ∙ ap
        (λ (b : ℕ). (
          b ∷ (decode_loop is_escape src (room - 1)).0,
          (decode_loop is_escape src (room - 1)).1 + 1,
        ))
        whole
  where
    not_both : (int_to_hex_digit (c / 16) ≢ b'0') ⊎ (int_to_hex_digit (c % 16) ≢ b'0')
    not_both = elim (ℕ_discrete (c / 16) 0) [
      | yes z ↦ inr (λ e. ne (omega (arith, digit_zero (c % 16) (omega arith) e)))
      | no nz ↦ inl (λ e. nz (digit_zero (c / 16) (omega arith) e))
    ]

    whole : hex_pair (int_to_hex_digit (c / 16)) (int_to_hex_digit (c % 16)) ≡ c
    whole = omega (
      arith,
      hex_digit_to_int-int_to_hex_digit (c / 16) (omega arith),
      hex_digit_to_int-int_to_hex_digit (c % 16) (omega arith),
    )

decode_loop-encoding :
    (src : List ℕ) (room : ℕ)
    → IsText src
    → length src ≤ room
    → decode_loop is_escape (encoding src) room ≡ (map plain src ++ (0 ∷ []), length src)
decode_loop-encoding [] room h fits = unfold decode_loop in refl
decode_loop-encoding (c ∷ src) room h fits = elim (Bool-cases (is_url_char c)) [
  | inl safe ↦
      rw
        (
          safe,
          decode_loop-plain c (encoding src) room h.0.1 (not_percent safe) (omega arith),
          decode_loop-encoding src (room - 1) h.1 (omega arith),
        )
        (ground arith)
  | inr coded ↦
      rw
        (
          coded,
          decode_loop-byte c (encoding src) room h.0.0 h.0.1 (omega arith),
          decode_loop-encoding src (room - 1) h.1 (omega arith),
        )
        (ground (arith, plus_is_safe coded))
]
  where
    not_percent : is_url_char c ≡ true → c ≢ b'%'
    not_percent safe e = cc (is_url_char-percent, ap is_url_char e)

    plus_is_safe : is_url_char c ≡ false → c ≢ b'+'
    plus_is_safe coded e = cc (coded, ap is_url_char e, is_url_char-plus)

abbrev NoNul : List ℕ → Type 0
NoNul s = All (λ c. c ≢ 0) s

text_of-append : (s : List ℕ) → NoNul s → text_of (s ++ (0 ∷ [])) ≡ s
unfolding text_of
text_of-append [] h = refl
text_of-append (c ∷ s) h = ground (arith, text_of-append s h.1)

encoding-NoNul : (s : List ℕ) → IsText s → NoNul (encoding s)
encoding-NoNul [] h = tt
encoding-NoNul (c ∷ s) h = elim (Bool-cases (is_url_char c)) [
  | inl safe ↦ rw safe (h.0.1, encoding-NoNul s h.1)
  | inr coded ↦ rw coded (
    (λ e. cc (e)),
    (
      is_url_char-ne_zero _ (is_url_char-int_to_hex_digit (c / 16) (omega arith)),
      (
        is_url_char-ne_zero _ (is_url_char-int_to_hex_digit (c % 16) (omega arith)),
        encoding-NoNul s h.1,
      ),
    ),
  )
]

length-encoding : (s : List ℕ) → length (encoding s) ≤ 3 * length s
length-encoding [] = omega arith
length-encoding (c ∷ s) = ground (arith, length-encoding s)

-- A text that is encoded and decoded, with room for both, comes back with each `+` turned into a
-- space: the encoder leaves `+` as it is and the decoder reads it as a space.
pub url_decode_cstr-url_encode_cstr :
    (s : List ℕ) (encoded decoded : ℕ)
    → IsText s
    → 3 * length s < encoded
    → length s < decoded
    → url_decode_cstr (text_of (url_encode_cstr s encoded).0) decoded
      ≡ (map plain s ++ (0 ∷ []), length s)
unfolding url_decode_cstr url_encode_cstr
url_decode_cstr-url_encode_cstr s encoded decoded h fe fd =
    rw
      (
        ==_ne encoded 0 (omega arith),
        ==_ne decoded 0 (omega arith),
        encode_loop-encoding s (encoded - 1) h (omega (arith, length-encoding s)),
        text_of-append (encoding s) (encoding-NoNul s h),
      )
      (decode_loop-encoding s (decoded - 1) h (omega arith))

map-plain-NoNul : (s : List ℕ) → IsText s → NoNul (map plain s)
map-plain-NoNul [] h = tt
map-plain-NoNul (c ∷ s) h = (ground (arith, h.0), map-plain-NoNul s h.1)

-- Decoding in place has room for all.
pub url_decode_cstr_inplace-encoding :
    (s : List ℕ)
    → IsText s
    → length s < 2 ^ 64 - 1
    → url_decode_cstr_inplace (encoding s) ≡ map plain s
unfolding url_decode_cstr_inplace url_decode_cstr
url_decode_cstr_inplace-encoding s h small =
    rw (decode_loop-encoding s (2 ^ 64 - 1 - 1) h (omega arith))
      (text_of-append (map plain s) (map-plain-NoNul s h))
