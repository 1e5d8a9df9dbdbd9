-- ===== src/Url/Percent.antt =====
-- src/smcp/url-helpers.c: `url_encode_cstr`, `url_decode_cstr` and `url_decode_str`.
-- A C string is the list of its characters; the end of the list is its NUL, and so is a 0 in it.
-- A result is the bytes that are stored from `dest` on, the final NUL included, and the return value.
pub mod Bounds
pub mod RoundTrip
use smcp.Prelude.{ℕ, ◌+◌, ◌-◌, ◌*◌, ◌/◌, ◌%◌, ◌^◌, Bool, true, false, not, ◌&&◌}
use smcp.Prelude.{List, [], ◌∷◌, ltb, leb, ◌==◌, if◌then◌else◌}
use smcp.Url.Chars.{is_url_char, int_to_hex_digit, hex_digit_to_int}

abbrev pub Stored : Type 0
Stored = List ℕ × ℕ

-- The loop, with `max_size = room` bytes left beside the NUL.
pub encode_loop : List ℕ → ℕ → Stored
encode_loop [] room = (0 ∷ [], 0)
encode_loop (c ∷ src) room =
    let one = encode_loop src (room - 1) in
    let three = encode_loop src (room - 3) in
    if c == 0
    then (0 ∷ [], 0)
    else if room == 0
    then (0 ∷ [], 1)
    else if is_url_char c
    then (c ∷ one.0, one.1 + 1)
    else if ltb room 3
    then (0 ∷ [], 1)
    else (b'%' ∷ int_to_hex_digit (c / 16) ∷ int_to_hex_digit (c % 16) ∷ three.0, three.1 + 3)

pub url_encode_cstr : List ℕ → ℕ → Stored
url_encode_cstr src max_size = if max_size == 0 then ([], 0) else encode_loop src (max_size - 1)

-- `(char)(hex_digit_to_int(hi) << 4) + hex_digit_to_int(lo)`
abbrev pub hex_pair : ℕ → ℕ → ℕ
hex_pair hi lo = (hex_digit_to_int hi * 16 + hex_digit_to_int lo) % 256

-- `+` stands for a space.
abbrev pub plain : ℕ → ℕ
plain c = if c == b'+' then b' ' else c

-- A round that reads `c` and writes `b`, with `rest` for the rounds behind it.
abbrev emit : ℕ → ℕ → ℕ → Stored → Stored
emit room c b rest =
    if c == 0 then (0 ∷ [], 0) else if room == 0 then (0 ∷ [], 1) else (b ∷ rest.0, rest.1 + 1)

-- The guards of the two decoders on `%`, `src[0]` and `src[1]`.
abbrev is_escape : ℕ → ℕ → ℕ → Bool
is_escape c hi lo = c == b'%' && not (hi == 0) && not (lo == 0) && not (hi == b'0' && lo == b'0')

abbrev is_escape_str : ℕ → ℕ → ℕ → Bool
is_escape_str c hi lo = c == b'%' && not (hi == 0) && not (lo == 0)

pub decode_loop : (ℕ → ℕ → ℕ → Bool) → List ℕ → ℕ → Stored
decode_loop escape [] room = (0 ∷ [], 0)
decode_loop escape (c ∷ []) room = emit room c (plain c) (0 ∷ [], 0)
decode_loop escape (c ∷ hi ∷ []) room =
    emit room c (plain c) (decode_loop escape (hi ∷ []) (room - 1))
decode_loop escape (c ∷ hi ∷ lo ∷ src) room =
    let after = decode_loop escape src (room - 1) in
    let next = decode_loop escape (hi ∷ lo ∷ src) (room - 1) in
    if escape c hi lo then emit room c (hex_pair hi lo) after else emit room c (plain c) next

-- With no room at all the NUL is stored all the same (`goto bail`).
pub url_decode_cstr : List ℕ → ℕ → Stored
url_decode_cstr src max_size =
    if max_size == 0 then (0 ∷ [], 0) else decode_loop is_escape src (max_size - 1)

-- The list is the `src_len` bytes from `src` on.
pub url_decode_str : ℕ → List ℕ → Stored
url_decode_str max_size src =
    if max_size == 0 then ([], 0) else decode_loop is_escape_str src (max_size - 1)

-- The characters of a stored C string.
pub text_of : List ℕ → List ℕ
text_of [] = []
text_of (c ∷ cs) = if c == 0 then [] else c ∷ text_of cs

-- `url_decode_cstr(str, str, -1)`: the size is SIZE_MAX. What is written never passes what is read.
pub url_decode_cstr_inplace : List ℕ → List ℕ
url_decode_cstr_inplace str = text_of (url_decode_cstr str (2 ^ 64 - 1)).0
