-- ===== src/Url/Chars.antt =====
-- src/smcp/url-helpers.c: `isurlchar` and the hexadecimal digits. A `char` is its byte.
use smcp.Prelude.{ℕ, ◌+◌, ◌-◌, ◌%◌, ◌<◌, ◌≡◌, ◌≢◌, refl, Bool, true, ◌&&◌, ◌||◌, arith}
use smcp.Prelude.{leb, ◌==◌, if◌then◌else◌, get_or}
use smcp.Prelude.Bytes.{codes, by_table, passes, passes_each}

-- `isalpha`, `isdigit` and `isalnum` of the C locale.
unfoldable pub is_alpha : ℕ → Bool
is_alpha c = leb b'a' c && leb c b'z' || leb b'A' c && leb c b'Z'

unfoldable pub is_digit : ℕ → Bool
is_digit c = leb b'0' c && leb c b'9'

unfoldable pub is_url_char : ℕ → Bool
unfolding is_alpha is_digit
is_url_char c =
    is_alpha c
    || is_digit c
    || c == b'$'
    || c == b'-'
    || c == b'_'
    || c == b'.'
    || c == b'+'
    || c == b'!'
    || c == b'*'
    || c == 39
    || c == b'('
    || c == b')'
    || c == b','

-- `"0123456789ABCDEF"[x & 0xF]`
unfoldable pub int_to_hex_digit : ℕ → ℕ
int_to_hex_digit x = get_or (codes "0123456789ABCDEF") (x % 16) 0

unfoldable pub hex_digit_to_int : ℕ → ℕ
hex_digit_to_int c =
    if leb b'0' c && leb c b'9'
    then c - b'0'
    else if leb b'A' c && leb c b'F'
    then 10 + c - b'A'
    else if leb b'a' c && leb c b'f'
    then 10 + c - b'a'
    else 0

-- Sixteen digits, each read back as its value.
pub hex_digit_to_int-int_to_hex_digit : (x : ℕ) → x < 16 → hex_digit_to_int (int_to_hex_digit x) ≡ x
unfolding hex_digit_to_int int_to_hex_digit passes
hex_digit_to_int-int_to_hex_digit = by_table 16 _ (λ x. x) refl

-- A hexadecimal digit is no NUL, and a character that is passed on as it is.
int_to_hex_digit_table : (x : ℕ) → x < 16 → (is_url_char (int_to_hex_digit x)) ≡ true
unfolding is_url_char int_to_hex_digit passes
int_to_hex_digit_table = λ x h. passes_each (λ y. is_url_char (int_to_hex_digit y)) 16 x refl h

pub is_url_char-int_to_hex_digit : (x : ℕ) → x < 16 → is_url_char (int_to_hex_digit x) ≡ true
is_url_char-int_to_hex_digit = int_to_hex_digit_table

pub is_url_char-ne_zero : (c : ℕ) → is_url_char c ≡ true → c ≢ 0
unfolding is_url_char
is_url_char-ne_zero c h e = ground arith
