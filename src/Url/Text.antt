-- ===== src/Url/Text.antt =====
-- src/smcp/url-helpers.c: `url_is_absolute`, `url_is_root` and `string_contains_colons`.
-- A C string is the list of its characters, with the NUL behind them.
use smcp.Prelude.{ℕ, zero, suc, ◌+◌, Bool, true, false, not, ◌&&◌, ◌||◌, Option, none, some}
use smcp.Prelude.{List, [], ◌∷◌, ◌==◌, if◌then◌else◌, get_or}
use smcp.Url.Chars.{is_alpha}

-- `s[i]`
abbrev pub char_at : List ℕ → ℕ → ℕ
char_at s i = get_or s i 0

-- How many characters from index `i` on a loop passes that goes on while `accept` holds. The NUL
-- ends it.
unfoldable pub run : (ℕ → Bool) → List ℕ → ℕ → ℕ
run accept [] i = 0
run accept (c ∷ s) (suc i) = run accept s i
run accept (c ∷ s) zero =
    let rest = run accept s 0 in if not (c == 0) && accept c then suc rest else 0

abbrev is_scheme_char : ℕ → Bool
is_scheme_char c = (is_alpha c || c == b'-') && not (c == b':')

unfoldable pub url_is_absolute : List ℕ → Bool
unfolding run
url_is_absolute uri = let n = run is_scheme_char uri 0 in not (n == 0) && char_at uri n == b':'

-- `while(url[0]=='/' && url[1]=='/') url++`, and the test behind it.
only_slash : List ℕ → Bool
only_slash [] = true
only_slash (c ∷ []) = c == 0 || c == b'/'
only_slash (c ∷ d ∷ url) =
    let rest = only_slash (d ∷ url) in
    if c == b'/' && d == b'/' then rest else c == 0 || (c == b'/' && d == 0)

-- The characters from index `n` on.
abbrev behind : ℕ → List ℕ → List ℕ
behind zero s = s
behind (suc n) [] = []
behind (suc n) (c ∷ s) = behind n s

abbrev is_host_char : ℕ → Bool
is_host_char c = not (c == b'/')

pub url_is_root : List ℕ → Bool
unfolding url_is_absolute run only_slash
url_is_root url =
    if not (is_alpha (char_at url 0))
    then false
    else if url_is_absolute url
    then (let n = run (λ c. is_alpha c && not (c == b':')) url 0 in
        if not (char_at url n == b':' && char_at url (n + 1) == b'/' && char_at url (n + 2) == b'/')
        then false
        else only_slash (behind (n + 3 + run is_host_char url (n + 3)) url))
    else only_slash url

-- `for(; (*str != ':') && *str; str++); return *str == ':';`
has_colon : List ℕ → Bool
has_colon [] = false
has_colon (c ∷ str) = c == b':' || (not (c == 0) && has_colon str)

-- `none` is a NULL argument.
pub string_contains_colons : Option (List ℕ) → Bool
unfolding has_colon
string_contains_colons none = false
string_contains_colons (some str) = has_colon str
