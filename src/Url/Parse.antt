-- ===== src/Url/Parse.antt =====
-- src/smcp/url-helpers.c: `url_parse`, which cuts a URI into components in place.
-- The buffer is the list of the string's characters; a pointer into it is an index.
pub mod Bounds
use smcp.Prelude.{ℕ, zero, suc, ◌+◌, ◌-◌, Bool, true, false, not, ◌&&◌, ◌||◌, Option, none, some}
use smcp.Prelude.{List, [], ◌∷◌, ◌==◌, if◌then◌else◌}
use smcp.Url.Chars.{is_url_char}
use smcp.Url.Text.{char_at, run, url_is_absolute}

-- `*p = 0` at an index of the buffer. A store behind the buffer's end makes it longer.
abbrev pub zero_at : List ℕ → ℕ → List ℕ
zero_at [] zero = 0 ∷ []
zero_at [] (suc i) = 0 ∷ zero_at [] i
zero_at (c ∷ b) zero = 0 ∷ b
zero_at (c ∷ b) (suc i) = c ∷ zero_at b i

-- `struct url_components_s`
pub record UrlComponents : Type 0 where
  pub protocol : Option ℕ
  pub username : Option ℕ
  pub password : Option ℕ
  pub host : Option ℕ
  pub port : Option ℕ
  pub path : Option ℕ
  pub query : Option ℕ

abbrev pub no_components : UrlComponents
no_components = record {
  protocol = none;
  username = none;
  password = none;
  host = none;
  port = none;
  path = none;
  query = none;
}

-- The buffer, `*components` and `bytes_parsed`.
pub record Parsed : Type 0 where
  pub buffer : List ℕ
  pub components : UrlComponents
  pub bytes_parsed : ℕ

abbrev pub is_address_char : ℕ → Bool
is_address_char c =
    not (c == b'/')
    && (is_url_char c || c == b'[' || c == b']' || c == b':' || c == b'%' || c == b'@')

abbrev pub is_path_char : ℕ → Bool
is_path_char c =
    not (c == b'#')
    && not (c == b'?')
    && (is_url_char c
        || c == b'['
        || c == b']'
        || c == b':'
        || c == b'/'
        || c == b'='
        || c == b'&'
        || c == b'%')

abbrev pub is_query_char : ℕ → Bool
is_query_char c =
    not (c == b'#')
    && (is_url_char c
        || c == b'['
        || c == b']'
        || c == b':'
        || c == b'/'
        || c == b'='
        || c == b'&'
        || c == b'%'
        || c == b';')

-- What the backward loops over the address leave: the buffer, the number of the address's
-- characters before `addr_end + 1`, and `components->port` or `->password`.
pub record Scanned : Type 0 where
  pub buffer : List ℕ
  pub left : ℕ
  pub found : Option ℕ

-- The first loop, down from `addr_end = begin + left - 1`.
pub host_scan : ℕ → List ℕ → ℕ → Bool → Option ℕ → Scanned
host_scan begin b zero got_port port = record { buffer = b; left = 0; found = port }
host_scan begin b (suc left) got_port port =
    let c = char_at b (begin + left) in
    let closes = c == b']' in
    let is_port = not closes && (not got_port && c == b':') in
    let rest =
      host_scan begin (if closes || is_port then zero_at b (begin + left) else b) left
        (got_port || (closes || is_port)) (if is_port then some (begin + left + 1) else port) in
    if c == b'@' || c == b'[' then record { buffer = b; left = suc left; found = port } else rest

-- The second loop.
pub user_scan : ℕ → List ℕ → ℕ → Option ℕ → Scanned
user_scan begin b zero password = record { buffer = b; left = 0; found = password }
user_scan begin b (suc left) password =
    let c = char_at b (begin + left) in
    let is_colon = c == b':' in
    let rest =
      user_scan begin (if is_colon then zero_at b (begin + left) else b) left
        (if is_colon then some (begin + left + 1) else password) in
    if c == b'/' then record { buffer = b; left = suc left; found = password } else rest

-- `if(*addr_end=='@')` and its body, with the host at index `host`.
pub credentials : ℕ → List ℕ → ℕ → UrlComponents → List ℕ × UrlComponents
credentials begin b host components =
    if char_at b (begin + host - 1) == b'@'
    then (let s = user_scan begin (zero_at b (begin + host - 1)) host none in
        (
          s.buffer,
          record components {
            password = s.found;
            username =
                if char_at s.buffer (begin + s.left - 1) == b'/'
                then some (begin + s.left)
                else none;
          },
        ))
    else (b, components)

-- `if(*uri) { *uri = 0; bytes_parsed++; }`
pub finish : List ℕ → ℕ → UrlComponents → ℕ → Parsed
finish b at components bytes_parsed =
    if char_at b at == 0
    then record { buffer = b; components = components; bytes_parsed = bytes_parsed }
    else record { buffer = zero_at b at; components = components; bytes_parsed = bytes_parsed + 1 }

-- Behind the path: the query, if there is one, from `at` on.
pub parse_query : List ℕ → ℕ → UrlComponents → ℕ → Parsed
parse_query b at components bytes_parsed =
    let n = run is_query_char (zero_at b at) (at + 1) in
    if char_at b at == b'?'
    then finish (zero_at b at) (at + 1 + n) (record components { query = some (at + 1) })
        (bytes_parsed + 1 + n)
    else finish b at components bytes_parsed

-- From `skip_absolute_url_stuff` on.
pub parse_path : List ℕ → ℕ → UrlComponents → ℕ → Parsed
parse_path b uri components bytes_parsed =
    let n = run is_path_char b uri in
    parse_query b (uri + n) (record components { path = some uri }) (bytes_parsed + n)

-- The hostname's branch; the address starts at `begin`.
pub parse_address : List ℕ → ℕ → UrlComponents → ℕ → Parsed
parse_address b begin components bytes_parsed =
    let n = run is_address_char b begin in
    let more = not (char_at b (begin + n) == 0) in
    let s = host_scan begin (if more then zero_at b (begin + n) else b) n false none in
    let (b', components') =
      credentials begin s.buffer s.left
        (record components { port = s.found; host = some (begin + s.left) }) in
    parse_path b' (begin + n + (if more then 1 else 0)) components'
      (bytes_parsed + n + (if more then 1 else 0))

-- `url_parse`, on components that are all NULL.
pub url_parse : List ℕ → Parsed
url_parse uri =
    if not (url_is_absolute uri)
    then parse_path uri 0 no_components 0
    else if char_at uri n == 0
    then record { buffer = uri; components = with_protocol; bytes_parsed = n }
    else if char_at uri (n + 1) == 0
    then record { buffer = zero_at uri n; components = with_protocol; bytes_parsed = n + 1 }
    else if char_at uri (n + 1) == b'/' && char_at uri (n + 2) == b'/'
    then parse_address (zero_at uri n) (n + 3) with_protocol (n + 3)
    else parse_path (zero_at uri n) (n + 1) with_protocol (n + 1)
  where
    n : ℕ
    n = run (λ c. not (c == b':')) uri 0

    with_protocol : UrlComponents
    with_protocol = record no_components { protocol = some 0 }
