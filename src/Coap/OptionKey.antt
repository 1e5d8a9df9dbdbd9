-- ===== src/Coap/OptionKey.antt =====
-- Option keys: their classes (src/smcp/coap.h) and their names, `coap_option_key_to_cstr`,
-- `coap_option_key_from_cstr` and `coap_option_value_is_string` of src/smcp/coap.c.
use smcp.Prelude.{ℕ, ◌+◌, ◌/◌, ◌%◌, ◌≡◌, ◌≢◌, ◌<◌, refl, arith, Bool, true, false, not, ◌&&◌, ◌||◌}
use smcp.Prelude.{List, [], ◌∷◌, ◌++◌, leb, ◌==◌, if◌then◌else◌}
use native.Mathlib.Decide.{dec_lt, ℕ_discrete}
use smcp.Prelude.Bytes.{codes, by_table, passes}
use smcp.Prelude.Decimal.{print_dec}

-- COAP_OPTION_IS_CRITICAL, COAP_OPTION_IS_UNSAFE and COAP_OPTION_IS_NOCACHEKEY: `(x)&1`, `(x)&2`
-- and `((x)&0x1e)==0x1c`.
unfoldable pub is_critical : ℕ → Bool
is_critical x = not (x % 2 == 0)

unfoldable pub is_unsafe : ℕ → Bool
is_unsafe x = not (x / 2 % 2 == 0)

unfoldable pub is_nocachekey : ℕ → Bool
is_nocachekey x = x / 2 % 16 == 14

-- The format of a key without a name.
unfoldable pub numbered : ℕ → List ℕ
unfolding is_critical is_unsafe is_nocachekey
numbered key =
    codes "X-CoAP-"
    ++ ((if is_critical key then codes "critical" else codes "elective")
        ++ ((if is_unsafe key then codes "-unsafe" else [])
            ++ ((if is_nocachekey key then codes "-nocachekey" else [])
                ++ (codes "-" ++ print_dec key))))

unfoldable pub option_key_to_cstr : ℕ → Bool → List ℕ
unfolding numbered
option_key_to_cstr key for_response =
    if key == 12
    then codes "Content-type"
    else if key == 14
    then codes "Max-age"
    else if key == 4
    then codes "Etag"
    else if key == 35
    then codes "Proxy-uri"
    else if key == 3
    then codes "URI-host"
    else if key == 7
    then codes "URI-port"
    else if key == 11
    then codes "URI-path"
    else if key == 15
    then codes "URI-query"
    else if key == 8
    then codes "Location-path"
    else if key == 20
    then codes "Location-query"
    else if key == 17
    then codes "Accept"
    else if key == 6
    then codes "Observe"
    else if key == 27
    then codes "Block1"
    else if key == 23
    then codes "Block2"
    else if key == 65101
    then codes "Cascade-count"
    else if key == 65102
    then (if for_response then codes "X-Authenticate" else codes "X-Authorization")
    else numbered key

to_lower : ℕ → ℕ
to_lower c = if leb b'A' c && leb c b'Z' then c + 32 else c

-- `strcasecmp(a, b) == 0`
same_nocase : List ℕ → List ℕ → Bool
unfolding to_lower
same_nocase [] [] = true
same_nocase [] (d ∷ t) = false
same_nocase (c ∷ s) [] = false
same_nocase (c ∷ s) (d ∷ t) = to_lower c == to_lower d && same_nocase s t

unfoldable pub option_key_from_cstr : List ℕ → ℕ
unfolding same_nocase
option_key_from_cstr key =
    if same_nocase key (codes "Content-type")
    then 12
    else if same_nocase key (codes "Max-age")
    then 14
    else if same_nocase key (codes "Etag")
    then 4
    else if same_nocase key (codes "URI-host")
    then 3
    else if same_nocase key (codes "Proxy-uri")
    then 35
    else if same_nocase key (codes "URI-port")
    then 7
    else if same_nocase key (codes "Location-path")
    then 8
    else if same_nocase key (codes "Location-query")
    then 20
    else if same_nocase key (codes "URI-path")
    then 11
    else if same_nocase key (codes "Accept")
    then 17
    else if same_nocase key (codes "Block1")
    then 27
    else if same_nocase key (codes "Block2")
    then 23
    else 65535

unfoldable pub value_is_string : ℕ → Bool
value_is_string key =
    key == 35 || key == 4 || key == 3 || key == 15 || key == 8 || key == 20 || key == 11

-- The keys whose names `coap_option_key_from_cstr` knows.
abbrev pub is_known : ℕ → Bool
is_known key =
    key == 12
    || key == 14
    || key == 4
    || key == 35
    || key == 3
    || key == 7
    || key == 11
    || key == 8
    || key == 20
    || key == 17
    || key == 27
    || key == 23

option_key_from_cstr-numbered : (key : ℕ) → option_key_from_cstr (numbered key) ≡ 65535
unfolding option_key_from_cstr numbered
option_key_from_cstr-numbered key = refl

-- All keys below 36, by evaluation.
low_keys :
    (b : Bool) (key : ℕ)
    → key < 36
    → option_key_from_cstr (option_key_to_cstr key b) ≡ (if is_known key then key else 65535)
unfolding option_key_from_cstr option_key_to_cstr passes print_dec
low_keys b = by_table 36 _ (λ key. if is_known key then key else 65535) refl

cascade_count : (b : Bool) → option_key_from_cstr (option_key_to_cstr 65101 b) ≡ 65535
unfolding option_key_from_cstr option_key_to_cstr
cascade_count b = refl

authenticate : (b : Bool) → option_key_from_cstr (option_key_to_cstr 65102 b) ≡ 65535
unfolding option_key_from_cstr option_key_to_cstr
authenticate true = refl
authenticate false = refl

option_key_to_cstr-numbered :
    (key : ℕ) (b : Bool)
    → 35 < key
    → key ≢ 65101
    → key ≢ 65102
    → option_key_to_cstr key b ≡ numbered key
unfolding option_key_to_cstr
option_key_to_cstr-numbered key b h nc na = ground arith

-- What `coap_option_key_to_cstr` prints, `coap_option_key_from_cstr` reads back exactly for twelve
-- keys; the printed names of all others are read as COAP_OPTION_INVALID, those of URI-query (15)
-- and Observe (6) too.
pub option_key_from_cstr-to_cstr :
    (key : ℕ) (for_response : Bool)
    → option_key_from_cstr (option_key_to_cstr key for_response)
      ≡ (if is_known key then key else 65535)
option_key_from_cstr-to_cstr key b = elim (dec_lt key 36) [
  | yes low ↦ low_keys b key low
  | no high ↦ elim (ℕ_discrete key 65101) [
    | yes cascade ↦ rw cascade (cascade_count b)
    | no other ↦ elim (ℕ_discrete key 65102) [
      | yes auth ↦ rw auth (authenticate b)
      | no rest ↦
          rw
            (
              option_key_to_cstr-numbered key b (omega arith) other rest,
              option_key_from_cstr-numbered key,
            )
            (ground arith)
    ]
  ]
]
