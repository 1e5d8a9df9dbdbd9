-- ===== src/Coap/ContentType.antt =====
-- Names of content types: `coap_content_type_to_cstr` and `coap_content_type_from_cstr` of
-- src/smcp/coap.c. `none` is a NULL argument.
use smcp.Prelude.{
  ℕ, ◌%◌, ◌^◌, ◌<◌, ◌≡◌, refl, ◌⊎◌, inl, inr, arith, Bool, true, false, ◌&&◌, zero, suc,
}
use smcp.Prelude.{
  List, [], ◌∷◌, ◌++◌, ltb, ◌==◌, if◌then◌else◌, Option, none, some, lt→ltb, le→not-ltb,
}
use smcp.Prelude.Bytes.{codes}
use native.Mathlib.Decide.{dec_lt, ℕ_discrete}
use smcp.Prelude.Decimal.{
  print_dec, read_dec, read_dec-print_dec, starts_with_digit, print_dec-start,
}

-- `strhasprefix_const`
unfoldable pub has_prefix : List ℕ → List ℕ → Bool
has_prefix [] s = true
has_prefix (p ∷ ps) [] = false
has_prefix (p ∷ ps) (c ∷ s) = p == c && has_prefix ps s

unfoldable pub drop : ℕ → List ℕ → List ℕ
drop zero s = s
drop (suc n) [] = []
drop (suc n) (c ∷ s) = drop n s

-- The formats that number a content type without a name.
unfoldable pub numbered : ℕ → List ℕ
numbered ct =
    if ltb ct 20
    then codes "text/x-coap-" ++ (print_dec ct ++ codes ";charset=utf-8")
    else if ltb ct 40
    then codes "image/x-coap-" ++ (print_dec ct ++ [])
    else codes "application/x-coap-" ++ (print_dec ct ++ [])

unfoldable pub content_type_to_cstr : ℕ → List ℕ
content_type_to_cstr ct =
    if ct == 65535
    then codes "unknown"
    else if ct == 0
    then codes "text/plain;charset=utf-8"
    else if ct == 40
    then codes "application/link-format"
    else if ct == 41
    then codes "application/xml"
    else if ct == 42
    then codes "application/octet-stream"
    else if ct == 47
    then codes "application/exi"
    else if ct == 50
    then codes "application/json"
    else if ct == 65005
    then codes "application/x-www-form-urlencoded"
    else numbered ct

-- The prefixes of numbered content types, which are skipped.
unfoldable pub skip_numbered : List ℕ → List ℕ
unfolding has_prefix drop
skip_numbered x =
    if has_prefix (codes "application/x-coap-") x
    then drop 19 x
    else if has_prefix (codes "text/x-coap-") x
    then drop 12 x
    else if has_prefix (codes "image/x-coap-") x
    then drop 13 x
    else x

unfoldable pub named : List ℕ → ℕ
unfolding has_prefix
named x =
    if has_prefix (codes "text/plain") x
    then 0
    else if has_prefix (codes "application/xml") x
    then 0
    else if has_prefix (codes "application/exi") x
    then 47
    else if has_prefix (codes "application/link-format") x
    then 40
    else if has_prefix (codes "application/octet-stream") x
    then 42
    else if has_prefix (codes "application/json") x
    then 50
    else if has_prefix (codes "text/xml") x
    then 41
    else if has_prefix (codes "text/html") x
    then 3
    else if has_prefix (codes "application/x-www-form-urlencoded") x
    then 65005
    else if has_prefix (codes "text/") x
    then 0
    else 65535

from_skipped : List ℕ → ℕ
unfolding named
from_skipped x = if starts_with_digit x then read_dec 0 x % 2 ^ 16 else named x

-- `atoi` is `read_dec` on a string that starts with a digit.
unfoldable pub content_type_from_cstr : Option (List ℕ) → ℕ
unfolding skip_numbered from_skipped
content_type_from_cstr none = 65535
content_type_from_cstr (some x) = from_skipped (skip_numbered x)

-- A printed number, with what may stand behind it.
from_skipped-number :
    (ct : ℕ) (rest : List ℕ)
    → ct < 65536
    → read_dec ct rest ≡ ct
    → from_skipped (print_dec ct ++ rest) ≡ ct
unfolding from_skipped
from_skipped-number ct rest h e =
    rw (print_dec-start ct rest, read_dec-print_dec ct rest (omega arith), e) (omega arith)

text_number : (s : List ℕ) → skip_numbered (codes "text/x-coap-" ++ s) ≡ s
unfolding skip_numbered
text_number s = refl

image_number : (s : List ℕ) → skip_numbered (codes "image/x-coap-" ++ s) ≡ s
unfolding skip_numbered
image_number s = refl

application_number : (s : List ℕ) → skip_numbered (codes "application/x-coap-" ++ s) ≡ s
unfolding skip_numbered
application_number s = refl

content_type_from_cstr-numbered :
    (ct : ℕ) → ct < 65536 → content_type_from_cstr (some (numbered ct)) ≡ ct
unfolding content_type_from_cstr numbered
content_type_from_cstr-numbered ct h = elim (dec_lt ct 20) [
  | yes text ↦
      rw (lt→ltb ct 20 text, text_number (print_dec ct ++ codes ";charset=utf-8"))
        (from_skipped-number ct (codes ";charset=utf-8") h (unfold read_dec in refl))
  | no above ↦ elim (dec_lt ct 40) [
    | yes image ↦
        rw (le→not-ltb ct 20 (omega arith), lt→ltb ct 40 image, image_number (print_dec ct ++ []))
          (from_skipped-number ct [] h (unfold read_dec in refl))
    | no other ↦
        rw
          (
            le→not-ltb ct 20 (omega arith),
            le→not-ltb ct 40 (omega arith),
            application_number (print_dec ct ++ []),
          )
          (from_skipped-number ct [] h (unfold read_dec in refl))
  ]
]

-- `application/xml` is read as `text/plain`.
abbrev pub read_as : ℕ → ℕ
read_as ct = if ct == 41 then 0 else ct

-- The content types with a name of their own.
abbrev IsNamed : ℕ → Type 0
IsNamed ct =
    (ct ≡ 65535)
    ⊎ ((ct ≡ 0)
        ⊎ ((ct ≡ 40) ⊎ ((ct ≡ 41) ⊎ ((ct ≡ 42) ⊎ ((ct ≡ 47) ⊎ ((ct ≡ 50) ⊎ (ct ≡ 65005)))))))

content_type_to_cstr-numbered : (ct : ℕ) → ¬ IsNamed ct → content_type_to_cstr ct ≡ numbered ct
unfolding content_type_to_cstr
content_type_to_cstr-numbered ct h = ground arith

unknown_back :
    (ct : ℕ) → ct ≡ 65535 → content_type_from_cstr (some (content_type_to_cstr ct)) ≡ read_as ct
unfolding content_type_from_cstr content_type_to_cstr
unknown_back ct e = rw e

plain_back :
    (ct : ℕ) → ct ≡ 0 → content_type_from_cstr (some (content_type_to_cstr ct)) ≡ read_as ct
unfolding content_type_from_cstr content_type_to_cstr
plain_back ct e = rw e

link_back :
    (ct : ℕ) → ct ≡ 40 → content_type_from_cstr (some (content_type_to_cstr ct)) ≡ read_as ct
unfolding content_type_from_cstr content_type_to_cstr
link_back ct e = rw e

xml_back : (ct : ℕ) → ct ≡ 41 → content_type_from_cstr (some (content_type_to_cstr ct)) ≡ read_as ct
unfolding content_type_from_cstr content_type_to_cstr
xml_back ct e = rw e

octet_back :
    (ct : ℕ) → ct ≡ 42 → content_type_from_cstr (some (content_type_to_cstr ct)) ≡ read_as ct
unfolding content_type_from_cstr content_type_to_cstr
octet_back ct e = rw e

exi_back : (ct : ℕ) → ct ≡ 47 → content_type_from_cstr (some (content_type_to_cstr ct)) ≡ read_as ct
unfolding content_type_from_cstr content_type_to_cstr
exi_back ct e = rw e

json_back :
    (ct : ℕ) → ct ≡ 50 → content_type_from_cstr (some (content_type_to_cstr ct)) ≡ read_as ct
unfolding content_type_from_cstr content_type_to_cstr
json_back ct e = rw e

form_back :
    (ct : ℕ) → ct ≡ 65005 → content_type_from_cstr (some (content_type_to_cstr ct)) ≡ read_as ct
unfolding content_type_from_cstr content_type_to_cstr
form_back ct e = rw e

dec_sum {ℓ κ} : {A : Type ℓ} {B : Type κ} → Dec A → Dec B → Dec (A ⊎ B)
dec_sum (yes a) d = yes (inl a)
dec_sum (no na) (yes b) = yes (inr b)
dec_sum (no na) (no nb) = no (elim [ inl a ↦ na a | inr b ↦ nb b ])

dec_named : (ct : ℕ) → Dec (IsNamed ct)
dec_named ct = dec_sum (ℕ_discrete ct 65535) (
    dec_sum (ℕ_discrete ct 0) (
      dec_sum (ℕ_discrete ct 40) (
        dec_sum (ℕ_discrete ct 41) (
          dec_sum (ℕ_discrete ct 42)
            (dec_sum (ℕ_discrete ct 47) (dec_sum (ℕ_discrete ct 50) (ℕ_discrete ct 65005)))))))

-- What `coap_content_type_to_cstr` prints for a content type, `coap_content_type_from_cstr` reads
-- back, for every number of 16 bits but 41 (`application/xml`), which is read as 0 (`text/plain`).
pub content_type_from_cstr-to_cstr :
    (ct : ℕ) → ct < 65536 → content_type_from_cstr (some (content_type_to_cstr ct)) ≡ read_as ct
content_type_from_cstr-to_cstr ct h = elim (dec_named ct) [
  | yes (inl e) ↦ unknown_back ct e
  | yes (inr (inl e)) ↦ plain_back ct e
  | yes (inr (inr (inl e))) ↦ link_back ct e
  | yes (inr (inr (inr (inl e)))) ↦ xml_back ct e
  | yes (inr (inr (inr (inr (inl e))))) ↦ octet_back ct e
  | yes (inr (inr (inr (inr (inr (inl e)))))) ↦ exi_back ct e
  | yes (inr (inr (inr (inr (inr (inr (inl e))))))) ↦ json_back ct e
  | yes (inr (inr (inr (inr (inr (inr (inr e))))))) ↦ form_back ct e
  | no n ↦
      rw (content_type_to_cstr-numbered ct n, content_type_from_cstr-numbered ct h) (ground arith)
]
