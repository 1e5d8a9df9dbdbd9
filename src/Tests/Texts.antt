-- ===== src/Tests/Texts.antt =====
-- Concrete texts, for the theorems on src/smcp/url-helpers.c and on the names in src/smcp/coap.c.
use smcp.Prelude.{◌≡◌, arith, [], ◌∷◌}
use smcp.Url.Percent.{url_encode_cstr, url_decode_cstr, text_of}
use smcp.Url.Percent.RoundTrip.{url_decode_cstr-url_encode_cstr}

url_decode_cstr-url_encode_cstr_example :
    url_decode_cstr (text_of (url_encode_cstr (b'a' ∷ b' ' ∷ b'+' ∷ []) 10).0) 4
    ≡ (b'a' ∷ b' ' ∷ b' ' ∷ 0 ∷ [], 3)
url_decode_cstr-url_encode_cstr_example =
    url_decode_cstr-url_encode_cstr (b'a' ∷ b' ' ∷ b'+' ∷ []) 10 4
      ((omega arith, λ e. cc (e)), ((omega arith, λ e. cc (e)), ((omega arith, λ e. cc (e)), tt)))
      (omega arith) (omega arith)
