-- ===== src/Coap/Codes.antt =====
-- Result codes: src/smcp/coap.h and coap.c.
use smcp.Prelude.{ℕ, ◌+◌, ◌*◌, ◌/◌, ◌%◌, ◌^◌, ◌<◌, ◌≡◌, arith}
use smcp.Prelude.{Bool, not, ◌&&◌, ◌||◌, ltb, leb, ◌==◌, if◌then◌else◌}
use Prim.Native.String.{String}

-- `coap_to_http_code` takes a uint8_t and returns a uint16_t.
unfoldable pub coap_to_http_code : ℕ → ℕ
coap_to_http_code x = (x / 32 * 100 + x % 32) % 2 ^ 16

-- `http_to_coap_code` takes a uint16_t and returns a uint8_t.
unfoldable pub http_to_coap_code : ℕ → ℕ
http_to_coap_code x = (x / 100 * 32 + x % 100) % 2 ^ 8

-- COAP_RESULT_100 and others
abbrev pub result_100 : ℕ
result_100 = 32

abbrev pub is_request : ℕ → Bool
is_request code = ltb 0 code && ltb code result_100

abbrev pub is_result : ℕ → Bool
is_result code = code == 0 || leb result_100 code

-- The two conversions are inverse to one another: on every code byte, and on every HTTP code whose
-- class is below 8 and whose detail is below 32.
pub http_to_coap_code-coap_to_http_code :
    (x h : ℕ)
    → x < 256
    → h / 100 < 8
    → h % 100 < 32
    → (http_to_coap_code (coap_to_http_code x) ≡ x) × (coap_to_http_code (http_to_coap_code h) ≡ h)
unfolding http_to_coap_code coap_to_http_code
http_to_coap_code-coap_to_http_code x h hx hc hd = omega arith

-- A code is a request or a result, never both.
pub is_request-is_result : (code : ℕ) → is_result code ≡ not (is_request code)
is_request-is_result code = ground arith

unfoldable pub http_code_to_cstr : ℕ → String
http_code_to_cstr x =
    if x == 0
    then "EMPTY"
    else if x == 1
    then "GET"
    else if x == 2
    then "POST"
    else if x == 3
    then "PUT"
    else if x == 4
    then "DELETE"
    else if x == 100
    then "CONTINUE"
    else if x == 200
    then "OK"
    else if x == 205
    then "CONTENT"
    else if x == 203
    then "VALID"
    else if x == 201
    then "CREATED"
    else if x == 204
    then "CHANGED"
    else if x == 202
    then "DELETED"
    else if x == 206
    then "PARTIAL_CONTENT"
    else if x == 402
    then "BAD_OPTION"
    else if x == 406
    then "NOT_ACCEPTABLE"
    else if x == 304
    then "NOT_MODIFIED"
    else if x == 303
    then "SEE_OTHER"
    else if x == 307
    then "TEMPORARY_REDIRECT"
    else if x == 408
    then "REQUEST_TIMEOUT"
    else if x == 400
    then "BAD_REQUEST"
    else if x == 401
    then "UNAUTHORIZED"
    else if x == 403
    then "FORBIDDEN"
    else if x == 404
    then "NOT_FOUND"
    else if x == 405
    then "METHOD_NOT_ALLOWED"
    else if x == 409
    then "CONFLICT"
    else if x == 410
    then "GONE"
    else if x == 415
    then "UNSUPPORTED_MEDIA_TYPE"
    else if x == 500
    then "INTERNAL_SERVER_ERROR"
    else if x == 501
    then "NOT_IMPLEMENTED"
    else if x == 502
    then "BAD_GATEWAY"
    else if x == 503
    then "UNAVAILABLE"
    else if x == 504
    then "TIMEOUT"
    else if x == 505
    then "PROXYING_NOT_SUPPORTED"
    else "UNKNOWN"

unfoldable pub coap_code_to_cstr : ℕ → String
unfolding http_code_to_cstr coap_to_http_code
coap_code_to_cstr x = http_code_to_cstr (coap_to_http_code (x % 256))
