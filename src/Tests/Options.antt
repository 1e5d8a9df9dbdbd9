-- ===== src/Tests/Options.antt =====
-- Concrete options in memory, for the theorems on src/smcp/coap.c's option code.
use smcp.Prelude.{
  ℕ, ◌+◌, ◌-◌, ◌<◌, ◌≡◌, refl, arith, inl, some, [], ◌∷◌, get_or, ◌==◌, if◌then◌else◌,
}
use smcp.Prelude.Bytes.{Mem}
use smcp.Coap.Option.{decode_option, encode_option, insert_option}
use smcp.Coap.Option.Sequence.{Options, options_bytes, add}
use smcp.Coap.Option.Insert.{Inserted}
use smcp.Coap.Option.Ordered.{insert_option_refines}
use smcp.Coap.Option.Encode.{Encoded, encode_option_lem}
use smcp.Coap.Option.RoundTrip.{decode_option-encode_option}

-- `URI-host: a` and `URI-path: b`, and the value `x` below them.
abbrev opts : Options
opts = (3, b'a' ∷ []) ∷ (11, b'b' ∷ []) ∷ []

abbrev mem : Mem
mem a = if a == 50 then b'x' else get_or (options_bytes 0 opts) (a - 100) 0

insert_option_refines_example :
    (out : Mem × ℕ) × (insert_option mem 100 104 8 50 1 ≡ some out)
    × Inserted mem 100 104 (options_bytes 0 (add 8 (b'x' ∷ []) opts)) out
insert_option_refines_example =
    insert_option_refines mem 100 104 8 50 (b'x' ∷ []) opts
      (omega arith, omega arith, omega arith, (omega arith, omega arith, omega arith, tt))
      (refl, (refl, (refl, (refl, tt)))) refl (omega arith) (omega arith) (refl, tt)
      (inl (omega arith))

encode_option_lem_example : Encoded mem 200 300 50 1 (encode_option mem 200 3 303 50 1)
encode_option_lem_example =
    encode_option_lem mem 200 3 303 50 1 (omega arith) (omega arith) (omega arith) (omega arith)
      (inl (omega arith))

decode_option-encode_option_example :
    let (k, end) = encode_option mem 200 3 303 50 1 in
    (at : ℕ) × (decode_option k 200 3
      ≡ record { key = 303; value = some at; len = 1; next = some end })
    × ((i : ℕ) → i < 1 → k (at + i) ≡ mem (50 + i))
decode_option-encode_option_example =
    decode_option-encode_option mem 200 3 303 50 1 (omega arith) (omega arith) (omega arith)
      (omega arith) (inl (omega arith))
