-- ===== src/Coap/Option/Insert.antt =====
-- `coap_insert_option` in front of a later option.
use smcp.Prelude.{ℕ, ◌+◌, ◌-◌, ◌^◌, ◌<◌, ◌≤◌, ◌≡◌, ◌⊎◌, ap, subst, ◌∙◌, arith}
use smcp.Prelude.{some, length, List, ◌++◌, ◌==◌, if◌then◌else◌, length-append}
use native.Mathlib.Nat.{add_assoc}
use smcp.Prelude.Bytes.{Mem, copy}
use smcp.Coap.Option.{
  Decoded, decode_option, encode_option, insert_before, encode_both, insertion_size, address,
}
use smcp.Coap.Option.Format.{header, option_bytes, Holds, Holds-append, Holds-agree, Holds-split}
use smcp.Coap.Option.Decode.{decode_option-header}
use smcp.Coap.Option.Encode.{Encoded, Outside, encode_option_lem}
use smcp.Coap.Option.Sequence.{
  insertion_size_lem, length-header, length-extension-le, length-extension_mono,
}

-- `if(size_diff) memmove(…)`: the bytes at the new place, and those that stay.
abbrev shifted : Mem → ℕ → ℕ → ℕ → Mem
shifted m ip size n = if size == 0 then m else copy m (ip + size) ip n

shifted_at : (m : Mem) (ip size n i : ℕ) → i < n → shifted m ip size n (ip + size + i) ≡ m (ip + i)
unfolding copy
shifted_at m ip size n i p = ground arith

shifted_frame :
    (m : Mem) (ip size n x : ℕ)
    → Outside x (ip + size) (ip + size + n)
    → shifted m ip size n x ≡ m x
unfolding copy
shifted_frame m ip size n x out = ground arith

-- The sizes at work.
module _ (m : Mem) (ip prev key next : ℕ) (v w rest : List ℕ) (le : prev ≤ key) (lt : key < next)
    (small : next < 2 ^ 16) (hv : length v ≤ 1034) (hw : length w ≤ 1034)
    (hm : Holds m ip (option_bytes (next - prev) w ++ rest)) where
  abbrev old_header : ℕ
  old_header = length (header (next - prev) (length w))

  abbrev new_header : ℕ
  new_header = length (header (key - prev) (length v))

  abbrev next_header : ℕ
  next_header = length (header (next - key) (length w))

  abbrev size : ℕ
  size = insertion_size m ip prev key next (length v)

  abbrev old_length : ℕ
  old_length = length (option_bytes (next - prev) w ++ rest)

  abbrev moved : Mem
  moved = shifted m ip size old_length

  length-before : old_length ≡ old_header + length w + length rest
  length-before = omega (
    arith,
    length-append (option_bytes (next - prev) w) rest,
    length-append (header (next - prev) (length w)) w,
  )

  size_lem : size + old_header ≡ new_header + length v + next_header
  size_lem = insertion_size_lem m ip prev key next (length v) (length w) le lt small hv hm.0

  size-le : size ≤ length v + 5
  size-le = omega (
    arith,
    size_lem,
    length-header (next - prev) (length w),
    length-header (key - prev) (length v),
    length-header (next - key) (length w),
    length-extension-le (key - prev),
    length-extension-le (length v),
    length-extension_mono (next - key) (next - prev) (omega arith),
  )

  moved-Holds : Holds moved (ip + size) (option_bytes (next - prev) w ++ rest)
  moved-Holds =
      Holds-agree m moved ip (ip + size) (option_bytes (next - prev) w ++ rest)
        (λ i p. shifted_at m ip size old_length i p) hm

  decode_moved : decode_option moved (ip + size) 0 ≡ record {
    key = 0 + (next - prev);
    value = some (ip + size + old_header);
    len = length w;
    next = some (ip + size + old_header + length w);
  }
  decode_moved =
      decode_option-header moved (ip + size) 0 (next - prev) (length w) (omega arith) (omega arith)
        (omega arith)
        (Holds-split moved (ip + size) (header (next - prev) (length w)) w
          (Holds-split moved (ip + size) (option_bytes (next - prev) w) rest moved-Holds).0).0

  module _ (value : ℕ) (hval : Holds m value v)
      (apart : (value + length v ≤ ip) ⊎ (ip + old_length + (length v + 5) ≤ value)) where
    -- The two calls of `coap_encode_option`.
    abbrev first : Mem × ℕ
    first = encode_option moved ip prev key value (length v)

    abbrev source : ℕ
    source = ip + size + old_header

    abbrev second : Mem × ℕ
    second = encode_option first.0 first.1 key next source (length w)

    first_lem : Encoded moved ip (key - prev) value (length v) first
    first_lem =
        encode_option_lem moved ip prev key value (length v) le (omega arith) (omega arith) hv (
          omega (
            arith,
            length-before,
            length-header (key - prev) (length v),
            length-extension-le (key - prev),
            length-extension-le (length v),
          ))

    second_lem : Encoded first.0 first.1 (next - key) source (length w) second
    second_lem =
        encode_option_lem first.0 first.1 key next source (length w) (omega arith) (omega arith)
          (omega arith) hw (omega (arith, first_lem.end, size_lem))

    value_byte : (i : ℕ) → i < length v → second.0 (ip + new_header + i) ≡ m (value + i)
    value_byte i p =
        second_lem.frame (ip + new_header + i) (omega (arith, first_lem.end))
        ∙ first_lem.value i p
        ∙ shifted_frame m ip size old_length (value + i) (omega (arith, size-le))

    -- A byte behind the new option, with `j` its place in the old bytes behind the header.
    later_byte :
        (j : ℕ) → old_header + j < old_length → first.0 (source + j) ≡ m (ip + (old_header + j))
    later_byte j p =
        first_lem.frame (source + j) (omega (arith, size_lem))
        ∙ rw same (shifted_at m ip size old_length (old_header + j) p)
      where
        same : source + j ≡ ip + size + (old_header + j)
        same = omega arith

    old_value : Holds m (ip + old_header) w
    old_value =
        (Holds-split m ip (header (next - prev) (length w)) w
          (Holds-split m ip (option_bytes (next - prev) w) rest hm).0).1

    old_rest : Holds m (ip + length (option_bytes (next - prev) w)) rest
    old_rest = (Holds-split m ip (option_bytes (next - prev) w) rest hm).1

    new_option : Holds second.0 ip (option_bytes (key - prev) v)
    new_option =
        Holds-append second.0 ip (header (key - prev) (length v)) v
          (Holds-agree first.0 second.0 ip ip (header (key - prev) (length v))
            (λ i p. second_lem.frame (ip + i) (omega (arith, first_lem.end))) first_lem.head)
          (Holds-agree m second.0 value (ip + new_header) v value_byte hval)

    next_option : Holds second.0 first.1 (option_bytes (next - key) w)
    next_option = Holds-append second.0 first.1 (header (next - key) (length w)) w second_lem.head (
        Holds-agree m second.0 (ip + old_header) (first.1 + next_header) w
          (λ i p.
            second_lem.value i p
            ∙ later_byte i (omega (arith, length-before))
            ∙ rw (add_assoc ip old_header i))
          old_value)

    other_options : Holds second.0 (first.1 + length (option_bytes (next - key) w)) rest
    other_options =
        Holds-agree m second.0 (ip + length (option_bytes (next - prev) w)) _ rest
          (λ i p. rw (place i) (
            second_lem.frame (source + (length w + i)) (omega (arith, first_lem.end, size_lem))
            ∙ later_byte (length w + i) (omega (arith, length-before))
            ∙ rw (old_place i)))
          old_rest
      where
        place :
            (i : ℕ) → first.1 + length (option_bytes (next - key) w) + i ≡ source + (length w + i)
        place i =
            omega (arith, first_lem.end, size_lem, length-append (header (next - key) (length w)) w)

        old_place :
            (i : ℕ)
            → ip + length (option_bytes (next - prev) w) + i ≡ ip + (old_header + (length w + i))
        old_place i = omega (arith, length-append (header (next - prev) (length w)) w)

    abbrev new_bytes : List ℕ
    new_bytes = option_bytes (key - prev) v ++ (option_bytes (next - key) w ++ rest)

    length-new_bytes : length new_bytes ≡ old_length + size
    length-new_bytes = omega (
      arith,
      length-append (option_bytes (key - prev) v) (option_bytes (next - key) w ++ rest),
      length-append (header (key - prev) (length v)) v,
      length-append (option_bytes (next - key) w) rest,
      length-append (header (next - key) (length w)) w,
      length-before,
      size_lem,
    )

    all_options : Holds second.0 ip new_bytes
    all_options =
        Holds-append second.0 ip (option_bytes (key - prev) v) (option_bytes (next - key) w ++ rest)
          new_option
          (subst (λ a. Holds second.0 a (option_bytes (next - key) w ++ rest)) place
            (Holds-append second.0 first.1 (option_bytes (next - key) w) rest next_option
              other_options))
      where
        place : first.1 ≡ ip + length (option_bytes (key - prev) v)
        place = omega (arith, first_lem.end, length-append (header (key - prev) (length v)) v)

    untouched : (x : ℕ) → Outside x ip (ip + old_length + size) → second.0 x ≡ m x
    untouched x out =
        second_lem.frame x (omega (arith, first_lem.end, size_lem, length-before))
        ∙ first_lem.frame x (omega (arith, size_lem, length-before))
        ∙ shifted_frame m ip size old_length x (omega arith)

    encode_both_lem : encode_both moved ip size prev key next value (length v) ≡ second.0
    unfolding encode_both
    encode_both_lem =
        ap (λ (d : Decoded). (encode_option first.0 first.1 key next (address d.value) d.len).0)
          decode_moved

    calls :
        (end : ℕ)
        → end ≡ ip + old_length
        → insert_before m end ip prev key next value (length v) ≡ (second.0, size)
    unfolding insert_before
    calls end e =
        ap
          (λ (n : ℕ).
            (encode_both (shifted m ip size n) ip size prev key next value (length v), size))
          same
        ∙ ap (λ (k : Mem). (k, size)) encode_both_lem
      where
        same : end - ip ≡ old_length
        same = omega arith

-- What an insertion leaves: the bytes of the new sequence from `a` on, and the rest of memory.
pub record Inserted (m : Mem) (a end : ℕ) (bytes : List ℕ) (out : Mem × ℕ) : Type 0 where
  pub holds : Holds out.0 a bytes
  pub grown : end + out.1 ≡ a + length bytes
  pub frame : (x : ℕ) → Outside x a (end + out.1) → out.0 x ≡ m x

-- The branch that inserts before an option of key `next` and value `w`.
pub insert_before_lem :
    (m : Mem) (ip prev key next value end : ℕ) (v w rest : List ℕ)
    → prev ≤ key
    → key < next
    → next < 2 ^ 16
    → length v ≤ 1034
    → length w ≤ 1034
    → Holds m ip (option_bytes (next - prev) w ++ rest)
    → end ≡ ip + length (option_bytes (next - prev) w ++ rest)
    → Holds m value v
    → (value + length v ≤ ip) ⊎ (end + (length v + 5) ≤ value)
    → Inserted m ip end
        (option_bytes (key - prev) v ++ (option_bytes (next - key) w ++ rest))
        (insert_before m end ip prev key next value (length v))
insert_before_lem m ip prev key next value end v w rest le lt small hv hw hm e hval apart =
    rw (calls m ip prev key next v w rest le lt small hv hw hm value hval near end e) (record {
      holds = all_options m ip prev key next v w rest le lt small hv hw hm value hval near;
      grown = omega (
        arith,
        length-new_bytes m ip prev key next v w rest le lt small hv hw hm value hval near,
      );
      frame = λ x out.
          untouched m ip prev key next v w rest le lt small hv hw hm value hval near x
            (omega arith);
    })
  where
    near :
        (value + length v ≤ ip)
        ⊎ (ip + length (option_bytes (next - prev) w ++ rest) + (length v + 5) ≤ value)
    near = omega arith
