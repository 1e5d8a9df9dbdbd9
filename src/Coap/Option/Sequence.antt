-- ===== src/Coap/Option/Sequence.antt =====
-- A sequence of options as a list, and `coap_insert_option` at the place that its search finds.
use smcp.Prelude.{ℕ, ◌+◌, ◌-◌, ◌*◌, ◌%◌, ◌^◌, ◌<◌, ◌≤◌, ◌≡◌, arith}
use smcp.Prelude.{length, List, [], ◌∷◌, ◌++◌, leb, if◌then◌else◌}
use smcp.Prelude.Bytes.{Mem}
use smcp.Coap.Option.{insertion_size, new_option_size, drop_extension, bump, sub_key}
use smcp.Coap.Option.Format.{header, nibble, extension, option_bytes}

-- Options in order, each with its key and its value.
abbrev pub Options : Type 0
Options = List (ℕ × List ℕ)

-- On the wire each option carries the difference of its key from the one before it.
abbrev pub options_bytes : ℕ → Options → List ℕ
options_bytes prev [] = []
options_bytes prev ((key, value) ∷ rest) = option_bytes (key - prev) value ++ options_bytes key rest

-- Keys do not descend and fit 16 bits, and values are within COAP_MAX_OPTION_VALUE_SIZE.
abbrev pub IsOrdered : ℕ → Options → Type 0
IsOrdered prev [] = Unit
IsOrdered prev ((key, value) ∷ rest) =
    (prev ≤ key) × (key < 2 ^ 16) × (length value ≤ 1034) × IsOrdered key rest

-- The specification of `coap_insert_option`: behind every option whose key is not greater.
unfoldable pub add : ℕ → List ℕ → Options → Options
add key value [] = (key, value) ∷ []
add key value ((k, v) ∷ rest) =
    if leb k key then (k, v) ∷ add key value rest else (key, value) ∷ (k, v) ∷ rest

new_option_size_lem :
    (prev key len : ℕ)
    → prev ≤ key
    → key < 2 ^ 16
    → len ≤ 1034
    → new_option_size prev key len ≡ length (header (key - prev) len) + len
unfolding new_option_size
new_option_size_lem prev key len le small hl = ground arith

drop_extension_lem :
    (byte size delta l : ℕ)
    → byte ≡ nibble delta * 16 + nibble l
    → size < 2 ^ 16
    → drop_extension byte size ≡ (size + 2 ^ 16 - length (extension delta)) % 2 ^ 16
unfolding drop_extension
drop_extension_lem byte size delta l h small = ground arith

bumps_lem :
    (key next size : ℕ)
    → key < next
    → next < 2 ^ 16
    → size < 2 ^ 16
    → bump (leb 269 (sub_key next key)) (bump (leb 13 (sub_key next key)) size)
      ≡ (size + length (extension (next - key))) % 2 ^ 16
bumps_lem key next size lt small h = ground arith

pub length-header :
    (d n : ℕ) → length (header d n) ≡ 1 + length (extension d) + length (extension n)
length-header d n = ground arith

pub length-extension-le : (n : ℕ) → length (extension n) ≤ 2
length-extension-le n = ground arith

length-extension-add :
    (a b : ℕ) → length (extension (a + b)) ≤ 1 + length (extension a) + length (extension b)
length-extension-add a b = ground arith

-- What the insertion adds is the difference of the sizes: the new option and the option behind it
-- after, less the option behind it before.
pub insertion_size_lem :
    (m : Mem) (ip prev key next len l : ℕ)
    → prev ≤ key
    → key < next
    → next < 2 ^ 16
    → len ≤ 1034
    → m ip ≡ nibble (next - prev) * 16 + nibble l
    → insertion_size m ip prev key next len + length (header (next - prev) l)
      ≡ length (header (key - prev) len) + len + length (header (next - key) l)
unfolding insertion_size
insertion_size_lem m ip prev key next len l le lt small hl h =
    rw
      (
        bumps_lem key next _ lt small shrunk_small,
        drop_extension_lem (m ip) _ (next - prev) l h new_small,
        new,
      )
      (omega (
        arith,
        length-header (key - prev) len,
        length-header (next - prev) l,
        length-header (next - key) l,
        split,
        length-extension-le (next - prev),
        length-extension-le (next - key),
        length-extension-le (key - prev),
        length-extension-le len,
      ))
  where
    new : new_option_size prev key len ≡ length (header (key - prev) len) + len
    new = new_option_size_lem prev key len le (omega arith) hl

    new_small : new_option_size prev key len < 2 ^ 16
    new_small = omega (
      arith,
      new,
      length-header (key - prev) len,
      length-extension-le (key - prev),
      length-extension-le len,
    )

    shrunk_small : drop_extension (m ip) (new_option_size prev key len) < 2 ^ 16
    shrunk_small = omega (
      arith,
      drop_extension_lem (m ip) (new_option_size prev key len) (next - prev) l h new_small,
    )

    split :
        length (extension (next - prev))
        ≤ 1 + length (extension (key - prev)) + length (extension (next - key))
    split = rw (← together) at (length-extension-add (key - prev) (next - key))
      where
        together : next - prev ≡ key - prev + (next - key)
        together = omega arith

pub length-extension_mono : (a b : ℕ) → a ≤ b → length (extension a) ≤ length (extension b)
length-extension_mono a b h = ground arith
