-- ===== src/Inbound/Options.antt =====
-- src/smcp/smcp-inbound.c: the scanner over the options of the inbound packet.
-- NULL is the address 0; the code reads `this_option[0]` without a test for it.
use smcp.Prelude.{ℕ, zero, suc, ◌+◌, ◌≡◌, ◌≢◌, refl, Bool, true, false, not, ◌&&◌}
use smcp.Prelude.{Option, none, some, List, [], ◌∷◌, ltb, ◌==◌, if◌then◌else◌, ==_ne}
use smcp.Prelude.Bytes.{Mem}
use smcp.Coap.Option.{Decoded, decode_option, invalid, address}
use smcp.Coap.Packet.{token, token_len}

-- The fields of `self->inbound` that the scanner uses.
pub record Inbound : Type 0 where
  pub packet : ℕ
  pub packet_len : ℕ
  pub last_option_key : ℕ
  pub this_option : ℕ

-- The key that is returned, and what is stored in `*value` and `*len`, if it is.
pub record Found : Type 0 where
  pub key : ℕ
  pub value : Option (Option ℕ × ℕ)

abbrev pub nothing_found : Found
nothing_found = record { key = invalid; value = none }

abbrev pub found : Decoded → Found
found d = record { key = d.key; value = some (d.value, d.len) }

unfoldable pub reset_next_option : Mem → Inbound → Inbound
reset_next_option m self = record self {
  last_option_key = 0;
  this_option = token self.packet + token_len m self.packet;
}

-- The option is inside of the packet and no payload marker.
abbrev pub has_option : Mem → Inbound → Bool
has_option m self =
    ltb self.this_option (self.packet + self.packet_len) && not (m self.this_option == 0xff)

unfoldable pub next_option : Mem → Inbound → Found × Inbound
next_option m self =
    let d = decode_option m self.this_option self.last_option_key in
    if has_option m self
    then (found d, record self { this_option = address d.next; last_option_key = d.key })
    else (nothing_found, record self { last_option_key = invalid })

unfoldable pub peek_option : Mem → Inbound → Found
peek_option m self =
    if not (self.last_option_key == invalid) && has_option m self
    then found (decode_option m self.this_option self.last_option_key)
    else nothing_found

-- The value's bytes against a string, up to the string's NUL.
unfoldable pub value_equal : Mem → ℕ → ℕ → List ℕ → Bool
value_equal m value zero [] = true
value_equal m value zero (c ∷ cstr) = c == 0
value_equal m value (suc n) [] = false
value_equal m value (suc n) (c ∷ cstr) =
    not (c == 0) && (m value == c && value_equal m (value + 1) n cstr)

unfoldable pub option_strequal : Mem → Inbound → ℕ → List ℕ → Bool
unfolding value_equal
option_strequal m self key cstr =
    let d = decode_option m self.this_option self.last_option_key in
    if self.this_option == 0
    then false
    else if not (d.key == key)
    then false
    else value_equal m (address d.value) d.len cstr

of_pair {ℓ κ} :
    {A : Type ℓ} {B : Type κ} (b : Bool) (x y : A × B)
    → (if b then x.0 else y.0) ≡ (if b then x else y).0
of_pair true x y = refl
of_pair false x y = refl

-- Peeking finds what the next step of the scanner finds, as long as the scanner has not found the
-- end before.
pub peek_option-next_option :
    (m : Mem) (self : Inbound)
    → self.last_option_key ≢ invalid
    → peek_option m self ≡ (next_option m self).0
unfolding peek_option next_option
peek_option-next_option m self h = rw (==_ne self.last_option_key invalid h) (
    of_pair (has_option m self) (found (decode_option m self.this_option self.last_option_key), _)
      (nothing_found, _))
