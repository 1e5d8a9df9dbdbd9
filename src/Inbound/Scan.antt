-- ===== src/Inbound/Scan.antt =====
-- src/smcp/smcp-inbound.c: the initial scan of the options in `smcp_inbound_finish_packet`, and the
-- content that stands behind them.
pub mod Inside
pub mod Collect
use smcp.Prelude.{ℕ, zero, suc, ◌+◌, ◌-◌, ◌%◌, ◌^◌, Bool, true, false, Option, none, some}
use smcp.Prelude.{◌||◌, List, ltb, leb, ◌==◌, if◌then◌else◌}
use smcp.Prelude.Bytes.{Mem, read}
use smcp.Coap.Option.{invalid, address}
use smcp.Coap.Uint.{decode_uint32}
use smcp.Inbound.Options.{Inbound, Found, next_option, reset_next_option}

-- The fields of `self->inbound` that the options set.
pub record Header : Type 0 where
  pub content_type : ℕ
  pub observe_value : ℕ
  pub has_observe_option : Bool
  pub max_age : ℕ
  pub block2_value : ℕ

-- As `smcp_inbound_start_packet` leaves them: COAP_CONTENT_TYPE_UNKNOWN, and 0.
abbrev pub no_header : Header
no_header = record {
  content_type = 65535;
  observe_value = 0;
  has_observe_option = false;
  max_age = 0;
  block2_value = 0;
}

-- One more than the value, and 5 at least. From 2 ^ 31 - 1 on the int32_t is negative then.
unfoldable pub max_age_of : ℕ → ℕ
max_age_of v = if leb (2 ^ 31 - 1) v || ltb (v + 1) 5 then 5 else v + 1

-- The `switch` on the key, with the value's bytes.
unfoldable pub apply_option : ℕ → List ℕ → Header → Header
unfolding max_age_of
apply_option key value h =
    if key == 12
    then record h { content_type = decode_uint32 value % 2 ^ 16 }
    else if key == 6
    then record h { observe_value = decode_uint32 value; has_observe_option = true }
    else if key == 14
    then record h { max_age = max_age_of (decode_uint32 value) }
    else if key == 23
    then record h { block2_value = decode_uint32 value }
    else h

-- The length is passed on as a uint8_t.
abbrev pub apply_found : Mem → Found → Header → Header
apply_found m f h = elim f.value [
  | none ↦ h
  | some (value, len) ↦ apply_option f.key (read m (address value) (len % 256)) h
]

-- The loop. `none`: out of fuel.
unfoldable pub scan_options : Mem → ℕ → Inbound → Header → Option (Inbound × Header)
unfolding next_option
scan_options m zero self h = none
scan_options m (suc fuel) self h =
    let (f, self') = next_option m self in
    let rest = scan_options m fuel self' (apply_found m f h) in
    if f.key == invalid then some (self', h) else rest

-- `content_ptr` and `content_len`.
pub record Content : Type 0 where
  pub content_ptr : ℕ
  pub content_len : ℕ

-- From the place where the scan stopped; a `coap_size_t` has 16 bits.
unfoldable pub content_of : Inbound → Content
content_of self =
    let len = (self.packet_len + 2 ^ 16 - (self.this_option - self.packet) % 2 ^ 16) % 2 ^ 16 in
    if len == 0
    then record { content_ptr = self.this_option; content_len = 0 }
    else record { content_ptr = self.this_option + 1; content_len = len - 1 }

abbrev pub with_content : Option (Inbound × Header) → Option (Header × Content)
with_content none = none
with_content (some (self, h)) = some (h, content_of self)

-- The whole: from the reset of the scanner to the content. Each option has a byte at least.
unfoldable pub scan_packet : Mem → Inbound → Option (Header × Content)
unfolding reset_next_option scan_options content_of
scan_packet m self =
    with_content (scan_options m (self.packet_len + 2) (reset_next_option m self) no_header)
