-- ===== src/Inbound/Scan/Inside.antt =====
-- The scan of a packet that `coap_verify_packet` accepts.
use smcp.Prelude.{ℕ, zero, suc, ◌+◌, ◌^◌, ◌<◌, ◌≤◌, ◌≡◌, ◌≢◌, ◌⊎◌, inl, inr, refl, ap, arith}
use smcp.Prelude.{Option, some}
use smcp.Prelude.{==_ne, ==_iff, lt→ltb}
use native.Mathlib.Decide.{ℕ_discrete}
use smcp.Prelude.Bytes.{Mem}
use smcp.Coap.Option.{Decoded, decode_option, invalid}
use smcp.Coap.Option.Decode.{decode_option_advances}
use smcp.Coap.Packet.{token, token_len}
use smcp.Coap.Packet.Walk.{Walk, at_end, at_marker, option, Verified}
use smcp.Inbound.Options.{Inbound, found, nothing_found, next_option, reset_next_option}
use smcp.Inbound.Scan.{
  Header, no_header, apply_found, scan_options, Content, content_of, with_content, scan_packet,
}

-- The scanner at the address `at`, behind an option of key `key`.
abbrev pub at_option : ℕ → ℕ → ℕ → ℕ → Inbound
at_option packet len key at = record {
  packet = packet;
  packet_len = len;
  last_option_key = key;
  this_option = at;
}

module _ (m : Mem) (packet len : ℕ) where
  pub next-stop :
      (key at : ℕ)
      → (at ≡ packet + len) ⊎ (m at ≡ 0xff)
      → next_option m (at_option packet len key at)
        ≡ (nothing_found, at_option packet len invalid at)
  unfolding next_option
  next-stop key at e = ground arith

  pub next-option :
      (key at next : ℕ) (d : Decoded)
      → at < packet + len
      → m at ≢ 0xff
      → decode_option m at key ≡ d
      → d.next ≡ some next
      → next_option m (at_option packet len key at) ≡ (found d, at_option packet len d.key next)
  unfolding next_option
  next-option key at next d lt ne e n =
      rw (lt→ltb at (packet + len) lt, ==_ne (m at) 0xff ne, e, n) refl

  -- Where the scan ends: it has gone from `at` on, and not behind the packet.
  abbrev IsInside : ℕ → Option (Inbound × Header) → Type 0
  IsInside at out =
      (stop : ℕ) × (h : Header) × (out ≡ some (at_option packet len invalid stop, h))
      × (at ≤ stop)
      × (stop ≤ packet + len)

  pub scan_stop :
      (fuel key at : ℕ) (h : Header)
      → (at ≡ packet + len) ⊎ (m at ≡ 0xff)
      → scan_options m (suc fuel) (at_option packet len key at) h
        ≡ some (at_option packet len invalid at, h)
  unfolding scan_options
  scan_stop fuel key at h e = rw (next-stop key at e) refl

  scan-Walk :
      (fuel : ℕ) {key at stop : ℕ} (h : Header)
      → packet + len < fuel + at
      → at ≤ packet + len
      → Walk m (packet + len) key at stop
      → IsInside at (scan_options m fuel (at_option packet len key at) h)
  unfolding scan_options
  scan-Walk zero h hf le w = absurd (omega arith)
  scan-Walk (suc fuel) {key} {at} h hf le (at_end e s) =
      (at, h, scan_stop fuel key at h (inl e), omega arith, omega arith)
  scan-Walk (suc fuel) {key} {at} h hf le (at_marker lt e s) =
      (at, h, scan_stop fuel key at h (inr e), omega arith, omega arith)
  scan-Walk (suc fuel) {key} {at} h hf le (option next lt ne d inside w) =
      elim (ℕ_discrete (decode_option m at key).key invalid) [
        | yes e ↦ (
          next,
          h,
          rw (next-option key at next (decode_option m at key) lt ne refl d, (==_iff _ _).1 e)
              (ap (λ (k : ℕ). some (at_option packet len k next, h)) e),
          omega (arith, decode_option_advances m at key next d),
          inside,
        )
        | no other ↦
            let (stop, h', out, above, below) =
              scan-Walk fuel (apply_found m (found (decode_option m at key)) h)
                (omega (arith, decode_option_advances m at key next d)) inside w in
            (
              stop,
              h',
              rw (next-option key at next (decode_option m at key) lt ne refl d, ==_ne _ _ other)
                  out,
              omega (arith, decode_option_advances m at key next d),
              below,
            )
      ]

-- The content is what stands behind the place of the scan's end, less a marker's byte.
content-inside :
    (m : Mem) (packet len stop : ℕ)
    → packet ≤ stop
    → stop ≤ packet + len
    → len < 2 ^ 16
    → let c = content_of (at_option packet len invalid stop) in
      (c.content_ptr + c.content_len ≡ packet + len) × (stop ≤ c.content_ptr)
unfolding content_of
content-inside m packet len stop ge le small = ground arith

-- The scan of a packet, from the scan of its options.
pub scan_packet-options :
    (m : Mem) (self : Inbound) (stop : ℕ) (h : Header)
    → scan_options m
        (self.packet_len + 2)
        (at_option self.packet self.packet_len 0 (token self.packet + token_len m self.packet))
        no_header
      ≡ some (at_option self.packet self.packet_len invalid stop, h)
    → scan_packet m self ≡ some (h, content_of (at_option self.packet self.packet_len invalid stop))
unfolding scan_packet reset_next_option
scan_packet-options m self stop h e = ap with_content e

-- The options of a packet that `coap_verify_packet` accepts are scanned to an end, whatever keys
-- they have, and the content that is found lies behind the token and ends with the packet.
pub scan_packet-Verified :
    (m : Mem) (self : Inbound)
    → Verified m self.packet self.packet_len
    → (h : Header) × (c : Content) × (scan_packet m self ≡ some (h, c))
      × (token self.packet + token_len m self.packet ≤ c.content_ptr)
      × (c.content_ptr + c.content_len ≡ self.packet + self.packet_len)
scan_packet-Verified m self v =
    let (stop, h, out, above, below) =
      scan-Walk m self.packet self.packet_len (self.packet_len + 2) no_header (omega arith)
        v.token_inside v.options in
    let (whole, behind) =
      content-inside m self.packet self.packet_len stop (omega arith) below
        (omega (arith, v.small_enough)) in
    (
      h,
      content_of (at_option self.packet self.packet_len invalid stop),
      scan_packet-options m self stop h out,
      omega (arith, behind),
      whole,
    )
