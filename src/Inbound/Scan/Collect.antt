-- ===== src/Inbound/Scan/Collect.antt =====
-- The scan of a packet in the wire format.
use smcp.Prelude.{
  ℕ, zero, suc, ◌+◌, ◌-◌, ◌%◌, ◌^◌, ◌<◌, ◌≤◌, ◌≡◌, ◌≢◌, ◌⊎◌, refl, sym, ap, ◌∙◌, arith,
}
use smcp.Prelude.{some, ◌==◌, if◌then◌else◌, ==_ne, ==_iff}
use smcp.Prelude.{List, [], ◌∷◌, length, length-append, take, All}
use native.Mathlib.Decide.{ℕ_discrete}
use smcp.Prelude.Bytes.{Mem, read}
use smcp.Coap.Option.{decode_option, invalid}
use smcp.Coap.Option.Format.{header, Holds, Holds-split, option_bytes}
use smcp.Coap.Option.Sequence.{Options, options_bytes, IsOrdered}
use smcp.Coap.Option.Ordered.{decode_option-first}
use smcp.Coap.Packet.{token, token_len}
use smcp.Coap.Packet.Accepts.{header-ne-marker, IsStop}
use smcp.Inbound.Options.{Inbound}
use smcp.Inbound.Scan.{
  Header, no_header, apply_option, scan_options, Content, scan_packet, content_of,
}
use smcp.Inbound.Scan.Inside.{at_option, next-option, scan_stop, scan_packet-options}

-- What the options of a sequence say, one after the other. Of a value of 256 bytes or more the
-- length is taken modulo 256.
unfoldable pub collect : Options → Header → Header
collect [] h = h
collect ((key, value) ∷ rest) h =
    collect rest (apply_option key (take (length value % 256) value) h)

-- No key is COAP_OPTION_INVALID.
abbrev pub AreValid : Options → Type 0
AreValid opts = All (λ o. o.0 ≢ invalid) opts

read-Holds :
    (m : Mem) (a : ℕ) (v : List ℕ) (n : ℕ) → Holds m a v → n ≤ length v → read m a n ≡ take n v
read-Holds m a v zero h le = refl
read-Holds m a [] (suc n) h le = absurd (omega arith)
read-Holds m a (x ∷ v) (suc n) h le = rw (h.0, read-Holds m (a + 1) v n h.1 (omega arith))

content-stop :
    (packet len stop : ℕ)
    → len < 2 ^ 16
    → packet ≤ stop
    → stop ≤ packet + len
    → content_of (at_option packet len invalid stop) ≡ (
        if stop == packet + len
        then record { content_ptr = stop; content_len = 0 }
        else record { content_ptr = stop + 1; content_len = packet + len - (stop + 1) })
unfolding content_of
content-stop packet len stop small ge le = elim (ℕ_discrete stop (packet + len)) [
  | yes e ↦ rw ((==_iff stop (packet + len)).1 e, none_left e)
  | no n ↦
      rw (==_ne stop (packet + len) n, left)
        (rw (==_ne (packet + len - stop) 0 (omega arith))
          (ap (λ (l : ℕ). record { content_ptr = stop + 1; content_len = l }) (omega arith)))
]
  where
    left : (len + 2 ^ 16 - (stop - packet) % 2 ^ 16) % 2 ^ 16 ≡ packet + len - stop
    left = omega arith

    none_left : stop ≡ packet + len → (len + 2 ^ 16 - (stop - packet) % 2 ^ 16) % 2 ^ 16 ≡ 0
    none_left e = omega arith

module _ (m : Mem) (packet len : ℕ) where
  scan_options-collect :
      (fuel prev at stop : ℕ) (opts : Options) (h : Header)
      → length (options_bytes prev opts) < fuel
      → IsOrdered prev opts
      → AreValid opts
      → Holds m at (options_bytes prev opts)
      → stop ≡ at + length (options_bytes prev opts)
      → (stop ≡ packet + len) ⊎ ((stop < packet + len) × (m stop ≡ 0xff))
      → scan_options m fuel (at_option packet len prev at) h
        ≡ some (at_option packet len invalid stop, collect opts h)
  unfolding scan_options collect
  scan_options-collect zero prev at stop opts h hf ord ok hold e end = absurd (omega arith)
  scan_options-collect (suc fuel) prev at stop [] h hf ord ok hold e end =
      scan_stop m packet len fuel prev at h (ground arith)
      ∙ ap (λ (s : ℕ). some (at_option packet len invalid s, h)) (omega arith)
  scan_options-collect (suc fuel) prev at stop ((k, w) ∷ rest) h hf ord ok hold e end =
      rw
        (
          next-option m packet len prev at _ _ (omega (arith, sizes)) not_marker first refl,
          ==_ne k invalid ok.0,
          read-Holds m (at + length (header (k - prev) (length w))) w (length w % 256)
              (Holds-split m at (header (k - prev) (length w)) w halves.0).1 (omega arith),
        )
        (scan_options-collect fuel k _ stop rest _ (omega (arith, sizes)) ord.3 ok.1 halves.1
          (omega (arith, sizes)) end)
    where
      halves :
          Holds m at (option_bytes (k - prev) w)
          × Holds m (at + length (option_bytes (k - prev) w)) (options_bytes k rest)
      halves = Holds-split m at (option_bytes (k - prev) w) (options_bytes k rest) hold

      sizes :
          length (options_bytes prev ((k, w) ∷ rest))
          ≡ length (option_bytes (k - prev) w) + length (options_bytes k rest)
      sizes = length-append (option_bytes (k - prev) w) (options_bytes k rest)

      not_marker : m at ≢ 0xff
      not_marker p = header-ne-marker (k - prev) (length w) (sym hold.0 ∙ p)

      first : decode_option m at prev ≡ record {
        key = k;
        value = some (at + length (header (k - prev) (length w)));
        len = length w;
        next = some (at + length (option_bytes (k - prev) w));
      }
      first = decode_option-first m at prev k w ord.0 ord.1 ord.2 halves.0

-- `smcp_inbound_finish_packet` on a packet in the wire format, its keys not COAP_OPTION_INVALID:
-- the scan collects what all its options say, in order, and the content is what stands behind the
-- payload marker, or nothing at the packet's end if there is none.
pub scan_packet_lem :
    (m : Mem) (self : Inbound) (opts : Options) (stop : ℕ)
    → self.packet_len < 2 ^ 16
    → IsOrdered 0 opts
    → AreValid opts
    → Holds m (token self.packet + token_len m self.packet) (options_bytes 0 opts)
    → stop ≡ token self.packet + token_len m self.packet + length (options_bytes 0 opts)
    → IsStop m (self.packet + self.packet_len) stop
    → scan_packet m self
      ≡ some (
        collect opts no_header,
        if stop == self.packet + self.packet_len
            then record { content_ptr = stop; content_len = 0 }
            else record {
              content_ptr = stop + 1;
              content_len = self.packet + self.packet_len - (stop + 1);
            },
      )
scan_packet_lem m self opts stop small ord ok hold e end =
    scan_packet-options m self stop (collect opts no_header) (
      scan_options-collect m self.packet self.packet_len (self.packet_len + 2) 0 _ stop opts
        no_header (omega arith) ord ok hold e end)
    ∙ ap (λ (c : Content). some (collect opts no_header, c))
        (content-stop self.packet self.packet_len stop small (omega arith) (omega arith))
