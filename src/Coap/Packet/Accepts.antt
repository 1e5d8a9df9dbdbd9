-- ===== src/Coap/Packet/Accepts.antt =====
-- `coap_verify_packet` accepts every message in the wire format.
use smcp.Prelude.{ℕ, zero, suc, ◌+◌, ◌-◌, ◌*◌, ◌<◌, ◌≤◌, ◌≡◌, ◌≢◌, ◌⊎◌, refl, sym, ap, ◌∙◌, arith}
use smcp.Prelude.{lt→ltb, ==_ne, le→not-ltb}
use smcp.Prelude.{true, some}
use smcp.Prelude.{[], ◌∷◌, length, length-append}
use smcp.Prelude.Bytes.{Mem}
use smcp.Coap.Option.{Decoded, decode_option}
use smcp.Coap.Option.Format.{nibble, Holds, Holds-split, option_bytes}
use smcp.Coap.Option.Sequence.{Options, options_bytes, IsOrdered}
use smcp.Coap.Option.Ordered.{decode_option-first}
use smcp.Coap.Packet.{stopped, walk, verify_packet}
use smcp.Coap.Packet.{version, token_len, code_of, token}

-- No option starts with the marker's byte.
pub header-ne-marker : (d n : ℕ) → nibble d * 16 + nibble n ≢ 0xff
header-ne-marker d n e = ground arith

walk_stop :
    (m : Mem) (end fuel key at : ℕ)
    → (at ≡ end) ⊎ (m at ≡ 0xff)
    → walk m end (suc fuel) key at ≡ stopped at
unfolding walk
walk_stop m end fuel key at e = ground arith

walk_step :
    (m : Mem) (end fuel key at next : ℕ) (d : Decoded)
    → at < end
    → m at ≢ 0xff
    → decode_option m at key ≡ d
    → d.next ≡ some next
    → next ≤ end
    → walk m end (suc fuel) key at ≡ walk m end fuel d.key next
unfolding walk
walk_step m end fuel key at next d lt ne e n le =
    rw (found, lt→ltb at end lt, ==_ne (m at) 0xff ne, le→not-ltb end next le)
      (ap (λ (x : Decoded). walk m end fuel x.key next) e)
  where
    found : (decode_option m at key).next ≡ some next
    found = ap (λ (x : Decoded). x.next) e ∙ n

-- A position behind the options: the end, or a payload marker.
abbrev pub IsStop : Mem → ℕ → ℕ → Type 0
IsStop m end stop = (stop ≡ end) ⊎ ((stop < end) × (m stop ≡ 0xff))

-- The walk over an ordered sequence of options stops behind it, if it ends there or at a marker.
walk-options :
    (m : Mem) (end fuel prev at stop : ℕ) (opts : Options)
    → length (options_bytes prev opts) < fuel
    → IsOrdered prev opts
    → Holds m at (options_bytes prev opts)
    → stop ≡ at + length (options_bytes prev opts)
    → IsStop m end stop
    → walk m end fuel prev at ≡ stopped stop
walk-options m end zero prev at stop opts hf ord h e good = absurd (omega arith)
walk-options m end (suc fuel) prev at stop [] hf ord h e good =
    let same : stop ≡ at = omega arith in rw same (walk_stop m end fuel prev at (ground arith))
walk-options m end (suc fuel) prev at stop ((k, w) ∷ rest) hf ord h e good =
    walk_step m end fuel prev at (at + length (option_bytes (k - prev) w)) _ (omega (arith, sizes))
      not_marker (decode_option-first m at prev k w ord.0 ord.1 ord.2 halves.0) refl
      (omega (arith, sizes))
    ∙ walk-options m end fuel k (at + length (option_bytes (k - prev) w)) stop rest
        (omega (arith, sizes)) ord.3 halves.1 (omega (arith, sizes)) good
  where
    halves :
        Holds m at (option_bytes (k - prev) w)
        × Holds m (at + length (option_bytes (k - prev) w)) (options_bytes k rest)
    halves = Holds-split m at (option_bytes (k - prev) w) (options_bytes k rest) h

    sizes :
        length (options_bytes prev ((k, w) ∷ rest))
        ≡ length (option_bytes (k - prev) w) + length (options_bytes k rest)
    sizes = length-append (option_bytes (k - prev) w) (options_bytes k rest)

    not_marker : m at ≢ 0xff
    not_marker p = header-ne-marker (k - prev) (length w) (sym h.0 ∙ p)

-- `coap_verify_packet` accepts a message in the wire format: version 1, a token of at most 8 bytes,
-- options in order, and then either the end of the packet or a payload marker; of at most
-- COAP_MAX_MESSAGE_SIZE bytes, and with nothing behind the header if its code is 0.
pub verify_packet_complete :
    (m : Mem) (packet size stop : ℕ) (opts : Options)
    → version m packet ≡ 1
    → token_len m packet ≤ 8
    → size ≤ 1240
    → (code_of m packet ≡ 0 → size ≡ 4)
    → IsOrdered 0 opts
    → Holds m (token packet + token_len m packet) (options_bytes 0 opts)
    → stop ≡ token packet + token_len m packet + length (options_bytes 0 opts)
    → IsStop m (packet + size) stop
    → verify_packet m packet size ≡ some true
unfolding verify_packet
verify_packet_complete m packet size stop opts hv ht hs hc ord h e good = ground (
  arith,
  walk-options m (packet + size) (size + 1) 0 (token packet + token_len m packet) stop opts
      (omega arith) ord h e good,
)
