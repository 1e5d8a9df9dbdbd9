-- ===== src/Outbound/Accepted.antt =====
-- A packet that has been built, and the receiver's side of src/smcp/coap.c and smcp-inbound.c.
use smcp.Prelude.{ℕ, ◌+◌, ◌-◌, ◌^◌, ◌<◌, ◌≤◌, ◌≡◌, ◌≢◌, inl, inr, refl, ap, ap₂, ◌∙◌, arith}
use smcp.Prelude.{true, some, [], length, ◌==◌, if◌then◌else◌, ==_ne, ==_iff}
use native.Mathlib.Decide.{ℕ_discrete}
use smcp.Coap.Option.Encode.{Outside}
use smcp.Coap.Option.Sequence.{Options, options_bytes}
use smcp.Coap.Packet.{token_len, code_of, verify_packet}
use smcp.Coap.Packet.Accepts.{IsStop, verify_packet_complete}
use smcp.Inbound.Options.{Inbound}
use smcp.Inbound.Scan.{no_header, Content, scan_packet}
use smcp.Inbound.Scan.Collect.{collect, AreValid, scan_packet_lem}
use smcp.Outbound.{Session, options_start, max_packet_length, message_size, begin}
use smcp.Outbound.Built.{IsBuilt}
use smcp.Outbound.Begin.{begin_lem}
use smcp.Outbound.Progress.{Placed}
use smcp.Outbound.Reach.{Steps, Steps-IsUnderway}

module _ (self : Session) (opts : Options) (b : IsBuilt self opts) where
  abbrev stop : ℕ
  stop = options_start self.mem self.outbound.packet + length (options_bytes 0 opts)

  message_size-le : message_size self.outbound ≤ max_packet_length
  unfolding message_size
  message_size-le = ground (arith, b.fits, b.content)

  stops : IsStop self.mem (self.outbound.packet + message_size self.outbound) stop
  unfolding message_size
  stops = elim (ℕ_discrete self.outbound.content_len 0) [
    | yes e ↦ inl (rw ((==_iff self.outbound.content_len 0).1 e) (omega (arith, b.content)))
    | no n ↦ inr (
      rw (==_ne self.outbound.content_len 0 n) (omega (arith, b.content)),
      rw marker_at at b.marker,
    )
  ]
    where
      marker_at : self.outbound.content_ptr - 1 ≡ stop
      marker_at = omega (arith, b.content)

  verified :
      code_of self.mem self.outbound.packet ≢ 0
      → verify_packet self.mem self.outbound.packet (message_size self.outbound) ≡ some true
  verified ne =
      verify_packet_complete self.mem self.outbound.packet (message_size self.outbound) stop opts
        b.version_one b.token_small (omega (arith, message_size-le)) (λ e. absurd (ne e)) b.ordered
        b.bytes refl stops

abbrev content_at : ℕ → ℕ → Content
content_at ptr len = record { content_ptr = ptr; content_len = len }

module _ (self : Session) (opts : Options) (b : IsBuilt self opts) where
  end_lem : self.outbound.packet + message_size self.outbound ≡ (
      if self.outbound.content_len == 0
      then stop self opts b
      else stop self opts b + 1 + self.outbound.content_len)
  unfolding message_size
  end_lem = ground (arith, b.content)

  contents :
      (if stop self opts b == self.outbound.packet + message_size self.outbound
        then content_at (stop self opts b) 0
        else content_at
            (stop self opts b + 1)
            (self.outbound.packet + message_size self.outbound - (stop self opts b + 1)))
      ≡ (if self.outbound.content_len == 0
          then content_at (self.outbound.content_ptr - 1) 0
          else content_at self.outbound.content_ptr self.outbound.content_len)
  contents = elim (ℕ_discrete self.outbound.content_len 0) [
    | yes e ↦
        rw (end_lem, (==_iff self.outbound.content_len 0).1 e, (==_iff (stop self opts b) _).1 refl)
          (ap (λ (x : ℕ). content_at x 0) (omega (arith, b.content)))
    | no n ↦
        rw
          (
            end_lem,
            ==_ne self.outbound.content_len 0 n,
            ==_ne (stop self opts b) (stop self opts b + 1 + self.outbound.content_len)
                (omega arith),
          )
          (ap₂ content_at (omega (arith, b.content)) (omega arith))
  ]

-- What the session sends, as its receiver gets it in the same memory.
abbrev pub received : Session → Inbound
received self = record {
  packet = self.outbound.packet;
  packet_len = message_size self.outbound;
  last_option_key = 0;
  this_option = 0;
}

-- A packet that has begun with `smcp_outbound_begin` and is built by any sequence of calls that add
-- options, append content, set the content's length, the code and the token, or send it, whatever
-- their outcome, is accepted by `coap_verify_packet` at the size in which it is sent, unless its
-- code is 0, and is not larger than SMCP_MAX_PACKET_LENGTH. The message that is answered has a token
-- of at most 8 bytes and stands outside of the buffer, so do the local variables and the values of
-- options, and content leaves room for the options that are added by themselves.
pub message_accepted :
    (self self' : Session) (code tt_value : ℕ)
    → self.outbound.next_tid < 2 ^ 16
    → token_len self.mem self.inbound_packet ≤ 8
    → Outside self.inbound_packet self.outbound.packet_bytes (self.outbound.packet_bytes + 4)
    → Placed (begin self code tt_value)
    → Steps (begin self code tt_value) self'
    → code_of self'.mem self'.outbound.packet ≢ 0
    → (verify_packet self'.mem self'.outbound.packet (message_size self'.outbound) ≡ some true)
      × (message_size self'.outbound ≤ max_packet_length)
message_accepted self self' code tt_value small le out pl steps ne =
    let begun = begin_lem self code tt_value small le out in
    let (opts, b, pl') = Steps-IsUnderway steps ([], begun.built, pl) in
    (verified self' opts b ne, message_size-le self' opts b)

-- The receiver of a packet that has been built finds what was put in: the fields that its options
-- set, in their order, and the content with its length, if no key is COAP_OPTION_INVALID.
pub scan_packet-IsBuilt :
    (self : Session) (opts : Options)
    → IsBuilt self opts
    → AreValid opts
    → scan_packet self.mem (received self)
      ≡ some (
        collect opts no_header,
        if self.outbound.content_len == 0
            then record { content_ptr = self.outbound.content_ptr - 1; content_len = 0 }
            else record {
              content_ptr = self.outbound.content_ptr;
              content_len = self.outbound.content_len;
            },
      )
scan_packet-IsBuilt self opts b ok =
    scan_packet_lem self.mem (received self) opts (stop self opts b)
      (omega (arith, message_size-le self opts b)) b.ordered ok b.bytes refl (stops self opts b)
    ∙ ap (λ (c : Content). some (collect opts no_header, c)) (contents self opts b)
