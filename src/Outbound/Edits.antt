-- ===== src/Outbound/Edits.antt =====
-- The calls that change the content, the code and the token of a packet under construction.
use smcp.Prelude.{
  ℕ, ◌+◌, ◌-◌, ◌*◌, ◌/◌, ◌%◌, ◌^◌, ◌<◌, ◌≤◌, ◌≡◌, ◌⊎◌, inl, inr, refl, ap, ◌∙◌, arith,
}
use smcp.Prelude.{Bool, true, false, some, [], ltb, ◌==◌, if◌then◌else◌, Bool-cases, lt→ltb}
use smcp.Prelude.Bytes.{Mem, store, copy}
use smcp.Coap.Option.Format.{Holds-agree}
use smcp.Coap.Option.Sequence.{Options, options_bytes}
use smcp.Coap.Packet.{token_len, token}
use smcp.Outbound.{Session, Status, ok, message_too_big, options_start, max_packet_length}
use smcp.Outbound.{get_space_remaining}
use smcp.Outbound.{
  get_content_ptr, with_content, append_sized, append_content, value_length, set_content_len,
}
use smcp.Outbound.{set_code, set_code_of, set_token, set_token_len, start_content}
use smcp.Outbound.Built.{IsBuilt, space_lem}
use smcp.Outbound.Progress.{Placed-Same}
use smcp.Outbound.Underway.{IsUnderway, get_content_ptr-goes}

-- What a packet is built of: the bytes up to the marker, and that the content is within the buffer.
IsBuilt-fields :
    (self : Session) (opts : Options) (m : Mem) (len : ℕ)
    → IsBuilt self opts
    → ((x : ℕ)
        → (x ≡ self.outbound.packet) ⊎ (options_start self.mem self.outbound.packet ≤ x)
        → x < self.outbound.content_ptr
        → m x ≡ self.mem x)
    → self.outbound.content_ptr + len ≤ self.outbound.packet + max_packet_length
    → IsBuilt (record self { mem = m; outbound = record self.outbound { content_len = len } }) opts
IsBuilt-fields self opts m len b agree fits = record {
  version_one = ap (λ (x : ℕ). x / 64) byte ∙ b.version_one;
  token_small = rw byte b.token_small;
  ordered = b.ordered;
  bytes = rw byte (
      Holds-agree self.mem m _ _ (options_bytes 0 opts)
        (λ i p. agree _ (inr (omega arith)) (omega (arith, p, b.content))) b.bytes);
  content = rw byte b.content;
  marker = agree _ (inr (omega (arith, b.content))) (omega (arith, b.content)) ∙ b.marker;
  limit = b.limit;
  fits = fits;
}
  where
    byte : m self.outbound.packet ≡ self.mem self.outbound.packet
    byte = agree self.outbound.packet (inl refl) (omega (arith, b.content))

-- Content behind the marker, as far as there is room for it.
with_content-IsUnderway :
    (self : Session) (value n : ℕ)
    → IsUnderway self
    → n ≤ get_space_remaining self.outbound
    → IsUnderway (with_content self value n)
unfolding copy
with_content-IsUnderway self value n (opts, b, pl) room = (
  opts,
  IsBuilt-fields self opts (with_content self value n).mem
      ((self.outbound.content_len + n) % 2 ^ 16) b (λ x ge lt. ground (arith, lt))
      (omega (arith, space_lem self opts b, room, b.content)),
  Placed-Same self (with_content self value n) pl (refl, refl, refl, refl, refl),
)

pub append_content-goes :
    (self : Session) (value len n : ℕ)
    → IsUnderway self
    → value_length self.mem value len ≡ some n
    → ((s1 : Session) → get_content_ptr self ≡ some s1 → n ≤ get_space_remaining s1.outbound)
    → (status : Status) × (self' : Session) × (append_content self value len ≡ some (status, self'))
      × IsUnderway self'
unfolding append_content append_sized
append_content-goes self value len n u e room =
    elim (Bool-cases (ltb n (get_space_remaining self.outbound))) [
      | inr full ↦ (message_too_big, self, rw (append_content, e, append_sized, full) refl, u)
      | inl fits ↦
          let (s1, found, u1, r) = get_content_ptr-goes self u in
          (
            ok,
            with_content s1 value n,
            rw (append_content, e, append_sized, fits, found) refl,
            with_content-IsUnderway s1 value n u1 (room s1 found),
          )
    ]

pub set_content_len-IsUnderway :
    (self : Session) (len : ℕ)
    → IsUnderway self
    → self.outbound.content_ptr + len ≤ self.outbound.packet + max_packet_length
    → IsUnderway (set_content_len self len)
unfolding set_content_len
set_content_len-IsUnderway self len (opts, b, pl) fits = (
  opts,
  IsBuilt-fields self opts self.mem len b (λ x ge lt. refl) fits,
  Placed-Same self (set_content_len self len) pl (refl, refl, refl, refl, refl),
)

of_if : (b : Bool) (x y : Session) → IsUnderway x → IsUnderway y → IsUnderway (if b then x else y)
of_if true x y hx hy = hx
of_if false x y hx hy = hy

pub set_code-IsUnderway :
    (self : Session) (code : ℕ) → IsUnderway self → IsUnderway (set_code self code)
unfolding set_code set_code_of store
set_code-IsUnderway self code (opts, b, pl) =
    of_if self.force_current_outbound_code _ _ (opts, b, pl)
      (
        opts,
        IsBuilt-fields self opts (set_code_of self.mem self.outbound.packet code)
            self.outbound.content_len b (λ x at lt. ground (arith, at)) b.fits,
        Placed-Same self _ pl (refl, refl, refl, refl, refl),
      )

-- A token of another length, after which nothing of the options is left.
module _ (self : Session) (from n : ℕ) (small : n ≤ 8) (opts : Options)
    (b : IsBuilt self opts) where
  abbrev lengthened : Mem
  lengthened = set_token_len self.mem self.outbound.packet n

  lengthened-byte :
      lengthened self.outbound.packet ≡ 64 + self.mem self.outbound.packet / 16 % 4 * 16 + n
  unfolding set_token_len store
  lengthened-byte = ground (arith, b.version_one)

  abbrev restarted : Mem
  restarted = store lengthened (options_start lengthened self.outbound.packet) 0xff

  abbrev retoken : Mem
  retoken = copy restarted (token self.outbound.packet) from n

  retoken-byte : retoken self.outbound.packet ≡ lengthened self.outbound.packet
  unfolding copy store
  retoken-byte = ground arith

  retoken-marker : retoken (options_start lengthened self.outbound.packet + 1 - 1) ≡ 0xff
  unfolding copy store
  retoken-marker = ground (arith, lengthened-byte)

  retoken-IsBuilt :
      IsBuilt
        (record self {
          mem = retoken;
          outbound = record self.outbound {
            content_ptr = options_start lengthened self.outbound.packet + 1;
            content_len = 0;
          };
        })
        []
  retoken-IsBuilt = record {
    version_one = omega (arith, retoken-byte, lengthened-byte);
    token_small = omega (arith, retoken-byte, lengthened-byte);
    ordered = tt;
    bytes = tt;
    content = omega (arith, retoken-byte);
    marker = retoken-marker;
    limit = b.limit;
    fits = omega (arith, lengthened-byte);
  }

-- The same length: only the token's bytes change.
same_length-IsBuilt :
    (self : Session) (from n : ℕ) (opts : Options)
    → IsBuilt self opts
    → token_len self.mem self.outbound.packet ≡ n
    → IsBuilt (record self { mem = copy self.mem (token self.outbound.packet) from n }) opts
unfolding copy
same_length-IsBuilt self from n opts b e =
    IsBuilt-fields self opts (copy self.mem (token self.outbound.packet) from n)
      self.outbound.content_len b (λ x at lt. ground (arith, at, e)) b.fits

pub set_token-IsUnderway :
    (self : Session) (from n : ℕ) → IsUnderway self → IsUnderway (set_token self from n).1
unfolding set_token start_content
set_token-IsUnderway self from n (opts, b, pl) = elim (Bool-cases (ltb 8 n)) [
  | inl e ↦ rw e (opts, b, pl)
  | inr short ↦ elim (Bool-cases (token_len self.mem self.outbound.packet == n)) [
    | inl e ↦
        rw (short, e)
          (
            opts,
            same_length-IsBuilt self from n opts b (ground arith),
            Placed-Same self _ pl (refl, refl, refl, refl, refl),
          )
    | inr e ↦
        rw (short, e)
          (
            [],
            retoken-IsBuilt self from n (ground arith) opts b,
            Placed-Same self _ pl (refl, refl, refl, refl, refl),
          )
  ]
]

-- `smcp_outbound_append_content` measures the room before the call adds its own options, and not
-- again: if the content fits before them but not behind them, the call reports success, and the
-- content ends behind the SMCP_MAX_PACKET_LENGTH bytes of the packet.
pub append_content_overflows :
    (self s1 : Session) (opts : Options) (value len n : ℕ)
    → value_length self.mem value len ≡ some n
    → n < get_space_remaining self.outbound
    → get_content_ptr self ≡ some s1
    → IsBuilt s1 opts
    → get_space_remaining s1.outbound < n
    → n < 2 ^ 15
    → (append_content self value len ≡ some (ok, with_content s1 value n))
      × (s1.outbound.packet + max_packet_length
          < (with_content s1 value n).outbound.content_ptr
            + (with_content s1 value n).outbound.content_len)
unfolding append_content append_sized
append_content_overflows self s1 opts value len n e fits found b more small = (
  rw (append_content, e, append_sized, lt→ltb _ _ fits, found) refl,
  omega (arith, space_lem s1 opts b, more, b.content),
)
