-- ===== src/Outbound/Progress.antt =====
-- Packets under construction between the calls, and the local variables of the calls.
use smcp.Prelude.{subst, ℕ, ◌+◌, ◌/◌, ◌^◌, ◌<◌, ◌≤◌, ◌≡◌, ◌⊎◌, inl, refl, ap, ◌∙◌, arith}
use smcp.Prelude.{Option, none, some, List, length}
use smcp.Prelude.Bytes.{Mem}
use smcp.Coap.Option.Format.{Holds-agree}
use smcp.Coap.Option.Encode.{Outside}
use smcp.Coap.Option.Sequence.{Options, options_bytes}
use smcp.Coap.Uint.{uint_value, decode_uint32-uint_value, calc_uint32_option_size}
use smcp.Outbound.{Session, Status}
use smcp.Outbound.{options_start, max_packet_length, cstr_len, Transaction}
use smcp.Outbound.{value_length, add_sized, add_option_, next_block2_of, uint_at, with_uint}
use smcp.Outbound.Built.{IsBuilt, IsElsewhere, Same, Added, add_sized_refines}
use smcp.Outbound.Values.{
  IsValue, value_length_lem, value-Holds, store_list-frame, store_list-Holds,
}

-- Where the local variables stand: apart from the buffer and from each other. The block that the
-- transaction asks for is a uint32_t.
pub record Placed (self : Session) : Type 0 where
  pub block2_elsewhere : IsElsewhere self self.block2 4
  pub uint_elsewhere : IsElsewhere self self.uint 4
  pub apart : (self.block2 + 5 ≤ self.uint) ⊎ (self.uint + 5 ≤ self.block2)
  pub block2_small : next_block2_of self < 2 ^ 32

-- A packet under construction after a call: bytes are changed from its options on, and in the
-- local variable of the automatic block option and at one `other` address.
pub record Progress (other : ℕ) (self self' : Session) : Type 0 where
  pub now : Options
  pub built : IsBuilt self' now
  pub same : Same self self'
  pub kept :
      (x : ℕ)
      → Outside x
          (options_start self.mem self.outbound.packet)
          (self.outbound.packet + max_packet_length + 1)
      → Outside x self.block2 (self.block2 + 4)
      → Outside x other (other + 4)
      → self'.mem x ≡ self.mem x

-- The call ends, and the packet is well-formed again.
abbrev pub Goes : ℕ → Session → Option (Status × Session) → Type 0
Goes other self out =
    (status : Status) × (self' : Session) × (out ≡ some (status, self')) × Progress other self self'

pub Added-Progress :
    (self : Session) (opts : Options) (key n : ℕ) (v : List ℕ) (status : Status) (self' : Session)
    → Added self opts key n v status self'
    → Progress self.block2 self self'
Added-Progress self opts key n v status self' a = record {
  now = a.now;
  built = a.built;
  same = a.same;
  kept = λ x out o u. a.kept x out;
}

pub stay : (self : Session) (opts : Options) → IsBuilt self opts → Progress self.block2 self self
stay self opts b = record {
  now = opts;
  built = b;
  same = (refl, refl, refl, refl, refl);
  kept = λ x out o u. refl;
}

-- A packet is built of its buffer's bytes.
pub IsBuilt-memory :
    (self : Session) (opts : Options) (m : Mem)
    → IsBuilt self opts
    → ((x : ℕ)
        → self.outbound.packet ≤ x
        → x < self.outbound.packet + max_packet_length
        → m x ≡ self.mem x)
    → IsBuilt (record self { mem = m }) opts
IsBuilt-memory self opts m b agree = record {
  version_one = ap (λ (x : ℕ). x / 64) byte ∙ b.version_one;
  token_small = rw byte b.token_small;
  ordered = b.ordered;
  bytes = rw byte (
      Holds-agree self.mem m _ _ (options_bytes 0 opts)
        (λ i p. agree _ (omega arith) (omega (arith, p, b.content, b.fits))) b.bytes);
  content = rw byte b.content;
  marker = agree _ (omega (arith, b.content)) (omega (arith, b.content, b.fits)) ∙ b.marker;
  limit = b.limit;
  fits = b.fits;
}
  where
    byte : m self.outbound.packet ≡ self.mem self.outbound.packet
    byte = agree self.outbound.packet (omega arith) (omega arith)

add_option_-sized :
    (self : Session) (key value len n : ℕ)
    → value_length self.mem value len ≡ some n
    → add_option_ self key value len ≡ add_sized self key value n
unfolding add_option_
add_option_-sized self key value len n e = rw (add_option_, e) refl

-- `smcp_outbound_add_option_` for any value.
pub add_option_-Added :
    (self : Session) (opts : Options) (key value len : ℕ) (v : List ℕ)
    → IsBuilt self opts
    → key < 2 ^ 16
    → length v < cstr_len
    → IsValue self.mem value len v
    → IsElsewhere self value (length v)
    → (status : Status) × (self' : Session) × (add_option_ self key value len
        ≡ some (status, self'))
      × Added self opts key (length v) v status self'
add_option_-Added self opts key value len v b small short val out =
    let (status, self', e, a) =
      add_sized_refines self opts key value v b small (value-Holds self.mem value len v val) out in
    (
      status,
      self',
      add_option_-sized self key value len (length v)
            (value_length_lem self.mem value len v short val)
          ∙ e,
      a,
    )

pub length-uint_value : (v : ℕ) → v < 2 ^ 32 → length (uint_value v) ≤ 4
unfolding calc_uint32_option_size
length-uint_value v small = let (e, l, b) = decode_uint32-uint_value v small in ground (arith, l)

-- A number's bytes in a local variable.
module _ (self : Session) (opts : Options) (b : IsBuilt self opts) (local number : ℕ)
    (small : number < 2 ^ 32) (out : IsElsewhere self local 4) where
  stored-frame :
      (x : ℕ) → Outside x local (local + 4) → (with_uint self local number).mem x ≡ self.mem x
  stored-frame x other =
      store_list-frame self.mem (uint_at local number) (uint_value number) x
        (omega (arith, other, length-uint_value number small))

  pub stored-IsBuilt : IsBuilt (with_uint self local number) opts
  stored-IsBuilt =
      IsBuilt-memory self opts (with_uint self local number).mem b
        (λ x ge lt. stored-frame x (omega (arith, out)))

  pub stored-IsValue :
      IsValue
        (with_uint self local number).mem
        (uint_at local number)
        (length (uint_value number))
        (uint_value number)
  stored-IsValue = inl (
    omega (arith, length-uint_value number small),
    refl,
    store_list-Holds self.mem (uint_at local number) (uint_value number),
  )

  pub after_store :
      (other : ℕ) (self' : Session)
      → ((x : ℕ)
          → Outside x self.block2 (self.block2 + 4)
          → Outside x other (other + 4)
          → Outside x local (local + 4))
      → Progress other (with_uint self local number) self'
      → Progress other self self'
  after_store other self' covers p = record {
    now = p.now;
    built = p.built;
    same = p.same;
    kept = λ x out o u.
        p.kept x
          (omega (arith, out, stored-frame self.outbound.packet (omega (arith, out_of_buffer)))) o u
        ∙ stored-frame x (covers x o u);
  }
    where
      out_of_buffer : IsElsewhere self local 4
      out_of_buffer = out

pub Placed-Same : (self self' : Session) → Placed self → Same self self' → Placed self'
Placed-Same self self' pl (b, u, p, t, r) = record {
  block2_elsewhere = rw (b, p) pl.block2_elsewhere;
  uint_elsewhere = rw (u, p) pl.uint_elsewhere;
  apart = rw (b, u) pl.apart;
  block2_small =
      rw (ap {B = ℕ} (λ (x : Option Transaction). elim x [ none ↦ 0 | some y ↦ y.next_block2 ]) t)
        pl.block2_small;
}

pub Progress-trans :
    (other : ℕ) (self s1 s2 : Session)
    → Placed self
    → IsElsewhere self other 4
    → Progress other self s1
    → Progress other s1 s2
    → Progress other self s2
Progress-trans other self s1 s2 pl out_of_buffer p q = record {
  now = q.now;
  built = q.built;
  same =
      let (b, u, a, t, r) = p.same in
      let (b', u', a', t', r') = q.same in (b' ∙ b, u' ∙ u, a' ∙ a, t' ∙ t, r' ∙ r);
  kept = λ x out o u. q.kept x (rw (p.same.2, first_byte) out) (rw p.same.0 o) u ∙ p.kept x out o u;
}
  where
    first_byte : s1.mem self.outbound.packet ≡ self.mem self.outbound.packet
    first_byte =
        p.kept self.outbound.packet (omega arith) (omega (arith, pl.block2_elsewhere))
          (omega (arith, out_of_buffer))

pub Goes-trans :
    (self s1 : Session) (out : Option (Status × Session))
    → Placed self
    → Progress self.block2 self s1
    → Goes s1.block2 s1 out
    → Goes self.block2 self out
Goes-trans self s1 out pl p (status, s2, e, q) = (
  status,
  s2,
  e,
  Progress-trans self.block2 self s1 s2 pl pl.block2_elsewhere p
      (subst (λ a. Progress a s1 s2) p.same.0 q),
)
