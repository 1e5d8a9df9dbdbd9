-- ===== src/Outbound/Underway.antt =====
-- A session whose packet is under construction, and `smcp_outbound_send` on it.
use smcp.Prelude.{ℕ, ◌^◌, ◌<◌, ◌≡◌, inl, inr, refl}
use smcp.Prelude.{Bool, false, Option, none, some, ◌==◌, Bool-cases}
use smcp.Coap.Option.{invalid}
use smcp.Coap.Option.Sequence.{Options}
use smcp.Coap.Packet.{code_of}
use smcp.Outbound.{Session, Status, ok, message_too_big}
use smcp.Outbound.{get_content_ptr}
use smcp.Outbound.{
  Transaction, next_block2_of, get_content_ptr, after_hook, send, with_sent_code, failure,
  invalid_argument, response_not_allowed,
}
use smcp.Outbound.Built.{IsBuilt}
use smcp.Outbound.Progress.{Placed, Progress}
use smcp.Outbound.Progress.{Placed-Same}
use smcp.Outbound.Automatic.{up_to_key-goes}

-- A packet is under construction, with the local variables where they may be.
abbrev pub IsUnderway : Session → Type 0
IsUnderway self = (opts : Options) × IsBuilt self opts × Placed self

pub Progress-IsUnderway :
    (other : ℕ) (self self' : Session) → Placed self → Progress other self self' → IsUnderway self'
Progress-IsUnderway other self self' pl p = (p.now, p.built, Placed-Same self self' pl p.same)

pub get_content_ptr-goes :
    (self : Session)
    → IsUnderway self
    → (s1 : Session) × (get_content_ptr self ≡ some s1)
      × IsUnderway s1
      × (s1.is_responding ≡ self.is_responding)
unfolding get_content_ptr
get_content_ptr-goes self (opts, b, pl) =
    elim (Bool-cases (code_of self.mem self.outbound.packet == 0)) [
      | inl e ↦ (self, rw (get_content_ptr, e) refl, (opts, b, pl), refl)
      | inr e ↦
          let (ret, s1, found, p) = up_to_key-goes self opts invalid b pl in
          (
            s1,
            rw (get_content_ptr, e, found) refl,
            Progress-IsUnderway self.block2 self s1 pl p,
            p.same.4,
          )
    ]

abbrev pub block_of : Option Transaction → ℕ
block_of none = 0
block_of (some t) = t.next_block2

-- The packet does not depend on the other fields, but for the block that the transaction asks for.
pub with_fields-IsUnderway :
    (self : Session) (t : Option Transaction) (r d : Bool)
    → block_of t ≡ block_of self.current_transaction
    → IsUnderway self
    → IsUnderway (record self { current_transaction = t; is_responding = r; did_respond = d })
with_fields-IsUnderway self t r d same (opts, b, pl) = (
  opts,
  record {
    version_one = b.version_one;
    token_small = b.token_small;
    ordered = b.ordered;
    bytes = b.bytes;
    content = b.content;
    marker = b.marker;
    limit = b.limit;
    fits = b.fits;
  },
  record {
    block2_elsewhere = pl.block2_elsewhere;
    uint_elsewhere = pl.uint_elsewhere;
    apart = pl.apart;
    block2_small = small t (rw same (small_of self.current_transaction pl.block2_small));
  },
)
  where
    small :
        (x : Option Transaction)
        → block_of x < 2 ^ 32
        → next_block2_of (record self { current_transaction = x }) < 2 ^ 32
    small none h = h
    small (some y) h = h

    small_of :
        (x : Option Transaction)
        → next_block2_of (record self { current_transaction = x }) < 2 ^ 32
        → block_of x < 2 ^ 32
    small_of none h = h
    small_of (some y) h = h

with_sent_code-IsUnderway : (self : Session) → IsUnderway self → IsUnderway (with_sent_code self)
with_sent_code-IsUnderway self u =
    with_fields-IsUnderway self _ self.is_responding self.did_respond
      (same self.current_transaction) u
  where
    same :
        (t : Option Transaction)
        → block_of (elim t [
          | none ↦ none
          | some x ↦ some (record x { sent_code = code_of self.mem self.outbound.packet })
        ])
          ≡ block_of t
    same none = refl
    same (some x) = refl

-- What follows the hook leaves the packet as it is.
after_hook-IsUnderway :
    (status : Status) (self : Session) → IsUnderway self → IsUnderway (after_hook status self).1
after_hook-IsUnderway ok self u =
    with_fields-IsUnderway self self.current_transaction false _ refl u
after_hook-IsUnderway failure self u = u
after_hook-IsUnderway invalid_argument self u = u
after_hook-IsUnderway response_not_allowed self u = u
after_hook-IsUnderway message_too_big self u = u

-- A call of `smcp_outbound_send` ends, and the session is what follows the hook at some session
-- that responds if the first one did.
pub send-goes :
    (hook : Session → Status) (self : Session)
    → IsUnderway self
    → (s : Session) × (send hook self ≡ some (after_hook (hook s) s))
      × IsUnderway (after_hook (hook s) s).1
      × (s.is_responding ≡ self.is_responding)
unfolding send
send-goes hook self u =
    let (s, found, u', r) =
      get_content_ptr-goes (with_sent_code self) (with_sent_code-IsUnderway self u) in
    (s, rw (send, found) refl, after_hook-IsUnderway (hook s) s u', r)
