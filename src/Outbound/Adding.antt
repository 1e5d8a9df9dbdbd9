-- ===== src/Outbound/Adding.antt =====
-- `smcp_outbound_add_option` and `smcp_outbound_add_option_uint` on a packet under construction.
use smcp.Prelude.{ℕ, ◌+◌, ◌^◌, ◌<◌, ◌≤◌, refl, arith}
use smcp.Prelude.{List, length}
use smcp.Coap.Option.Sequence.{Options}
use smcp.Coap.Uint.{uint_value}
use smcp.Outbound.{Session, uint_at, with_uint}
use smcp.Outbound.{add_option, add_option_uint}
use smcp.Outbound.Built.{IsBuilt}
use smcp.Outbound.Values.{footprint, IsValue-agree}
use smcp.Outbound.Progress.{Placed, Goes, length-uint_value}
use smcp.Outbound.Progress.{stored-IsBuilt, stored-IsValue, after_store, Placed-Same, Goes-trans}
use smcp.Outbound.Automatic.{up_to_key-goes, IsApartValue, given-goes}

footprint-ge : (len : ℕ) (v : List ℕ) → length v ≤ footprint len v
footprint-ge len v = ground arith

-- `smcp_outbound_add_option` on a packet under construction, for any key and a value that stands
-- apart from it and from the local variables, whatever room there is: the call ends, and the
-- packet is well-formed within its buffer again.
pub add_option-goes :
    (self : Session) (opts : Options) (key value len : ℕ) (v : List ℕ)
    → IsBuilt self opts
    → Placed self
    → key < 2 ^ 16
    → IsApartValue self value len v
    → Goes self.block2 self (add_option self key value len)
unfolding add_option
add_option-goes self opts key value len v b pl small a =
    let (ret, s1, e, p) = up_to_key-goes self opts key b pl in
    let (ret', s2, e', q) = Goes-trans self s1 _ pl p (
      given-goes key value len v small s1 p.now ret p.built
        (IsValue-agree self.mem s1.mem value len v
          (λ i lt.
            p.kept (value + i) (omega (arith, lt, a.elsewhere)) (omega (arith, lt, a.off_block2))
              (omega (arith, lt, a.off_block2)))
          a.value_is)
        a.short (rw p.same.2 (omega (arith, a.elsewhere, footprint-ge len v)))) in
    (ret', s2, rw (add_option, e) e', q)

pub add_option_uint-goes :
    (self : Session) (opts : Options) (key number : ℕ)
    → IsBuilt self opts
    → Placed self
    → key < 2 ^ 16
    → number < 2 ^ 32
    → Goes self.uint self (add_option_uint self key number)
unfolding add_option_uint
add_option_uint-goes self opts key number b pl small fits =
    let (ret, s, e, p) =
      add_option-goes (with_uint self self.uint number) opts key (uint_at self.uint number)
        (length (uint_value number)) (uint_value number)
        (stored-IsBuilt self opts b self.uint number fits pl.uint_elsewhere)
        (Placed-Same self (with_uint self self.uint number) pl (refl, refl, refl, refl, refl)) small
        (record {
          value_is = stored-IsValue self opts b self.uint number fits pl.uint_elsewhere;
          short = omega (arith, length-uint_value number fits);
          elsewhere = ground (arith, length-uint_value number fits, pl.uint_elsewhere);
          off_block2 = ground (arith, length-uint_value number fits, pl.apart);
        }) in
    (
      ret,
      s,
      e,
      after_store self opts b self.uint number fits pl.uint_elsewhere self.uint s (λ x o u. u)
          (record {
            now = p.now;
            built = p.built;
            same = p.same;
            kept = λ x out o u. p.kept x out o o;
          }),
    )
