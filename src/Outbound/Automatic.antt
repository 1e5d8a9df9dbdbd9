-- ===== src/Outbound/Automatic.antt =====
-- The options that `smcp_outbound_add_option` adds by itself.
use smcp.Prelude.{ℕ, ◌+◌, ◌^◌, ◌<◌, ◌≤◌, ◌⊎◌, inl, inr, refl, arith}
use smcp.Prelude.{not, ◌&&◌, List, [], length, ◌==◌, Bool-cases}
use smcp.Coap.Option.Sequence.{Options}
use smcp.Coap.Uint.{uint_value}
use smcp.Outbound.{
  Session, Status, ok, message_too_big, failure, invalid_argument, response_not_allowed,
}
use smcp.Outbound.{cstr_len, option_block2, option_observe}
use smcp.Outbound.{wants_block2, wants_observe, next_block2_of, uint_at, with_uint}
use smcp.Outbound.{add_block2, add_observe, add_options_up_to_key, add_given}
use smcp.Outbound.Built.{IsBuilt, IsElsewhere}
use smcp.Outbound.Values.{footprint, IsValue}
use smcp.Outbound.Progress.{
  Placed, Goes, Added-Progress, stay, add_option_-Added, length-uint_value, stored-IsBuilt,
  stored-IsValue, after_store, Goes-trans,
}

-- The block option.
block2-goes :
    (self : Session) (opts : Options) (key : ℕ)
    → IsBuilt self opts
    → Placed self
    → Goes self.block2 self (add_block2 self key)
unfolding add_block2
block2-goes self opts key b pl = elim (Bool-cases (wants_block2 self key)) [
  | inr e ↦ (ok, self, rw (add_block2, e) refl, stay self opts b)
  | inl e ↦
      let n = next_block2_of self in
      let stored = stored-IsBuilt self opts b self.block2 n pl.block2_small pl.block2_elsewhere in
      let (status, self', found, a) =
        add_option_-Added (with_uint self self.block2 n) opts option_block2 (uint_at self.block2 n)
          (length (uint_value n)) (uint_value n) stored (omega arith)
          (omega (arith, length-uint_value n pl.block2_small))
          (stored-IsValue self opts b self.block2 n pl.block2_small pl.block2_elsewhere)
          (omega (arith, length-uint_value n pl.block2_small, pl.block2_elsewhere)) in
      (
        status,
        self',
        rw (add_block2, e) found,
        after_store self opts b self.block2 n pl.block2_small pl.block2_elsewhere self.block2 self'
            (λ x o u. o) (Added-Progress _ opts _ _ _ status self' a),
      )
]

-- The observe option.
observe-goes :
    (self : Session) (opts : Options) (status : Status) (key : ℕ)
    → IsBuilt self opts
    → Goes self.block2 self (add_observe (status, self) key)
unfolding add_observe
observe-goes self opts status key b = elim (Bool-cases (wants_observe self key)) [
  | inr e ↦ (status, self, rw (add_observe, e) refl, stay self opts b)
  | inl e ↦
      let (ret, self', found, a) =
        add_option_-Added self opts option_observe 0 0 [] b (omega arith) (omega arith)
          (inl (omega arith, refl, tt)) (inl (omega arith)) in
      (ret, self', rw (add_observe, e) found, Added-Progress self opts _ _ _ ret self' a)
]

pub up_to_key-goes :
    (self : Session) (opts : Options) (key : ℕ)
    → IsBuilt self opts
    → Placed self
    → Goes self.block2 self (add_options_up_to_key self key)
unfolding add_options_up_to_key
up_to_key-goes self opts key b pl =
    let (ret, s1, e, p) = block2-goes self opts key b pl in
    let (ret', s2, e', q) = Goes-trans self s1 _ pl p (observe-goes s1 p.now ret key p.built) in
    (ret', s2, rw (add_options_up_to_key, e) e', q)

-- A value that stands apart from the buffer and the local variable of the block option.
pub record IsApartValue (self : Session) (value len : ℕ) (v : List ℕ) : Type 0 where
  pub value_is : IsValue self.mem value len v
  pub short : length v < cstr_len
  pub elsewhere : IsElsewhere self value (footprint len v)
  pub off_block2 : (value + footprint len v ≤ self.block2) ⊎ (self.block2 + 4 ≤ value)

module _ (key value len : ℕ) (v : List ℕ) (small : key < 2 ^ 16) where
  pub given-goes :
      (self : Session) (opts : Options) (status : Status)
      → IsBuilt self opts
      → IsValue self.mem value len v
      → length v < cstr_len
      → IsElsewhere self value (length v)
      → Goes self.block2 self (add_given (status, self) key value len)
  unfolding add_given
  given-goes self opts ok b val short out =
      elim (Bool-cases (key == option_block2 && not (next_block2_of self == 0))) [
        | inl e ↦ (ok, self, rw e refl, stay self opts b)
        | inr e ↦
            let (ret, self', found, a) =
              add_option_-Added self opts key value len v b small short val out in
            (ret, self', rw e found, Added-Progress self opts _ _ _ ret self' a)
      ]
  given-goes self opts failure b val short out = (failure, self, refl, stay self opts b)
  given-goes self opts invalid_argument b val short out =
      (invalid_argument, self, refl, stay self opts b)
  given-goes self opts response_not_allowed b val short out =
      (response_not_allowed, self, refl, stay self opts b)
  given-goes self opts message_too_big b val short out =
      (message_too_big, self, refl, stay self opts b)
