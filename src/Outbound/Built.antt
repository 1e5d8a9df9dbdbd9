-- ===== src/Outbound/Built.antt =====
-- A packet under construction, and `smcp_outbound_add_option_` on it.
use smcp.Prelude.{ℕ, ◌+◌, ◌-◌, ◌/◌, ◌%◌, ◌^◌, ◌<◌, ◌≤◌, ◌≡◌, ◌⊎◌, inl, inr, refl, ap, ◌∙◌, arith}
use smcp.Prelude.{false, some, List, length, ltb}
use smcp.Prelude.{Bool-cases, ==_ne, ltb→lt, not-ltb→le}
use smcp.Prelude.Bytes.{Mem, store}
use smcp.Coap.Option.{insert_option}
use smcp.Coap.Option.Format.{Holds, Holds-agree}
use smcp.Coap.Option.Encode.{Outside}
use smcp.Coap.Option.Sequence.{Options, options_bytes, IsOrdered, add}
use smcp.Coap.Option.Insert.{Inserted}
use smcp.Coap.Option.Ordered.{insert_option_refines}
use smcp.Coap.Packet.{version, token_len}
use smcp.Outbound.{Session, Status, ok, message_too_big, options_start, options_end}
use smcp.Outbound.{get_space_remaining, add_sized, with_option, max_packet_length}
use smcp.Outbound.Sizes.{IsOrdered-add, length-add}

-- The outbound packet of a session, with its options: the header's version and token length, the
-- options' bytes behind the token, the marker behind them, and room for all within the buffer.
pub record IsBuilt (self : Session) (opts : Options) : Type 0 where
  pub version_one : version self.mem self.outbound.packet ≡ 1
  pub token_small : token_len self.mem self.outbound.packet ≤ 8
  pub ordered : IsOrdered 0 opts
  pub bytes : Holds self.mem (options_start self.mem self.outbound.packet) (options_bytes 0 opts)
  pub content :
      self.outbound.content_ptr
      ≡ options_start self.mem self.outbound.packet + length (options_bytes 0 opts) + 1
  pub marker : self.mem (self.outbound.content_ptr - 1) ≡ 0xff
  pub limit : self.outbound.max_packet_len ≡ max_packet_length
  pub fits :
      self.outbound.content_ptr + self.outbound.content_len
      ≤ self.outbound.packet + max_packet_length

-- The bytes at an address are none of the outbound packet's buffer.
abbrev pub IsElsewhere : Session → ℕ → ℕ → Type 0
IsElsewhere self a n =
    (a + n ≤ self.outbound.packet) ⊎ (self.outbound.packet + max_packet_length < a)

-- How the packet has changed behind its header: only bytes from the options on.
abbrev pub Kept : Session → Session → Type 0
Kept self self' =
    (x : ℕ)
    → Outside x (options_start self.mem self.outbound.packet)
        (self.outbound.packet + max_packet_length + 1)
    → self'.mem x ≡ self.mem x

-- What no call on a packet under construction changes.
abbrev pub Same : Session → Session → Type 0
Same self self' =
    (self'.block2 ≡ self.block2)
    × (self'.uint ≡ self.uint)
    × (self'.outbound.packet ≡ self.outbound.packet)
    × (self'.current_transaction ≡ self.current_transaction)
    × (self'.is_responding ≡ self.is_responding)

-- `smcp_outbound_get_space_remaining` is the room that is left.
pub space_lem :
    (self : Session) (opts : Options)
    → IsBuilt self opts
    → get_space_remaining self.outbound + (self.outbound.content_ptr + self.outbound.content_len)
      ≡ self.outbound.packet + max_packet_length
unfolding get_space_remaining
space_lem self opts b = ground (arith, b.fits, b.limit, b.content)

module _ (self : Session) (opts : Options) (b : IsBuilt self opts) where
  abbrev start : ℕ
  start = options_start self.mem self.outbound.packet

  abbrev end : ℕ
  end = start + length (options_bytes 0 opts)

  end_lem : options_end self ≡ end
  end_lem =
      rw (==_ne self.outbound.content_ptr start (omega (arith, b.content)))
        (omega (arith, b.content))

  calls :
      (key value n : ℕ) (m : Mem) (size : ℕ)
      → ltb (get_space_remaining self.outbound) (n + 8) ≡ false
      → insert_option self.mem start end key value n ≡ some (m, size)
      → add_sized self key value n ≡ some (ok, with_option self key (end + size) m)
  unfolding add_sized
  calls key value n m size room e =
      rw (room, end_lem, e) (ap (λ (x : ℕ). some (ok, with_option self key (x + size) m)) end_lem)

  module _ (key : ℕ) (v : List ℕ) (small : key < 2 ^ 16)
      (room : length v + 8 ≤ get_space_remaining self.outbound) (m : Mem) (size : ℕ)
      (ins : Inserted self.mem start end (options_bytes 0 (add key v opts)) (m, size)) where
    abbrev result : Session
    result = with_option self key (end + size) m

    grown : end + size ≡ start + length (options_bytes 0 (add key v opts))
    grown = ins.grown

    inside :
        end + size + 1 + self.outbound.content_len + 2 ≤ self.outbound.packet + max_packet_length
    inside = omega (
      arith,
      grown,
      length-add key v 0 opts (omega arith),
      space_lem self opts b,
      room,
      b.content,
    )

    frame : (x : ℕ) → Outside x start (end + size + 1) → result.mem x ≡ self.mem x
    unfolding store
    frame x out = ground (arith, ins.frame x (omega arith), out)

    header_byte : result.mem self.outbound.packet ≡ self.mem self.outbound.packet
    header_byte = frame self.outbound.packet (omega arith)

    start_kept : options_start result.mem self.outbound.packet ≡ start
    start_kept = ap (λ (x : ℕ). self.outbound.packet + 4 + x % 16) header_byte

    options_Holds : Holds result.mem start (options_bytes 0 (add key v opts))
    unfolding store
    options_Holds =
        Holds-agree m result.mem start start (options_bytes 0 (add key v opts))
          (λ i p. ground (arith, grown)) ins.holds

    marker_byte : result.mem (end + size + 1 - 1) ≡ 0xff
    unfolding store
    marker_byte = ground arith

    added : IsBuilt result (add key v opts)
    added = record {
      version_one = ap (λ (x : ℕ). x / 64) header_byte ∙ b.version_one;
      token_small = rw header_byte b.token_small;
      ordered =
          IsOrdered-add key v 0 opts small (omega (arith, room, space_lem self opts b, b.content))
            (omega arith) b.ordered;
      bytes = rw start_kept options_Holds;
      content = rw start_kept (omega (arith, grown));
      marker = marker_byte;
      limit = b.limit;
      fits = omega (arith, inside);
    }

-- What a call of `smcp_outbound_add_option_` leaves: the option is in the packet, or there was no
-- room for it and its eight bytes and nothing has changed.
pub record Added (self : Session) (opts : Options) (key n : ℕ) (v : List ℕ) (status : Status)
    (self' : Session) : Type 0 where
  pub now : List (ℕ × List ℕ)
  pub built : IsBuilt self' now
  pub same : Same self self'
  pub kept : Kept self self'
  pub outcome :
      ((status ≡ ok) × (now ≡ add key v opts) × (n + 8 ≤ get_space_remaining self.outbound))
      ⊎ ((status ≡ message_too_big) × (self' ≡ self) × (get_space_remaining self.outbound < n + 8))

-- `smcp_outbound_add_option_` on a packet under construction, for a value that stands anywhere but
-- in the packet's buffer: it ends, and either the packet then has the option behind every option
-- whose key is not greater, and is well-formed within its buffer, or there is no room for the
-- option and eight bytes, the status is SMCP_STATUS_MESSAGE_TOO_BIG and nothing has changed. No
-- byte outside the buffer and none of the header and the token changes.
pub add_sized_refines :
    (self : Session) (opts : Options) (key value : ℕ) (v : List ℕ)
    → IsBuilt self opts
    → key < 2 ^ 16
    → Holds self.mem value v
    → IsElsewhere self value (length v)
    → (status : Status) × (self' : Session) × (add_sized self key value (length v)
        ≡ some (status, self'))
      × Added self opts key (length v) v status self'
unfolding add_sized
add_sized_refines self opts key value v b small hval apart =
    elim (Bool-cases (ltb (get_space_remaining self.outbound) (length v + 8))) [
      | inl full ↦ (
        message_too_big,
        self,
        rw full refl,
        record {
          now = opts;
          built = b;
          same = (refl, refl, refl, refl, refl);
          kept = λ x out. refl;
          outcome = inr (refl, refl, ltb→lt _ _ full);
        },
      )
      | inr room ↦
          let enough = not-ltb→le _ _ room in
          let ((m, size), found, ins) =
            insert_option_refines self.mem (start self opts b) (end self opts b) key value v opts
              b.ordered b.bytes refl small (omega (arith, enough, space_lem self opts b, b.content))
              hval (omega (arith, apart, enough, space_lem self opts b, b.content)) in
          (
            ok,
            result self opts b key v small enough m size ins,
            calls self opts b key value (length v) m size room found,
            record {
              now = add key v opts;
              built = added self opts b key v small enough m size ins;
              same = (refl, refl, refl, refl, refl);
              kept = λ x out.
                  frame self opts b key v small enough m size ins x
                    (omega (arith, out, inside self opts b key v small enough m size ins));
              outcome = inl (refl, refl, enough);
            },
          )
    ]
