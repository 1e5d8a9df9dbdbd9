-- ===== src/Outbound/Begin.antt =====
-- `smcp_outbound_begin`.
use smcp.Prelude.{ℕ, ◌+◌, ◌-◌, ◌*◌, ◌/◌, ◌%◌, ◌^◌, ◌<◌, ◌≤◌, ◌≡◌, ◌≢◌, ◌⊎◌, refl, ap, ◌∙◌, arith}
use smcp.Prelude.{Bool, true, false, Option, none, some, if◌then◌else◌, []}
use smcp.Prelude.Bytes.{Mem, store, copy}
use smcp.Coap.Packet.{version, tt_of, token_len, code_of, token}
use smcp.Coap.Option.Encode.{Outside}
use smcp.Outbound.{Session, Transaction, set_token_len, set_tt, set_version, set_code_of, store16}
use smcp.Outbound.{start_content, choose_token, begin_header, begin, max_packet_length}
use smcp.Outbound.Built.{IsBuilt}

module _ (m : Mem) (p : ℕ) where
  pub set_token_len-fields :
      (n : ℕ)
      → n ≤ 8
      → (version (set_token_len m p n) p ≡ version m p)
        × (tt_of (set_token_len m p n) p ≡ tt_of m p)
        × (token_len (set_token_len m p n) p ≡ n)
  unfolding set_token_len store
  set_token_len-fields n le = (ground arith, ground arith, ground arith)

  pub set_token_len-frame : (n x : ℕ) → x ≢ p → set_token_len m p n x ≡ m x
  unfolding set_token_len store
  set_token_len-frame n x ne = ground arith

-- What the writes of the token do to a header: the length, and bytes of the token.
abbrev TokenSet : Mem → Mem → ℕ → Type 0
TokenSet m k p =
    (version k p ≡ version m p)
    × (tt_of k p ≡ tt_of m p)
    × (token_len k p ≤ 8)
    × ((x : ℕ) → Outside x p (token p + 8) ⊎ (p < x) × (x < token p) → k x ≡ m x)

module _ (self : Session) (code : ℕ) (m : Mem) (p : ℕ) where
  no_token : TokenSet m (set_token_len m p 0) p
  no_token =
      let (v, t, l) = set_token_len-fields m p 0 (omega arith) in
      (v, t, omega (arith, l), λ x out. set_token_len-frame m p 0 x (omega (arith, out)))

  copied : (n from : ℕ) → n ≤ 8 → TokenSet m (copy (set_token_len m p n) (token p) from n) p
  unfolding copy
  copied n from le =
      let (v, t, l) = set_token_len-fields m p n le in
      (
        ground (arith, v),
        ground (arith, t),
        ground (arith, l),
        λ x out. ground (arith, set_token_len-frame m p n x (omega (arith, out)), out),
      )

  stored : (v : ℕ) → TokenSet m (store16 (set_token_len m p 2) (token p) v) p
  unfolding store16 store
  stored v =
      let (e, t, l) = set_token_len-fields m p 2 (omega arith) in
      (
        ground (arith, e),
        ground (arith, t),
        ground (arith, l),
        λ x out. ground (arith, set_token_len-frame m p 2 x (omega (arith, out)), out),
      )

  of_if :
      (b : Bool) (x y : Mem) → TokenSet m x p → TokenSet m y p → TokenSet m (if b then x else y) p
  of_if true x y hx hy = hx
  of_if false x y hx hy = hy

  of_transaction :
      (t : Option Transaction)
      → TokenSet m
          (elim t [
            | none ↦ set_token_len m p 0
            | some u ↦ store16 (set_token_len m p 2) (token p) u.token
          ])
          p
  of_transaction none = no_token
  of_transaction (some u) = stored u.token

  choose_token-TokenSet :
      token_len m self.inbound_packet ≤ 8 → TokenSet m (choose_token self code m p) p
  unfolding choose_token
  choose_token-TokenSet le =
      of_if _ _ _ (copied (token_len m self.inbound_packet) (token self.inbound_packet) le)
        (of_if _ _ _ (of_transaction self.current_transaction) no_token)

-- The header's fields as `smcp_outbound_begin` leaves them, and the bytes elsewhere.
abbrev pub HeaderSet : Mem → Mem → ℕ → ℕ → ℕ → ℕ → Type 0
HeaderSet m k p code tt_value tid =
    (version k p ≡ 1)
    × (tt_of k p ≡ tt_value % 4)
    × (code_of k p ≡ code % 256)
    × (k (p + 2) + k (p + 3) * 256 ≡ tid)
    × ((x : ℕ) → Outside x p (p + 4) → k x ≡ m x)

pub begin_header_lem :
    (self : Session) (code tt_value : ℕ)
    → self.outbound.next_tid < 2 ^ 16
    → HeaderSet self.mem
        (begin_header self code tt_value)
        self.outbound.packet_bytes
        code
        tt_value
        self.outbound.next_tid
unfolding set_version set_code_of store16 set_tt store
begin_header_lem self code tt_value small =
    (ground arith, ground arith, ground arith, ground arith, λ x out. ground (arith, out))

-- A packet that has begun.
pub record Begun (self : Session) (code tt_value : ℕ) (self' : Session) : Type 0 where
  pub built : IsBuilt self' []
  pub at_buffer : self'.outbound.packet ≡ self.outbound.packet_bytes
  pub code_set : code_of self'.mem self'.outbound.packet ≡ code % 256
  pub tt_set : tt_of self'.mem self'.outbound.packet ≡ tt_value % 4
  pub msg_id_set :
      self'.mem (self'.outbound.packet + 2) + self'.mem (self'.outbound.packet + 3) * 256
      ≡ self.outbound.next_tid
  pub frame :
      (x : ℕ)
      → Outside x self.outbound.packet_bytes (self.outbound.packet_bytes + max_packet_length)
      → self'.mem x ≡ self.mem x

module _ (self : Session) (code tt_value : ℕ) where
  abbrev p : ℕ
  p = self.outbound.packet_bytes

  -- The marker's store behind the token.
  module _ (k : Mem) (small : token_len k p ≤ 8) where
    abbrev marked : Mem
    marked = store k (token p + token_len k p) 0xff

    marked-start : token p + token_len marked p ≡ token p + token_len k p
    unfolding store
    marked-start = ground arith

    marked-frame : (x : ℕ) → x ≢ token p + token_len k p → marked x ≡ k x
    unfolding store
    marked-frame x ne = ground arith

    marked-marker : marked (token p + token_len k p + 1 - 1) ≡ 0xff
    unfolding store
    marked-marker = ground arith

    begun :
        HeaderSet self.mem (begin_header self code tt_value) p code tt_value self.outbound.next_tid
        → TokenSet (begin_header self code tt_value) k p
        → choose_token self code (begin_header self code tt_value) p ≡ k
        → Begun self code tt_value (begin self code tt_value)
    unfolding begin start_content
    begun (v, t, c, i, f) (v', t', l', f') e = rw e (record {
      built = record {
        version_one = ap (λ (x : ℕ). x / 64) (marked-frame p (omega arith)) ∙ v' ∙ v;
        token_small = omega (arith, marked-start);
        ordered = tt;
        bytes = tt;
        content = omega (arith, marked-start);
        marker = marked-marker;
        limit = refl;
        fits = omega arith;
      };
      at_buffer = refl;
      code_set = marked-frame (p + 1) (omega arith) ∙ f' (p + 1) (omega arith) ∙ c;
      tt_set = ap (λ (x : ℕ). x / 16 % 4) (marked-frame p (omega arith)) ∙ t' ∙ t;
      msg_id_set = omega (
        arith,
        marked-frame (p + 2) (omega arith),
        marked-frame (p + 3) (omega arith),
        f' (p + 2) (omega arith),
        f' (p + 3) (omega arith),
        i,
      );
      frame = λ x out.
          marked-frame x (omega (arith, out))
          ∙ f' x (omega (arith, out))
          ∙ f x (omega (arith, out));
    })

-- `smcp_outbound_begin`, for a message in answer to an inbound packet that stands outside of the
-- buffer, its token of at most 8 bytes, or for none: whatever was in the buffer, a well-formed
-- packet without options has begun in it, with version 1, the transaction type and the code given
-- and the next message id, and no other byte of memory has changed.
pub begin_lem :
    (self : Session) (code tt_value : ℕ)
    → self.outbound.next_tid < 2 ^ 16
    → token_len self.mem self.inbound_packet ≤ 8
    → Outside self.inbound_packet self.outbound.packet_bytes (self.outbound.packet_bytes + 4)
    → Begun self code tt_value (begin self code tt_value)
begin_lem self code tt_value small le out =
    let h = begin_header_lem self code tt_value small in
    let m = begin_header self code tt_value in
    let t =
      choose_token-TokenSet self code m self.outbound.packet_bytes
        (rw (h.4 self.inbound_packet out) le) in
    begun self code tt_value (choose_token self code m self.outbound.packet_bytes) t.2 h t refl
