-- ===== src/Coap/Packet/Walk.antt =====
-- The walk over the options: it ends, and where it goes.
use smcp.Prelude.{ℕ, zero, suc, ◌+◌, ◌<◌, ◌≤◌, ◌≡◌, ◌≢◌, ◌⊎◌, inl, inr, refl, arith}
use smcp.Prelude.{Bool, true, some, ◌==◌}
use smcp.Prelude.{Bool-cases, Option-cases}
use smcp.Prelude.Bytes.{Mem}
use native.Mathlib.Decide.{dec_lt}
use smcp.Coap.Option.{decode_option}
use smcp.Coap.Option.Decode.{decode_option_advances}
use smcp.Coap.Packet.{Walked, stuck, corrupted, stopped, walk, verify_packet}
use smcp.Coap.Packet.{check_end, version, token_len, code_of, token}

walk_ends :
    (m : Mem) (end fuel key at : ℕ) → 0 < fuel → end < fuel + at → walk m end fuel key at ≢ stuck
unfolding walk
walk_ends m end zero key at pos h = absurd (omega arith)
walk_ends m end (suc fuel) key at pos h = elim (Option-cases (decode_option m at key).next) [
  | inl nothing ↦ rw nothing (λ p. ground arith)
  | inr (next, e) ↦ rw e (λ p. ground (
    arith,
    decode_option_advances m at key next e,
    walk_ends m end fuel (decode_option m at key).key next,
  ))
]

-- `coap_verify_packet` returns, whatever is in memory.
pub verify_packet_total :
    (m : Mem) (packet size : ℕ) → (b : Bool) × (verify_packet m packet size ≡ some b)
unfolding verify_packet
verify_packet_total m packet size = elim (Option-cases (verify_packet m packet size)) [
  | inl nothing ↦ absurd (
      ground (
        arith,
        walk_ends m (packet + size) (size + 1) 0 (token packet + token_len m packet) (omega arith)
            (omega arith),
      ))
  | inr result ↦ result
]

-- Options one behind the other from an address on, each decoded with the key of the one before it
-- and none past `end`, up to the end or to a payload marker.
pub data Walk (m : Mem) (end : ℕ) : ℕ → ℕ → ℕ → Type 0 where
  at_end : {key at stop : ℕ} → at ≡ end → stop ≡ at → Walk m end key at stop
  at_marker : {key at stop : ℕ} → at < end → m at ≡ 0xff → stop ≡ at → Walk m end key at stop
  option :
      {key at stop : ℕ} (next : ℕ)
      → at < end
      → m at ≢ 0xff
      → (decode_option m at key).next ≡ some next
      → next ≤ end
      → Walk m end (decode_option m at key).key next stop
      → Walk m end key at stop

walk-Walk :
    (m : Mem) (end fuel key at stop : ℕ)
    → at ≤ end
    → walk m end fuel key at ≡ stopped stop
    → (stop ≡ end) ⊎ ((stop < end) × (m stop ≡ 0xff))
    → Walk m end key at stop
unfolding walk
walk-Walk m end zero key at stop le e good = cc
walk-Walk m end (suc fuel) key at stop le e good = elim (dec_lt at end) [
  | no past ↦ at_end (omega arith) (ground arith)
  | yes inside ↦ elim (Bool-cases (m at == 0xff)) [
    | inl marker ↦ at_marker inside (ground arith) (ground arith)
    | inr more ↦ elim (Option-cases (decode_option m at key).next) [
      | inl nothing ↦ absurd (ground arith)
      | inr (next, d) ↦ option next inside (ground arith) d (ground arith) (
          walk-Walk m end fuel (decode_option m at key).key next stop (ground arith) (ground arith)
            good)
    ]
  ]
]

-- A packet whose header is in range, with its token and its options inside.
pub record Verified (m : Mem) (packet size : ℕ) : Type 0 where
  pub large_enough : 4 ≤ size
  pub small_enough : size ≤ 1240
  pub version_one : version m packet ≡ 1
  pub short_token : token_len m packet ≤ 8
  pub empty_is_bare : code_of m packet ≡ 0 → size ≡ 4
  pub token_inside : token packet + token_len m packet ≤ packet + size
  pub stop : ℕ
  pub stop_inside : stop ≤ packet + size
  pub options : Walk m (packet + size) 0 (token packet + token_len m packet) stop

walk_beyond :
    (m : Mem) (end fuel key at : ℕ) → 0 < fuel → end < at → walk m end fuel key at ≡ stopped at
unfolding walk
walk_beyond m end zero key at pos h = absurd (omega arith)
walk_beyond m end (suc fuel) key at pos h = ground arith

-- The outcomes of `check_end` that accept.
check_end_good :
    (m : Mem) (end : ℕ) (w : Walked)
    → check_end m end w ≡ some true
    → (stop : ℕ) × (w ≡ stopped stop) × ((stop ≡ end) ⊎ ((stop < end) × (m stop ≡ 0xff)))
check_end_good m end stuck e = cc
check_end_good m end corrupted e = cc
check_end_good m end (stopped at) e = (at, refl, ground arith)

-- What `coap_verify_packet` guarantees of a packet that it accepts: the size, version and token
-- length are in range, an empty message has nothing behind its header, the token ends inside the
-- packet, and from there on the packet is options, each decoded inside of it, up to its end or to a
-- payload marker.
pub verify_packet_sound :
    (m : Mem) (packet size : ℕ) → verify_packet m packet size ≡ some true → Verified m packet size
unfolding verify_packet
verify_packet_sound m packet size e =
    let (at, found, good) =
      check_end_good m (packet + size)
        (walk m (packet + size) (size + 1) 0 (token packet + token_len m packet)) (ground arith) in
    let inside : token packet + token_len m packet ≤ packet + size =
      ground
        (arith, walk_beyond m (packet + size) (size + 1) 0 (token packet + token_len m packet)) in
    record {
      large_enough = ground arith;
      small_enough = ground arith;
      version_one = ground arith;
      short_token = ground arith;
      empty_is_bare = λ z. ground arith;
      token_inside = inside;
      stop = at;
      stop_inside = omega arith;
      options = walk-Walk m (packet + size) (size + 1) 0 _ at inside found good;
    }
