-- ===== src/Tests/Packets.antt =====
-- A concrete packet, for the theorems on `coap_verify_packet` and on the duplicate check.
use smcp.Prelude.{ℕ, ◌-◌, ◌≡◌, refl, arith, inl, inr, true, some, List, [], ◌∷◌, get_or, Bool}
use smcp.Prelude.Bytes.{Mem}
use smcp.Coap.Packet.{verify_packet}
use smcp.Coap.Packet.Walk.{Verified, verify_packet_sound, verify_packet_total}
use smcp.Coap.Packet.Accepts.{verify_packet_complete}
use smcp.Inbound.Dupe.{DupeInfo, Entry, entry_of, dupe_check}
use smcp.Inbound.Dupe.Refine.{IsHashed, IsChecked, dupe_check_refines}

-- A GET with one option and a payload of one byte.
abbrev packet : List ℕ
packet = 0x40 ∷ 1 ∷ 0x12 ∷ 0x34 ∷ 0x31 ∷ b'a' ∷ 0xff ∷ 5 ∷ []

abbrev mem : Mem
mem a = get_or packet (a - 100) 0

accepted : verify_packet mem 100 8 ≡ some true
accepted =
    verify_packet_complete mem 100 8 106 ((3, b'a' ∷ []) ∷ []) refl (omega arith) (omega arith)
      (λ e. absurd (omega arith)) (omega arith, omega arith, omega arith, tt) (refl, (refl, tt))
      refl (inr (omega arith, refl))

verify_packet_total_example : (b : Bool) × (verify_packet mem 100 8 ≡ some b)
verify_packet_total_example = verify_packet_total mem 100 8

verify_packet_sound_example : Verified mem 100 8
verify_packet_sound_example = verify_packet_sound mem 100 8 accepted

verify_packet_complete_example : verify_packet mem 100 8 ≡ some true
verify_packet_complete_example =
    verify_packet_complete mem 100 8 106 ((3, b'a' ∷ []) ∷ []) refl (omega arith) (omega arith)
      (λ e. absurd (omega arith)) (omega arith, omega arith, omega arith, tt) (refl, (refl, tt))
      refl (inr (omega arith, refl))

-- A buffer in which one packet has been written, at the last place.
abbrev home : List ℕ
home = 127 ∷ 0 ∷ 0 ∷ 1 ∷ []

abbrev unset : Entry
unset = record { hash = 0; from = 0 ∷ 0 ∷ 0 ∷ 0 ∷ []; msg_id = 0 }

abbrev one_packet : DupeInfo
one_packet = record {
  dupe =
      unset
      ∷ unset
      ∷ unset
      ∷ unset
      ∷ unset
      ∷ unset
      ∷ unset
      ∷ unset
      ∷ unset
      ∷ unset
      ∷ unset
      ∷ unset
      ∷ unset
      ∷ unset
      ∷ unset
      ∷ entry_of home 4660
      ∷ [];
  dupe_index = 0;
}

dupe_check_refines_example : IsChecked one_packet (home, 4661) (dupe_check one_packet home 4661)
dupe_check_refines_example =
    dupe_check_refines one_packet home 4661
      (record {
        sized = refl;
        in_range = omega arith;
        hashed = (
          zeros,
          (
            zeros,
            (
              zeros,
              (
                zeros,
                (
                  zeros,
                  (
                    zeros,
                    (
                      zeros,
                      (
                        zeros,
                        (
                          zeros,
                          (zeros, (zeros, (zeros, (zeros, (zeros, (zeros, (inl refl, tt))))))),
                        ),
                      ),
                    ),
                  ),
                ),
              ),
            ),
          ),
        );
      })
      (λ z. absurd (omega (arith, z.0)))
  where
    zeros : IsHashed unset
    zeros = inr (refl, (refl, (refl, (refl, tt))))
