-- ===== src/Inbound/Dupe/Refine.antt =====
-- `smcp_inbound_dupe_check` refines a queue of the sixteen packets that came last.
use smcp.Prelude.{ℕ, zero, suc, ◌+◌, ◌-◌, ◌%◌, ◌<◌, ◌≡◌, inl, inr, refl, sym, ap, ◌∙◌, arith}
use smcp.Prelude.{Bool, true, false, ◌||◌, List, [], ◌∷◌, take, length, length-set}
use smcp.Prelude.{get_or, set, map, All, ◌⊎◌, subst, Bool-cases}
use native.Mathlib.Decide.{ℕ_discrete}
use smcp.Inbound.Dupe.{Entry, DupeInfo, blank, matches, scan, dupe_check, entry_of, packet_hash}
use smcp.Inbound.Dupe.Recent.{recent, recent-write, matches-eq, matches_refl}

-- A packet, by the bytes of its sender's address and its message id.
abbrev pub Packet : Type 0
Packet = List ℕ × ℕ

abbrev pub packet_of : Entry → Packet
packet_of f = (f.from, f.msg_id)

-- An entry that was written holds the hash of its packet; one that was not has an address of zeros.
abbrev pub IsHashed : Entry → Type 0
IsHashed f = (f.hash ≡ packet_hash f.from f.msg_id) ⊎ All (λ b. b ≡ 0) f.from

pub record IsValid (info : DupeInfo) : Type 0 where
  pub sized : length info.dupe ≡ 16
  pub in_range : info.dupe_index < 16
  pub hashed : All IsHashed info.dupe

-- The entries that the buffer remembers, the newest first, and their packets.
abbrev remembered : DupeInfo → List Entry
remembered info = recent info.dupe info.dupe_index 16

abbrev pub packets : DupeInfo → List Packet
packets info = map packet_of (remembered info)

-- A packet came before: one of those remembered has its sender and its message id.
abbrev pub Came : Packet → List Packet → Type 0
Came p [] = ⊥
Came p (q ∷ qs) = (q ≡ p) ⊎ Came p qs

contains : List Entry → Entry → Bool
contains [] e = false
contains (f ∷ fs) e = matches f e || contains fs e

-- Both searches find what stands in one of the sixteen elements.
module _ (dupe : List Entry) (e : Entry) where
  scan_sound :
      (n : ℕ) → scan dupe e n ≡ true → (k : ℕ) × (k < n) × (matches (get_or dupe k blank) e ≡ true)
  unfolding scan
  scan_sound zero h = cc
  scan_sound (suc n) h = elim (Bool-cases (matches (get_or dupe n blank) e)) [
    | inl here ↦ (n, omega arith, here)
    | inr other ↦ let (k, lt, m) = scan_sound n (ground arith) in (k, omega arith, m)
  ]

  scan_complete : (n k : ℕ) → k < n → matches (get_or dupe k blank) e ≡ true → scan dupe e n ≡ true
  unfolding scan
  scan_complete zero k lt h = absurd (omega arith)
  scan_complete (suc n) k lt h = elim (ℕ_discrete k n) [
    | yes same ↦ rw (sym same, h)
    | no other ↦ ground (arith, scan_complete n k (omega arith) h)
  ]

  contains_sound :
      (j n : ℕ)
      → contains (recent dupe j n) e ≡ true
      → (k : ℕ) × (k < 16) × (matches (get_or dupe k blank) e ≡ true)
  unfolding contains recent
  contains_sound j zero h = cc
  contains_sound j (suc n) h = elim (Bool-cases (matches (get_or dupe ((j + 15) % 16) blank) e)) [
    | inl here ↦ ((j + 15) % 16, omega arith, here)
    | inr other ↦ contains_sound ((j + 15) % 16) n (ground arith)
  ]

  -- Element `k` is reached within `(j + 15 - k) % 16 + 1` steps back from `j`.
  contains_complete :
      (j n k : ℕ)
      → k < 16
      → (j + 31 - k) % 16 < n
      → matches (get_or dupe k blank) e ≡ true
      → contains (recent dupe j n) e ≡ true
  unfolding contains recent
  contains_complete j zero k lt d h = absurd (omega arith)
  contains_complete j (suc n) k lt d h = elim (ℕ_discrete k ((j + 15) % 16)) [
    | yes same ↦ rw (sym same, h)
    | no other ↦ ground (arith, contains_complete ((j + 15) % 16) n k lt (omega arith) h)
  ]

  contains-scan : (j : ℕ) → contains (recent dupe j 16) e ≡ scan dupe e 16
  contains-scan j = elim (Bool-cases (scan dupe e 16)) [
    | inl found ↦
        let (k, lt, h) = scan_sound 16 found in
        contains_complete j 16 k lt (omega arith) h ∙ sym found
    | inr missing ↦ elim (Bool-cases (contains (recent dupe j 16) e)) [
      | inl found ↦
          let (k, lt, h) = contains_sound j 16 found in
          absurd (ground (arith, scan_complete 16 k lt h))
      | inr none_there ↦ none_there ∙ sym missing
    ]
  ]

-- The entries are hashed, those that are gone back to as well.
get_or-IsHashed : (dupe : List Entry) (k : ℕ) → All IsHashed dupe → IsHashed (get_or dupe k blank)
get_or-IsHashed [] k h = inr tt
get_or-IsHashed (f ∷ fs) zero h = h.0
get_or-IsHashed (f ∷ fs) (suc k) h = get_or-IsHashed fs k h.1

recent-IsHashed : (dupe : List Entry) (j n : ℕ) → All IsHashed dupe → All IsHashed (recent dupe j n)
unfolding recent
recent-IsHashed dupe j zero h = tt
recent-IsHashed dupe j (suc n) h =
    (get_or-IsHashed dupe ((j + 15) % 16) h, recent-IsHashed dupe ((j + 15) % 16) n h)

set-IsHashed :
    (dupe : List Entry) (i : ℕ) (e : Entry)
    → IsHashed e
    → All IsHashed dupe
    → All IsHashed (set dupe i e)
set-IsHashed [] i e he h = tt
set-IsHashed (f ∷ fs) zero e he h = (he, h.1)
set-IsHashed (f ∷ fs) (suc i) e he h = (h.0, set-IsHashed fs i e he h.1)

map-take : (n : ℕ) (fs : List Entry) → map packet_of (take n fs) ≡ take n (map packet_of fs)
map-take zero fs = refl
map-take (suc n) [] = refl
map-take (suc n) (f ∷ fs) = ap (λ ps. packet_of f ∷ ps) (map-take n fs)

module _ (from : List ℕ) (msg_id : ℕ) where
  contains-Came :
      (fs : List Entry)
      → contains fs (entry_of from msg_id) ≡ true
      → Came (from, msg_id) (map packet_of fs)
  unfolding contains
  contains-Came [] h = cc
  contains-Came (f ∷ fs) h = elim (Bool-cases (matches f (entry_of from msg_id))) [
    | inl here ↦ inl (ap packet_of (matches-eq f (entry_of from msg_id) here))
    | inr other ↦ inr (contains-Came fs (ground (arith, h, other)))
  ]

  module _ (nonzero : ¬ All (λ b. b ≡ 0) from) where
    -- An entry of the same packet has the same hash.
    same_packet : (f : Entry) → IsHashed f → packet_of f ≡ (from, msg_id) → f ≡ entry_of from msg_id
    same_packet f (inl h) e = cc (h, ap (λ p. p.0) e, ap (λ p. p.1) e)
    same_packet f (inr z) e =
        absurd (nonzero (subst (λ (bs : List ℕ). All (λ b. b ≡ 0) bs) (ap (λ p. p.0) e) z))

    Came-contains :
        (fs : List Entry)
        → All IsHashed fs
        → Came (from, msg_id) (map packet_of fs)
        → contains fs (entry_of from msg_id) ≡ true
    unfolding contains
    Came-contains [] h c = elim c [ ]
    Came-contains (f ∷ fs) h (inl e) =
        rw
          (subst (λ g. matches g (entry_of from msg_id) ≡ true) (sym (same_packet f h.0 e))
            (matches_refl (entry_of from msg_id)))
          refl
    Came-contains (f ∷ fs) h (inr c) = ground (arith, Came-contains fs h.1 c)

-- What the check of a packet answers and leaves.
abbrev pub IsChecked : DupeInfo → Packet → Bool × DupeInfo → Type 0
IsChecked info p (seen, info') =
    IsValid info'
    × (((seen ≡ true) × Came p (packets info) × (info' ≡ info))
        ⊎ ((seen ≡ false)
            × (¬ Came p (packets info))
            × (packets info' ≡ p ∷ take 15 (packets info))))

-- On a valid buffer `smcp_inbound_dupe_check` of a packet whose sender's address is not all zeros
-- answers that it is a duplicate if and only if one of the sixteen packets that are remembered has
-- its sender and its message id. A duplicate changes nothing; any other packet is remembered in
-- place of the oldest. The buffer stays valid.
pub dupe_check_refines :
    (info : DupeInfo) (from : List ℕ) (msg_id : ℕ)
    → IsValid info
    → ¬ All (λ b. b ≡ 0) from
    → IsChecked info (from, msg_id) (dupe_check info from msg_id)
unfolding dupe_check
dupe_check_refines info from msg_id v nonzero = elim (Bool-cases (scan info.dupe e 16)) [
  | inl found ↦
      rw found (v, inl (refl, contains-Came from msg_id (remembered info) (same ∙ found), refl))
  | inr missing ↦ rw missing (
    record {
      sized = length-set info.dupe info.dupe_index e ∙ v.sized;
      in_range = omega arith;
      hashed = set-IsHashed info.dupe info.dupe_index e (inl refl) v.hashed;
    },
    inr (
      refl,
      (λ c. ground (
        arith,
        sym same
            ∙ Came-contains from msg_id nonzero (remembered info)
                (recent-IsHashed info.dupe info.dupe_index 16 v.hashed) c,
        missing,
      )),
      ap (map packet_of) (recent-write info.dupe info.dupe_index e v.sized v.in_range)
          ∙ ap (λ ps. (from, msg_id) ∷ ps) (map-take 15 (remembered info)),
    ),
  )
]
  where
    e : Entry
    e = entry_of from msg_id

    same : contains (remembered info) e ≡ scan info.dupe e 16
    same = contains-scan info.dupe e info.dupe_index
