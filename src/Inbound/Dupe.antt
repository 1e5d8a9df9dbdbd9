-- ===== src/Inbound/Dupe.antt =====
-- src/smcp/smcp-dupe.c: the buffer of recent packets.
pub mod Recent
pub mod Refine
use smcp.Prelude.{ℕ, zero, suc, ◌+◌, ◌*◌, ◌/◌, ◌%◌, Bool, true, false, ◌&&◌, ◌||◌}
use smcp.Prelude.{List, [], ◌∷◌, ◌==◌, if◌then◌else◌, get_or, set}
use smcp.FastHash

-- SMCP_CONF_DUPE_BUFFER_SIZE of smcp-opts.h
abbrev pub buffer_size : ℕ
buffer_size = 16

-- An element of `dupe`: the bytes of the sender's `smcp_sockaddr_t`, the message id in network
-- order, and the hash of both. (`code` is never set.)
pub record Entry : Type 0 where
  pub hash : ℕ
  pub from : List ℕ
  pub msg_id : ℕ

-- `struct smcp_dupe_info_s`
pub record DupeInfo : Type 0 where
  pub dupe : List Entry
  pub dupe_index : ℕ

abbrev pub blank : Entry
blank = record { hash = 0; from = []; msg_id = 0 }

-- The hash of the address and of the two bytes of the message id.
pub packet_hash : List ℕ → ℕ → ℕ
unfolding FastHash.start FastHash.feed FastHash.finish_uint32
packet_hash from msg_id =
    FastHash.finish_uint32
      (FastHash.feed (FastHash.feed (FastHash.start 0) from) (msg_id % 256 ∷ msg_id / 256 ∷ []))

abbrev pub entry_of : List ℕ → ℕ → Entry
entry_of from msg_id = record { hash = packet_hash from msg_id; from = from; msg_id = msg_id }

-- `0 == memcmp(…)`
pub same_bytes : List ℕ → List ℕ → Bool
same_bytes [] [] = true
same_bytes [] (b ∷ bs) = false
same_bytes (a ∷ as') [] = false
same_bytes (a ∷ as') (b ∷ bs) = a == b && same_bytes as' bs

-- The two nested tests of the loop.
pub matches : Entry → Entry → Bool
unfolding same_bytes
matches e f = e.hash == f.hash && (same_bytes e.from f.from && e.msg_id == f.msg_id)

-- `while (i--)` over the elements below `i`, the highest first.
pub scan : List Entry → Entry → ℕ → Bool
scan dupe e zero = false
scan dupe e (suc i) = matches (get_or dupe i blank) e || scan dupe e i

-- `smcp_inbound_dupe_check`, for the packet of `inbound.saddr` and `inbound.packet->msg_id`.
pub dupe_check : DupeInfo → List ℕ → ℕ → Bool × DupeInfo
dupe_check info from msg_id =
    let e = entry_of from msg_id in
    if scan info.dupe e buffer_size then (true, info) else (
      false,
      record info {
        dupe = set info.dupe info.dupe_index e;
        dupe_index = (info.dupe_index + 1) % buffer_size;
      },
    )
