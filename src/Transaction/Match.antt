-- ===== src/Transaction/Match.antt =====
-- src/smcp/smcp-transaction.c: how `smcp_handle_response` finds the transaction that a packet answers,
-- and what it does with a packet before a callback is called.
pub mod Found
pub mod Sound
pub mod Fresh
use smcp.Prelude.{
  ℕ, zero, suc, ◌+◌, ◌-◌, ◌*◌, ◌^◌, Bool, true, false, not, ◌&&◌, ◌||◌, Option, none, some, List,
  [], ◌∷◌, ltb, leb, ◌==◌, if◌then◌else◌,
}
use smcp.Transaction.{Transaction, observes}
use smcp.Transaction.Table.{Pending, Transactions, find_via_msg_id, find_via_token}

-- The fields of the inbound packet and of its sender.
pub record Response : Type 0 where
  pub tt : ℕ
  pub code : ℕ
  pub msg_id : ℕ
  pub token : List ℕ
  pub saddr : ℕ
  pub port : ℕ
  pub has_observe_option : Bool
  pub observe_value : ℕ

-- A token of two bytes as the number that is copied from them; any other is 0.
abbrev pub token_of : List ℕ → ℕ
token_of (a ∷ b ∷ []) = a + b * 256
token_of _ = 0

-- By the message id, or else by the token; an id with another token is no match.
unfoldable pub find_handler : Transactions → ℕ → Response → Option ℕ
find_handler self fuel r = elim (find_via_msg_id self fuel r.msg_id) [
  | none ↦ none
  | some handler ↦
      if handler == 0
      then (if ltb r.tt 2 then find_via_token self fuel (token_of r.token) else some 0)
      else if not (r.code == 0) && not (token_of r.token == (self.pending handler).token)
      then some 0
      else some handler
]

-- Who was not asked does not answer.
abbrev pub address_checked : Transactions → Response → ℕ → ℕ
address_checked self r handler =
    if not (handler == 0)
      && (not (self.pending handler).multicast
          && (not ((self.pending handler).saddr == r.saddr)
              || not ((self.pending handler).port == r.port)))
    then 0
    else handler

-- `current_transaction` of a response; 0 is NULL.
unfoldable pub match_response : Transactions → ℕ → Response → Option ℕ
match_response self fuel r = elim (find_handler self fuel r) [
  | none ↦ none
  | some handler ↦ some (address_checked self r handler)
]

-- The branches: a reset is sent, nothing is done, an answer is waited for, or the callback is called.
pub data Reaction : Type 0 where
  send_reset ignore await_response call_callback : Reaction

unfoldable pub reaction : Transactions → Response → ℕ → Bool → Reaction
reaction self r handler has_callback =
    if handler == 0
    then (if leb r.tt 1 then send_reset else ignore)
    else if (r.tt == 2 || r.tt == 1) && (r.code == 0 && ltb (self.pending handler).sent_code 32)
    then await_response
    else if has_callback
    then call_callback
    else ignore

-- The test that skips an observation as one that was seen before; a difference of `uint32_t`.
unfoldable pub skips_observation : Transaction → Response → Bool
skips_observation t r =
    observes t
    && (r.has_observe_option
        && (leb r.observe_value t.last_observe && ltb 0x7FFFFF (t.last_observe - r.observe_value)))
