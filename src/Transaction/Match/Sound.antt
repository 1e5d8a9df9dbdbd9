-- ===== src/Transaction/Match/Sound.antt =====
-- `smcp_handle_response` finds the transaction that a packet answers, and no other.
use smcp.Prelude.{ℕ, ◌<◌, ◌≡◌, ◌≢◌, sym, ap, subst, ◌∙◌, arith, some, ◌⊎◌, inl, inr}
use native.Mathlib.Decide.{ℕ_discrete}
use smcp.Tree.Shape.{Shape, size, items}
use smcp.Tree.Find.{search}
use smcp.Tree.Ordered.{by_number}
use smcp.Tree.Keys.{search_self, search-key}
use smcp.Tree.Remove.{Has}
use smcp.Transaction.Table.{Transactions}
use smcp.Transaction.Stored.{IsRegistry, msg_id_of}
use smcp.Transaction.Match.{Response, token_of, address_checked, match_response}
use smcp.Transaction.Match.Found.{
  first_with_token-token, Answers, IsFromPeer, address_checked-IsFromPeer, address_checked_peer,
  choice, choice-Answers, under_id, under_token, matched,
}

choice_id :
    (self : Transactions) (r : Response) (m w : ℕ)
    → m ≢ 0
    → (r.code ≡ 0) ⊎ ((self.pending m).token ≡ token_of r.token)
    → choice self r m w ≡ m
choice_id self r m w ne fits = ground arith

-- The search of `smcp_handle_response` ends, on more fuel than there are transactions. Where it finds
-- a transaction, that one is a multicast one or was sent to the packet's sender, and it has the
-- packet's message id, and the packet's token unless the packet is empty; or the packet is no
-- acknowledgement or reset, and it has the packet's token. A token of two bytes is compared as it
-- is; a packet whose token has any other length only fits a transaction of the token 0.
pub match_response-Answers :
    (self : Transactions) (s : Shape) (fuel : ℕ) (r : Response)
    → IsRegistry self s
    → size s < fuel
    → (found : ℕ) × (match_response self fuel r ≡ some found)
      × ((found ≡ 0) ⊎ (Answers self r found × IsFromPeer self r found))
match_response-Answers self s fuel r valid enough = (
  address_checked self r chosen,
  matched self s fuel r valid enough,
  elim (ℕ_discrete (address_checked self r chosen) 0) [
    | yes z ↦ inl z
    | no ne ↦
        let (e, peer) = address_checked-IsFromPeer self r chosen ne in
        inr (
          subst (Answers self r) (sym e) (
              choice-Answers self r m w (search-key (msg_id_of self.pending) r.msg_id s)
                (first_with_token-token self.pending (token_of r.token) (items s))
                (λ z. ne (e ∙ z))),
          subst (IsFromPeer self r) (sym e) peer,
        )
  ],
)
  where
    m : ℕ
    m = under_id self s fuel r valid enough

    w : ℕ
    w = under_token self s fuel r valid enough

    chosen : ℕ
    chosen = choice self r m w

-- A transaction of the tree with the packet's message id, with its token or for an empty packet, and
-- with its sender or for multicast, is found by `smcp_handle_response`, on more fuel than there
-- are transactions.
pub match_response_own :
    (self : Transactions) (s : Shape) (fuel handler : ℕ) (r : Response)
    → IsRegistry self s
    → size s < fuel
    → Has handler s
    → handler ≢ 0
    → (self.pending handler).msg_id ≡ r.msg_id
    → (r.code ≡ 0) ⊎ ((self.pending handler).token ≡ token_of r.token)
    → IsFromPeer self r handler
    → match_response self fuel r ≡ some handler
match_response_own self s fuel handler r valid enough has ne id fits peer =
    matched self s fuel r valid enough
    ∙ ap (λ n. some (address_checked self r (choice self r n w))) own
    ∙ ap (λ n. some (address_checked self r n)) (choice_id self r handler w ne fits)
    ∙ ap some (address_checked_peer self r handler peer)
  where
    w : ℕ
    w = under_token self s fuel r valid enough

    own : under_id self s fuel r valid enough ≡ handler
    own =
        ap (λ k. search (λ n. by_number (msg_id_of self.pending n) k) s) (sym id)
        ∙ search_self (msg_id_of self.pending) handler s valid.ordered has
