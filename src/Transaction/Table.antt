-- ===== src/Transaction/Table.antt =====
-- src/smcp/smcp-transaction.c: the tree of an instance's transactions, with SMCP_TRANSACTIONS_USE_BTREE.
use smcp.Prelude.{ℕ, zero, suc, Bool, true, false, Option, none, some, ltb, ◌==◌, if◌then◌else◌}
use smcp.Tree.{BtCompareResult, below, same, above, bt_find, bt_first, bt_next}
use smcp.Tree.Change.{BinaryTree, root_slot, Inserted, bt_insert, bt_remove}

-- The fields of a transaction that its place in the tree and the answers to it depend on. An address
-- and a port are numbers.
pub record Pending : Type 0 where
  pub token : ℕ
  pub msg_id : ℕ
  pub saddr : ℕ
  pub port : ℕ
  pub sent_code : ℕ
  pub active : Bool
  pub multicast : Bool

-- `self->transactions`, and what stands at each address.
pub record Transactions : Type 0 where
  pub tree : BinaryTree
  pub pending : ℕ → Pending

-- `smcp_transaction_compare_msg_id`
abbrev pub compare_msg_id : (ℕ → Pending) → ℕ → ℕ → BtCompareResult
compare_msg_id pending lhs rhs =
    if ltb rhs (pending lhs).msg_id
    then above
    else if ltb (pending lhs).msg_id rhs
    then below
    else same

-- `smcp_transaction_compare`
abbrev pub transaction_compare : (ℕ → Pending) → ℕ → ℕ → BtCompareResult
transaction_compare pending lhs rhs =
    if ltb (pending rhs).msg_id (pending lhs).msg_id
    then above
    else if ltb (pending lhs).msg_id (pending rhs).msg_id
    then below
    else same

unfoldable pub find_via_msg_id : Transactions → ℕ → ℕ → Option ℕ
find_via_msg_id self fuel msg_id =
    bt_find self.tree.links (λ n. compare_msg_id self.pending n msg_id) fuel self.tree.root

-- The linear search, on fuel for each `bt_next` and for the loop.
unfoldable pub token_loop : Transactions → ℕ → ℕ → ℕ → ℕ → Option ℕ
token_loop self walk token zero ret = none
token_loop self walk token (suc fuel) ret =
    if ret == 0
    then some 0
    else if (self.pending ret).token == token
    then some ret
    else elim (bt_next self.tree.links walk ret) [
      | none ↦ none
      | some next ↦ token_loop self walk token fuel next
    ]

unfoldable pub find_via_token : Transactions → ℕ → ℕ → Option ℕ
find_via_token self fuel token = elim (bt_first self.tree.links fuel self.tree.root) [
  | none ↦ none
  | some first ↦ token_loop self fuel token fuel first
]

abbrev pub put_pending : (ℕ → Pending) → ℕ → Pending → ℕ → Pending
put_pending pending handler p n = if n == handler then p else pending n

-- `handler->active = 0` of `smcp_internal_delete_transaction_`, where a transaction is deleted.
abbrev pub deactivate : (ℕ → Pending) → ℕ → ℕ → Pending
deactivate pending deleted =
    if deleted == 0
    then pending
    else put_pending pending deleted (record (pending deleted) { active = false })

-- `bt_insert` with `smcp_internal_delete_transaction_`: the table, and the transaction that it
-- deletes (0 for none), whose timer is invalidated and whose callback is called.
abbrev pub inserted : (ℕ → Pending) → Option Inserted → Option (Transactions × ℕ)
inserted pending none = none
inserted pending (some out) =
    some (record { tree = out.tree; pending = deactivate pending out.deleted }, out.deleted)

-- How `smcp_transaction_new_msg_id` ends: at its assertion that no transaction has the id, or with
-- the table and the transaction that is deleted (0 for none).
pub data NewMsgId : Type 0 where
  assertion_failed : NewMsgId
  assigned : Transactions → ℕ → NewMsgId

abbrev pub assigned_of : Option (Transactions × ℕ) → Option NewMsgId
assigned_of none = none
assigned_of (some (self, deleted)) = some (assigned self deleted)

-- `smcp_transaction_new_msg_id`; the tree without the transaction is searched for the id first.
unfoldable pub new_msg_id : Transactions → ℕ → ℕ → ℕ → Option NewMsgId
unfolding bt_remove bt_insert find_via_msg_id
new_msg_id self fuel handler msg_id =
    let pending =
      put_pending self.pending handler (record (self.pending handler) { msg_id = msg_id }) in
    if (self.pending handler).active
    then elim (bt_remove self.tree fuel root_slot
        (λ n. transaction_compare self.pending n handler)) [
          | none ↦ none
          | some (tree, removed) ↦
              elim (find_via_msg_id (record self { tree = tree }) fuel msg_id) [
                | none ↦ none
                | some other ↦
                    if other == 0
                    then assigned_of (
                        inserted pending
                          (bt_insert (transaction_compare pending) fuel tree root_slot handler 0))
                    else some assertion_failed
              ]
        ]
    else some (assigned self 0)

-- The tree in `smcp_transaction_begin`, for the new token and message id.
unfoldable pub begin_pending : Transactions → ℕ → ℕ → ℕ → Option (Transactions × ℕ)
unfolding bt_remove bt_insert
begin_pending self fuel handler id =
    let pending =
      put_pending self.pending handler
        (record (self.pending handler) { token = id; msg_id = id; active = true }) in
    elim (bt_remove self.tree fuel root_slot (λ n. transaction_compare self.pending n handler)) [
      | none ↦ none
      | some (tree, removed) ↦
          inserted pending (bt_insert (transaction_compare pending) fuel tree root_slot handler 0)
    ]

-- The tree in `smcp_transaction_end`, and the transaction that is deleted (0 for none).
unfoldable pub end_pending : Transactions → ℕ → ℕ → Option (Transactions × ℕ)
unfolding bt_remove
end_pending self fuel handler =
    let pending =
      put_pending self.pending handler (record (self.pending handler) { active = false }) in
    if (self.pending handler).active
    then elim (bt_remove self.tree fuel root_slot (λ n. transaction_compare pending n handler)) [
      | none ↦ none
      | some (tree, removed) ↦
          some (record { tree = tree; pending = deactivate pending removed }, removed)
    ]
    else some (self, 0)
