-- ===== src/Transaction/Registry/Begin.antt =====
-- The tree of transactions in `smcp_transaction_begin`.
use smcp.Prelude.{of_if}
use smcp.Prelude.{
  ℕ, suc, ◌<◌, ◌≤◌, ◌≡◌, refl, sym, ap, ◌∙◌, arith, true, some, inl, inr, ◌==◌, ==_iff,
}
use smcp.Tree.Change.{BinaryTree, Inserted, root_slot, bt_insert, bt_remove}
use smcp.Tree.Shape.{Shape, size, items, IsTree-Fresh}
use smcp.Tree.Ordered.{by_number, put_ordered}
use smcp.Tree.Insert.{IsNew}
use smcp.Tree.Insert.Lookup.{IsSearchTree}
use smcp.Tree.Remove.{list_without, list_without_fresh}
use smcp.Tree.Remove.Refines.{IsRemoved, bt_remove_refines}
use smcp.Transaction.Table.{
  Pending, Transactions, transaction_compare, find_via_msg_id, begin_pending, put_pending,
  deactivate,
}
use smcp.Transaction.Stored.{IsRegistry, msg_id_of, stored, put_pending_self}

-- The tree without what `bt_remove` found, which the new transaction is not in.
record Freed (self : Transactions) (s : Shape) (handler fuel found : ℕ) : Type 0 where
  tree : BinaryTree
  runs :
      bt_remove self.tree fuel root_slot
        (λ n. by_number (msg_id_of self.pending n) (msg_id_of self.pending handler))
      ≡ some (tree, found)
  rest : Shape
  valid : IsSearchTree (msg_id_of self.pending) tree rest
  new : IsNew tree 0 handler rest
  smaller : size rest ≤ size s
  items_lem : items rest ≡ list_without found (items s)

module _ (self : Transactions) (s : Shape) (handler fuel : ℕ) (registry : IsRegistry self s)
    (fresh : IsNew self.tree 0 handler s) where
  when_absent :
      (found : ℕ)
      → found ≡ 0
      → bt_remove self.tree fuel root_slot
          (λ n. by_number (msg_id_of self.pending n) (msg_id_of self.pending handler))
        ≡ some (self.tree, 0)
      → Freed self s handler fuel found
  when_absent found e run = record {
    tree = self.tree;
    runs = run ∙ ap (λ n. some (self.tree, n)) (sym e);
    rest = s;
    valid = registry;
    new = fresh;
    smaller = omega arith;
    items_lem = sym (
        ap (λ n. list_without n (items s)) e
        ∙ list_without_fresh 0 s (IsTree-Fresh self.tree.links self.tree.root 0 s registry.tree));
  }

  when_found :
      (found : ℕ)
      → IsRemoved
          (msg_id_of self.pending)
          self.tree
          fuel
          (λ n. by_number (msg_id_of self.pending n) (msg_id_of self.pending handler))
          s
          found
      → Freed self s handler fuel found
  when_found found r =
      let (l, rr, p, f) = r.others handler fresh.nonzero fresh.fresh in
      record {
        tree = r.out;
        runs = r.runs;
        rest = r.rest;
        valid = r.valid;
        new = record {
          nonzero = fresh.nonzero;
          fresh = f;
          outside = fresh.outside;
          lhs = l ∙ fresh.lhs;
          rhs = rr ∙ fresh.rhs;
          parent = p ∙ fresh.parent;
        };
        smaller = r.smaller;
        items_lem = r.items_lem;
      }

run_begin :
    (self : Transactions) (handler fuel id found : ℕ) (tree : BinaryTree) (out : Inserted)
    → bt_remove self.tree fuel root_slot
        (λ n. by_number (msg_id_of self.pending n) (msg_id_of self.pending handler))
      ≡ some (tree, found)
    → bt_insert
        (transaction_compare (
          put_pending self.pending handler
            (record (self.pending handler) { token = id; msg_id = id; active = true })))
        fuel
        tree
        root_slot
        handler
        0
      ≡ some out
    → begin_pending self fuel handler id
      ≡ some (
        record {
          tree = out.tree;
          pending =
              deactivate
                (put_pending self.pending handler
                  (record (self.pending handler) { token = id; msg_id = id; active = true }))
                out.deleted;
        },
        out.deleted,
      )
unfolding begin_pending
run_begin self handler fuel id found tree out e i = rw (begin_pending, e, i) refl

-- The start of a transaction that is not in the tree, on more fuel than there are transactions: it
-- stands in the tree under its new message id, and is found under it. What was found under the
-- message id that it had before, which is 0 for a transaction that was only initialized, is no
-- longer in the tree.
pub begin_pending_refines :
    (self : Transactions) (s : Shape) (handler fuel id : ℕ)
    → IsRegistry self s
    → IsNew self.tree 0 handler s
    → size s < fuel
    → (found : ℕ) × (find_via_msg_id self fuel (msg_id_of self.pending handler) ≡ some found)
      × (self' : Transactions) × (deleted : ℕ) × (begin_pending self fuel handler id
          ≡ some (self', deleted))
      × (s' : Shape) × IsRegistry self' s'
      × (items s' ≡ put_ordered (msg_id_of self'.pending) handler (list_without found (items s)))
      × (find_via_msg_id self' (suc fuel) id ≡ some handler)
unfolding find_via_msg_id
begin_pending_refines self s handler fuel id registry fresh enough =
    let p : Pending = record (self.pending handler) { token = id; msg_id = id; active = true } in
    let (found, find, result) =
      bt_remove_refines (msg_id_of self.pending) self.tree s
        (λ n. by_number (msg_id_of self.pending n) (msg_id_of self.pending handler)) fuel registry
        enough in
    let r : Freed self s handler fuel found = elim result [
      | inl (e, run) ↦ when_absent self s handler fuel registry fresh found e run
      | inr removed ↦ when_found self s handler fuel registry fresh found removed
    ] in
    let changed : ℕ → Pending = put_pending self.pending handler p in
    let own : id ≡ msg_id_of changed handler =
      ap (λ (q : Pending). q.msg_id) (sym (put_pending_self self.pending handler p)) in
    let end =
      stored self.pending p r.tree r.rest handler fuel r.valid r.new (omega (arith, r.smaller)) in
    (
      found,
      find,
      record { tree = end.out.tree; pending = deactivate changed end.out.deleted },
      end.out.deleted,
      run_begin self handler fuel id found r.tree end.out r.runs end.runs,
      end.shape,
      end.registry,
      end.items_lem
          ∙ ap (put_ordered (msg_id_of (deactivate changed end.out.deleted)) handler) r.items_lem,
      end.found id ∙ of_if (id == msg_id_of changed handler) (some handler) _ ((==_iff id _).1 own),
    )
