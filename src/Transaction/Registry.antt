-- ===== src/Transaction/Registry.antt =====
-- The table of transactions as a map from message ids: a new message id, and the end.
pub mod Begin
use smcp.Prelude.{of_if, of_else}
use smcp.Prelude.{
  ℕ, suc, ◌<◌, ◌≡◌, ◌≢◌, ◌⊎◌, refl, sym, ap, subst, ◌∙◌, arith, true, false, some, ◌==◌, inl, inr,
  ==_ne, ==_iff,
}
use native.Mathlib.Decide.{ℕ_discrete}
use smcp.Tree.{bt_find}
use smcp.Tree.Shape.{Shape, size, items, IsTree-Fresh}
use smcp.Tree.Find.{search, bt_find-search}
use smcp.Tree.Ordered.{by_key, by_number, put_ordered}
use smcp.Tree.Keys.{search_self, search-key, AllOf-Has}
use smcp.Tree.Remove.{Has, list_without}
use smcp.Tree.Remove.Refines.{IsRemoved, bt_remove_refines, search-Has}
use smcp.Transaction.Table.{
  Pending, Transactions, find_via_msg_id, new_msg_id, end_pending, put_pending, deactivate,
  assertion_failed, assigned,
}
use smcp.Transaction.Stored.{
  IsRegistry, msg_id_of, Stored, stored, put_pending_self, some_injective, ended-IsRegistry,
  deactivate-IsRegistry, deactivate-active,
}

module _ (self : Transactions) (s : Shape) (handler fuel : ℕ) (valid : IsRegistry self s)
    (has : Has handler s) (enough : size s < fuel) where
  -- `bt_remove` with a transaction of the tree takes that transaction out.
  own :
      (item : ℕ)
      → bt_find self.tree.links (λ n. by_key (msg_id_of self.pending) n handler) fuel self.tree.root
        ≡ some item
      → item ≡ handler
  own item found = some_injective item handler (
      sym found
      ∙ bt_find-search self.tree.links (λ n. by_key (msg_id_of self.pending) n handler) s
          self.tree.root 0 fuel valid.tree enough
      ∙ ap some (search_self (msg_id_of self.pending) handler s valid.ordered has))

  taken :
      handler ≢ 0
      → IsRemoved
          (msg_id_of self.pending)
          self.tree
          fuel
          (λ n. by_key (msg_id_of self.pending) n handler)
          s
          handler
  taken ne =
      let (item, found, result) =
        bt_remove_refines (msg_id_of self.pending) self.tree s
          (λ n. by_key (msg_id_of self.pending) n handler) fuel valid enough in
      subst
        (IsRemoved (msg_id_of self.pending) self.tree fuel
          (λ n. by_key (msg_id_of self.pending) n handler) s)
        (own item found)
        (elim result [ inl z ↦ absurd (ne (sym (own item found) ∙ z.0)) | inr removed ↦ removed ])

-- The transaction has its new message id, and all others stay as they are and where they are.
pub record Renewed (self : Transactions) (s : Shape) (handler fuel msg_id : ℕ) : Type 0 where
  pub after : Transactions
  pub runs : new_msg_id self fuel handler msg_id ≡ some (assigned after 0)
  pub pending_lem :
      after.pending
      ≡ put_pending self.pending handler (record (self.pending handler) { msg_id = msg_id })
  pub shape : Shape
  pub registry : IsRegistry after shape
  pub items_lem :
      items shape ≡ put_ordered (msg_id_of after.pending) handler (list_without handler (items s))
  pub found : find_via_msg_id after (suc fuel) msg_id ≡ some handler
  pub others :
      (n : ℕ)
      → Has n s
      → n ≢ handler
      → find_via_msg_id after (suc fuel) (msg_id_of self.pending n) ≡ some n

module _ (self : Transactions) (s : Shape) (handler fuel msg_id : ℕ) (valid : IsRegistry self s)
    (enough : size s < fuel) where
  abbrev key : ℕ → ℕ
  key = msg_id_of self.pending

  abbrev under : Shape → ℕ
  under u = search (λ n. by_number (key n) msg_id) u

  found_under : find_via_msg_id self fuel msg_id ≡ some (under s)
  unfolding find_via_msg_id
  found_under =
      bt_find-search self.tree.links (λ n. by_number (key n) msg_id) s self.tree.root 0 fuel
        valid.tree enough

  module _ (r : IsRemoved key self.tree fuel (λ n. by_key key n handler) s handler) where
    found_rest : find_via_msg_id (record self { tree = r.out }) fuel msg_id ≡ some (under r.rest)
    unfolding find_via_msg_id
    found_rest =
        bt_find-search r.out.links (λ n. by_number (key n) msg_id) r.rest r.out.root 0 fuel
          r.valid.tree (omega (arith, enough, r.smaller))

    -- Another transaction with the id.
    taken_id : under r.rest ≢ 0 → (under s ≡ under r.rest) × (under r.rest ≢ handler)
    taken_id ne =
        let has = search-Has (λ n. by_number (key n) msg_id) r.rest ne in
        (
          ap (λ k. search (λ n. by_number (key n) k) s) (sym (search-key key msg_id r.rest ne))
              ∙ search_self key (under r.rest) s valid.ordered
                  (AllOf-Has (λ n. Has n s) (under r.rest) r.rest has r.from_before),
          AllOf-Has (λ n. n ≢ handler) (under r.rest) r.rest has r.new.fresh,
        )

    no_other : (n : ℕ) → under r.rest ≡ 0 → Has n s → n ≢ handler → key n ≢ msg_id
    no_other n e has ne same =
        AllOf-Has (λ y. y ≢ 0) n s has (IsTree-Fresh self.tree.links self.tree.root 0 s valid.tree)
          (sym (search_self key n r.rest r.valid.ordered (r.keeps n ne has))
            ∙ ap (λ k. search (λ m. by_number (key m) k) r.rest) same
            ∙ e)

    free_id : under r.rest ≡ 0 → (under s ≡ 0) ⊎ (under s ≡ handler)
    free_id e = elim (ℕ_discrete (under s) 0) [
      | yes z ↦ inl z
      | no nz ↦ elim (ℕ_discrete (under s) handler) [
        | yes own ↦ inr own
        | no ne ↦ absurd (
            no_other (under s) e (search-Has (λ n. by_number (key n) msg_id) s nz) ne
              (search-key key msg_id s nz))
      ]
    ]

    renamed : Pending
    renamed = record (self.pending handler) { msg_id = msg_id }

    renamed_id : msg_id_of (put_pending self.pending handler renamed) handler ≡ msg_id
    unfolding renamed
    renamed_id = ap (λ (q : Pending). q.msg_id) (put_pending_self self.pending handler renamed)

    run_failed :
        (self.pending handler).active ≡ true
        → under r.rest ≢ 0
        → new_msg_id self fuel handler msg_id ≡ some assertion_failed
    unfolding new_msg_id
    run_failed live ne = rw (live, r.runs, found_rest, ==_ne (under r.rest) 0 ne) refl

    run_assigned :
        (st : Stored r.out r.rest handler fuel self.pending
          (put_pending self.pending handler renamed))
        → (self.pending handler).active ≡ true
        → under r.rest ≡ 0
        → new_msg_id self fuel handler msg_id
          ≡ some (
              assigned
                (record {
                  tree = st.out.tree;
                  pending = deactivate (put_pending self.pending handler renamed) st.out.deleted;
                })
                st.out.deleted)
    unfolding new_msg_id renamed
    run_assigned st live e =
        of_if (self.pending handler).active _ (some (assigned self 0)) live
        ∙ rw (r.runs, found_rest, (==_iff (under r.rest) 0).1 e, st.runs) refl

    renewed :
        (self.pending handler).active ≡ true → under r.rest ≡ 0 → Renewed self s handler fuel msg_id
    unfolding renamed
    renewed live e =
        let st =
          stored self.pending renamed r.out r.rest handler fuel r.valid r.new
            (omega (arith, enough, r.smaller)) in
        let none_deleted : st.out.deleted ≡ 0 =
          st.deleted_lem ∙ ap (λ k. search (λ n. by_number (key n) k) r.rest) renamed_id ∙ e in
        let same : deactivate (put_pending self.pending handler renamed) st.out.deleted
            ≡ put_pending self.pending handler renamed =
          ap (deactivate (put_pending self.pending handler renamed)) none_deleted in
        record {
          after = record {
            tree = st.out.tree;
            pending = deactivate (put_pending self.pending handler renamed) st.out.deleted;
          };
          runs =
              run_assigned st live e
              ∙ ap
                  (λ d. some (
                    assigned
                      (record {
                        tree = st.out.tree;
                        pending =
                            deactivate (put_pending self.pending handler renamed) st.out.deleted;
                      })
                      d))
                  none_deleted;
          pending_lem = same;
          shape = st.shape;
          registry = st.registry;
          items_lem =
              st.items_lem
              ∙ ap
                  (put_ordered
                    (msg_id_of
                      (deactivate (put_pending self.pending handler renamed) st.out.deleted))
                    handler)
                  r.items_lem;
          found =
              st.found msg_id
              ∙ of_if (msg_id == _) (some handler) _ ((==_iff msg_id _).1 (sym renamed_id));
          others = λ n has ne.
              st.found (key n)
              ∙ of_else (key n == _) (some handler) _
                  (==_ne (key n) _ (λ same_id. no_other n e has ne (same_id ∙ renamed_id)))
              ∙ ap some (search_self key n r.rest r.valid.ordered (r.keeps n ne has));
        }

-- `smcp_transaction_new_msg_id` of an active transaction of the tree ends, on more fuel than there
-- are transactions. Where another transaction of the tree has the message id, its assertion fails.
-- Where none has, or the transaction itself, nothing is deleted: the tree holds the transactions in
-- the order of their message ids, with this one at the place of its new one, where
-- `smcp_transaction_find_via_msg_id` finds it; each other one is found as before, and only the
-- message id of this one has changed.
pub new_msg_id_refines :
    (self : Transactions) (s : Shape) (handler fuel msg_id : ℕ)
    → IsRegistry self s
    → Has handler s
    → handler ≢ 0
    → (self.pending handler).active ≡ true
    → size s < fuel
    → (other : ℕ) × (find_via_msg_id self fuel msg_id ≡ some other)
      × (((other ≢ 0)
            × (other ≢ handler)
            × (new_msg_id self fuel handler msg_id ≡ some assertion_failed))
          ⊎ (((other ≡ 0) ⊎ (other ≡ handler)) × Renewed self s handler fuel msg_id))
new_msg_id_refines self s handler fuel msg_id valid has ne live enough =
    let r = taken self s handler fuel valid has enough ne in
    (
      under self s handler fuel msg_id valid enough s,
      found_under self s handler fuel msg_id valid enough,
      elim (ℕ_discrete (under self s handler fuel msg_id valid enough r.rest) 0) [
        | yes e ↦ inr (
          free_id self s handler fuel msg_id valid enough r e,
          renewed self s handler fuel msg_id valid enough r live e,
        )
        | no used ↦
            let (same, apart) = taken_id self s handler fuel msg_id valid enough r used in
            inl (
              (λ z. used (sym same ∙ z)),
              (λ z. apart (sym same ∙ z)),
              run_failed self s handler fuel msg_id valid enough r live used,
            )
      ],
    )

-- `smcp_transaction_end` of an active transaction of the tree ends, on more fuel than there are
-- transactions: it deletes exactly that transaction, the others stay in the tree in their order, and
-- the transaction is no longer active, so that a second call changes nothing.
pub end_pending_refines :
    (self : Transactions) (s : Shape) (handler fuel : ℕ)
    → IsRegistry self s
    → Has handler s
    → handler ≢ 0
    → (self.pending handler).active ≡ true
    → size s < fuel
    → (self' : Transactions) × (end_pending self fuel handler ≡ some (self', handler))
      × (s' : Shape) × IsRegistry self' s'
      × (items s' ≡ list_without handler (items s))
      × (end_pending self' fuel handler ≡ some (self', 0))
unfolding end_pending
end_pending_refines self s handler fuel valid has ne live enough =
    let p : Pending = record (self.pending handler) { active = false } in
    let changed : ℕ → Pending = put_pending self.pending handler p in
    let self1 : Transactions = record { tree = self.tree; pending = changed } in
    let r =
      taken self1 s handler fuel (ended-IsRegistry self.tree self.pending s handler valid) has
        enough ne in
    (
      record { tree = r.out; pending = deactivate changed handler },
      of_if (self.pending handler).active _ (some (self, 0)) live ∙ rw r.runs refl,
      r.rest,
      deactivate-IsRegistry r.out changed r.rest handler r.valid,
      r.items_lem,
      of_else (deactivate changed handler handler).active _ _
          (deactivate-active changed handler ne),
    )
