-- ===== src/Transaction/Stored.antt =====
-- The tree of transactions as a map from message ids, and what an insertion into it leaves.
use smcp.Prelude.{
  ℕ, suc, ◌<◌, ◌≡◌, ◌≢◌, refl, sym, ap, ◌∙◌, false, Option, none, some, ◌==◌, if◌then◌else◌,
  Bool-cases, ==_ne, ==_refl, inl, inr,
}
use native.Mathlib.Decide.{ℕ_discrete}
use mathlib.Core.Path.{fun_ext}
use smcp.Tree.{bt_find}
use smcp.Tree.Change.{BinaryTree, Inserted, root_slot, bt_insert}
use smcp.Tree.Shape.{Shape, leaf, node, size, items, AllOf, AllOf-map}
use smcp.Tree.Find.{search, bt_find-search}
use smcp.Tree.Ordered.{by_number, put_ordered}
use smcp.Tree.Insert.Lookup.{IsSearchTree, bt_insert_refines, bt_insert-bt_find}
use smcp.Tree.Insert.{IsNew}
use smcp.Tree.Keys.{IsOrdered-agree, search-agree}
use smcp.Transaction.Table.{
  Pending, Transactions, find_via_msg_id, transaction_compare, put_pending, deactivate,
}

abbrev pub msg_id_of : (ℕ → Pending) → ℕ → ℕ
msg_id_of pending n = (pending n).msg_id

-- The tree is one of distinct transactions in the order of their message ids.
abbrev pub IsRegistry : Transactions → Shape → Type 0
IsRegistry self s = IsSearchTree (msg_id_of self.pending) self.tree s

pub some_injective {ℓ} : {A : Type ℓ} (a b : A) → some a ≡ some b → a ≡ b
some_injective {A = A} a b e = ap (λ (o : Option A). elim o [ none ↦ a | some x ↦ x ]) e

put_pending_ne :
    (pending : ℕ → Pending) (handler n : ℕ) (p : Pending)
    → n ≢ handler
    → put_pending pending handler p n ≡ pending n
put_pending_ne pending handler n p ne = rw (==_ne n handler ne) refl

pub put_pending_self :
    (pending : ℕ → Pending) (handler : ℕ) (p : Pending) → put_pending pending handler p handler ≡ p
put_pending_self pending handler p = rw (==_refl handler) refl

put_pending-msg_id :
    (pending : ℕ → Pending) (handler n : ℕ) (p : Pending)
    → n ≢ handler
    → msg_id_of (put_pending pending handler p) n ≡ msg_id_of pending n
put_pending-msg_id pending handler n p ne =
    ap (λ (q : Pending). q.msg_id) (put_pending_ne pending handler n p ne)

AllOf-each : {P : ℕ → Type 0} → ((n : ℕ) → P n) → (s : Shape) → AllOf P s
AllOf-each f leaf = tt
AllOf-each f (node l x r) = (f x, AllOf-each f l, AllOf-each f r)

-- A transaction that is no longer active keeps its message id.
ended-msg_id :
    (pending : ℕ → Pending) (handler n : ℕ)
    → msg_id_of (put_pending pending handler (record (pending handler) { active = false })) n
      ≡ msg_id_of pending n
ended-msg_id pending handler n = elim (ℕ_discrete n handler) [
  | yes e ↦
      ap (msg_id_of (put_pending pending handler (record (pending handler) { active = false }))) e
      ∙ ap (λ (q : Pending). q.msg_id)
          (put_pending_self pending handler (record (pending handler) { active = false }))
      ∙ ap (msg_id_of pending) (sym e)
  | no ne ↦ put_pending-msg_id pending handler n (record (pending handler) { active = false }) ne
]

deactivate-msg_id :
    (pending : ℕ → Pending) (deleted n : ℕ)
    → msg_id_of (deactivate pending deleted) n ≡ msg_id_of pending n
deactivate-msg_id pending deleted n = elim (Bool-cases (deleted == 0)) [
  | inl z ↦ rw z refl
  | inr nz ↦ rw nz (ended-msg_id pending deleted n)
]

pub deactivate-active :
    (pending : ℕ → Pending) (deleted : ℕ)
    → deleted ≢ 0
    → (deactivate pending deleted deleted).active ≡ false
deactivate-active pending deleted ne = rw (==_ne deleted 0 ne, ==_refl deleted) refl

-- A tree of the same message ids.
IsRegistry-agree :
    (tree : BinaryTree) (pending changed : ℕ → Pending) (s : Shape)
    → ((n : ℕ) → msg_id_of changed n ≡ msg_id_of pending n)
    → IsRegistry (record { tree = tree; pending = pending }) s
    → IsRegistry (record { tree = tree; pending = changed }) s
IsRegistry-agree tree pending changed s same valid = record {
  tree = valid.tree;
  distinct = valid.distinct;
  ordered =
      IsOrdered-agree (msg_id_of pending) (msg_id_of changed) s (AllOf-each same s) valid.ordered;
}

pub ended-IsRegistry :
    (tree : BinaryTree) (pending : ℕ → Pending) (s : Shape) (handler : ℕ)
    → IsRegistry (record { tree = tree; pending = pending }) s
    → IsRegistry
        (record {
          tree = tree;
          pending = put_pending pending handler (record (pending handler) { active = false });
        })
        s
ended-IsRegistry tree pending s handler valid =
    IsRegistry-agree tree pending
      (put_pending pending handler (record (pending handler) { active = false })) s
      (ended-msg_id pending handler) valid

pub deactivate-IsRegistry :
    (tree : BinaryTree) (pending : ℕ → Pending) (s : Shape) (deleted : ℕ)
    → IsRegistry (record { tree = tree; pending = pending }) s
    → IsRegistry (record { tree = tree; pending = deactivate pending deleted }) s
deactivate-IsRegistry tree pending s deleted valid =
    IsRegistry-agree tree pending (deactivate pending deleted) s (deactivate-msg_id pending deleted)
      valid

-- What the insertion of a transaction with its changed fields leaves.
pub record Stored (tree : BinaryTree) (rest : Shape) (handler fuel : ℕ)
    (pending changed : ℕ → Pending) : Type 0 where
  pub out : Inserted
  pub runs : bt_insert (transaction_compare changed) fuel tree root_slot handler 0 ≡ some out
  pub shape : Shape
  pub registry :
      IsRegistry (record { tree = out.tree; pending = deactivate changed out.deleted }) shape
  pub items_lem :
      items shape ≡ put_ordered (msg_id_of (deactivate changed out.deleted)) handler (items rest)
  pub found :
      (k : ℕ)
      → find_via_msg_id
          (record { tree = out.tree; pending = deactivate changed out.deleted })
          (suc fuel)
          k
        ≡ (if k == msg_id_of changed handler
            then some handler
            else some (search (λ n. by_number (msg_id_of pending n) k) rest))
  pub deleted_lem :
      out.deleted ≡ search (λ n. by_number (msg_id_of pending n) (msg_id_of changed handler)) rest

pub stored :
    (pending : ℕ → Pending) (p : Pending) (tree : BinaryTree) (rest : Shape) (handler fuel : ℕ)
    → IsSearchTree (msg_id_of pending) tree rest
    → IsNew tree 0 handler rest
    → size rest < fuel
    → Stored tree rest handler fuel pending (put_pending pending handler p)
unfolding find_via_msg_id
stored pending p tree rest handler fuel valid new enough =
    let (out, runs, depth, shape, valid', same_items) =
      bt_insert_refines key tree rest handler fuel agreeing new enough in
    let (out', runs', find, deleted) =
      bt_insert-bt_find key tree rest handler fuel agreeing new enough in
    let one : out ≡ out' = some_injective out out' (sym runs ∙ runs') in
    let same : msg_id_of (deactivate changed out.deleted) ≡ key =
      fun_ext (deactivate-msg_id changed out.deleted) in
    record {
      out = out;
      runs = runs;
      shape = shape;
      registry = deactivate-IsRegistry out.tree changed shape out.deleted valid';
      items_lem = same_items ∙ ap (λ (k : ℕ → ℕ). put_ordered k handler (items rest)) (sym same);
      found = λ k.
          ap
            (λ (g : ℕ → ℕ).
              bt_find out.tree.links (λ n. by_number (g n) k) (suc fuel) out.tree.root)
            same
          ∙ ap
              (λ (o : Inserted).
                bt_find o.tree.links (λ n. by_number (key n) k) (suc fuel) o.tree.root)
              one
          ∙ find k
          ∙ ap (λ (o : Option ℕ). if k == key handler then some handler else o) (before k);
      deleted_lem =
          ap (λ (o : Inserted). o.deleted) one
          ∙ some_injective out'.deleted
              (search (λ n. by_number (msg_id_of pending n) (key handler)) rest)
              (sym deleted ∙ before (key handler));
    }
  where
    changed : ℕ → Pending
    changed = put_pending pending handler p

    key : ℕ → ℕ
    key = msg_id_of changed

    agree : AllOf (λ n. key n ≡ msg_id_of pending n) rest
    agree = AllOf-map (λ n other. put_pending-msg_id pending handler n p other) rest new.fresh

    agreeing : IsSearchTree key tree rest
    agreeing = record {
      tree = valid.tree;
      distinct = valid.distinct;
      ordered = IsOrdered-agree (msg_id_of pending) key rest agree valid.ordered;
    }

    before :
        (k : ℕ)
        → bt_find tree.links (λ n. by_number (key n) k) fuel tree.root
          ≡ some (search (λ n. by_number (msg_id_of pending n) k) rest)
    before k =
        bt_find-search tree.links (λ n. by_number (key n) k) rest tree.root 0 fuel valid.tree enough
        ∙ ap some (search-agree (msg_id_of pending) key k rest agree)
