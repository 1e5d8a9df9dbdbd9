-- ===== src/Transaction/Match/Found.antt =====
-- The transaction that a packet answers is one that was sent to its sender.
use smcp.Prelude.{
  ℕ, zero, suc, ◌+◌, ◌*◌, ◌<◌, ◌≡◌, ◌≢◌, refl, sym, ap, subst, ◌∙◌, arith, Bool, true, false, not,
  ◌&&◌, Option, some, ◌==◌, ltb, if◌then◌else◌, ==_ne, ==_iff, ltb→lt, ne_of_==, Bool-cases, ◌⊎◌,
  inl, inr, List, [], ◌∷◌, All, length,
}
use smcp.Tree.{bt_next}
use smcp.Tree.Shape.{Shape, size, items, IsTree-Fresh}
use smcp.Tree.Find.{search, bt_find-search}
use smcp.Tree.Ordered.{by_number, All-items}
use smcp.Tree.Walk.{first, Follows, length-items}
use smcp.Tree.Count.{bt_next-Follows}
use smcp.Transaction.Table.{Pending, Transactions, find_via_msg_id, find_via_token, token_loop}
use smcp.Transaction.Stored.{IsRegistry, msg_id_of}
use smcp.Transaction.Match.{Response, token_of, find_handler, address_checked, match_response}

-- The first of a list that has the token, or 0.
abbrev pub first_with_token : (ℕ → Pending) → ℕ → List ℕ → ℕ
first_with_token pending token [] = 0
first_with_token pending token (x ∷ xs) =
    if (pending x).token == token then x else first_with_token pending token xs

module _ (self : Transactions) (walk token : ℕ) where
  loop_end : (fuel : ℕ) → token_loop self walk token (suc fuel) 0 ≡ some 0
  unfolding token_loop
  loop_end fuel = refl

  loop_here :
      (fuel x : ℕ)
      → x ≢ 0
      → ((self.pending x).token == token) ≡ true
      → token_loop self walk token (suc fuel) x ≡ some x
  unfolding token_loop
  loop_here fuel x ne e = rw (==_ne x 0 ne, e) refl

  loop_on :
      (fuel x y : ℕ)
      → x ≢ 0
      → ((self.pending x).token == token) ≡ false
      → bt_next self.tree.links walk x ≡ some y
      → token_loop self walk token (suc fuel) x ≡ token_loop self walk token fuel y
  unfolding token_loop
  loop_on fuel x y ne e n = rw (==_ne x 0 ne, e, n) refl

  token_loop-first :
      (xs : List ℕ) (fuel : ℕ)
      → All (λ x. x ≢ 0) xs
      → Follows self.tree.links walk xs 0
      → length xs < fuel
      → token_loop self walk token fuel (first 0 xs) ≡ some (first_with_token self.pending token xs)
  token_loop-first xs zero z f enough = absurd (omega arith)
  token_loop-first [] (suc fuel) z f enough = loop_end fuel
  token_loop-first (x ∷ xs) (suc fuel) z f enough =
      elim (Bool-cases ((self.pending x).token == token)) [
        | inl e ↦ loop_here fuel x z.0 e ∙ rw (first_with_token, e) refl
        | inr e ↦
            loop_on fuel x (first 0 xs) z.0 e f.0
            ∙ token_loop-first xs fuel z.1 f.1 (omega arith)
            ∙ rw (first_with_token, e) refl
      ]

-- `smcp_transaction_find_via_token` ends, and finds the transaction with the token that comes first in
-- the order of the message ids, or none where there is none.
pub find_via_token-first :
    (self : Transactions) (s : Shape) (fuel token : ℕ)
    → IsRegistry self s
    → size s < fuel
    → find_via_token self fuel token ≡ some (first_with_token self.pending token (items s))
unfolding find_via_token
find_via_token-first self s fuel token valid enough =
    let (start, follows) =
      bt_next-Follows self.tree.links self.tree.root s fuel valid.tree valid.distinct enough in
    rw (find_via_token, start)
      (token_loop-first self fuel token (items s) fuel
        (All-items (λ x. x ≢ 0) s (IsTree-Fresh self.tree.links self.tree.root 0 s valid.tree))
        follows (omega (arith, length-items s)))

-- The message id's transaction, if any.
pub found_id :
    (self : Transactions) (s : Shape) (fuel msg_id : ℕ)
    → IsRegistry self s
    → size s < fuel
    → find_via_msg_id self fuel msg_id
      ≡ some (search (λ n. by_number (msg_id_of self.pending n) msg_id) s)
unfolding find_via_msg_id
found_id self s fuel msg_id valid enough =
    bt_find-search self.tree.links (λ n. by_number (msg_id_of self.pending n) msg_id) s
      self.tree.root 0 fuel valid.tree enough

pub first_with_token-token :
    (pending : ℕ → Pending) (token : ℕ) (xs : List ℕ)
    → first_with_token pending token xs ≢ 0
    → (pending (first_with_token pending token xs)).token ≡ token
first_with_token-token pending token [] ne = absurd (ne refl)
first_with_token-token pending token (x ∷ xs) ne = elim (Bool-cases ((pending x).token == token)) [
  | inl e ↦ ap (λ n. (pending n).token) (here e) ∙ (==_iff (pending x).token token).0 e
  | inr e ↦
      ap (λ n. (pending n).token) (there e)
      ∙ first_with_token-token pending token xs (λ z. ne (there e ∙ z))
]
  where
    here : ((pending x).token == token) ≡ true → first_with_token pending token (x ∷ xs) ≡ x
    here e = rw (first_with_token, e) refl

    there :
        ((pending x).token == token) ≡ false
        → first_with_token pending token (x ∷ xs) ≡ first_with_token pending token xs
    there e = rw (first_with_token, e) refl

-- What the code takes for the token of a packet: its two bytes, or 0 where it has another length.
abbrev pub IsToken : List ℕ → ℕ → Type 0
IsToken bytes token =
    ((lo : ℕ) × (hi : ℕ) × (bytes ≡ lo ∷ hi ∷ []) × (token ≡ lo + 256 * hi))
    ⊎ ((length bytes ≢ 2) × (token ≡ 0))

token_of-IsToken : (bytes : List ℕ) → IsToken bytes (token_of bytes)
token_of-IsToken [] = inr (omega arith, refl)
token_of-IsToken (a ∷ []) = inr (omega arith, refl)
token_of-IsToken (a ∷ b ∷ []) = inl (a, b, refl, omega arith)
token_of-IsToken (a ∷ b ∷ c ∷ rest) = inr (omega arith, refl)

is_token : (bytes : List ℕ) (token : ℕ) → token ≡ token_of bytes → IsToken bytes token
is_token bytes token e = subst (IsToken bytes) (sym e) (token_of-IsToken bytes)

-- What makes a transaction the one that a packet answers.
pub data Answers (self : Transactions) (r : Response) (handler : ℕ) : Type 0 where
  by_msg_id :
      (self.pending handler).msg_id ≡ r.msg_id
      → (r.code ≡ 0) ⊎ IsToken r.token (self.pending handler).token
      → Answers self r handler
  by_token : r.tt < 2 → IsToken r.token (self.pending handler).token → Answers self r handler

abbrev pub IsFromPeer : Transactions → Response → ℕ → Type 0
IsFromPeer self r handler =
    ((self.pending handler).multicast ≡ true)
    ⊎ (((self.pending handler).saddr ≡ r.saddr) × ((self.pending handler).port ≡ r.port))

pub address_checked-IsFromPeer :
    (self : Transactions) (r : Response) (handler : ℕ)
    → address_checked self r handler ≢ 0
    → (address_checked self r handler ≡ handler) × IsFromPeer self r handler
address_checked-IsFromPeer self r handler ne = ground arith

pub address_checked_peer :
    (self : Transactions) (r : Response) (handler : ℕ)
    → IsFromPeer self r handler
    → address_checked self r handler ≡ handler
address_checked_peer self r handler peer = ground arith

-- The choice between what is found under the message id and what is found under the token.
abbrev pub choice : Transactions → Response → ℕ → ℕ → ℕ
choice self r m w =
    if m == 0
    then (if ltb r.tt 2 then w else 0)
    else if not (r.code == 0) && not (token_of r.token == (self.pending m).token)
    then 0
    else m

pub choice-Answers :
    (self : Transactions) (r : Response) (m w : ℕ)
    → (m ≢ 0 → (self.pending m).msg_id ≡ r.msg_id)
    → (w ≢ 0 → (self.pending w).token ≡ token_of r.token)
    → choice self r m w ≢ 0
    → Answers self r (choice self r m w)
choice-Answers self r m w id token ne = elim (Bool-cases (m == 0)) [
  | inl z ↦ elim (Bool-cases (ltb r.tt 2)) [
    | inl lt ↦ subst (Answers self r) (sym (rw (z, lt) refl)) (
        by_token (ltb→lt r.tt 2 lt)
          (is_token r.token (self.pending w).token (token (λ e. ne (rw (z, lt) e)))))
    | inr ge ↦ absurd (ne (rw (z, ge) refl))
  ]
  | inr nz ↦
      elim (Bool-cases (not (r.code == 0) && not (token_of r.token == (self.pending m).token))) [
        | inl bad ↦ absurd (ne (rw (nz, bad) refl))
        | inr good ↦
            subst (Answers self r) (sym (rw (nz, good) refl))
              (by_msg_id (id (ne_of_== m 0 nz)) (fits (ground (arith, good))))
      ]
]
  where
    fits :
        (r.code ≡ 0) ⊎ ((self.pending m).token ≡ token_of r.token)
        → (r.code ≡ 0) ⊎ IsToken r.token (self.pending m).token
    fits (inl e) = inl e
    fits (inr e) = inr (is_token r.token (self.pending m).token e)

module _ (self : Transactions) (s : Shape) (fuel : ℕ) (r : Response) (valid : IsRegistry self s)
    (enough : size s < fuel) where
  abbrev pub under_id : ℕ
  under_id = search (λ n. by_number (msg_id_of self.pending n) r.msg_id) s

  abbrev pub under_token : ℕ
  under_token = first_with_token self.pending (token_of r.token) (items s)

  find_handler-choice : find_handler self fuel r ≡ some (choice self r under_id under_token)
  unfolding find_handler
  find_handler-choice =
      chosen under_id (found_id self s fuel r.msg_id valid enough) under_token
        (find_via_token-first self s fuel (token_of r.token) valid enough)
    where
      inner :
          (m w : ℕ)
          → find_via_token self fuel (token_of r.token) ≡ some w
          → (if m == 0
              then (if ltb r.tt 2 then find_via_token self fuel (token_of r.token) else some 0)
              else if not (r.code == 0) && not (token_of r.token == (self.pending m).token)
              then some 0
              else some m)
            ≡ some (choice self r m w)
      inner m w f =
          split (m == 0) (ltb r.tt 2)
            (not (r.code == 0) && not (token_of r.token == (self.pending m).token)) m w
            (find_via_token self fuel (token_of r.token)) f
        where
          split :
              (a b c : Bool) (m w : ℕ) (o : Option ℕ)
              → o ≡ some w
              → (if a then (if b then o else some 0) else if c then some 0 else some m)
                ≡ some (if a then (if b then w else 0) else if c then 0 else m)
          split true true c m w o e = e
          split true false c m w o e = refl
          split false b true m w o e = refl
          split false b false m w o e = refl

      chosen :
          (m : ℕ)
          → find_via_msg_id self fuel r.msg_id ≡ some m
          → (w : ℕ) → find_via_token self fuel (token_of r.token) ≡ some w
          → find_handler self fuel r ≡ some (choice self r m w)
      chosen m e w f = rw (find_handler, e) (inner m w f)

  pub matched :
      match_response self fuel r
      ≡ some (address_checked self r (choice self r under_id under_token))
  unfolding match_response
  matched = rw (match_response, find_handler-choice) refl
