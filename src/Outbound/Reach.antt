-- ===== src/Outbound/Reach.antt =====
-- What holds after any sequence of calls on an outbound packet.
use smcp.Prelude.{ℕ, ◌+◌, ◌^◌, ◌<◌, ◌≤◌, ◌≡◌, refl, sym, ap, subst, ◌∙◌}
use smcp.Prelude.{Option, none, some, List}
use smcp.Outbound.{Session, Status, ok, max_packet_length}
use smcp.Outbound.{add_option, add_option_uint, get_space_remaining}
use smcp.Outbound.{get_content_ptr, append_content, value_length, set_content_len}
use smcp.Outbound.{set_code, set_token}
use smcp.Outbound.Automatic.{IsApartValue}
use smcp.Outbound.Adding.{add_option-goes, add_option_uint-goes}
use smcp.Outbound.Underway.{IsUnderway, Progress-IsUnderway, get_content_ptr-goes, send-goes}
use smcp.Outbound.{send, after_hook}
use smcp.Outbound.Edits.{
  append_content-goes, set_content_len-IsUnderway, set_code-IsUnderway, set_token-IsUnderway,
}

-- The calls after `smcp_outbound_begin`, of any outcome. The last three
-- arguments of `appends` are what the code does not check: that the content still has room behind
-- the options that the call adds by itself.
pub data Step : Session → Session → Type 0 where
  adds :
      {self self' : Session} {status : Status} (key value len : ℕ) (v : List ℕ)
      → key < 2 ^ 16
      → IsApartValue self value len v
      → add_option self key value len ≡ some (status, self')
      → Step self self'
  adds_uint :
      {self self' : Session} {status : Status} (key number : ℕ)
      → key < 2 ^ 16
      → number < 2 ^ 32
      → add_option_uint self key number ≡ some (status, self')
      → Step self self'
  appends :
      {self self' : Session} {status : Status} (value len n : ℕ)
      → value_length self.mem value len ≡ some n
      → ((s1 : Session) → get_content_ptr self ≡ some s1 → n ≤ get_space_remaining s1.outbound)
      → append_content self value len ≡ some (status, self')
      → Step self self'
  gets_content_ptr : {self self' : Session} → get_content_ptr self ≡ some self' → Step self self'
  sets_content_len :
      {self : Session} (len : ℕ)
      → self.outbound.content_ptr + len ≤ self.outbound.packet + max_packet_length
      → Step self (set_content_len self len)
  sets_code : {self : Session} (code : ℕ) → Step self (set_code self code)
  sends :
      {self self' : Session} {status : Status} (hook : Session → Status)
      → send hook self ≡ some (status, self')
      → Step self self'
  sets_token : {self : Session} (from n : ℕ) → Step self (set_token self from n).1

pub data Steps : Session → Session → Type 0 where
  none_left : {self : Session} → Steps self self
  then_step : {self s1 self' : Session} → Steps self s1 → Step s1 self' → Steps self self'

-- The session that a call leaves is the one that was found.
same_result :
    (s0 self' : Session) (st st' : Status) (out : Option (Status × Session))
    → out ≡ some (st, s0)
    → out ≡ some (st', self')
    → IsUnderway s0
    → IsUnderway self'
same_result s0 self' st st' out e e' u = subst IsUnderway (ap session_of (sym e ∙ e')) u
  where
    session_of : Option (Status × Session) → Session
    session_of none = s0
    session_of (some (x, s)) = s

Step-IsUnderway : {self self' : Session} → Step self self' → IsUnderway self → IsUnderway self'
Step-IsUnderway {self} {self'} (adds {status = st} key value len v small a e) (opts, b, pl) =
    let (st0, s0, found, p) = add_option-goes self opts key value len v b pl small a in
    same_result s0 self' st0 st _ found e (Progress-IsUnderway self.block2 self s0 pl p)
Step-IsUnderway {self} {self'} (adds_uint {status = st} key number small fits e) (opts, b, pl) =
    let (st0, s0, found, p) = add_option_uint-goes self opts key number b pl small fits in
    same_result s0 self' st0 st _ found e (Progress-IsUnderway self.uint self s0 pl p)
Step-IsUnderway {self} {self'} (appends {status = st} value len n l room e) u =
    let (st0, s0, found, u') = append_content-goes self value len n u l room in
    same_result s0 self' st0 st _ found e u'
Step-IsUnderway {self} {self'} (gets_content_ptr e) u =
    let (s0, found, u', r) = get_content_ptr-goes self u in
    same_result s0 self' ok ok (some (ok, s0)) refl (ap with_ok (sym found ∙ e)) u'
  where
    with_ok : Option Session → Option (Status × Session)
    with_ok none = none
    with_ok (some s) = some (ok, s)
Step-IsUnderway {self} {self'} (sends {status = st} hook e) u =
    let (s, found, u', r) = send-goes hook self u in
    same_result (after_hook (hook s) s).1 self' (after_hook (hook s) s).0 st _ found e u'
Step-IsUnderway {self} (sets_content_len len fits) u = set_content_len-IsUnderway self len u fits
Step-IsUnderway {self} (sets_code code) u = set_code-IsUnderway self code u
Step-IsUnderway {self} (sets_token from n) u = set_token-IsUnderway self from n u

pub Steps-IsUnderway :
    {self self' : Session} → Steps self self' → IsUnderway self → IsUnderway self'
Steps-IsUnderway none_left u = u
Steps-IsUnderway (then_step w s) u = Step-IsUnderway s (Steps-IsUnderway w u)
