-- ===== src/Outbound/Respond.antt =====
-- A message is answered once.
use smcp.Prelude.{ℕ, ◌≡◌, refl, sym, ap, ◌∙◌}
use smcp.Prelude.{Bool, true, false, Option, none, some, if◌then◌else◌}
use smcp.Outbound.{
  Session, Status, ok, failure, invalid_argument, response_not_allowed, message_too_big,
}
use smcp.Outbound.{send, after_hook, is_ok, begin_response}
use smcp.Outbound.Underway.{IsUnderway, send-goes}

true_of_false : false ≡ true → (b : Bool) → b ≡ true
true_of_false e b = absurd (cc e)

after_hook_ok :
    (status : Status) (s self' : Session)
    → after_hook status s ≡ (ok, self')
    → s.is_responding ≡ true
    → self'.did_respond ≡ true
after_hook_ok ok s self' e r =
    sym (ap (λ (p : Status × Session). p.1.did_respond) e)
    ∙ ap (λ (b : Bool). if b then true else s.did_respond) r
after_hook_ok failure s self' e r =
    true_of_false (ap (λ (p : Status × Session). is_ok p.0) e) self'.did_respond
after_hook_ok invalid_argument s self' e r =
    true_of_false (ap (λ (p : Status × Session). is_ok p.0) e) self'.did_respond
after_hook_ok response_not_allowed s self' e r =
    true_of_false (ap (λ (p : Status × Session). is_ok p.0) e) self'.did_respond
after_hook_ok message_too_big s self' e r =
    true_of_false (ap (λ (p : Status × Session). is_ok p.0) e) self'.did_respond

abbrev pair_of : Status × Session → Option (Status × Session) → Status × Session
pair_of p none = p
pair_of p (some q) = q

-- After a response under construction has been sent with success, whatever the socket's part does,
-- a second one for the same message is refused with SMCP_STATUS_RESPONSE_NOT_ALLOWED.
pub respond_once :
    (hook : Session → Status) (self self' : Session) (code : ℕ)
    → IsUnderway self
    → self.is_responding ≡ true
    → send hook self ≡ some (ok, self')
    → (self'.did_respond ≡ true) × ((begin_response self' code).0 ≡ response_not_allowed)
unfolding begin_response
respond_once hook self self' code u responds e =
    let (s, found, u', r) = send-goes hook self u in
    let done =
      after_hook_ok (hook s) s self' (ap (pair_of (ok, self')) (sym found ∙ e)) (r ∙ responds) in
    (done, rw done refl)
