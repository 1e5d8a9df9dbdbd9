-- ===== src/Outbound/Sizes.antt =====
-- The list of options to which `smcp_outbound_add_option_` adds one, and its bytes.
use smcp.Prelude.{ℕ, ◌+◌, ◌-◌, ◌^◌, ◌<◌, ◌≤◌, inl, inr, arith}
use smcp.Prelude.{List, [], ◌∷◌, ◌++◌, length, length-append, leb, Bool-cases}
use smcp.Coap.Option.Format.{header, option_bytes}
use smcp.Coap.Option.Sequence.{Options, options_bytes, IsOrdered, add}
use smcp.Coap.Option.Sequence.{length-header, length-extension-le, length-extension_mono}

pub IsOrdered-add :
    (key : ℕ) (v : List ℕ) (prev : ℕ) (opts : Options)
    → key < 2 ^ 16
    → length v ≤ 1034
    → prev ≤ key
    → IsOrdered prev opts
    → IsOrdered prev (add key v opts)
unfolding add
IsOrdered-add key v prev [] hk hv le ord = (le, hk, hv, tt)
IsOrdered-add key v prev ((k, w) ∷ rest) hk hv le ord = elim (Bool-cases (leb k key)) [
  | inl e ↦ rw e (ord.0, ord.1, ord.2, IsOrdered-add key v k rest hk hv (ground arith) ord.3)
  | inr e ↦ rw e (le, hk, hv, (ground arith, ord.1, ord.2, ord.3))
]

length-option : (d : ℕ) (v : List ℕ) → length (option_bytes d v) ≤ length v + 5
length-option d v = omega (
  arith,
  length-append (header d (length v)) v,
  length-header d (length v),
  length-extension-le d,
  length-extension-le (length v),
)

length-option_mono :
    (a b : ℕ) (v : List ℕ) → a ≤ b → length (option_bytes a v) ≤ length (option_bytes b v)
length-option_mono a b v le = omega (
  arith,
  length-append (header a (length v)) v,
  length-append (header b (length v)) v,
  length-header a (length v),
  length-header b (length v),
  length-extension_mono a b le,
)

-- An option takes five bytes more than its value at most.
pub length-add :
    (key : ℕ) (v : List ℕ) (prev : ℕ) (opts : Options)
    → prev ≤ key
    → length (options_bytes prev (add key v opts))
      ≤ length (options_bytes prev opts) + (length v + 5)
unfolding add
length-add key v prev [] le =
    omega (arith, length-append (option_bytes (key - prev) v) [], length-option (key - prev) v)
length-add key v prev ((k, w) ∷ rest) le = elim (Bool-cases (leb k key)) [
  | inl e ↦ rw e (
      omega (
        arith,
        length-append (option_bytes (k - prev) w) (options_bytes k rest),
        length-append (option_bytes (k - prev) w) (options_bytes k (add key v rest)),
        length-add key v k rest (ground arith),
      ))
  | inr e ↦ rw e (
      omega (
        arith,
        length-append (option_bytes (k - prev) w) (options_bytes k rest),
        length-append (option_bytes (key - prev) v)
            (option_bytes (k - key) w ++ options_bytes k rest),
        length-append (option_bytes (k - key) w) (options_bytes k rest),
        length-option (key - prev) v,
        length-option_mono (k - key) (k - prev) w (omega arith),
      ))
]
