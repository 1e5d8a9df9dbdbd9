-- ===== src/Url/Pieces.antt =====
-- src/smcp/url-helpers.c: `url_form_next_value`, `url_path_next_component` and `quoted_cstr`.
-- A string pointer that a call moves on is the list of the characters behind it.
pub mod Split
pub mod Form
pub mod Quoted
use smcp.Prelude.{ℕ, zero, suc, ◌+◌, ◌-◌, Bool, true, false, not, ◌&&◌, ◌||◌, Option, none, some}
use smcp.Prelude.{List, [], ◌∷◌, ◌++◌, ◌==◌, if◌then◌else◌, length}
use smcp.Url.Percent.{Stored, url_decode_cstr_inplace}

-- The characters before the first one that `stop` holds for, and those from it on.
pub cut_at : (ℕ → Bool) → List ℕ → List ℕ × List ℕ
cut_at stop [] = ([], [])
cut_at stop (c ∷ s) =
    let rest = cut_at stop s in if stop c then ([], c ∷ s) else (c ∷ rest.0, rest.1)

-- `if(*p[0]) { *(*p)++ = 0; bytes_parsed++; }`: what is behind `p`, and what is counted.
pub step_over : List ℕ → List ℕ × ℕ
step_over [] = ([], 0)
step_over (c ∷ s) = if c == 0 then (c ∷ s, 0) else (s, 1)

abbrev pub is_path_end : ℕ → Bool
is_path_end c = c == 0 || c == b'/'

-- `*component`, `*path_string` and the return value.
pub record NextComponent : Type 0 where
  pub component : Option (List ℕ)
  pub path_string : List ℕ
  pub bytes_parsed : ℕ

pub url_path_next_component : List ℕ → NextComponent
url_path_next_component [] = record { component = none; path_string = []; bytes_parsed = 0 }
url_path_next_component (c ∷ s) =
    let (piece, at) = cut_at is_path_end (c ∷ s) in
    let (behind, n) = step_over at in
    if c == 0 then record { component = none; path_string = c ∷ s; bytes_parsed = 0 } else record {
      component = some (url_decode_cstr_inplace piece);
      path_string = behind;
      bytes_parsed = length piece + n;
    }

-- The loop of `smcp_outbound_set_uri` over a path, on fuel: it ends when nothing is parsed.
pub path_components : ℕ → List ℕ → List (Option (List ℕ))
path_components zero path = []
path_components (suc fuel) path =
    let next = url_path_next_component path in
    let rest = path_components fuel next.path_string in
    if next.bytes_parsed == 0 then [] else next.component ∷ rest

abbrev pub is_key_end : ℕ → Bool
is_key_end c = c == 0 || (c == b'=' || (c == b';' || c == b'&'))

abbrev pub is_value_end : ℕ → Bool
is_value_end c = c == 0 || (c == b';' || c == b'&')

-- `*key`, `*value`, `*form_string` and the return value.
pub record NextValue : Type 0 where
  pub key : Option (List ℕ)
  pub value : Option (List ℕ)
  pub form_string : List ℕ
  pub bytes_parsed : ℕ

-- Behind the key's `=`. With no `value` the `=` stays, and the key's string runs on over the value.
form_value : Bool → List ℕ → List ℕ → NextValue
form_value has_value key form =
    let (piece, at) = cut_at is_value_end form in
    let (behind, n) = step_over at in
    let v = url_decode_cstr_inplace piece in
    record {
      key = some (if has_value then key else key ++ (b'=' ∷ v));
      value = if has_value then some v else none;
      form_string = behind;
      bytes_parsed = length key + 1 + length piece + n;
    }

-- At the end of the key.
form_key_end : Bool → List ℕ → List ℕ → NextValue
form_key_end has_value key [] = record {
  key = some key;
  value = none;
  form_string = [];
  bytes_parsed = length key;
}
form_key_end has_value key (c ∷ form) =
    if c == 0
    then record { key = some key; value = none; form_string = c ∷ form; bytes_parsed = length key }
    else if c == b'='
    then form_value has_value key form
    else record { key = some key; value = none; form_string = form; bytes_parsed = length key + 1 }

-- `has_value` tells that the caller passes a `value` pointer; it gets NULL for a key without `=`.
pub url_form_next_value : Bool → List ℕ → NextValue
url_form_next_value has_value [] = record {
  key = none;
  value = none;
  form_string = [];
  bytes_parsed = 0;
}
url_form_next_value has_value (c ∷ form) =
    let (key, at) = cut_at is_key_end (c ∷ form) in
    if c == 0
    then record { key = none; value = none; form_string = c ∷ form; bytes_parsed = 0 }
    else form_key_end has_value key at

-- The loop of `quoted_cstr`, with `dest_max_size = room + 1`; `/"` stands for a quote.
quoted_loop : List ℕ → ℕ → List ℕ
quoted_loop src zero = []
quoted_loop [] (suc room) = []
quoted_loop (c ∷ []) (suc room) = if c == 0 then [] else c ∷ []
quoted_loop (c ∷ d ∷ src) (suc room) =
    let after = quoted_loop src room in
    let next = quoted_loop (d ∷ src) room in
    if c == 0 then [] else if c == b'/' && d == b'"' then d ∷ after else c ∷ next

-- The bytes stored from `dest` on, and the return value. A size of 0 stores the NUL all the same.
pub quoted_cstr : List ℕ → ℕ → Stored
quoted_cstr src zero = (0 ∷ [], 0)
quoted_cstr src (suc zero) = (0 ∷ [], 0)
quoted_cstr src (suc (suc zero)) = (b'"' ∷ 0 ∷ [], 1)
quoted_cstr src (suc (suc (suc room))) =
    let body = quoted_loop src room in (b'"' ∷ (body ++ (b'"' ∷ 0 ∷ [])), length body + 2)
