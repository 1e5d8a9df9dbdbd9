-- ===== src/Url/Pieces/Form.antt =====
-- A form's pairs, taken one by one.
use smcp.Prelude.{ℕ, ◌+◌, ◌-◌, ◌^◌, ◌<◌, ◌≡◌, ◌⊎◌, inl, inr, refl, arith}
use smcp.Prelude.{Bool, true, false, none, some, ◌==◌, if◌then◌else◌}
use smcp.Prelude.{List, [], ◌∷◌, ◌++◌, map, length, append-nil}
use smcp.Url.Percent.{plain, url_decode_cstr_inplace}
use smcp.Url.Percent.RoundTrip.{IsText, encoding, url_decode_cstr_inplace-encoding}
use smcp.Url.Pieces.{cut_at, step_over, is_key_end, is_value_end, url_form_next_value}
use smcp.Url.Pieces.{form_key_end, form_value}
use smcp.Url.Pieces.Split.{IsClear, cut_at-stop, cut_at-end, encoding-IsClear, separator_ends}

-- What stands behind a pair, and what the call leaves and counts of it.
pub data Tail : List ℕ → List ℕ → ℕ → Type 0 where
  at_end : Tail [] [] 0
  at_separator : {c : ℕ} {rest : List ℕ} → (c ≡ b';') ⊎ (c ≡ b'&') → Tail (c ∷ rest) rest 1

key_is_cut :
    (has_value : Bool) (key form : List ℕ)
    → IsClear is_key_end key
    → url_form_next_value has_value (key ++ (b'=' ∷ form)) ≡ form_value has_value key form
unfolding url_form_next_value form_key_end
key_is_cut has_value [] form h = rw (cut_at-stop is_key_end [] b'=' form tt refl)
key_is_cut has_value (c ∷ key) form h =
    rw (cut_at-stop is_key_end (c ∷ key) b'=' form h refl, not_nul h.0)
  where
    not_nul : is_key_end c ≡ false → (c == 0) ≡ false
    not_nul e = ground (arith, e)

value_is_cut :
    (v tail rest : List ℕ) (n : ℕ)
    → IsClear is_value_end v
    → Tail tail rest n
    → (cut_at is_value_end (v ++ tail) ≡ (v, tail)) × (step_over tail ≡ (rest, n))
unfolding step_over
value_is_cut v tail rest n h at_end = (rw (append-nil v) (cut_at-end is_value_end v h), refl)
value_is_cut v tail rest n h (at_separator {c} (inl e)) =
    (cut_at-stop is_value_end v c rest h (rw e refl), ground arith)
value_is_cut v tail rest n h (at_separator {c} (inr e)) =
    (cut_at-stop is_value_end v c rest h (rw e refl), ground arith)

value_is_read :
    (has_value : Bool) (key v tail rest : List ℕ) (n : ℕ)
    → cut_at is_value_end (encoding v ++ tail) ≡ (encoding v, tail)
    → step_over tail ≡ (rest, n)
    → url_decode_cstr_inplace (encoding v) ≡ map plain v
    → form_value has_value key (encoding v ++ tail) ≡ record {
      key = some (if has_value then key else key ++ (b'=' ∷ map plain v));
      value = if has_value then some (map plain v) else none;
      form_string = rest;
      bytes_parsed = length key + 1 + length (encoding v) + n;
    }
unfolding form_value
value_is_read has_value key v tail rest n cut over decoded = rw (cut, over, decoded)

-- The next pair of a form with a percent-encoded value: the key as it stands, the value decoded,
-- with `+` for a space. The call leaves what stands behind the separator, and counts the bytes that
-- it passes. Without a `value` pointer the key's string runs on over the decoded value.
pub url_form_next_value-pair :
    (key v tail rest : List ℕ) (n : ℕ)
    → IsClear is_key_end key
    → IsText v
    → length v < 2 ^ 64 - 1
    → Tail tail rest n
    → (url_form_next_value true (key ++ (b'=' ∷ (encoding v ++ tail))) ≡ record {
      key = some key;
      value = some (map plain v);
      form_string = rest;
      bytes_parsed = length key + 1 + length (encoding v) + n;
    })
      × (url_form_next_value false (key ++ (b'=' ∷ (encoding v ++ tail))) ≡ record {
        key = some (key ++ (b'=' ∷ map plain v));
        value = none;
        form_string = rest;
        bytes_parsed = length key + 1 + length (encoding v) + n;
      })
url_form_next_value-pair key v tail rest n hk text small t =
    rw (key_is_cut true key (encoding v ++ tail) hk, key_is_cut false key (encoding v ++ tail) hk)
      (
        value_is_read true key v tail rest n cut.0 cut.1 decoded,
        value_is_read false key v tail rest n cut.0 cut.1 decoded,
      )
  where
    cut :
        (cut_at is_value_end (encoding v ++ tail) ≡ (encoding v, tail))
        × (step_over tail ≡ (rest, n))
    cut =
        value_is_cut (encoding v) tail rest n
          (encoding-IsClear is_value_end separator_ends refl v text) t

    decoded : url_decode_cstr_inplace (encoding v) ≡ map plain v
    decoded = url_decode_cstr_inplace-encoding v text small
