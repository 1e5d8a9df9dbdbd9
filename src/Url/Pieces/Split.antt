-- ===== src/Url/Pieces/Split.antt =====
-- A path and a form, put together and taken apart.
use smcp.Prelude.{ℕ, zero, suc, ◌+◌, ◌-◌, ◌/◌, ◌%◌, ◌^◌, ◌<◌, ◌≡◌, inl, inr, refl, ap, arith}
use smcp.Prelude.{Bool, true, false, some, ◌==◌, Bool-cases, ==_ne}
use smcp.Prelude.{List, [], ◌∷◌, ◌++◌, map, length, All}
use smcp.Url.Chars.{is_url_char, is_url_char-ne_zero, is_url_char-int_to_hex_digit}
use smcp.Url.Percent.{url_decode_cstr_inplace, plain}
use smcp.Url.Percent.RoundTrip.{IsText, encoding, url_decode_cstr_inplace-encoding}
use smcp.Url.Pieces.{cut_at, step_over, is_path_end, is_value_end, url_path_next_component}
use smcp.Url.Pieces.{path_components}

-- No character ends a piece.
abbrev pub IsClear : (ℕ → Bool) → List ℕ → Type 0
IsClear stop s = All (λ c. stop c ≡ false) s

pub cut_at-stop :
    (stop : ℕ → Bool) (s : List ℕ) (c : ℕ) (rest : List ℕ)
    → IsClear stop s
    → stop c ≡ true
    → cut_at stop (s ++ (c ∷ rest)) ≡ (s, c ∷ rest)
unfolding cut_at
cut_at-stop stop [] c rest h e = rw e
cut_at-stop stop (x ∷ s) c rest h e = rw (h.0, cut_at-stop stop s c rest h.1 e)

pub cut_at-end : (stop : ℕ → Bool) (s : List ℕ) → IsClear stop s → cut_at stop s ≡ (s, [])
unfolding cut_at
cut_at-end stop [] h = refl
cut_at-end stop (x ∷ s) h = rw (h.0, cut_at-end stop s h.1)

-- What the encoder writes holds no character that ends a piece.
pub encoding-IsClear :
    (stop : ℕ → Bool)
    → ((c : ℕ) → is_url_char c ≡ true → stop c ≡ false)
    → stop b'%' ≡ false
    → (s : List ℕ) → IsText s
    → IsClear stop (encoding s)
encoding-IsClear stop safe percent [] h = tt
encoding-IsClear stop safe percent (c ∷ s) h = elim (Bool-cases (is_url_char c)) [
  | inl plain_char ↦ rw plain_char (safe c plain_char, encoding-IsClear stop safe percent s h.1)
  | inr coded ↦ rw coded (
    percent,
    (
      safe _ (is_url_char-int_to_hex_digit (c / 16) (omega (arith, h.0.0))),
      (
        safe _ (is_url_char-int_to_hex_digit (c % 16) (omega arith)),
        encoding-IsClear stop safe percent s h.1,
      ),
    ),
  )
]

pub not_char : (c d : ℕ) → is_url_char c ≡ true → is_url_char d ≡ false → (c == d) ≡ false
not_char c d safe e = ==_ne c d (λ p. cc (safe, e, ap is_url_char p))

slash_ends : (c : ℕ) → is_url_char c ≡ true → is_path_end c ≡ false
unfolding is_url_char
slash_ends c h = rw (==_ne c 0 (is_url_char-ne_zero c h), not_char c b'/' h refl)

pub separator_ends : (c : ℕ) → is_url_char c ≡ true → is_value_end c ≡ false
unfolding is_url_char
separator_ends c h =
    rw (==_ne c 0 (is_url_char-ne_zero c h), not_char c b';' h refl, not_char c b'&' h refl)

not_nul : (c : ℕ) → is_path_end c ≡ false → (c == 0) ≡ false
not_nul c h = ground (arith, h)

-- The calls on a piece without a slash, before a slash and at the end.
next-slash :
    (p rest : List ℕ)
    → IsClear is_path_end p
    → url_path_next_component (p ++ (b'/' ∷ rest)) ≡ record {
      component = some (url_decode_cstr_inplace p);
      path_string = rest;
      bytes_parsed = length p + 1;
    }
unfolding url_path_next_component step_over
next-slash [] rest h = rw (cut_at-stop is_path_end [] b'/' rest tt refl)
next-slash (c ∷ p) rest h = rw (cut_at-stop is_path_end (c ∷ p) b'/' rest h refl, not_nul c h.0)

next-last :
    (p : List ℕ)
    → 0 < length p
    → IsClear is_path_end p
    → url_path_next_component p ≡ record {
      component = some (url_decode_cstr_inplace p);
      path_string = [];
      bytes_parsed = length p + 0;
    }
unfolding url_path_next_component step_over
next-last [] pos h = absurd (omega arith)
next-last (c ∷ p) pos h = rw (cut_at-end is_path_end (c ∷ p) h, not_nul c h.0)

-- The path of a sequence of segments, each percent-encoded.
abbrev pub path_of : List (List ℕ) → List ℕ
path_of [] = []
path_of (s ∷ []) = encoding s
path_of (s ∷ t ∷ segments) = encoding s ++ (b'/' ∷ path_of (t ∷ segments))

-- Texts, the last one not empty.
abbrev pub IsPath : List (List ℕ) → Type 0
IsPath [] = Unit
IsPath (s ∷ []) = IsText s × (length s < 2 ^ 64 - 1) × (0 < length s)
IsPath (s ∷ t ∷ segments) = IsText s × (length s < 2 ^ 64 - 1) × IsPath (t ∷ segments)

encoding-IsClear_path : (s : List ℕ) → IsText s → IsClear is_path_end (encoding s)
encoding-IsClear_path = encoding-IsClear is_path_end slash_ends refl

length-encoding_pos : (s : List ℕ) → 0 < length s → 0 < length (encoding s)
length-encoding_pos [] h = h
length-encoding_pos (c ∷ s) h = ground arith

-- The loop of `smcp_outbound_set_uri` over a path of percent-encoded segments finds each of them,
-- decoded, with `+` for a space; it finds none behind a slash that ends the path.
pub path_components-path_of :
    (fuel : ℕ) (segments : List (List ℕ))
    → length segments < fuel
    → IsPath segments
    → path_components fuel (path_of segments) ≡ map (λ s. some (map plain s)) segments
unfolding path_components
path_components-path_of zero segments hf h = absurd (omega arith)
path_components-path_of (suc fuel) [] hf h = unfold url_path_next_component in refl
path_components-path_of (suc fuel) (s ∷ []) hf (text, small, pos) =
    rw
      (
        next-last (encoding s) (length-encoding_pos s pos) (encoding-IsClear_path s text),
        ==_ne (length (encoding s) + 0) 0 (omega (arith, length-encoding_pos s pos)),
        url_decode_cstr_inplace-encoding s text small,
        path_components-path_of fuel [] (omega arith) tt,
      )
      refl
path_components-path_of (suc fuel) (s ∷ t ∷ segments) hf (text, small, more) =
    rw
      (
        next-slash (encoding s) (path_of (t ∷ segments)) (encoding-IsClear_path s text),
        ==_ne (length (encoding s) + 1) 0 (omega arith),
        url_decode_cstr_inplace-encoding s text small,
        path_components-path_of fuel (t ∷ segments) (omega arith) more,
      )
      refl
