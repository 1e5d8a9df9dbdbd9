-- ===== src/Url/Parse/Bounds.antt =====
-- `url_parse` stays inside the string.
use smcp.Prelude.{
  ℕ, zero, suc, ◌+◌, ◌-◌, ◌<◌, ◌≤◌, ◌≡◌, ◌≢◌, ◌⊎◌, inl, inr, refl, sym, ap, subst, ◌∙◌, arith,
}
use smcp.Prelude.{
  Bool, true, false, not, ◌&&◌, Option, none, some, ◌==◌, if◌then◌else◌, Bool-cases, ==_ne, ==_iff,
}
use smcp.Prelude.{List, [], ◌∷◌, set, length, length-set, get_or-set_self, get_or-set_ne}
use native.Mathlib.Decide.{dec_lt, ℕ_discrete}
use smcp.Url.Text.{char_at, run, url_is_absolute}
use smcp.Url.Parse.{
  zero_at, Parsed, UrlComponents, no_components, Scanned, host_scan, user_scan, credentials,
}
use smcp.Url.Parse.{
  is_path_char, is_query_char, is_address_char, finish, parse_query, parse_path, parse_address,
  url_parse,
}

-- A component is an index of the string or that of its NUL.
abbrev pub IsWithin : ℕ → Option ℕ → Type 0
IsWithin n none = Unit
IsWithin n (some i) = i ≤ n

-- A buffer that some characters were cut out of: those are NUL.
pub record IsCut (uri b : List ℕ) : Type 0 where
  pub same_length : length b ≡ length uri
  pub kept : (i : ℕ) → (char_at b i ≡ char_at uri i) ⊎ (char_at b i ≡ 0)

pub record AreWithin (n : ℕ) (c : UrlComponents) : Type 0 where
  pub protocol : IsWithin n c.protocol
  pub username : IsWithin n c.username
  pub password : IsWithin n c.password
  pub host : IsWithin n c.host
  pub port : IsWithin n c.port
  pub path : IsWithin n c.path
  pub query : IsWithin n c.query

-- What `url_parse` leaves of a string.
pub record IsParsed (uri : List ℕ) (p : Parsed) : Type 0 where
  pub cut : IsCut uri p.buffer
  pub within : AreWithin (length uri) p.components
  pub parsed : p.bytes_parsed ≤ length uri

==_refl_of : {a b : ℕ} → a ≡ b → (a == b) ≡ true
==_refl_of {a} {b} e = (==_iff a b).1 e

run-le : (accept : ℕ → Bool) (s : List ℕ) (i : ℕ) → i ≤ length s → i + run accept s i ≤ length s
unfolding run
run-le accept [] i h = omega arith
run-le accept (c ∷ s) (suc i) h = omega (arith, run-le accept s i (omega arith))
run-le accept (c ∷ s) zero h = ground (arith, run-le accept s 0 (omega arith))

char_at-inside : (s : List ℕ) (i : ℕ) → char_at s i ≢ 0 → i < length s
char_at-inside [] i h = absurd (h refl)
char_at-inside (c ∷ s) zero h = omega arith
char_at-inside (c ∷ s) (suc i) h = omega (arith, char_at-inside s i h)

get_or-beyond : (s : List ℕ) (i : ℕ) → length s ≤ i → char_at s i ≡ 0
get_or-beyond [] i h = refl
get_or-beyond (c ∷ s) zero h = absurd (omega arith)
get_or-beyond (c ∷ s) (suc i) h = get_or-beyond s i (omega arith)

-- A store on the buffer.
zero_at-set : (b : List ℕ) (i : ℕ) → i < length b → zero_at b i ≡ set b i 0
zero_at-set [] i lt = absurd (omega arith)
zero_at-set (c ∷ b) zero lt = refl
zero_at-set (c ∷ b) (suc i) lt = ap (λ r. c ∷ r) (zero_at-set b i (omega arith))

length-zero_at : (b : List ℕ) (i : ℕ) → i < length b → length (zero_at b i) ≡ length b
length-zero_at b i lt = ap length (zero_at-set b i lt) ∙ length-set b i 0

module _ (uri : List ℕ) where
  IsCut-refl : IsCut uri uri
  IsCut-refl = record { same_length = refl; kept = λ i. inl refl }

  IsCut-set : (b : List ℕ) (i : ℕ) → IsCut uri b → IsCut uri (set b i 0)
  IsCut-set b i h = record { same_length = length-set b i 0 ∙ h.same_length; kept = each }
    where
      each : (j : ℕ) → (char_at (set b i 0) j ≡ char_at uri j) ⊎ (char_at (set b i 0) j ≡ 0)
      each j = elim (ℕ_discrete i j) [
        | no other ↦ rw (get_or-set_ne b i j 0 0 other) (h.kept j)
        | yes same ↦ elim (dec_lt j (length b)) [
          | yes inside ↦ inr (rw same (get_or-set_self b j 0 0 inside))
          | no beyond ↦ inr (get_or-beyond (set b i 0) j (omega (arith, length-set b i 0)))
        ]
      ]

  IsCut-zero_at : (b : List ℕ) (i : ℕ) → i < length b → IsCut uri b → IsCut uri (zero_at b i)
  IsCut-zero_at b i lt h = subst (IsCut uri) (sym (zero_at-set b i lt)) (IsCut-set b i h)

  IsCut-if :
      (t : Bool) (b : List ℕ) (i : ℕ)
      → (t ≡ true → i < length b)
      → IsCut uri b
      → IsCut uri (if t then zero_at b i else b)
  IsCut-if true b i lt h = IsCut-zero_at b i (lt refl) h
  IsCut-if false b i lt h = h

IsWithin-if :
    (t : Bool) (n i : ℕ) (o : Option ℕ)
    → i ≤ n
    → IsWithin n o
    → IsWithin n (if t then some i else o)
IsWithin-if true n i o le h = le
IsWithin-if false n i o le h = h

-- What a backward loop leaves.
record IsScanned (uri : List ℕ) (n : ℕ) (s : Scanned) : Type 0 where
  cut : IsCut uri s.buffer
  fewer : s.left ≤ n
  within : IsWithin (length uri) s.found

IsScanned-mono :
    (uri : List ℕ) (n k : ℕ) (s : Scanned) → n ≤ k → IsScanned uri n s → IsScanned uri k s
IsScanned-mono uri n k s le h = record {
  cut = h.cut;
  fewer = omega (arith, h.fewer);
  within = h.within;
}

IsScanned-if :
    (t : Bool) (uri : List ℕ) (n : ℕ) (s r : Scanned)
    → IsScanned uri n s
    → IsScanned uri n r
    → IsScanned uri n (if t then s else r)
IsScanned-if true uri n s r h k = h
IsScanned-if false uri n s r h k = k

host_scan-IsScanned :
    (uri : List ℕ) (begin n : ℕ) (b : List ℕ) (got : Bool) (port : Option ℕ)
    → begin + n ≤ length uri
    → IsCut uri b
    → IsWithin (length uri) port
    → IsScanned uri n (host_scan begin b n got port)
unfolding host_scan
host_scan-IsScanned uri begin zero b got port h c w = record {
  cut = c;
  fewer = omega arith;
  within = w;
}
host_scan-IsScanned uri begin (suc n) b got port h c w =
    IsScanned-if _ uri (suc n) _ _ (record { cut = c; fewer = omega arith; within = w })
      (IsScanned-mono uri n (suc n) _ (omega arith) (
        host_scan-IsScanned uri begin n _ _ _ (omega arith)
          (IsCut-if uri _ b (begin + n) (λ _. omega (arith, c.same_length)) c)
          (IsWithin-if _ (length uri) (begin + n + 1) port (omega arith) w)))

user_scan-IsScanned :
    (uri : List ℕ) (begin n : ℕ) (b : List ℕ) (password : Option ℕ)
    → begin + n ≤ length uri
    → IsCut uri b
    → IsWithin (length uri) password
    → IsScanned uri n (user_scan begin b n password)
unfolding user_scan
user_scan-IsScanned uri begin zero b password h c w = record {
  cut = c;
  fewer = omega arith;
  within = w;
}
user_scan-IsScanned uri begin (suc n) b password h c w =
    IsScanned-if _ uri (suc n) _ _ (record { cut = c; fewer = omega arith; within = w })
      (IsScanned-mono uri n (suc n) _ (omega arith) (
        user_scan-IsScanned uri begin n _ _ (omega arith)
          (IsCut-if uri _ b (begin + n) (λ _. omega (arith, c.same_length)) c)
          (IsWithin-if _ (length uri) (begin + n + 1) password (omega arith) w)))

module _ {n : ℕ} {c : UrlComponents} (w : AreWithin n c) where
  with_credentials :
      {p u : Option ℕ}
      → IsWithin n p
      → IsWithin n u
      → AreWithin n (record c { password = p; username = u })
  with_credentials hp hu = record {
    protocol = w.protocol;
    username = hu;
    password = hp;
    host = w.host;
    port = w.port;
    path = w.path;
    query = w.query;
  }

  with_host :
      {p h : Option ℕ} → IsWithin n p → IsWithin n h → AreWithin n (record c { port = p; host = h })
  with_host hp hh = record {
    protocol = w.protocol;
    username = w.username;
    password = w.password;
    host = hh;
    port = hp;
    path = w.path;
    query = w.query;
  }

  with_path : (i : ℕ) → i ≤ n → AreWithin n (record c { path = some i })
  with_path i h = record {
    protocol = w.protocol;
    username = w.username;
    password = w.password;
    host = w.host;
    port = w.port;
    path = h;
    query = w.query;
  }

  with_query : (i : ℕ) → i ≤ n → AreWithin n (record c { query = some i })
  with_query i h = record {
    protocol = w.protocol;
    username = w.username;
    password = w.password;
    host = w.host;
    port = w.port;
    path = w.path;
    query = h;
  }

credentials-within :
    (uri : List ℕ) (begin host : ℕ) (b : List ℕ) (c : UrlComponents)
    → begin + host ≤ length uri
    → IsCut uri b
    → AreWithin (length uri) c
    → let (b', c') = credentials begin b host c in IsCut uri b' × AreWithin (length uri) c'
unfolding credentials
credentials-within uri begin host b c h cut w =
    elim (Bool-cases (char_at b (begin + host - 1) == b'@')) [
      | inr other ↦ rw other (cut, w)
      | inl at_sign ↦
          let s = scanned at_sign in
          rw at_sign (
            s.cut,
            with_credentials w s.within
                (IsWithin-if _ (length uri) _ none (omega (arith, s.fewer)) tt),
          )
    ]
  where
    scanned :
        (char_at b (begin + host - 1) == b'@') ≡ true
        → IsScanned uri host (user_scan begin (zero_at b (begin + host - 1)) host none)
    scanned e =
        user_scan-IsScanned uri begin host _ none h
          (IsCut-zero_at uri b (begin + host - 1)
            (char_at-inside b (begin + host - 1) (λ z. cc (z, (==_iff _ b'@').0 e))) cut)
          tt

-- The steps of the parser keep this: at index `at`, at most `at` bytes are counted.
module _ (uri : List ℕ) where
  finish-IsParsed :
      (b : List ℕ) (at : ℕ) (c : UrlComponents) (parsed : ℕ)
      → at ≤ length uri
      → parsed ≤ at
      → IsCut uri b
      → AreWithin (length uri) c
      → IsParsed uri (finish b at c parsed)
  unfolding finish
  finish-IsParsed b at c parsed h hp cut w = elim (ℕ_discrete (char_at b at) 0) [
    | yes at_end ↦ rw (==_refl_of at_end) (record { cut = cut; within = w; parsed = omega arith })
    | no more ↦ rw (==_ne (char_at b at) 0 more) (record {
      cut = IsCut-zero_at uri b at (char_at-inside b at more) cut;
      within = w;
      parsed = omega (arith, char_at-inside b at more, cut.same_length);
    })
  ]

  parse_query-IsParsed :
      (b : List ℕ) (at : ℕ) (c : UrlComponents) (parsed : ℕ)
      → at ≤ length uri
      → parsed ≤ at
      → IsCut uri b
      → AreWithin (length uri) c
      → IsParsed uri (parse_query b at c parsed)
  unfolding parse_query
  parse_query-IsParsed b at c parsed h hp cut w = elim (ℕ_discrete (char_at b at) b'?') [
    | no none_here ↦
        rw (==_ne (char_at b at) b'?' none_here) (finish-IsParsed b at c parsed h hp cut w)
    | yes here ↦ rw (==_refl_of here) (
        finish-IsParsed _ _ _ _ (omega (arith, passed (inside here)))
          (omega (arith, passed (inside here)))
          (IsCut-zero_at uri b at (omega (arith, inside here, cut.same_length)) cut)
          (with_query w (at + 1) (omega (arith, inside here))))
  ]
    where
      inside : char_at b at ≡ b'?' → at < length uri
      inside e = omega (arith, char_at-inside b at (λ z. cc (e, z)), cut.same_length)

      passed : at < length uri → at + 1 + run is_query_char (zero_at b at) (at + 1) ≤ length uri
      passed lt = omega (
        arith,
        run-le is_query_char (zero_at b at) (at + 1)
            (omega (arith, length-zero_at b at (within lt))),
        length-zero_at b at (within lt),
        cut.same_length,
      )
        where
          within : at < length uri → at < length b
          within h = omega (arith, h, cut.same_length)

  parse_path-IsParsed :
      (b : List ℕ) (at : ℕ) (c : UrlComponents) (parsed : ℕ)
      → at ≤ length uri
      → parsed ≤ at
      → IsCut uri b
      → AreWithin (length uri) c
      → IsParsed uri (parse_path b at c parsed)
  unfolding parse_path
  parse_path-IsParsed b at c parsed h hp cut w =
      parse_query-IsParsed b (at + run is_path_char b at) _ _
        (omega (arith, run-le is_path_char b at (omega (arith, cut.same_length)), cut.same_length))
        (omega arith) cut (with_path w at h)

  parse_address-IsParsed :
      (b : List ℕ) (begin : ℕ) (c : UrlComponents) (parsed : ℕ)
      → begin ≤ length uri
      → parsed ≤ begin
      → IsCut uri b
      → AreWithin (length uri) c
      → IsParsed uri (parse_address b begin c parsed)
  unfolding parse_address
  parse_address-IsParsed b begin c parsed h hp cut w =
      parse_path-IsParsed after.0 (begin + n + (if more then 1 else 0)) after.1 _ (step more refl)
        (omega arith) safe.0 safe.1
    where
      n : ℕ
      n = run is_address_char b begin

      more : Bool
      more = not (char_at b (begin + n) == 0)

      passed : begin + n ≤ length uri
      passed =
          omega (
            arith,
            run-le is_address_char b begin (omega (arith, cut.same_length)),
            cut.same_length,
          )

      step :
          (t : Bool)
          → t ≡ not (char_at b (begin + n) == 0)
          → begin + n + (if t then 1 else 0) ≤ length uri
      step true e =
          omega (arith, char_at-inside b (begin + n) (λ z. cc (e, ==_refl_of z)), cut.same_length)
      step false e = omega (arith, passed)

      inside : more ≡ true → begin + n < length b
      inside e = char_at-inside b (begin + n) (λ z. cc (e, ==_refl_of z))

      scanned : Scanned
      scanned = host_scan begin (if more then zero_at b (begin + n) else b) n false none

      s : IsScanned uri n scanned
      s =
          host_scan-IsScanned uri begin n _ false none passed
            (IsCut-if uri more b (begin + n) inside cut) tt

      after : List ℕ × UrlComponents
      after =
          credentials begin scanned.buffer scanned.left
            (record c { port = scanned.found; host = some (begin + scanned.left) })

      safe : IsCut uri after.0 × AreWithin (length uri) after.1
      safe =
          credentials-within uri begin scanned.left scanned.buffer _
            (omega (arith, s.fewer, passed)) s.cut
            (with_host w s.within (omega (arith, s.fewer, passed)))

  by_test :
      (t : Bool) (x y : Parsed)
      → (t ≡ true → IsParsed uri x)
      → (t ≡ false → IsParsed uri y)
      → IsParsed uri (if t then x else y)
  by_test true x y f g = f refl
  by_test false x y f g = g refl

nothing_set : (n : ℕ) → AreWithin n no_components
nothing_set n = record {
  protocol = tt;
  username = tt;
  password = tt;
  host = tt;
  port = tt;
  path = tt;
  query = tt;
}

only_protocol : (n : ℕ) → AreWithin n (record no_components { protocol = some 0 })
only_protocol n = record {
  protocol = omega arith;
  username = tt;
  password = tt;
  host = tt;
  port = tt;
  path = tt;
  query = tt;
}

-- A test that a character is not NUL, or is a given other one, shows that it is in the string.
not_nul : (s : List ℕ) (i : ℕ) → (char_at s i == 0) ≡ false → i < length s
not_nul s i e = char_at-inside s i (λ z. cc (e, ==_refl_of z))

-- `url_parse` stays inside the string: it stores nothing but NULs, each on a character of the string,
-- so that neither the string's end nor what stands behind it is written; every component that it sets
-- starts on the string or on its NUL; and it returns at most the string's length.
pub url_parse-IsParsed : (uri : List ℕ) → IsParsed uri (url_parse uri)
unfolding url_parse
url_parse-IsParsed uri =
    by_test uri (not (url_is_absolute uri)) _ _
      (λ e. parse_path-IsParsed uri uri 0 _ 0 none_before (same 0) (IsCut-refl uri) nothing)
      (λ absolute.
        by_test uri (char_at uri n == 0) _ _
          (λ e. record { cut = IsCut-refl uri; within = protocol; parsed = end })
          (λ colon.
            by_test uri (char_at uri (n + 1) == 0) _ _
              (λ e. record { cut = cut colon; within = protocol; parsed = behind_colon colon })
              (λ more.
                by_test uri (char_at uri (n + 1) == b'/' && char_at uri (n + 2) == b'/') _ _
                  (λ slashes.
                    parse_address-IsParsed uri _ (n + 3) _ (n + 3) (behind_slashes slashes)
                      (same (n + 3)) (cut colon) protocol)
                  (λ e.
                    parse_path-IsParsed uri _ (n + 1) _ (n + 1) (behind_colon colon) (same (n + 1))
                      (cut colon) protocol))))
  where
    n : ℕ
    n = run (λ c. not (c == b':')) uri 0

    none_before : 0 ≤ length uri
    none_before = omega arith

    same : (k : ℕ) → k ≤ k
    same k = omega arith

    end : n ≤ length uri
    end = omega (arith, run-le (λ c. not (c == b':')) uri 0 (omega arith))

    cut : (char_at uri n == 0) ≡ false → IsCut uri (zero_at uri n)
    cut e = IsCut-zero_at uri uri n (not_nul uri n e) (IsCut-refl uri)

    nothing : AreWithin (length uri) no_components
    nothing = nothing_set (length uri)

    protocol : AreWithin (length uri) (record no_components { protocol = some 0 })
    protocol = only_protocol (length uri)

    behind_colon : (char_at uri n == 0) ≡ false → n + 1 ≤ length uri
    behind_colon e = omega (arith, not_nul uri n e)

    behind_slashes :
        (char_at uri (n + 1) == b'/' && char_at uri (n + 2) == b'/') ≡ true → n + 3 ≤ length uri
    behind_slashes e = omega (arith, not_nul uri (n + 2) (ground arith))
