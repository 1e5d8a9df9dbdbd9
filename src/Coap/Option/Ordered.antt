-- ===== src/Coap/Option/Ordered.antt =====
-- `coap_insert_option` as a whole refines insertion into an ordered list of options.
use smcp.Prelude.{
  ℕ, zero, suc, ◌+◌, ◌-◌, ◌^◌, ◌<◌, ◌≤◌, ◌≡◌, ◌⊎◌, inl, inr, refl, ap, subst, sym, ◌∙◌, arith,
}
use smcp.Prelude.{
  some, Option, length, List, [], ◌∷◌, ◌++◌, leb, ltb, ◌==◌, length-append, append-nil, true, false,
}
use smcp.Prelude.{lt→ltb, le→not-ltb, Bool-cases, ==_ne, not-ltb→le, ltb→lt}
use smcp.Prelude.Bytes.{Mem}
use smcp.Coap.Option.{Search, decode_option, encode_option, advance, search}
use smcp.Coap.Option.{append_option, insert_before, finish_insert, insert_option}
use smcp.Coap.Option.Format.{header, option_bytes, Holds, Holds-append, Holds-agree, Holds-split}
use smcp.Coap.Option.Decode.{decode_option-header}
use smcp.Coap.Option.Encode.{Encoded, encode_option_lem}
use smcp.Coap.Option.Sequence.{
  Options, options_bytes, IsOrdered, add, length-header, length-extension-le,
}
use smcp.Coap.Option.Insert.{Inserted, insert_before_lem}

-- The first option of a sequence in memory, as the decoder reads it behind the key `prev`.
pub decode_option-first :
    (m : Mem) (a prev key : ℕ) (value : List ℕ)
    → prev ≤ key
    → key < 2 ^ 16
    → length value ≤ 1034
    → Holds m a (option_bytes (key - prev) value)
    → decode_option m a prev ≡ record {
      key = key;
      value = some (a + length (header (key - prev) (length value)));
      len = length value;
      next = some (a + length (option_bytes (key - prev) value));
    }
decode_option-first m a prev key value le small hv h =
    decode_option-header m a prev (key - prev) (length value) (omega arith) (omega arith)
      (omega arith) (Holds-split m a (header (key - prev) (length value)) value h).0
    ∙ λ i. record {
      key = whole_key i;
      value = some (a + length (header (key - prev) (length value)));
      len = length value;
      next = some (whole_option i);
    }
  where
    whole_key : prev + (key - prev) ≡ key
    whole_key = omega arith

    whole_option :
        a + length (header (key - prev) (length value)) + length value
        ≡ a + length (option_bytes (key - prev) value)
    whole_option = omega (arith, length-append (header (key - prev) (length value)) value)

-- The loop's state at the address `a`, behind an option of key `prev`.
abbrev at_option : ℕ → ℕ → Search
at_option a prev = record {
  iter = some a;
  iter_key = prev;
  insertion_point = some a;
  prev_key = prev;
}

-- The state in which the search stops at a later option.
abbrev at_later : ℕ → ℕ → ℕ → ℕ → Search
at_later a prev key next = record {
  iter = some next;
  iter_key = key;
  insertion_point = some a;
  prev_key = prev;
}

module _ (m : Mem) (key : ℕ) where
  advance_past :
      (a prev k : ℕ) (s : Search) (v : Option ℕ) (l next : ℕ)
      → s.iter_key ≡ prev
      → decode_option m a prev ≡ record { key = k; value = v; len = l; next = some next }
      → k ≤ key
      → advance m key s a ≡ at_option next k
  advance_past a prev k s v l next e d le = rw (e, d) (rw leb_true refl)
    where
      leb_true : leb k key ≡ true
      leb_true = ground arith

  advance_stop :
      (a prev k : ℕ) (v : Option ℕ) (l next : ℕ)
      → decode_option m a prev ≡ record { key = k; value = v; len = l; next = some next }
      → key < k
      → advance m key (at_option a prev) a ≡ at_later a prev k next
  advance_stop a prev k v l next d lt = rw d (rw leb_false refl)
    where
      leb_false : leb k key ≡ false
      leb_false = ground arith

-- Bytes in front of the place of an insertion stay.
Inserted-prefix :
    (m : Mem) (a b end : ℕ) (front bytes : List ℕ) (out : Mem × ℕ)
    → b ≡ a + length front
    → Holds m a front
    → Inserted m b end bytes out
    → Inserted m a end (front ++ bytes) out
Inserted-prefix m a b end front bytes out e h ins = record {
  holds =
      Holds-append out.0 a front bytes
        (Holds-agree m out.0 a a front (λ i p. ins.frame (a + i) (omega arith)) h)
        (subst (λ x. Holds out.0 x bytes) e ins.holds);
  grown = omega (arith, ins.grown, length-append front bytes);
  frame = λ x o. ins.frame x (omega arith);
}

-- Where a value may stand: below the options, or far enough behind them.
abbrev pub IsApart : ℕ → ℕ → ℕ → ℕ → Type 0
IsApart value n a end = (value + n ≤ a) ⊎ (end + (n + 5) ≤ value)

module _ (m : Mem) (key value end : ℕ) (v : List ℕ) (small : key < 2 ^ 16) (hv : length v ≤ 1034)
    (hval : Holds m value v) where
  append_option_lem :
      (prev : ℕ)
      → prev ≤ key
      → IsApart value (length v) end end
      → Inserted m end end
          (option_bytes (key - prev) v)
          (append_option m end prev key value (length v))
  unfolding append_option
  append_option_lem prev le apart = record {
    holds = Holds-append out.0 end (header (key - prev) (length v)) v enc.head (
        Holds-agree m out.0 value (end + length (header (key - prev) (length v))) v enc.value hval);
    grown = omega (arith, enc.end, sizes, header_le);
    frame = λ x o. enc.frame x (omega (arith, enc.end, sizes, header_le));
  }
    where
      out : Mem × ℕ
      out = encode_option m end prev key value (length v)

      header_le : length (header (key - prev) (length v)) ≤ 5
      header_le = omega (
        arith,
        length-header (key - prev) (length v),
        length-extension-le (key - prev),
        length-extension-le (length v),
      )

      enc : Encoded m end (key - prev) value (length v) out
      enc =
          encode_option_lem m end prev key value (length v) le (omega arith) (omega arith) hv
            (omega (arith, header_le))

      sizes :
          length (option_bytes (key - prev) v) ≡ length (header (key - prev) (length v)) + length v
      sizes = length-append (header (key - prev) (length v)) v

  finish_append :
      (k : ℕ)
      → k ≤ key
      → finish_insert m end key value (length v) (at_option end k)
        ≡ append_option m end k key value (length v)
  unfolding finish_insert
  finish_append k le = rw (le→not-ltb key k le, le→not-ltb end end (omega arith))

  finish_before :
      (a prev k next : ℕ)
      → key < k
      → finish_insert m end key value (length v) (at_later a prev k next)
        ≡ insert_before m end a prev key k value (length v)
  unfolding finish_insert
  finish_before a prev k next lt = rw (lt→ltb key k lt)

  search-stop :
      (fuel a p k next : ℕ)
      → advance m key (at_option a p) a ≡ at_later a p k next
      → key < k
      → search m end key (suc fuel) (at_option a p) a ≡ some (at_later a p k next)
  unfolding search
  search-stop fuel a p k next e lt = rw (e, lt→ltb key k lt)

  search-last :
      (fuel a p k : ℕ)
      → advance m key (at_option a p) a ≡ at_option end k
      → k ≤ key
      → search m end key (suc fuel) (at_option a p) a ≡ some (at_option end k)
  unfolding search
  search-last fuel a p k e le =
      rw (e, le→not-ltb key k le, le→not-ltb end end (omega arith)) (ap some e)

  search-next :
      (fuel a p k next : ℕ)
      → advance m key (at_option a p) a ≡ at_option next k
      → k ≤ key
      → next < end
      → search m end key (suc fuel) (at_option a p) a
        ≡ search m end key fuel (at_option next k) next
  unfolding search
  search-next fuel a p k next e le lt =
      rw (e, le→not-ltb key k le, lt→ltb next end lt)
        (ap (λ (s : Search). search m end key fuel s next) e)

  -- What the rest of the call does, from the option at `a` on.
  abbrev Done : ℕ → ℕ → ℕ → Options → Type 0
  Done fuel a p opts =
      (s : Search) × (search m end key fuel (at_option a p) a ≡ some s)
      × Inserted m a end (options_bytes p (add key v opts))
          (finish_insert m end key value (length v) s)

  -- The first option, of key `k`, and where the next one starts.
  module _ (a p k : ℕ) (w : List ℕ) (rest : Options) (le : p ≤ key)
      (ord : IsOrdered p ((k, w) ∷ rest)) (h : Holds m a (options_bytes p ((k, w) ∷ rest)))
      (e : end ≡ a + length (options_bytes p ((k, w) ∷ rest)))
      (apart : IsApart value (length v) a end) where
    abbrev behind : ℕ
    behind = a + length (option_bytes (k - p) w)

    halves : Holds m a (option_bytes (k - p) w) × Holds m behind (options_bytes k rest)
    halves = Holds-split m a (option_bytes (k - p) w) (options_bytes k rest) h

    first : decode_option m a p ≡ record {
      key = k;
      value = some (a + length (header (k - p) (length w)));
      len = length w;
      next = some behind;
    }
    first = decode_option-first m a p k w ord.0 ord.1 ord.2 halves.0

    rest_end : end ≡ behind + length (options_bytes k rest)
    rest_end = omega (arith, length-append (option_bytes (k - p) w) (options_bytes k rest))

    advance_first : k ≤ key → advance m key (at_option a p) a ≡ at_option behind k
    advance_first kle = advance_past m key a p k (at_option a p) _ _ behind refl first kle

    stop_here : (fuel : ℕ) → key < k → Done (suc fuel) a p ((k, w) ∷ rest)
    unfolding add
    stop_here fuel lt = (
      at_later a p k behind,
      search-stop fuel a p k behind (advance_stop m key a p k _ _ behind first lt) lt,
      rw (finish_before a p k behind lt, not_le)
          (insert_before_lem m a p key k value end v w (options_bytes k rest) le lt ord.1 hv ord.2 h
            e hval apart),
    )
      where
        not_le : leb k key ≡ false
        not_le = ground arith

    pass :
        (s : Search)
        → k ≤ key
        → Inserted m behind end
            (options_bytes k (add key v rest))
            (finish_insert m end key value (length v) s)
        → Inserted m a end
            (options_bytes p (add key v ((k, w) ∷ rest)))
            (finish_insert m end key value (length v) s)
    unfolding add
    pass s kle ins = rw is_le (
        Inserted-prefix m a behind end (option_bytes (k - p) w) (options_bytes k (add key v rest)) _
          refl halves.0 ins)
      where
        is_le : leb k key ≡ true
        is_le = ground arith

  append_as_options :
      (q : ℕ)
      → q ≤ key
      → IsApart value (length v) end end
      → Inserted m end end
          (options_bytes q (add key v []))
          (append_option m end q key value (length v))
  unfolding add
  append_as_options q le apart =
      rw (append-nil (option_bytes (key - q) v)) (append_option_lem q le apart)

  next_here :
      (fuel a p k : ℕ) (w : List ℕ) (rest : Options)
      → (le : p ≤ key) (ord : IsOrdered p ((k, w) ∷ rest))
      → (h : Holds m a (options_bytes p ((k, w) ∷ rest)))
      → (e : end ≡ a + length (options_bytes p ((k, w) ∷ rest)))
      → (apart : IsApart value (length v) a end) → k ≤ key
      → a + length (option_bytes (k - p) w) < end
      → Done fuel (a + length (option_bytes (k - p) w)) k rest
      → Done (suc fuel) a p ((k, w) ∷ rest)
  next_here fuel a p k w rest le ord h e apart kle lt (s, found, ins) = (
    s,
    search-next fuel a p k _ (advance_first a p k w rest le ord h e apart kle) kle lt ∙ found,
    pass a p k w rest le ord h e apart s kle ins,
  )

  last_here :
      (fuel a p k : ℕ) (w : List ℕ)
      → (le : p ≤ key) (ord : IsOrdered p ((k, w) ∷ []))
      → (h : Holds m a (options_bytes p ((k, w) ∷ [])))
      → (e : end ≡ a + length (options_bytes p ((k, w) ∷ [])))
      → (apart : IsApart value (length v) a end) → k ≤ key
      → a + length (option_bytes (k - p) w) ≡ end
      → Done (suc fuel) a p ((k, w) ∷ [])
  last_here fuel a p k w le ord h e apart kle done = (
    at_option end k,
    search-last fuel a p k
        (advance_first a p k w [] le ord h e apart kle ∙ ap (λ (b : ℕ). at_option b k) done) kle,
    pass a p k w [] le ord h e apart (at_option end k) kle (
        rw (finish_append k kle) (
          subst
            (λ b.
              Inserted m b end (options_bytes k (add key v []))
                (append_option m end k key value (length v)))
            (sym done) (append_as_options k kle (omega arith)))),
  )

  insert_from :
      (fuel a p k : ℕ) (w : List ℕ) (rest : Options)
      → length (options_bytes p ((k, w) ∷ rest)) < fuel
      → p ≤ key
      → IsOrdered p ((k, w) ∷ rest)
      → Holds m a (options_bytes p ((k, w) ∷ rest))
      → end ≡ a + length (options_bytes p ((k, w) ∷ rest))
      → IsApart value (length v) a end
      → Done fuel a p ((k, w) ∷ rest)
  insert_from zero a p k w rest hf le ord h e apart = absurd (omega arith)
  insert_from (suc fuel) a p k w [] hf le ord h e apart = elim (Bool-cases (ltb key k)) [
    | inl later ↦ stop_here a p k w [] le ord h e apart fuel (ltb→lt key k later)
    | inr earlier ↦
        last_here fuel a p k w le ord h e apart (not-ltb→le key k earlier)
          (omega (arith, rest_end a p k w [] le ord h e apart))
  ]
  insert_from (suc fuel) a p k w ((k2, w2) ∷ rest) hf le ord h e apart =
      elim (Bool-cases (ltb key k)) [
        | inl later ↦ stop_here a p k w ((k2, w2) ∷ rest) le ord h e apart fuel (ltb→lt key k later)
        | inr earlier ↦
            let kle = not-ltb→le key k earlier in
            let next = a + length (option_bytes (k - p) w) in
            let e2 = rest_end a p k w ((k2, w2) ∷ rest) le ord h e apart in
            next_here fuel a p k w ((k2, w2) ∷ rest) le ord h e apart kle (omega (arith, e2)) (
              insert_from fuel next k k2 w2 rest (omega (arith, e2)) kle ord.3
                (halves a p k w ((k2, w2) ∷ rest) le ord h e apart).1 e2 (omega arith))
      ]

-- `coap_insert_option` on an ordered sequence of options, for a value that stands below it or more
-- than `len + 5` bytes behind it: the call ends, memory then holds the sequence with the new option
-- behind every option whose key is not greater, the result is the number of bytes added, and no
-- byte outside the options changes.
pub insert_option_refines :
    (m : Mem) (start end key value : ℕ) (v : List ℕ) (opts : Options)
    → IsOrdered 0 opts
    → Holds m start (options_bytes 0 opts)
    → end ≡ start + length (options_bytes 0 opts)
    → key < 2 ^ 16
    → length v ≤ 1034
    → Holds m value v
    → IsApart value (length v) start end
    → (out : Mem × ℕ) × (insert_option m start end key value (length v) ≡ some out)
      × Inserted m start end (options_bytes 0 (add key v opts)) out
unfolding insert_option finish_insert
insert_option_refines m start end key value v [] ord h e small hv hval apart =
    let same : end ≡ start = omega arith in
    (
      append_option m end 0 key value (length v),
      rw (same_test same),
      subst
          (λ a.
            Inserted m a end (options_bytes 0 (add key v []))
              (append_option m end 0 key value (length v)))
          same (append_as_options m key value end v small hv hval 0 (omega arith) (omega arith)),
    )
  where
    same_test : end ≡ start → (start == end) ≡ true
    same_test p = ground arith
insert_option_refines m start end key value v ((k, w) ∷ rest) ord h e small hv hval apart =
    let (s, found, ins) =
      insert_from m key value end v small hv hval (end - start + 1) start 0 k w rest (omega arith)
        (omega arith) ord h e apart in
    (finish_insert m end key value (length v) s, rw (other, found), ins)
  where
    other : (start == end) ≡ false
    other = ==_ne start end (omega arith)
