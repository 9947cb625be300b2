-- ===== src/Lexer/Ends.antt =====
-- The lexer ends: each token but EOF takes at least one character.
use cypherast.Prelude.{
  ℕ, ◌≡◌, ◌≤◌, refl, Bool, true, false, ◌&&◌, ◌||◌, List, [], ◌∷◌, ◌++◌, Option, none, some, String,
  if◌then◌else◌, ◌==◌, arith, Bool-cases, inl, inr, length,
}
use cypherast.Lexer.Tokens.{
  ident, parameter, integer_lit, float_lit, Token, TokenKind, Position, keywords, keyword_in,
}
use cypherast.Lexer.Characters.{
  Unicode, Outcome, failed, scanned, Scan, move, moved, next_is, is, spanned,
}
use cypherast.Lexer.Scanners.{
  string_body, backtick_body, unescape, number, token, is_empty, is_hex, is_octal, is_word,
  exponent, after_exponent, is_sign, is_x, is_o, fraction, word_content, prefixed_number,
  decimal_number, parameter_name, word,
}
use cypherast.Lexer.{
  token_at, other, operator, double_at, single_operator, singles, quotes, starts_number,
}

-- The scanner has come to an end, with at most `n` characters left where it has a token.
pub data Within (n : ℕ) : Outcome (Token × Scan) → Type 0 where
  stopped : {code : String} {at : Position} → Within n (failed code at)
  read : {t : Token} {s : Scan} → length s.chars ≤ n → Within n (scanned (t, s))

either :
    {n : ℕ} {r t : Outcome (Token × Scan)} (b : Bool)
    → Within n r
    → Within n t
    → Within n (elim b [ true ↦ r | false ↦ t ])
either true h k = h
either false h k = k

chosen :
    {n : ℕ} {r : Outcome (Token × Scan)} (t : Outcome (Token × Scan)) (b : Bool)
    → b ≡ true
    → Within n r
    → Within n (elim b [ true ↦ r | false ↦ t ])
chosen t true e h = h
chosen t false e h = cc

weaker : {m n : ℕ} {r : Outcome (Token × Scan)} → m ≤ n → Within m r → Within n r
weaker h stopped = stopped
weaker h (read k) = read (omega arith)

module _ (start : Position) (pending : List (List ℕ)) where
  string_body-Within :
      (q : ℕ) (e : Bool) (buf cs : List ℕ) (p : Position)
      → Within (length cs) (string_body q e buf start cs p pending)
  unfolding string_body
  string_body-Within q e buf [] p = stopped
  string_body-Within q true buf (c ∷ cs) p =
      weaker (omega arith) (string_body-Within q false (buf ++ (unescape c ∷ [])) cs (move c p))
  string_body-Within q false buf (c ∷ cs) p =
      either ((c == b'\\') && next_is (λ d. true) cs)
        (weaker (omega arith) (string_body-Within q true buf cs (move c p)))
        (either (c == q) (read (omega arith))
          (weaker (omega arith) (string_body-Within q false (buf ++ (c ∷ [])) cs (move c p))))

  backtick_body-Within :
      (d : Bool) (buf cs : List ℕ) (p : Position)
      → Within (length cs) (backtick_body d buf start cs p pending)
  unfolding backtick_body
  backtick_body-Within d buf [] p = stopped
  backtick_body-Within true buf (c ∷ cs) p =
      weaker (omega arith) (backtick_body-Within false (buf ++ (b'`' ∷ [])) cs (move c p))
  backtick_body-Within false buf (c ∷ cs) p =
      either (c == b'`')
        (either (next_is (is b'`') cs)
          (weaker (omega arith) (backtick_body-Within true buf cs (move c p))) (read (omega arith)))
        (weaker (omega arith) (backtick_body-Within false (buf ++ (c ∷ [])) cs (move c p)))

spanned-length : (f : ℕ → Bool) (cs : List ℕ) → length (spanned f cs).1 ≤ length cs
spanned-length f [] = omega arith
spanned-length f (c ∷ cs) = ground (arith, spanned-length f cs)

spanned-shorter :
    (f : ℕ → Bool) (c : ℕ) (cs : List ℕ) → f c ≡ true → length (spanned f (c ∷ cs)).1 ≤ length cs
spanned-shorter f c cs h = rw h (spanned-length f cs)

module _ (u : Unicode) (start : Position) (pending : List (List ℕ)) where
  prefixed_number-Within :
      (valid : ℕ → Bool) (text cs : List ℕ) (p : Position)
      → Within (length cs) (prefixed_number u valid text start cs p pending)
  unfolding prefixed_number
  prefixed_number-Within valid text cs p =
      pick (is_empty (spanned valid cs).0 || next_is (is_word u) (spanned valid cs).1)
    where
      pick :
          (b : Bool)
          → Within (length cs) (
              if b
              then failed "CG1004" start
              else token integer_lit
                  (text ++ (spanned valid cs).0)
                  start
                  (spanned valid cs).1
                  (moved (spanned valid cs).0 p)
                  pending)
      pick true = stopped
      pick false = read (spanned-length valid cs)

  after_exponent-Within :
      (text cs : List ℕ) (p : Position)
      → Within (length cs) (after_exponent u text start cs p pending)
  after_exponent-Within text cs p = pick (next_is u.is_digit cs)
    where
      pick :
          (b : Bool)
          → Within (length cs) (
              if b
              then token float_lit
                  (text ++ (spanned u.is_digit cs).0)
                  start
                  (spanned u.is_digit cs).1
                  (moved (spanned u.is_digit cs).0 p)
                  pending
              else failed "CG1004" start)
      pick true = read (spanned-length u.is_digit cs)
      pick false = stopped

  exponent-Within :
      (f : Bool) (text cs : List ℕ) (p : Position)
      → Within (length cs) (exponent u f text start cs p pending)
  exponent-Within f text [] p = read (omega arith)
  exponent-Within f text (c ∷ []) p = either (c == b'e' || c == b'E') stopped (read (omega arith))
  exponent-Within f text (c ∷ d ∷ cs) p =
      either (c == b'e' || c == b'E')
        (either (is_sign u d)
          (weaker (omega arith)
            (after_exponent-Within (text ++ (c ∷ d ∷ [])) cs (move d (move c p))))
          (weaker (omega arith) (after_exponent-Within (text ++ (c ∷ [])) (d ∷ cs) (move c p))))
        (read (omega arith))

  fraction-Within :
      (p : Position) (whole cs : List ℕ) → Within (length cs) (fraction u start p pending whole cs)
  fraction-Within p whole [] = exponent-Within false whole [] (moved whole p)
  fraction-Within p whole (c ∷ ds) =
      either (c == b'.' && next_is u.is_digit ds)
        (weaker (omega (arith, spanned-length u.is_digit ds))
          (exponent-Within true _ (spanned u.is_digit ds).1 _))
        (exponent-Within false whole (c ∷ ds) (moved whole p))

  fraction-point :
      (c : ℕ) (cs : List ℕ) (p : Position)
      → (c == b'.' && next_is u.is_digit cs) ≡ true
      → Within (length cs) (fraction u start p pending [] (c ∷ cs))
  fraction-point c cs p h =
      chosen _ (c == b'.' && next_is u.is_digit cs) h
        (weaker (spanned-length u.is_digit cs) (exponent-Within true _ (spanned u.is_digit cs).1 _))

  -- A number that starts with a digit or a point takes it.
  decimal_number-Within :
      (c : ℕ) (cs : List ℕ) (p : Position)
      → (u.is_digit c || (c == b'.' && next_is u.is_digit cs)) ≡ true
      → Within (length cs) (decimal_number u start (c ∷ cs) p pending)
  unfolding decimal_number
  decimal_number-Within c cs p h = elim (Bool-cases (u.is_digit c)) [
    | inl d ↦
        weaker (spanned-shorter u.is_digit c cs d)
          (fraction-Within p (spanned u.is_digit (c ∷ cs)).0 (spanned u.is_digit (c ∷ cs)).1)
    | inr d ↦
        let point : (c == b'.' && next_is u.is_digit cs) ≡ true = rw d at h in
        rw d (fraction-point c cs p point)
  ]

  number-Within :
      (c : ℕ) (cs : List ℕ) (p : Position)
      → (u.is_digit c || (c == b'.' && next_is u.is_digit cs)) ≡ true
      → Within (length cs) (number u start (c ∷ cs) p pending)
  unfolding number
  number-Within c [] p h = decimal_number-Within c [] p h
  number-Within c (d ∷ cs) p h =
      either (c == b'0' && is_x u d)
        (weaker (omega arith) (prefixed_number-Within is_hex (c ∷ d ∷ []) cs (move d (move c p))))
        (either (c == b'0' && is_o u d)
          (weaker (omega arith)
            (prefixed_number-Within is_octal (c ∷ d ∷ []) cs (move d (move c p))))
          (decimal_number-Within c (d ∷ cs) p h))

  parameter_name-Within :
      (cs : List ℕ) (p : Position) → Within (length cs) (parameter_name u start cs p pending)
  unfolding parameter_name
  parameter_name-Within cs p = pick (is_empty (spanned (is_word u) cs).0)
    where
      pick :
          (b : Bool)
          → Within (length cs) (
              if b
              then failed "CG1005" start
              else token parameter
                  (spanned (is_word u) cs).0
                  start
                  (spanned (is_word u) cs).1
                  (moved (spanned (is_word u) cs).0 p)
                  pending)
      pick true = stopped
      pick false = read (spanned-length (is_word u) cs)

  word-Within :
      (c : ℕ) (cs : List ℕ) (p : Position)
      → is_word u c ≡ true
      → Within (length cs) (word u start (c ∷ cs) p pending)
  unfolding word
  word-Within c cs p h = pick (keyword_in keywords (u.upper (spanned (is_word u) (c ∷ cs)).0))
    where
      name : List ℕ
      name = (spanned (is_word u) (c ∷ cs)).0

      rest : List ℕ
      rest = (spanned (is_word u) (c ∷ cs)).1

      pick :
          (o : Option TokenKind)
          → Within (length cs) (elim o [
            | some kind ↦
                token kind (word_content u kind (u.upper name)) start rest (moved name p) pending
            | none ↦ token ident name start rest (moved name p) pending
          ])
      pick (some kind) = read (spanned-shorter (is_word u) c cs h)
      pick none = read (spanned-shorter (is_word u) c cs h)

module _ (u : Unicode) (words : (c : ℕ) → u.is_alpha c ≡ true → u.is_alnum c ≡ true) where
  starts_word : (c : ℕ) → (u.is_alpha c || c == b'_') ≡ true → is_word u c ≡ true
  starts_word c h = ground (arith, words c)

  other-Within :
      (c : ℕ) (cs : List ℕ) (p : Position) (pending : List (List ℕ)) (o : Option TokenKind)
      → Within (length cs) (other u c cs p pending o)
  other-Within c cs p pending (some kind) = read (omega arith)
  other-Within c cs p pending none = pick (u.is_alpha c || c == b'_') refl
    where
      pick :
          (b : Bool)
          → (u.is_alpha c || c == b'_') ≡ b
          → Within
              (length cs)
              (elim b [ true ↦ word u p (c ∷ cs) p pending | false ↦ failed "CG1001" p ])
      pick true e = word-Within u p pending c cs p (starts_word c e)
      pick false e = stopped

  operator-Within :
      (c : ℕ) (cs : List ℕ) (p : Position) (pending : List (List ℕ)) (o : Option TokenKind)
      → Within (length cs) (operator u c cs p pending o)
  operator-Within c [] p pending (some kind) = read (omega arith)
  operator-Within c (d ∷ cs) p pending (some kind) = read (omega arith)
  operator-Within c cs p pending none = other-Within c cs p pending (single_operator singles c)

  -- A token that starts with a character takes it.
  pub token_at-Within :
      (c : ℕ) (cs : List ℕ) (p : Position) (pending : List (List ℕ))
      → Within (length cs) (token_at u c cs p pending)
  unfolding token_at
  token_at-Within c cs p pending =
      either (quotes c) (string_body-Within p pending c false [] cs (move c p))
        (pick (starts_number u c cs) refl)
    where
      pick :
          (b : Bool)
          → starts_number u c cs ≡ b
          → Within (length cs) (elim b [
            | true ↦ number u p (c ∷ cs) p pending
            | false ↦ elim (c == b'$') [
              | true ↦ parameter_name u p cs (move c p) pending
              | false ↦ elim (c == b'`') [
                | true ↦ backtick_body false [] p cs (move c p) pending
                | false ↦ operator u c cs p pending (double_at c cs)
              ]
            ]
          ])
      pick true e = number-Within u p pending c cs p e
      pick false e = either (c == b'$') (parameter_name-Within u p pending cs (move c p)) (
          either (c == b'`') (backtick_body-Within p pending false [] cs (move c p))
            (operator-Within c cs p pending (double_at c cs)))
