-- ===== src/Lexer/Scanners.antt =====
-- The scanners of cypherast/lexer.py: `_string`, `_backtick_ident`, `_skip_ws_and_comments`, `_number`,
-- `_parameter` and `_ident_or_keyword`.
use cypherast.Prelude.{
  ℕ, Bool, true, false, ◌&&◌, ◌||◌, List, [], ◌∷◌, ◌++◌, none, some, if◌then◌else◌, ◌==◌, leb,
}
use cypherast.Prelude.Text.{codes}
use cypherast.Lexer.Tokens.{
  TokenKind, Token, Position, keywords, keyword_in, ident, parameter, string_lit, integer_lit,
  float_lit, true_kw, false_kw, null_kw,
}
use cypherast.Lexer.Characters.{
  Unicode, Outcome, failed, scanned, Scan, move, moved, next_is, is, is_blank, Skipping, gap,
  in_line, in_block, past, spanned,
}

-- The character that an escape stands for.
unfoldable pub unescape : ℕ → ℕ
unescape c =
    if c == b'n'
    then 10
    else if c == b't'
    then 9
    else if c == b'r'
    then 13
    else if c == b'b'
    then 8
    else if c == b'f'
    then 12
    else c

abbrev pub token :
    TokenKind
    → List ℕ
    → Position
    → (rest : List ℕ) → Position
    → List (List ℕ)
    → Outcome (Token × Scan)
token kind content start rest at pending = scanned (
  record { kind = kind; content = content; position = start; comments = pending },
  record { chars = rest; at = at; pending = [] },
)

-- `_string` after the opening quote; `escaped` after a backslash
unfoldable pub string_body :
    (quote : ℕ) (escaped : Bool) (buf : List ℕ) (start : Position)
    → List ℕ
    → Position
    → List (List ℕ)
    → Outcome (Token × Scan)
unfolding unescape
string_body quote escaped buf start [] p pending = failed "CG1002" start
string_body quote true buf start (c ∷ cs) p pending =
    string_body quote false (buf ++ (unescape c ∷ [])) start cs (move c p) pending
string_body quote false buf start (c ∷ cs) p pending =
    elim ((c == b'\\') && next_is (λ d. true) cs) [
      | true ↦ string_body quote true buf start cs (move c p) pending
      | false ↦ elim (c == quote) [
        | true ↦ token string_lit buf start cs (move c p) pending
        | false ↦ string_body quote false (buf ++ (c ∷ [])) start cs (move c p) pending
      ]
    ]

-- `_backtick_ident` after the opening backtick; `doubled` before the second of two
unfoldable pub backtick_body :
    (doubled : Bool) (buf : List ℕ) (start : Position)
    → List ℕ
    → Position
    → List (List ℕ)
    → Outcome (Token × Scan)
backtick_body doubled buf start [] p pending = failed "CG1002" start
backtick_body true buf start (c ∷ cs) p pending =
    backtick_body false (buf ++ (b'`' ∷ [])) start cs (move c p) pending
backtick_body false buf start (c ∷ cs) p pending = elim (c == b'`') [
  | true ↦ elim (next_is (is b'`') cs) [
    | true ↦ backtick_body true buf start cs (move c p) pending
    | false ↦ token ident buf start cs (move c p) pending
  ]
  | false ↦ backtick_body false (buf ++ (c ∷ [])) start cs (move c p) pending
]

abbrev pub is_hex : ℕ → Bool
is_hex c = (leb b'0' c && leb c b'9') || ((leb b'a' c && leb c b'f') || (leb b'A' c && leb c b'F'))

abbrev pub is_octal : ℕ → Bool
is_octal c = leb b'0' c && leb c b'7'

abbrev pub is_empty : List ℕ → Bool
is_empty [] = true
is_empty (c ∷ cs) = false

module _ (u : Unicode) where
  open u use {is_digit, is_alpha, is_alnum, upper, rstrip}

  abbrev pub is_word : ℕ → Bool
  is_word c = is_alnum c || c == b'_'

  -- `_skip_ws_and_comments`
  unfoldable pub skip : Skipping → List ℕ → Position → (pending : List (List ℕ)) → Outcome Scan
  skip (in_block start buf) [] p pending = failed "CG1003" start
  skip (in_line buf) [] p pending =
      scanned (record { chars = []; at = p; pending = pending ++ (rstrip buf ∷ []) })
  skip _ [] p pending = scanned (record { chars = []; at = p; pending = pending })
  skip gap (c ∷ cs) p pending = elim (is_blank c) [
    | true ↦ skip gap cs (move c p) pending
    | false ↦ elim (c == b'/' && next_is (is b'/') cs) [
      | true ↦ skip (past (in_line [])) cs (move c p) pending
      | false ↦ elim (c == b'/' && next_is (is b'*') cs) [
        | true ↦ skip (past (in_block p [])) cs (move c p) pending
        | false ↦ scanned (record { chars = c ∷ cs; at = p; pending = pending })
      ]
    ]
  ]
  skip (in_line buf) (c ∷ cs) p pending = elim (c == 10) [
    | true ↦ skip gap cs (move c p) (pending ++ (rstrip buf ∷ []))
    | false ↦ skip (in_line (buf ++ (c ∷ []))) cs (move c p) pending
  ]
  skip (in_block start buf) (c ∷ cs) p pending = elim (c == b'*' && next_is (is b'/') cs) [
    | true ↦ skip (past gap) cs (move c p) (pending ++ (buf ∷ []))
    | false ↦ skip (in_block start (buf ++ (c ∷ []))) cs (move c p) pending
  ]
  skip (past m) (c ∷ cs) p pending = skip m cs (move c p) pending

  -- `_number` in base 16 or 8; `text` is the prefix
  unfoldable pub prefixed_number :
      (valid : ℕ → Bool) (text : List ℕ) (start : Position)
      → List ℕ
      → Position
      → List (List ℕ)
      → Outcome (Token × Scan)
  prefixed_number valid text start cs p pending =
      let (digits, rest) = spanned valid cs in
      if is_empty digits || next_is is_word rest
      then failed "CG1004" start
      else token integer_lit (text ++ digits) start rest (moved digits p) pending

  -- The exponent, after what has been read of the number.
  abbrev pub after_exponent :
      (text : List ℕ) (start : Position)
      → List ℕ
      → Position
      → List (List ℕ)
      → Outcome (Token × Scan)
  after_exponent text start cs p pending =
      let (digits, rest) = spanned is_digit cs in
      if next_is is_digit cs
      then token float_lit (text ++ digits) start rest (moved digits p) pending
      else failed "CG1004" start

  abbrev pub is_sign : ℕ → Bool
  is_sign c = c == b'+' || c == b'-'

  abbrev pub exponent :
      (is_float : Bool) (text : List ℕ) (start : Position)
      → List ℕ
      → Position
      → List (List ℕ)
      → Outcome (Token × Scan)
  exponent is_float text start [] p pending =
      token (if is_float then float_lit else integer_lit) text start [] p pending
  exponent is_float text start (c ∷ cs) p pending = elim (c == b'e' || c == b'E') [
    | true ↦ signed cs
    | false ↦ token (if is_float then float_lit else integer_lit) text start (c ∷ cs) p pending
  ]
    where
      signed : List ℕ → Outcome (Token × Scan)
      signed [] = failed "CG1004" start
      signed (d ∷ ds) = elim (is_sign d) [
        | true ↦ after_exponent (text ++ (c ∷ d ∷ [])) start ds (move d (move c p)) pending
        | false ↦ after_exponent (text ++ (c ∷ [])) start (d ∷ ds) (move c p) pending
      ]

  -- What follows the digits before the point.
  abbrev pub fraction :
      (start : Position)
      → Position
      → List (List ℕ)
      → (whole : List ℕ) → List ℕ
      → Outcome (Token × Scan)
  fraction start p pending whole [] = exponent false whole start [] (moved whole p) pending
  fraction start p pending whole (c ∷ ds) = elim (c == b'.' && next_is is_digit ds) [
    | true ↦
        let (digits, rest) = spanned is_digit ds in
        exponent true (whole ++ (c ∷ digits)) start rest (moved (whole ++ (c ∷ digits)) p) pending
    | false ↦ exponent false whole start (c ∷ ds) (moved whole p) pending
  ]

  -- `_number` in base 10: digits, a fraction, an exponent
  unfoldable pub decimal_number :
      (start : Position) → List ℕ → Position → List (List ℕ) → Outcome (Token × Scan)
  decimal_number start cs p pending =
      let (whole, rest) = spanned is_digit cs in fraction start p pending whole rest

  abbrev pub is_x : ℕ → Bool
  is_x c = c == b'x' || c == b'X'

  abbrev pub is_o : ℕ → Bool
  is_o c = c == b'o' || c == b'O'

  -- `_number`
  unfoldable pub number :
      (start : Position) → List ℕ → Position → List (List ℕ) → Outcome (Token × Scan)
  unfolding prefixed_number decimal_number
  number start (c ∷ d ∷ cs) p pending = elim (c == b'0' && is_x d) [
    | true ↦ prefixed_number is_hex (c ∷ d ∷ []) start cs (move d (move c p)) pending
    | false ↦ elim (c == b'0' && is_o d) [
      | true ↦ prefixed_number is_octal (c ∷ d ∷ []) start cs (move d (move c p)) pending
      | false ↦ decimal_number start (c ∷ d ∷ cs) p pending
    ]
  ]
  number start cs p pending = decimal_number start cs p pending

  -- `_parameter` after the dollar sign
  unfoldable pub parameter_name :
      (start : Position) → List ℕ → Position → List (List ℕ) → Outcome (Token × Scan)
  parameter_name start cs p pending =
      let (name, rest) = spanned is_word cs in
      if is_empty name
      then failed "CG1005" start
      else token parameter name start rest (moved name p) pending

  abbrev pub word_content : TokenKind → List ℕ → List ℕ
  word_content true_kw word = codes "true"
  word_content false_kw word = codes "false"
  word_content null_kw word = codes "null"
  word_content kind word = word

  -- `_ident_or_keyword`
  unfoldable pub word :
      (start : Position) → List ℕ → Position → List (List ℕ) → Outcome (Token × Scan)
  unfolding keyword_in
  word start cs p pending =
      let (name, rest) = spanned is_word cs in
      elim (keyword_in keywords (upper name)) [
        | some kind ↦ token kind (word_content kind (upper name)) start rest (moved name p) pending
        | none ↦ token ident name start rest (moved name p) pending
      ]
