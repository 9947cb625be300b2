-- ===== src/Lexer.antt =====
-- cypherast/lexer.py: `next_token` and `tokenize`. A scanner takes the characters that are left and the
-- position of the first; it returns what it has read, or the code and the position of its
-- TokenizeError. What Python's `str` says of a character is the parameter `Unicode`.
pub mod Tokens
pub mod Characters
pub mod Scanners
pub mod Quoting
pub mod Ends
pub mod Total
mod Examples
use cypherast.Prelude.{
  ℕ, zero, suc, ◌+◌, String, Bool, true, false, not, ◌&&◌, ◌||◌, List, [], ◌∷◌, ◌++◌, Option, none,
  some, if◌then◌else◌, ◌==◌, leb, length,
}
use cypherast.Prelude.Text.{codes}
use cypherast.Lexer.Tokens.{
  TokenKind, Token, Position, keywords, keyword_in, eof, ident, parameter, string_lit, integer_lit,
  float_lit, lparen, rparen, lbracket, rbracket, lbrace, rbrace, comma, dot, colon, semicolon, pipe,
  eq, neq, lt, gt, lte, gte, regex, plus, minus, star, slash, percent, caret, dotdot, arrow_left,
  arrow_right, bang, amp, true_kw, false_kw, null_kw,
}
use cypherast.Lexer.Characters.{
  Unicode, Outcome, failed, unfinished, scanned, Scan, move, moved, start_position, next_is, is,
  is_blank, Skipping, gap, in_line, in_block, past, spanned,
}
use cypherast.Lexer.Scanners.{string_body, backtick_body, skip, number, parameter_name, word, token}

-- The operators of two characters.
unfoldable pub double_operator : ℕ → ℕ → Option TokenKind
double_operator c d =
    if c == b'<' && d == b'>'
    then some neq
    else if c == b'<' && d == b'='
    then some lte
    else if c == b'>' && d == b'='
    then some gte
    else if c == b'=' && d == b'~'
    then some regex
    else if c == b'<' && d == b'-'
    then some arrow_left
    else if c == b'-' && d == b'>'
    then some arrow_right
    else if c == b'.' && d == b'.'
    then some dotdot
    else if c == b'!' && d == b'='
    then some neq
    else none

abbrev singles : List (ℕ × TokenKind)
singles =
    (b'!', bang)
    ∷ (b'(', lparen)
    ∷ (b')', rparen)
    ∷ (b'[', lbracket)
    ∷ (b']', rbracket)
    ∷ (b'{', lbrace)
    ∷ (b'}', rbrace)
    ∷ (b',', comma)
    ∷ (b'.', dot)
    ∷ (b':', colon)
    ∷ (b';', semicolon)
    ∷ (b'|', pipe)
    ∷ (b'=', eq)
    ∷ (b'<', lt)
    ∷ (b'>', gt)
    ∷ (b'+', plus)
    ∷ (b'-', minus)
    ∷ (b'*', star)
    ∷ (b'/', slash)
    ∷ (b'%', percent)
    ∷ (b'^', caret)
    ∷ (b'&', amp)
    ∷ []

unfoldable pub single_operator : List (ℕ × TokenKind) → ℕ → Option TokenKind
single_operator [] c = none
single_operator ((d, kind) ∷ ds) c = if d == c then some kind else single_operator ds c

abbrev double_at : ℕ → List ℕ → Option TokenKind
double_at c [] = none
double_at c (d ∷ cs) = double_operator c d

abbrev without_first : List ℕ → List ℕ
without_first [] = []
without_first (c ∷ cs) = cs

abbrev first_moved : List ℕ → Position → Position
first_moved [] p = p
first_moved (c ∷ cs) p = move c p

abbrev pair_of : ℕ → List ℕ → List ℕ
pair_of c [] = c ∷ []
pair_of c (d ∷ cs) = c ∷ d ∷ []

abbrev quotes : ℕ → Bool
quotes c = c == 39 || c == b'"'

abbrev is_eof : TokenKind → Bool
is_eof eof = true
is_eof _ = false

abbrev put : Token → Outcome (List Token) → Outcome (List Token)
put t (scanned ts) = scanned (t ∷ ts)
put t r = r

module _ (u : Unicode) where
  open u use {is_digit, is_alpha}

  abbrev starts_number : ℕ → List ℕ → Bool
  starts_number c cs = is_digit c || (c == b'.' && next_is is_digit cs)

  -- An operator of one character, or a word.
  abbrev other : ℕ → List ℕ → Position → List (List ℕ) → Option TokenKind → Outcome (Token × Scan)
  other c cs p pending (some kind) = token kind (c ∷ []) p cs (move c p) pending
  other c cs p pending none = elim (is_alpha c || c == b'_') [
    | true ↦ word u p (c ∷ cs) p pending
    | false ↦ failed "CG1001" p
  ]

  -- An operator of two characters, or what starts with one.
  abbrev operator :
      ℕ → List ℕ → Position → List (List ℕ) → Option TokenKind → Outcome (Token × Scan)
  operator c cs p pending (some kind) =
      token kind (pair_of c cs) p (without_first cs) (first_moved cs (move c p)) pending
  operator c cs p pending none = other c cs p pending (single_operator singles c)

  -- The token that starts with `c`.
  unfoldable pub token_at : ℕ → List ℕ → Position → List (List ℕ) → Outcome (Token × Scan)
  unfolding string_body backtick_body number parameter_name word double_operator single_operator
  token_at c cs p pending = elim (quotes c) [
    | true ↦ string_body c false [] p cs (move c p) pending
    | false ↦ elim (starts_number c cs) [
      | true ↦ number u p (c ∷ cs) p pending
      | false ↦ elim (c == b'$') [
        | true ↦ parameter_name u p cs (move c p) pending
        | false ↦ elim (c == b'`') [
          | true ↦ backtick_body false [] p cs (move c p) pending
          | false ↦ operator c cs p pending (double_at c cs)
        ]
      ]
    ]
  ]

  -- EOF, or the token at the first character.
  abbrev first_token : Scan → List ℕ → Outcome (Token × Scan)
  first_token s [] = token eof [] s.at [] s.at s.pending
  first_token s (c ∷ cs) = token_at c cs s.at s.pending

  abbrev token_from : Outcome Scan → Outcome (Token × Scan)
  token_from (failed code at) = failed code at
  token_from unfinished = unfinished
  token_from (scanned s) = first_token s s.chars

  -- `next_token`
  unfoldable pub next_token : Scan → Outcome (Token × Scan)
  unfolding skip token_at
  next_token s = token_from (skip u gap s.chars s.at s.pending)

  -- `tokenize`, with as many tokens as the fuel at most
  unfoldable pub tokens_from : (fuel : ℕ) → Scan → Outcome (List Token)
  unfolding next_token
  tokens_from zero s = unfinished
  tokens_from (suc k) s = elim (next_token s) [
    | failed code at ↦ failed code at
    | unfinished ↦ unfinished
    | scanned (t, rest) ↦ elim (is_eof t.kind) [
      | true ↦ scanned (t ∷ [])
      | false ↦ put t (tokens_from k rest)
    ]
  ]

  unfoldable pub tokenize : List ℕ → Outcome (List Token)
  unfolding tokens_from
  tokenize source =
      tokens_from (suc (length source))
        (record { chars = source; at = start_position; pending = [] })
