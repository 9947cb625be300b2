-- ===== src/Lexer/Examples.antt =====
-- The lexer on small sources, with the characters of ASCII.
use cypherast.Prelude.{
  ℕ, ◌≡◌, ◌≢◌, refl, Bool, true, ◌&&◌, ◌||◌, List, [], ◌∷◌, ◌++◌, if◌then◌else◌, leb, map, arith,
}
use Prim.Native.Nat.{◌-◌}
use cypherast.Prelude.Text.{codes}
use cypherast.Lexer.Tokens.{Token, ident, string_lit}
use cypherast.Lexer.Characters.{Unicode, Outcome, scanned, unfinished, moved, start_position}
use cypherast.Lexer.{token_at, tokenize}
use cypherast.Lexer.Quoting.{
  render_string, quoted_name, token_at-render_string, token_at-quoted_name,
}
use cypherast.Lexer.Total.{tokenize-ends}

abbrev digit : ℕ → Bool
digit c = leb b'0' c && leb c b'9'

abbrev letter : ℕ → Bool
letter c = (leb b'a' c && leb c b'z') || (leb b'A' c && leb c b'Z')

abbrev upper_code : ℕ → ℕ
upper_code c = if leb b'a' c && leb c b'z' then c - 32 else c

abbrev ascii : Unicode
ascii = record {
  is_digit = digit;
  is_alpha = letter;
  is_alnum = λ c. letter c || digit c;
  upper = map upper_code;
  rstrip = λ s. s;
}

letters_count : (c : ℕ) → ascii.is_alpha c ≡ true → ascii.is_alnum c ≡ true
letters_count c h = ground arith

abbrev small_query : List ℕ
small_query = codes "MATCH (n) // all"

tokenize-ends_example : tokenize ascii small_query ≢ unfinished
tokenize-ends_example = tokenize-ends ascii letters_count small_query

-- it's
abbrev quoted : List ℕ
quoted = codes "it's\\"

token_at-render_string_example :
    token_at ascii 39 (render_string quoted ++ codes " x") start_position []
    ≡ scanned (
      record { kind = string_lit; content = quoted; position = start_position; comments = [] },
      record {
        chars = codes " x";
        at = moved (39 ∷ render_string quoted) start_position;
        pending = [];
      },
    )
token_at-render_string_example = token_at-render_string ascii start_position [] quoted (codes " x")

abbrev odd_name : List ℕ
odd_name = codes "a `b`"

token_at-quoted_name_example :
    token_at ascii b'`' (quoted_name odd_name ++ codes ".x") start_position []
    ≡ scanned (
      record { kind = ident; content = odd_name; position = start_position; comments = [] },
      record {
        chars = codes ".x";
        at = moved (b'`' ∷ quoted_name odd_name) start_position;
        pending = [];
      },
    )
token_at-quoted_name_example =
    token_at-quoted_name ascii start_position [] odd_name (codes ".x") refl refl

abbrev kinds : Outcome (List Token) → List (List ℕ)
kinds (scanned ts) = map (λ t. t.content) ts
kinds _ = []

small_tokens :
    kinds (tokenize ascii small_query) ≡ codes "MATCH" ∷ codes "(" ∷ codes "n" ∷ codes ")" ∷ [] ∷ []
unfolding tokenize
small_tokens = refl
