-- ===== src/Lexer/Characters.antt =====
-- The characters of cypherast/lexer.py: what the lexer asks of them, `_advance`, `_peek` and `_pos`,
-- and what a scanner leaves.
use cypherast.Prelude.{ℕ, ◌+◌, String, Bool, false, ◌||◌, List, [], ◌∷◌, if◌then◌else◌, ◌==◌}
use cypherast.Lexer.Tokens.{Position}

-- str.isdigit, str.isalpha and str.isalnum of one character; str.upper and str.rstrip of a text
pub record Unicode : Type 0 where
  pub is_digit : ℕ → Bool
  pub is_alpha : ℕ → Bool
  pub is_alnum : ℕ → Bool
  pub upper : List ℕ → List ℕ
  pub rstrip : List ℕ → List ℕ

pub data Outcome {ℓ} (A : Type ℓ) : Type ℓ where
  failed : (code : String) → Position → Outcome A
  unfinished : Outcome A
  scanned : A → Outcome A

-- What is left of the source, with the comments that the next token takes.
pub record Scan : Type 0 where
  pub chars : List ℕ
  pub at : Position
  pub pending : List (List ℕ)

-- `_advance` over one character
abbrev pub move : ℕ → Position → Position
move c p =
    if c == 10
    then record { line = p.line + 1; column = 1; index = p.index + 1 }
    else record { line = p.line; column = p.column + 1; index = p.index + 1 }

abbrev pub moved : List ℕ → Position → Position
moved [] p = p
moved (c ∷ cs) p = moved cs (move c p)

abbrev pub start_position : Position
start_position = record { line = 1; column = 1; index = 0 }

abbrev pub next_is : (ℕ → Bool) → List ℕ → Bool
next_is p [] = false
next_is p (c ∷ cs) = p c

abbrev pub is : ℕ → ℕ → Bool
is c d = c == d

abbrev pub is_blank : ℕ → Bool
is_blank c = c == b' ' || (c == 9 || (c == 13 || c == 10))

-- Where `_skip_ws_and_comments` stands: between tokens, in a comment with what it has read, or before
-- a character that is passed over.
pub data Skipping : Type 0 where
  gap : Skipping
  in_line : List ℕ → Skipping
  in_block : Position → List ℕ → Skipping
  past : Skipping → Skipping

-- The characters from the front that satisfy the test, and the others.
abbrev pub spanned : (ℕ → Bool) → List ℕ → List ℕ × List ℕ
spanned p [] = ([], [])
spanned p (c ∷ cs) =
    let (front, back) = spanned p cs in if p c then (c ∷ front, back) else ([], c ∷ cs)
