-- ===== src/Lexer/Total.antt =====
-- `tokenize` ends on every source.
use cypherast.Prelude.{
  ℕ, zero, suc, ◌≡◌, ◌≢◌, ◌≤◌, ◌<◌, refl, Bool, true, false, ◌&&◌, List, [], ◌∷◌, ◌++◌, String,
  ◌==◌, arith, length,
}
use cypherast.Lexer.Tokens.{Token, Position}
use cypherast.Lexer.Characters.{
  Unicode, Outcome, failed, unfinished, scanned, Scan, Skipping, gap, in_line, in_block, past,
  next_is, is, is_blank, start_position,
}
use cypherast.Lexer.Scanners.{skip}
use cypherast.Lexer.{next_token, tokens_from, tokenize, first_token, token_from, is_eof, put}
use cypherast.Lexer.Ends.{Within, stopped, read, token_at-Within}

-- The gap before a token has come to an end.
data Skipped (n : ℕ) : Outcome Scan → Type 0 where
  broken : {code : String} {at : Position} → Skipped n (failed code at)
  left : {s : Scan} → length s.chars ≤ n → Skipped n (scanned s)

longer : {m n : ℕ} {r : Outcome Scan} → m ≤ n → Skipped m r → Skipped n r
longer h broken = broken
longer h (left k) = left (omega arith)

choice :
    {n : ℕ} {r t : Outcome Scan} (b : Bool)
    → Skipped n r
    → Skipped n t
    → Skipped n (elim b [ true ↦ r | false ↦ t ])
choice true h k = h
choice false h k = k

module _ (u : Unicode) where
  skip-Skipped :
      (m : Skipping) (cs : List ℕ) (p : Position) (pending : List (List ℕ))
      → Skipped (length cs) (skip u m cs p pending)
  unfolding skip
  skip-Skipped (in_block start buf) [] p pending = broken
  skip-Skipped (in_line buf) [] p pending = left (omega arith)
  skip-Skipped gap [] p pending = left (omega arith)
  skip-Skipped (past m) [] p pending = left (omega arith)
  skip-Skipped gap (c ∷ cs) p pending =
      choice (is_blank c) (longer (omega arith) (skip-Skipped gap cs _ _)) (
        choice (c == b'/' && next_is (is b'/') cs)
          (longer (omega arith) (skip-Skipped (past (in_line [])) cs _ _))
          (choice (c == b'/' && next_is (is b'*') cs)
            (longer (omega arith) (skip-Skipped (past (in_block p [])) cs _ _))
            (left (omega arith))))
  skip-Skipped (in_line buf) (c ∷ cs) p pending =
      choice (c == 10) (longer (omega arith) (skip-Skipped gap cs _ _))
        (longer (omega arith) (skip-Skipped (in_line (buf ++ (c ∷ []))) cs _ _))
  skip-Skipped (in_block start buf) (c ∷ cs) p pending =
      choice (c == b'*' && next_is (is b'/') cs)
        (longer (omega arith) (skip-Skipped (past gap) cs _ _))
        (longer (omega arith) (skip-Skipped (in_block start (buf ++ (c ∷ []))) cs _ _))
  skip-Skipped (past m) (c ∷ cs) p pending = longer (omega arith) (skip-Skipped m cs _ _)

-- What a call of `next_token` on `n` characters leaves: an error, the end, or fewer characters.
data Next (n : ℕ) : Outcome (Token × Scan) → Type 0 where
  raised : {code : String} {at : Position} → Next n (failed code at)
  ended : {t : Token} {s : Scan} → is_eof t.kind ≡ true → Next n (scanned (t, s))
  taken : {t : Token} {s : Scan} → length s.chars < n → Next n (scanned (t, s))

module _ (u : Unicode) (words : (c : ℕ) → u.is_alpha c ≡ true → u.is_alnum c ≡ true) where
  Next-of_Within : {m n : ℕ} {r : Outcome (Token × Scan)} → m < n → Within m r → Next n r
  Next-of_Within h stopped = raised
  Next-of_Within h (read k) = taken (omega arith)

  first_token-Next : {n : ℕ} (s : Scan) (cs : List ℕ) → length cs ≤ n → Next n (first_token u s cs)
  first_token-Next s [] h = ended refl
  first_token-Next s (c ∷ cs) h =
      Next-of_Within (omega arith) (token_at-Within u words c cs s.at s.pending)

  token_from-Next : {n : ℕ} {r : Outcome Scan} → Skipped n r → Next n (token_from u r)
  token_from-Next broken = raised
  token_from-Next (left {s = s} h) = first_token-Next s s.chars h

  next_token-Next : (s : Scan) → Next (length s.chars) (next_token u s)
  unfolding next_token
  next_token-Next s = token_from-Next (skip-Skipped u gap s.chars s.at s.pending)

  put-finished : (t : Token) (r : Outcome (List Token)) → r ≢ unfinished → put t r ≢ unfinished
  put-finished t (failed code at) h e = cc
  put-finished t unfinished h e = h refl
  put-finished t (scanned ts) h e = cc

  either_way :
      (b : Bool) (t : Token) (r : Outcome (List Token))
      → r ≢ unfinished
      → elim b [ true ↦ scanned (t ∷ []) | false ↦ put t r ] ≢ unfinished
  either_way true t r h e = cc
  either_way false t r h e = put-finished t r h e

  tokens_from-ends : (k : ℕ) (s : Scan) → length s.chars < k → tokens_from u k s ≢ unfinished
  unfolding tokens_from
  tokens_from-ends zero s h = absurd (omega arith)
  tokens_from-ends (suc k) s h =
      after (next_token u s) (next_token-Next s) (λ r l. tokens_from-ends k r (omega arith))
    where
      after :
          (r : Outcome (Token × Scan))
          → Next (length s.chars) r
          → ((r : Scan) → length r.chars < length s.chars → tokens_from u k r ≢ unfinished)
          → elim r [
            | failed code at ↦ failed code at
            | unfinished ↦ unfinished
            | scanned (t, rest) ↦ elim (is_eof t.kind) [
              | true ↦ scanned (t ∷ [])
              | false ↦ put t (tokens_from u k rest)
            ]
          ]
            ≢ unfinished
      after (failed code at) raised below e = cc
      after unfinished n below e = elim n [ ]
      after (scanned (t, rest)) (ended f) below e = let e1 = rw f at e in cc
      after (scanned (t, rest)) (taken l) below e =
          either_way (is_eof t.kind) t (tokens_from u k rest) (below rest l) e

  -- Lexing ends: on every source the lexer gives its tokens or a TokenizeError, where every letter is
  -- alphanumeric, as `str.isalnum` has it.
  pub tokenize-ends : (source : List ℕ) → tokenize u source ≢ unfinished
  unfolding tokenize
  tokenize-ends source =
      tokens_from-ends (suc (length source))
        (record { chars = source; at = start_position; pending = [] }) (omega arith)
