-- ===== src/Lexer/Quoting.antt =====
-- What `render_String` and `_identifier` of cypherast/renderer.py quote, the lexer reads back.
use cypherast.Prelude.{
  ℕ, ◌≡◌, refl, ap, ◌∙◌, false, List, [], ◌∷◌, ◌++◌, if◌then◌else◌, ◌==◌, ==_iff, arith, Bool-cases,
  inl, inr,
}
use mathlib.Core.List.{append_assoc, append-nil}
use cypherast.Lexer.Tokens.{Token, Position, ident, string_lit}
use cypherast.Lexer.Characters.{Unicode, Outcome, scanned, Scan, move, moved, next_is, is}
use cypherast.Lexer.Scanners.{string_body, backtick_body, unescape}
use cypherast.Lexer.{token_at}

-- s.replace(c, new) for one character
unfoldable pub replace : ℕ → (new : List ℕ) → List ℕ → List ℕ
replace c new [] = []
replace c new (d ∷ s) = let rest = replace c new s in if d == c then new ++ rest else d ∷ rest

-- `render_String`, without the opening quote
unfoldable pub render_string : List ℕ → List ℕ
unfolding replace
render_string s =
    replace 9 (b'\\' ∷ b't' ∷ []) (
      replace 10 (b'\\' ∷ b'n' ∷ [])
        (replace 39 (b'\\' ∷ 39 ∷ []) (replace b'\\' (b'\\' ∷ b'\\' ∷ []) s)))
    ++ (39 ∷ [])

-- `_identifier` of a name that is not plain, without the opening backtick
unfoldable pub quoted_name : List ℕ → List ℕ
unfolding replace
quoted_name s = replace b'`' (b'`' ∷ b'`' ∷ []) s ++ (b'`' ∷ [])

-- The escape of one character.
abbrev escape : ℕ → List ℕ
escape c =
    if c == b'\\'
    then b'\\' ∷ b'\\' ∷ []
    else if c == 39
    then b'\\' ∷ 39 ∷ []
    else if c == 10
    then b'\\' ∷ b'n' ∷ []
    else if c == 9
    then b'\\' ∷ b't' ∷ []
    else c ∷ []

abbrev escaped_all : List ℕ → List ℕ
escaped_all [] = []
escaped_all (c ∷ s) = escape c ++ escaped_all s

escape-plain :
    (c : ℕ)
    → (c == b'\\') ≡ false
    → (c == 39) ≡ false
    → (c == 10) ≡ false
    → (c == 9) ≡ false
    → escape c ≡ c ∷ []
escape-plain c a b d f = rw (a, b, d, f)

-- The four replacements one after the other are one of each character.
render-escaped : (s : List ℕ) → render_string s ≡ escaped_all s ++ (39 ∷ [])
unfolding render_string replace
render-escaped [] = refl
render-escaped (c ∷ s) = ground (arith, render-escaped s)

module _ (p : Position) (pending : List (List ℕ)) where
  abbrev read_string : List ℕ → List ℕ → Position → Outcome (Token × Scan)
  read_string content rest at = scanned (
    record { kind = string_lit; content = content; position = p; comments = pending },
    record { chars = rest; at = at; pending = [] },
  )

  Reads : List ℕ → Type 0
  Reads s =
      (buf rest : List ℕ) (at : Position)
      → string_body 39 false buf p (escaped_all s ++ (39 ∷ rest)) at pending
        ≡ read_string (buf ++ s) rest (moved (escaped_all s ++ (39 ∷ [])) at)

  -- After one more character of the text.
  further :
      (c : ℕ) (s : List ℕ)
      → Reads s
      → (buf rest : List ℕ) (at : Position)
      → string_body 39 false (buf ++ (c ∷ [])) p (escaped_all s ++ (39 ∷ rest)) at pending
        ≡ read_string (buf ++ (c ∷ s)) rest (moved (escaped_all s ++ (39 ∷ [])) at)
  unfolding Reads
  further c s ih buf rest at =
      ih (buf ++ (c ∷ [])) rest at
      ∙ ap (λ t. read_string t rest (moved (escaped_all s ++ (39 ∷ [])) at))
          (append_assoc buf (c ∷ []) s)

  plain-body :
      (c : ℕ) (buf cs : List ℕ) (at : Position)
      → (c == b'\\') ≡ false
      → (c == 39) ≡ false
      → string_body 39 false buf p (c ∷ cs) at pending
        ≡ string_body 39 false (buf ++ (c ∷ [])) p cs (move c at) pending
  unfolding string_body
  plain-body c buf cs at a b = ground arith

  Reads-cons : (c : ℕ) (s : List ℕ) → Reads s → Reads (c ∷ s)
  unfolding Reads string_body unescape
  Reads-cons c s ih buf rest at = elim (Bool-cases (c == b'\\')) [
    | inl a ↦
        let e : c ≡ b'\\' = (==_iff c b'\\').0 a in
        rw e (further b'\\' s ih buf rest (move b'\\' (move b'\\' at)))
    | inr a ↦ elim (Bool-cases (c == 39)) [
      | inl b ↦
          let e : c ≡ 39 = (==_iff c 39).0 b in
          rw e (further 39 s ih buf rest (move 39 (move b'\\' at)))
      | inr b ↦ elim (Bool-cases (c == 10)) [
        | inl d ↦
            let e : c ≡ 10 = (==_iff c 10).0 d in
            rw e (further 10 s ih buf rest (move b'n' (move b'\\' at)))
        | inr d ↦ elim (Bool-cases (c == 9)) [
          | inl f ↦
              let e : c ≡ 9 = (==_iff c 9).0 f in
              rw e (further 9 s ih buf rest (move b't' (move b'\\' at)))
          | inr f ↦ rw (escape-plain c a b d f) (
              plain-body c buf (escaped_all s ++ (39 ∷ rest)) at a b
              ∙ further c s ih buf rest (move c at))
        ]
      ]
    ]
  ]

  body-escaped : (s : List ℕ) → Reads s
  unfolding Reads string_body
  body-escaped [] buf rest at = rw append-nil
  body-escaped (c ∷ s) buf rest at = Reads-cons c s (body-escaped s) buf rest at

module _ (u : Unicode) (p : Position) (pending : List (List ℕ)) where
  -- A string that `render_String` has quoted is read back as one token with the same text, wherever it
  -- stands, whatever follows it, and nothing that follows is read.
  pub token_at-render_string :
      (s rest : List ℕ)
      → token_at u 39 (render_string s ++ rest) p pending
        ≡ scanned (
          record { kind = string_lit; content = s; position = p; comments = pending },
          record { chars = rest; at = moved (39 ∷ render_string s) p; pending = [] },
        )
  unfolding token_at Reads
  token_at-render_string s rest =
      rw (render-escaped s) (rw append_assoc (body-escaped p pending s [] rest (move 39 p)))

module _ (p : Position) (pending : List (List ℕ)) (rest : List ℕ)
    (ends : next_is (is b'`') rest ≡ false) where
  abbrev doubled : List ℕ → List ℕ
  doubled s = replace b'`' (b'`' ∷ b'`' ∷ []) s

  abbrev read_name : List ℕ → Position → Outcome (Token × Scan)
  read_name content at = scanned (
    record { kind = ident; content = content; position = p; comments = pending },
    record { chars = rest; at = at; pending = [] },
  )

  name-doubled :
      (s buf : List ℕ) (at : Position)
      → backtick_body false buf p (doubled s ++ (b'`' ∷ rest)) at pending
        ≡ read_name (buf ++ s) (moved (doubled s ++ (b'`' ∷ [])) at)
  unfolding backtick_body replace
  name-doubled [] buf at = ground (arith, append-nil buf)
  name-doubled (c ∷ s) buf at =
      let further_name = (λ (d : ℕ) (at : Position).
        name-doubled s (buf ++ (d ∷ [])) at
        ∙ ap (λ t. read_name t (moved (doubled s ++ (b'`' ∷ [])) at))
            (append_assoc buf (d ∷ []) s)) in
      elim (Bool-cases (c == b'`')) [
        | inl a ↦
            let e : c ≡ b'`' = (==_iff c b'`').0 a in
            rw e (further_name b'`' (move b'`' (move b'`' at)))
        | inr a ↦ ground (arith, further_name c (move c at))
      ]

-- A name that `_identifier` has quoted is read back as one IDENT with the same text, whatever follows
-- it but a backtick, and nothing that follows is read; a backtick is no digit.
pub token_at-quoted_name :
    (u : Unicode) (p : Position) (pending : List (List ℕ)) (s rest : List ℕ)
    → u.is_digit b'`' ≡ false
    → next_is (is b'`') rest ≡ false
    → token_at u b'`' (quoted_name s ++ rest) p pending
      ≡ scanned (
        record { kind = ident; content = s; position = p; comments = pending },
        record { chars = rest; at = moved (b'`' ∷ quoted_name s) p; pending = [] },
      )
unfolding token_at quoted_name
token_at-quoted_name u p pending s rest digit ends =
    rw (digit, token_at) (rw append_assoc (name-doubled p pending rest ends s [] (move b'`' p)))
