-- ===== src/Lexer/Tokens.antt =====
-- The tokens of cypherast/lexer.py: `TokenKind`, `KEYWORDS` and `Token`. A text is the list of its
-- code points.
use cypherast.Prelude.{
  ℕ, List, [], ◌∷◌, Option, none, some, Bool, true, false, ◌&&◌, ◌==◌, if◌then◌else◌,
}
use cypherast.Prelude.Text.{codes}

pub data TokenKind : Type 0 where
  eof ident parameter string_lit integer_lit float_lit boolean_lit null_lit lparen : TokenKind
  rparen lbracket rbracket lbrace rbrace comma dot colon semicolon pipe dollar eq : TokenKind
  neq lt gt lte gte regex plus minus star slash percent caret dotdot arrow_left : TokenKind
  arrow_right dash match_kw optional_kw where_kw with_kw unwind_kw return_kw as_kw : TokenKind
  order_kw by_kw asc_kw desc_kw skip_kw limit_kw distinct_kw union_kw all_kw : TokenKind
  create_kw merge_kw set_kw delete_kw detach_kw remove_kw foreach_kw on_kw and_kw : TokenKind
  or_kw xor_kw not_kw in_kw is_kw null_kw true_kw false_kw case_kw when_kw then_kw : TokenKind
  else_kw end_kw starts_kw ends_kw contains_kw using_kw index_kw scan_kw join_kw : TokenKind
  call_kw yield_kw exists_kw count_kw collect_kw shortestpath_kw : TokenKind
  allshortestpaths_kw cypher_kw any_kw none_kw single_kw next_kw insert_kw use_kw : TokenKind
  finish_kw filter_kw let_kw for_kw bang amp : TokenKind

abbrev pub keywords : List (List ℕ × TokenKind)
keywords =
    (codes "MATCH", match_kw)
    ∷ (codes "OPTIONAL", optional_kw)
    ∷ (codes "WHERE", where_kw)
    ∷ (codes "WITH", with_kw)
    ∷ (codes "UNWIND", unwind_kw)
    ∷ (codes "RETURN", return_kw)
    ∷ (codes "AS", as_kw)
    ∷ (codes "ORDER", order_kw)
    ∷ (codes "BY", by_kw)
    ∷ (codes "ASC", asc_kw)
    ∷ (codes "ASCENDING", asc_kw)
    ∷ (codes "DESC", desc_kw)
    ∷ (codes "DESCENDING", desc_kw)
    ∷ (codes "SKIP", skip_kw)
    ∷ (codes "LIMIT", limit_kw)
    ∷ (codes "DISTINCT", distinct_kw)
    ∷ (codes "UNION", union_kw)
    ∷ (codes "ALL", all_kw)
    ∷ (codes "ANY", any_kw)
    ∷ (codes "NONE", none_kw)
    ∷ (codes "SINGLE", single_kw)
    ∷ (codes "CREATE", create_kw)
    ∷ (codes "MERGE", merge_kw)
    ∷ (codes "SET", set_kw)
    ∷ (codes "DELETE", delete_kw)
    ∷ (codes "DETACH", detach_kw)
    ∷ (codes "REMOVE", remove_kw)
    ∷ (codes "FOREACH", foreach_kw)
    ∷ (codes "ON", on_kw)
    ∷ (codes "AND", and_kw)
    ∷ (codes "OR", or_kw)
    ∷ (codes "XOR", xor_kw)
    ∷ (codes "NOT", not_kw)
    ∷ (codes "IN", in_kw)
    ∷ (codes "IS", is_kw)
    ∷ (codes "NULL", null_kw)
    ∷ (codes "TRUE", true_kw)
    ∷ (codes "FALSE", false_kw)
    ∷ (codes "CASE", case_kw)
    ∷ (codes "WHEN", when_kw)
    ∷ (codes "THEN", then_kw)
    ∷ (codes "ELSE", else_kw)
    ∷ (codes "END", end_kw)
    ∷ (codes "STARTS", starts_kw)
    ∷ (codes "ENDS", ends_kw)
    ∷ (codes "CONTAINS", contains_kw)
    ∷ (codes "USING", using_kw)
    ∷ (codes "INDEX", index_kw)
    ∷ (codes "SCAN", scan_kw)
    ∷ (codes "JOIN", join_kw)
    ∷ (codes "CALL", call_kw)
    ∷ (codes "CYPHER", cypher_kw)
    ∷ (codes "YIELD", yield_kw)
    ∷ (codes "EXISTS", exists_kw)
    ∷ (codes "COUNT", count_kw)
    ∷ (codes "COLLECT", collect_kw)
    ∷ (codes "SHORTESTPATH", shortestpath_kw)
    ∷ (codes "ALLSHORTESTPATHS", allshortestpaths_kw)
    ∷ (codes "NEXT", next_kw)
    ∷ (codes "INSERT", insert_kw)
    ∷ (codes "USE", use_kw)
    ∷ (codes "FINISH", finish_kw)
    ∷ (codes "FILTER", filter_kw)
    ∷ (codes "LET", let_kw)
    ∷ (codes "FOR", for_kw)
    ∷ []

abbrev pub same_text : List ℕ → List ℕ → Bool
same_text [] [] = true
same_text (a ∷ s) (b ∷ t) = (a == b) && same_text s t
same_text _ _ = false

unfoldable pub keyword_in : List (List ℕ × TokenKind) → List ℕ → Option TokenKind
keyword_in [] s = none
keyword_in ((k, kind) ∷ ks) s = if same_text k s then some kind else keyword_in ks s

-- `Position`: the line and column count from 1, the index from 0
pub record Position : Type 0 where
  pub line : ℕ
  pub column : ℕ
  pub index : ℕ

pub record Token : Type 0 where
  pub kind : TokenKind
  pub content : List ℕ
  pub position : Position
  pub comments : List (List ℕ)
