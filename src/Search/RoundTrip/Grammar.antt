-- ===== src/Search/RoundTrip/Grammar.antt =====
-- Queries as they are written, by the grammar in the comments of
-- components/shared/Search/queryParser.ts, and one condition of them in `Parser`.
use otel_desktop_viewer.Prelude.{
  ℕ, suc, ◌≡◌, refl, Text, codes, text_eq, Bool, true, false, ◌||◌, if◌then◌else◌, List, [], ◌∷◌,
  map, some,
}
use otel_desktop_viewer.Search.Query.{
  Operator, equals, not_equals, greater_than, less_than, greater_than_or_equal, less_than_or_equal,
  regex, contains, not_contains, starts_with, ends_with, in_set, not_in_set, symbol,
  FieldDefinition, Query, LogicalOperator, and_op, or_op, QueryNode, condition, group, pair,
}
use otel_desktop_viewer.Search.Messages.{
  Token, token, field, operator, value, logical, lparen, rparen, lbracket, rbracket, comma,
}
use otel_desktop_viewer.Search.Lexer.{upper_char, to_upper_case}
use otel_desktop_viewer.Search.Parser.{
  parsed, is_type, find_field, find_operator, is_global, allows, brackets, array_rest, parse_array,
  parse_value, parse_operator, parse_condition, finish_condition, logical_of,
}

-- A value: a literal, or a bare word, which the lexer takes for a field.
pub data Word : Type 0 where
  literal bare : Text → Word

abbrev pub word_text : Word → Text
word_text (literal v) = v
word_text (bare v) = v

abbrev pub word_token : ℕ → Word → Token
word_token p (literal v) = token value v p
word_token p (bare v) = token field v p

-- `value → VALUE | "[" ( VALUE ( "," VALUE )* )? "]"`
pub data Written : Type 0 where
  single : Word → Written
  several : List Word → Written

-- The numbers are the positions of the tokens. An expression is a chain of terms.
mutual
  pub data Term : Type 0 where
    comparison : ℕ → Text → FieldDefinition → Operator → Written → Term
    parenthesised : ℕ → Expr → Term

  pub data Expr : Type 0 where
    first : Term → Expr
    chained : Expr → LogicalOperator → ℕ → Term → Expr

abbrev pub logical_text : LogicalOperator → Text
logical_text and_op = codes "AND"
logical_text or_op = codes "OR"

-- The values behind the first one.
abbrev pub print_rest : ℕ → List Word → List Token → List Token
print_rest p [] rest = token rbracket (codes "]") p ∷ rest
print_rest p (w ∷ ws) rest = token comma (codes ",") p ∷ word_token p w ∷ print_rest p ws rest

abbrev pub print_written : ℕ → Written → List Token → List Token
print_written p (single w) rest = word_token p w ∷ rest
print_written p (several []) rest =
    token lbracket (codes "[") p ∷ token rbracket (codes "]") p ∷ rest
print_written p (several (w ∷ ws)) rest =
    token lbracket (codes "[") p ∷ word_token p w ∷ print_rest p ws rest

-- `term → condition | "(" expression ")"` and `expression → term ( ( "AND" | "OR" ) term )*`, in
-- front of other tokens.
unfoldable mutual
  pub print_term : Term → List Token → List Token
  print_term (comparison p name fld op w) rest =
      token field name p ∷ token operator (symbol op) p ∷ print_written p w rest
  print_term (parenthesised p e) rest =
      token lparen (codes "(") p ∷ print_expr e (token rparen (codes ")") p ∷ rest)

  pub print_expr : Expr → List Token → List Token
  print_expr (first t) rest = print_term t rest
  print_expr (chained e op p t) rest =
      print_expr e (token logical (logical_text op) p ∷ print_term t rest)

unfoldable pub print_expression : Expr → List Token
unfolding print_expr
print_expression e = print_expr e []

-- A value that is spelled like null is read as NULL, and an array as its text in brackets.
abbrev pub is_null : Text → Bool
is_null v = text_eq (to_upper_case v) (codes "NULL") || text_eq (to_upper_case v) (codes "NIL")

abbrev pub written_text : Written → Text
written_text (single w) = if is_null (word_text w) then codes "NULL" else word_text w
written_text (several ws) = brackets (map word_text ws)

abbrev pub written_query : FieldDefinition → Operator → Written → Query
written_query fld op w = record { field = fld; operator = op; value = written_text w }

-- The names find the fields, which are not global and allow the operators.
abbrev mutual
  pub IsValidTerm : List FieldDefinition → Term → Type 0
  IsValidTerm fields (comparison p name fld op w) =
      (find_field fields name ≡ some fld) × ((is_global fld ≡ false) × (allows fld op ≡ true))
  IsValidTerm fields (parenthesised p e) = IsValidExpr fields e

  pub IsValidExpr : List FieldDefinition → Expr → Type 0
  IsValidExpr fields (first t) = IsValidTerm fields t
  IsValidExpr fields (chained e op p t) = IsValidExpr fields e × IsValidTerm fields t

-- The tree is the written query, whatever the ids of its nodes: a chain groups from the left.
abbrev mutual
  pub ReadsTerm : QueryNode → Term → Type 0
  ReadsTerm tree (comparison p name fld op w) =
      (n : ℕ) × (tree ≡ condition n (written_query fld op w))
  ReadsTerm tree (parenthesised p e) = ReadsExpr tree e

  pub ReadsExpr : QueryNode → Expr → Type 0
  ReadsExpr tree (first t) = ReadsTerm tree t
  ReadsExpr tree (chained e op p t) =
      (n : ℕ) × ((a : QueryNode) × ((b : QueryNode) × ((tree ≡ group n op (pair a b))
            × (ReadsExpr a e × ReadsTerm b t))))

find_operator-symbol : (op : Operator) → find_operator (symbol op) ≡ some op
unfolding find_operator symbol text_eq
find_operator-symbol equals = refl
find_operator-symbol not_equals = refl
find_operator-symbol greater_than = refl
find_operator-symbol less_than = refl
find_operator-symbol greater_than_or_equal = refl
find_operator-symbol less_than_or_equal = refl
find_operator-symbol regex = refl
find_operator-symbol contains = refl
find_operator-symbol not_contains = refl
find_operator-symbol starts_with = refl
find_operator-symbol ends_with = refl
find_operator-symbol in_set = refl
find_operator-symbol not_in_set = refl

pub logical_of-text :
    (op : LogicalOperator) (p : ℕ) → logical_of (token logical (logical_text op) p) ≡ op
unfolding logical_of text_eq
logical_of-text and_op p = refl
logical_of-text or_op p = refl

array_rest-print :
    (p : ℕ) (ws : List Word) (rest : List Token) (n : ℕ)
    → array_rest (print_rest p ws rest) n ≡ parsed (map word_text ws) rest n
unfolding array_rest is_type
array_rest-print p [] [] n = refl
array_rest-print p [] (t ∷ rest) n = refl
array_rest-print p (literal v ∷ ws) rest n = rw (array_rest-print p ws rest n) refl
array_rest-print p (bare v ∷ ws) rest n = rw (array_rest-print p ws rest n) refl

parse_value-print :
    (fld : FieldDefinition) (op : Operator) (p : ℕ) (w : Written) (rest : List Token) (n : ℕ)
    → parse_value fld op (print_written p w rest) n
      ≡ parsed (condition (suc n) (written_query fld op w)) rest (suc n)
unfolding parse_value parse_array finish_condition is_type text_eq upper_char
parse_value-print fld op p (single (literal v)) rest n = refl
parse_value-print fld op p (single (bare v)) rest n = refl
parse_value-print fld op p (several []) rest n = refl
parse_value-print fld op p (several (literal v ∷ ws)) rest n =
    rw (array_rest-print p ws rest n) refl
parse_value-print fld op p (several (bare v ∷ ws)) rest n = rw (array_rest-print p ws rest n) refl

pub parse_condition-comparison :
    (fields : List FieldDefinition) (p : ℕ) (name : Text) (fld : FieldDefinition) (op : Operator)
    (w : Written) (rest : List Token) (n : ℕ)
    → IsValidTerm fields (comparison p name fld op w)
    → parse_condition fields (print_term (comparison p name fld op w) rest) n
      ≡ parsed (condition (suc n) (written_query fld op w)) rest (suc n)
unfolding parse_condition parse_operator is_type print_term
parse_condition-comparison fields p name fld op w rest n (found, (plain, allowed)) =
    rw (found, plain, find_operator-symbol op, allowed) (parse_value-print fld op p w rest n)
