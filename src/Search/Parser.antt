-- ===== src/Search/Parser.antt =====
-- The class `Parser` of components/shared/Search/queryParser.ts. The state is the rest of the
-- tokens, from `position` on, and the last number that `generateID` gave. Both are returned; an
-- error returns the number, which the source keeps outside the parser.
use otel_desktop_viewer.Prelude.{
  ℕ, zero, suc, ◌+◌, ◌*◌, Text, codes, text_eq, leb, ◌==◌, if◌then◌else◌, Bool, true, false, ◌&&◌,
  ◌||◌, List, [], ◌∷◌, ◌++◌, any, find, length, Option, none, some, map,
}
use otel_desktop_viewer.Search.Query.{
  Operator, symbol, operators, FieldDefinition, field_scope, attribute_scope, global,
  LogicalOperator, and_op, or_op, QueryNode, condition, group, pair,
}
use otel_desktop_viewer.Search.Messages.{
  TokenType, Token, field, operator, value, logical, lparen, rparen, lbracket, rbracket, comma, eof,
  Message, unexpected_token, expected_closing_parenthesis, expected_field_name, unknown_field,
  internal_error, expected_operator, unknown_operator, operator_not_valid, expected_value,
  expected_value_in_array, expected_value_after_comma, expected_rbracket,
}
use otel_desktop_viewer.Search.Lexer.{to_upper_case}

pub data Parsed {ℓ} (A : Type ℓ) : Type ℓ where
  parsed : A → List Token → ℕ → Parsed A
  failed : Message → ℕ → Parsed A
  out_of_fuel : Parsed A

abbrev pub then_parse {ℓ κ} :
    {A : Type ℓ} {B : Type κ} → Parsed A → (A → List Token → ℕ → Parsed B) → Parsed B
then_parse (parsed a ts n) k = k a ts n
then_parse (failed m n) k = failed m n
then_parse out_of_fuel k = out_of_fuel

type_code : TokenType → ℕ
type_code field = 0
type_code operator = 1
type_code value = 2
type_code logical = 3
type_code lparen = 4
type_code rparen = 5
type_code lbracket = 6
type_code rbracket = 7
type_code comma = 8
type_code eof = 9

-- `token.type === type`
unfoldable pub is_type : TokenType → Token → Bool
unfolding type_code
is_type e t = type_code e == type_code t.type

-- `check(type)`
abbrev pub check : TokenType → List Token → Bool
check e [] = false
check e (t ∷ ts) = is_type e t

-- A token that may stand for a value.
abbrev pub is_value_token : Token → Bool
is_value_token t = is_type value t || is_type field t

-- `toLowerCase`, for texts that are compared with a word of ASCII letters: of the characters
-- outside ASCII only U+212A has an ASCII letter alone as its small form.
unfoldable pub lower_char : ℕ → ℕ
lower_char c = if leb b'A' c && leb c b'Z' then c + 32 else if c == 0x212a then b'k' else c

abbrev pub to_lower_case : Text → Text
to_lower_case = map lower_char

abbrev pub names : Text → FieldDefinition → Bool
names name (field_scope n os) = text_eq (to_lower_case n) (to_lower_case name)
names name (attribute_scope n os) = text_eq (to_lower_case n) (to_lower_case name)
names name global = false

unfoldable pub find_field : List FieldDefinition → Text → Option FieldDefinition
unfolding lower_char
find_field fields name = find (names name) fields

unfoldable pub find_operator : Text → Option Operator
find_operator s = find (λ op. text_eq (symbol op) s) operators

-- `operators` of a field that is not global.
abbrev pub allows : FieldDefinition → Operator → Bool
allows (field_scope n os) op = any (λ o. text_eq (symbol o) (symbol op)) os
allows (attribute_scope n os) op = any (λ o. text_eq (symbol o) (symbol op)) os
allows global op = false

abbrev pub is_global : FieldDefinition → Bool
is_global global = true
is_global (field_scope n os) = false
is_global (attribute_scope n os) = false

-- `values.join(',')`
unfoldable pub join : List Text → Text
join [] = []
join (v ∷ []) = v
join (v ∷ w ∷ vs) = v ++ b',' ∷ join (w ∷ vs)

abbrev pub push_value : Text → Parsed (List Text) → Parsed (List Text)
push_value v (parsed vs ts n) = parsed (v ∷ vs) ts n
push_value v (failed m n) = failed m n
push_value v out_of_fuel = out_of_fuel

-- The loop of `parseArray` over `, value`, and the closing bracket.
unfoldable pub array_rest : List Token → ℕ → Parsed (List Text)
array_rest [] n = failed expected_rbracket n
array_rest (c ∷ []) n =
    if is_type comma c
    then failed expected_value_after_comma n
    else if is_type rbracket c
    then parsed [] [] n
    else failed expected_rbracket n
array_rest (c ∷ v ∷ ts) n =
    let more = push_value v.value (array_rest ts n) in
    if is_type comma c
    then (if is_value_token v then more else failed expected_value_after_comma n)
    else if is_type rbracket c
    then parsed [] (v ∷ ts) n
    else failed expected_rbracket n

-- `parseArray` behind the opening bracket, up to `join`.
unfoldable pub parse_array : List Token → ℕ → Parsed (List Text)
unfolding array_rest
parse_array [] n = failed expected_value_in_array n
parse_array (t ∷ ts) n =
    if is_type rbracket t
    then parsed [] ts n
    else if is_value_token t
    then push_value t.value (array_rest ts n)
    else failed expected_value_in_array n

-- The end of `parseCondition`: null values are spelled alike, and the node gets an id.
unfoldable pub finish_condition :
    FieldDefinition → Operator → Text → List Token → ℕ → Parsed QueryNode
finish_condition fld op v ts n =
    let upper = to_upper_case v in
    let v' =
      if text_eq upper (codes "NULL") || text_eq upper (codes "NIL") then codes "NULL" else v in
    parsed (condition (suc n) (record { field = fld; operator = op; value = v' })) ts (suc n)

abbrev pub brackets : List Text → Text
brackets vs = b'[' ∷ join vs ++ b']' ∷ []

-- `parseCondition`, from the value on.
unfoldable pub parse_value : FieldDefinition → Operator → List Token → ℕ → Parsed QueryNode
unfolding parse_array finish_condition join
parse_value fld op [] n = failed expected_value n
parse_value fld op (t ∷ ts) n =
    if is_type lbracket t
    then then_parse (parse_array ts n) (λ vs ts' n'. finish_condition fld op (brackets vs) ts' n')
    else if is_value_token t
    then finish_condition fld op t.value ts n
    else failed expected_value n

-- `parseCondition`, from the operator on.
unfoldable pub parse_operator : FieldDefinition → List Token → ℕ → Parsed QueryNode
unfolding parse_value
parse_operator fld [] n = failed expected_operator n
parse_operator fld (t ∷ ts) n =
    if is_type operator t
    then elim (find_operator t.value) [
      | none ↦ failed (unknown_operator t.value) n
      | some op ↦
          if allows fld op then parse_value fld op ts n else failed (operator_not_valid op fld) n
    ]
    else failed expected_operator n

module _ (fields : List FieldDefinition) where
  unfoldable pub parse_condition : List Token → ℕ → Parsed QueryNode
  unfolding parse_operator
  parse_condition [] n = failed expected_field_name n
  parse_condition (t ∷ ts) n =
      if is_type field t
      then elim (find_field fields t.value) [
        | none ↦ failed (unknown_field t.value) n
        | some fld ↦ if is_global fld then failed internal_error n else parse_operator fld ts n
      ]
      else failed expected_field_name n

-- `this.consume('RPAREN', 'Expected closing parenthesis')`
unfoldable pub consume_rparen : QueryNode → List Token → ℕ → Parsed QueryNode
consume_rparen expr [] n = failed expected_closing_parenthesis n
consume_rparen expr (t ∷ ts) n =
    if is_type rparen t then parsed expr ts n else failed expected_closing_parenthesis n

-- `operatorToken.value as 'AND' | 'OR'`
unfoldable pub logical_of : Token → LogicalOperator
logical_of t = if text_eq t.value (codes "AND") then and_op else or_op

-- `parseExpression`, its loop, and `parseTerm`.
module _ (fields : List FieldDefinition) where
  unfoldable mutual
    pub parse_expression : ℕ → List Token → ℕ → Parsed QueryNode
    parse_expression zero ts n = out_of_fuel
    parse_expression (suc fuel) ts n =
        then_parse (parse_term fuel ts n) (λ left ts' n'. parse_more fuel left ts' n')

    pub parse_more : ℕ → QueryNode → List Token → ℕ → Parsed QueryNode
    parse_more zero left ts n = out_of_fuel
    parse_more (suc fuel) left [] n = parsed left [] n
    parse_more (suc fuel) left (t ∷ ts) n = elim (is_type logical t) [
      | true ↦ then_parse (parse_term fuel ts n) (λ right ts' n'.
          parse_more fuel (group (suc n') (logical_of t) (pair left right)) ts' (suc n'))
      | false ↦ parsed left (t ∷ ts) n
    ]

    pub parse_term : ℕ → List Token → ℕ → Parsed QueryNode
    parse_term zero ts n = out_of_fuel
    parse_term (suc fuel) [] n = parse_condition fields [] n
    parse_term (suc fuel) (t ∷ ts) n = elim (is_type lparen t) [
      | true ↦ then_parse (parse_expression fuel ts n) (λ expr ts' n'. consume_rparen expr ts' n')
      | false ↦ parse_condition fields (t ∷ ts) n
    ]

  -- `if (leftover && leftover.type !== 'EOF')`
  unfoldable pub check_leftover : QueryNode → List Token → ℕ → Parsed (Option QueryNode)
  check_leftover node [] n = parsed (some node) [] n
  check_leftover node (t ∷ ts) n =
      if is_type eof t then parsed (some node) (t ∷ ts) n else failed (unexpected_token t.value) n

  -- `parse`; `null` without tokens. Each level of the grammar takes two units of fuel a token.
  unfoldable pub parse : List Token → ℕ → Parsed (Option QueryNode)
  unfolding parse_expression check_leftover
  parse [] n = parsed none [] n
  parse (t ∷ ts) n =
      then_parse (parse_expression (2 * length (t ∷ ts) + 2) (t ∷ ts) n)
        (λ node ts' n'. check_leftover node ts' n')
